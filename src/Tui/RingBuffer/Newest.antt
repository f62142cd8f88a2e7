-- ===== src/Tui/RingBuffer/Newest.antt =====
-- What src/tui/ring-buffer.ts keeps: the longest run of the newest lines that fits.
use roboppi.Base.{
  ℕ, ◌+◌, ◌-◌, ◌≤◌, ◌≡◌, refl, ap, subst, inl, inr, List, [], ◌∷◌, ◌++◌, length, ltb, arith,
  length-append, Bool-cases,
}
use roboppi.Tui.RingBuffer.{
  Line, RingBuffer, RingBufferOptions, Call, pushes, clears, new, evict_lines, evict_bytes, push,
  clear, run, lines,
}

pub bytes : List Line → ℕ
bytes [] = 0
bytes (line ∷ ls) = length line + bytes ls

abbrev pub Fits : ℕ → ℕ → List Line → Type 0
Fits max_lines max_bytes ls = (length ls ≤ max_lines) × (bytes ls ≤ max_bytes)

-- `kept` ends `all`, fits, and no longer end of `all` does.
pub record IsNewest (max_lines max_bytes : ℕ) (all kept : List Line) : Type 0 where
  pub dropped : List Line
  pub whole : dropped ++ kept ≡ all
  pub fits : Fits max_lines max_bytes kept
  pub longest :
      (older newer : List Line)
      → older ++ newer ≡ all
      → Fits max_lines max_bytes newer
      → length newer ≤ length kept

abbrev pub IsCounted : RingBuffer → Type 0
IsCounted r = r.total_bytes ≡ bytes r.buf

IsNewest-all :
    (max_lines max_bytes : ℕ) (all : List Line)
    → Fits max_lines max_bytes all
    → IsNewest max_lines max_bytes all all
IsNewest-all max_lines max_bytes all h = record {
  dropped = [];
  whole = refl;
  fits = h;
  longest = λ older newer e _. omega (arith, ap (λ l. length l) e, length-append older newer);
}

tail_of : List Line → List Line
tail_of [] = []
tail_of (_ ∷ ls) = ls

-- A list that is too long has no end longer than those of its tail.
IsNewest-skip :
    (max_lines max_bytes : ℕ) (line : Line) (ls kept : List Line)
    → ¬ Fits max_lines max_bytes (line ∷ ls)
    → IsNewest max_lines max_bytes ls kept
    → IsNewest max_lines max_bytes (line ∷ ls) kept
unfolding tail_of
IsNewest-skip max_lines max_bytes line ls kept too_long n = record {
  dropped = line ∷ n.dropped;
  whole = ap (λ l. line ∷ l) n.whole;
  fits = n.fits;
  longest = longer;
}
  where
    longer :
        (older newer : List Line)
        → older ++ newer ≡ line ∷ ls
        → Fits max_lines max_bytes newer
        → length newer ≤ length kept
    longer [] newer e f = absurd (too_long (subst (λ l. Fits max_lines max_bytes l) e f))
    longer (_ ∷ older) newer e f = n.longest older newer (ap tail_of e) f

-- What a loop leaves is the longest end that fits, with its bytes.
abbrev Leaves : ℕ → ℕ → List Line → List Line × ℕ → Type 0
Leaves max_lines max_bytes all left =
    IsNewest max_lines max_bytes all left.0 × (left.1 ≡ bytes left.0)

evict_bytes-Leaves :
    (max_lines max_bytes : ℕ) (ls : List Line) (total : ℕ)
    → length ls ≤ max_lines
    → total ≡ bytes ls
    → Leaves max_lines max_bytes ls (evict_bytes max_bytes ls total)
unfolding evict_bytes bytes
evict_bytes-Leaves max_lines max_bytes [] total h e =
    (IsNewest-all max_lines max_bytes [] (omega arith), e)
evict_bytes-Leaves max_lines max_bytes (line ∷ ls) total h e =
    elim (Bool-cases (ltb max_bytes total)) [
      | inl over ↦ rw over (
          let (n, c) =
            evict_bytes-Leaves max_lines max_bytes ls (total - length line) (omega arith)
              (omega arith) in
          (IsNewest-skip max_lines max_bytes line ls _ (λ f. ground (arith, f.1)) n, c))
      | inr under ↦ rw under (IsNewest-all max_lines max_bytes (line ∷ ls) (h, ground arith), e)
    ]

evict_lines_fit :
    (max_lines : ℕ) (ls : List Line) (total : ℕ)
    → length ls ≤ max_lines
    → evict_lines max_lines ls total ≡ (ls, total)
unfolding evict_lines
evict_lines_fit max_lines [] total h = refl
evict_lines_fit max_lines (line ∷ ls) total h = ground arith

both-Leaves :
    (max_lines max_bytes : ℕ) (ls : List Line) (total : ℕ)
    → total ≡ bytes ls
    → Leaves max_lines max_bytes ls (
        evict_bytes max_bytes (evict_lines max_lines ls total).0 (evict_lines max_lines ls total).1)
unfolding evict_lines bytes
both-Leaves max_lines max_bytes [] total e =
    evict_bytes-Leaves max_lines max_bytes [] total (omega arith) e
both-Leaves max_lines max_bytes (line ∷ ls) total e =
    elim (Bool-cases (ltb max_lines (length (line ∷ ls)))) [
      | inl over ↦ rw over (
          let (n, c) = both-Leaves max_lines max_bytes ls (total - length line) (omega arith) in
          (IsNewest-skip max_lines max_bytes line ls _ (λ f. ground (arith, f.0)) n, c))
      | inr under ↦
          rw under (evict_bytes-Leaves max_lines max_bytes (line ∷ ls) total (ground arith) e)
    ]

bytes-append : (xs ys : List Line) → bytes (xs ++ ys) ≡ bytes xs + bytes ys
unfolding bytes
bytes-append [] ys = omega arith
bytes-append (line ∷ xs) ys = omega (arith, bytes-append xs ys)

pub push-Leaves :
    (item : Line) (r : RingBuffer)
    → IsCounted r
    → IsNewest r.max_lines r.max_bytes (r.buf ++ item ∷ []) (push item r).buf
      × IsCounted (push item r)
unfolding push bytes
push-Leaves item r h =
    both-Leaves r.max_lines r.max_bytes (r.buf ++ item ∷ []) (r.total_bytes + length item)
      (omega (arith, h, bytes-append r.buf (item ∷ [])))

run-IsCounted : (calls : List Call) (r : RingBuffer) → IsCounted r → IsCounted (run calls r)
unfolding run clear bytes
run-IsCounted [] r h = h
run-IsCounted (pushes item ∷ calls) r h = run-IsCounted calls (push item r) (push-Leaves item r h).1
run-IsCounted (clears ∷ calls) r h = run-IsCounted calls (clear r) refl

-- After any calls on a new buffer, a push leaves the longest run of the newest lines, the pushed one
-- included, that has at most the configured lines and bytes, and the count of bytes is theirs.
pub push-run-IsNewest :
    (opts : RingBufferOptions) (calls : List Call) (item : Line)
    → let r = run calls (new opts) in
      IsNewest r.max_lines r.max_bytes (lines r ++ item ∷ []) (lines (push item r))
      × ((push item r).total_bytes ≡ bytes (lines (push item r)))
unfolding new bytes lines
push-run-IsNewest opts calls item =
    push-Leaves item (run calls (new opts)) (run-IsCounted calls (new opts) refl)
