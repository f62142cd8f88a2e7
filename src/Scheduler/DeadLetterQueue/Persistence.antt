-- ===== src/Scheduler/DeadLetterQueue/Persistence.antt =====
-- What a restart finds of the queue of src/scheduler/dlq.ts.
use roboppi.Base.{
  ℕ, ◌+◌, ◌≤◌, ◌<◌, ◌≡◌, refl, ap, sym, subst, ◌∙◌, Bool, true, false, Option, none, some, List, [],
  ◌∷◌, ◌++◌, arith, leb, if◌then◌else◌, length, length-append,
}
use roboppi.Scheduler.DeadLetterQueue.{
  DlqEntry, Line, json, corrupted, whole, torn, DlqFile, torn_line, appended, append_to,
  DeadLetterQueue, parse_lines, load_from_file, new, to_lines, rest_of, append_entry, rewrite_file,
  push, pop, clear, Call, pushes, pops, clears, step, run,
}

append_assoc : (a b c : List DlqEntry) → (a ++ b) ++ c ≡ a ++ (b ++ c)
append_assoc [] b c = refl
append_assoc (x ∷ a) b c = ap (λ t. x ∷ t) (append_assoc a b c)

append_nil_lines : (a : List Line) → a ++ [] ≡ a
append_nil_lines [] = refl
append_nil_lines (x ∷ a) = ap (λ t. x ∷ t) (append_nil_lines a)

parse_lines-append :
    (a : List Line) (e : DlqEntry) → parse_lines (a ++ json e ∷ []) ≡ parse_lines a ++ e ∷ []
unfolding parse_lines
parse_lines-append [] e = refl
parse_lines-append (json x ∷ a) e = ap (λ t. x ∷ t) (parse_lines-append a e)
parse_lines-append (corrupted ∷ a) e = parse_lines-append a e

parse_lines_corrupted : (a : List Line) → parse_lines (a ++ corrupted ∷ []) ≡ parse_lines a
unfolding parse_lines
parse_lines_corrupted [] = refl
parse_lines_corrupted (json x ∷ a) = ap (λ t. x ∷ t) (parse_lines_corrupted a)
parse_lines_corrupted (corrupted ∷ a) = parse_lines_corrupted a

parse_lines-to_lines : (es : List DlqEntry) → parse_lines (to_lines es) ≡ es
unfolding parse_lines to_lines
parse_lines-to_lines [] = refl
parse_lines-to_lines (e ∷ es) = ap (λ t. e ∷ t) (parse_lines-to_lines es)

-- The file ends with a newline, but for blanks; or there is none yet.
abbrev pub IsWhole : Option DlqFile → Type 0
IsWhole none = Unit
IsWhole (some file) = file.end ≡ whole

load-append_to :
    (e : DlqEntry) (file : Option DlqFile)
    → IsWhole file
    → load_from_file (some (append_to e file)) ≡ load_from_file file ++ e ∷ []
unfolding load_from_file parse_lines
load-append_to e none w = refl
load-append_to e (some file) w =
    ap parse_lines (append_nil_lines (file.lines ++ appended e file.end ∷ []))
    ∙ ap (λ d. parse_lines (file.lines ++ appended e d ∷ [])) w
    ∙ parse_lines-append file.lines e
    ∙ ap (λ l. parse_lines l ++ e ∷ []) (sym (append_nil_lines file.lines))
    ∙ ap (λ d. parse_lines (file.lines ++ torn_line d) ++ e ∷ []) (sym w)

load-to_lines :
    (es : List DlqEntry) → load_from_file (some (record { lines = to_lines es; end = whole })) ≡ es
unfolding load_from_file
load-to_lines es = ap parse_lines (append_nil_lines (to_lines es)) ∙ parse_lines-to_lines es

-- How many pushes meet a full queue.
abbrev pub is_overflow : Call → DeadLetterQueue → ℕ
is_overflow (pushes e) q = if leb q.max_size (length q.entries) then 1 else 0
is_overflow pops q = 0
is_overflow clears q = 0

unfoldable pub overflows : List Call → DeadLetterQueue → ℕ
overflows [] q = 0
overflows (c ∷ cs) q = is_overflow c q + overflows cs (step c q)

-- The file reads back as the queue's entries behind at most so many that the queue has dropped.
pub record Keeps (q : DeadLetterQueue) (dropped : ℕ) : Type 0 where
  pub persists : q.persists ≡ true
  pub whole_file : IsWhole q.file
  pub lost : List DlqEntry
  pub few : length lost ≤ dropped
  pub reload : load_from_file q.file ≡ lost ++ q.entries

first_dropped :
    (es : List DlqEntry) → (xs : List DlqEntry) × (xs ++ rest_of es ≡ es) × (length xs ≤ 1)
first_dropped [] = ([], refl, omega arith)
first_dropped (e ∷ es) = (e ∷ [], refl, omega arith)

append_to-IsWhole : (e : DlqEntry) (file : Option DlqFile) → IsWhole (some (append_to e file))
append_to-IsWhole e none = refl
append_to-IsWhole e (some file) = refl

-- What the queue keeps when it takes an entry, and what it drops.
kept-Keeps :
    (full : Bool) (es : List DlqEntry)
    → (xs : List DlqEntry) × (xs ++ (if full then rest_of es else es) ≡ es)
      × (length xs ≤ (if full then 1 else 0))
kept-Keeps true es = first_dropped es
kept-Keeps false es = ([], refl, omega arith)

push-Keeps :
    (e : DlqEntry) (q : DeadLetterQueue) (n : ℕ)
    → Keeps q n
    → Keeps (push true e q) (n + (if leb q.max_size (length q.entries) then 1 else 0))
unfolding push append_entry
push-Keeps e q n h =
    let full = leb q.max_size (length q.entries) in
    let kept = if full then rest_of q.entries else q.entries in
    let (xs, both, few) = kept-Keeps full q.entries in
    rw h.persists (record {
      persists = refl;
      whole_file = append_to-IsWhole e q.file;
      lost = h.lost ++ xs;
      few = omega (arith, length-append h.lost xs, few, h.few);
      reload =
          load-append_to e q.file h.whole_file
          ∙ ap (λ t. t ++ e ∷ [])
              (h.reload ∙ ap (λ t. h.lost ++ t) (sym both) ∙ sym (append_assoc h.lost xs kept))
          ∙ append_assoc (h.lost ++ xs) kept (e ∷ []);
    })

pop-entries_Keeps :
    (es : List DlqEntry) (max_size : ℕ) (persists : Bool) (file : Option DlqFile) (n : ℕ)
    → Keeps (record { entries = es; max_size = max_size; persists = persists; file = file }) n
    → Keeps
        (pop true
          (record { entries = es; max_size = max_size; persists = persists; file = file })).1
        n
unfolding pop rewrite_file
pop-entries_Keeps [] max_size persists file n h = h
pop-entries_Keeps (e ∷ es) max_size persists file n h = rw h.persists (record {
  persists = refl;
  whole_file = refl;
  lost = [];
  few = omega arith;
  reload = load-to_lines es;
})

pop-Keeps : (q : DeadLetterQueue) (n : ℕ) → Keeps q n → Keeps (pop true q).1 n
pop-Keeps q n h = pop-entries_Keeps q.entries q.max_size q.persists q.file n h

clear-Keeps : (q : DeadLetterQueue) (n : ℕ) → Keeps q n → Keeps (clear true q) n
unfolding clear rewrite_file
clear-Keeps q n h = rw h.persists (record {
  persists = refl;
  whole_file = refl;
  lost = [];
  few = omega arith;
  reload = load-to_lines [];
})

step-Keeps :
    (c : Call) (q : DeadLetterQueue) (n : ℕ) → Keeps q n → Keeps (step c q) (n + is_overflow c q)
unfolding step
step-Keeps (pushes e) q n h = push-Keeps e q n h
step-Keeps pops q n h = subst (Keeps (pop true q).1) (omega arith) (pop-Keeps q n h)
step-Keeps clears q n h = subst (Keeps (clear true q)) (omega arith) (clear-Keeps q n h)

run-Keeps :
    (cs : List Call) (q : DeadLetterQueue) (n : ℕ)
    → Keeps q n
    → Keeps (run cs q) (n + overflows cs q)
unfolding run overflows
run-Keeps [] q n h = subst (Keeps q) (omega arith) h
run-Keeps (c ∷ cs) q n h =
    subst (Keeps (run cs (step c q))) (omega arith)
      (run-Keeps cs (step c q) (n + is_overflow c q) (step-Keeps c q n h))

new-Keeps : (max_size : ℕ) (file : Option DlqFile) → IsWhole file → Keeps (new max_size true file) 0
unfolding new
new-Keeps max_size file w = record {
  persists = refl;
  whole_file = w;
  lost = [];
  few = omega arith;
  reload = refl;
}

-- After any calls on a queue with a file that can be written, and that was not there or ended with a newline, the
-- file ends so and reads back as the queue's entries behind at most so many others as pushes have met a full
-- queue; so a restart loses no entry.
pub run-new-Keeps :
    (max_size : ℕ) (file : Option DlqFile) (cs : List Call)
    → IsWhole file
    → Keeps (run cs (new max_size true file)) (overflows cs (new max_size true file))
run-new-Keeps max_size file cs w =
    subst (Keeps (run cs (new max_size true file))) (omega arith)
      (run-Keeps cs (new max_size true file) 0 (new-Keeps max_size file w))

-- A new queue with the options of another, on the file that it left.
abbrev pub restart : DeadLetterQueue → DeadLetterQueue
restart q = new q.max_size q.persists q.file

-- If a push meets a full queue whose file ends with a newline and reads back as its entries, the queue drops its oldest entry but
-- a restart finds it again: it holds all the old entries and the new one, more than the maximum.
pub overflow_returns :
    (e : DlqEntry) (q : DeadLetterQueue)
    → q.persists ≡ true
    → IsWhole q.file
    → load_from_file q.file ≡ q.entries
    → q.max_size ≤ length q.entries
    → ((restart (push true e q)).entries ≡ q.entries ++ e ∷ [])
      × ((restart (push true e q)).max_size < length (restart (push true e q)).entries)
unfolding push append_entry new
overflow_returns e q p w r full =
    let back : (restart (push true e q)).entries ≡ q.entries ++ e ∷ [] =
      rw p (load-append_to e q.file w ∙ ap (λ t. t ++ e ∷ []) r) in
    let same : (restart (push true e q)).max_size ≡ q.max_size = rw p refl in
    (back, omega (arith, ap (λ l. length l) back, length-append q.entries (e ∷ []), full, same))

-- If a write was cut short, the next entry is appended to what is left of it: a restart finds neither, even if
-- only the newline was missing.
torn_line_swallows :
    (e : DlqEntry) (lines : List Line) (line : Line) (max_size : ℕ)
    → (restart (
        push true e (new max_size true (some (record { lines = lines; end = torn line }))))).entries
      ≡ parse_lines lines
unfolding push append_entry new load_from_file
torn_line_swallows e lines line max_size =
    ap parse_lines (append_nil_lines (lines ++ corrupted ∷ [])) ∙ parse_lines_corrupted lines
