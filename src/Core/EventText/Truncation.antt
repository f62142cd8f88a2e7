-- ===== src/Core/EventText/Truncation.antt =====
-- What src/core/job-event-throttle.ts keeps of a long text.
use roboppi.Base.{
  ℕ, ◌+◌, ◌-◌, ◌≤◌, ◌<◌, ◌≡◌, refl, ap, sym, ◌∙◌, ◌⊎◌, inl, inr, true, [], ◌∷◌, ◌++◌, arith, leb,
  ◌==◌, Bool-cases, leb_false→lt, leb→le, ==_iff,
}
use roboppi.Core.EventText.{
  Text, point_bytes, byte_length, replacement, decode_point, truncation_suffix, decode_prefix,
  drop_replacement, truncate_string,
}

byte_length-append : (s t : Text) → byte_length (s ++ t) ≡ byte_length s + byte_length t
unfolding byte_length
byte_length-append [] t = omega arith
byte_length-append (c ∷ s) t = omega (arith, byte_length-append s t)

append_assoc : (a b c : Text) → (a ++ b) ++ c ≡ a ++ (b ++ c)
append_assoc [] b c = refl
append_assoc (x ∷ a) b c = ap (λ t. x ∷ t) (append_assoc a b c)

-- A text as it reads back from UTF-8: the text itself, unless it has a lone surrogate.
abbrev pub read_back : Text → Text
read_back [] = []
read_back (c ∷ s) = decode_point c ∷ read_back s

decoded_bytes : (c : ℕ) → point_bytes (decode_point c) ≡ point_bytes c
unfolding point_bytes decode_point
decoded_bytes c = ground arith

-- A prefix of a text that is as long as fits, but for at most three bytes.
pub record Fits (max : ℕ) (s kept : Text) : Type 0 where
  pub rest : Text
  pub whole : kept ++ rest ≡ read_back s
  pub under : byte_length kept ≤ max
  pub close : max ≤ byte_length kept + 3

-- The whole code points of the first `max` bytes, and what stands for the bytes behind them.
record Decoded (max : ℕ) (s : Text) : Type 0 where
  kept : Text
  rest : Text
  whole : kept ++ rest ≡ read_back s
  ends :
      ((decode_prefix max s ≡ kept) × (byte_length kept ≡ max))
      ⊎ (decode_prefix max s ≡ kept ++ replacement ∷ [])
        × (byte_length kept ≤ max)
        × (max ≤ byte_length kept + 3)

point_small : (c : ℕ) → point_bytes c ≤ 4
unfolding point_bytes
point_small c = ground arith

decoded : (s : Text) (max : ℕ) → max < byte_length s → Decoded max s
unfolding decode_prefix byte_length
decoded [] max h = absurd (omega arith)
decoded (c ∷ s) max h = elim (Bool-cases (leb (point_bytes c) max)) [
  | inl fits ↦
      let d = decoded s (max - point_bytes c) (ground arith) in
      record {
        kept = decode_point c ∷ d.kept;
        rest = d.rest;
        whole = ap (λ t. decode_point c ∷ t) d.whole;
        ends = elim d.ends [
          | inl (e, n) ↦
              inl (rw fits (ap (λ t. decode_point c ∷ t) e), ground (arith, decoded_bytes c))
          | inr (e, lo, hi) ↦ inr (
            rw fits (ap (λ t. decode_point c ∷ t) e),
            ground (arith, decoded_bytes c),
            ground (arith, decoded_bytes c),
          )
        ];
      }
  | inr over ↦ elim (Bool-cases (max == 0)) [
    | inl zero_left ↦ record {
      kept = [];
      rest = read_back (c ∷ s);
      whole = refl;
      ends = inl (rw (over, zero_left) refl, ground arith);
    }
    | inr some_left ↦ record {
      kept = [];
      rest = read_back (c ∷ s);
      whole = refl;
      ends = inr (rw (over, some_left) refl, omega arith, ground (arith, point_small c));
    }
  ]
]

drop_replacement_last : (s : Text) → drop_replacement (s ++ replacement ∷ []) ≡ s
unfolding drop_replacement
drop_replacement_last [] = refl
drop_replacement_last (c ∷ []) = refl
drop_replacement_last (c ∷ d ∷ s) = ap (λ t. c ∷ t) (drop_replacement_last (d ∷ s))

replacement_three : (c : ℕ) → (c == replacement) ≡ true → point_bytes c ≡ 3
unfolding point_bytes
replacement_three c e = ap point_bytes ((==_iff c replacement).0 e)

drop_replacement_rest :
    (s : Text) → (r : Text) × (drop_replacement s ++ r ≡ s) × (byte_length r ≤ 3)
unfolding drop_replacement byte_length
drop_replacement_rest [] = ([], refl, omega arith)
drop_replacement_rest (c ∷ []) = elim (Bool-cases (c == replacement)) [
  | inl e ↦ (c ∷ [], rw e refl, omega (arith, replacement_three c e))
  | inr n ↦ ([], rw n refl, omega arith)
]
drop_replacement_rest (c ∷ d ∷ s) =
    let (r, e, n) = drop_replacement_rest (d ∷ s) in (r, ap (λ t. c ∷ t) e, n)

decode_prefix-Fits :
    (s : Text) (max : ℕ) → max < byte_length s → Fits max s (drop_replacement (decode_prefix max s))
decode_prefix-Fits s max h =
    let d = decoded s max h in
    elim d.ends [
      | inl (e, n) ↦
          let (r, w, small) = drop_replacement_rest d.kept in
          let bytes : byte_length d.kept ≡ byte_length (drop_replacement d.kept) + byte_length r =
            sym (ap byte_length w) ∙ byte_length-append (drop_replacement d.kept) r in
          rw e (record {
            rest = r ++ d.rest;
            whole =
                sym (append_assoc (drop_replacement d.kept) r d.rest)
                ∙ ap (λ t. t ++ d.rest) w
                ∙ d.whole;
            under = omega (arith, bytes, n);
            close = omega (arith, bytes, n, small);
          })
      | inr (e, lo, hi) ↦
          rw (e, drop_replacement_last d.kept)
            (record { rest = d.rest; whole = d.whole; under = lo; close = hi })
    ]

-- A text of at most `max` bytes stays. Of a longer one, with each lone surrogate read as U+FFFD, a
-- prefix stays that has at most `max` bytes and lacks at most three of them, and the suffix follows.
pub truncate_string_lem :
    (s : Text) (max : ℕ)
    → (byte_length s ≤ max) × (truncate_string s max ≡ s)
      ⊎ (max < byte_length s)
        × (kept : Text) × Fits max s kept
        × (truncate_string s max ≡ kept ++ truncation_suffix)
unfolding truncate_string
truncate_string_lem s max = elim (Bool-cases (leb (byte_length s) max)) [
  | inl short ↦ inl (leb→le (byte_length s) max short, rw short refl)
  | inr long ↦
      let more = leb_false→lt (byte_length s) max long in
      inr
        (more, drop_replacement (decode_prefix max s), decode_prefix-Fits s max more, rw long refl)
]
