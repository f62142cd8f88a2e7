-- ===== src/Workflow/Duration/Grammar.antt =====
-- Which texts src/workflow/duration.ts accepts, and what they mean.
use roboppi.Base.{
  ℕ, zero, suc, ◌+◌, ◌-◌, ◌≤◌, ◌<◌, ◌≡◌, ◌↔◌, refl, ap, sym, subst, ◌∙◌, Bool, if◌then◌else◌, inl,
  inr, none, some, List, [], ◌∷◌, ◌++◌, length, All, drop, arith, length-append, Option-cases, ltb,
  ◌==◌,
}
use roboppi.Base.Trim.{Text, trim}
use roboppi.Workflow.Duration.{
  Token, match_token, token_length, match_all, matched_len, total_ms, is_empty, parse_duration,
}
use roboppi.Workflow.Duration.Tokens.{
  IsToken, print_token, print_tokens, match_token_whole, match_token-print_token,
  length-print_token, IsToken-long, print_tokens-StartsToken,
}

match_all-skip : (p s : Text) → match_all (length p) (p ++ s) ≡ match_all 0 s
unfolding match_all
match_all-skip [] s = refl
match_all-skip (c ∷ p) s = match_all-skip p s

match_all-match :
    (p s : Text) (t : Token)
    → 2 ≤ token_length t
    → length p ≡ token_length t
    → match_token (p ++ s) ≡ some t
    → match_all 0 (p ++ s) ≡ t ∷ match_all 0 s
unfolding match_all
match_all-match [] s t long e h = absurd (omega arith)
match_all-match (c ∷ p) s t long e h =
    rw (h, match_all)
      (ap (λ ts. t ∷ ts) (ap (λ k. match_all k (p ++ s)) (omega arith) ∙ match_all-skip p s))

-- Tokens in a row are read back.
match_all-print_tokens : (ts : List Token) → All IsToken ts → match_all 0 (print_tokens ts) ≡ ts
unfolding match_all print_tokens
match_all-print_tokens [] h = refl
match_all-print_tokens (t ∷ ts) (h, hs) =
    match_all-match (print_token t) (print_tokens ts) t (IsToken-long t h) (length-print_token t)
      (match_token-print_token t (print_tokens ts) h (print_tokens-StartsToken ts hs))
    ∙ ap (λ l. t ∷ l) (match_all-print_tokens ts hs)

matched_len-print_tokens : (ts : List Token) → matched_len ts ≡ length (print_tokens ts)
unfolding matched_len print_tokens
matched_len-print_tokens [] = refl
matched_len-print_tokens (t ∷ ts) = omega (
  arith,
  matched_len-print_tokens ts,
  length-print_token t,
  length-append (print_token t) (print_tokens ts),
)

-- The matches in a text from an index on; if they fill it, it is tokens and nothing else.
record Reads (skip : ℕ) (s : Text) (ts : List Token) : Type 0 where
  within : matched_len ts + skip ≤ length s
  filled : matched_len ts + skip ≡ length s → All IsToken ts × (print_tokens ts ≡ drop skip s)

drop-append : (p s t : Text) → p ++ s ≡ t → drop (length p) t ≡ s
drop-append [] s t e = sym e
drop-append (c ∷ p) s [] e = absurd (omega (arith, ap (λ l. length l) e))
drop-append (c ∷ p) s (d ∷ t) e = drop-append p s t (ap tail_of e)
  where
    tail_of : Text → Text
    tail_of [] = []
    tail_of (_ ∷ l) = l

drop_nil : (k : ℕ) → [] ≡ drop {A = ℕ} k []
drop_nil zero = refl
drop_nil (suc k) = refl

-- What a match at the head adds to what is read behind it.
Reads-match :
    (c : ℕ) (s rest : Text) (t : Token) (ts : List Token) (k : ℕ)
    → IsToken t
    → print_token t ++ rest ≡ c ∷ s
    → token_length t ≡ suc k
    → Reads k s ts
    → Reads 0 (c ∷ s) (t ∷ ts)
unfolding matched_len print_tokens
Reads-match c s rest t ts k h e long r = record {
  within = omega (arith, r.within);
  filled = λ f.
      let (hs, spelled) = r.filled (omega (arith, f)) in
      (
        (h, hs),
        ap (λ l. print_token t ++ l)
              (spelled
                ∙ subst (λ m. drop m (c ∷ s) ≡ rest) (length-print_token t ∙ long)
                    (drop-append (print_token t) rest (c ∷ s) e))
            ∙ e,
      );
}

match_all-Reads : (skip : ℕ) (s : Text) → skip ≤ length s → Reads skip s (match_all skip s)
unfolding match_all matched_len print_tokens
match_all-Reads skip [] h = record { within = omega arith; filled = λ _. (tt, drop_nil skip) }
match_all-Reads (suc skip) (c ∷ s) h =
    let r = match_all-Reads skip s (omega arith) in
    record { within = omega (arith, r.within); filled = λ e. r.filled (omega arith) }
match_all-Reads zero (c ∷ s) h = elim (Option-cases (match_token (c ∷ s))) [
  | inl e ↦ rw (e, match_all) (skipped (match_all-Reads 0 s (omega arith)))
  | inr (t, e) ↦
      let (h, rest, whole) = match_token_whole (c ∷ s) t e in
      let long : 2 ≤ token_length t = IsToken-long t h in
      let fits : token_length t ≤ suc (length s) = omega (
        arith,
        length-print_token t,
        length-append (print_token t) rest,
        ap (λ l. length l) whole,
      ) in
      rw (e, match_all)
        (Reads-match c s rest t (match_all (token_length t - 1) s) (token_length t - 1) h whole
          (omega arith) (match_all-Reads (token_length t - 1) s (omega arith)))
]
  where
    skipped : {ts : List Token} → Reads 0 s ts → Reads 0 (c ∷ s) ts
    skipped r = record {
      within = omega (arith, r.within);
      filled = λ f. absurd (omega (arith, r.within, f));
    }

-- A text of one token or more, each digits with a unit, that adds up to a positive number of ms.
pub record IsDuration (s : Text) (n : ℕ) : Type 0 where
  pub tokens : List Token
  pub are_tokens : All IsToken tokens
  pub spelled : print_tokens tokens ≡ s
  pub adds_up : total_ms tokens ≡ n
  pub positive : 0 < n

accepted :
    (empty : Bool) (m l t n : ℕ)
    → (if empty then none else if m == l then (if ltb 0 t then some t else none) else none) ≡ some n
    → (m ≡ l) × (0 < t) × (t ≡ n)
accepted empty m l t n h = ground arith

accepts :
    (s : Text) (m t : ℕ)
    → m ≡ length s
    → 1 ≤ m
    → 0 < t
    → (if is_empty s
        then none
        else if m == length s
        then (if ltb 0 t then some t else none)
        else none)
      ≡ some t
unfolding is_empty
accepts [] m t e long pos = absurd (omega arith)
accepts (c ∷ s) m t e long pos = ground arith

tokens_long : (ts : List Token) → All IsToken ts → 0 < total_ms ts → 1 ≤ matched_len ts
unfolding total_ms matched_len
tokens_long [] h pos = absurd (omega arith)
tokens_long (t ∷ ts) h pos = omega (arith, IsToken-long t h.0)

-- A text is accepted, with a number of ms, exactly if it is, without the white space around it, a row of
-- tokens that add up to this number, and the number is positive.
pub parse_duration_lem : (s : Text) (n : ℕ) → (parse_duration s ≡ some n) ↔ IsDuration (trim s) n
unfolding parse_duration
parse_duration_lem s n = (
  λ h.
      let read = match_all 0 (trim s) in
      let (whole, positive, adds_up) =
        accepted (is_empty (trim s)) (matched_len read) (length (trim s)) (total_ms read) n h in
      let r = match_all-Reads 0 (trim s) (omega arith) in
      let (are_tokens, spelled) = r.filled (omega (arith, whole)) in
      record {
        tokens = match_all 0 (trim s);
        are_tokens = are_tokens;
        spelled = spelled;
        adds_up = adds_up;
        positive = subst (λ m. 0 < m) adds_up positive;
      },
  λ d.
      let positive : 0 < total_ms d.tokens = subst (λ m. 0 < m) (sym d.adds_up) d.positive in
      let read : match_all 0 (trim s) ≡ d.tokens =
        ap (λ l. match_all 0 l) (sym d.spelled) ∙ match_all-print_tokens d.tokens d.are_tokens in
      rw read (
        accepts (trim s) (matched_len d.tokens) (total_ms d.tokens)
          (matched_len-print_tokens d.tokens ∙ ap (λ l. length l) d.spelled)
          (tokens_long d.tokens d.are_tokens positive) positive
        ∙ ap (λ m. some m) d.adds_up),
)
