-- ===== src/Workflow/Duration/Tokens.antt =====
-- What the expression of src/workflow/duration.ts matches.
use roboppi.Base.{
  ℕ, ◌≤◌, ◌≡◌, refl, ap, sym, subst, ◌∙◌, inl, inr, Option, none, some, List, [], ◌∷◌, ◌++◌, length,
  All, drop, arith, length-append, Bool-cases,
}
use roboppi.Base.Trim.{Text}
use roboppi.Workflow.Duration.{
  TimeUnit, hours, minutes, seconds, millis, Token, is_digit, split_digits, match_unit, token_of,
  match_token, unit_length, token_length,
}

abbrev pub IsDigit : ℕ → Type 0
IsDigit c = (48 ≤ c) × (c ≤ 57)

unfoldable pub unit_text : TimeUnit → Text
unit_text hours = 104 ∷ []
unit_text minutes = 109 ∷ []
unit_text seconds = 115 ∷ []
unit_text millis = 109 ∷ 115 ∷ []

unfoldable pub print_token : Token → Text
print_token t = t.digits ++ unit_text t.unit

-- One digit or more, and a unit.
pub record IsToken (t : Token) : Type 0 where
  pub some_digits : 1 ≤ length t.digits
  pub all_digits : All IsDigit t.digits

unfoldable pub print_tokens : List Token → Text
print_tokens [] = []
print_tokens (t ∷ ts) = print_token t ++ print_tokens ts

append_assoc : (a b c : Text) → (a ++ b) ++ c ≡ a ++ (b ++ c)
append_assoc [] b c = refl
append_assoc (x ∷ a) b c = ap (λ t. x ∷ t) (append_assoc a b c)

split_digits_whole : (s : Text) → (split_digits s).0 ++ (split_digits s).1 ≡ s
unfolding split_digits
split_digits_whole [] = refl
split_digits_whole (c ∷ s) = elim (Bool-cases (is_digit c)) [
  | inl d ↦ rw d (ap (λ t. c ∷ t) (split_digits_whole s))
  | inr d ↦ rw d refl
]

split_digits-IsDigit : (s : Text) → All IsDigit (split_digits s).0
unfolding split_digits is_digit
split_digits-IsDigit [] = tt
split_digits-IsDigit (c ∷ s) = ground (arith, split_digits-IsDigit s)

match_unit_whole :
    (s : Text) (u : TimeUnit) → match_unit s ≡ some u → unit_text u ++ drop (unit_length u) s ≡ s
unfolding match_unit unit_text unit_length
match_unit_whole [] u h = absurd (cc)
match_unit_whole (c ∷ []) hours h = ground arith
match_unit_whole (c ∷ []) minutes h = ground arith
match_unit_whole (c ∷ []) seconds h = ground arith
match_unit_whole (c ∷ []) millis h = ground arith
match_unit_whole (c ∷ d ∷ s) hours h = ground arith
match_unit_whole (c ∷ d ∷ s) minutes h = ground arith
match_unit_whole (c ∷ d ∷ s) seconds h = ground arith
match_unit_whole (c ∷ d ∷ s) millis h = ground arith

token_of_lem :
    (ds : Text) (unit : Option TimeUnit) (t : Token)
    → token_of ds unit ≡ some t
    → (1 ≤ length ds) × (ds ≡ t.digits) × (unit ≡ some t.unit)
unfolding token_of
token_of_lem [] unit t h = absurd (cc)
token_of_lem (c ∷ ds) none t h = absurd (cc)
token_of_lem (c ∷ ds) (some unit) t h = ground arith

-- A match is a token that stands at the head of the text.
pub match_token_whole :
    (s : Text) (t : Token)
    → match_token s ≡ some t
    → IsToken t × (rest : Text) × (print_token t ++ rest ≡ s)
unfolding match_token print_token
match_token_whole s t h =
    let (long, e, u) = token_of_lem (split_digits s).0 (match_unit (split_digits s).1) t h in
    let rest = drop (unit_length t.unit) (split_digits s).1 in
    (
      record {
        some_digits = subst (λ ds. 1 ≤ length ds) e long;
        all_digits = subst (λ ds. All IsDigit ds) e (split_digits-IsDigit s);
      },
      rest,
      append_assoc t.digits (unit_text t.unit) rest
          ∙ ap (λ r. t.digits ++ r) (match_unit_whole (split_digits s).1 t.unit u)
          ∙ ap (λ ds. ds ++ (split_digits s).1) (sym e)
          ∙ split_digits_whole s,
    )

-- What follows a token: another, or nothing.
abbrev pub StartsToken : Text → Type 0
StartsToken [] = Unit
StartsToken (c ∷ _) = IsDigit c

match_unit-unit_text :
    (u : TimeUnit) (rest : Text) → StartsToken rest → match_unit (unit_text u ++ rest) ≡ some u
unfolding match_unit unit_text
match_unit-unit_text hours [] h = refl
match_unit-unit_text minutes [] h = refl
match_unit-unit_text seconds [] h = refl
match_unit-unit_text millis rest h = refl
match_unit-unit_text hours (c ∷ rest) h = ground arith
match_unit-unit_text minutes (c ∷ rest) h = ground arith
match_unit-unit_text seconds (c ∷ rest) h = ground arith

split_digits-unit_text :
    (ds : Text) (u : TimeUnit) (rest : Text)
    → All IsDigit ds
    → split_digits (ds ++ (unit_text u ++ rest)) ≡ (ds, unit_text u ++ rest)
unfolding split_digits unit_text is_digit
split_digits-unit_text [] hours rest h = refl
split_digits-unit_text [] minutes rest h = refl
split_digits-unit_text [] seconds rest h = refl
split_digits-unit_text [] millis rest h = refl
split_digits-unit_text (c ∷ ds) u rest h = ground (arith, split_digits-unit_text ds u rest h.1)

token_of-some :
    (ds : Text) (u : TimeUnit)
    → 1 ≤ length ds
    → token_of ds (some u) ≡ some (record { digits = ds; unit = u })
unfolding token_of
token_of-some [] u h = absurd (omega arith)
token_of-some (c ∷ ds) u h = refl

pub match_token-print_token :
    (t : Token) (rest : Text)
    → IsToken t
    → StartsToken rest
    → match_token (print_token t ++ rest) ≡ some t
unfolding match_token print_token
match_token-print_token t rest h next = rw (append_assoc t.digits (unit_text t.unit) rest) (
    rw (split_digits-unit_text t.digits t.unit rest h.all_digits)
      (rw (match_unit-unit_text t.unit rest next) (token_of-some t.digits t.unit h.some_digits)))

unit_text-length : (u : TimeUnit) → length (unit_text u) ≡ unit_length u
unfolding unit_length unit_text
unit_text-length hours = refl
unit_text-length minutes = refl
unit_text-length seconds = refl
unit_text-length millis = refl

pub length-print_token : (t : Token) → length (print_token t) ≡ token_length t
unfolding print_token token_length
length-print_token t =
    omega (arith, length-append t.digits (unit_text t.unit), unit_text-length t.unit)

pub IsToken-long : (t : Token) → IsToken t → 2 ≤ token_length t
unfolding token_length unit_length
IsToken-long t h = elim t.unit [
  | hours ↦ ground (arith, h.some_digits)
  | minutes ↦ ground (arith, h.some_digits)
  | seconds ↦ ground (arith, h.some_digits)
  | millis ↦ ground (arith, h.some_digits)
]

digits_start : (ds t : Text) → 1 ≤ length ds → All IsDigit ds → StartsToken (ds ++ t)
digits_start [] t h d = absurd (omega arith)
digits_start (c ∷ ds) t h d = d.0

pub print_tokens-StartsToken : (ts : List Token) → All IsToken ts → StartsToken (print_tokens ts)
unfolding print_tokens print_token
print_tokens-StartsToken [] h = tt
print_tokens-StartsToken (t ∷ ts) (h, _) =
    rw (append_assoc t.digits (unit_text t.unit) (print_tokens ts))
      (digits_start t.digits (unit_text t.unit ++ print_tokens ts) h.some_digits h.all_digits)
