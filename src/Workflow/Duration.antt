-- ===== src/Workflow/Duration.antt =====
-- src/workflow/duration.ts. A text is the list of its UTF-16 code units. Sums are exact here; the source
-- adds doubles, which are exact up to 2^53. `none` stands for the thrown error.
pub mod Tokens
pub mod Grammar
mod Examples
use roboppi.Base.{
  ℕ, zero, suc, ◌+◌, ◌-◌, ◌*◌, Bool, true, false, ◌&&◌, ◌||◌, Option, none, some, List, [], ◌∷◌,
  ◌++◌, length, ltb, leb, ◌==◌, if◌then◌else◌,
}
use roboppi.Base.Trim.{Text, trim}

pub data TimeUnit : Type 0 where
  hours minutes seconds millis : TimeUnit

-- One match of `(\d+)(ms|s|m|h)`.
pub record Token : Type 0 where
  pub digits : Text
  pub unit : TimeUnit

unfoldable pub is_digit : ℕ → Bool
is_digit c = leb 48 c && leb c 57

-- `\d+` takes all the digits: with fewer, a digit would stand where the unit must.
unfoldable pub split_digits : Text → Text × Text
split_digits [] = ([], [])
split_digits (c ∷ s) =
    let (ds, rest) = split_digits s in if is_digit c then (c ∷ ds, rest) else ([], c ∷ s)

-- `ms|s|m|h`, in this order.
unfoldable pub match_unit : Text → Option TimeUnit
match_unit [] = none
match_unit (c ∷ []) =
    if c == 115
    then some seconds
    else if c == 109
    then some minutes
    else if c == 104
    then some hours
    else none
match_unit (c ∷ d ∷ s) =
    if c == 109 && d == 115
    then some millis
    else if c == 115
    then some seconds
    else if c == 109
    then some minutes
    else if c == 104
    then some hours
    else none

token_of : Text → Option TimeUnit → Option Token
token_of [] unit = none
token_of ds none = none
token_of ds (some unit) = some (record { digits = ds; unit = unit })

-- The expression at the head of a text.
unfoldable pub match_token : Text → Option Token
unfolding token_of
match_token s = let (ds, rest) = split_digits s in token_of ds (match_unit rest)

unfoldable pub unit_length : TimeUnit → ℕ
unit_length millis = 2
unit_length _ = 1

unfoldable pub token_length : Token → ℕ
token_length t = length t.digits + unit_length t.unit

-- `matchAll`: the matches behind the units to skip, which a match before has consumed.
unfoldable pub match_all : ℕ → Text → List Token
match_all skip [] = []
match_all (suc skip) (c ∷ s) = match_all skip s
match_all zero (c ∷ s) = elim (match_token (c ∷ s)) [
  | none ↦ match_all zero s
  | some t ↦ t ∷ match_all (token_length t - 1) s
]

-- `parseInt(digits, 10)`, behind the digits already read.
unfoldable pub parse_int : ℕ → Text → ℕ
parse_int n [] = n
parse_int n (c ∷ s) = parse_int (n * 10 + (c - 48)) s

unfoldable pub unit_ms : TimeUnit → ℕ
unit_ms hours = 3600000
unit_ms minutes = 60000
unit_ms seconds = 1000
unit_ms millis = 1

unfoldable pub total_ms : List Token → ℕ
total_ms [] = 0
total_ms (t ∷ ts) = parse_int 0 t.digits * unit_ms t.unit + total_ms ts

unfoldable pub matched_len : List Token → ℕ
matched_len [] = 0
matched_len (t ∷ ts) = token_length t + matched_len ts

is_empty : Text → Bool
is_empty [] = true
is_empty (_ ∷ _) = false

unfoldable pub parse_duration : Text → Option ℕ
unfolding is_empty
parse_duration input =
    let trimmed = trim input in
    let tokens = match_all 0 trimmed in
    if is_empty trimmed
    then none
    else if matched_len tokens == length trimmed
    then (if ltb 0 (total_ms tokens) then some (total_ms tokens) else none)
    else none
