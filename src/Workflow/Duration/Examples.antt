-- ===== src/Workflow/Duration/Examples.antt =====
-- Durations of test/unit/workflow/duration.test.ts.
use roboppi.Base.{◌≡◌, ◌↔◌, refl, none, some, [], ◌∷◌}
use roboppi.Base.Trim.{Text, trim, is_space}
use roboppi.Workflow.Duration.{parse_duration, match_all, total_ms, matched_len}
use roboppi.Workflow.Duration.Grammar.{IsDuration, parse_duration_lem}

-- " 1h30m "
abbrev spaced : Text
spaced = 32 ∷ 49 ∷ 104 ∷ 51 ∷ 48 ∷ 109 ∷ 32 ∷ []

all_open : Unit {0}
unfolding roboppi.Workflow.Duration.parse_duration roboppi.Base.Trim.trim roboppi.Base.Trim.is_space
    roboppi.Workflow.Duration.match_all roboppi.Workflow.Duration.match_token
    roboppi.Workflow.Duration.split_digits roboppi.Workflow.Duration.is_digit
    roboppi.Workflow.Duration.match_unit roboppi.Workflow.Duration.token_length
    roboppi.Workflow.Duration.unit_length roboppi.Workflow.Duration.parse_int
    roboppi.Workflow.Duration.unit_ms roboppi.Workflow.Duration.total_ms
    roboppi.Workflow.Duration.matched_len
all_open = tt

one_and_a_half : parse_duration spaced ≡ some 5400000
unfolding all_open
one_and_a_half = refl

-- "500ms", "5", "m5", "0s" and "1x2s"
others :
    (parse_duration (53 ∷ 48 ∷ 48 ∷ 109 ∷ 115 ∷ []) ≡ some 500)
    × (parse_duration (53 ∷ []) ≡ none)
    × (parse_duration (109 ∷ 53 ∷ []) ≡ none)
    × (parse_duration (48 ∷ 115 ∷ []) ≡ none)
    × (parse_duration (49 ∷ 120 ∷ 50 ∷ 115 ∷ []) ≡ none)
unfolding all_open
others = (refl, refl, refl, refl, refl)

parse_duration_lem_example :
    (parse_duration spaced ≡ some 5400000) ↔ IsDuration (trim spaced) 5400000
parse_duration_lem_example = parse_duration_lem spaced 5400000
