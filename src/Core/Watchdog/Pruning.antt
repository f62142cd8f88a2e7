-- ===== src/Core/Watchdog/Pruning.antt =====
-- When src/core/watchdog.ts forgets a metric that is gone.
use roboppi.Base.{
  ℕ, ◌+◌, ◌≤◌, ◌≡◌, refl, sym, ap, ap₂, subst, ◌∙◌, inl, inr, String, str_eq, eq_iff, eq_refl,
  false, Option, none, some, List, [], ◌∷◌, length, All, or_default, leb, arith, if◌then◌else◌,
  Bool-cases,
}
use roboppi.Base.Dict
use roboppi.Base.Dict.{Dict, Unique, get-set, get-delete}
use roboppi.Core.Watchdog.{
  DefenseLevel, normal, Watchdog, collect_all, count_critical_metrics, Scan, scan, Marks, prune_key,
  prune, tick,
}
use roboppi.Core.Watchdog.Changes.{get-cons_none, prune_key_else, get-scan}
use roboppi.Core.Watchdog.Keys.{scan-Unique, tick-Unique}

-- The marks of one metric.
abbrev At : String → Marks → Option DefenseLevel → Option ℕ → Type 0
At k marks level unseen =
    (Dict.get k marks.last_fired_level ≡ level) × (Dict.get k marks.unseen_count ≡ unseen)

prune_other :
    (metrics : Dict ℕ) (levels : Dict DefenseLevel) (marks : Marks) (k : String)
    → Dict.get k levels ≡ none
    → At k
        (prune metrics levels marks)
        (Dict.get k marks.last_fired_level)
        (Dict.get k marks.unseen_count)
unfolding prune
prune_other metrics [] marks k h = (refl, refl)
prune_other metrics ((j, l) ∷ levels) marks k h =
    let (miss, absent) = get-cons_none j k l levels h in
    let (a, b) = prune_other metrics levels (prune_key (Dict.has j metrics) j marks) k absent in
    let (c, d) = prune_key_else (Dict.has j metrics) j k marks miss in (a ∙ c, b ∙ d)

-- The level and the count of a metric that was not seen, a number of ticks after the last that saw it.
abbrev level_after : ℕ → Option DefenseLevel → Option DefenseLevel
level_after n level = if leb 3 n then none else level

abbrev unseen_after : ℕ → Option ℕ
unseen_after n = if leb 3 n then none else some n

prune_key_unseen :
    (k : String) (marks : Marks)
    → let n = or_default (Dict.get k marks.unseen_count) 0 + 1 in
      At k
        (prune_key false k marks)
        (level_after n (Dict.get k marks.last_fired_level))
        (unseen_after n)
unfolding prune_key
prune_key_unseen k marks = ground (
  arith,
  eq_refl k,
  get-delete k k marks.last_fired_level,
  get-delete k k marks.unseen_count,
  get-set k k (or_default (Dict.get k marks.unseen_count) 0 + 1) marks.unseen_count,
)

prune_here :
    (metrics : Dict ℕ) (l : DefenseLevel) (levels : Dict DefenseLevel) (marks : Marks) (k : String)
    → Dict.get k levels ≡ none
    → Dict.has k metrics ≡ false
    → let n = or_default (Dict.get k marks.unseen_count) 0 + 1 in
      At k
        (prune metrics ((k, l) ∷ levels) marks)
        (level_after n (Dict.get k marks.last_fired_level))
        (unseen_after n)
unfolding prune
prune_here metrics l levels marks k fresh h =
    rw (h, prune)
      (let (a, b) = prune_other metrics levels (prune_key false k marks) k fresh in
        let (c, d) = prune_key_unseen k marks in (a ∙ c, b ∙ d))

prune_absent :
    (metrics : Dict ℕ) (levels : Dict DefenseLevel) (marks : Marks) (k : String) (l : DefenseLevel)
    → Unique levels
    → Dict.get k levels ≡ some l
    → Dict.has k metrics ≡ false
    → let n = or_default (Dict.get k marks.unseen_count) 0 + 1 in
      At k
        (prune metrics levels marks)
        (level_after n (Dict.get k marks.last_fired_level))
        (unseen_after n)
unfolding prune Dict.get
prune_absent metrics [] marks k l u e h = absurd (cc)
prune_absent metrics ((j, l') ∷ levels) marks k l (fresh, u) e h = elim (Bool-cases (str_eq j k)) [
  | inl hit ↦
      let same : j ≡ k = (eq_iff j k).0 hit in
      subst
        (λ i.
          At k (prune metrics ((i, l') ∷ levels) marks)
            (level_after (or_default (Dict.get k marks.unseen_count) 0 + 1)
              (Dict.get k marks.last_fired_level))
            (unseen_after (or_default (Dict.get k marks.unseen_count) 0 + 1)))
        (sym same)
        (prune_here metrics l' levels marks k (subst (λ i. Dict.get i levels ≡ none) same fresh) h)
  | inr miss ↦
      let (c, d) = prune_key_else (Dict.has j metrics) j k marks miss in
      let (a, b) =
        prune_absent metrics levels (prune_key (Dict.has j metrics) j marks) k l u (ground arith)
          h in
      (
        a ∙ ap₂ (λ o p. level_after (or_default o 0 + 1) p) d c,
        b ∙ ap (λ o. unseen_after (or_default o 0 + 1)) d,
      )
]

-- A tick that does not see a metric.
tick_absent :
    (collect : ℕ → Option (Dict ℕ)) (w : Watchdog) (k : String) (l : DefenseLevel)
    → Unique w.last_fired_level
    → Dict.get k w.last_fired_level ≡ some l
    → Dict.get k (collect_all collect w.sources []) ≡ none
    → let n = or_default (Dict.get k w.unseen_count) 0 + 1 in
      (Dict.get k (tick collect w).1.last_fired_level ≡ level_after n (some l))
      × (Dict.get k (tick collect w).1.unseen_count ≡ unseen_after n)
unfolding tick Dict.has
tick_absent collect w k l u e h =
    let metrics = collect_all collect w.sources [] in
    let begin : Scan = record {
      highest = normal;
      last_fired_level = w.last_fired_level;
      calls = [];
    } in
    let count = count_critical_metrics w.config.thresholds metrics in
    let s = scan w.callbacks w.config.thresholds count metrics begin in
    let kept : Dict.get k s.last_fired_level ≡ some l =
      get-scan w.callbacks w.config.thresholds count metrics k begin h ∙ e in
    let (a, b) =
      prune_absent metrics s.last_fired_level
        (record { last_fired_level = s.last_fired_level; unseen_count = w.unseen_count }) k l
        (scan-Unique w.callbacks w.config.thresholds count metrics begin u) kept
        (ap Dict.is_some h) in
    (a ∙ ap (level_after (or_default (Dict.get k w.unseen_count) 0 + 1)) kept, b)

tick_gone :
    (collect : ℕ → Option (Dict ℕ)) (w : Watchdog) (k : String)
    → Dict.get k w.last_fired_level ≡ none
    → Dict.get k (collect_all collect w.sources []) ≡ none
    → Dict.get k (tick collect w).1.last_fired_level ≡ none
unfolding tick
tick_gone collect w k e h =
    let metrics = collect_all collect w.sources [] in
    let begin : Scan = record {
      highest = normal;
      last_fired_level = w.last_fired_level;
      calls = [];
    } in
    let count = count_critical_metrics w.config.thresholds metrics in
    let s = scan w.callbacks w.config.thresholds count metrics begin in
    let kept : Dict.get k s.last_fired_level ≡ none =
      get-scan w.callbacks w.config.thresholds count metrics k begin h ∙ e in
    (prune_other metrics s.last_fired_level
      (record { last_fired_level = s.last_fired_level; unseen_count = w.unseen_count }) k kept).0
    ∙ kept

pub ticks : List (ℕ → Option (Dict ℕ)) → Watchdog → Watchdog
ticks [] w = w
ticks (collect ∷ collects) w = ticks collects (tick collect w).1

-- None of the ticks reads the metric.
abbrev pub IsAbsent : String → Dict ℕ → (ℕ → Option (Dict ℕ)) → Type 0
IsAbsent k sources collect = Dict.get k (collect_all collect sources []) ≡ none

tick-sources :
    (collect : ℕ → Option (Dict ℕ)) (w : Watchdog) → (tick collect w).1.sources ≡ w.sources
unfolding tick
tick-sources collect w = refl

ticks_gone :
    (collects : List (ℕ → Option (Dict ℕ))) (w : Watchdog) (k : String)
    → Dict.get k w.last_fired_level ≡ none
    → All (IsAbsent k w.sources) collects
    → Dict.get k (ticks collects w).last_fired_level ≡ none
unfolding ticks
ticks_gone [] w k e h = e
ticks_gone (collect ∷ collects) w k e (h, hs) =
    ticks_gone collects (tick collect w).1 k (tick_gone collect w k e h)
      (subst (λ sources. All (IsAbsent k sources) collects) (sym (tick-sources collect w)) hs)

level_after_late : (n : ℕ) (l : DefenseLevel) → 3 ≤ n → level_after n (some l) ≡ none
level_after_late n l h = ground arith

ticks_absent :
    (collects : List (ℕ → Option (Dict ℕ))) (w : Watchdog) (k : String) (l : DefenseLevel) (n : ℕ)
    → Unique w.last_fired_level
    → Dict.get k w.last_fired_level ≡ some l
    → or_default (Dict.get k w.unseen_count) 0 ≡ n
    → n ≤ 2
    → All (IsAbsent k w.sources) collects
    → Dict.get k (ticks collects w).last_fired_level ≡ level_after (n + length collects) (some l)
unfolding ticks
ticks_absent [] w k l n u e c few h = ground arith
ticks_absent (collect ∷ collects) w k l n u e c few (h, hs) =
    let (a, b) = tick_absent collect w k l u e h in
    let hs' =
      subst (λ sources. All (IsAbsent k sources) collects) (sym (tick-sources collect w)) hs in
    elim (Bool-cases (leb 3 (n + 1))) [
      | inl over ↦
          ticks_gone collects (tick collect w).1 k (a ∙ rw c (rw over refl)) hs'
          ∙ sym (level_after_late (n + length (collect ∷ collects)) l (ground arith))
      | inr under ↦
          ticks_absent collects (tick collect w).1 k l (n + 1) (tick-Unique collect w u)
            (a ∙ rw c (rw under refl)) (ap (λ o. or_default o 0) b ∙ rw c (rw under refl))
            (ground arith) hs'
          ∙ ap (λ m. level_after m (some l)) (omega arith)
    ]

-- A metric that was seen in the last tick keeps the level fired for it through two ticks that do not see it,
-- and has none after three or more.
pub forgotten_after_three :
    (collects : List (ℕ → Option (Dict ℕ))) (w : Watchdog) (k : String) (l : DefenseLevel)
    → Unique w.last_fired_level
    → Dict.get k w.last_fired_level ≡ some l
    → Dict.get k w.unseen_count ≡ none
    → All (IsAbsent k w.sources) collects
    → Dict.get k (ticks collects w).last_fired_level
      ≡ (if leb 3 (length collects) then none else some l)
forgotten_after_three collects w k l u e c h =
    ticks_absent collects w k l 0 u e (ap (λ o. or_default o 0) c) (omega arith) h
    ∙ ap (λ m. level_after m (some l)) (omega arith)
