-- ===== src/Core/Watchdog/Changes.antt =====
-- Whom a tick of src/core/watchdog.ts calls again.
use roboppi.Base.{
  ℕ, ◌+◌, ◌≡◌, refl, sym, ap, ◌∙◌, inl, inr, String, str_eq, eq_iff, eq_refl, Bool, true, false,
  Option, none, some, [], ◌∷◌, or_default, ◌==◌, arith, if◌then◌else◌, Bool-cases, Option-cases,
}
use roboppi.Base.Dict
use roboppi.Base.Dict.{Dict, Unique, get-set, get-delete}
use roboppi.Base.Dict.Sums.{set-Unique}
use roboppi.Core.Watchdog.{
  DefenseLevel, normal, defense_order, WatchdogThreshold, WatchdogCallbacks, Watchdog, assign,
  assign_read, collect_all, count_critical_metrics, metric_level, Scan, last_level, check_metric,
  scan_with, scan, higher, Marks, prune_key, prune, tick,
}
use roboppi.Core.Watchdog.Levels.{defense_order_inj}

assign-Unique {ℓ} : {V : Type ℓ} (m others : Dict V) → Unique m → Unique (assign m others)
unfolding assign
assign-Unique m [] u = u
assign-Unique m ((k, v) ∷ others) u = assign-Unique (Dict.set k v m) others (set-Unique k v m u)

assign_read-Unique :
    (merged : Dict ℕ) (o : Option (Dict ℕ)) → Unique merged → Unique (assign_read merged o)
unfolding assign_read
assign_read-Unique merged none u = u
assign_read-Unique merged (some metrics) u = assign-Unique merged metrics u

pub collect_all-Unique :
    (collect : ℕ → Option (Dict ℕ)) (sources merged : Dict ℕ)
    → Unique merged
    → Unique (collect_all collect sources merged)
unfolding collect_all
collect_all-Unique collect [] merged u = u
collect_all-Unique collect ((_, source) ∷ sources) merged u =
    collect_all-Unique collect sources _ (assign_read-Unique merged (collect source) u)

has-cons_self :
    (k : String) (value : ℕ) (metrics : Dict ℕ) → Dict.has k ((k, value) ∷ metrics) ≡ true
unfolding Dict.has Dict.get
has-cons_self k value metrics = rw (eq_refl k) refl

has-cons :
    (j k : String) (value : ℕ) (metrics : Dict ℕ)
    → Dict.has k metrics ≡ true
    → Dict.has k ((j, value) ∷ metrics) ≡ true
unfolding Dict.has Dict.get
has-cons j k value metrics h = ground arith

pub get-cons_none {ℓ} :
    {V : Type ℓ} (name k : String) (value : V) (metrics : Dict V)
    → Dict.get k ((name, value) ∷ metrics) ≡ none
    → (str_eq name k ≡ false) × (Dict.get k metrics ≡ none)
unfolding Dict.get
get-cons_none name k value metrics h = ground arith

module _ (callbacks : WatchdogCallbacks) (thresholds : Dict WatchdogThreshold) (count : ℕ) where
  last_level-check_metric :
      (level : DefenseLevel) (name k : String) (value : ℕ) (s : Scan)
      → last_level (check_metric callbacks level name value s).last_fired_level k
        ≡ (if str_eq name k then level else last_level s.last_fired_level k)
  unfolding check_metric
  last_level-check_metric level name k value s =
      elim (Bool-cases
        (defense_order level == defense_order (last_level s.last_fired_level name))) [
          | inl same ↦
              let e : level ≡ last_level s.last_fired_level name =
                defense_order_inj level _ (ground arith) in
              rw same (elim (Bool-cases (str_eq name k)) [
                | inl hit ↦
                    rw hit
                      (sym (e ∙ ap (λ j. last_level s.last_fired_level j) ((eq_iff name k).0 hit)))
                | inr miss ↦ rw miss refl
              ])
          | inr other ↦ rw other (ground (arith, get-set name k level s.last_fired_level))
        ]

  get-scan_with :
      (o : Option WatchdogThreshold) (name k : String) (value : ℕ) (s : Scan)
      → str_eq name k ≡ false
      → Dict.get k (scan_with callbacks o count name value s).last_fired_level
        ≡ Dict.get k s.last_fired_level
  unfolding scan_with check_metric
  get-scan_with none name k value s h = refl
  get-scan_with (some t) name k value s h =
      ground (arith, get-set name k (metric_level t count value) s.last_fired_level)

  check_metric_same :
      (level : DefenseLevel) (name : String) (value : ℕ) (s : Scan)
      → last_level s.last_fired_level name ≡ level
      → check_metric callbacks level name value s ≡ record s { highest = higher level s.highest }
  unfolding check_metric
  check_metric_same level name value s h = rw h (ground arith)

  -- A metric leaves the levels of the others alone.
  pub get-scan :
      (metrics : Dict ℕ) (k : String) (s : Scan)
      → Dict.get k metrics ≡ none
      → Dict.get k (scan callbacks thresholds count metrics s).last_fired_level
        ≡ Dict.get k s.last_fired_level
  unfolding scan
  get-scan [] k s h = refl
  get-scan ((name, value) ∷ metrics) k s h =
      let (miss, absent) = get-cons_none name k value metrics h in
      get-scan metrics k (scan_with callbacks (Dict.get name thresholds) count name value s) absent
      ∙ get-scan_with (Dict.get name thresholds) name k value s miss

  -- The level fired last for a metric is its level.
  abbrev IsSettled : Dict DefenseLevel → Dict ℕ → Type 0
  IsSettled levels [] = Unit
  IsSettled levels ((name, value) ∷ metrics) =
      ((t : WatchdogThreshold)
        → Dict.get name thresholds ≡ some t
        → last_level levels name ≡ metric_level t count value)
      × IsSettled levels metrics

  pub scan-IsSettled :
      (metrics : Dict ℕ) (s : Scan)
      → Unique metrics
      → IsSettled (scan callbacks thresholds count metrics s).last_fired_level metrics
  unfolding scan scan_with
  scan-IsSettled [] s u = tt
  scan-IsSettled ((name, value) ∷ metrics) s (fresh, u) =
      let s1 = scan_with callbacks (Dict.get name thresholds) count name value s in
      (
        λ t e.
            ap (λ o. or_default o normal) (get-scan metrics name s1 fresh)
            ∙ ap (λ o. last_level (scan_with callbacks o count name value s).last_fired_level name)
                e
            ∙ last_level-check_metric (metric_level t count value) name name value s
            ∙ rw (eq_refl name) refl,
        scan-IsSettled metrics s1 u,
      )

  -- A settled metric is passed by.
  pub scan_settled :
      (metrics : Dict ℕ) (s : Scan)
      → IsSettled s.last_fired_level metrics
      → (scan callbacks thresholds count metrics s).calls ≡ s.calls
  unfolding scan scan_with
  scan_settled [] s h = refl
  scan_settled ((name, value) ∷ metrics) s (h, hs) =
      elim (Option-cases (Dict.get name thresholds)) [
        | inl e ↦
            ap
              (λ o.
                (scan callbacks thresholds count metrics
                  (scan_with callbacks o count name value s)).calls)
              e
            ∙ scan_settled metrics s hs
        | inr (t, e) ↦
            ap
              (λ o.
                (scan callbacks thresholds count metrics
                  (scan_with callbacks o count name value s)).calls)
              e
            ∙ ap (λ r. (scan callbacks thresholds count metrics r).calls)
                (check_metric_same (metric_level t count value) name value s (h t e))
            ∙ scan_settled metrics
                (record s { highest = higher (metric_level t count value) s.highest }) hs
      ]

  IsSettled-same :
      (levels others : Dict DefenseLevel) (metrics : Dict ℕ)
      → ((k : String) → Dict.has k metrics ≡ true → Dict.get k others ≡ Dict.get k levels)
      → IsSettled levels metrics
      → IsSettled others metrics
  IsSettled-same levels others [] e h = tt
  IsSettled-same levels others ((name, value) ∷ metrics) e (h, hs) = (
    λ t f. ap (λ o. or_default o normal) (e name (has-cons_self name value metrics)) ∙ h t f,
    IsSettled-same levels others metrics (λ k g. e k (has-cons name k value metrics g)) hs,
  )

-- What pruning does to a key leaves the others alone.
pub prune_key_else :
    (b : Bool) (j k : String) (marks : Marks)
    → str_eq j k ≡ false
    → (Dict.get k (prune_key b j marks).last_fired_level ≡ Dict.get k marks.last_fired_level)
      × (Dict.get k (prune_key b j marks).unseen_count ≡ Dict.get k marks.unseen_count)
unfolding prune_key
prune_key_else true j k marks h = (refl, ground (arith, get-delete j k marks.unseen_count))
prune_key_else false j k marks h = ground (
  arith,
  get-delete j k marks.last_fired_level,
  get-delete j k marks.unseen_count,
  get-set j k (or_default (Dict.get j marks.unseen_count) 0 + 1) marks.unseen_count,
)

prune_key_seen :
    (b : Bool) (j : String) (marks : Marks)
    → b ≡ true
    → (prune_key b j marks).last_fired_level ≡ marks.last_fired_level
unfolding prune_key
prune_key_seen true j marks h = refl
prune_key_seen false j marks h = absurd (cc)

-- Pruning keeps the level of a metric that was seen.
get-prune :
    (metrics : Dict ℕ) (levels : Dict DefenseLevel) (marks : Marks) (k : String)
    → Dict.has k metrics ≡ true
    → Dict.get k (prune metrics levels marks).last_fired_level ≡ Dict.get k marks.last_fired_level
unfolding prune
get-prune metrics [] marks k h = refl
get-prune metrics ((j, _) ∷ levels) marks k h =
    get-prune metrics levels (prune_key (Dict.has j metrics) j marks) k h
    ∙ elim (Bool-cases (str_eq j k)) [
      | inl hit ↦
          ap (λ m. Dict.get k m)
            (prune_key_seen (Dict.has j metrics) j marks
              (ap (λ i. Dict.has i metrics) ((eq_iff j k).0 hit) ∙ h))
      | inr miss ↦ (prune_key_else (Dict.has j metrics) j k marks miss).0
    ]

-- A tick makes no call twice: directly after it, a tick with the same readings calls nobody.
pub tick_settles :
    (collect : ℕ → Option (Dict ℕ)) (w : Watchdog) → (tick collect (tick collect w).1).0 ≡ []
unfolding tick
tick_settles collect w =
    let metrics = collect_all collect w.sources [] in
    let count = count_critical_metrics w.config.thresholds metrics in
    let s =
      scan w.callbacks w.config.thresholds count metrics
        (record { highest = normal; last_fired_level = w.last_fired_level; calls = [] }) in
    let marks : Marks = record {
      last_fired_level = s.last_fired_level;
      unseen_count = w.unseen_count;
    } in
    let kept = (prune metrics s.last_fired_level marks).last_fired_level in
    scan_settled w.callbacks w.config.thresholds count metrics
      (record { highest = normal; last_fired_level = kept; calls = [] })
      (IsSettled-same w.callbacks w.config.thresholds count s.last_fired_level kept metrics
        (get-prune metrics s.last_fired_level marks)
        (scan-IsSettled w.callbacks w.config.thresholds count metrics
          (record { highest = normal; last_fired_level = w.last_fired_level; calls = [] })
          (collect_all-Unique collect w.sources [] tt)))
