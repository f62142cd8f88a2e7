-- ===== src/Core/EscalationManager/Kinds.antt =====
-- Which kinds of worker an evaluation of src/core/escalation-manager.ts collects.
use roboppi.Base.{
  ℕ, ◌≡◌, ◌≢◌, ◌↔◌, refl, ap, ap₂, ◌∙◌, String, str_eq, eq_iff, eq_refl, Bool, true, false, ◌||◌,
  ◌&&◌, Option, none, some, List, [], ◌∷◌, length, ltb, leb, or_default, arith, mem,
}
use roboppi.Base.Dict
use roboppi.Base.Dict.{Dict, Unique}
use roboppi.Base.TextSet
use roboppi.Base.TextSet.{Distinct, same_mem, mem-add, add-Distinct}
use roboppi.Core.EscalationManager.{
  EscalationManager, recent, trim_crashes, add_crashing, add_timing_out, failing_kinds,
}
use roboppi.Core.EscalationManager.Keyed.{Unique-trim_crashes}

-- Crashes within the last minute reach the threshold.
unfoldable pub crashing : ℕ → ℕ → Option (List ℕ) → Bool
crashing threshold now none = false
crashing threshold now (some times) = leb threshold (length (recent now times))

timing_out : Option ℕ → Bool
timing_out count = ltb 0 (or_default count 0)

-- A kind of worker fails: enough recent crashes, or a cancellation that has timed out.
pub failing : ℕ → EscalationManager → String → Bool
failing now m kind =
    crashing m.config.crash_threshold now (Dict.get kind m.worker_crashes)
    || timing_out (Dict.get kind m.cancel_timeouts)

recent_idem : (now : ℕ) (cs : List ℕ) → recent now (recent now cs) ≡ recent now cs
unfolding recent
recent_idem now [] = refl
recent_idem now (c ∷ cs) = ground (arith, recent_idem now cs)

-- Trimming keeps the keys, and what fails.
crashing-trim_crashes :
    (threshold now : ℕ) (k : String) (m : Dict (List ℕ))
    → crashing threshold now (Dict.get k (trim_crashes now m))
      ≡ crashing threshold now (Dict.get k m)
unfolding trim_crashes crashing Dict.get
crashing-trim_crashes threshold now k [] = refl
crashing-trim_crashes threshold now k ((j, cs) ∷ m) =
    ground (arith, crashing-trim_crashes threshold now k m, recent_idem now cs)

same_get {ℓ} :
    {V : Type ℓ} (m : Dict V) (j k : String) → str_eq j k ≡ true → Dict.get j m ≡ Dict.get k m
same_get m j k e = ap (λ x. Dict.get x m) ((eq_iff j k).0 e)

mem-add_crashing :
    (threshold now : ℕ) (m : Dict (List ℕ)) (kinds : List String) (k : String)
    → Unique m
    → mem k (add_crashing threshold now m kinds)
      ≡ (mem k kinds || crashing threshold now (Dict.get k m))
unfolding add_crashing crashing Dict.get
mem-add_crashing threshold now [] kinds k u = ground arith
mem-add_crashing threshold now ((j, cs) ∷ m) kinds k u = ground (
  arith,
  mem-add k j kinds,
  same_get m j k,
  mem-add_crashing threshold now m (TextSet.add j kinds) k u.1,
  mem-add_crashing threshold now m kinds k u.1,
)

mem-add_timing_out :
    (snapshot m : Dict ℕ) (kinds : List String) (k : String)
    → mem k (add_timing_out snapshot m kinds)
      ≡ (mem k kinds || (Dict.has k m && timing_out (Dict.get k snapshot)))
unfolding add_timing_out timing_out Dict.get Dict.has
mem-add_timing_out snapshot [] kinds k = ground arith
mem-add_timing_out snapshot ((j, n) ∷ m) kinds k = ground (
  arith,
  mem-add k j kinds,
  same_get snapshot j k,
  mem-add_timing_out snapshot m (TextSet.add j kinds) k,
  mem-add_timing_out snapshot m kinds k,
)

add_crashing-Distinct :
    (threshold now : ℕ) (m : Dict (List ℕ)) (kinds : List String)
    → Distinct kinds
    → Distinct (add_crashing threshold now m kinds)
unfolding add_crashing
add_crashing-Distinct threshold now [] kinds d = d
add_crashing-Distinct threshold now ((j, cs) ∷ m) kinds d = ground (
  arith,
  add-Distinct j kinds d,
  add_crashing-Distinct threshold now m (TextSet.add j kinds),
  add_crashing-Distinct threshold now m kinds,
)

add_timing_out-Distinct :
    (snapshot m : Dict ℕ) (kinds : List String)
    → Distinct kinds
    → Distinct (add_timing_out snapshot m kinds)
unfolding add_timing_out
add_timing_out-Distinct snapshot [] kinds d = d
add_timing_out-Distinct snapshot ((j, n) ∷ m) kinds d = ground (
  arith,
  add-Distinct j kinds d,
  add_timing_out-Distinct snapshot m (TextSet.add j kinds),
  add_timing_out-Distinct snapshot m kinds,
)

has-timing_out : (o : Option ℕ) → (Dict.is_some o && timing_out o) ≡ timing_out o
unfolding timing_out
has-timing_out none = refl
has-timing_out (some n) = refl

module _ (now : ℕ) (m : EscalationManager) where
  abbrev pub collected : List String
  collected =
      failing_kinds m.config.crash_threshold now (trim_crashes now m.worker_crashes)
        m.cancel_timeouts

  -- The kinds that `evaluate` collects are those that fail, each once.
  pub mem-collected : (k : String) → Unique m.worker_crashes → mem k collected ≡ failing now m k
  unfolding failing_kinds failing Dict.has
  mem-collected k u =
      let trimmed = trim_crashes now m.worker_crashes in
      let crashing_kinds = add_crashing m.config.crash_threshold now trimmed [] in
      mem-add_timing_out m.cancel_timeouts m.cancel_timeouts crashing_kinds k
      ∙ ap₂ ◌||◌
          (mem-add_crashing m.config.crash_threshold now trimmed [] k
              (Unique-trim_crashes now m.worker_crashes u)
            ∙ crashing-trim_crashes m.config.crash_threshold now k m.worker_crashes)
          (has-timing_out (Dict.get k m.cancel_timeouts))

  pub collected-Distinct : Distinct collected
  unfolding failing_kinds
  collected-Distinct =
      add_timing_out-Distinct m.cancel_timeouts m.cancel_timeouts _ (
        add_crashing-Distinct m.config.crash_threshold now (trim_crashes now m.worker_crashes) []
          tt)

only_member : (x a b : String) → mem a (x ∷ []) ≡ true → mem b (x ∷ []) ≡ true → a ≡ b
only_member x a b ha hb = ground (arith, eq_iff x a, eq_iff x b)

pub two_members :
    (xs : List String)
    → Distinct xs
    → (leb 2 (length xs) ≡ true)
      ↔ ((x : String) × (y : String) × (x ≢ y) × (mem x xs ≡ true) × (mem y xs ≡ true))
two_members [] d = (λ h. absurd (cc), λ (x, y, ne, hx, hy). absurd (cc))
two_members (x ∷ []) d =
    (λ h. absurd (cc), λ (a, b, ne, ha, hb). absurd (ne (only_member x a b ha hb)))
two_members (x ∷ y ∷ xs) (d, _) = (
  λ _. (
    x,
    y,
    (λ e. ground (arith, eq_iff x y, eq_iff y x)),
    ground (arith, eq_refl x),
    ground (arith, eq_refl y),
  ),
  λ _. ground arith,
)
