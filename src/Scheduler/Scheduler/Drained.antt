-- ===== src/Scheduler/Scheduler/Drained.antt =====
-- The time limit of the drain of src/scheduler/index.ts ends only jobs that are being processed.
use roboppi.Base.{
  ℕ, String, str_eq, eq_iff, ◌≡◌, ◌⊎◌, refl, sym, ap, subst, ◌∙◌, inl, inr, true, false, Option,
  none, some, [], ◌∷◌, if_holds, Bool-cases,
}
use roboppi.Base.Dict
use roboppi.Base.Dict.{Dict, Unique, get-set, get-delete}
use roboppi.Scheduler.Scheduler.{InFlightJobInfo, Scheduler, truthy}
use roboppi.Scheduler.Scheduler.Reasons.{kept}
use roboppi.Scheduler.Scheduler.Unchanged.{objects-release, info-release}
use roboppi.Scheduler.Scheduler.Events.{forget, bury, drain_object, drain_each}

objects-drain_object :
    (j : String) (o : Option InFlightJobInfo) (now : ℕ) (s : Scheduler)
    → (drain_object j o now s).objects ≡ s.objects
unfolding drain_object forget bury
objects-drain_object j none now s = refl
objects-drain_object j (some k) now s =
    if_holds (λ (t : Scheduler). t.objects ≡ s.objects) k.processing
      (λ _. objects-release (truthy k.job.key) _) (λ _. refl)

module _ (id : String) (r : ℕ) (i : InFlightJobInfo) (now : ℕ) where
  other_drained :
      (j : String) (o : Option InFlightJobInfo) (s : Scheduler)
      → str_eq j id ≡ false
      → Dict.get id (drain_object j o now s).job_info ≡ Dict.get id s.job_info
  unfolding drain_object forget bury
  other_drained j none s other = refl
  other_drained j (some k) s other =
      if_holds (λ (t : Scheduler). Dict.get id t.job_info ≡ Dict.get id s.job_info) k.processing
        (λ _. get-delete j id _ ∙ rw other (ap (Dict.get id) (info-release (truthy k.job.key) _)))
        (λ _. refl)

  idle_drained :
      (j : String) (s : Scheduler) → i.processing ≡ false → drain_object j (some i) now s ≡ s
  unfolding drain_object
  idle_drained j s idle =
      if_holds (λ (t : Scheduler). t ≡ s) i.processing (λ busy. absurd (cc)) (λ _. refl)

  get_later :
      (j : String) (q : ℕ) (d : Dict ℕ)
      → str_eq j id ≡ false
      → Dict.get id ((j, q) ∷ d) ≡ Dict.get id d
  unfolding Dict.get
  get_later j q d other = rw other refl

  get_first :
      (j : String) (q : ℕ) (d : Dict ℕ) → str_eq j id ≡ true → Dict.get id ((j, q) ∷ d) ≡ some q
  unfolding Dict.get
  get_first j q d same = rw same refl

  listed_at : {q : ℕ} {o : Option ℕ} → some q ≡ o → (o ≡ none) ⊎ (o ≡ some r) → q ≡ r
  listed_at e (inl miss) = absurd (cc)
  listed_at e (inr at) = cc

  -- A drain over some entries of the map of jobs.
  pub drained :
      (d : Dict ℕ) (s : Scheduler)
      → Unique d
      → (Dict.get id d ≡ none) ⊎ (Dict.get id d ≡ some r)
      → s.objects r ≡ some i
      → Dict.get id s.job_info ≡ some r
      → Dict.get id (drain_each d now s).job_info ≡ none
      → i.processing ≡ true
  unfolding drain_each
  drained [] s u listed at_r had gone = absurd (kept id r s.job_info s.job_info refl had gone)
  drained ((j, q) ∷ d) s u listed at_r had gone = elim (Bool-cases (str_eq j id)) [
    | inr other ↦
        drained d (drain_object j (s.objects q) now s) u.1
          (subst (λ o. (o ≡ none) ⊎ (o ≡ some r)) (get_later j q d other) listed)
          (ap (λ f. f r) (objects-drain_object j (s.objects q) now s) ∙ at_r)
          (other_drained j (s.objects q) s other ∙ had) gone
    | inl same ↦ elim (Bool-cases i.processing) [
      | inl busy ↦ busy
      | inr idle ↦
          drained d s u.1 (inl (ap (λ x. Dict.get x d) (sym ((eq_iff j id).0 same)) ∙ u.0)) at_r had
            (ap (λ (t : Scheduler). Dict.get id (drain_each d now t).job_info)
                (sym (
                  ap (λ o. drain_object j o now s)
                    (ap s.objects (listed_at (sym (get_first j q d same)) listed) ∙ at_r)
                  ∙ idle_drained j s idle))
              ∙ gone)
    ]
  ]
