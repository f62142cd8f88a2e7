-- ===== src/Core/AgentCore/Owners.antt =====
-- Whose permits and tasks src/core/agentcore.ts keeps, while its maps change.
use roboppi.Base.{
  ◌≡◌, refl, sym, ap, ◌∙◌, inl, inr, String, str_eq, eq_iff, true, false, Option, none, some, arith,
  Bool-cases,
}
use roboppi.Base.Dict
use roboppi.Base.Dict.{Dict, get-set, get-delete}
use roboppi.Core.PermitGate.{Permit, PermitGate, complete_permit}
use roboppi.Core.PermitGate.Actives.{Shrinks, complete_permit-Shrinks, get-complete_permit}
use roboppi.Core.Cancellation.{remove_controller}
use roboppi.Core.AgentCore.{AgentCore, Delegation, forget}

-- An active permit, and a task that runs, is the one recorded for its job; a recorded permit has a controller
-- and belongs to that job.
pub record IsTracked (c : AgentCore) : Type 0 where
  pub active :
      (id : String) (p : Permit)
      → Dict.get id c.permit_gate.active_permits ≡ some p
      → Dict.get p.job_id c.active_permits_by_job ≡ some id
  pub delegated :
      (id : String) (d : Delegation)
      → Dict.get id c.delegations ≡ some d
      → Dict.get d.job.job_id c.active_permits_by_job ≡ some id
  pub owned :
      (job_id id : String)
      → Dict.get job_id c.active_permits_by_job ≡ some id
      → (Dict.get id c.cancellation.permit_to_job ≡ some job_id)
        × (Dict.has id c.cancellation.controllers ≡ true)

-- A gate in which no permit becomes active.
pub gate-IsTracked :
    (c : AgentCore) (g : PermitGate)
    → Shrinks c.permit_gate g
    → IsTracked c
    → IsTracked (record c { permit_gate = g })
gate-IsTracked c g s t = record {
  active = λ id p h. t.active id p (s id p h);
  delegated = t.delegated;
  owned = t.owned;
}

pub get-delete_found {ℓ} :
    {V : Type ℓ} (j k : String) (v : V) (m : Dict V)
    → Dict.get k (Dict.delete j m) ≡ some v
    → (str_eq j k ≡ false) × (Dict.get k m ≡ some v)
get-delete_found j k v m h = ground (arith, get-delete j k m, h)

pub get-delete_miss {ℓ} :
    {V : Type ℓ} (j k : String) (m : Dict V)
    → str_eq j k ≡ false
    → Dict.get k (Dict.delete j m) ≡ Dict.get k m
get-delete_miss j k m h = get-delete j k m ∙ rw h refl

-- A text that differs from another in what a map says of it.
pub differ {ℓ} :
    {V : Type ℓ} (j k : String) (o p : Option V) (f : String → Option V)
    → f j ≡ o
    → f k ≡ p
    → (o ≡ p → ⊥)
    → str_eq j k ≡ false
differ j k o p f hj hk ne = elim (Bool-cases (str_eq j k)) [
  | inl hit ↦ absurd (ne (sym hj ∙ ap f ((eq_iff j k).0 hit) ∙ hk))
  | inr miss ↦ miss
]

pub some_inj : (a b : String) → some a ≡ some b → str_eq a b ≡ true
some_inj a b h = ground (arith, eq_iff a b)

module _ (c : AgentCore) (t : IsTracked c) (job_id id : String)
    (recorded : Dict.get job_id c.active_permits_by_job ≡ some id) where
  -- Another permit than the job's is recorded for another job.
  other_job :
      (k i : String)
      → Dict.get k c.active_permits_by_job ≡ some i
      → str_eq id i ≡ false
      → Dict.get k (Dict.delete job_id c.active_permits_by_job) ≡ some i
  other_job k i h ne =
      get-delete_miss job_id k c.active_permits_by_job (
        differ job_id k (some id) (some i) (λ x. Dict.get x c.active_permits_by_job) recorded h
          (λ e. cc (some_inj id i e, ne)))
      ∙ h

  pub forget-IsTracked : Dict.get id c.delegations ≡ none → IsTracked (forget job_id id c)
  unfolding forget remove_controller Dict.has
  forget-IsTracked idle = record {
    active = λ i p h.
        other_job p.job_id i (t.active i p (complete_permit-Shrinks id c.permit_gate i p h)) (
          differ id i none (some p)
            (λ x. Dict.get x (complete_permit id c.permit_gate).active_permits)
            (get-complete_permit id c.permit_gate) h (λ e. cc e));
    delegated = λ i d h.
        other_job d.job.job_id i (t.delegated i d h)
          (differ id i none (some d) (λ x. Dict.get x c.delegations) idle h (λ e. cc e));
    owned = λ k i h.
        let (other, at_k) = get-delete_found job_id k i c.active_permits_by_job h in
        let (mine, live) = t.owned k i at_k in
        let apart : str_eq id i ≡ false =
          differ id i (some job_id) (some k) (λ x. Dict.get x c.cancellation.permit_to_job)
            (t.owned job_id id recorded).0 mine (λ e. cc (some_inj job_id k e, other)) in
        (
          get-delete_miss id i c.cancellation.permit_to_job apart ∙ mine,
          ap Dict.is_some (get-delete_miss id i c.cancellation.controllers apart) ∙ live,
        );
  }
