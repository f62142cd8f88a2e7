-- ===== src/Core/AgentCore/Granting.antt =====
-- What src/core/agentcore.ts records of a permit that the gate grants.
use roboppi.Base.{
  ◌≡◌, refl, sym, ap, ◌∙◌, inl, inr, String, str_eq, eq_iff, eq_refl, false, Option, none, some,
  or_default, [], Bool-cases, Option-cases,
}
use roboppi.Base.Dict
use roboppi.Base.Dict.{Dict, get-set, get-delete}
use roboppi.Base.Trim.{Text}
use roboppi.Worker.TaskPayload.{is_worker_task_job_payload}
use roboppi.Types.{Job}
use roboppi.Core.PermitGate.{Permit, PermitGate}
use roboppi.Core.Cancellation.{Controller, create_controller}
use roboppi.Core.AgentCore.{AgentCore, Stream, Delegation, execute_worker_task}
use roboppi.Core.AgentCore.Owners.{IsTracked, forget-IsTracked, differ}

pub get-set_miss {ℓ} :
    {V : Type ℓ} (j k : String) (v : V) (m : Dict V)
    → str_eq j k ≡ false
    → Dict.get k (Dict.set j v m) ≡ Dict.get k m
get-set_miss j k v m h = get-set j k v m ∙ rw h refl

pub get-set_hit {ℓ} :
    {V : Type ℓ} (k : String) (v : V) (m : Dict V) → Dict.get k (Dict.set k v m) ≡ some v
get-set_hit k v m = get-set k k v m ∙ rw (eq_refl k) refl

-- What a map that was set says of a key.
pub data Found {ℓ} {V : Type ℓ} (j k : String) (v w : V) (m : Dict V) : Type ℓ where
  here : j ≡ k → v ≡ w → Found j k v w m
  there : str_eq j k ≡ false → Dict.get k m ≡ some w → Found j k v w m

some_same {ℓ} : {V : Type ℓ} (d v w : V) → some v ≡ some w → v ≡ w
some_same d v w h = ap (λ o. or_default o d) h

pub found {ℓ} :
    {V : Type ℓ} (j k : String) (v w : V) (m : Dict V)
    → Dict.get k (Dict.set j v m) ≡ some w
    → Found j k v w m
found j k v w m h = elim (Bool-cases (str_eq j k)) [
  | inl hit ↦ here ((eq_iff j k).0 hit) (some_same v v w (sym (get-set j k v m ∙ rw hit refl) ∙ h))
  | inr miss ↦ there miss (sym (get-set_miss j k v m miss) ∙ h)
]

abbrev fresh_controller : Controller
fresh_controller = record { aborted = none; listeners = [] }

module _ (c : AgentCore) (t : IsTracked c) (job : Job) (id : String)
    (free : Dict.get job.job_id c.active_permits_by_job ≡ none)
    (unused : Dict.get id c.cancellation.permit_to_job ≡ none) where
  -- The permit is recorded for the job, with a controller.
  abbrev pub recorded : PermitGate → AgentCore
  recorded gate = record c {
    permit_gate = gate;
    cancellation = create_controller id (some job.job_id) c.cancellation;
    active_permits_by_job = Dict.set job.job_id id c.active_permits_by_job;
  }

  kept :
      (k i : String)
      → Dict.get k c.active_permits_by_job ≡ some i
      → Dict.get k (Dict.set job.job_id id c.active_permits_by_job) ≡ some i
  kept k i h =
      get-set_miss job.job_id k id c.active_permits_by_job (
        differ job.job_id k none (some i) (λ x. Dict.get x c.active_permits_by_job) free h
          (λ e. cc e))
      ∙ h

  pub recorded-IsTracked :
      (p : Permit) (gate : PermitGate)
      → p.job_id ≡ job.job_id
      → gate.active_permits ≡ Dict.set id p c.permit_gate.active_permits
      → IsTracked (recorded gate)
  unfolding create_controller Dict.has
  recorded-IsTracked p gate e g = record {
    active = λ i q h.
        elim (found id i p q c.permit_gate.active_permits (ap (Dict.get i) (sym g) ∙ h)) [
          | here same is ↦
              ap (λ x. Dict.get x (Dict.set job.job_id id c.active_permits_by_job))
                (ap (λ x. x.job_id) (sym is) ∙ e)
              ∙ get-set_hit job.job_id id c.active_permits_by_job
              ∙ ap some same
          | there miss at_i ↦ kept q.job_id i (t.active i q at_i)
        ];
    delegated = λ i d h. kept d.job.job_id i (t.delegated i d h);
    owned = λ k i h. elim (found job.job_id k id i c.active_permits_by_job h) [
      | here same is ↦ (
        ap (λ x. Dict.get x (Dict.set id job.job_id c.cancellation.permit_to_job)) (sym is)
            ∙ get-set_hit id job.job_id c.cancellation.permit_to_job
            ∙ ap some same,
        ap
              (λ x.
                Dict.is_some (Dict.get x (Dict.set id fresh_controller c.cancellation.controllers)))
              (sym is)
            ∙ ap Dict.is_some (get-set_hit id fresh_controller c.cancellation.controllers),
      )
      | there miss at_k ↦
          let (mine, live) = t.owned k i at_k in
          let apart : str_eq id i ≡ false =
            differ id i none (some k) (λ x. Dict.get x c.cancellation.permit_to_job) unused mine
              (λ f. cc f) in
          (
            get-set_miss id i job.job_id c.cancellation.permit_to_job apart ∙ mine,
            ap Dict.is_some (get-set_miss id i fresh_controller c.cancellation.controllers apart)
                ∙ live,
          )
    ];
  }

  pub idle : Dict.get id c.delegations ≡ none
  idle = elim (Option-cases (Dict.get id c.delegations)) [
    | inl e ↦ e
    | inr (d, e) ↦ cc (unused, (t.owned d.job.job_id id (t.delegated id d e)).0)
  ]

  delegated-IsTracked :
      (p : Permit) (gate : PermitGate) (stream : Option Stream)
      → p.job_id ≡ job.job_id
      → gate.active_permits ≡ Dict.set id p c.permit_gate.active_permits
      → IsTracked (record (recorded gate) {
        delegations = Dict.set id (record { job = job; stream = stream }) c.delegations;
      })
  delegated-IsTracked p gate stream e g =
      let r = recorded-IsTracked p gate e g in
      let task : Delegation = record { job = job; stream = stream } in
      record {
        active = r.active;
        delegated = λ i d h. elim (found id i task d c.delegations h) [
          | here same is ↦
              ap (λ x. Dict.get x.job.job_id (Dict.set job.job_id id c.active_permits_by_job))
                (sym is)
              ∙ get-set_hit job.job_id id c.active_permits_by_job
              ∙ ap some same
          | there miss at_i ↦ r.delegated i d at_i
        ];
        owned = r.owned;
      }

  pub execute_worker_task-IsTracked :
      (raw : Option Text) (p : Permit) (gate : PermitGate)
      → p.job_id ≡ job.job_id
      → gate.active_permits ≡ Dict.set id p c.permit_gate.active_permits
      → IsTracked (execute_worker_task raw job id (recorded gate)).1
  unfolding execute_worker_task
  execute_worker_task-IsTracked raw p gate e g =
      elim (Bool-cases (is_worker_task_job_payload job.payload)) [
        | inl valid ↦ rw (valid, execute_worker_task) (delegated-IsTracked p gate _ e g)
        | inr invalid ↦
            rw (invalid, execute_worker_task)
              (forget-IsTracked (recorded gate) (recorded-IsTracked p gate e g) job.job_id id
                (get-set_hit job.job_id id c.active_permits_by_job) idle)
      ]
