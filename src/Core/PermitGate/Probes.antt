-- ===== src/Core/PermitGate/Probes.antt =====
-- A probe that the gate takes and then does not use.
use roboppi.Base.{
  ℕ, ◌≡◌, refl, ap, ◌∙◌, ◌⊎◌, inl, inr, true, false, Option, none, some, List, [], ◌∷◌, String,
  arith, Bool-cases, Option-cases, eq_iff, eq_refl, str_eq,
}
use roboppi.Types.{Job, PermitRejectionReason, circuit_open}
use roboppi.Core.CircuitBreaker.{CircuitBreaker, half_open, should_reject}
use roboppi.Core.BreakerRegistry.{Registry, get, is_provider_open}
use roboppi.Core.BreakerRegistry.Providers.{get-update, is_provider_open_lem}
use roboppi.Core.Backpressure.{accept, degrade, check}
use roboppi.Core.Budget.{can_issue}
use roboppi.Core.Budget.Invariant.{IsWithinLimits}
use roboppi.Core.PermitGate.{
  PermitGate, Clock, Event, requests, revokes, completes, fires, measures, observes,
  resolve_provider, ask_provider, activate, take_tokens, check_budget, check_breaker,
  request_permit, retire, revoke_permit, complete_permit, fire, step, run,
}
use roboppi.Core.PermitGate.Request.{reason_of, verdict_after}
use roboppi.Core.PermitGate.Answer.{request_permit_lem}

-- The breaker of a provider waits for the outcome of its one probe.
pub record IsProbing (provider : String) (r : Registry) : Type 0 where
  pub breaker : CircuitBreaker
  pub registered : get provider r ≡ some breaker
  pub half : breaker.state ≡ half_open
  pub busy : breaker.half_open_in_progress ≡ true

should_reject_busy :
    (b : CircuitBreaker)
    → b.state ≡ half_open
    → b.half_open_in_progress ≡ true
    → should_reject b ≡ (true, b)
unfolding should_reject
should_reject_busy b h p = ground arith

should_reject_idle :
    (b : CircuitBreaker)
    → b.state ≡ half_open
    → b.half_open_in_progress ≡ false
    → should_reject b ≡ (false, record b { half_open_in_progress = true })
unfolding should_reject
should_reject_idle b h p = ground arith

is_provider_open_busy :
    (provider : String) (r : Registry)
    → IsProbing provider r
    → (is_provider_open provider r).0 ≡ true
is_provider_open_busy provider r v =
    ((is_provider_open_lem provider provider r).1 v.breaker v.registered).0
    ∙ ap (λ p. p.0) (should_reject_busy v.breaker v.half v.busy)

-- Asking about any provider leaves the probe running.
is_provider_open-IsProbing :
    (provider other : String) (r : Registry)
    → IsProbing provider r
    → IsProbing provider (is_provider_open other r).1
is_provider_open-IsProbing provider other r v = elim (Option-cases (get other r)) [
  | inl e ↦ rw ((is_provider_open_lem other provider r).0 e) v
  | inr (b, e) ↦ elim (Bool-cases (str_eq other provider)) [
    | inl same ↦
        let there : get other r ≡ get provider r =
          ap (λ p. get p r) ((eq_iff other provider).0 same) in
        let one : b ≡ v.breaker = ground (arith, e, v.registered, there) in
        record {
          breaker = v.breaker;
          registered =
              ((is_provider_open_lem other provider r).1 b e).1
              ∙ rw same (
                  ap some (
                    ap (λ c. (should_reject c).1) one
                    ∙ ap (λ p. p.1) (should_reject_busy v.breaker v.half v.busy)));
          half = v.half;
          busy = v.busy;
        }
    | inr differ ↦ record {
      breaker = v.breaker;
      registered = ((is_provider_open_lem other provider r).1 b e).1 ∙ rw differ v.registered;
      half = v.half;
      busy = v.busy;
    }
  ]
]

breakers-request :
    (job : Job) (attempt : ℕ) (id : String) (clock : Clock) (g : PermitGate)
    → ((request_permit job attempt id clock g).1.circuit_breakers ≡ g.circuit_breakers)
      ⊎ ((request_permit job attempt id clock g).1.circuit_breakers
          ≡ (ask_provider (resolve_provider job) g.circuit_breakers).1)
unfolding request_permit check_breaker check_budget take_tokens activate
breakers-request job attempt id clock g = ground arith

ask_provider-IsProbing :
    (provider : String) (other : Option String) (r : Registry)
    → IsProbing provider r
    → IsProbing provider (ask_provider other r).1
unfolding ask_provider
ask_provider-IsProbing provider none r v = v
ask_provider-IsProbing provider (some other) r v = is_provider_open-IsProbing provider other r v

-- An event that tells the breaker of this provider nothing.
abbrev pub IsSilentOn : String → Event → Type 0
IsSilentOn provider (observes other _ _) = str_eq other provider ≡ false
IsSilentOn provider _ = Unit

abbrev pub AllSilentOn : String → List Event → Type 0
AllSilentOn provider [] = Unit
AllSilentOn provider (e ∷ es) = IsSilentOn provider e × AllSilentOn provider es

breakers-revoke_permit :
    (id : String) (reason : Option String) (g : PermitGate)
    → (revoke_permit id reason g).circuit_breakers ≡ g.circuit_breakers
unfolding revoke_permit retire
breakers-revoke_permit id reason g = ground arith

step-IsProbing :
    (provider : String) (e : Event) (g : PermitGate)
    → IsSilentOn provider e
    → IsProbing provider g.circuit_breakers
    → IsProbing provider (step e g).circuit_breakers
unfolding step complete_permit retire fire
step-IsProbing provider (requests job attempt id clock) g s v =
    elim (breakers-request job attempt id clock g) [
      | inl e ↦ rw e v
      | inr e ↦ rw e (ask_provider-IsProbing provider (resolve_provider job) g.circuit_breakers v)
    ]
step-IsProbing provider (revokes id reason) g s v = rw (breakers-revoke_permit id reason g) v
step-IsProbing provider (completes id) g s v =
    let same : (complete_permit id g).circuit_breakers ≡ g.circuit_breakers = ground arith in
    rw same v
step-IsProbing provider (fires id now) g s v =
    let same : (fire id now g).circuit_breakers ≡ g.circuit_breakers =
      ground (arith, breakers-revoke_permit id (some "Deadline exceeded") g) in
    rw same v
step-IsProbing provider (measures metrics) g s v = v
step-IsProbing provider (observes other config change) g s v = record {
  breaker = v.breaker;
  registered = get-update other provider config change g.circuit_breakers ∙ rw s v.registered;
  half = v.half;
  busy = v.busy;
}

run-IsProbing :
    (provider : String) (es : List Event) (g : PermitGate)
    → AllSilentOn provider es
    → IsProbing provider g.circuit_breakers
    → IsProbing provider (run es g).circuit_breakers
unfolding run
run-IsProbing provider [] g s v = v
run-IsProbing provider (e ∷ es) g s v =
    run-IsProbing provider es (step e g) s.1 (step-IsProbing provider e g s.0 v)

-- Backpressure lets the job pass.
abbrev pub Passes : PermitGate → Type 0
Passes g = (check g.backpressure ≡ accept) ⊎ (check g.backpressure ≡ degrade)

blocked_reason :
    (job : Job) (attempt : ℕ) (id : String) (clock : Clock) (g : PermitGate)
    → Passes g
    → (ask_provider (resolve_provider job) g.circuit_breakers).0 ≡ true
    → reason_of (request_permit job attempt id clock g).0 ≡ some circuit_open
unfolding request_permit check_breaker
blocked_reason job attempt id clock g (inl p) h =
    rw (p, request_permit) (rw (h, check_breaker) refl)
blocked_reason job attempt id clock g (inr p) h =
    rw (p, request_permit) (rw (h, check_breaker) refl)

module _ (provider : String) (job : Job) (attempt : ℕ) (id : String) (clock : Clock)
    (g : PermitGate) (b : CircuitBreaker) (relevant : resolve_provider job ≡ some provider)
    (registered : get provider g.circuit_breakers ≡ some b) (half : b.state ≡ half_open)
    (idle : b.half_open_in_progress ≡ false) (passes : Passes g) where
  asked_once :
      (ask_provider (resolve_provider job) g.circuit_breakers).1
      ≡ (is_provider_open provider g.circuit_breakers).1
  unfolding ask_provider
  asked_once = rw (relevant, ask_provider) refl

  unblocked : (ask_provider (resolve_provider job) g.circuit_breakers).0 ≡ false
  unfolding ask_provider
  unblocked =
      rw (relevant, ask_provider)
        (((is_provider_open_lem provider provider g.circuit_breakers).1 b registered).0
          ∙ ap (λ p. p.0) (should_reject_idle b half idle))

  breakers-passes :
      (request_permit job attempt id clock g).1.circuit_breakers
      ≡ (ask_provider (resolve_provider job) g.circuit_breakers).1
  unfolding request_permit check_breaker check_budget take_tokens activate
  breakers-passes = ground arith

  request-IsProbing : IsProbing provider (request_permit job attempt id clock g).1.circuit_breakers
  request-IsProbing =
      rw (breakers-passes, asked_once)
        (record {
          breaker = record b { half_open_in_progress = true };
          registered =
              ((is_provider_open_lem provider provider g.circuit_breakers).1 b registered).1
              ∙ rw (eq_refl provider) (ap some (ap (λ p. p.1) (should_reject_idle b half idle)));
          half = half;
          busy = refl;
        })

  -- A fault: the gate takes the one probe of a half-open breaker before it asks the budget. If the
  -- budget then refuses the job for a reason `r`, nothing runs whose outcome could end the probe: after
  -- any events but an outcome reported to that breaker, every job for the provider that backpressure
  -- lets pass is refused with CIRCUIT_OPEN, although the breaker is half-open.
  pub refused_probe_blocks :
      (r : PermitRejectionReason)
      → IsWithinLimits g.budget
      → (can_issue job attempt clock.checked g.budget).0 ≡ some r
      → (es : List Event) (next : Job) (n : ℕ) (next_id : String) (at : Clock)
      → AllSilentOn provider es
      → resolve_provider next ≡ some provider
      → Passes (run es (request_permit job attempt id clock g).1)
      → (reason_of (request_permit job attempt id clock g).0 ≡ some r)
        × (reason_of
              (request_permit next n next_id at
                (run es (request_permit job attempt id clock g).1)).0
            ≡ some circuit_open)
  unfolding ask_provider
  refused_probe_blocks r v refusal es next n next_id at silent same pass = (first, later)
    where
      verdict :
          Passes g
          → verdict_after
              (check g.backpressure)
              (ask_provider (resolve_provider job) g.circuit_breakers).0
              (can_issue job attempt clock.checked g.budget).0
            ≡ some r
      verdict (inl p) = rw (p, unblocked) refusal
      verdict (inr p) = rw (p, unblocked) refusal

      first : reason_of (request_permit job attempt id clock g).0 ≡ some r
      first = request_permit_lem job attempt id clock g v ∙ verdict passes

      h : PermitGate
      h = run es (request_permit job attempt id clock g).1

      later : reason_of (request_permit next n next_id at h).0 ≡ some circuit_open
      later = blocked_reason next n next_id at h pass (
          rw (same, ask_provider)
            (is_provider_open_busy provider h.circuit_breakers
              (run-IsProbing provider es _ silent request-IsProbing)))
