-- ===== src/Scheduler/InflightRegistry/Holders.antt =====
-- Who holds a key of src/scheduler/inflight-registry.ts.
use roboppi.Base.{
  String, str_eq, eq_iff, ◌≡◌, refl, sym, ap, ◌∙◌, inl, inr, true, Option, none, some, arith,
  if◌then◌else◌, Option-cases,
}
use roboppi.Base.Dict.{get-set, get-delete}
use roboppi.Base.Dict
use roboppi.Scheduler.InflightRegistry.{
  DeduplicationPolicy, coalesce, latest_wins, reject, RegisterResult, proceeds, coalesces, rejects,
  InFlightEntry, Registry, register, register_over, deregister, lookup,
}

-- The answer to a job that asks for a key, by the job that holds the key.
abbrev pub answer : DeduplicationPolicy → Option String → RegisterResult
answer policy none = proceeds none
answer coalesce (some holder) = coalesces holder
answer latest_wins (some holder) = proceeds (some holder)
answer reject (some holder) = rejects holder

-- The job that holds the key afterwards.
abbrev pub holder_after : String → RegisterResult → String
holder_after job_id (proceeds cancelled) = job_id
holder_after job_id (coalesces holder) = holder
holder_after job_id (rejects holder) = holder

same_get : (x y : String) (r : Registry) → str_eq x y ≡ true → Dict.get x r ≡ Dict.get y r
same_get x y r e = ap (λ z. Dict.get z r) ((eq_iff x y).0 e)

module _ (key job_id other : String) (r : Registry) where
  -- What a result has to say of a registry, given the answer.
  record Tells (expected : RegisterResult) (result : RegisterResult × Registry) : Type 0 where
    same : result.0 ≡ expected
    holder :
        lookup other result.1
        ≡ (if str_eq key other then some (holder_after job_id expected) else lookup other r)

  lookup-set :
      (e : InFlightEntry)
      → lookup other (Dict.set key e r)
        ≡ (if str_eq key other then some e.job_id else lookup other r)
  unfolding lookup
  lookup-set e = ground (arith, get-set key other e r)

  lookup_same :
      (e : InFlightEntry)
      → Dict.get key r ≡ some e
      → lookup other r ≡ (if str_eq key other then some e.job_id else lookup other r)
  unfolding lookup
  lookup_same e held = ground (arith, held, same_get key other r)

  register_over-Tells :
      (e : InFlightEntry) (policy : DeduplicationPolicy)
      → Dict.get key r ≡ some e
      → Tells (answer policy (some e.job_id)) (register_over e key job_id policy r)
  unfolding register_over
  register_over-Tells e coalesce held = record { same = refl; holder = lookup_same e held }
  register_over-Tells e latest_wins held = record {
    same = refl;
    holder = lookup-set (record { job_id = job_id; policy = latest_wins });
  }
  register_over-Tells e reject held = record { same = refl; holder = lookup_same e held }

  register-Tells :
      (policy : DeduplicationPolicy)
      → Tells (answer policy (lookup key r)) (register key job_id policy r)
  unfolding register lookup
  register-Tells policy = elim (Option-cases (Dict.get key r)) [
    | inl free ↦
        rw (free, register)
          (record {
            same = refl;
            holder = lookup-set (record { job_id = job_id; policy = policy });
          })
    | inr (e, held) ↦ rw (held, register) (register_over-Tells e policy held)
  ]

-- A registration answers by its policy and the holder alone; the key is then held by the new job exactly
-- if that may proceed, else by the job that the answer names, and no other key is touched.
pub register_lem :
    (key job_id other : String) (policy : DeduplicationPolicy) (r : Registry)
    → ((register key job_id policy r).0 ≡ answer policy (lookup key r))
      × (lookup other (register key job_id policy r).1 ≡ (
          if str_eq key other
          then some (holder_after job_id (register key job_id policy r).0)
          else lookup other r))
unfolding register register_over lookup
register_lem key job_id other policy r =
    let t = register-Tells key job_id other r policy in
    (
      t.same,
      t.holder
          ∙ ap (λ a. if str_eq key other then some (holder_after job_id a) else lookup other r)
              (sym t.same),
    )

-- A key that is released is held by no job, and no other key is touched.
pub lookup-deregister :
    (key other : String) (r : Registry)
    → lookup other (deregister key r) ≡ (if str_eq key other then none else lookup other r)
unfolding lookup deregister
lookup-deregister key other r = ground (arith, get-delete key other r)
