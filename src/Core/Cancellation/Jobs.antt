-- ===== src/Core/Cancellation/Jobs.antt =====
-- Which permits src/core/cancellation.ts cancels with a job.
use roboppi.Base.{
  ◌≡◌, refl, sym, ap, ◌∙◌, inl, inr, String, str_eq, eq_iff, Bool, true, false, ◌||◌, ◌&&◌, Option,
  none, some, [], ◌∷◌, arith, Bool-cases,
}
use roboppi.Base.Dict
use roboppi.Base.Dict.{Dict, Unique, is_some, get-set}
use roboppi.Core.Cancellation.{
  Controller, CancellationManager, abort_controller, cancel, cancel_mapped, cancel_by_job_id,
  aborted_of, is_aborted,
}

is_job : Option String → String → Bool
is_job none job_id = false
is_job (some mapped) job_id = str_eq mapped job_id

-- The permit was given to the job.
pub belongs : String → String → Dict String → Bool
belongs permit_id job_id m = is_job (Dict.get permit_id m) job_id

-- Cancelling a permit aborts it, if it has a controller, and no other.
is_aborted-abort_controller :
    (p q : String) (o : Option Controller) (reason : Option String) (controllers : Dict Controller)
    → Dict.get q controllers ≡ o
    → let after = (abort_controller o q reason controllers).1 in
      (Dict.has p after ≡ Dict.has p controllers)
      × (aborted_of (Dict.get p after)
          ≡ (aborted_of (Dict.get p controllers) || (str_eq q p && Dict.has p controllers)))
unfolding abort_controller Dict.has
is_aborted-abort_controller p q none reason controllers h = ground (arith, eq_iff q p)
is_aborted-abort_controller p q (some c) reason controllers h =
    let set_p = get-set q p (record { aborted = some reason; listeners = [] }) controllers in
    elim (Bool-cases (str_eq q p)) [
      | inl hit ↦
          let hp : Dict.get p controllers ≡ some c =
            ap (λ j. Dict.get j controllers) (sym ((eq_iff q p).0 hit)) ∙ h in
          ground (arith, hp, hit, set_p)
      | inr miss ↦ ground (arith, miss, set_p)
    ]

is_aborted-cancel :
    (p q : String) (reason : Option String) (m : CancellationManager)
    → (Dict.has p (cancel q reason m).1.controllers ≡ Dict.has p m.controllers)
      × (is_aborted p (cancel q reason m).1
          ≡ (is_aborted p m || (str_eq q p && Dict.has p m.controllers)))
unfolding cancel is_aborted
is_aborted-cancel p q reason m =
    is_aborted-abort_controller p q (Dict.get q m.controllers) reason m.controllers refl

-- The loop over the entries.
is_aborted-cancel_mapped :
    (entries : Dict String) (p job_id : String) (reason : Option String) (m : CancellationManager)
    → Unique entries
    → (Dict.has p (cancel_mapped entries job_id reason m).1.controllers ≡ Dict.has p m.controllers)
      × (is_aborted p (cancel_mapped entries job_id reason m).1
          ≡ (is_aborted p m || (belongs p job_id entries && Dict.has p m.controllers)))
unfolding cancel_mapped belongs is_job Dict.get
is_aborted-cancel_mapped [] p job_id reason m u = (refl, ground arith)
is_aborted-cancel_mapped ((q, mapped) ∷ entries) p job_id reason m (fresh, u) =
    let gone : str_eq q p ≡ true → Dict.get p entries ≡ none =
      λ e. ap (λ j. Dict.get j entries) (sym ((eq_iff q p).0 e)) ∙ fresh in
    ground (
      arith,
      gone,
      is_aborted-cancel p q reason m,
      is_aborted-cancel_mapped entries p job_id reason m u,
      is_aborted-cancel_mapped entries p job_id reason (cancel q reason m).1 u,
    )

-- Cancelling a job aborts the permits that were given to it and have a controller, and leaves all others as
-- they are: a permit is aborted afterwards exactly if it was, or is one of those.
pub is_aborted-cancel_by_job_id :
    (m : CancellationManager) (p job_id : String) (reason : Option String)
    → Unique m.permit_to_job
    → is_aborted p (cancel_by_job_id job_id reason m).1
      ≡ (is_aborted p m || (belongs p job_id m.permit_to_job && Dict.has p m.controllers))
unfolding cancel_by_job_id
is_aborted-cancel_by_job_id m p job_id reason u =
    (is_aborted-cancel_mapped m.permit_to_job p job_id reason m u).1
