-- ===== src/Core/Cancellation.antt =====
-- src/core/cancellation.ts. A callback is a number; a call returns the callbacks that it runs. A callback
-- does not call the manager.
pub mod Jobs
mod Examples
use roboppi.Base.{
  ℕ, String, str_eq, Bool, true, false, Option, none, some, List, [], ◌∷◌, ◌++◌, ◌==◌,
  if◌then◌else◌,
}
use roboppi.Base.Dict
use roboppi.Base.Dict.{Dict, is_some}

-- An `AbortController` with the listeners of its signal. `aborted` holds the reason given, if any.
pub record Controller : Type 0 where
  pub aborted : Option (Option String)
  pub listeners : List ℕ

pub record CancellationManager : Type 0 where
  pub controllers : Dict Controller
  pub permit_to_job : Dict String

unfoldable pub new : CancellationManager
new = record { controllers = []; permit_to_job = [] }

map_job : String → Option String → Dict String → Dict String
map_job permit_id none m = m
map_job permit_id (some job_id) m = Dict.set permit_id job_id m

unfoldable pub create_controller :
    String → Option String → CancellationManager → CancellationManager
unfolding map_job
create_controller permit_id job_id m = record {
  controllers = Dict.set permit_id (record { aborted = none; listeners = [] }) m.controllers;
  permit_to_job = map_job permit_id job_id m.permit_to_job;
}

-- `abort(reason)` runs the listeners, which are there for one event.
abort_controller :
    Option Controller → String → Option String → Dict Controller → List ℕ × Dict Controller
abort_controller none permit_id reason controllers = ([], controllers)
abort_controller (some c) permit_id reason controllers =
    if is_some c.aborted then ([], controllers) else (
      c.listeners,
      Dict.set permit_id (record { aborted = some reason; listeners = [] }) controllers,
    )

unfoldable pub cancel : String → Option String → CancellationManager → List ℕ × CancellationManager
unfolding abort_controller
cancel permit_id reason m =
    let (ran, controllers) =
      abort_controller (Dict.get permit_id m.controllers) permit_id reason m.controllers in
    (ran, record m { controllers = controllers })

-- The loop of `cancelByJobId`, over the entries of `permitToJob`.
unfoldable pub cancel_mapped :
    Dict String → String → Option String → CancellationManager → List ℕ × CancellationManager
cancel_mapped [] job_id reason m = ([], m)
cancel_mapped ((permit_id, mapped) ∷ entries) job_id reason m =
    let (ran, m') = if str_eq mapped job_id then cancel permit_id reason m else ([], m) in
    let (more, last) = cancel_mapped entries job_id reason m' in (ran ++ more, last)

unfoldable pub cancel_by_job_id :
    String → Option String → CancellationManager → List ℕ × CancellationManager
cancel_by_job_id job_id reason m = cancel_mapped m.permit_to_job job_id reason m

abbrev pub aborted_of : Option Controller → Bool
aborted_of none = false
aborted_of (some c) = is_some c.aborted

unfoldable pub is_aborted : String → CancellationManager → Bool
is_aborted permit_id m = aborted_of (Dict.get permit_id m.controllers)

-- A listener added twice to a signal is there once.
add_listener : ℕ → List ℕ → List ℕ
add_listener callback [] = callback ∷ []
add_listener callback (l ∷ ls) = if l == callback then l ∷ ls else l ∷ add_listener callback ls

listen : Option Controller → String → ℕ → Dict Controller → List ℕ × Dict Controller
unfolding add_listener
listen none permit_id callback controllers = ([], controllers)
listen (some c) permit_id callback controllers =
    if is_some c.aborted then (callback ∷ [], controllers) else (
      [],
      Dict.set permit_id (record c { listeners = add_listener callback c.listeners }) controllers,
    )

unfoldable pub on_abort : String → ℕ → CancellationManager → List ℕ × CancellationManager
unfolding listen
on_abort permit_id callback m =
    let (ran, controllers) =
      listen (Dict.get permit_id m.controllers) permit_id callback m.controllers in
    (ran, record m { controllers = controllers })

unfoldable pub remove_controller : String → CancellationManager → CancellationManager
remove_controller permit_id m = record {
  controllers = Dict.delete permit_id m.controllers;
  permit_to_job = Dict.delete permit_id m.permit_to_job;
}
