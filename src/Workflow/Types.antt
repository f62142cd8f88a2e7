-- ===== src/Workflow/Types.antt =====
-- src/workflow/types.ts: what the validator reads of a workflow's steps, and the errors it reports. An
-- error's message is the parts of its text.
use roboppi.Base.{ℕ, String, Bool, Option, none, some, List, [], ◌∷◌}
use roboppi.Base.Dict.{Dict}

pub record InputRef : Type 0 where
  pub from : String

pub record OutputDef : Type 0 where
  pub name : String
  pub path : String

pub record ExportRef : Type 0 where
  pub artifact : String
  pub as_name : Option String

-- Of a completion check the validator asks only whether it is there.
pub record StepDefinition : Type 0 where
  pub workflow : Option String
  pub exports : Option (List ExportRef)
  pub depends_on : Option (List String)
  pub inputs : Option (List InputRef)
  pub outputs : Option (List OutputDef)
  pub completion_check : Bool
  pub max_iterations : Option ℕ

abbrev pub Steps : Type 0
Steps = Dict StepDefinition

abbrev pub keys : Steps → List String
keys [] = []
keys ((id, _) ∷ steps) = id ∷ keys steps

abbrev pub list_of {ℓ} : {A : Type ℓ} → Option (List A) → List A
list_of none = []
list_of (some xs) = xs

pub data Message : Type 0 where
  unknown_step : (step dep : String) → Message
  not_in_depends_on : (step from : String) → Message
  duplicate_output duplicate_export : (step name : String) → Message
  unsafe_path : (step name path : String) → Message
  max_iterations_is : (step : String) → Option ℕ → Message
  cycle_of : List String → Message

pub record ValidationError : Type 0 where
  pub step_id : Option String
  pub field : String
  pub message : Message
