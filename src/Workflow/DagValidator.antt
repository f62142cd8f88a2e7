-- ===== src/Workflow/DagValidator.antt =====
-- src/workflow/dag-validator.ts, validateDag.
pub mod Names
pub mod Checks
pub mod Sound
mod Examples
use Prim.Native.String.{len, find}
use text.Mathlib.Text.{starts_with}
use roboppi.Base.{
  mem, ℕ, String, Bool, true, false, not, ◌||◌, Option, none, some, List, [], ◌∷◌, ◌++◌, ltb, leb,
  if◌then◌else◌, or_default,
}
use roboppi.Workflow.Types.{
  InputRef, OutputDef, ExportRef, StepDefinition, Steps, keys, list_of, Message, unknown_step,
  not_in_depends_on, duplicate_output, duplicate_export, unsafe_path, max_iterations_is,
  ValidationError,
}
use roboppi.Workflow.CycleDetection.{detect_cycles}

abbrev pub error_at : String → String → Message → ValidationError
error_at step field_ message = record { step_id = some step; field = field_; message = message }

-- An error if a test fails.
abbrev pub unless : Bool → ValidationError → List ValidationError
unless true e = []
unless false e = e ∷ []

unfoldable pub check_depends_on : List String → String → List String → List ValidationError
check_depends_on ids step [] = []
check_depends_on ids step (dep ∷ deps) =
    unless (mem dep ids) (error_at step "depends_on" (unknown_step step dep))
    ++ check_depends_on ids step deps

unfoldable pub check_inputs : List String → String → List InputRef → List ValidationError
check_inputs deps step [] = []
check_inputs deps step (input ∷ inputs) =
    unless (mem input.from deps) (error_at step "inputs" (not_in_depends_on step input.from))
    ++ check_inputs deps step inputs

-- `path.includes("..") || path.startsWith("/")`; `find` is past the end if there is no match.
abbrev pub is_unsafe : String → Bool
is_unsafe path = leb (find path "..") (len path) || starts_with path "/"

-- `seen` are the names so far.
unfoldable pub check_outputs : String → List String → List OutputDef → List ValidationError
check_outputs step seen [] = []
check_outputs step seen (output ∷ outputs) =
    unless (not (mem output.name seen))
      (error_at step "outputs" (duplicate_output step output.name))
    ++ unless (not (is_unsafe output.path))
        (error_at step "outputs" (unsafe_path step output.name output.path))
    ++ check_outputs step (output.name ∷ seen) outputs

abbrev pub is_enough : Option ℕ → Bool
is_enough none = false
is_enough (some n) = not (ltb n 2)

unfoldable pub check_completion : String → StepDefinition → List ValidationError
check_completion step s =
    if s.completion_check
    then unless (is_enough s.max_iterations)
        (error_at step "completion_check" (max_iterations_is step s.max_iterations))
    else []

abbrev pub export_name : ExportRef → String
export_name e = or_default e.as_name e.artifact

unfoldable pub check_exports : String → List String → List ExportRef → List ValidationError
check_exports step seen [] = []
check_exports step seen (e ∷ es) =
    unless (not (mem (export_name e) seen))
      (error_at step "exports" (duplicate_export step (export_name e)))
    ++ check_exports step (export_name e ∷ seen) es

-- `isSubworkflowStep(step) && step.exports`.
abbrev pub exports_of : StepDefinition → List ExportRef
exports_of s = elim s.workflow [ none ↦ [] | some w ↦ list_of s.exports ]

unfoldable pub check_step : List String → String → StepDefinition → List ValidationError
check_step ids step s =
    check_depends_on ids step (list_of s.depends_on)
    ++ check_inputs (list_of s.depends_on) step (list_of s.inputs)
    ++ check_outputs step [] (list_of s.outputs)
    ++ check_completion step s
    ++ check_exports step [] (exports_of s)

unfoldable pub check_steps : List String → Steps → List ValidationError
check_steps ids [] = []
check_steps ids ((step, s) ∷ steps) = check_step ids step s ++ check_steps ids steps

unfoldable pub validate_dag : Steps → List ValidationError
validate_dag steps = check_steps (keys steps) steps ++ detect_cycles steps
