-- ===== src/Workflow/DagValidator/Checks.antt =====
-- The checks of single steps in src/workflow/dag-validator.ts.
use roboppi.Base.{
  mem, String, ◌≡◌, refl, ap, inl, inr, true, false, not, List, [], ◌∷◌, All, Bool-cases,
}
use roboppi.Workflow.Types.{InputRef, OutputDef, ExportRef, StepDefinition, Steps, list_of}
use roboppi.Workflow.CycleDetection.Counting.{Distinct}
use roboppi.Workflow.DagValidator.{
  check_depends_on, check_inputs, is_unsafe, check_outputs, is_enough, check_completion,
  export_name, check_exports, exports_of, check_step, check_steps,
}
use roboppi.Workflow.DagValidator.Names.{
  append_nil, nil_append, unless_nil, nil_unless, not-true, Fresh, Fresh-Distinct, Distinct-Fresh,
}

abbrev pub names_of : List OutputDef → List String
names_of [] = []
names_of (o ∷ os) = o.name ∷ names_of os

abbrev pub export_names : List ExportRef → List String
export_names [] = []
export_names (e ∷ es) = export_name e ∷ export_names es

-- What a step must be: it depends on steps, and takes inputs from those; its outputs have names of their
-- own and safe paths; a completion check has two iterations or more; exports have names of their own.
pub record IsValidStep (ids : List String) (s : StepDefinition) : Type 0 where
  pub depends_on : All (λ d. mem d ids ≡ true) (list_of s.depends_on)
  pub inputs : All (λ i. mem i.from (list_of s.depends_on) ≡ true) (list_of s.inputs)
  pub names : Distinct (names_of (list_of s.outputs))
  pub paths : All (λ o. is_unsafe o.path ≡ false) (list_of s.outputs)
  pub iterations : s.completion_check ≡ true → is_enough s.max_iterations ≡ true
  pub exports : Distinct (export_names (exports_of s))

check_depends_on-nil :
    (ids : List String) (step : String) (deps : List String)
    → check_depends_on ids step deps ≡ []
    → All (λ d. mem d ids ≡ true) deps
unfolding check_depends_on
check_depends_on-nil ids step [] h = tt
check_depends_on-nil ids step (d ∷ deps) h =
    let (here, rest) = append_nil _ _ h in
    (unless_nil _ _ here, check_depends_on-nil ids step deps rest)

nil-check_depends_on :
    (ids : List String) (step : String) (deps : List String)
    → All (λ d. mem d ids ≡ true) deps
    → check_depends_on ids step deps ≡ []
unfolding check_depends_on
nil-check_depends_on ids step [] h = refl
nil-check_depends_on ids step (d ∷ deps) h =
    nil_append _ _ (nil_unless _ _ h.0) (nil-check_depends_on ids step deps h.1)

check_inputs-nil :
    (deps : List String) (step : String) (inputs : List InputRef)
    → check_inputs deps step inputs ≡ []
    → All (λ i. mem i.from deps ≡ true) inputs
unfolding check_inputs
check_inputs-nil deps step [] h = tt
check_inputs-nil deps step (i ∷ inputs) h =
    let (here, rest) = append_nil _ _ h in
    (unless_nil _ _ here, check_inputs-nil deps step inputs rest)

nil-check_inputs :
    (deps : List String) (step : String) (inputs : List InputRef)
    → All (λ i. mem i.from deps ≡ true) inputs
    → check_inputs deps step inputs ≡ []
unfolding check_inputs
nil-check_inputs deps step [] h = refl
nil-check_inputs deps step (i ∷ inputs) h =
    nil_append _ _ (nil_unless _ _ h.0) (nil-check_inputs deps step inputs h.1)

check_outputs-nil :
    (step : String) (seen : List String) (os : List OutputDef)
    → check_outputs step seen os ≡ []
    → Fresh seen (names_of os) × All (λ o. is_unsafe o.path ≡ false) os
unfolding check_outputs
check_outputs-nil step seen [] h = (tt, tt)
check_outputs-nil step seen (o ∷ os) h =
    let (both, rest) = append_nil _ _ h in
    let (here, safe) = append_nil _ _ both in
    let (fresh, paths) = check_outputs-nil step (o.name ∷ seen) os rest in
    ((not-true _ (unless_nil _ _ here), fresh), (not-true _ (unless_nil _ _ safe), paths))

nil-check_outputs :
    (step : String) (seen : List String) (os : List OutputDef)
    → Fresh seen (names_of os)
    → All (λ o. is_unsafe o.path ≡ false) os
    → check_outputs step seen os ≡ []
unfolding check_outputs
nil-check_outputs step seen [] f p = refl
nil-check_outputs step seen (o ∷ os) f p =
    nil_append _ _ (nil_append _ _ (nil_unless _ _ (ap not f.0)) (nil_unless _ _ (ap not p.0)))
      (nil-check_outputs step (o.name ∷ seen) os f.1 p.1)

check_exports-nil :
    (step : String) (seen : List String) (es : List ExportRef)
    → check_exports step seen es ≡ []
    → Fresh seen (export_names es)
unfolding check_exports
check_exports-nil step seen [] h = tt
check_exports-nil step seen (e ∷ es) h =
    let (here, rest) = append_nil _ _ h in
    (not-true _ (unless_nil _ _ here), check_exports-nil step (export_name e ∷ seen) es rest)

nil-check_exports :
    (step : String) (seen : List String) (es : List ExportRef)
    → Fresh seen (export_names es)
    → check_exports step seen es ≡ []
unfolding check_exports
nil-check_exports step seen [] f = refl
nil-check_exports step seen (e ∷ es) f =
    nil_append _ _ (nil_unless _ _ (ap not f.0))
      (nil-check_exports step (export_name e ∷ seen) es f.1)

check_completion-nil :
    (step : String) (s : StepDefinition)
    → check_completion step s ≡ []
    → s.completion_check ≡ true
    → is_enough s.max_iterations ≡ true
unfolding check_completion
check_completion-nil step s h c = unless_nil _ _ (rw c at h)

nil-check_completion :
    (step : String) (s : StepDefinition)
    → (s.completion_check ≡ true → is_enough s.max_iterations ≡ true)
    → check_completion step s ≡ []
unfolding check_completion
nil-check_completion step s h = elim (Bool-cases s.completion_check) [
  | inl c ↦ rw c (nil_unless _ _ (h c))
  | inr n ↦ rw n refl
]

check_step-nil :
    (ids : List String) (step : String) (s : StepDefinition)
    → check_step ids step s ≡ []
    → IsValidStep ids s
unfolding check_step
check_step-nil ids step s h =
    let (h₄, exports) = append_nil _ _ h in
    let (h₃, completion) = append_nil _ _ h₄ in
    let (h₂, outputs) = append_nil _ _ h₃ in
    let (deps, inputs) = append_nil _ _ h₂ in
    let (names, paths) = check_outputs-nil step [] (list_of s.outputs) outputs in
    record {
      depends_on = check_depends_on-nil ids step (list_of s.depends_on) deps;
      inputs = check_inputs-nil (list_of s.depends_on) step (list_of s.inputs) inputs;
      names = Fresh-Distinct [] (names_of (list_of s.outputs)) names;
      paths = paths;
      iterations = check_completion-nil step s completion;
      exports =
          Fresh-Distinct [] (export_names (exports_of s))
            (check_exports-nil step [] (exports_of s) exports);
    }

nil-check_step :
    (ids : List String) (step : String) (s : StepDefinition)
    → IsValidStep ids s
    → check_step ids step s ≡ []
unfolding check_step
nil-check_step ids step s v =
    nil_append _ _
      (nil_append _ _
        (nil_append _ _
          (nil_append _ _ (nil-check_depends_on ids step (list_of s.depends_on) v.depends_on)
            (nil-check_inputs (list_of s.depends_on) step (list_of s.inputs) v.inputs))
          (nil-check_outputs step [] (list_of s.outputs)
            (Distinct-Fresh [] (names_of (list_of s.outputs)) v.names (λ y m. refl)) v.paths))
        (nil-check_completion step s v.iterations))
      (nil-check_exports step [] (exports_of s)
        (Distinct-Fresh [] (export_names (exports_of s)) v.exports (λ y m. refl)))

pub check_steps-nil :
    (ids : List String) (steps : Steps)
    → check_steps ids steps ≡ []
    → All (λ e. IsValidStep ids e.1) steps
unfolding check_steps
check_steps-nil ids [] h = tt
check_steps-nil ids ((step, s) ∷ steps) h =
    let (here, rest) = append_nil _ _ h in
    (check_step-nil ids step s here, check_steps-nil ids steps rest)

pub nil-check_steps :
    (ids : List String) (steps : Steps)
    → All (λ e. IsValidStep ids e.1) steps
    → check_steps ids steps ≡ []
unfolding check_steps
nil-check_steps ids [] h = refl
nil-check_steps ids ((step, s) ∷ steps) h =
    nil_append _ _ (nil-check_step ids step s h.0) (nil-check_steps ids steps h.1)
