-- ===== src/Worker/TaskPayload.antt =====
-- src/types/worker-task-job-payload.ts, the guard of the payloads of worker tasks, with the names of
-- src/types/worker-task.ts. A payload is a JSON value, or `none` for `undefined`.
mod Examples
use roboppi.Base.{String, mem, Bool, true, false, not, ◌&&◌, Option, none, some, List, [], ◌∷◌}
use roboppi.Base.Json.{
  Json, null, number, string, array, object, Items, no_items, item, Fields, no_fields, field,
  get_field,
}

abbrev pub valid_worker_kinds : List String
valid_worker_kinds = "CODEX_CLI" ∷ "CLAUDE_CODE" ∷ "OPENCODE" ∷ "CUSTOM" ∷ []

abbrev pub valid_capabilities : List String
valid_capabilities = "READ" ∷ "EDIT" ∷ "RUN_TESTS" ∷ "RUN_COMMANDS" ∷ "MAILBOX" ∷ "TASKS" ∷ []

abbrev pub valid_output_modes : List String
valid_output_modes = "STREAM" ∷ "BATCH" ∷ []

is_string : Option Json → Bool
is_string (some (string _)) = true
is_string _ = false

-- `undefined`, or a text.
is_optional_string : Option Json → Bool
is_optional_string none = true
is_optional_string (some (string _)) = true
is_optional_string (some _) = false

-- A text of a list of names.
unfoldable pub is_one_of : List String → Option Json → Bool
is_one_of names (some (string name)) = mem name names
is_one_of names _ = false

is_finite_number : Option Json → Bool
is_finite_number (some (number _)) = true
is_finite_number _ = false

is_optional_number : Option Json → Bool
is_optional_number none = true
is_optional_number (some (number _)) = true
is_optional_number (some _) = false

all_strings : Items → Bool
unfolding is_string
all_strings no_items = true
all_strings (item v vs) = is_string (some v) && all_strings vs

all_one_of : List String → Items → Bool
all_one_of names no_items = true
all_one_of names (item v vs) = is_one_of names (some v) && all_one_of names vs

all_string_fields : Fields → Bool
all_string_fields no_fields = true
all_string_fields (field _ v vs) = is_string (some v) && all_string_fields vs

is_default_args : Option Json → Bool
is_default_args none = true
is_default_args (some (array args)) = all_strings args
is_default_args (some _) = false

is_capabilities : Option Json → Bool
is_capabilities (some (array caps)) = all_one_of valid_capabilities caps
is_capabilities _ = false

is_budget_of : Json → Bool
is_budget_of budget =
    is_finite_number (get_field "deadlineAt" budget)
    && is_optional_number (get_field "maxSteps" budget)
    && is_optional_number (get_field "maxCommandTimeMs" budget)

-- `null` and `undefined` are no budget, nor is a value without a finite `deadlineAt`.
is_budget : Option Json → Bool
is_budget none = false
is_budget (some budget) = is_budget_of budget

is_env : Option Json → Bool
is_env none = true
is_env (some (object fields)) = all_string_fields fields
is_env (some _) = false

check_payload : Json → Bool
check_payload v =
    is_string (get_field "workerTaskId" v)
    && is_string (get_field "workspaceRef" v)
    && is_string (get_field "instructions" v)
    && is_default_args (get_field "defaultArgs" v)
    && is_optional_string (get_field "model" v)
    && is_optional_string (get_field "variant" v)
    && is_one_of valid_worker_kinds (get_field "workerKind" v)
    && is_one_of valid_output_modes (get_field "outputMode" v)
    && is_capabilities (get_field "capabilities" v)
    && is_budget (get_field "budget" v)
    && is_env (get_field "env" v)

-- A value that is no object has no field, so it is refused for the first one.
unfoldable pub is_worker_task_job_payload : Option Json → Bool
unfolding is_string is_optional_string is_finite_number is_optional_number all_strings all_one_of
    all_string_fields is_default_args is_capabilities is_budget_of is_budget is_env check_payload
is_worker_task_job_payload none = false
is_worker_task_job_payload (some v) = check_payload v

-- `job.payload` read as a payload that the guard has passed.
unfoldable pub text_field : String → Json → String
text_field name v = elim (get_field name v) [ some (string s) ↦ s | _ ↦ "" ]
