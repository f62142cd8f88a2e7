-- ===== src/Worker/TaskPayload/Examples.antt =====
-- Payloads that the guard of src/types/worker-task-job-payload.ts accepts and refuses.
use roboppi.Base.{◌≡◌, refl, true, false, some}
use roboppi.Base.Json.{
  Json, null, number, string, array, object, Items, no_items, item, Fields, no_fields, field,
}
use roboppi.Worker.TaskPayload.{is_worker_task_job_payload}

abbrev fields_with : Json → Fields → Fields
fields_with budget others = field "workerTaskId" (string "t") (
    field "workspaceRef" (string "w") (
      field "instructions" (string "i") (
        field "workerKind" (string "CODEX_CLI") (
          field "outputMode" (string "BATCH") (
            field "capabilities" (array (item (string "READ") no_items))
              (field "budget" budget others))))))

all_open : Unit {0}
unfolding roboppi.Worker.TaskPayload.is_worker_task_job_payload roboppi.Worker.TaskPayload.is_one_of
    roboppi.Base.Json.get_field
all_open = tt

accepted :
    is_worker_task_job_payload
      (some (object (fields_with (object (field "deadlineAt" (number 9) no_fields)) no_fields)))
    ≡ true
unfolding all_open
accepted = refl

no_deadline :
    is_worker_task_job_payload (some (object (fields_with (object no_fields) no_fields))) ≡ false
unfolding all_open
no_deadline = refl

bad_env :
    is_worker_task_job_payload (
      some (
        object (
          fields_with
            (object (field "deadlineAt" (number 9) no_fields))
            (field "env" (object (field "A" null no_fields)) no_fields))))
    ≡ false
unfolding all_open
bad_env = refl
