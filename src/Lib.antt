-- ===== src/Lib.antt =====
-- The execution control of roboppi, which runs jobs for agents: who may run, in which order, and what
-- a caller hears of it.
--
-- The program's scheduler (src/scheduler/index.ts) takes jobs, refuses duplicates of a key, and keeps the others
-- in a priority queue (src/scheduler/job-queue.ts). It sends a job to the core and asks for a permit; if
-- that is refused or the job fails, the job comes back after a delay, until its attempts are used up and it goes
-- to the dead letters. The core (src/core/agentcore.ts) answers the scheduler's messages. It asks the permit gate
-- (src/core/permit-gate.ts), which asks the backpressure controller, then the circuit breaker of the job's
-- provider, then the execution budget; it takes the budget's tokens and keeps the permit until it is
-- completed, revoked or past its deadline. A job that is a worker task is then delegated, and its events pass a
-- throttle (src/core/job-event-throttle.ts). Beside that, a watchdog (src/core/watchdog.ts) grades the load of
-- resources and an escalation manager (src/core/escalation-manager.ts) turns repeated failures into events. A
-- workflow's steps become jobs once its graph of dependencies is checked (src/workflow/dag-validator.ts).
--
-- Parts:
-- - Base: booleans, lists, integers and JavaScript maps with text keys, for all modules.
-- - Base.Json, Base.Trim, Base.TextSet: JSON values, a text as its UTF-16 code units with trim and lower case,
--   and sets of texts.
-- - Types: src/types/common.ts, job.ts and permit.ts, as far as the modules below read them.
-- - Core.CircuitBreaker, Core.BreakerRegistry: src/core/circuit-breaker.ts. The reset timer of a breaker
--   is a field with the time at which it is due, and `fire` is its callback. The registry is a map;
--   `update` stands for a call on the breaker that getOrCreate returns.
-- - Core.Backpressure: src/core/backpressure.ts. Loads are quotients, compared exactly.
-- - Core.RpsRing, Core.Budget: src/core/execution-budget.ts. The ring of times is a list of fixed length
--   with a head and a count; the loop of countInWindow runs on the count, which falls in each round.
-- - Core.PermitGate: src/core/permit-gate.ts. `request_permit` takes the id that the source makes at
--   random and the clock at its four readings; an AbortController is its reason, if it is aborted.
--   `step` and `run` are the events of a gate in use: its calls, its timers, and the calls of others
--   on the controller and the breakers that it shares.
-- - Core.Cancellation: src/core/cancellation.ts. A controller is its reason, if it is aborted.
-- - Core.Escalation, Core.EscalationManager: src/types/escalation.ts and src/core/escalation-manager.ts. The text
--   of a reason is its parts.
-- - Core.Watchdog: src/core/watchdog.ts. Values and thresholds are in thousandths; what the sources of the
--   metrics return is an argument of a tick.
-- - Core.AgentCore, Core.AgentCore.Background: src/core/agentcore.ts over the gate, the cancellation manager, the
--   watchdog and the escalation manager. A handler returns the messages that it sends. A delegation is in
--   the state until its promise settles, which is an event, as are the worker's stream, deadlines, ticks, start
--   and shutdown; the random ids and the clock are arguments.
-- - Worker.TaskPayload, Ipc.Messages: src/types/worker-task-job-payload.ts, and src/types/ipc-messages.ts with
--   the fields that are read.
-- - Core.EventText, Core.JobEventThrottle: src/core/job-event-throttle.ts. A text is a list of code
--   points, with its bytes counted; a lone surrogate reads back from UTF-8 as U+FFFD. A call returns the events
--   that it forwards. One reading of the clock serves both uses in handleProgress. The throttle's timer may run at
--   any time, as timers follow another clock than `Date.now()`.
-- - Workflow.Types, Workflow.DagValidator, Workflow.CycleDetection: src/workflow/types.ts as far as the
--   validator reads it, and src/workflow/dag-validator.ts. The loop of the sort has one round for each
--   step, which is enough as a step enters the queue once.
-- - Workflow.Duration: src/workflow/duration.ts. The pattern of the source is a reader of tokens over code units;
--   sums are exact, `none` is a thrown error.
-- - Tui.RingBuffer: src/tui/ring-buffer.ts, with the newest lines that it keeps.
-- - Scheduler.Scheduler, Scheduler.Scheduler.Events: src/scheduler/index.ts over the queue, the registry, the
--   retry policy and the dead letters. A step is a run of the source between two points where it awaits. The object
--   that the map of jobs and a pending exchange share is a number with a store. The core's answers and
--   messages, timers, start, shutdown and the limit of the drain are events.
-- - Scheduler.JobQueue: src/scheduler/job-queue.ts. The heap is a list that is read and written by index.
--   siftUp runs on fuel, one round for each index below the start, and siftDown one for each entry; the
--   module's Rising and Sinking show that this is enough. Line has the list of jobs that the heap
--   stands for.
-- - Scheduler.InflightRegistry, Scheduler.RetryPolicy, Scheduler.DeadLetterQueue:
--   src/scheduler/inflight-registry.ts, retry-policy.ts and dlq.ts. The random factor of a delay is a
--   fraction that the caller passes. The queue's file is its lines and what stands
--   behind the last newline, such as the rest of a write that was cut short.
-- - Worker.WorkspaceLock: src/worker/workspace-lock.ts. A promise of waitForLock is a waiter with a number;
--   its callback runs inside the call that notifies it, as in the source. The acquire that it calls
--   finds the workspace free, so one round of the recursion between the two is enough.
-- Each module has its definitions in the file of its name; the files below it hold the proofs, and the
-- file Examples runs the definitions on concrete inputs.
--
-- Conventions: numbers are natural. Times are in milliseconds and the clock does not pass below 0; a
-- clock that goes back is allowed wherever a theorem does not exclude it. `undefined` is `none`. An
-- object that is shared, such as the budget of the gate, is a part of its owner's state, and calls of
-- others on it are steps of the owner. Timers do not run before they are due, but for the
-- throttle's.
--
-- Not modelled: logs; the processes of the workers, the supervisor, and the sockets and pipes between them; the
-- lines and the pending requests of the transport; the adapters of the workers; the parser, the executor, the
-- management agent and the sentinel of the workflows; the daemon; the agents' stores; the displays but for
-- the ring buffer.
pub mod Base
pub mod Core
pub mod Ipc
pub mod Scheduler
pub mod Tui
pub mod Types
pub mod Worker
pub mod Workflow
