-- ===== src/Lib.antt =====
-- Ora, a job scheduler. Of its server: the executor pool, the loops that keep the backend informed
-- of what becomes of executions, the times of schedules, and the admin service with its messages. Of
-- its executors: the loop that answers the server, and the tasks that run executions. Of its terminal
-- UI: the form in which jobs and schedules are created.
--
-- A backend stores jobs and their executions. The server fetches those that are ready and offers
-- them to executors, which are connected processes that accept or reject them and report results;
-- it tells the backend what was started, what succeeded, and what failed, and plans retries.
--
-- The files, and the code that they model:
--   Time, Util, Deadlines durations and times of the standard library as the program uses them;
--                         crates/ora-server/src/util.rs: deadline_after and validate_time.
--   Backend               the records of crates/ora-backend/src that the server works on.
--   Pool                  crates/ora-server/src/executor_pool.rs. State has its data, Queue the
--                         methods of Executor and ExecutorJobQueue, Offer is try_offer, Accepted the
--                         record of accepted executions and the queries, Cancel the cancellations.
--                         executor_loop is in Turn, Handlers (one per message) and Loop: one round
--                         is executor_round, and add_executor starts it.
--   Pool.Measure, Shrinking, Rounds, Places, Offering, Invariant, History
--                         the invariant of the pool under any order of calls.
--   Pool.Batches, Cancelling, Ledger, Quiet, Conservation, Backoff
--                         what batches, cancellations, rounds and rejections do.
--   Server                crates/ora-server/src/server/executions.rs. Retry: retry_executions and
--                         retry_backoff; Attempts: retry_backend; Events: executor_events_loop;
--                         Timeouts: execution_timeouts_loop; Starts: start_executions; Ready:
--                         ready_executions_loop; Receiving: what execution_starts_loop and
--                         executor_events_loop wait for, and how they stop; Settled: what the latter
--                         tells the backend. Backoff, Failures, Repeats, Results, Fates, Refusals,
--                         Passes, Ignored, Drained and Delivered have the theorems.
--   Schedule              crates/ora-server/src/server/schedules.rs: next_execution_time and
--                         validate_schedule in Defs, with Interval and Validated; the batches of
--                         schedule_new_jobs_loop in Batch, with Plans.
--   Labels                deduplicate_labels and inherit_labels of crates/ora-server/src/util.rs.
--   Wait                  crates/wgroup/src/lib.rs: groups and guards in Group, and the steps of
--                         threads that add, drop and wait in Wakeups.
--   JobTypes              JobTypeId::validate of crates/ora-backend/src/jobs.rs in Ids, the grammar of
--                         IDs in Grammar, and the same check of crates/ora/src/job_type.rs in Scan.
--   Convert               crates/ora-server/src/grpc/conv.rs. Status is the services' answers, Messages
--                         the generated messages; Policies and Jobs convert jobs and schedules,
--                         Filters, Queries and Schedules the filters, the client's conversions of
--                         crates/ora/src/proto/convert.rs included. RoundTrip, Arrivals and Refusals
--                         have the theorems.
--   Admin                 crates/ora-server/src/grpc/admin.rs: the checks of jobs in Checks, add_jobs
--                         and cancel_jobs in Jobs, add_schedules in Schedules, stop_schedules in
--                         Stops; Admitted, Cancelled and Planned have the theorems.
--   Executor              crates/ora/src/executor/implementation: messages, queues and capabilities in
--                         Types, counters and active executions in State, run_execution in Runs,
--                         executor_loop in Loop. Invariant, Preserved, Steps and Kept have what holds
--                         in any order of their steps, Answers and Endings what follows.
--   Form                  crates/ora-cli/src/tui/ui/form.rs and the keys of crates/ora-cli/src/tui.rs.
--                         Text, State, Moves, Typing and Erasing are the form under its keys; Json and
--                         Payload its payload and check; Options its options; Policies the policies
--                         that fill it and are read from it; Window what a row shows of a text. Fits,
--                         Erased, Valid, Moved and Keyed have the invariant of the caret; RoundTrip,
--                         Words, WordErased, Placed, Filled and Duplicated what edits, the payload and
--                         the options come to. Nodes reads a schema, Schema is its fields, with Walk
--                         and Walked beside it, Choices where the search for a field's choices does
--                         not end, Fields, WellFormed and Separate what the fields are, and Assembled
--                         and Unmoved the payload of a form with them.
--   Tests                 the theorems at concrete inputs.
--   Base                  tests, lists, dictionaries and sums that the parts share.
--
-- How the code is read:
--   * The pool is one value that each call takes and returns: the code holds the pool's locks for
--     the whole of a call or of a round, so these do not interleave; only the last round of a task
--     and the removal of its executor are apart. What a call sends (messages,
--     events, acceptances, notifications) is its list of outputs. Whether a channel is connected is
--     an argument, and so is the order in which try_offer shuffles the executors.
--     What is sent to a closed channel is lost and is no output.
--   * What retry_executions and executor_events_loop want of the backend is the list of their calls,
--     each made by retry_backend. It may give a call up in a shutdown; the code then logs the error
--     and makes the next call, so a call of the list may never have succeeded.
--   * A UUID is a number; `none` stands for an ID that is no UUID. Times are nanoseconds counted
--     from the earliest time that the platform represents. A clock has one reading per call.
--   * A message that offers an execution carries the whole ReadyExecution.
--   * Sums of times that the code adds without a check (an offer's deadline, the end of a backoff,
--     the time of a retry) are taken to be representable: otherwise the code panics.
--   * The search for a field's choices, choices_of, runs on fuel, the number of its calls. No fuel is
--     enough for every schema: `none` says that the fuel is used up, and the search for fields passes
--     that on. Theorems about a form suppose that its fields are found, with any fuel.
--   * retry_backend runs on fuel: one more than the number of attempts, which is enough since each
--     round uses one up. All other loops recurse on lists.
--   * The waker of a wait group is another library's: the group lists the calls of it. A guard's drop
--     takes two steps, and the steps of threads may come in any order.
--   * A task of an executor is cut where others may come between: it starts and reserves a slot, its
--     guards are done and it answers, it notices a cancellation, its handler is done, its grace ends,
--     and it drops its slot and then its guard. The loops of all connections and the pieces of all
--     tasks may come in any order. Each cancellation token is a number. What guards and handlers do
--     is an argument.
--   * A pass of ready_executions_loop takes the batches of the backend as a list; what others do to
--     the pool before a batch is offered is a function.
--   * A round of a receiving loop is a function of the branch of `select!` that is taken; `none` says
--     that the branch is not ready. What others send comes between rounds, in any order.
--   * A text of a form is a list of code points, and a byte offset on a character's boundary is the
--     number of characters before it. What is white space, a letter, a number, a time or a duration
--     is an argument. `none` stands for a panic.
--   * Durations and timestamps of messages, UUIDs and backends are interfaces with the laws that are
--     used. An integer of an enumeration may be any; other fields have their types' values. A failure's
--     text is the library's, as an argument.
--   * Cron expressions, the range of timestamps, JSON and the conversion of job types are arguments.
--
-- A result whose timestamp is unreadable removes the execution and ends the task without an event;
-- the check for timeouts finds such an execution as orphaned. Rounds of this kind are excepted where
-- a theorem says so.
--
-- Not modelled: the other services of the admin API and their conversions, metrics, the streams and
-- reconnection of executors, the rest of the client library, the PostgreSQL backend (SQL), macros, the
-- command line, the benchmark, and of the user interface all but the form.
mod Base
pub mod Time
pub mod Util
pub mod Deadlines
pub mod Backend
pub mod Pool
pub mod Server
pub mod Schedule
pub mod Wait
pub mod Convert
pub mod JobTypes
pub mod Executor
pub mod Form
pub mod Admin
pub mod Labels
pub mod Tests
