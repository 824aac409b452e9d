-- ===== src/Lib.antt =====
-- Verification of LASO, a runtime for agent pipelines.
--
-- The program reads pipelines, graphs of nodes written in YAML, and runs them: it routes a message
-- from node to node, forks it over parallel branches, joins the branches, calls models, tools and
-- workers, and keeps every run in a durable store, so that any instance can go on with it.
--
-- The parts modelled here, with the files of the repository that they translate:
--   Core/Errors         include/laso/core/types.hpp: `ErrorCode`, `Error`. A function that throws
--                       returns a `Result`, and `do` blocks chain such results.
--   Core/Data           include/laso/core/types.hpp: messages, definitions, tokens and runs. A std::map
--                       is a list of pairs; `Run` keeps the fields that routing reads or writes.
--   Core/RunStates      src/core/types.cpp: `terminal` and `valid_transition`.
--   Core/NodeWork       include/laso/core/types.hpp: `NodeWork` and its states; src/storage/postgres.cpp:
--                       the guard of `write_records` on the rows of node work.
--   Pipeline/Reference  src/pipeline/parser.cpp: `identifier`, `parse_pipeline_reference`,
--                       `pipeline_reference`. std::stoul is written out.
--   Pipeline/Validate   src/pipeline/parser.cpp: `validate_pipeline` up to the graph searches.
--   Pipeline/Search     src/pipeline/parser.cpp: the two searches of `validate_pipeline`.
--   Pipeline/Validated  what an accepted pipeline is, and what routing may rely on in one.
--   Runtime/Ready, Runtime/Join, Runtime/Advance
--                       src/runtime/graph.cpp: `next_ready`, `prepare_join`, `advance`. A member
--                       function returns the run as it leaves it beside its result, also where it throws.
--   Policy              include/laso/policies/policy.hpp: `PolicyEngine::evaluate`.
--   Security            include/laso/security/security.hpp and src/core/security.cpp: the trusted
--                       gateway's authentication and authorization, and the secrets' names.
--   Workers             include/laso/workers/worker.hpp, src/workers/worker.cpp: the states of a worker's job;
--                       src/storage/postgres.cpp: the guard of `write_records` on their rows.
--   Workers/Usage       src/workers/manager.cpp: `merge_usage`, `total_tokens`, `budget_violation` and the limits
--                       of a WorkerManager. The arithmetic of double is a parameter.
--   Workers/Manager     the same file: `persist`, `fence_stale_submission_locked`,
--                       `finalize_pending_cancellation`; src/workers/worker.cpp: the reading of a usage report.
--   Workers/Manager/Events  the same file: `apply_event` whole, with what the JSON library does and the
--                       registry of workers as parameters.
--   Workers/Manager/Statuses  the same file: the first locked part of `record_submission`, and the part of
--                       `reconcile` that writes a reported status; what the worker answers is an argument.
--   Workers/Interactions  the same file: `handle_interaction` until and after its wait, and
--                       `resolve_interaction`, on a table of interactions. The run of the worker's job is an
--                       argument, and a commit that fails leaves the table as it was.
--   Workspace           src/runtime/workspace.cpp: the checks of workspace manifests. sha256_bytes and the
--                       reading of JSON members are parameters.
--   Context             include/laso/context/reducer.hpp and src/context/reducer.cpp: the recent turns of a
--                       session that fit a budget.
--   Coordination        include/laso/storage/coordination.hpp and src/storage/coordination.cpp: leases with
--                       fencing tokens and the registry of instances, as transactions on two tables.
--   Config              src/core/config.cpp, `Config::validate`: the checks of process workers, and the
--                       guards on numbers, schema and hosts.
--   Pool                include/laso/storage/postgres_pool.hpp and src/storage/postgres_pool.cpp: the pool of
--                       connections and its leases. What a new connection's making answers is an argument.
--   Tables              tables of records as association lists: the rows that src/storage/postgres.cpp keeps
--                       for a kind of record, its `get`, its commit of one record and its `list`.
--   Scheduler/Cron      src/scheduler/scheduler.cpp: cron fields, expressions, and the search for the
--                       next occurrence.
--   Scheduler/Clock     the same file: `parse_utc_timestamp`, `format_utc_timestamp`. timegm, which normalizes
--                       its argument in place, and gmtime_r are parameters.
--   Scheduler/Schedules the same file and include/laso/scheduler/scheduler.hpp: `validate_schedule`,
--                       `cron_next`, `interval_value`, `next_schedule_due`.
--   Scheduler/Store     the records that the scheduler reads and writes.
--   Scheduler/Launch    the branches of `process_due`: skip, queue, launch, and the `catch` clause.
--   Scheduler/Process   `process_due`: the claim of an occurrence, its reconciliation, the loop. What the
--                       storage and `dispatch_` answer is an argument, so that every failure can be stated.
--   Scheduler/Admin     `create_schedule`, `update_schedule`, `set_schedule_enabled`, `delete_schedule`, and
--                       the part of `handle_event` for schedules of runs that have ended.
--   Scheduler/Triggers  `validate_trigger`, the filters of triggers on events, `launch_trigger`.
--   Scheduler/TriggerRows  `create_trigger`, `update_trigger`, `set_trigger_enabled`, `delete_trigger`.
--   Scheduler/Deliver   `process_trigger` and the loop over triggers of `handle_event`. The JSON library's
--                       reading of members, equality and printing are parameters.
-- Base and Maps hold what these share: tests, lists, bytes and the maps. Tests holds runs on small
-- inputs.
--
-- How the parts meet: `advance` and `prepare_join` act on the definitions that `validate_pipeline` has
-- accepted. Numbers are natural numbers; an `unsigned` that grows wraps modulo 2^32 (`u32`). Texts whose
-- characters matter are lists of bytes, the others are compared as wholes. JSON values, the storage's
-- answer to a checkpoint, the environment and the identifiers that uuid() makes are parameters.
--
-- Fuel: `visit` and `reach` recurse along edges, so they take fuel, one call more than there are nodes.
-- It is enough since a call that goes deeper has entered a node that no call had entered.
-- The loop of `cron_field` takes one more round than the distance of a range's ends as fuel, and its
-- step is at least 1. The search of `cron_next` counts the minutes down that the code allows itself.
-- `catch_up` counts the 10000 rounds down that the loop over missed occurrences allows itself;
-- `process_due` recurs over the rows.
-- Not modelled: reading YAML and JSON, SQL, files, sockets, processes and threads. Of the repository's own
-- code: the execution loop of the runtime with its retries and recovery, the transports of workers, and
-- of the WorkerManager `submit`, tool calls and what `reconcile` does when a transport fails; the
-- scheduler's timers; schema validation, artifacts, the application
-- service and event ingress, nodes and providers, plugins, the HTTP API and the command line. They wait on
-- timers, callbacks and I/O for the most part; what they decide is yet to be modelled.
mod Base
pub mod Maps
pub mod Config
pub mod Context
pub mod Core
pub mod Coordination
pub mod Pipeline
pub mod Policy
pub mod Pool
pub mod Runtime
pub mod Scheduler
pub mod Security
pub mod Tables
pub mod Workers
pub mod Workspace
mod Tests
