-- ===== src/Lib.antt =====
-- memcap: a verification library for the Python core of memcap, which schedules memory-hungry
-- commands on one machine and cleans up what they leave behind.
--
-- The program. Every command that runs through memcap registers a job in `jobs.json` under a lock
-- (libexec/scheduler.py). A monitor samples the host. A controller (libexec/admission.py) follows the
-- samples and decides whether one more job of a known size may start. The size comes from estimates
-- that learn from measured peaks (libexec/workload_estimates.py); while a job runs, its reservation
-- follows its measured use (`Scheduler.reservation`). Among the waiting jobs the queue chooses by
-- sessions, turns and lanes (`Scheduler.next_waiter`, libexec/scheduler_lanes.py). A
-- refresh (`Scheduler.refresh`, libexec/workload_members.py) drops dead jobs and says which process
-- counts for which job; `Scheduler.observe` and `Scheduler.observe_owned` turn samples into
-- reservations and estimates, the second from the paired readings of a job's own supervisor
-- (libexec/job_observation.py). A started command gets worker options and variables within its
-- allocation (libexec/scheduler_policy.py). Three
-- cleaners propose processes to end and check the proposal again before the signal:
-- libexec/boot_timeout.py for simulator boots that hang, libexec/poll_cleanup.py for loops that only
-- wait, and libexec/orphan_recovery.py for development servers whose agent is gone. A collector
-- (`Collector` of libexec/idle_gc.py) follows the hooks of agents and ends helpers below an agent
-- that is idle. All rest on the ancestry of processes of libexec/idle_gc.py.
--
-- The files.
--   Prelude               lists, dictionaries, Booleans and their lemmas
--   Values, Registry      fields that may be missing or invalid (`number` of
--                         libexec/scheduler_metrics.py), the records of the registry
--   Sample                what `Scheduler.sample_host` yields
--   Admission             `decide` of libexec/admission.py; Admission/Advance is `advance`
--   Estimates             `estimate` and `record` of libexec/workload_estimates.py (`record_run`)
--   Lanes                 `lane` and `lane_code` of libexec/scheduler_lanes.py
--   Reservation           `Scheduler.reservation` of libexec/scheduler.py
--   Queue                 `session_bucket`; Queue/Workers is `allocation`, Queue/Waiters
--                         `admissible` and `next_waiter`, Queue/Turns `record_turn`
--   Throughput            `pending_request`, `capacity_progress` and the small rules of
--                         libexec/throughput.py
--   Ownership             `wait_targets`, `nested` and `authorize_cancel` of libexec/scheduler.py
--   Processes             the process table, `descendants` and `owner` of libexec/idle_gc.py
--   Proposals, Boot       `bound`, `plan` and `authorize` of libexec/boot_timeout.py
--   Poll                  `supervisor_poll`, `plan` and `authorize` of libexec/poll_cleanup.py
--   Helpers               `dev_server` of libexec/idle_gc.py, `helper` of libexec/orphan_recovery.py
--   Recovery              `bound` and `recovered` of libexec/orphan_recovery.py; Recovery/Cleanup is
--                         `cleanup_reason`, Recovery/Grace `observe`, `authorize` and
--                         `protected_claims`
--   Collector             the state of `Collector` of libexec/idle_gc.py; Collector/Event is `event`,
--                         Collector/Eligible `eligible`, Collector/Scan `scan` and `authorize`,
--                         Collector/Pending `pending_jobs`
--   Observation, Owned    `reconcile`, `accumulate` and `complete_at`, and `members` and `sample_job`,
--                         of libexec/job_observation.py
--   Refresh               `refresh` of libexec/scheduler.py; Refresh/Attribution is
--                         `refresh_footprint_members` of libexec/workload_members.py
--   Observing             `observe` and `observe_owned` of libexec/scheduler.py
--   CompilerProfiles      `predict` and `record_profile` of libexec/compiler_profiles.py
--   Metrics               `account_blocker`, `rate`, `newer_cached_sample` and others of
--                         libexec/scheduler_metrics.py, `phase_fields` of libexec/job_timing.py
--   WorkerLimits          `bounded` and `cap_flags` of libexec/scheduler_policy.py; WorkerLimits/Tools
--                         is `worker_argv`, WorkerLimits/Environment `worker_environment`
--   Tests                 concrete inputs, and the theorems at them
-- The other files hold proofs, each beside what it is about.
--
-- The representation. Times are milliseconds and memory is KiB, both natural numbers; the age of a
-- process is in seconds, and the clocks whose differences the source truncates to milliseconds
-- (`account_blocker`, `phase_fields`) are in microseconds. Factors are fractions: `* 1.25` is
-- `* 5 / 4`, with the rounding of the source (`int` down, `math.ceil` up), `* 0.9` is `* 9 / 10`, 0.95
-- is 19/20. A key `str(pid)` is the number. A dictionary is an association list in the order of its entries. A handler that mutates a
-- job returns the new job. A function reads each clock once, and the readings are arguments. Sets of
-- process identifiers are lists. A function that raises returns `raised`.
--
-- Bounds. `descendants` gives up after 64 rounds and `owner` after 64 steps, and the climbs of
-- libexec/scheduler.py and of `running_resource` after 128, as the source does; the model counts the
-- same rounds down. Two loops of the source have no such bound: the
-- passes of `members` (Owned) get one more than the table has rows, and the queue of
-- `refresh_footprint_members` gets a step for each assigned process and each row, which is enough.
-- All else is structural recursion.
--
-- Parameters. The regular expressions, `shlex.split` and the paths of pathlib are records of
-- functions (Boot `Patterns`, Poll `Texts`, Helpers `Shell`, Recovery/Cleanup `Host`, Collector
-- `Shapes`, WorkerLimits `Numbers`, WorkerLimits/Tools `Shell`); so are the hash of a session's key,
-- and `persistent_shell` and `polling_loop` of libexec/scheduler_policy.py, which recognize
-- command lines. The process table, the network, the readings of a process and the clocks are
-- arguments.
--
-- What is not modelled: the files and the lock of the collector and the launch and the lock of the
-- scheduler, recognizers of commands, probes, analytics, reports, integration and the
-- shell scripts, since they are input and output or rest on them, or are not reached yet.
pub mod Prelude
pub mod Values
pub mod Registry
pub mod Sample
pub mod Admission
pub mod Estimates
pub mod Lanes
pub mod Reservation
pub mod Queue
pub mod Processes
pub mod Proposals
pub mod Poll
pub mod Helpers
pub mod Boot
pub mod Owned
pub mod CompilerProfiles
pub mod Observation
pub mod Collector
pub mod Ownership
pub mod Throughput
pub mod Recovery
pub mod Refresh
pub mod Observing
pub mod Metrics
pub mod WorkerLimits
mod Tests
