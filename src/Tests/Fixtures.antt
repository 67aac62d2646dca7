-- ===== src/Tests/Fixtures.antt =====
-- Concrete jobs, samples, policies and process tables.
use memcap.Prelude.{ℕ, String, true, false, none, some, [], ◌∷◌}
use memcap.Values.{missing, num}
use memcap.Registry.{Job, waiting, running}
use memcap.Sample.{Sample}
use memcap.Admission.{strict, adaptive, Policy, Candidate}
use memcap.Admission.Advance.{Controller}
use memcap.Processes.{Row}
use memcap.Queue.{Settings}
use memcap.Queue.Waiters.{Moment}

-- A waiting automatic job of 1 GiB.
abbrev pub waiter : Job
waiter = record {
  id = "aaaa";
  owner = 50;
  owner_start = "Mon 1";
  group = 0;
  members = [];
  footprint_members = none;
  status = waiting;
  resource = "";
  cwd = "/work/a";
  session_key = "alpha";
  memory_kb = 1048576;
  workers = some 2;
  reservation_kb = missing;
  admission_peak_kb = none;
  observed_peak_kb = missing;
  measured_kb = 0;
  measurement_complete = false;
  reservation_window = [];
  reservation_window_since = none;
  reservation_source = 0;
  started = none;
  enqueued = some 1000;
  elastic = true;
  orphaned = false;
  recovery_active = false;
  small_candidate = true;
  estimate_source = 3;
  estimate_complete_runs = num 4;
  estimate_key = "k";
  demand_version = none;
  lane_version = some 1;
  fairness_version = some 2;
  cancel = false;
  agent_owner = none;
  agent_start = none;
  pinned = false;
  claims = [];
  recovery = none;
  observation_exclusions = [];
  start_monotonic = none;
  last_observation = none;
  learning_protocol = none;
  learning_incomplete = false;
  learning_detached_samples = 0;
  learning_fault_samples = 0;
  learning_missing_samples = 0;
  sample_count = 0;
  learned_peak_kb = 0;
  learning_prior_kb = none;
  measured_at = none;
  estimate_family_key = "";
  owned_observation = none;
  compiler_profile = none;
}

-- A running job of 2 GiB, started long ago, with one measured process.
abbrev pub runner : Job
runner = record waiter {
  id = "bbbb";
  owner = 60;
  group = 61;
  members = (61, "Mon 2") ∷ [];
  status = running;
  session_key = "beta/sub";
  memory_kb = 2097152;
  reservation_kb = num 2097152;
  started = some 1000;
  enqueued = some 500;
}

-- A healthy sample of 16 GiB, 8 of them tracked.
abbrev pub healthy : Sample
healthy = record {
  monotonic = num 100000;
  boot_id = some "boot";
  busy = false;
  fault = some false;
  pressure = some 1;
  tracked_kb = num 4194304;
  cap_kb = num 12582912;
  available_kb = num 8388608;
  tracked_pids = some (61 ∷ []);
  footprints = some ((61, num 1048576) ∷ []);
  swap_out_kbps = missing;
}

abbrev pub strict_policy : Policy
strict_policy = record {
  mode = strict;
  max_jobs = 2;
  headroom_kb = 3145728;
  allowed_pressure = 1 ∷ [];
}

abbrev pub adaptive_policy : Policy
adaptive_policy = record strict_policy { mode = adaptive }

-- A controller that has been healthy for a minute.
abbrev pub steady : Controller
steady = record {
  now = num 101000;
  last_sample = num 99000;
  boot_id = some "boot";
  healthy_since = some 40000;
  cooldown_until = none;
  paging_since = none;
  last_start = some 50000;
}

abbrev pub request_1g : Candidate
request_1g = record { memory_kb = num 1048576; resource = "" }

abbrev pub adaptive_settings : Settings
adaptive_settings = record {
  policy = adaptive;
  max_jobs = 2;
  workers = 4;
  headroom_kb = 3145728;
  allowed_pressure = 1 ∷ [];
  cpus = 10;
}

abbrev pub moment : Moment
moment = record {
  settings = adaptive_settings;
  controller = steady;
  sample = healthy;
  mono = 101000;
  wall = 101000;
}

-- A process of user 501, 200 s old.
abbrev pub process : ℕ → ℕ → String → String → Row
process parent group start command = record {
  ppid = parent;
  group = group;
  uid = 501;
  start = start;
  age = 200;
  cpu = 1000;
  command = command;
}
