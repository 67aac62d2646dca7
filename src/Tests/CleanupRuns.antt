-- ===== src/Tests/CleanupRuns.antt =====
-- The ancestry of processes, the simulator timeout and the orphan recovery at concrete inputs.
use memcap.Prelude.{
  ℕ, ◌≡◌, ◌≢◌, ◌↔◌, refl, true, false, some, List, [], ◌∷◌, arith, keep, all, any, lookup, elem,
  str_eq, nat_eq, string_eq,
}
use memcap.Registry.{Job, is_running, is_resource}
use memcap.Processes.{Table, ok, descendants, subset, owner}
use memcap.Processes.Tree.{Below, descendants-Below_iff}
use memcap.Proposals.{check_members, find_job}
use memcap.Helpers.{Shell}
use memcap.Boot.{Patterns, Proposal, authorize}
use memcap.Boot.Safety.{IsAuthorized, authorize-IsAuthorized}
use memcap.Recovery.Cleanup.{Host, Network, Session}
use memcap.Recovery.Grace
use memcap.Recovery.Grace.Disposal.{IsDisposable, authorize-IsDisposable}
use memcap.Tests.Fixtures.{runner, process}

-- An agent runs a supervisor, whose group is a shell that boots a simulator.
abbrev table : Table
table =
    (40, process 1 40 "Mon 0" "claude")
    ∷ (60, process 40 60 "Mon 1" "memcap")
    ∷ (61, process 60 61 "Mon 2" "sh")
    ∷ (62, process 61 61 "Mon 3" "simctl boot")
    ∷ []

abbrev names : Patterns
names = record {
  is_agent = λ c. str_eq c "claude";
  is_boot = λ c. str_eq c "simctl boot";
  is_shell = λ c. str_eq c "sh";
  is_helper = λ c. false;
}

below_60 : descendants 60 table ≡ ok (62 ∷ 61 ∷ 60 ∷ [])
unfolding descendants all keep elem
below_60 = refl

descendants-Below_iff_example : (elem 62 (62 ∷ 61 ∷ 60 ∷ []) ≡ true) ↔ Below table 60 62
descendants-Below_iff_example = descendants-Below_iff table 60 (62 ∷ 61 ∷ 60 ∷ []) below_60 62

abbrev boot_job : Job
boot_job = record runner { members = (61, "Mon 2") ∷ (62, "Mon 3") ∷ [] }

abbrev boot_proposal : Proposal
boot_proposal = record {
  job_id = "bbbb";
  owner = 60;
  owner_start = "Mon 1";
  group = 61;
  boot = 62;
  at = 100000;
  members =
      (61, record { start = "Mon 2"; command = "sh" })
      ∷ (62, record { start = "Mon 3"; command = "simctl boot" })
      ∷ [];
}

-- The first signal is authorized.
boot_authorized :
    authorize names 501 boot_proposal (boot_job ∷ []) table 101000 false ≡ ok (61 ∷ 62 ∷ [])
unfolding authorize find_job memcap.Boot.authorize_job memcap.Boot.bound is_running is_resource
    lookup owner elem keep all subset check_members descendants memcap.Boot.plan
    memcap.Boot.still_planned
boot_authorized = refl

some_pids : ◌≢◌ {A = List ℕ} (61 ∷ 62 ∷ []) []
some_pids e = ground (arith, e)

authorize-IsAuthorized_example :
    IsAuthorized names 501 boot_proposal (boot_job ∷ []) table 101000 false (61 ∷ 62 ∷ [])
authorize-IsAuthorized_example =
    authorize-IsAuthorized names 501 boot_proposal (boot_job ∷ []) table 101000 false (61 ∷ 62 ∷ [])
      boot_authorized some_pids

-- The agent and the supervisor are gone, and a development server is left.
abbrev left_behind : Table
left_behind = (61, process 1 61 "Mon 2" "vite") ∷ []

abbrev orphan : Job
orphan = record runner {
  members = (61, "Mon 2") ∷ [];
  agent_owner = some 40;
  agent_start = some "Mon 0";
  recovery = some (record {
    at = 990000;
    since = 800000;
    clear_since = 800000;
    members = (61, "Mon 2") ∷ [];
    commands = (61, "vite") ∷ [];
  });
}

abbrev host : Host
host = record {
  shell = record { words = λ c. some (c ∷ []); base = λ w. w; is_server_script = λ w. false };
  is_agent = λ c. str_eq c "claude";
  related = λ a b. str_eq a b;
}

abbrev network : Network
network = record { known = true; connected = []; listeners = 61 ∷ [] }

abbrev orphan_proposal : memcap.Recovery.Grace.Proposal
orphan_proposal = record {
  job_id = "bbbb";
  owner = 60;
  owner_start = "Mon 1";
  group = 61;
  at = 1000000;
  members = (61, record { start = "Mon 2"; command = "vite" }) ∷ [];
}

orphan_authorized :
    memcap.Recovery.Grace.authorize host 501 orphan_proposal
      (some orphan)
      left_behind
      network
      (some [])
      1001000
      false
      false
      (orphan ∷ [])
    ≡ ok (61 ∷ [])
unfolding memcap.Recovery.Grace.authorize Grace.authorize_job memcap.Recovery.bound is_running
    lookup keep memcap.Recovery.check_group descendants all elem memcap.Recovery.recovered
    memcap.Recovery.same_dict memcap.Recovery.Cleanup.cleanup_reason any owner memcap.Helpers.helper
    Grace.members_match
orphan_authorized = refl

one_pid : ◌≢◌ {A = List ℕ} (61 ∷ []) []
one_pid e = ground (arith, e)

authorize-IsDisposable_example :
    (false ≡ false)
    × IsDisposable host 501 orphan_proposal left_behind network
        (some [])
        1001000
        (orphan ∷ [])
        orphan
        (61 ∷ [])
authorize-IsDisposable_example =
    authorize-IsDisposable host 501 orphan_proposal orphan left_behind network (some []) 1001000
      false false (orphan ∷ []) (61 ∷ []) orphan_authorized one_pid
