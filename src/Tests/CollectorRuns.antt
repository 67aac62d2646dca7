-- ===== src/Tests/CollectorRuns.antt =====
-- The session collector of libexec/idle_gc.py at concrete inputs.
use memcap.Prelude.{
  string_eq, lookup, ℕ, ◌-◌, ◌≤◌, ◌≡◌, ◌≢◌, ◌⊎◌, inl, inr, refl, Bool, true, false, String, Option,
  some, none, List, [], ◌∷◌, arith, All, str_eq, Dict,
}
use memcap.Registry.{Job}
use memcap.Processes.{Row, Table, ok, owner}
use memcap.Recovery.Cleanup.{Network}
use memcap.Helpers.{Shell}
use memcap.Collector.{
  Shapes, Session, Candidate, Data, Mark, Kind, browser, idle, active, live_sessions,
}
use memcap.Collector.Event.{Payload, EventName, stop, heard, event}
use memcap.Collector.Event.Idle.{IsHeard, event-IsHeard}
use memcap.Collector.Eligible.{Match, eligible}
use memcap.Collector.Eligible.Vetoes.{IsVetted, eligible-IsVetted}
use memcap.Collector.Scan.{scan, authorize}
use memcap.Collector.Scan.Quiet.{IsDue}
use memcap.Collector.Scan.Silence.{
  World, Reach, here, next, hooked, scanned, IsSilent, start, authorize-IsSilent,
}
use memcap.Collector.Pending.{pending_jobs}
use memcap.Collector.Pending.Owed.{IsOwed, pending_jobs-IsOwed}
use memcap.Tests.Fixtures.{waiter, process}

abbrev shapes : Shapes
shapes = record {
  shell = record { words = λ c. some (c ∷ []); base = λ w. w; is_server_script = λ w. false };
  is_agent = λ c. str_eq c "claude";
  is_browser = λ c. str_eq c "chrome";
  is_simulator = λ c. false;
  is_browser_helper = λ c. false;
  exe = λ c. c;
  names_mcp = λ c. false;
  names_tsx = λ c. false;
  execs_tsx = λ c. false;
}

-- An agent, its hook and a headless browser.
abbrev table : Table
table = (40, process 1 40 "Mon 0" "claude") ∷ (41, process 40 41 "Mon 1" "chrome") ∷ []

abbrev network : Network
network = record { known = true; connected = []; listeners = [] }

-- The end of a turn without background tasks.
abbrev ends : Payload
ends = record {
  event = some stop;
  session_id = some "s";
  agent_id = none;
  cwd = "/work/a";
  background_tasks = some [];
}

abbrev row : Row
row = process 1 40 "Mon 0" "claude"

abbrev rests : Session
rests = record {
  owner = 40;
  start = "Mon 0";
  phase = idle;
  children = [];
  at = 1000;
  ended = true;
  cwd = "/work/a";
}

abbrev after_stop : Data
after_stop = record { sessions = ("k", rests) ∷ []; candidates = [] }

abbrev hash : ℕ → String → String
hash agent session = "k"

hears : heard shapes 501 hash ends 41 table ≡ some (stop, "s", 40, row)
unfolding heard owner memcap.Prelude.lookup memcap.Prelude.elem
hears = refl

stops :
    event shapes 501 hash ends 41 table 1000 (record { sessions = []; candidates = [] })
    ≡ ok after_stop
unfolding event heard owner memcap.Prelude.lookup memcap.Prelude.elem
    memcap.Collector.Event.data_after memcap.Prelude.put memcap.Collector.live_sessions
    memcap.Prelude.keep memcap.Prelude.all
stops = refl

event-IsHeard_example :
    IsHeard shapes hash stop "s" 40 row ends 1000
      (lookup (hash 40 "s") (live_sessions table []))
      after_stop
event-IsHeard_example =
    event-IsHeard shapes 501 hash ends 41 table 1000 (record { sessions = []; candidates = [] })
      after_stop stop "s" 40 row hears stops

abbrev matched : Match
matched = record { kind = browser; owner = some 40; members = 41 ∷ []; observed = 41 ∷ 40 ∷ [] }

eligible_now :
    eligible shapes 501 41 table network false after_stop.sessions 2000 [] ≡ ok (some matched)
unfolding eligible memcap.Prelude.lookup memcap.Processes.descendants memcap.Prelude.all
    memcap.Prelude.keep memcap.Prelude.elem memcap.Prelude.any
    memcap.Collector.Eligible.match_members owner memcap.Collector.Eligible.match_owned
    memcap.Collector.Eligible.all_disposable memcap.Collector.Eligible.is_disposable
eligible_now = refl

eligible-IsVetted_example :
    IsVetted shapes 501 41 table network after_stop.sessions 2000 [] false matched
eligible-IsVetted_example =
    eligible-IsVetted shapes 501 41 table network after_stop.sessions 2000 [] false matched
      eligible_now

abbrev helper : Candidate
helper = record {
  pid = 41;
  kind = browser;
  owner = some 40;
  members = 41 ∷ [];
  signature =
      (41, record { start = "Mon 1"; command = "chrome"; cpu = 1000 })
      ∷ (40, record { start = "Mon 0"; command = "claude"; cpu = 1000 })
      ∷ [];
  first = 2000;
  last = 2000;
}

abbrev after_scan : Data
after_scan = record { sessions = ("k", rests) ∷ []; candidates = (41, helper) ∷ [] }

scans : scan shapes 501 300000 false table network false 2000 [] after_stop ≡ ok (after_scan, [])
unfolding scan eligible memcap.Prelude.lookup memcap.Helpers.dev_server memcap.Processes.descendants
    memcap.Prelude.all memcap.Prelude.keep memcap.Prelude.elem memcap.Prelude.any
    memcap.Collector.Eligible.match_members owner memcap.Collector.Eligible.match_owned
    memcap.Collector.Eligible.all_disposable memcap.Collector.Eligible.is_disposable
    memcap.Collector.live_sessions memcap.Collector.Scan.signature
scans = refl

-- The same scan five minutes later.
abbrev aged : Candidate
aged = record helper { last = 302000 }

abbrev after_second : Data
after_second = record { sessions = ("k", rests) ∷ []; candidates = (41, aged) ∷ [] }

scans_again :
    scan shapes 501 300000 false table network false 302000 [] after_scan
    ≡ ok (after_second, (41, aged) ∷ [])
unfolding scan eligible memcap.Prelude.lookup memcap.Helpers.dev_server memcap.Processes.descendants
    memcap.Prelude.all memcap.Prelude.keep memcap.Prelude.elem memcap.Prelude.any
    memcap.Collector.Eligible.match_members owner memcap.Collector.Eligible.match_owned
    memcap.Collector.Eligible.all_disposable memcap.Collector.Eligible.is_disposable
    memcap.Collector.live_sessions memcap.Collector.Scan.signature memcap.Prelude.sum_of
scans_again = refl

allowed : authorize shapes 501 300000 false 41 table network false 303000 [] after_second ≡ ok true
unfolding authorize memcap.Prelude.elem memcap.Prelude.has eligible memcap.Prelude.lookup
    memcap.Processes.descendants memcap.Prelude.all memcap.Prelude.keep memcap.Prelude.any
    memcap.Collector.Eligible.match_members owner memcap.Collector.Eligible.match_owned
    memcap.Collector.Eligible.all_disposable memcap.Collector.Eligible.is_disposable
    memcap.Collector.Scan.quiet memcap.Collector.Scan.signature memcap.Prelude.sum_of
allowed = refl

abbrev later : World
later = record { state = after_second; clock = 302000; log = (40, 1000) ∷ [] }

reached : Reach shapes 501 300000 hash (start shapes 501 300000 hash) later
unfolding heard owner memcap.Prelude.lookup memcap.Prelude.elem
reached =
    next
      (next
        (next here
          (hooked (start shapes 501 300000 hash) ends 41 table 1000 after_stop (omega arith) stops))
        (scanned (record { state = after_stop; clock = 1000; log = (40, 1000) ∷ [] }) false table
          network false 2000 [] after_scan [] (omega arith) scans))
      (scanned (record { state = after_scan; clock = 2000; log = (40, 1000) ∷ [] }) false table
        network false 302000 [] after_second ((41, aged) ∷ []) (omega arith) scans_again)

authorize-IsSilent_example :
    (due : IsDue shapes 501 300000 41 table network false 303000 [] after_second
      after_second.candidates)
    × (300000 ≤ 303000 - due.candidate.first)
    × IsSilent ((40, 1000) ∷ []) (due.root, due.candidate)
authorize-IsSilent_example =
    authorize-IsSilent shapes 501 300000 hash later reached false 41 table network false 303000 []
      allowed

abbrev owed : Job
owed = record waiter { owner = 41; owner_start = "Mon 1" }

owes : pending_jobs shapes.is_agent (λ c. false) 501 41 "alpha" (owed ∷ []) table ≡ owed ∷ []
unfolding pending_jobs owner memcap.Prelude.lookup memcap.Prelude.elem memcap.Prelude.keep
    memcap.Registry.is_resource memcap.Registry.is_running
owes = refl

pending_jobs-IsOwed_example :
    ((agent : ℕ) × (owner shapes.is_agent 41 table ≡ some agent)
      × All
          (IsOwed shapes.is_agent (λ c. false) 501 agent "alpha" table)
          (pending_jobs shapes.is_agent (λ c. false) 501 41 "alpha" (owed ∷ []) table))
    ⊎ (owner shapes.is_agent 41 table ≡ none)
      × (pending_jobs shapes.is_agent (λ c. false) 501 41 "alpha" (owed ∷ []) table ≡ [])
pending_jobs-IsOwed_example =
    pending_jobs-IsOwed shapes.is_agent (λ c. false) 501 41 "alpha" (owed ∷ []) table
