-- ===== src/Tests/PollRuns.antt =====
-- libexec/poll_cleanup.py at concrete inputs.
use memcap.Prelude.{
  ℕ, ◌≡◌, ◌≢◌, ◌⊎◌, refl, true, false, some, none, List, [], ◌∷◌, arith, str_eq, if◌then◌else◌,
}
use memcap.Registry.{Job, waiting, running, is_resource}
use memcap.Processes.{Table, ok}
use memcap.Proposals.{find_job, is_recent}
use memcap.Poll.{Texts, Proposal, plan, authorize, same_job}
use memcap.Poll.Polling.{IsIdleWaiter, IsIdleGroup, plan-IsIdle}
use memcap.Poll.Safety.{IsReplanned, IsLeftover, authorize-IsReplanned}
use memcap.Tests.Fixtures.{waiter, process}

abbrev texts : Texts
texts = record {
  is_agent = λ c. str_eq c "claude";
  cut = λ c. if str_eq c "poller" then some ("prefix", "tick") else none;
  words = λ p. some ("python3" ∷ "scheduler.py" ∷ "run" ∷ "--shell" ∷ "/bin/sh" ∷ "--login" ∷ []);
  is_python = λ w. str_eq w "python3";
  is_scheduler = λ w. str_eq w "scheduler.py";
  loop_of = λ c. none;
  is_polling = λ s. str_eq s "tick";
  is_sleep = λ c. false;
}

-- An agent waits by a loop that only ticks.
abbrev table : Table
table = (40, process 1 40 "Mon 0" "claude") ∷ (60, process 40 60 "Mon 1" "poller") ∷ []

abbrev poller : Job
poller = record waiter { owner = 60 }

abbrev proposal : Proposal
proposal = record {
  job_id = "aaaa";
  owner = 60;
  owner_start = "Mon 1";
  group = 0;
  status = waiting;
  at = 100000;
  members = (60, record { start = "Mon 1"; command = "poller"; group = 60 }) ∷ [];
}

planned : plan texts 501 poller table 100000 ≡ ok (some proposal)
unfolding plan is_resource memcap.Poll.plan_waiting memcap.Prelude.lookup memcap.Poll.polls_waiting
    memcap.Processes.owner memcap.Prelude.elem memcap.Processes.descendants memcap.Prelude.all
    memcap.Prelude.keep
planned = refl

plan-IsIdle_example :
    (is_resource poller.resource ≡ false)
    × ((poller.status ≡ waiting) × IsIdleWaiter texts 501 poller table 100000 proposal
        ⊎ (poller.status ≡ running) × IsIdleGroup texts 501 poller table 100000 proposal)
plan-IsIdle_example = plan-IsIdle texts 501 poller table 100000 proposal planned

authorized : authorize texts 501 proposal (poller ∷ []) table 101000 false ≡ ok (60 ∷ [])
unfolding authorize find_job memcap.Poll.authorize_job plan is_resource memcap.Poll.plan_waiting
    memcap.Prelude.lookup memcap.Poll.polls_waiting memcap.Processes.owner memcap.Prelude.elem
    memcap.Processes.descendants memcap.Prelude.all memcap.Prelude.keep memcap.Poll.agrees
authorized = refl

one_pid : ◌≢◌ {A = List ℕ} (60 ∷ []) []
one_pid e = ground (arith, e)

authorize-IsReplanned_example :
    (j : Job) × (find_job proposal.job_id (poller ∷ []) ≡ some j)
    × (same_job j proposal ≡ true)
    × (is_recent proposal.at 101000 ≡ true)
    × (false ≡ false → IsReplanned texts 501 proposal j table 101000 (60 ∷ []))
    × (false ≡ true → IsLeftover texts 501 proposal j table (60 ∷ []))
authorize-IsReplanned_example =
    authorize-IsReplanned texts 501 proposal (poller ∷ []) table 101000 false (60 ∷ []) authorized
      one_pid
