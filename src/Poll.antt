-- ===== src/Poll.antt =====
-- libexec/poll_cleanup.py: cancelling registered loops that only wait.
pub mod Polling
pub mod Safety
use memcap.Prelude.{
  ℕ, ◌-◌, String, Bool, true, false, not, ◌&&◌, ◌||◌, Option, none, some, List, [], ◌∷◌,
  if◌then◌else◌, keep, any, all, elem, leb, ltb, ◌==◌, length, Dict, lookup, has, nat_eq, keys,
  str_eq,
}
use memcap.Registry.{Job, Status, waiting, running, is_resource, is_running}
use memcap.Processes.{Row, Table, Try, ok, raised, ◌>>=◌, subset, descendants, owner, started_as}
use memcap.Proposals.{group_of, same_set, find_job, is_recent}

-- What the module takes from elsewhere: `is_agent` is `AGENT.match`; `cut` is
-- `partition(" --shell-command ")`, `none` without the separator; `words` is `shlex.split`, `none`
-- where it raises; `is_python` and `is_scheduler` are the tests of the first two words; `loop_of` is
-- the script behind `sh -c` (`none` if the command is another); `is_polling` is `polling_loop` of
-- libexec/scheduler_policy.py after the newlines are put back; `is_sleep` is the pattern of a sleep.
pub record Texts : Type 0 where
  pub is_agent : String → Bool
  pub cut : String → Option (String × String)
  pub words : String → Option (List String)
  pub is_python : String → Bool
  pub is_scheduler : String → Bool
  pub loop_of : String → Option String
  pub is_polling : String → Bool
  pub is_sleep : String → Bool

pub record Member : Type 0 where
  pub start : String
  pub command : String
  pub group : ℕ

pub record Proposal : Type 0 where
  pub job_id : String
  pub owner : ℕ
  pub owner_start : String
  pub group : ℕ
  pub status : Status
  pub at : ℕ
  pub members : Dict ℕ Member

abbrev pub is_flag : String → Bool
is_flag w = str_eq w "--wait-forever" || str_eq w "--login"

abbrev pub takes_value : String → Bool
takes_value w =
    str_eq w "--shell" || str_eq w "--cwd" || str_eq w "--session-key" || str_eq w "--wait"

abbrev pub is_shell_path : String → Bool
is_shell_path v = str_eq v "/bin/bash" || str_eq v "/bin/zsh" || str_eq v "/bin/sh"

-- The loop over the options behind `run`.
unfoldable pub run_options : List String → Bool
run_options [] = true
run_options (w ∷ []) = is_flag w
run_options (w ∷ v ∷ rest) =
    let one = run_options (v ∷ rest) in
    let two = run_options rest in
    if is_flag w
    then one
    else if takes_value w
    then (if str_eq w "--shell" && not (is_shell_path v) then false else two)
    else false

abbrev pub members_of : Table → Dict ℕ Member
members_of [] = []
members_of ((p, r) ∷ t) =
    (p, record { start = r.start; command = r.command; group = r.group }) ∷ members_of t

abbrev pub propose : Job → Table → ℕ → Proposal
propose j group now = record {
  job_id = j.id;
  owner = j.owner;
  owner_start = j.owner_start;
  group = j.group;
  status = j.status;
  at = now;
  members = members_of group;
}

abbrev pub is_none {ℓ} : {A : Type ℓ} → List A → Bool
is_none [] = true
is_none (x ∷ xs) = false

abbrev same_status : Status → Status → Bool
same_status waiting waiting = true
same_status running running = true
same_status _ _ = false

abbrev pub same_job : Job → Proposal → Bool
same_job j proposal =
    j.owner == proposal.owner
    && str_eq j.owner_start proposal.owner_start
    && j.group == proposal.group
    && same_status j.status proposal.status

abbrev pub same_member : Member → Member → Bool
same_member m n = str_eq m.start n.start && str_eq m.command n.command && m.group == n.group

-- One direction of `fresh["members"] == proposal["members"]`.
unfoldable pub agrees : Dict ℕ Member → Dict ℕ Member → Bool
agrees [] bs = true
agrees ((p, m) ∷ as') bs =
    (elim (lookup p bs) [ none ↦ false | some n ↦ same_member m n ]) && agrees as' bs

-- `proposal["members"][p]` has this start, command and group.
unfoldable pub is_proposed : Dict ℕ Member → ℕ × Row → Bool
is_proposed ms (p, r) = elim (lookup p ms) [
  | none ↦ false
  | some m ↦ same_member (record { start = r.start; command = r.command; group = r.group }) m
]

-- `{p: r for p, r in table.items() if p in proposal["members"]}`
unfoldable pub survivors_of : Dict ℕ Member → Table → Table
survivors_of ms table = keep (λ e. has e.0 ms) table

module _ (x : Texts) (me : ℕ) where
  unfoldable pub scheduler_words : List String → Bool
  unfolding run_options
  scheduler_words (python ∷ script ∷ verb ∷ options) =
      x.is_python python && x.is_scheduler script && str_eq verb "run" && run_options options
  scheduler_words _ = false

  -- `supervisor_poll(command)`
  unfoldable pub supervisor_poll : String → Bool
  unfolding scheduler_words
  supervisor_poll command = elim (x.cut command) [
    | none ↦ false
    | some (prefix, script) ↦ elim (x.words prefix) [
      | none ↦ false
      | some ws ↦ scheduler_words ws && x.is_polling script
    ]
  ]

  abbrev pub has_own_agent : Job → Table → Bool
  has_own_agent j table = elim (owner x.is_agent j.owner table) [
    | none ↦ false
    | some agent ↦ elim (lookup agent table) [ none ↦ false | some a ↦ a.uid == me ]
  ]

  -- The guards of a waiting job, before its descendants are asked for.
  unfoldable pub polls_waiting : Job → Table → Row → Bool
  unfolding supervisor_poll
  polls_waiting j table s =
      str_eq s.start j.owner_start
      && s.uid == me
      && has_own_agent j table
      && leb 60 s.age
      && j.group == 0
      && is_none j.members
      && supervisor_poll s.command

  unfoldable pub plan_waiting : Job → Table → ℕ → Try (Option Proposal)
  plan_waiting j table now = elim (lookup j.owner table) [
    | none ↦ ok none
    | some s ↦
        if polls_waiting j table s
        then (do
          below ← descendants j.owner table
          ok (
              if same_set below (j.owner ∷ [])
              then some (propose j ((j.owner, s) ∷ []) now)
              else none))
        else ok none
  ]

  -- The guards on the leader of a running group whose supervisor is gone.
  unfoldable pub polls_running : Job → Table → Row → Bool
  polls_running j table leader =
      not (started_as (lookup j.owner table) j.owner_start)
      && leader.ppid == 1
      && leb 300 leader.age
      && (elim (lookup j.group j.members) [ none ↦ false | some s ↦ str_eq s leader.start ])
      && (elim (x.loop_of leader.command) [ none ↦ false | some script ↦ x.is_polling script ])

  -- A member is the user's, and sleeps below the leader if it is not the leader.
  unfoldable pub sleeps : Job → ℕ × Row → Bool
  sleeps j (p, r) = r.uid == me && (p == j.group || r.ppid == j.group && x.is_sleep r.command)

  unfoldable pub plan_running : Job → Table → ℕ → Try (Option Proposal)
  plan_running j table now = elim (lookup j.group table) [
    | none ↦ ok none
    | some leader ↦
        let group = group_of j table in
        if polls_running j table leader && not (is_none group || ltb 8 (length group))
        then (do
          below ← descendants j.group table
          ok (
              if same_set below (keys group) && all (sleeps j) group
              then some (propose j group now)
              else none))
        else ok none
  ]

  -- `plan(job, table, now)`
  unfoldable pub plan : Job → Table → ℕ → Try (Option Proposal)
  plan j table now =
      if is_resource j.resource
      then ok none
      else elim j.status [ waiting ↦ plan_waiting j table now | running ↦ plan_running j table now ]

  -- The loop over the survivors.
  unfoldable pub check_survivors : Dict ℕ Member → List ℕ → Table → Table → Try Bool
  check_survivors ms inside table [] = ok true
  check_survivors ms inside table (e ∷ rest) =
      let later = check_survivors ms inside table rest in
      if e.1.uid == me && is_proposed ms e
      then (do below ← descendants e.0 table; (if subset below inside then later else ok false))
      else ok false

  -- No process of the group of a running job is left out.
  unfoldable pub is_whole : Job → List ℕ → Table → Bool
  is_whole j inside table = not (is_running j) || all (λ e. elem e.0 inside) (group_of j table)

  -- `authorize` for a job that is found.
  unfoldable pub authorize_job : Proposal → Job → Table → ℕ → Bool → Try (List ℕ)
  authorize_job proposal j table now false = do
    planned ← plan j table now
    ok (elim planned [
      | none ↦ []
      | some fresh ↦
          if agrees fresh.members proposal.members && agrees proposal.members fresh.members
          then keys fresh.members
          else []
    ])
  authorize_job proposal j table now true =
      let left = survivors_of proposal.members table in
      do
        checked ← check_survivors proposal.members (keys left) table left
        ok (if checked && is_whole j (keys left) table then keys left else [])

  -- `authorize(proposal, jobs, table, now, escalating)`
  unfoldable pub authorize : Proposal → List Job → Table → ℕ → Bool → Try (List ℕ)
  authorize proposal jobs table now escalating =
      if is_recent proposal.at now
      then (elim (find_job proposal.job_id jobs) [
        | none ↦ ok []
        | some j ↦
            if same_job j proposal then authorize_job proposal j table now escalating else ok []
      ])
      else ok []
