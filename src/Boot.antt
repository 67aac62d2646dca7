-- ===== src/Boot.antt =====
-- libexec/boot_timeout.py: timeouts of registered standalone simulator boots.
pub mod Safety
use memcap.Prelude.{
  ℕ, ◌-◌, ◌≤◌, String, Bool, true, false, not, ◌&&◌, ◌||◌, Option, none, some, List, [], ◌∷◌,
  if◌then◌else◌, keep, all, any, elem, leb, ltb, ◌==◌, length, Dict, lookup, has, nat_eq, keys,
  str_eq,
}
use memcap.Registry.{Job, Status, is_running, is_resource}
use memcap.Proposals.{
  Member, group_of, member, members_of, same_set, matches_member, check_members, agrees, find_job,
  is_recent,
}
use memcap.Processes.{Row, Table, Try, ok, raised, ◌>>=◌, subset, descendants, owner, started_as}

-- The regular expressions of the module, and `AGENT` of libexec/idle_gc.py: `is_boot` is
-- `BOOT.fullmatch`, `is_shell` is `SHELL.match` and `is_helper` is `HELPER.fullmatch`.
pub record Patterns : Type 0 where
  pub is_agent : String → Bool
  pub is_boot : String → Bool
  pub is_shell : String → Bool
  pub is_helper : String → Bool

-- `LIMIT`, in seconds
abbrev pub limit : ℕ
limit = 180

pub record Proposal : Type 0 where
  pub job_id : String
  pub owner : ℕ
  pub owner_start : String
  pub group : ℕ
  pub boot : ℕ
  pub at : ℕ
  pub members : Dict ℕ Member

abbrev is_none_or_empty : Table → Bool
is_none_or_empty [] = true
is_none_or_empty (e ∷ t) = false

-- The leader is in the group and its parent is the supervisor.
unfoldable pub led_by_owner : Job → Table → Bool
led_by_owner j group = elim (lookup j.group group) [ none ↦ false | some r ↦ r.ppid == j.owner ]

abbrev propose : Job → Table → ℕ → ℕ → Proposal
propose j group boot now = record {
  job_id = j.id;
  owner = j.owner;
  owner_start = j.owner_start;
  group = j.group;
  boot = boot;
  at = now;
  members = members_of group;
}

-- The last check: unless the signal escalates, a fresh plan equals the proposal.
unfoldable pub still_planned : Option Proposal → Proposal → Bool
unfolding agrees
still_planned none proposal = false
still_planned (some fresh) proposal =
    agrees fresh.members proposal.members
    && agrees proposal.members fresh.members
    && fresh.boot == proposal.boot

-- The job is the one that was proposed.
abbrev pub same_job : Job → Proposal → Bool
same_job j proposal =
    j.owner == proposal.owner
    && str_eq j.owner_start proposal.owner_start
    && j.group == proposal.group

module _ (re : Patterns) (me : ℕ) where
  -- The supervisor runs, is the user's and is the registered process; an agent of the user owns it.
  unfoldable pub supervised : Job → Table → Bool
  supervised j table = elim (lookup j.owner table) [
    | none ↦ false
    | some s ↦
        s.uid == me && str_eq s.start j.owner_start && (elim (owner re.is_agent j.owner table) [
          | none ↦ false
          | some agent ↦ elim (lookup agent table) [ none ↦ false | some a ↦ a.uid == me ]
        ])
  ]

  -- `r["uid"] == os.getuid() and job["members"].get(p) == r["start"]`
  unfoldable pub is_registered : Job → ℕ × Row → Bool
  is_registered j (p, r) =
      r.uid == me && (elim (lookup p j.members) [ none ↦ false | some s ↦ str_eq s r.start ])

  -- `bound(job, table)`
  unfoldable pub bound : Job → Table → Option Table
  unfolding supervised group_of is_registered
  bound j table =
      let group = group_of j table in
      if not (is_running j) || is_resource j.resource || not (supervised j table)
      then none
      else if is_none_or_empty group || ltb 16 (length group)
      then none
      else if all (is_registered j) group
      then some group
      else none

  -- `[p for p, r in group.items() if BOOT.fullmatch(r["command"]) and r["age"] >= LIMIT]`
  unfoldable pub boots_of : Table → List ℕ
  boots_of group = keys (keep (λ e. re.is_boot e.1.command && leb limit e.1.age) group)

  -- Every other member is a shell or a helper.
  unfoldable pub only_helpers : ℕ → Table → Bool
  only_helpers boot group =
      all (λ e. e.0 == boot || re.is_shell e.1.command || re.is_helper e.1.command) group

  -- `plan` once the group and its descendants are known
  unfoldable pub plan_group : Job → ℕ → Table → List ℕ → Option Proposal
  unfolding boots_of only_helpers members_of
  plan_group j now group below =
      if same_set below (keys group)
      then (elim (boots_of group) [
        | [] ↦ none
        | boot ∷ more ↦ elim more [
          | [] ↦ if only_helpers boot group then some (propose j group boot now) else none
          | other ∷ rest ↦ none
        ]
      ])
      else none

  -- `plan(job, table, now)`; `descendants` may raise.
  unfoldable pub plan : Job → Table → ℕ → Try (Option Proposal)
  unfolding bound led_by_owner plan_group
  plan j table now = elim (bound j table) [
    | none ↦ ok none
    | some group ↦
        if led_by_owner j group
        then (do below ← descendants j.group table; ok (plan_group j now group below))
        else ok none
  ]

  -- `authorize` for a job that is found.
  unfoldable pub authorize_job : Proposal → Job → Table → ℕ → Bool → Try (List ℕ)
  authorize_job proposal j table now escalating =
      if same_job j proposal
      then (elim (bound j table) [
        | none ↦ ok []
        | some group ↦
            if subset (keys group) (keys proposal.members)
            then (do
              checked ← check_members proposal.members (keys group) table group
              (if checked
                  then (if escalating then ok (keys group) else (do
                    fresh ← plan j table now
                    ok (if still_planned fresh proposal then keys group else [])))
                  else ok []))
            else ok []
      ])
      else ok []

  -- `authorize(proposal, jobs, table, now, escalating)`
  unfoldable pub authorize : Proposal → List Job → Table → ℕ → Bool → Try (List ℕ)
  authorize proposal jobs table now escalating =
      if is_recent proposal.at now
      then (elim (find_job proposal.job_id jobs) [
        | none ↦ ok []
        | some j ↦ authorize_job proposal j table now escalating
      ])
      else ok []
