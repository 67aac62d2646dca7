-- ===== src/Recovery/Grace.antt =====
-- `observe`, `authorize` and `protected_claims` of libexec/orphan_recovery.py: an orphaned group is
-- proposed for cleanup after a grace, and the proposal is checked again before the signal.
pub mod Disposal
pub mod Watched
use memcap.Prelude.{
  ℕ, ◌-◌, max, String, Bool, true, false, not, ◌&&◌, ◌||◌, Option, none, some, List, [], ◌∷◌, ◌++◌,
  if◌then◌else◌, any, all, leb, ltb, ◌==◌, Dict, lookup, nat_eq, keys, str_eq,
}
use memcap.Registry.{Job, Lease}
use memcap.Processes.{Row, Table, Try, ok, raised, ◌>>=◌, subset, descendants}
use memcap.Proposals.{Member, members_of, matches_member, same_set, is_recent}
use memcap.Recovery.{
  grace, bound, recovered, is_current, same_members, same_commands, starts_of, commands_of,
}
use memcap.Recovery.Cleanup.{
  Blocker, clear, unverified_group, grace_period, eligible, Session, Network, Host, cleanup_reason,
  has_live_claim,
}

pub record Proposal : Type 0 where
  pub job_id : String
  pub owner : ℕ
  pub owner_start : String
  pub group : ℕ
  pub at : ℕ
  pub members : Dict ℕ Member

-- What `observe` leaves: the job with its lease, `job["cleanup_blocker"]`, and the result.
pub record Observed : Type 0 where
  pub job : Job
  pub blocker : Blocker
  pub proposal : Option Proposal

abbrev pub is_clear : Blocker → Bool
is_clear clear = true
is_clear other = false

-- The same processes were observed at most a lease ago.
unfoldable pub continuous : Option Lease → Table → ℕ → Bool
continuous old group now =
    same_members old (starts_of group)
    && same_commands old (commands_of group)
    && is_current old now

abbrev pub since_of : Option Lease → ℕ → ℕ
since_of none now = now
since_of (some l) now = l.since

abbrev pub clear_since_of : Option Lease → ℕ → ℕ
clear_since_of none now = now
clear_since_of (some l) now = l.clear_since

-- The lease of this observation; `reason` is the result of `cleanup_reason`.
unfoldable pub renew : Option Lease → Table → Blocker → ℕ → Lease
unfolding continuous
renew old group reason now =
    let goes_on = continuous old group now in
    record {
      at = now;
      since = if goes_on then since_of old now else now;
      clear_since = if is_clear reason && goes_on then clear_since_of old now else now;
      members = starts_of group;
      commands = commands_of group;
    }

-- `job["cleanup_blocker"]`
unfoldable pub blocker_of : Lease → Blocker → ℕ → Blocker
blocker_of lease reason now = elim reason [
  | clear ↦ if ltb (now - max lease.since lease.clear_since) grace then grace_period else eligible
  | other ↦ other
]

abbrev pub is_eligible : Blocker → Bool
is_eligible eligible = true
is_eligible other = false

abbrev propose : Job → Table → ℕ → Proposal
propose j group now = record {
  job_id = j.id;
  owner = j.owner;
  owner_start = j.owner_start;
  group = j.group;
  at = now;
  members = members_of group;
}

-- The end of `observe`, for a bound group with a reason.
unfoldable pub observe_group : Job → Table → Blocker → ℕ → Observed
unfolding renew blocker_of members_of
observe_group j group reason now =
    let lease = renew j.recovery group reason now in
    let blocker = blocker_of lease reason now in
    record {
      job = record j { recovery = some lease };
      blocker = blocker;
      proposal = if is_eligible blocker then some (propose j group now) else none;
    }

-- `job.get("owner") != proposal.get("owner")` and the same for the start and the group
abbrev pub same_job : Job → Proposal → Bool
same_job j proposal =
    j.owner == proposal.owner
    && str_eq j.owner_start proposal.owner_start
    && j.group == proposal.group

-- The grace has passed since the group was first seen and since it was last blocked.
unfoldable pub grace_passed : Option Lease → ℕ → Bool
grace_passed lease now = not (ltb (now - max (since_of lease now) (clear_since_of lease now)) grace)

-- The last checks of `authorize`: the members are the proposed ones, and the grace has passed.
unfoldable pub members_match : Proposal → Job → Table → ℕ → Bool → Bool
unfolding grace_passed matches_member
members_match proposal j group now escalating =
    subset (keys group) (keys proposal.members)
    && (escalating || same_set (keys group) (keys proposal.members))
    && all (matches_member proposal.members) group
    && grace_passed j.recovery now

module _ (h : Host) (me : ℕ) where
  -- `observe(job, table, net, sessions, now, jobs)`
  unfoldable pub observe :
      Job → Table → Network → Option (List Session) → ℕ → List Job → Try Observed
  observe j table net sessions now jobs = do
    group ← bound me j table
    (elim group [
      | none ↦ ok (record {
        job = record j { recovery = none };
        blocker = unverified_group;
        proposal = none;
      })
      | some g ↦ do
        reason ← cleanup_reason h me j table net sessions jobs
        ok (observe_group j g reason now)
    ])

  -- `authorize` once the job is found and is the one that was proposed.
  unfoldable pub authorize_job :
      Proposal → Job → Table → Network → Option (List Session) → ℕ → Bool → List Job → Try (List ℕ)
  authorize_job proposal j table net sessions now escalating jobs = do
    group ← bound me j table
    (elim group [
      | none ↦ ok []
      | some g ↦ do
        leased ← recovered me j table now
        (if leased || escalating && is_current j.recovery now
            then (do
              reason ← cleanup_reason h me j table net sessions jobs
              ok (
                  if is_clear reason && members_match proposal j g now escalating
                  then keys g
                  else []))
            else ok [])
    ])

  -- `authorize(proposal, job, table, net, sessions, now, escalating, paused, jobs)`; the keys of the
  -- group are in the order of the table.
  unfoldable pub authorize :
      Proposal
      → Option Job
      → Table
      → Network
      → Option (List Session)
      → ℕ
      → Bool
      → Bool
      → List Job
      → Try (List ℕ)
  authorize proposal found table net sessions now escalating paused jobs =
      if paused || not (is_recent proposal.at now) then ok [] else (elim found [
        | none ↦ ok []
        | some j ↦
            if same_job j proposal
            then authorize_job proposal j table net sessions now escalating jobs
            else ok []
      ])

-- The loop over the members of one protected job.
unfoldable pub protect_members : ℕ → Dict ℕ String → Table → Try (List ℕ)
protect_members me [] table = ok []
protect_members me ((p, start) ∷ rest) table =
    let later = protect_members me rest table in
    elim (lookup p table) [
      | none ↦ later
      | some r ↦
          if str_eq r.start start && r.uid == me
          then (do below ← descendants p table; more ← later; ok (below ++ more))
          else later
    ]

-- `protected_claims(jobs, table)`, whose result the model takes as a set.
unfoldable pub protected_claims : ℕ → List Job → Table → Try (List ℕ)
unfolding protect_members has_live_claim
protected_claims me [] table = ok []
protected_claims me (j ∷ jobs) table =
    let later = protected_claims me jobs table in
    if j.pinned || has_live_claim me j table
    then (do mine ← protect_members me j.members table; more ← later; ok (mine ++ more))
    else later
