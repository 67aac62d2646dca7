-- ===== src/Recovery.antt =====
-- libexec/orphan_recovery.py: leases on orphaned jobs and the cleanup that they allow.
pub mod Bound
pub mod Cleanup
pub mod Grace
use memcap.Prelude.{
  ℕ, ◌-◌, max, String, Bool, true, false, not, ◌&&◌, ◌||◌, Option, none, some, List, [], ◌∷◌,
  if◌then◌else◌, keep, all, any, elem, leb, ltb, ◌==◌, length, Dict, lookup, has, nat_eq, keys,
  str_eq,
}
use memcap.Registry.{Job, Lease, is_running}
use memcap.Processes.{Row, Table, Try, ok, raised, ◌>>=◌, subset, descendants, owner, started_as}
use memcap.Proposals.{Member, members_of, matches_member, same_set, is_recent}
use memcap.Helpers.{Shell, helper}

abbrev pub grace : ℕ
grace = 120000

abbrev pub lease_time : ℕ
lease_time = 90000

-- `job.get("agent_owner")`, which is false for 0
abbrev pub agent_of : Job → Option ℕ
agent_of j = elim j.agent_owner [ none ↦ none | some p ↦ if p == 0 then none else some p ]

-- `job.get("agent_start")`, which is false for the empty text
abbrev pub agent_start_of : Job → Option String
agent_start_of j = elim j.agent_start [
  | none ↦ none
  | some s ↦ if str_eq s "" then none else some s
]

-- The agent that the job comes from is known and is not running any more.
unfoldable pub agent_gone : Job → Table → Bool
unfolding started_as
agent_gone j table = elim (agent_of j) [
  | none ↦ false
  | some p ↦ elim (agent_start_of j) [ none ↦ false | some s ↦ not (started_as (lookup p table) s) ]
]

-- `r.get("group") == job["group"]`, where the job has a group
unfoldable pub group_rows : Job → Table → Table
group_rows j table = keep (λ e. not (j.group == 0) && e.1.group == j.group) table

abbrev pub is_empty : Table → Bool
is_empty [] = true
is_empty (e ∷ t) = false

-- The row is the user's and has the start that the job registered for it.
unfoldable pub is_registered : ℕ → Job → ℕ × Row → Bool
is_registered me j (p, r) =
    r.uid == me && (elim (lookup p j.members) [ none ↦ false | some s ↦ str_eq s r.start ])

-- The loop over the group.
unfoldable pub check_group : ℕ → Job → List ℕ → Table → Table → Try Bool
unfolding is_registered
check_group me j inside table [] = ok true
check_group me j inside table (e ∷ rest) =
    let later = check_group me j inside table rest in
    if is_registered me j e
    then (do below ← descendants e.0 table; (if subset below inside then later else ok false))
    else ok false

-- `job.get("footprint_members", {})`
abbrev pub remembered : Job → Dict ℕ String
remembered j = elim j.footprint_members [ none ↦ [] | some d ↦ d ]

-- No remembered descendant that still runs stands outside the group.
unfoldable pub none_escaped : Job → List ℕ → Table → Bool
unfolding started_as
none_escaped j inside table =
    all (λ e. not (started_as (lookup e.0 table) e.1 && not (elem e.0 inside))) (remembered j)

-- `bound(job, table)`
unfoldable pub bound : ℕ → Job → Table → Try (Option Table)
unfolding agent_gone group_rows none_escaped
bound me j table =
    let group = group_rows j table in
    if not (is_running j)
    then ok none
    else if started_as (lookup j.owner table) j.owner_start && not (agent_gone j table)
    then ok none
    else if is_empty group || ltb 128 (length group)
    then ok none
    else do
      checked ← check_group me j (keys group) table group
      ok (if checked && none_escaped j (keys group) table then some group else none)

-- `{p: r["start"] for p, r in group.items()}` and the same for the commands
abbrev pub starts_of : Table → Dict ℕ String
starts_of [] = []
starts_of ((p, r) ∷ t) = (p, r.start) ∷ starts_of t

abbrev pub commands_of : Table → Dict ℕ String
commands_of [] = []
commands_of ((p, r) ∷ t) = (p, r.command) ∷ commands_of t

-- One direction of the equality of two dictionaries.
unfoldable pub covers : Dict ℕ String → Dict ℕ String → Bool
covers as' [] = true
covers as' ((p, s) ∷ bs) =
    (elim (lookup p as') [ none ↦ false | some t ↦ str_eq t s ]) && covers as' bs

unfoldable pub same_dict : Dict ℕ String → Dict ℕ String → Bool
unfolding covers
same_dict as' bs = covers as' bs && covers bs as'

-- `0 <= now - lease.get("at", -LEASE) <= LEASE`
abbrev pub is_current : Option Lease → ℕ → Bool
is_current none now = false
is_current (some l) now = leb l.at now && leb (now - l.at) lease_time

abbrev pub same_members : Option Lease → Dict ℕ String → Bool
same_members none starts = false
same_members (some l) starts = same_dict l.members starts

abbrev pub same_commands : Option Lease → Dict ℕ String → Bool
same_commands none commands = false
same_commands (some l) commands = same_dict l.commands commands

-- `recovered(job, table, now)`
unfoldable pub recovered : ℕ → Job → Table → ℕ → Try Bool
unfolding bound
recovered me j table now = do
  group ← bound me j table
  ok (elim group [
    | none ↦ false
    | some g ↦ is_current j.recovery now && same_members j.recovery (starts_of g)
  ])
