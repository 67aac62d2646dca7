-- ===== src/Ownership.antt =====
-- What libexec/scheduler.py lets a caller do by its ancestry: `wait_targets`, `Scheduler.nested` and
-- `Scheduler.authorize_cancel`.
pub mod Ancestry
pub mod Cancel
use memcap.Prelude.{
  ℕ, zero, suc, String, Bool, true, false, not, ◌&&◌, ◌||◌, Option, none, some, List, [], ◌∷◌,
  if◌then◌else◌, keep, any, ◌==◌, Dict, lookup, has, put, nat_eq, keys, str_eq,
}
use memcap.Registry.{Job, is_running}
use memcap.Processes.{Row, Table, started_as}
use memcap.Proposals.{find_job}

-- The loop of `wait_targets` up the ancestry, with the steps that are left.
unfoldable pub ancestry_from : ℕ → Dict ℕ String → ℕ → Table → Dict ℕ String
ancestry_from zero seen pid table = seen
ancestry_from (suc steps) seen pid table = elim (lookup pid table) [
  | none ↦ seen
  | some row ↦
      let next = ancestry_from steps (put pid row.start seen) row.ppid table in
      if has pid seen then seen else next
]

abbrev pub has_member : Job → ℕ → String → Bool
has_member j p start = elim (lookup p j.members) [ none ↦ false | some s ↦ str_eq s start ]

-- `wait_targets(jobs, caller, table)`
unfoldable pub wait_targets : List Job → ℕ → Table → List Job
unfolding ancestry_from
wait_targets jobs caller table =
    keep (λ j. not (any (λ e. has_member j e.0 e.1) (ancestry_from 128 [] caller table))) jobs

-- The loop of `nested` up the ancestry.
unfoldable pub climb : ℕ → Job → ℕ → Table → Bool
climb zero j pid table = false
climb (suc steps) j pid table = elim (lookup pid table) [
  | none ↦ false
  | some row ↦
      let next = climb steps j row.ppid table in if has_member j pid row.start then true else next
]

-- `next((j for j in data["jobs"] if j["id"] == token and j["status"] == "running"), None)`
unfoldable pub find_running : String → List Job → Option Job
find_running token [] = none
find_running token (j ∷ js) =
    if str_eq j.id token && is_running j then some j else find_running token js

-- `nested(data, table)` of the process `pid`; `token` is `MEMCAP_QUEUE_LEASE`, empty if it is unset.
unfoldable pub nested : String → List Job → ℕ → Table → Bool
nested token jobs pid table =
    if str_eq token ""
    then false
    else elim (find_running token jobs) [ none ↦ false | some j ↦ climb 128 j pid table ]

-- `pid is None or p == str(pid)`
abbrev pub is_asked : Option ℕ → ℕ → Bool
is_asked none p = true
is_asked (some q) p = p == q

-- A registered member that runs in the job's group as the user's process.
unfoldable pub is_target : ℕ → Option ℕ → Job → Table → ℕ × String → Bool
is_target me asked j table (p, start) = is_asked asked p && (elim (lookup p table) [
  | none ↦ false
  | some r ↦ str_eq r.start start && r.group == j.group && r.uid == me
])

-- `authorize_cancel(ident, caller, pid)` of the user `me`
unfoldable pub authorize_cancel : ℕ → String → ℕ → Option ℕ → Bool → List Job → Table → List ℕ
authorize_cancel me ident caller asked paused jobs table = elim (find_job ident jobs) [
  | none ↦ []
  | some j ↦
      if not j.cancel
        || not (j.owner == caller)
        || not (started_as (lookup caller table) j.owner_start)
      then []
      else if paused
      then []
      else keys (keep (is_target me asked j table) j.members)
]
