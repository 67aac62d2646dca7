-- ===== src/Collector/Pending.antt =====
-- `Collector.running_resource` and `Collector.pending_jobs` of libexec/idle_gc.py: the jobs that a
-- session has to wait for before it may stop.
pub mod Owed
use memcap.Prelude.{
  ℕ, zero, suc, String, Bool, true, false, not, ◌&&◌, ◌||◌, none, some, List, [], ◌∷◌,
  if◌then◌else◌, keep, elem, ◌==◌, lookup, nat_eq, str_eq,
}
use memcap.Registry.{Job, is_running, is_resource}
use memcap.Processes.{Table, owner}

-- The climb from the group's leader to the supervisor, with the steps that are left.
unfoldable pub reaches_owner : ℕ → List ℕ → ℕ → ℕ → Table → Bool
reaches_owner zero seen pid supervisor table = false
reaches_owner (suc steps) seen pid supervisor table =
    if pid == supervisor then true else elim (lookup pid table) [
      | none ↦ false
      | some parent ↦
          let next = reaches_owner steps (pid ∷ seen) parent.ppid supervisor table in
          if elem pid seen then false else next
    ]

module _ (is_agent is_persistent : String → Bool) (me : ℕ) where
  -- `running_resource(job, table)`; `is_persistent` is `persistent_shell` of
  -- libexec/scheduler_policy.py on a command.
  unfoldable pub running_resource : Job → Table → Bool
  unfolding reaches_owner
  running_resource j table =
      if not (is_running j) || j.group == 0 then false else elim (lookup j.group table) [
        | none ↦ false
        | some row ↦
            row.uid == me
            && not (str_eq row.start "")
            && (elim (lookup j.group j.members) [ none ↦ false | some s ↦ str_eq s row.start ])
            && reaches_owner 128 [] j.group j.owner table
            && is_persistent row.command
      ]

  abbrev pub is_agent_of : ℕ → ℕ → Table → Bool
  is_agent_of agent p table = elim (owner is_agent p table) [ none ↦ false | some a ↦ a == agent ]

  -- The test of one job. Every registered job is waiting or running.
  unfoldable pub is_pending : ℕ → String → Table → Job → Bool
  unfolding running_resource
  is_pending agent session_key table j =
      not (is_resource j.resource)
      && (str_eq session_key "" || str_eq j.session_key session_key)
      && not j.cancel
      && (elim (lookup j.owner table) [
        | none ↦ false
        | some s ↦ s.uid == me && str_eq s.start j.owner_start
      ])
      && is_agent_of agent j.owner table
      && not (running_resource j table)

  -- `pending_jobs(caller, table, session_key=...)`
  unfoldable pub pending_jobs : ℕ → String → List Job → Table → List Job
  unfolding is_pending
  pending_jobs caller session_key jobs table = elim (owner is_agent caller table) [
    | none ↦ []
    | some agent ↦ keep (is_pending agent session_key table) jobs
  ]
