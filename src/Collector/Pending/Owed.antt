-- ===== src/Collector/Pending/Owed.antt =====
-- Which jobs libexec/idle_gc.py makes a session wait for.
use memcap.Prelude.{
  ℕ, String, Bool, true, false, ◌||◌, ◌≡◌, ◌⊎◌, inl, inr, none, some, List, [], ◌∷◌, arith, All,
  keep, Bool-cases, Option-cases, lookup, nat_eq, str_eq, eq_iff,
}
use memcap.Registry.{Job, is_resource}
use memcap.Processes.{Row, Table, owner}
use memcap.Collector.Pending.{is_pending, pending_jobs, running_resource, is_agent_of}

module _ (is_agent is_persistent : String → Bool) (me : ℕ) where
  -- A finite job of the session that is not cancelled: its supervisor runs as registered, as the
  -- user's process, and has the same agent; and it is no server in the foreground.
  pub record IsOwed (agent : ℕ) (session_key : String) (table : Table) (j : Job) : Type 0 where
    pub finite : is_resource j.resource ≡ false
    pub scoped : (session_key ≡ "") ⊎ (j.session_key ≡ session_key)
    pub wanted : j.cancel ≡ false
    pub supervisor : Row
    pub found : lookup j.owner table ≡ some supervisor
    pub own : supervisor.uid ≡ me
    pub registered : supervisor.start ≡ j.owner_start
    pub agent_same : owner is_agent j.owner table ≡ some agent
    pub ends : running_resource is_agent is_persistent me j table ≡ false

  scope_lem : (key k : String) → (str_eq key "" || str_eq k key) ≡ true → (key ≡ "") ⊎ (k ≡ key)
  scope_lem key k h = elim (Bool-cases (str_eq key "")) [
    | inl empty ↦ inl ((eq_iff key "").0 empty)
    | inr other ↦ inr ((eq_iff k key).0 (ground (arith, other)))
  ]

  agent_lem :
      (agent p : ℕ) (table : Table)
      → is_agent_of is_agent is_persistent me agent p table ≡ true
      → owner is_agent p table ≡ some agent
  agent_lem agent p table h = elim (Option-cases (owner is_agent p table)) [
    | inl absent ↦ absurd (ground (arith, absent))
    | inr (a, found) ↦ ground (arith, found)
  ]

  is_pending-IsOwed :
      (agent : ℕ) (session_key : String) (table : Table) (j : Job)
      → is_pending is_agent is_persistent me agent session_key table j ≡ true
      → IsOwed agent session_key table j
  unfolding is_pending
  is_pending-IsOwed agent session_key table j h = elim (Option-cases (lookup j.owner table)) [
    | inl absent ↦ absurd (ground (arith, absent))
    | inr (s, found) ↦ record {
      finite = ground (arith, found);
      scoped = scope_lem session_key j.session_key (ground (arith, found));
      wanted = ground (arith, found);
      supervisor = s;
      found = found;
      own = ground (arith, found);
      registered = (eq_iff s.start j.owner_start).0 (ground (arith, found));
      agent_same = agent_lem agent j.owner table (ground (arith, found));
      ends = ground (arith, found);
    }
  ]

  kept :
      (agent : ℕ) (session_key : String) (table : Table) (jobs : List Job)
      → All
          (IsOwed agent session_key table)
          (keep (is_pending is_agent is_persistent me agent session_key table) jobs)
  unfolding keep
  kept agent session_key table [] = tt
  kept agent session_key table (j ∷ jobs) =
      elim (Bool-cases (is_pending is_agent is_persistent me agent session_key table j)) [
        | inl hit ↦
            rw hit
              (is_pending-IsOwed agent session_key table j hit, kept agent session_key table jobs)
        | inr miss ↦ rw miss (kept agent session_key table jobs)
      ]

  -- A session waits only for jobs that are owed to it: if the caller has an agent, every pending job
  -- is finite, not cancelled, of the session where one is named, and has a running registered
  -- supervisor of the user below the same agent; without an agent nothing is pending.
  pub pending_jobs-IsOwed :
      (caller : ℕ) (session_key : String) (jobs : List Job) (table : Table)
      → ((agent : ℕ) × (owner is_agent caller table ≡ some agent)
          × All
              (IsOwed agent session_key table)
              (pending_jobs is_agent is_persistent me caller session_key jobs table))
        ⊎ (owner is_agent caller table ≡ none)
          × (pending_jobs is_agent is_persistent me caller session_key jobs table ≡ [])
  unfolding pending_jobs
  pending_jobs-IsOwed caller session_key jobs table =
      elim (Option-cases (owner is_agent caller table)) [
        | inl absent ↦ inr (absent, ground (arith, absent))
        | inr (agent, found) ↦
            let e : pending_jobs is_agent is_persistent me caller session_key jobs table
                ≡ keep (is_pending is_agent is_persistent me agent session_key table) jobs =
              ground (arith, found) in
            inl (agent, found, rw e (kept agent session_key table jobs))
      ]
