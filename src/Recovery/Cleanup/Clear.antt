-- ===== src/Recovery/Cleanup/Clear.antt =====
-- What it means that `cleanup_reason` of libexec/orphan_recovery.py finds no reason.
use memcap.Prelude.{
  ℕ, String, true, false, ◌≡◌, ◌≢◌, inl, inr, refl, Option, none, some, List, [], ◌∷◌, arith, All,
  any, elem, Bool-cases, Option-cases, lookup, nat_eq, str_eq,
}
use memcap.Registry.{Job}
use memcap.Processes.{Row, Table, Try-cases, ok, owner, started_as}
use memcap.Helpers.{helper}
use memcap.Recovery.{bound, agent_of, agent_start_of}
use memcap.Recovery.Cleanup.{
  clear, eligible, Session, Network, Host, starts_as, row_of, is_shared, has_live_claim,
  session_blocker, has_unknown_agent, has_unknown_work, network_blocker, lifecycle_blocker,
  origin_blocker, group_blocker, cleanup_reason,
}

module _ (h : Host) (me : ℕ) where
  -- A session that runs works on another project than the job.
  abbrev pub IsElsewhere : Job → Table → Session → Type 0
  IsElsewhere j table s =
      starts_as (row_of s.owner table) s.start ≡ true
      → (str_eq s.cwd "" ≡ false) × (h.related s.cwd j.cwd ≡ false)

  -- A member is a helper that no agent owns.
  abbrev pub IsIdleHelper : Table → ℕ × Row → Type 0
  IsIdleHelper table e = (owner h.is_agent e.0 table ≡ none) × (helper h.shell e.1.command ≡ true)

  session_blocker-clear :
      (j : Job) (table : Table) (ss : List Session)
      → session_blocker h me j table ss ≡ clear
      → All (IsElsewhere j table) ss
  unfolding session_blocker
  session_blocker-clear j table [] e = tt
  session_blocker-clear j table (s ∷ ss) e =
      elim (Bool-cases (starts_as (row_of s.owner table) s.start)) [
        | inl live ↦
            (λ _. ground (arith, live), session_blocker-clear j table ss (ground (arith, live)))
        | inr gone ↦ (
          λ live. absurd (ground (arith, live, gone)),
          session_blocker-clear j table ss (ground (arith, gone)),
        )
      ]

  unknown_work-none :
      (table group : Table)
      → has_unknown_work h me table group ≡ false
      → All (IsIdleHelper table) group
  unfolding has_unknown_work any
  unknown_work-none table [] e = tt
  unknown_work-none table (x ∷ group) e = elim (Option-cases (owner h.is_agent x.0 table)) [
    | inl free ↦
        ((free, ground (arith, free)), unknown_work-none table group (ground (arith, free)))
    | inr (a, owned) ↦ absurd (ground (arith, owned))
  ]

  pub untouched :
      (pids : List ℕ) (group : Table)
      → any (λ e. elem e.0 pids) group ≡ false
      → All (λ e. elem e.0 pids ≡ false) group
  unfolding any
  untouched pids [] e = tt
  untouched pids (x ∷ group) e = (ground arith, untouched pids group (ground arith))

  -- Nothing keeps the group: the agent it came from is gone, nobody claims, pins or shares it,
  -- every running session is elsewhere, every member is a helper that no agent owns and that no
  -- client is connected to, and the group listens.
  pub record IsClear (j : Job) (table group : Table) (net : Network)
      (sessions : Option (List Session)) (jobs : List Job) : Type 0 where
    pub origin : ℕ
    pub origin_start : String
    pub origin_known : (agent_of j ≡ some origin) × (agent_start_of j ≡ some origin_start)
    pub origin_gone : started_as (lookup origin table) origin_start ≡ false
    pub unshared : is_shared j jobs group ≡ false
    pub unpinned : j.pinned ≡ false
    pub unclaimed : has_live_claim me j table ≡ false
    pub collected : List Session
    pub known_sessions : sessions ≡ some collected
    pub elsewhere : All (IsElsewhere j table) collected
    pub known_agents : has_unknown_agent h me table collected ≡ false
    pub idle : All (IsIdleHelper table) group
    pub known_network : net.known ≡ true
    pub unconnected : All (λ e. elem e.0 net.connected ≡ false) group
    pub listening : any (λ e. elem e.0 net.listeners) group ≡ true

  module _ (j : Job) (table group : Table) (net : Network) (jobs : List Job) where
    origin_lem :
        origin_blocker h me j table ≡ clear
        → (p : ℕ) × (s : String) × (agent_of j ≡ some p)
          × (agent_start_of j ≡ some s)
          × (started_as (lookup p table) s ≡ false)
    unfolding origin_blocker
    origin_lem e = elim (Option-cases (agent_of j)) [
      | inl unknown ↦ absurd (ground (arith, unknown))
      | inr (p, known) ↦ elim (Option-cases (agent_start_of j)) [
        | inl unknown ↦ absurd (ground (arith, known, unknown))
        | inr (s, start) ↦ (p, s, known, start, ground (arith, known, start))
      ]
    ]

    network_lem :
        network_blocker h me net group ≡ clear
        → (net.known ≡ true)
          × (any (λ e. elem e.0 net.connected) group ≡ false)
          × (any (λ e. elem e.0 net.listeners) group ≡ true)
    unfolding network_blocker
    network_lem e = ground arith

    lifecycle_lem :
        (ss : List Session)
        → lifecycle_blocker h me j table group net (some ss) ≡ clear
        → (session_blocker h me j table ss ≡ clear)
          × (has_unknown_agent h me table ss ≡ false)
          × (has_unknown_work h me table group ≡ false)
          × (network_blocker h me net group ≡ clear)
    unfolding lifecycle_blocker
    lifecycle_lem ss e = ground arith

    group_lem :
        (sessions : Option (List Session))
        → group_blocker h me j table group net sessions jobs ≡ clear
        → (origin_blocker h me j table ≡ clear)
          × (is_shared j jobs group ≡ false)
          × (j.pinned ≡ false)
          × (has_live_claim me j table ≡ false)
          × (lifecycle_blocker h me j table group net sessions ≡ clear)
    unfolding group_blocker
    group_lem sessions e = ground arith

    pub group_blocker-IsClear :
        (sessions : Option (List Session))
        → group_blocker h me j table group net sessions jobs ≡ clear
        → IsClear j table group net sessions jobs
    unfolding lifecycle_blocker
    group_blocker-IsClear none e =
        let (o, a, b, c, l) = group_lem none e in absurd (ground (arith, l))
    group_blocker-IsClear (some ss) e =
        let (o, unshared, unpinned, unclaimed, l) = group_lem (some ss) e in
        let (p, s, known, start, gone) = origin_lem o in
        let (free, agents, work, network) = lifecycle_lem ss l in
        let (net_known, clients, listening) = network_lem network in
        record {
          origin = p;
          origin_start = s;
          origin_known = (known, start);
          origin_gone = gone;
          unshared = unshared;
          unpinned = unpinned;
          unclaimed = unclaimed;
          collected = ss;
          known_sessions = refl;
          elsewhere = session_blocker-clear j table ss free;
          known_agents = agents;
          idle = unknown_work-none table group work;
          known_network = net_known;
          unconnected = untouched net.connected group clients;
          listening = listening;
        }

    -- If `cleanup_reason` finds no reason, then `IsClear` holds of the group that `bound` binds.
    pub cleanup_reason-IsClear :
        (sessions : Option (List Session))
        → cleanup_reason h me j table net sessions jobs ≡ ok clear
        → bound me j table ≡ ok (some group)
        → IsClear j table group net sessions jobs
    unfolding cleanup_reason
    cleanup_reason-IsClear sessions e b = group_blocker-IsClear sessions (ground (arith, b))

  session_blocker-eligible :
      (j : Job) (table : Table) (ss : List Session) → session_blocker h me j table ss ≢ eligible
  unfolding session_blocker
  session_blocker-eligible j table [] e = ground arith
  session_blocker-eligible j table (s ∷ ss) e = ground (arith, session_blocker-eligible j table ss)

  network_blocker-eligible :
      (net : Network) (group : Table) → network_blocker h me net group ≢ eligible
  unfolding network_blocker
  network_blocker-eligible net group e = ground arith

  origin_blocker-eligible : (j : Job) (table : Table) → origin_blocker h me j table ≢ eligible
  unfolding origin_blocker
  origin_blocker-eligible j table e = ground arith

  lifecycle_blocker-eligible :
      (j : Job) (table group : Table) (net : Network) (sessions : Option (List Session))
      → lifecycle_blocker h me j table group net sessions ≢ eligible
  unfolding lifecycle_blocker
  lifecycle_blocker-eligible j table group net none e = ground arith
  lifecycle_blocker-eligible j table group net (some ss) e =
      ground (arith, session_blocker-eligible j table ss, network_blocker-eligible net group)

  -- `cleanup_reason` leaves the verdict of `observe` to `observe`.
  pub cleanup_reason-eligible :
      (j : Job) (table : Table) (net : Network) (sessions : Option (List Session)) (jobs : List Job)
      → cleanup_reason h me j table net sessions jobs ≢ ok eligible
  unfolding cleanup_reason group_blocker
  cleanup_reason-eligible j table net sessions jobs e = elim (Try-cases (bound me j table)) [
    | inr failed ↦ ground (arith, failed)
    | inl (none, b) ↦ ground (arith, b)
    | inl (some g, b) ↦ ground (
      arith,
      b,
      origin_blocker-eligible j table,
      lifecycle_blocker-eligible j table g net sessions,
    )
  ]
