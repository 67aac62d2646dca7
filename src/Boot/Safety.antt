-- ===== src/Boot/Safety.antt =====
-- What libexec/boot_timeout.py can authorize: which processes may be signalled.
use memcap.Prelude.{
  ℕ, ◌≤◌, Bool, true, false, ◌≡◌, ◌≢◌, inl, inr, Option, some, List, [], ◌∷◌, arith, All, all, elem,
  lookup, keys, nat_eq, eq_iff, Option-cases, length,
}
use memcap.Registry.{Job, is_running, is_resource}
use memcap.Processes.{Row, Table, Try-cases, ok}
use memcap.Processes.Tree.{Below}
use memcap.Proposals.{member, group_of, check_members, find_job, is_recent}
use memcap.Proposals.Checks.{IsChecked, check_members_sound, group_of-grouped}
use memcap.Boot.{
  Patterns, Proposal, supervised, bound, is_registered, same_job, still_planned, authorize_job,
  authorize, plan,
}

-- A member of the group that may be signalled: the user's process, unchanged since it was registered
-- and since it was proposed, with every descendant in the group.
pub record IsSafe (me : ℕ) (j : Job) (proposal : Proposal) (table group : Table) (e : ℕ × Row)
    : Type 0 where
  pub own : e.1.uid ≡ me
  pub grouped : e.1.group ≡ j.group
  pub registered : lookup e.0 j.members ≡ some e.1.start
  pub proposed : lookup e.0 proposal.members ≡ some (member e.1)
  pub enclosed : (q : ℕ) → Below table e.0 q → elem q (keys group) ≡ true

module _ (re : Patterns) (me : ℕ) where
  registered_lem :
      (j : Job) (e : ℕ × Row)
      → is_registered re me j e ≡ true
      → (e.1.uid ≡ me) × (lookup e.0 j.members ≡ some e.1.start)
  unfolding is_registered
  registered_lem j (p, r) h = elim (Option-cases (lookup p j.members)) [
    | inl absent ↦ absurd (ground (arith, absent))
    | inr (s, found) ↦ (ground (arith, found), ground (arith, found, eq_iff s r.start))
  ]

  all_registered :
      (j : Job) (group : Table)
      → all (is_registered re me j) group ≡ true
      → All (λ e. (e.1.uid ≡ me) × (lookup e.0 j.members ≡ some e.1.start)) group
  unfolding all
  all_registered j [] h = tt
  all_registered j (e ∷ group) h =
      (registered_lem j e (ground arith), all_registered j group (ground arith))

  -- What `bound` establishes of a job and of its group.
  pub record IsBound (j : Job) (table group : Table) : Type 0 where
    pub running : is_running j ≡ true
    pub finite : is_resource j.resource ≡ false
    pub supervisor : supervised re me j table ≡ true
    pub whole : group ≡ group_of j table
    pub small : length group ≤ 16
    pub registered : all (is_registered re me j) group ≡ true

  pub bound-IsBound :
      (j : Job) (table group : Table) → bound re me j table ≡ some group → IsBound j table group
  unfolding bound
  bound-IsBound j table group h = ground arith

  All-IsSafe :
      (j : Job) (proposal : Proposal) (table group part : Table)
      → All (λ e. (e.1.uid ≡ me) × (lookup e.0 j.members ≡ some e.1.start)) part
      → All (λ e. e.1.group ≡ j.group) part
      → All (IsChecked proposal.members (keys group) table) part
      → All (IsSafe me j proposal table group) part
  All-IsSafe j proposal table group [] r g c = tt
  All-IsSafe j proposal table group (e ∷ part) r g c = (
    record { own = r.0.0; grouped = g.0; registered = r.0.1; proposed = c.0.0; enclosed = c.0.1 },
    All-IsSafe j proposal table group part r.1 g.1 c.1,
  )

  -- What an authorization rests on.
  pub record IsAuthorized (proposal : Proposal) (jobs : List Job) (table : Table) (now : ℕ)
      (escalating : Bool) (pids : List ℕ) : Type 0 where
    pub job : Job
    pub group : Table
    pub found : find_job proposal.job_id jobs ≡ some job
    pub same : same_job job proposal ≡ true
    pub recent : is_recent proposal.at now ≡ true
    pub bound_group : IsBound job table group
    pub all_of_group : pids ≡ keys group
    pub safe : All (IsSafe me job proposal table group) group
    pub planned :
        escalating ≡ false
        → (fresh : Option Proposal) × (plan re me job table now ≡ ok fresh)
          × (still_planned fresh proposal ≡ true)

  module _ (proposal : Proposal) (jobs : List Job) (table : Table) (now : ℕ) where
    authorize_group :
        (j : Job) (group : Table) (escalating : Bool) (pids : List ℕ)
        → bound re me j table ≡ some group
        → authorize_job re me proposal j table now escalating ≡ ok pids
        → pids ≢ []
        → (pids ≡ keys group)
          × (same_job j proposal ≡ true)
          × (check_members proposal.members (keys group) table group ≡ ok true)
          × (escalating ≡ false
              → (fresh : Option Proposal) × (plan re me j table now ≡ ok fresh)
                × (still_planned fresh proposal ≡ true))
    unfolding authorize_job
    authorize_group j group true pids b h ne = ground arith
    authorize_group j group false pids b h ne = elim (Try-cases (plan re me j table now)) [
      | inl (fresh, planned) ↦ (
        ground (arith, planned),
        ground (arith, planned),
        ground (arith, planned),
        λ _. (fresh, planned, ground (arith, planned)),
      )
      | inr failed ↦ absurd (ground (arith, failed))
    ]

    authorize_bound :
        (j : Job) (escalating : Bool) (pids : List ℕ)
        → authorize_job re me proposal j table now escalating ≡ ok pids
        → pids ≢ []
        → (group : Table) × (bound re me j table ≡ some group)
    unfolding authorize_job
    authorize_bound j escalating pids h ne = ground arith

    authorize_found :
        (escalating : Bool) (pids : List ℕ)
        → authorize re me proposal jobs table now escalating ≡ ok pids
        → pids ≢ []
        → (j : Job) × (find_job proposal.job_id jobs ≡ some j)
          × (is_recent proposal.at now ≡ true)
          × (authorize_job re me proposal j table now escalating ≡ ok pids)
    unfolding authorize
    authorize_found escalating pids h ne = elim (Option-cases (find_job proposal.job_id jobs)) [
      | inl absent ↦ absurd (ground (arith, absent))
      | inr (j, found) ↦ (j, found, ground (arith, found), ground (arith, found))
    ]

    -- Whatever is authorized to be signalled is the whole group of a running finite job with the
    -- proposed identity, at most half a minute after the proposal. Every member is the user's
    -- process, unchanged since it was registered and since it was proposed, with every descendant
    -- in the group; and unless the signal escalates, a fresh plan equals the proposal.
    pub authorize-IsAuthorized :
        (escalating : Bool) (pids : List ℕ)
        → authorize re me proposal jobs table now escalating ≡ ok pids
        → pids ≢ []
        → IsAuthorized proposal jobs table now escalating pids
    authorize-IsAuthorized escalating pids h ne =
        let (j, found, recent, step) = authorize_found escalating pids h ne in
        let (group, b) = authorize_bound j escalating pids step ne in
        let (whole, same, checked, planned) = authorize_group j group escalating pids b step ne in
        let facts = bound-IsBound j table group b in
        record {
          job = j;
          group = group;
          found = found;
          same = same;
          recent = recent;
          bound_group = facts;
          all_of_group = whole;
          safe =
              All-IsSafe j proposal table group group (all_registered j group facts.registered)
                (rw facts.whole (group_of-grouped j table))
                (check_members_sound proposal.members (keys group) table group checked);
          planned = planned;
        }
