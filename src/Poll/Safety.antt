-- ===== src/Poll/Safety.antt =====
-- What `authorize` of libexec/poll_cleanup.py lets be cancelled.
use memcap.Prelude.{
  ℕ, Bool, true, false, ◌&&◌, ◌≡◌, ◌≢◌, inl, inr, none, some, List, [], ◌∷◌, arith, All, all, elem,
  Bool-cases, Option-cases, Dict, lookup, keys, nat_eq, eq_iff, ◌==◌,
}
use memcap.Registry.{Job, is_running}
use memcap.Processes.{Row, Table, Try, Try-cases, ok, subset, descendants}
use memcap.Processes.Tree.{Below, subset-elem, descendants-Below_iff}
use memcap.Proposals.{group_of, find_job, is_recent}
use memcap.Poll.{
  Texts, Member, Proposal, same_job, agrees, is_proposed, survivors_of, plan, check_survivors,
  is_whole, authorize_job, authorize,
}

abbrev pub member : Row → Member
member r = record { start = r.start; command = r.command; group = r.group }

-- A survivor: the user's process, as proposed, with every descendant among the survivors.
pub record IsSurvivor (me : ℕ) (ms : Dict ℕ Member) (inside : List ℕ) (table : Table) (e : ℕ × Row)
    : Type 0 where
  pub own : e.1.uid ≡ me
  pub proposed : lookup e.0 ms ≡ some (member e.1)
  pub enclosed : (q : ℕ) → Below table e.0 q → elem q inside ≡ true

is_proposed_lem :
    (ms : Dict ℕ Member) (e : ℕ × Row) → is_proposed ms e ≡ true → lookup e.0 ms ≡ some (member e.1)
unfolding is_proposed
is_proposed_lem ms (p, r) h = elim (Option-cases (lookup p ms)) [
  | inl absent ↦ absurd (ground (arith, absent))
  | inr (m, found) ↦ ground (arith, found, eq_iff r.start m.start, eq_iff r.command m.command)
]

module _ (x : Texts) (me : ℕ) where
  check_survivors-All :
      (ms : Dict ℕ Member) (inside : List ℕ) (table left : Table)
      → check_survivors x me ms inside table left ≡ ok true
      → All (IsSurvivor me ms inside table) left
  unfolding check_survivors
  check_survivors-All ms inside table [] h = tt
  check_survivors-All ms inside table (e ∷ left) h =
      elim (Bool-cases (e.1.uid == me && is_proposed ms e)) [
        | inr other ↦ absurd (ground (arith, other))
        | inl same ↦ elim (Try-cases (descendants e.0 table)) [
          | inr failed ↦ absurd (ground (arith, same, failed))
          | inl (below, found) ↦ elim (Bool-cases (subset below inside)) [
            | inr outside ↦ absurd (ground (arith, same, found, outside))
            | inl enclosed ↦ (
              record {
                own = ground (arith, same);
                proposed = is_proposed_lem ms e (ground (arith, same));
                enclosed = λ q b.
                    subset-elem q below inside enclosed
                      ((descendants-Below_iff table e.0 below found q).1 b);
              },
              check_survivors-All ms inside table left (ground (arith, same, found, enclosed)),
            )
          ]
        ]
      ]

  -- What a first signal rests on: a fresh plan with the members of the proposal.
  pub record IsReplanned (proposal : Proposal) (j : Job) (table : Table) (now : ℕ) (pids : List ℕ)
      : Type 0 where
    pub fresh : Proposal
    pub planned : plan x me j table now ≡ ok (some fresh)
    pub forth : agrees fresh.members proposal.members ≡ true
    pub back : agrees proposal.members fresh.members ≡ true
    pub all_members : pids ≡ keys fresh.members

  -- What a further signal rests on: the processes of the proposal that are left are unchanged, and
  -- no other process of a running group has appeared.
  pub record IsLeftover (proposal : Proposal) (j : Job) (table : Table) (pids : List ℕ)
      : Type 0 where
    pub all_members : pids ≡ keys (survivors_of proposal.members table)
    pub unchanged :
        All (IsSurvivor me proposal.members pids table) (survivors_of proposal.members table)
    pub whole : is_running j ≡ true → all (λ e. elem e.0 pids) (group_of j table) ≡ true

  module _ (proposal : Proposal) (jobs : List Job) (table : Table) (now : ℕ) where
    first_signal :
        (j : Job) (pids : List ℕ)
        → authorize_job x me proposal j table now false ≡ ok pids
        → pids ≢ []
        → IsReplanned proposal j table now pids
    unfolding authorize_job
    first_signal j pids h ne = elim (Try-cases (plan x me j table now)) [
      | inr failed ↦ absurd (ground (arith, failed))
      | inl (none, p) ↦ absurd (ground (arith, p))
      | inl (some fresh, p) ↦ record {
        fresh = fresh;
        planned = p;
        forth = ground (arith, p);
        back = ground (arith, p);
        all_members = ground (arith, p);
      }
    ]

    further_signal :
        (j : Job) (pids : List ℕ)
        → authorize_job x me proposal j table now true ≡ ok pids
        → pids ≢ []
        → IsLeftover proposal j table pids
    unfolding authorize_job is_whole
    further_signal j pids h ne = elim (Try-cases checks) [
      | inr failed ↦ absurd (ground (arith, failed))
      | inl (false, c) ↦ absurd (ground (arith, c))
      | inl (true, c) ↦
          let same : pids ≡ keys left = ground (arith, c) in
          record {
            all_members = same;
            unchanged = rw same (check_survivors-All proposal.members (keys left) table left c);
            whole = λ r. rw same (ground (arith, c, r));
          }
    ]
      where
        left : Table
        left = survivors_of proposal.members table

        checks : Try Bool
        checks = check_survivors x me proposal.members (keys left) table left

    authorize_found :
        (escalating : Bool) (pids : List ℕ)
        → authorize x me proposal jobs table now escalating ≡ ok pids
        → pids ≢ []
        → (j : Job) × (find_job proposal.job_id jobs ≡ some j)
          × (same_job j proposal ≡ true)
          × (is_recent proposal.at now ≡ true)
          × (authorize_job x me proposal j table now escalating ≡ ok pids)
    unfolding authorize
    authorize_found escalating pids h ne = elim (Option-cases (find_job proposal.job_id jobs)) [
      | inl absent ↦ absurd (ground (arith, absent))
      | inr (j, found) ↦
          (j, found, ground (arith, found), ground (arith, found), ground (arith, found))
    ]

    -- A cancellation is authorized only for a registered job with the proposed identity, at most
    -- half a minute after the proposal. The first signal goes to exactly the members of a fresh plan
    -- that equals the proposal; a further one goes to all proposed processes that are left, each the
    -- user's, unchanged and with every descendant among them, and only if a running job's group has
    -- no other process.
    pub authorize-IsReplanned :
        (escalating : Bool) (pids : List ℕ)
        → authorize x me proposal jobs table now escalating ≡ ok pids
        → pids ≢ []
        → (j : Job) × (find_job proposal.job_id jobs ≡ some j)
          × (same_job j proposal ≡ true)
          × (is_recent proposal.at now ≡ true)
          × (escalating ≡ false → IsReplanned proposal j table now pids)
          × (escalating ≡ true → IsLeftover proposal j table pids)
    authorize-IsReplanned escalating pids h ne =
        let (j, found, same, recent, step) = authorize_found escalating pids h ne in
        (
          j,
          found,
          same,
          recent,
          λ first. first_signal j pids (rw first at step) ne,
          λ later. further_signal j pids (rw later at step) ne,
        )
