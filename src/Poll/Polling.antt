-- ===== src/Poll/Polling.antt =====
-- What `plan` of libexec/poll_cleanup.py proposes.
use memcap.Prelude.{
  ℕ, ◌≤◌, String, true, false, ◌≡◌, ◌⊎◌, inl, inr, refl, some, List, [], ◌∷◌, arith, All, all, elem,
  Bool-cases, Option-cases, length, lookup, keys, nat_eq, eq_iff,
}
use memcap.Registry.{Job, Status, waiting, running, is_resource}
use memcap.Processes.{Row, Table, Try-cases, ok, subset, descendants, started_as}
use memcap.Processes.Tree.{Below, subset-elem, descendants-Below_iff}
use memcap.Proposals.{group_of}
use memcap.Poll.{
  Texts, Proposal, propose, is_none, supervisor_poll, polls_waiting, plan_waiting, polls_running,
  sleeps, plan_running, plan,
}

status_cases : (s : Status) → (s ≡ waiting) ⊎ (s ≡ running)
status_cases waiting = inl refl
status_cases running = inr refl

module _ (x : Texts) (me : ℕ) (j : Job) (table : Table) (now : ℕ) where
  -- A waiting supervisor of the user, a minute old, that runs a polling loop and nothing below it.
  pub record IsIdleWaiter (p : Proposal) : Type 0 where
    pub supervisor : Row
    pub found : lookup j.owner table ≡ some supervisor
    pub registered : supervisor.start ≡ j.owner_start
    pub own : supervisor.uid ≡ me
    pub old : 60 ≤ supervisor.age
    pub jobless : (j.group ≡ 0) × (j.members ≡ [])
    pub polls : supervisor_poll x me supervisor.command ≡ true
    pub alone : (q : ℕ) → Below table j.owner q → elem q (j.owner ∷ []) ≡ true
    pub proposes : p ≡ propose j ((j.owner, supervisor) ∷ []) now

  -- An adopted group of at most eight processes, five minutes old: a polling loop whose supervisor
  -- is gone, and the sleeps of the user that it starts.
  pub record IsIdleGroup (p : Proposal) : Type 0 where
    pub leader : Row
    pub found : lookup j.group table ≡ some leader
    pub registered : lookup j.group j.members ≡ some leader.start
    pub adopted : leader.ppid ≡ 1
    pub old : 300 ≤ leader.age
    pub unsupervised : started_as (lookup j.owner table) j.owner_start ≡ false
    pub script : String
    pub polls : (x.loop_of leader.command ≡ some script) × (x.is_polling script ≡ true)
    pub small : length (group_of j table) ≤ 8
    pub closed :
        (q : ℕ)
        → (Below table j.group q → elem q (keys (group_of j table)) ≡ true)
          × (elem q (keys (group_of j table)) ≡ true → Below table j.group q)
    pub asleep : All (λ e. sleeps x me j e ≡ true) (group_of j table)
    pub proposes : p ≡ propose j (group_of j table) now

  all-sleeps : (g : Table) → all (sleeps x me j) g ≡ true → All (λ e. sleeps x me j e ≡ true) g
  unfolding all
  all-sleeps [] h = tt
  all-sleeps (e ∷ g) h = (ground arith, all-sleeps g (ground arith))

  empty_of : (xs : List (ℕ × String)) → is_none xs ≡ true → xs ≡ []
  empty_of [] h = refl
  empty_of (y ∷ ys) h = absurd (ground arith)

  waiter_lem :
      (s : Row)
      → polls_waiting x me j table s ≡ true
      → (s.start ≡ j.owner_start)
        × (s.uid ≡ me)
        × (60 ≤ s.age)
        × (j.group ≡ 0)
        × (j.members ≡ [])
        × (supervisor_poll x me s.command ≡ true)
  unfolding polls_waiting
  waiter_lem s h = (
    (eq_iff s.start j.owner_start).0 (ground arith),
    ground arith,
    ground arith,
    ground arith,
    empty_of j.members (ground arith),
    ground arith,
  )

  plan_waiting-IsIdleWaiter :
      (p : Proposal) → plan_waiting x me j table now ≡ ok (some p) → IsIdleWaiter p
  unfolding plan_waiting
  plan_waiting-IsIdleWaiter p h = elim (Option-cases (lookup j.owner table)) [
    | inl absent ↦ absurd (ground (arith, absent))
    | inr (s, found) ↦ elim (Bool-cases (polls_waiting x me j table s)) [
      | inr other ↦ absurd (ground (arith, found, other))
      | inl polling ↦ elim (Try-cases (descendants j.owner table)) [
        | inr failed ↦ absurd (ground (arith, found, polling, failed))
        | inl (below, b) ↦
            let (start, own, old, group, members, polls) = waiter_lem s polling in
            record {
              supervisor = s;
              found = found;
              registered = start;
              own = own;
              old = old;
              jobless = (group, members);
              polls = polls;
              alone = λ q w.
                  subset-elem q below (j.owner ∷ []) (ground (arith, found, polling, b))
                    ((descendants-Below_iff table j.owner below b q).1 w);
              proposes = ground (arith, found, polling, b);
            }
      ]
    ]
  ]

  group_lem :
      (leader : Row)
      → polls_running x me j table leader ≡ true
      → (lookup j.group j.members ≡ some leader.start)
        × (leader.ppid ≡ 1)
        × (300 ≤ leader.age)
        × (started_as (lookup j.owner table) j.owner_start ≡ false)
        × (script : String) × (x.loop_of leader.command ≡ some script)
        × (x.is_polling script ≡ true)
  unfolding polls_running
  group_lem leader h = elim (Option-cases (lookup j.group j.members)) [
    | inl absent ↦ absurd (ground (arith, absent))
    | inr (s, found) ↦ elim (Option-cases (x.loop_of leader.command)) [
      | inl other ↦ absurd (ground (arith, found, other))
      | inr (script, loop) ↦ (
        ground (arith, found, loop, eq_iff s leader.start),
        ground (arith, found, loop),
        ground (arith, found, loop),
        ground (arith, found, loop),
        script,
        loop,
        ground (arith, found, loop),
      )
    ]
  ]

  group_of_plan :
      (p : Proposal) (leader : Row) (below : List ℕ)
      → lookup j.group table ≡ some leader
      → polls_running x me j table leader ≡ true
      → descendants j.group table ≡ ok below
      → plan_running x me j table now ≡ ok (some p)
      → (length (group_of j table) ≤ 8)
        × (subset below (keys (group_of j table)) ≡ true)
        × (subset (keys (group_of j table)) below ≡ true)
        × (all (sleeps x me j) (group_of j table) ≡ true)
        × (p ≡ propose j (group_of j table) now)
  unfolding plan_running
  group_of_plan p leader below f g b h = ground (arith, f, g, b)

  reach :
      (p : Proposal)
      → plan_running x me j table now ≡ ok (some p)
      → (leader : Row) × (below : List ℕ) × (lookup j.group table ≡ some leader)
        × (polls_running x me j table leader ≡ true)
        × (descendants j.group table ≡ ok below)
  unfolding plan_running
  reach p h = elim (Option-cases (lookup j.group table)) [
    | inl absent ↦ absurd (ground (arith, absent))
    | inr (leader, found) ↦ elim (Bool-cases (polls_running x me j table leader)) [
      | inr other ↦ absurd (ground (arith, found, other))
      | inl polling ↦ elim (Try-cases (descendants j.group table)) [
        | inr failed ↦ absurd (ground (arith, found, polling, failed))
        | inl (below, b) ↦ (leader, below, found, polling, b)
      ]
    ]
  ]

  plan_running-IsIdleGroup :
      (p : Proposal) → plan_running x me j table now ≡ ok (some p) → IsIdleGroup p
  plan_running-IsIdleGroup p h =
      let (leader, below, found, polling, b) = reach p h in
      let (small, inside, whole, asleep, proposes) =
        group_of_plan p leader below found polling b h in
      let (registered, adopted, old, gone, script, loop, polls) = group_lem leader polling in
      let exact = descendants-Below_iff table j.group below b in
      record {
        leader = leader;
        found = found;
        registered = registered;
        adopted = adopted;
        old = old;
        unsupervised = gone;
        script = script;
        polls = (loop, polls);
        small = small;
        closed = λ q. (
          λ w. subset-elem q below (keys (group_of j table)) inside ((exact q).1 w),
          λ e. (exact q).0 (subset-elem q (keys (group_of j table)) below whole e),
        );
        asleep = all-sleeps (group_of j table) asleep;
        proposes = proposes;
      }

  -- A proposal of `plan` is of a finite job: either its waiting supervisor, which polls with nothing
  -- below it, or its running group, which is the adopted polling loop and its sleeps and is exactly
  -- what stands below the leader.
  pub plan-IsIdle :
      (p : Proposal)
      → plan x me j table now ≡ ok (some p)
      → (is_resource j.resource ≡ false)
        × ((j.status ≡ waiting) × IsIdleWaiter p ⊎ (j.status ≡ running) × IsIdleGroup p)
  unfolding plan
  plan-IsIdle p h = elim (Bool-cases (is_resource j.resource)) [
    | inl resource ↦ absurd (ground (arith, resource))
    | inr finite ↦ elim (status_cases j.status) [
      | inl w ↦ (finite, inl (w, plan_waiting-IsIdleWaiter p (ground (arith, finite, w))))
      | inr r ↦ (finite, inr (r, plan_running-IsIdleGroup p (ground (arith, finite, r))))
    ]
  ]
