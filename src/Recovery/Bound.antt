-- ===== src/Recovery/Bound.antt =====
-- What `bound` of libexec/orphan_recovery.py establishes of a group.
use memcap.Prelude.{
  ℕ, ◌≤◌, true, false, ◌≡◌, ◌≢◌, ◌⊎◌, inl, inr, some, [], ◌∷◌, arith, All, elem, keep, Bool-cases,
  Option-cases, lookup, keys, nat_eq, eq_iff, length,
}
use memcap.Registry.{Job, is_running}
use memcap.Processes.{Row, Table, Try-cases, ok, subset, descendants, started_as}
use memcap.Processes.Tree.{Below, subset-elem, descendants-Below_iff}
use memcap.Recovery.{bound, group_rows, is_registered, check_group, none_escaped, agent_gone}

-- A member of a bound group: the user's process, in the job's group, unchanged since it was
-- registered, with every descendant in the group.
pub record IsMember (me : ℕ) (j : Job) (table group : Table) (e : ℕ × Row) : Type 0 where
  pub own : e.1.uid ≡ me
  pub grouped : e.1.group ≡ j.group
  pub registered : lookup e.0 j.members ≡ some e.1.start
  pub enclosed : (q : ℕ) → Below table e.0 q → elem q (keys group) ≡ true

registered_lem :
    (me : ℕ) (j : Job) (e : ℕ × Row)
    → is_registered me j e ≡ true
    → (e.1.uid ≡ me) × (lookup e.0 j.members ≡ some e.1.start)
unfolding is_registered
registered_lem me j (p, r) h = elim (Option-cases (lookup p j.members)) [
  | inl absent ↦ absurd (ground (arith, absent))
  | inr (s, found) ↦ (ground (arith, found), ground (arith, found, eq_iff s r.start))
]

group_rows-grouped : (j : Job) (table : Table) → All (λ e. e.1.group ≡ j.group) (group_rows j table)
unfolding group_rows keep
group_rows-grouped j [] = tt
group_rows-grouped j (e ∷ table) = ground (arith, group_rows-grouped j table)

check_group-IsMember :
    (me : ℕ) (j : Job) (table group part : Table)
    → check_group me j (keys group) table part ≡ ok true
    → All (λ e. e.1.group ≡ j.group) part
    → All (IsMember me j table group) part
unfolding check_group
check_group-IsMember me j table group [] h g = tt
check_group-IsMember me j table group (e ∷ part) h g = elim (Bool-cases (is_registered me j e)) [
  | inr other ↦ absurd (ground (arith, other))
  | inl mine ↦ elim (Try-cases (descendants e.0 table)) [
    | inr failed ↦ absurd (ground (arith, mine, failed))
    | inl (below, found) ↦ elim (Bool-cases (subset below (keys group))) [
      | inr outside ↦ absurd (ground (arith, mine, found, outside))
      | inl inside ↦ (
        record {
          own = (registered_lem me j e mine).0;
          grouped = g.0;
          registered = (registered_lem me j e mine).1;
          enclosed = λ q b.
              subset-elem q below (keys group) inside
                ((descendants-Below_iff table e.0 below found q).1 b);
        },
        check_group-IsMember me j table group part (ground (arith, mine, found, inside)) g.1,
      )
    ]
  ]
]

-- What `bound` establishes: the supervisor or the agent of a running job is gone, and its group is
-- whole, not empty, of 128 processes at most and closed under descendants.
pub record IsBound (me : ℕ) (j : Job) (table group : Table) : Type 0 where
  pub running : is_running j ≡ true
  pub orphaned :
      (started_as (lookup j.owner table) j.owner_start ≡ false) ⊎ (agent_gone j table ≡ true)
  pub whole : group ≡ group_rows j table
  pub inhabited : group ≢ []
  pub small : length group ≤ 128
  pub members : All (IsMember me j table group) group
  pub contained : none_escaped j (keys group) table ≡ true

module _ (me : ℕ) (j : Job) (table group : Table) where
  bound_checked :
      bound me j table ≡ ok (some group)
      → (group ≡ group_rows j table)
        × (check_group me j (keys (group_rows j table)) table (group_rows j table) ≡ ok true)
  unfolding bound
  bound_checked h =
      elim (Try-cases (check_group me j (keys (group_rows j table)) table (group_rows j table))) [
        | inr failed ↦ absurd (ground (arith, failed))
        | inl (true, c) ↦ (ground (arith, c), c)
        | inl (false, c) ↦ absurd (ground (arith, c))
      ]

  bound_facts :
      bound me j table ≡ ok (some group)
      → check_group me j (keys (group_rows j table)) table (group_rows j table) ≡ ok true
      → (is_running j ≡ true)
        × ((started_as (lookup j.owner table) j.owner_start ≡ false) ⊎ (agent_gone j table ≡ true))
        × (group_rows j table ≢ [])
        × (length (group_rows j table) ≤ 128)
        × (none_escaped j (keys (group_rows j table)) table ≡ true)
  unfolding bound
  bound_facts h c =
      (ground (arith, c), orphan, ground (arith, c), ground (arith, c), ground (arith, c))
    where
      orphan :
          (started_as (lookup j.owner table) j.owner_start ≡ false) ⊎ (agent_gone j table ≡ true)
      orphan = elim (Bool-cases (started_as (lookup j.owner table) j.owner_start)) [
        | inr gone ↦ inl gone
        | inl there ↦ inr (ground (arith, c, there))
      ]

  pub bound-IsBound : bound me j table ≡ ok (some group) → IsBound me j table group
  bound-IsBound h =
      let (whole, c) = bound_checked h in
      let (running, orphaned, inhabited, small, contained) = bound_facts h c in
      record {
        running = running;
        orphaned = orphaned;
        whole = whole;
        inhabited = rw whole inhabited;
        small = rw whole small;
        members = rw whole (
            check_group-IsMember me j table (group_rows j table) (group_rows j table) c
              (group_rows-grouped j table));
        contained = rw whole contained;
      }
