-- ===== src/Proposals/Checks.antt =====
-- What the checks of a proposal establish of the processes.
use memcap.Prelude.{
  ℕ, String, true, ◌≡◌, inl, inr, some, List, [], ◌∷◌, arith, All, keep, elem, Dict, lookup, nat_eq,
  str_eq, eq_iff, Bool-cases, Option-cases,
}
use memcap.Registry.{Job}
use memcap.Processes.{Row, Table, Try-cases, ok, subset, descendants}
use memcap.Processes.Tree.{Below, subset-elem, descendants-Below_iff}
use memcap.Proposals.{Member, member, matches_member, check_members, group_of, find_job}

pub matches_lem :
    (ms : Dict ℕ Member) (e : ℕ × Row)
    → matches_member ms e ≡ true
    → lookup e.0 ms ≡ some (member e.1)
unfolding matches_member
matches_lem ms (p, r) h = elim (Option-cases (lookup p ms)) [
  | inl absent ↦ absurd (ground (arith, absent))
  | inr (m, found) ↦ ground (arith, found, eq_iff r.start m.start, eq_iff r.command m.command)
]

-- What the loop over the group establishes of each member.
abbrev pub IsChecked : Dict ℕ Member → List ℕ → Table → ℕ × Row → Type 0
IsChecked ms inside table e =
    (lookup e.0 ms ≡ some (member e.1)) × ((q : ℕ) → Below table e.0 q → elem q inside ≡ true)

pub check_members_sound :
    (ms : Dict ℕ Member) (inside : List ℕ) (table group : Table)
    → check_members ms inside table group ≡ ok true
    → All (IsChecked ms inside table) group
unfolding check_members
check_members_sound ms inside table [] h = tt
check_members_sound ms inside table (e ∷ group) h = elim (Bool-cases (matches_member ms e)) [
  | inr wrong ↦ absurd (ground (arith, wrong))
  | inl right ↦ elim (Try-cases (descendants e.0 table)) [
    | inr failed ↦ absurd (ground (arith, right, failed))
    | inl (below, found) ↦ elim (Bool-cases (subset below inside)) [
      | inr outside ↦ absurd (ground (arith, right, found, outside))
      | inl enclosed ↦ (
        (
          matches_lem ms e right,
          λ q b.
              subset-elem q below inside enclosed
                ((descendants-Below_iff table e.0 below found q).1 b),
        ),
        check_members_sound ms inside table group (ground (arith, right, found, enclosed)),
      )
    ]
  ]
]

-- The rows of a group are rows of the group.
pub group_of-grouped : (j : Job) (table : Table) → All (λ e. e.1.group ≡ j.group) (group_of j table)
unfolding group_of keep
group_of-grouped j [] = tt
group_of-grouped j (e ∷ table) = ground (arith, group_of-grouped j table)

pub find_job-id : (i : String) (jobs : List Job) (j : Job) → find_job i jobs ≡ some j → j.id ≡ i
unfolding find_job
find_job-id i [] j h = cc
find_job-id i (k ∷ jobs) j h = elim (Bool-cases (str_eq k.id i)) [
  | inl same ↦ let e : some k ≡ some j = rw same at h in ground (arith, e, (eq_iff k.id i).0 same)
  | inr other ↦ find_job-id i jobs j (rw other at h)
]
