-- ===== src/Refresh/Attribution/Exclusive.antt =====
-- `refresh_footprint_members` of libexec/workload_members.py counts no process twice.
use memcap.Prelude.{
  ℕ, zero, suc, ◌+◌, ◌≤◌, max, String, not, ◌&&◌, ◌≡◌, inl, inr, List, [], ◌∷◌, ◌++◌, arith,
  if◌then◌else◌, length, leb, ◌==◌, ==_iff, Bool-cases, Option-cases, Dict, lookup, has, put,
  nat_eq, keys,
}
use memcap.Registry.{Job, is_running, footprint_members}
use memcap.Processes.{Table}
use memcap.Refresh.Attribution.Steps.{spread-zero, spread_empty, spread_known, spread_unknown}
use memcap.Refresh.Attribution.{
  owners_of, children, is_live_member, assign, assign_new, assign_groups, assign_remembered, adopt,
  spread, spread_all, assignment, share, give, refresh_footprint_members,
}

-- How often a process is assigned to a job from this index on.
unfoldable pub times : ℕ → ℕ → Dict ℕ ℕ → ℕ
times p i [] = 0
times p i ((q, k) ∷ d) = (if q == p && leb i k then 1 else 0) + times p i d

-- No process is assigned twice.
abbrev pub IsUnique : Dict ℕ ℕ → Type 0
IsUnique d = (p : ℕ) → times p 0 d ≤ 1

empty-IsUnique : IsUnique []
unfolding times
empty-IsUnique p = omega arith

times-put :
    (p q i : ℕ) (d : Dict ℕ ℕ)
    → times p 0 (put q i d) ≡ (if q == p then max 1 (times p 0 d) else times p 0 d)
unfolding put times
times-put p q i [] = ground arith
times-put p q i ((k, v) ∷ d) = ground (arith, ==_iff k q, ==_iff q p, ==_iff k p, times-put p q i d)

put-IsUnique : (q i : ℕ) (d : Dict ℕ ℕ) → IsUnique d → IsUnique (put q i d)
put-IsUnique q i d u p = ground (arith, times-put p q i d, u p)

module _ (me : ℕ) (owners : List ℕ) (table : Table) where
  assign-IsUnique :
      (i : ℕ) (members : Dict ℕ String) (d : Dict ℕ ℕ)
      → IsUnique d
      → IsUnique (assign me owners table i members d)
  unfolding assign
  assign-IsUnique i [] d u = u
  assign-IsUnique i ((p, s) ∷ members) d u =
      elim (Bool-cases (is_live_member me owners table p s)) [
        | inl live ↦ rw live (assign-IsUnique i members (put p i d) (put-IsUnique p i d u))
        | inr gone ↦ rw gone (assign-IsUnique i members d u)
      ]

  assign_new-IsUnique :
      (i : ℕ) (members : Dict ℕ String) (d : Dict ℕ ℕ)
      → IsUnique d
      → IsUnique (assign_new me owners table i members d)
  unfolding assign_new
  assign_new-IsUnique i [] d u = u
  assign_new-IsUnique i ((p, s) ∷ members) d u =
      elim (Bool-cases (is_live_member me owners table p s && not (has p d))) [
        | inl live ↦ rw live (assign_new-IsUnique i members (put p i d) (put-IsUnique p i d u))
        | inr gone ↦ rw gone (assign_new-IsUnique i members d u)
      ]

  assign_groups-IsUnique :
      (i : ℕ) (jobs : List Job) (d : Dict ℕ ℕ)
      → IsUnique d
      → IsUnique (assign_groups me owners table i jobs d)
  unfolding assign_groups
  assign_groups-IsUnique i [] d u = u
  assign_groups-IsUnique i (j ∷ jobs) d u = elim (Bool-cases (is_running j)) [
    | inl runs ↦ rw runs (
        assign_groups-IsUnique (suc i) jobs (assign me owners table i j.members d)
          (assign-IsUnique i j.members d u))
    | inr waits ↦ rw waits (assign_groups-IsUnique i jobs d u)
  ]

  assign_remembered-IsUnique :
      (i : ℕ) (jobs : List Job) (d : Dict ℕ ℕ)
      → IsUnique d
      → IsUnique (assign_remembered me owners table i jobs d)
  unfolding assign_remembered
  assign_remembered-IsUnique i [] d u = u
  assign_remembered-IsUnique i (j ∷ jobs) d u = elim (Bool-cases (is_running j)) [
    | inl runs ↦ rw runs (
        assign_remembered-IsUnique (suc i) jobs
          (assign_new me owners table i (footprint_members j) d)
          (assign_new-IsUnique i (footprint_members j) d u))
    | inr waits ↦ rw waits (assign_remembered-IsUnique i jobs d u)
  ]

  adopt-IsUnique : (i : ℕ) (ps : List ℕ) (d : Dict ℕ ℕ) → IsUnique d → IsUnique (adopt i ps d).0
  unfolding adopt
  adopt-IsUnique i [] d u = u
  adopt-IsUnique i (p ∷ ps) d u = elim (Bool-cases (has p d)) [
    | inl known ↦ rw known (adopt-IsUnique i ps d u)
    | inr new ↦ rw new (adopt-IsUnique i ps (put p i d) (put-IsUnique p i d u))
  ]

  spread-IsUnique :
      (n : ℕ) (pending : List ℕ) (d : Dict ℕ ℕ)
      → IsUnique d
      → IsUnique (spread n me owners table pending d)
  spread-IsUnique zero pending d u = rw (spread-zero me owners table pending d) u
  spread-IsUnique (suc n) [] d u = rw (spread_empty me owners table n d) u
  spread-IsUnique (suc n) (p ∷ pending) d u = elim (Option-cases (lookup p d)) [
    | inl unknown ↦
        rw (spread_unknown me owners table n p pending d unknown) (spread-IsUnique n pending d u)
    | inr (i, known) ↦
        let grown = adopt i (children me owners table p) d in
        rw (spread_known me owners table n p i pending d known) (
          spread-IsUnique n (pending ++ grown.1) grown.0
            (adopt-IsUnique i (children me owners table p) d u))
  ]

assignment-IsUnique :
    (me : ℕ) (table : Table) (jobs : List Job) → IsUnique (assignment me table jobs)
unfolding assignment spread_all
assignment-IsUnique me table jobs =
    let owners = owners_of jobs in
    let groups = assign_groups me owners table 0 jobs [] in
    let spread_groups = spread_all me owners table groups in
    let remembered = assign_remembered me owners table 0 jobs spread_groups in
    let first : IsUnique spread_groups =
      spread-IsUnique me owners table (length groups + length table) (keys groups) groups
        (assign_groups-IsUnique me owners table 0 jobs [] empty-IsUnique) in
    spread-IsUnique me owners table (length remembered + length table) (keys remembered) remembered
      (assign_remembered-IsUnique me owners table 0 jobs spread_groups first)

-- How many running jobs count the process.
unfoldable pub holders : ℕ → List Job → ℕ
holders p [] = 0
holders p (j ∷ jobs) =
    (if is_running j && has p (footprint_members j) then 1 else 0) + holders p jobs

share-times :
    (p i : ℕ) (table : Table) (d : Dict ℕ ℕ)
    → times p (suc i) d + (if has p (share table i d) then 1 else 0) ≤ times p i d
unfolding share times has
share-times p i table [] = ground arith
share-times p i table ((q, k) ∷ d) = ground (arith, share-times p i table d, ==_iff q p, ==_iff k i)

holders-le-times :
    (p i : ℕ) (table : Table) (d : Dict ℕ ℕ) (jobs : List Job)
    → holders p (give table d i jobs) ≤ times p i d
unfolding give holders is_running footprint_members
holders-le-times p i table d [] = omega arith
holders-le-times p i table d (j ∷ jobs) = ground (
  arith,
  share-times p i table d,
  holders-le-times p (suc i) table d jobs,
  holders-le-times p i table d jobs,
)

-- After `refresh_footprint_members` no process counts for two running jobs.
pub refresh_footprint_members-IsExclusive :
    (me : ℕ) (table : Table) (jobs : List Job) (p : ℕ)
    → holders p (refresh_footprint_members me table jobs) ≤ 1
unfolding refresh_footprint_members
refresh_footprint_members-IsExclusive me table jobs p = omega (
  arith,
  holders-le-times p 0 table (assignment me table jobs) jobs,
  assignment-IsUnique me table jobs p,
)
