-- ===== src/Refresh/Attribution/Closed.antt =====
-- `refresh_footprint_members` of libexec/workload_members.py reaches every descendant.
use memcap.Prelude.{
  ℕ, zero, suc, ◌+◌, ◌≤◌, true, false, not, ◌&&◌, ◌||◌, ◌≡◌, ◌⊎◌, inl, inr, refl, none, List, [],
  ◌∷◌, ◌++◌, arith, All, keep, elem, length, length-append, ◌==◌, ==_iff, Bool-cases, Option-cases,
  Dict, lookup, has, put, nat_eq, keys, has-put, IsKept, put-IsKept, unowned, unowned-le-length,
  unowned-lt,
}
use memcap.Registry.{Job}
use memcap.Processes.{Table}
use memcap.Refresh.Attribution.Steps.{spread-zero, spread_empty, spread_known, spread_unknown}
use memcap.Refresh.Attribution.{
  owners_of, children, assign_groups, assign_remembered, adopt, spread, spread_all, assignment,
}

abbrev HasAll : Dict ℕ ℕ → List ℕ → Type 0
HasAll d ps = All (λ p. has p d ≡ true) ps

HasAll-mono : (a b : Dict ℕ ℕ) (ps : List ℕ) → IsKept a b → HasAll a ps → HasAll b ps
HasAll-mono a b [] k h = tt
HasAll-mono a b (p ∷ ps) k h = (k p h.0, HasAll-mono a b ps k h.1)

has_not-lookup : (p : ℕ) (d : Dict ℕ ℕ) → lookup p d ≡ none → has p d ≡ false
unfolding lookup has
has_not-lookup p [] h = refl
has_not-lookup p ((q, i) ∷ d) h = ground (arith, h, has_not-lookup p d)

elem-append : (p : ℕ) (xs ys : List ℕ) → elem p (xs ++ ys) ≡ (elem p xs || elem p ys)
unfolding elem
elem-append p [] ys = ground arith
elem-append p (x ∷ xs) ys = ground (arith, elem-append p xs ys)

elem-keys : (p : ℕ) (d : Dict ℕ ℕ) → has p d ≡ true → elem p (keys d) ≡ true
unfolding elem has
elem-keys p [] h = absurd (ground arith)
elem-keys p ((q, i) ∷ d) h = ground (arith, h, elem-keys p d, ==_iff q p, ==_iff p q)

length-keys : (d : Dict ℕ ℕ) → length (keys d) ≡ length d
length-keys [] = refl
length-keys (e ∷ d) = ground (arith, length-keys d)

adopt-IsKept : (i : ℕ) (ps : List ℕ) (d : Dict ℕ ℕ) → IsKept d (adopt i ps d).0
unfolding adopt
adopt-IsKept i [] d q h = h
adopt-IsKept i (p ∷ ps) d q h =
    ground (arith, h, adopt-IsKept i ps d q, adopt-IsKept i ps (put p i d) q, has-put q p i d)

adopt-HasAll : (i : ℕ) (ps : List ℕ) (d : Dict ℕ ℕ) → HasAll (adopt i ps d).0 ps
unfolding adopt
adopt-HasAll i [] d = tt
adopt-HasAll i (p ∷ ps) d = elim (Bool-cases (has p d)) [
  | inl known ↦ (
    ground (arith, known, adopt-IsKept i ps d p),
    HasAll-mono (adopt i ps d).0 (adopt i (p ∷ ps) d).0 ps (λ q h. ground (arith, known, h))
        (adopt-HasAll i ps d),
  )
  | inr new ↦ (
    ground (arith, new, adopt-IsKept i ps (put p i d) p, has-put p p i d, (==_iff p p).1 refl),
    HasAll-mono (adopt i ps (put p i d)).0 (adopt i (p ∷ ps) d).0 ps (λ q h. ground (arith, new, h))
        (adopt-HasAll i ps (put p i d)),
  )
]

-- What is assigned afterwards was assigned before or joins the queue.
adopt-joined :
    (i : ℕ) (ps : List ℕ) (d : Dict ℕ ℕ) (q : ℕ)
    → has q (adopt i ps d).0 ≡ true
    → (has q d || elem q (adopt i ps d).1) ≡ true
unfolding adopt elem
adopt-joined i [] d q h = ground (arith, h)
adopt-joined i (p ∷ ps) d q h = ground (
  arith,
  h,
  adopt-joined i ps d q,
  adopt-joined i ps (put p i d) q,
  has-put q p i d,
  ==_iff p q,
  ==_iff q p,
)

-- Every process that joins was missing before.
adopt-unowned :
    (i : ℕ) (ps : List ℕ) (d : Dict ℕ ℕ) (table : Table)
    → All (λ p. has p table ≡ true) ps
    → length (adopt i ps d).1 + unowned (adopt i ps d).0 table ≤ unowned d table
unfolding adopt
adopt-unowned i [] d table t = omega arith
adopt-unowned i (p ∷ ps) d table t = elim (Bool-cases (has p d)) [
  | inl known ↦ rw known (adopt-unowned i ps d table t.1)
  | inr new ↦
      let here : has p (put p i d) ≡ true = ground (arith, has-put p p i d, (==_iff p p).1 refl) in
      let less = unowned-lt d (put p i d) table p t.0 (put-IsKept p i d) new here in
      rw new (omega (arith, less, adopt-unowned i ps (put p i d) table t.1))
]

module _ (me : ℕ) (owners : List ℕ) where
  children-in :
      (table all_rows : Table) (pid : ℕ)
      → IsKept table all_rows
      → All (λ p. has p all_rows ≡ true) (children me owners table pid)
  unfolding children keep has
  children-in [] all_rows pid k = tt
  children-in (e ∷ table) all_rows pid k =
      let rest = children-in table all_rows pid (λ p h. k p (ground (arith, h))) in
      let here : has e.0 all_rows ≡ true = k e.0 (ground (arith, (==_iff e.0 e.0).1 refl)) in
      elim (Bool-cases (e.1.uid == me && not (elem e.0 owners) && e.1.ppid == pid)) [
        | inl child ↦ rw child (here, rest)
        | inr other ↦ rw other rest
      ]

  module _ (table : Table) where
    -- What is assigned waits in the queue or has its children assigned.
    abbrev IsSpread : List ℕ → Dict ℕ ℕ → Type 0
    IsSpread pending d =
        (p : ℕ) → has p d ≡ true → (elem p pending ≡ true) ⊎ HasAll d (children me owners table p)

    IsSpread-known :
        (p i : ℕ) (pending : List ℕ) (d : Dict ℕ ℕ)
        → IsSpread (p ∷ pending) d
        → IsSpread
            (pending ++ (adopt i (children me owners table p) d).1)
            (adopt i (children me owners table p) d).0
    unfolding elem
    IsSpread-known p i pending d s q h =
        let kids = children me owners table p in
        let grown = adopt i kids d in
        elim (Bool-cases (elem q grown.1)) [
          | inl joins ↦ inl (ground (arith, elem-append q pending grown.1, joins))
          | inr old ↦ elim (s q (ground (arith, adopt-joined i kids d q h, old))) [
            | inr closed ↦
                inr (
                  HasAll-mono d grown.0 (children me owners table q) (adopt-IsKept i kids d) closed)
            | inl waits ↦ elim (Bool-cases (q == p)) [
              | inl same ↦ inr (rw ((==_iff q p).0 same) (adopt-HasAll i kids d))
              | inr away ↦ inl (ground (arith, elem-append q pending grown.1, waits, away))
            ]
          ]
        ]

    IsSpread-unknown :
        (p : ℕ) (pending : List ℕ) (d : Dict ℕ ℕ)
        → lookup p d ≡ none
        → IsSpread (p ∷ pending) d
        → IsSpread pending d
    unfolding elem
    IsSpread-unknown p pending d absent s q h = elim (s q h) [
      | inr closed ↦ inr closed
      | inl waits ↦ elim (Bool-cases (q == p)) [
        | inl same ↦ absurd (ground (arith, (==_iff q p).0 same, h, has_not-lookup p d absent))
        | inr away ↦ inl (ground (arith, waits, away))
      ]
    ]

    -- Nothing waits.
    abbrev IsClosed : Dict ℕ ℕ → Type 0
    IsClosed d = (p : ℕ) → has p d ≡ true → HasAll d (children me owners table p)

    closed_lem : (d : Dict ℕ ℕ) → IsSpread [] d → IsClosed d
    unfolding elem
    closed_lem d s p h = elim (s p h) [ inl w ↦ absurd (ground (arith, w)) | inr closed ↦ closed ]

    spread-IsClosed :
        (n : ℕ) (pending : List ℕ) (d : Dict ℕ ℕ)
        → IsSpread pending d
        → length pending + unowned d table ≤ n
        → IsClosed (spread n me owners table pending d)
    spread-IsClosed zero [] d s h = rw (spread-zero me owners table [] d) (closed_lem d s)
    spread-IsClosed zero (p ∷ pending) d s h = absurd (omega (arith, h))
    spread-IsClosed (suc n) [] d s h = rw (spread_empty me owners table n d) (closed_lem d s)
    spread-IsClosed (suc n) (p ∷ pending) d s h = elim (Option-cases (lookup p d)) [
      | inl absent ↦
          rw (spread_unknown me owners table n p pending d absent)
            (spread-IsClosed n pending d (IsSpread-unknown p pending d absent s) (omega (arith, h)))
      | inr (i, found) ↦
          let kids = children me owners table p in
          let grown = adopt i kids d in
          rw (spread_known me owners table n p i pending d found) (
            spread-IsClosed n (pending ++ grown.1) grown.0 (IsSpread-known p i pending d s) (
              omega (
                arith,
                h,
                length-append pending grown.1,
                adopt-unowned i kids d table (children-in table table p (λ q t. t)),
              )))
    ]

    spread_all-IsClosed : (d : Dict ℕ ℕ) → IsClosed (spread_all me owners table d)
    unfolding spread_all
    spread_all-IsClosed d =
        spread-IsClosed (length d + length table) (keys d) d (λ p h. inl (elem-keys p d h))
          (omega (arith, length-keys d, unowned-le-length d table))

-- The two breadth-first searches have enough steps: every direct child of a process that counts for a
-- job, where it is a process of the user and no supervisor, counts for a job as well.
pub assignment_closed :
    (me : ℕ) (table : Table) (jobs : List Job) (p : ℕ)
    → has p (assignment me table jobs) ≡ true
    → All (λ c. has c (assignment me table jobs) ≡ true) (children me (owners_of jobs) table p)
unfolding assignment
assignment_closed me table jobs =
    let owners = owners_of jobs in
    let groups = spread_all me owners table (assign_groups me owners table 0 jobs []) in
    spread_all-IsClosed me owners table (assign_remembered me owners table 0 jobs groups)
