-- ===== src/Processes/Tree.antt =====
-- The descendants that libexec/idle_gc.py finds are exactly the processes below the given one.
use memcap.Prelude.{
  ℕ, zero, suc, Bool, true, false, not, ◌&&◌, ◌||◌, ◌≡◌, ◌↔◌, inl, inr, List, [], ◌∷◌, ◌++◌, arith,
  keep, all, elem, ap, ◌==◌, ==_iff, nat_eq, Bool-cases, refl,
}
use memcap.Processes.{Row, Table, ok, subset, children_of, descend, descendants}

-- An entry of the table says that `q` is the parent of `p`.
pub data HasRow (p : ℕ) (q : ℕ) : Table → Type 0 where
  here : {r : Row} {t : Table} → r.ppid ≡ q → HasRow p q ((p, r) ∷ t)
  there : {e : ℕ × Row} {t : Table} → HasRow p q t → HasRow p q (e ∷ t)

-- `p` is the root, or a child of a process below the root.
pub data Below (t : Table) (root : ℕ) : ℕ → Type 0 where
  self : Below t root root
  child : {p q : ℕ} → Below t root q → HasRow p q t → Below t root p

elem-append : (p : ℕ) (xs ys : List ℕ) → elem p (xs ++ ys) ≡ (elem p xs || elem p ys)
unfolding elem
elem-append p [] ys = refl
elem-append p (x ∷ xs) ys = ground (arith, elem-append p xs ys)

elem-keep : (p : ℕ) (f : ℕ → Bool) (xs : List ℕ) → elem p (keep f xs) ≡ (f p && elem p xs)
unfolding elem keep
elem-keep p f [] = ground arith
elem-keep p f (x ∷ xs) = elim (Bool-cases (p == x)) [
  | inl same ↦ rw ((==_iff p x).0 same) (ground (arith, elem-keep x f xs))
  | inr other ↦ ground (arith, elem-keep p f xs)
]

pub subset-elem :
    (p : ℕ) (xs ys : List ℕ) → subset xs ys ≡ true → elem p xs ≡ true → elem p ys ≡ true
unfolding subset all elem
subset-elem p [] ys s h = absurd (ground arith)
subset-elem p (x ∷ xs) ys s h = elim (Bool-cases (p == x)) [
  | inl same ↦ rw ((==_iff p x).0 same) (ground arith)
  | inr other ↦ subset-elem p xs ys (ground arith) (ground arith)
]

children_of_sound :
    (p : ℕ) (found : List ℕ) (t : Table)
    → elem p (children_of found t) ≡ true
    → (q : ℕ) × HasRow p q t × (elem q found ≡ true)
unfolding children_of keep elem
children_of_sound p found [] h = absurd (ground arith)
children_of_sound p found ((k, r) ∷ t) h = elim (Bool-cases (elem r.ppid found)) [
  | inl listed ↦ elim (Bool-cases (p == k)) [
    | inl same ↦ (r.ppid, rw ((==_iff p k).0 same) (here refl), listed)
    | inr other ↦ let (q, row, e) = children_of_sound p found t (ground arith) in (q, there row, e)
  ]
  | inr stranger ↦ let (q, row, e) = children_of_sound p found t (ground arith) in (q, there row, e)
]

children_of_complete :
    {p q : ℕ} {t : Table} (found : List ℕ)
    → HasRow p q t
    → elem q found ≡ true
    → elem p (children_of found t) ≡ true
unfolding children_of keep elem
children_of_complete {p} {q} found (here {r = r} {t = t} e) h =
    ground (arith, ==_iff p p, ap (λ n. elem n found) e)
children_of_complete found (there row) h = ground (arith, children_of_complete found row h)

elem-singleton : (q r : ℕ) → elem q (r ∷ []) ≡ true → q ≡ r
unfolding elem
elem-singleton q r h = ground arith

elem-singleton_self : (r : ℕ) → elem r (r ∷ []) ≡ true
unfolding elem
elem-singleton_self r = ground arith

module _ (t : Table) (root : ℕ) where
  abbrev AllBelow : List ℕ → Type 0
  AllBelow found = (p : ℕ) → elem p found ≡ true → Below t root p

  abbrev next : List ℕ → List ℕ
  next found = keep (λ p. not (elem p found)) (children_of found t) ++ found

  AllBelow-next : (found : List ℕ) → AllBelow found → AllBelow (next found)
  AllBelow-next found below p h = elim (Bool-cases (elem p found)) [
    | inl old ↦ below p old
    | inr new ↦
        let (q, row, e) = children_of_sound p found t (is_child p h new) in child (below q e) row
  ]
    where
      is_child :
          (p : ℕ)
          → elem p (next found) ≡ true
          → elem p found ≡ false
          → elem p (children_of found t) ≡ true
      is_child p h new = ground (
        arith,
        elem-append p (keep (λ q. not (elem q found)) (children_of found t)) found,
        elem-keep p (λ q. not (elem q found)) (children_of found t),
      )

  found-next : (found : List ℕ) (p : ℕ) → elem p found ≡ true → elem p (next found) ≡ true
  found-next found p h =
      ground (arith, elem-append p (keep (λ q. not (elem q found)) (children_of found t)) found)

  descend_sound :
      (rounds : ℕ) (found d : List ℕ) → AllBelow found → descend rounds found t ≡ ok d → AllBelow d
  unfolding descend
  descend_sound zero found d below h = cc
  descend_sound (suc rounds) found d below h =
      elim (Bool-cases (subset (children_of found t) found)) [
        | inl closed ↦
            let same : ok found ≡ ok d = rw closed at h in λ p e. below p (ground (arith, same, e))
        | inr open_end ↦
            descend_sound rounds (next found) d (AllBelow-next found below) (rw open_end at h)
      ]

  descend_closed :
      (rounds : ℕ) (found d : List ℕ)
      → descend rounds found t ≡ ok d
      → (subset (children_of d t) d ≡ true) × ((p : ℕ) → elem p found ≡ true → elem p d ≡ true)
  unfolding descend
  descend_closed zero found d h = cc
  descend_closed (suc rounds) found d h = elim (Bool-cases (subset (children_of found t) found)) [
    | inl closed ↦
        let same : ok found ≡ ok d = rw closed at h in
        (ground (arith, same, closed), λ p e. ground (arith, same, e))
    | inr open_end ↦
        let (closed, keeps) = descend_closed rounds (next found) d (rw open_end at h) in
        (closed, λ p e. keeps p (found-next found p e))
  ]

  elem-Below :
      (d : List ℕ)
      → subset (children_of d t) d ≡ true
      → elem root d ≡ true
      → (p : ℕ) → Below t root p
      → elem p d ≡ true
  elem-Below d closed at_root p self = at_root
  elem-Below d closed at_root p (child b row) =
      subset-elem p (children_of d t) d closed
        (children_of_complete d row (elem-Below d closed at_root _ b))

  -- Where `descendants` returns, it returns exactly the processes below the given one, itself
  -- included.
  pub descendants-Below_iff :
      (d : List ℕ) → descendants root t ≡ ok d → (p : ℕ) → (elem p d ≡ true) ↔ Below t root p
  unfolding descendants
  descendants-Below_iff d h p =
      let (closed, keeps) = descend_closed 64 (root ∷ []) d h in
      (
        descend_sound 64 (root ∷ []) d only_root h p,
        elem-Below d closed (keeps root (elem-singleton_self root)) p,
      )
    where
      only_root : AllBelow (root ∷ [])
      only_root q e = rw (elem-singleton q root e) self
