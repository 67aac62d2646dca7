-- ===== src/Owned/Closure.antt =====
-- `members` of libexec/job_observation.py ends, and misses no child.
use memcap.Prelude.{
  ℕ, zero, suc, ◌<◌, String, true, false, ◌≡◌, ◌⊎◌, inl, inr, refl, [], ◌∷◌, arith, All, length,
  Bool-cases, Dict, has, put, nat_eq, ==_iff, has-put, IsKept, unowned, unowned-le-length,
  unowned-lt,
}
use memcap.Registry.{Job}
use memcap.Processes.{Row, Table}
use memcap.Observation.{is_none}
use memcap.Owned.{observable, anchors, add_group, is_new, pass, close, members}

module _ (me : ℕ) (j : Job) where
  pass-IsKept : (table : Table) (owned : Dict ℕ String) → IsKept owned (pass me j table owned).0
  unfolding pass
  pass-IsKept [] owned p h = h
  pass-IsKept (e ∷ table) owned p h = elim (Bool-cases (is_new me j owned e)) [
    | inr known ↦ ground (arith, known, pass-IsKept table owned p h)
    | inl new ↦
        let more : has p (put e.0 e.1.start owned) ≡ true =
          ground (arith, has-put p e.0 e.1.start owned, h) in
        ground (arith, new, pass-IsKept table (put e.0 e.1.start owned) p more)
  ]

  new_lem :
      (e : ℕ × Row) (owned : Dict ℕ String) → is_new me j owned e ≡ true → has e.0 owned ≡ false
  unfolding is_new
  new_lem (p, r) owned new = ground arith

  kept_here :
      (e : ℕ × Row) (table : Table) (owned : Dict ℕ String)
      → has e.0 (pass me j table (put e.0 e.1.start owned)).0 ≡ true
  kept_here e table owned =
      pass-IsKept table (put e.0 e.1.start owned) e.0
        (ground (arith, has-put e.0 e.0 e.1.start owned, (==_iff e.0 e.0).1 refl))

  -- A pass that changes something owns a process that was not owned.
  pass-grows :
      (table : Table) (owned : Dict ℕ String)
      → (pass me j table owned).1 ≡ true
      → (p : ℕ) × (has p table ≡ true)
        × (has p owned ≡ false)
        × (has p (pass me j table owned).0 ≡ true)
  unfolding pass has
  pass-grows [] owned h = absurd (ground arith)
  pass-grows (e ∷ table) owned h = elim (Bool-cases (is_new me j owned e)) [
    | inr known ↦
        let (p, t, n, g) = pass-grows table owned (ground (arith, known, h)) in
        (p, ground (arith, t), n, ground (arith, known, g))
    | inl new ↦ (
      e.0,
      ground (arith, (==_iff e.0 e.0).1 refl),
      new_lem e owned new,
      ground (arith, new, kept_here e table owned),
    )
  ]

  -- A pass that changes nothing found no new process.
  pass_still :
      (table : Table) (owned : Dict ℕ String)
      → (pass me j table owned).1 ≡ false
      → ((pass me j table owned).0 ≡ owned) × All (λ e. is_new me j owned e ≡ false) table
  unfolding pass
  pass_still [] owned h = (refl, tt)
  pass_still (e ∷ table) owned h = elim (Bool-cases (is_new me j owned e)) [
    | inl new ↦ absurd (ground (arith, new))
    | inr known ↦
        let (same, rest) = pass_still table owned (ground (arith, known)) in
        (ground (arith, known, same), (known, rest))
  ]

  close-closed :
      (n : ℕ) (table : Table) (owned : Dict ℕ String)
      → unowned owned table < n
      → All (λ e. is_new me j (close n me j table owned) e ≡ false) table
  unfolding close
  close-closed zero table owned h = absurd (omega (arith, h))
  close-closed (suc n) table owned h = elim (Bool-cases (pass me j table owned).1) [
    | inr still ↦ let (same, rest) = pass_still table owned still in rw still (rw same rest)
    | inl changed ↦
        let (p, t, fresh, found) = pass-grows table owned changed in
        rw changed (
          close-closed n table (pass me j table owned).0 (
            omega (
              arith,
              h,
              unowned-lt owned (pass me j table owned).0 table p t (pass-IsKept table owned) fresh
                  found,
            )))
  ]

  -- The passes of `members` end with nothing left to find: no process of the user in the observable
  -- table that is not owned, other than the supervisor, has an owned parent.
  pub members_closed :
      (table : Table)
      → (members me j table ≡ [])
        ⊎ All (λ e. is_new me j (members me j table) e ≡ false) (observable j table)
  unfolding members
  members_closed table = elim (Bool-cases (is_none (anchors me j (observable j table)))) [
    | inl empty ↦ inl (ground (arith, empty))
    | inr some_anchor ↦
        let seen = observable j table in
        let roots = add_group me j seen (anchors me j seen) in
        let same : members me j table ≡ close (suc (length seen)) me j seen roots =
          ground (arith, some_anchor) in
        inr (
          rw same (
            close-closed (suc (length seen)) seen roots
              (omega (arith, unowned-le-length roots seen))))
  ]
