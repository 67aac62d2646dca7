-- ===== src/Prelude/Growth.antt =====
-- How many keys of one dictionary are missing in another, the measure of the loops that collect
-- processes until nothing is left.
use Prim.Native.Nat.{ℕ, ◌≤◌, ◌<◌}
use mathlib.Core.Path.{◌≡◌}
use mathlib.Core.Bool.{true, false, not, ◌||◌}
use mathlib.Core.Logic.{inl, inr}
use mathlib.Core.List.{[], ◌∷◌}
use native.Mathlib.Omega.{arith}
use memcap.Prelude.Tests.{==_iff, ◌==◌, Bool-cases}
use memcap.Prelude.Lists.{keep, length}
use memcap.Prelude.Maps.{Dict, has, put, nat_eq}

module _ {ℓ} {V : Type ℓ} where
  pub has-put : (p q : ℕ) (v : V) (d : Dict ℕ V) → has p (put q v d) ≡ (q == p || has p d)
  unfolding has put
  has-put p q v [] = ground arith
  has-put p q v ((k, w) ∷ d) = ground (arith, has-put p q v d)

  -- Every key of the first is one of the second.
  abbrev pub IsKept : Dict ℕ V → Dict ℕ V → Type 0
  IsKept a b = (p : ℕ) → has p a ≡ true → has p b ≡ true

  pub put-IsKept : (q : ℕ) (v : V) (d : Dict ℕ V) → IsKept d (put q v d)
  put-IsKept q v d p h = ground (arith, has-put p q v d, h)

module _ {ℓ κ} {V : Type ℓ} {W : Type κ} where
  -- How many rows of the table are not owned.
  abbrev pub unowned : Dict ℕ V → Dict ℕ W → ℕ
  unowned owned table = length (keep (λ e. not (has e.0 owned)) table)

  pub unowned-le-length : (owned : Dict ℕ V) (table : Dict ℕ W) → unowned owned table ≤ length table
  unfolding keep
  unowned-le-length owned [] = omega arith
  unowned-le-length owned (e ∷ table) = ground (arith, unowned-le-length owned table)

  pub unowned_mono :
      (a b : Dict ℕ V) (table : Dict ℕ W) → IsKept a b → unowned b table ≤ unowned a table
  unfolding keep
  unowned_mono a b [] k = omega arith
  unowned_mono a b (e ∷ table) k = ground (arith, k e.0, unowned_mono a b table k)

  pub unowned-lt :
      (a b : Dict ℕ V) (table : Dict ℕ W) (p : ℕ)
      → has p table ≡ true
      → IsKept a b
      → has p a ≡ false
      → has p b ≡ true
      → unowned b table < unowned a table
  unfolding keep has
  unowned-lt a b [] p t k h g = absurd (ground arith)
  unowned-lt a b ((q, r) ∷ table) p t k h g = elim (Bool-cases (q == p)) [
    | inl here ↦
        let same : q ≡ p = (==_iff q p).0 here in
        ground (arith, same, h, g, unowned_mono a b table k)
    | inr away ↦ ground (arith, away, k q, unowned-lt a b table p (ground (arith, away)) k h g)
  ]
