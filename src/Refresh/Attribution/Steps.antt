-- ===== src/Refresh/Attribution/Steps.antt =====
-- The steps of `spread`, the queue of `descendants` in libexec/workload_members.py.
use memcap.Prelude.{
  ℕ, zero, suc, ◌≡◌, refl, none, some, List, [], ◌∷◌, ◌++◌, arith, Dict, lookup, nat_eq,
}
use memcap.Processes.{Table}
use memcap.Refresh.Attribution.{children, adopt, spread}

module _ (me : ℕ) (owners : List ℕ) (table : Table) where
  pub spread-zero : (pending : List ℕ) (d : Dict ℕ ℕ) → spread zero me owners table pending d ≡ d
  unfolding spread
  spread-zero pending d = refl

  pub spread_empty : (n : ℕ) (d : Dict ℕ ℕ) → spread (suc n) me owners table [] d ≡ d
  unfolding spread
  spread_empty n d = refl

  pub spread_known :
      (n p i : ℕ) (pending : List ℕ) (d : Dict ℕ ℕ)
      → lookup p d ≡ some i
      → spread (suc n) me owners table (p ∷ pending) d
        ≡ spread n me owners table
            (pending ++ (adopt i (children me owners table p) d).1)
            (adopt i (children me owners table p) d).0
  unfolding spread
  spread_known n p i pending d k = ground (arith, k)

  pub spread_unknown :
      (n p : ℕ) (pending : List ℕ) (d : Dict ℕ ℕ)
      → lookup p d ≡ none
      → spread (suc n) me owners table (p ∷ pending) d ≡ spread n me owners table pending d
  unfolding spread
  spread_unknown n p pending d k = ground (arith, k)
