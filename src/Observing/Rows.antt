-- ===== src/Observing/Rows.antt =====
-- The last rows of the estimates, of which libexec/scheduler.py keeps 256.
use memcap.Prelude.{
  ℕ, zero, suc, ◌-◌, ◌≤◌, String, false, ◌≡◌, refl, none, [], ◌∷◌, ◌++◌, arith, length,
  length-append, drop, last_n, Dict, lookup, remove, string_eq, str_eq,
}
use memcap.Estimates.{Row}

remove-append :
    (k : String) (xs ys : Dict String Row) → remove k (xs ++ ys) ≡ remove k xs ++ remove k ys
unfolding remove
remove-append k [] ys = refl
remove-append k ((j, v) ∷ xs) ys = ground (arith, remove-append k xs ys)

append_assoc : (xs ys zs : Dict String Row) → (xs ++ ys) ++ zs ≡ xs ++ (ys ++ zs)
append_assoc [] ys zs = refl
append_assoc (x ∷ xs) ys zs = ground (arith, append_assoc xs ys zs)

lookup-drop :
    (k : String) (n : ℕ) (xs ys : Dict String Row)
    → n ≤ length xs
    → lookup k xs ≡ none
    → lookup k (drop n (xs ++ ys)) ≡ lookup k ys
unfolding lookup
lookup-drop k zero [] ys h m = refl
lookup-drop k zero (x ∷ xs) ys h m = ground (arith, m, lookup-drop k zero xs ys (omega arith))
lookup-drop k (suc n) [] ys h m = absurd (omega (arith, h))
lookup-drop k (suc n) (x ∷ xs) ys h m = ground (arith, m, lookup-drop k n xs ys (omega (arith, h)))

-- The last 256 rows keep what stands at the end.
pub lookup-last_n :
    (k : String) (xs ys : Dict String Row)
    → length ys ≤ 256
    → lookup k xs ≡ none
    → lookup k (last_n 256 (xs ++ ys)) ≡ lookup k ys
unfolding last_n
lookup-last_n k xs ys h m =
    lookup-drop k (length (xs ++ ys) - 256) xs ys (omega (arith, h, length-append xs ys)) m

pub split_lem :
    (k f : String) (history : Dict String Row) (r w : Row)
    → str_eq f k ≡ false
    → str_eq k f ≡ false
    → remove f (remove k history ++ (k, r) ∷ []) ++ (f, w) ∷ []
      ≡ remove f (remove k history) ++ ((k, r) ∷ (f, w) ∷ [])
unfolding remove
split_lem k f history r w other flipped = ground (
  arith,
  remove-append f (remove k history) ((k, r) ∷ []),
  flipped,
  append_assoc (remove f (remove k history)) ((k, r) ∷ []) ((f, w) ∷ []),
)
