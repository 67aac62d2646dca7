-- ===== src/Estimates/Sorting.antt =====
-- `sorted(peaks)` of libexec/workload_estimates.py: order, and how many elements lie above one.
use memcap.Prelude.{
  ℕ, zero, suc, ◌+◌, ◌≤◌, ◌<◌, ◌≡◌, refl, List, [], ◌∷◌, arith, All, length, keep, ltb,
  if◌then◌else◌,
}
use memcap.Estimates.{insert_sorted, sorted, at}

-- The number of elements above `v`.
abbrev pub count_above : ℕ → List ℕ → ℕ
count_above v xs = length (keep (λ x. ltb v x) xs)

count_above-insert_sorted :
    (v x : ℕ) (ys : List ℕ)
    → count_above v (insert_sorted x ys) ≡ (if ltb v x then 1 else 0) + count_above v ys
unfolding insert_sorted keep
count_above-insert_sorted v x [] = ground arith
count_above-insert_sorted v x (y ∷ ys) = ground (arith, count_above-insert_sorted v x ys)

pub count_above-sorted : (v : ℕ) (xs : List ℕ) → count_above v (sorted xs) ≡ count_above v xs
unfolding sorted keep
count_above-sorted v [] = refl
count_above-sorted v (x ∷ xs) =
    ground (arith, count_above-insert_sorted v x (sorted xs), count_above-sorted v xs)

length-insert_sorted : (x : ℕ) (ys : List ℕ) → length (insert_sorted x ys) ≡ suc (length ys)
unfolding insert_sorted
length-insert_sorted x [] = refl
length-insert_sorted x (y ∷ ys) = ground (arith, length-insert_sorted x ys)

pub length-sorted : (xs : List ℕ) → length (sorted xs) ≡ length xs
unfolding sorted
length-sorted [] = refl
length-sorted (x ∷ xs) = omega (arith, length-insert_sorted x (sorted xs), length-sorted xs)

abbrev pub IsSorted : List ℕ → Type 0
IsSorted [] = Unit
IsSorted (x ∷ xs) = All (λ y. x ≤ y) xs × IsSorted xs

All-weaken : (a b : ℕ) (xs : List ℕ) → a ≤ b → All (λ y. b ≤ y) xs → All (λ y. a ≤ y) xs
All-weaken a b [] le h = tt
All-weaken a b (x ∷ xs) le h = (omega arith, All-weaken a b xs le h.1)

All-insert_sorted :
    (a x : ℕ) (ys : List ℕ) → a ≤ x → All (λ y. a ≤ y) ys → All (λ y. a ≤ y) (insert_sorted x ys)
unfolding insert_sorted
All-insert_sorted a x [] le h = (le, tt)
All-insert_sorted a x (y ∷ ys) le h = ground (arith, All-insert_sorted a x ys le h.1)

insert_sorted-IsSorted : (x : ℕ) (ys : List ℕ) → IsSorted ys → IsSorted (insert_sorted x ys)
unfolding insert_sorted
insert_sorted-IsSorted x [] h = (tt, tt)
insert_sorted-IsSorted x (y ∷ ys) h = ground (
  arith,
  insert_sorted-IsSorted x ys h.1,
  λ (le : y ≤ x). All-insert_sorted y x ys le h.0,
  λ (le : x ≤ y). All-weaken x y ys le h.0,
)

pub sorted-IsSorted : (xs : List ℕ) → IsSorted (sorted xs)
unfolding sorted
sorted-IsSorted [] = tt
sorted-IsSorted (x ∷ xs) = insert_sorted-IsSorted x (sorted xs) (sorted-IsSorted xs)

All-at : (a : ℕ) (xs : List ℕ) (i : ℕ) → All (λ y. a ≤ y) xs → i < length xs → a ≤ at xs i
unfolding at
All-at a [] i h lt = absurd (omega arith)
All-at a (x ∷ xs) zero h lt = h.0
All-at a (x ∷ xs) (suc i) h lt = All-at a xs i h.1 (omega arith)

length-keep-le : (v : ℕ) (xs : List ℕ) → count_above v xs ≤ length xs
unfolding keep
length-keep-le v [] = omega arith
length-keep-le v (x ∷ xs) = ground (arith, length-keep-le v xs)

-- In a sorted list at most the elements behind a place are above what stands there.
pub count_above-at :
    (xs : List ℕ) (i : ℕ)
    → IsSorted xs
    → i < length xs
    → count_above (at xs i) xs + suc i ≤ length xs
unfolding at keep
count_above-at [] i h lt = absurd (omega arith)
count_above-at (x ∷ xs) zero h lt = ground (arith, length-keep-le x xs)
count_above-at (x ∷ xs) (suc i) h lt = ground (arith, count_above-at xs i h.1, All-at x xs i h.0)
