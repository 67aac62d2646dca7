-- ===== src/Queue/Waiters/Sorting.antt =====
-- `waiting.sort(key=...)` of libexec/scheduler.py: the sorted list is ordered and a permutation.
use mathlib.Core.List.{Perm, perm_middle}
use mathlib.Core.List.Perm
use memcap.Prelude.{
  Bool, true, false, not, ◌≡◌, List, [], ◌∷◌, ◌++◌, arith, All, keep, Bool-cases, inl, inr,
}
use memcap.Registry.{Job}
use memcap.Queue.Waiters.{Key, key_leb, insert_by, sort_by}

module _ (key : Job → Key) where
  insert_by-perm : (w : Job) (ws : List Job) → Perm (insert_by key w ws) (w ∷ ws)
  unfolding insert_by
  insert_by-perm w [] = Perm.refl (w ∷ [])
  insert_by-perm w (v ∷ vs) = elim (Bool-cases (key_leb (key w) (key v))) [
    | inl le ↦ rw le (Perm.refl (w ∷ v ∷ vs))
    | inr gt ↦ rw gt (Perm.trans (Perm.cons v (insert_by-perm w vs)) (Perm.swap w v vs))
  ]

  pub sort_by-perm : (ws : List Job) → Perm (sort_by key ws) ws
  unfolding sort_by
  sort_by-perm [] = Perm.refl []
  sort_by-perm (w ∷ ws) =
      Perm.trans (insert_by-perm w (sort_by key ws)) (Perm.cons w (sort_by-perm ws))

  abbrev pub Before : Job → Job → Type 0
  Before v w = key_leb (key v) (key w) ≡ true

  abbrev pub IsOrdered : List Job → Type 0
  IsOrdered [] = Unit
  IsOrdered (w ∷ ws) = All (Before w) ws × IsOrdered ws

key_leb-total : (a b : Key) → key_leb a b ≡ false → key_leb b a ≡ true
key_leb-total (a, b) (c, d) h = ground arith

key_leb_trans : (a b c : Key) → key_leb a b ≡ true → key_leb b c ≡ true → key_leb a c ≡ true
key_leb_trans (a, b) (c, d) (e, f) h k = ground arith

module _ (key : Job → Key) where
  All-Before :
      (v w : Job) (ws : List Job) → Before key v w → All (Before key w) ws → All (Before key v) ws
  All-Before v w [] le h = tt
  All-Before v w (u ∷ us) le h =
      (key_leb_trans (key v) (key w) (key u) le h.0, All-Before v w us le h.1)

  All-insert_by :
      (v w : Job) (ws : List Job)
      → Before key v w
      → All (Before key v) ws
      → All (Before key v) (insert_by key w ws)
  unfolding insert_by
  All-insert_by v w [] le h = (le, tt)
  All-insert_by v w (u ∷ us) le h = elim (Bool-cases (key_leb (key w) (key u))) [
    | inl first ↦ rw first (le, h)
    | inr later ↦ rw later (h.0, All-insert_by v w us le h.1)
  ]

  insert_by-IsOrdered :
      (w : Job) (ws : List Job) → IsOrdered key ws → IsOrdered key (insert_by key w ws)
  unfolding insert_by
  insert_by-IsOrdered w [] h = (tt, tt)
  insert_by-IsOrdered w (v ∷ vs) h = elim (Bool-cases (key_leb (key w) (key v))) [
    | inl le ↦ rw le ((le, All-Before w v vs le h.0), h)
    | inr gt ↦
        rw gt (
          All-insert_by v w vs (key_leb-total (key w) (key v) gt) h.0,
          insert_by-IsOrdered w vs h.1,
        )
  ]

  pub sort_by-IsOrdered : (ws : List Job) → IsOrdered key (sort_by key ws)
  unfolding sort_by
  sort_by-IsOrdered [] = tt
  sort_by-IsOrdered (w ∷ ws) = insert_by-IsOrdered w (sort_by key ws) (sort_by-IsOrdered ws)

-- Splitting by a test and joining again, in either order, keeps the elements.
pub keep-perm : (p : Job → Bool) (ws : List Job) → Perm (keep p ws ++ keep (λ w. not (p w)) ws) ws
unfolding keep
keep-perm p [] = Perm.refl []
keep-perm p (w ∷ ws) = elim (Bool-cases (p w)) [
  | inl kept ↦ rw kept (Perm.cons w (keep-perm p ws))
  | inr dropped ↦ rw dropped (
      Perm.trans (perm_middle (keep p ws) (keep (λ v. not (p v)) ws))
        (Perm.cons w (keep-perm p ws)))
]
