-- ===== src/Observation/Poison.antt =====
-- In libexec/job_observation.py a process that was lost before it was measured keeps the observation
-- incomplete for good.
use memcap.Prelude.{
  ℕ, zero, suc, ◌≤◌, ◌<◌, String, true, false, ◌≡◌, ◌⊎◌, inl, inr, refl, ◌∙◌, some, List, [], ◌∷◌,
  arith, Bool-cases, Dict, lookup, lookup-put, has, nat_eq, string_eq, ◌==◌, ==_iff,
}
use memcap.Observation.{
  ObservedSample, Observation, is_stale, is_birth_only, accumulate, is_at, Tally, add_birth,
  add_births, add_one, with_tally, is_settled, settle, add_current, tally, mark_failed, reconcile,
  complete_at,
}

has_of_lookup : (p : ℕ) (d : Dict ℕ String) (s : String) → lookup p d ≡ some s → has p d ≡ true
unfolding lookup has
has_of_lookup p [] s h = absurd (ground (arith, h))
has_of_lookup p ((q, t) ∷ d) s h = ground (arith, has_of_lookup p d s)

-- An obligation stays or fails when a birth is added.
add_birth-keeps :
    (q : ℕ) (start : String) (t : Tally) (p : ℕ) (s : String)
    → (lookup p t.pending ≡ some s) ⊎ (0 < t.failed)
    → (lookup p (add_birth q start t).pending ≡ some s) ⊎ (0 < (add_birth q start t).failed)
unfolding add_birth
add_birth-keeps q start t p s (inr f) = inr (ground (arith, f))
add_birth-keeps q start t p s (inl k) = elim (Bool-cases (q == p)) [
  | inr away ↦ inl (ground (arith, lookup-put q p start t.pending, k, away))
  | inl here ↦ elim (Bool-cases (is_at t.pending q start)) [
    | inl same ↦ inl (ground (arith, k, same))
    | inr other ↦ inr (ground (arith, here, k, other, has_of_lookup p t.pending s k))
  ]
]

add_births-keeps :
    (births : Dict ℕ String) (t : Tally) (p : ℕ) (s : String)
    → (lookup p t.pending ≡ some s) ⊎ (0 < t.failed)
    → (lookup p (add_births births t).pending ≡ some s) ⊎ (0 < (add_births births t).failed)
unfolding add_births
add_births-keeps [] t p s h = h
add_births-keeps ((q, start) ∷ births) t p s h =
    add_births-keeps births (add_birth q start t) p s (add_birth-keeps q start t p s h)

-- An obligation that is neither settled nor registered any more fails.
settle-fails :
    (x : ObservedSample) (current pending : Dict ℕ String) (t : Tally) (p : ℕ) (s : String)
    → is_settled x p s ≡ false
    → is_at current p s ≡ false
    → lookup p pending ≡ some s
    → 0 < (settle x current pending t).failed
unfolding settle lookup
settle-fails x current [] t p s n c h = absurd (ground (arith, h))
settle-fails x current ((q, start) ∷ pending) t p s n c h = elim (Bool-cases (q == p)) [
  | inr away ↦
      let later = settle-fails x current pending t p s n c (ground (arith, h, away)) in
      ground (arith, later)
  | inl here ↦
      let same : start ≡ s = ground (arith, h, here) in
      let place : q ≡ p = (==_iff q p).0 here in ground (arith, same, place, n, c)
]

settle-failed :
    (x : ObservedSample) (current pending : Dict ℕ String) (t : Tally)
    → t.failed ≤ (settle x current pending t).failed
unfolding settle
settle-failed x current [] t = omega arith
settle-failed x current ((q, start) ∷ pending) t = ground (arith, settle-failed x current pending t)

add_one-failed :
    (x : ObservedSample) (p : ℕ) (start : String) (t : Tally)
    → (add_one x p start t).failed ≡ t.failed
unfolding add_one
add_one-failed x p start t = ground arith

add_current-failed :
    (x : ObservedSample) (current : Dict ℕ String) (t : Tally)
    → (add_current x current t).failed ≡ t.failed
unfolding add_current
add_current-failed x [] t = refl
add_current-failed x ((p, start) ∷ current) t =
    add_current-failed x current (add_one x p start t) ∙ add_one-failed x p start t

tally-failed :
    (o : Observation) (x : ObservedSample) (current : Dict ℕ String) (p : ℕ) (s : String)
    → lookup p o.pending ≡ some s
    → is_settled x p s ≡ false
    → is_at current p s ≡ false
    → 0 < (tally o x current).failed
unfolding tally
tally-failed o x current p s h n c =
    let start : Tally = record { pending = o.pending; failed = 0; resolved = 0; seen = 0 } in
    let born = add_births x.births start in
    rw (add_current-failed x current (settle x current born.pending (record born { pending = [] })))
      (elim (add_births-keeps x.births start p s (inl h)) [
        | inl there ↦
            settle-fails x current born.pending (record born { pending = [] }) p s n c there
        | inr failed ↦
            omega
              (arith, failed, settle-failed x current born.pending (record born { pending = [] }))
      ])

-- Incomplete for good: the flag is set and `complete` is not.
pub record IsPoisoned (o : Observation) : Type 0 where
  pub flagged : o.incomplete ≡ true
  pub never : o.complete ≡ false

accumulate-IsPoisoned :
    (o : Observation) (x : ObservedSample)
    → o.incomplete ≡ true
    → is_stale o.last x.at ≡ false
    → IsPoisoned (accumulate o x)
unfolding accumulate
accumulate-IsPoisoned o x h fresh = ground (arith, h, fresh)

accumulate-marked :
    (o : Observation) (x : ObservedSample)
    → is_stale o.last x.at ≡ false
    → x.complete ≡ false
    → 0 < x.missing
    → IsPoisoned (accumulate o x)
unfolding accumulate is_birth_only
accumulate-marked o x fresh c m = ground (arith, fresh, c, m)

reconcile_fresh :
    (o : Observation) (x : ObservedSample) (current : Dict ℕ String)
    → is_stale o.last x.at ≡ false
    → IsPoisoned
        (accumulate (with_tally (tally o x current) o) (mark_failed (tally o x current).failed x))
    → IsPoisoned (reconcile o x current).0
unfolding reconcile
reconcile_fresh o x current fresh i = ground (arith, fresh, i.flagged, i.never)

reconcile_stale :
    (o : Observation) (x : ObservedSample) (current : Dict ℕ String)
    → is_stale o.last x.at ≡ true
    → IsPoisoned o
    → IsPoisoned (reconcile o x current).0
unfolding reconcile
reconcile_stale o x current stale i = ground (arith, stale, i.flagged, i.never)

reconcile-IsPoisoned :
    (o : Observation) (x : ObservedSample) (current : Dict ℕ String)
    → IsPoisoned o
    → IsPoisoned (reconcile o x current).0
reconcile-IsPoisoned o x current i = elim (Bool-cases (is_stale o.last x.at)) [
  | inl stale ↦ reconcile_stale o x current stale i
  | inr fresh ↦ reconcile_fresh o x current fresh (
      accumulate-IsPoisoned (with_tally (tally o x current) o)
        (mark_failed (tally o x current).failed x) i.flagged
        (same_at (tally o x current).failed fresh))
]
  where
    same_at : (n : ℕ) → is_stale o.last x.at ≡ false → is_stale o.last (mark_failed n x).at ≡ false
    same_at zero f = f
    same_at (suc n) f = f

marked_lem :
    (n : ℕ) (o : Observation) (x : ObservedSample)
    → 0 < n
    → is_stale o.last x.at ≡ false
    → IsPoisoned (accumulate o (mark_failed n x))
marked_lem zero o x h fresh = absurd (omega (arith, h))
marked_lem (suc n) o x h fresh =
    accumulate-marked o (mark_failed (suc n) x) fresh refl (omega arith)

-- The later samples, each with the registered identities at its time.
abbrev pub run : Observation → List (ObservedSample × Dict ℕ String) → Observation
run o [] = o
run o ((x, current) ∷ rest) = run (reconcile o x current).0 rest

run-IsPoisoned :
    (o : Observation) (rest : List (ObservedSample × Dict ℕ String))
    → IsPoisoned o
    → IsPoisoned (run o rest)
run-IsPoisoned o [] i = i
run-IsPoisoned o ((x, current) ∷ rest) i =
    run-IsPoisoned (reconcile o x current).0 rest (reconcile-IsPoisoned o x current i)

not-complete_at : (o : Observation) (now : ℕ) → IsPoisoned o → complete_at o now ≡ false
unfolding complete_at
not-complete_at o now i = ground (arith, i.never)

-- A process that was owed a measurement and is lost, neither settled by this fresh sample nor
-- registered any more, keeps the observation incomplete: whatever samples follow, `complete_at` says
-- so at every time.
pub reconcile_lost :
    (o : Observation) (x : ObservedSample) (current : Dict ℕ String) (p : ℕ) (start : String)
    → lookup p o.pending ≡ some start
    → is_stale o.last x.at ≡ false
    → is_settled x p start ≡ false
    → is_at current p start ≡ false
    → (rest : List (ObservedSample × Dict ℕ String)) (now : ℕ)
    → complete_at (run (reconcile o x current).0 rest) now ≡ false
reconcile_lost o x current p start owed fresh n c rest now =
    let lost =
      marked_lem (tally o x current).failed (with_tally (tally o x current) o) x
        (tally-failed o x current p start owed n c) fresh in
    not-complete_at (run (reconcile o x current).0 rest) now
      (run-IsPoisoned (reconcile o x current).0 rest (reconcile_fresh o x current fresh lost))
