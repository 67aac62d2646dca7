-- ===== src/Queue/Waiters/Fitting.antt =====
-- What the loop of `next_waiter` (libexec/scheduler.py) records about the waiters.
use mathlib.Core.List.{Mem, mem-cons_self, mem-cons_of_mem, not-mem-nil, eq-or-mem_of_mem-cons}
use mathlib.Core.Logic.Or
use memcap.Prelude.{
  ap, sym, All, zero, suc, map, get_or-put, ℕ, String, Bool, true, false, ◌≡◌, ◌⊎◌, inl, inr, List,
  [], ◌∷◌, arith, Bool-cases, Dict, get_or, put, string_eq, eq_iff, str_eq,
}
use memcap.Values.{num}
use memcap.Registry.{Job}
use memcap.Admission.{decide}
use memcap.Queue.Waiters.{Moment, fit_all, admissible, policy_of, refresh_reservation}

-- The decision about a waiter in some state of the registry.
abbrev pub allowed_in : Moment → List Job → Job → Bool
allowed_in m jobs w =
    (decide (policy_of m.settings) m.sample m.controller jobs
      (record { memory_kb = num w.memory_kb; resource = w.resource })).allow

-- The registry after `n` rounds in which `admissible` renews the reservations of running jobs.
abbrev pub rounds : Moment → ℕ → List Job → List Job
rounds m zero jobs = jobs
rounds m (suc n) jobs = rounds m n (map (refresh_reservation m) jobs)

-- A waiter with the identifier `i` was allowed after some such rounds, at least one.
abbrev pub Allowed : Moment → List Job → List Job → String → Type 0
Allowed m jobs ws i =
    (w : Job) × Mem w ws × (w.id ≡ i) × ((n : ℕ) × (allowed_in m (rounds m (suc n) jobs) w ≡ true))

Allowed-cons :
    (m : Moment) (jobs : List Job) (w : Job) (ws : List Job) (i : String)
    → Allowed m (map (refresh_reservation m) jobs) ws i
    → Allowed m jobs (w ∷ ws) i
Allowed-cons m jobs w ws i (v, k, e, (n, a)) = (v, mem-cons_of_mem w k, e, (suc n, a))

Allowed-here :
    (m : Moment) (jobs : List Job) (w : Job) (ws : List Job) (i : String)
    → str_eq w.id i ≡ true
    → allowed_in m (map (refresh_reservation m) jobs) w ≡ true
    → Allowed m jobs (w ∷ ws) i
Allowed-here m jobs w ws i e a = (w, mem-cons_self, (eq_iff w.id i).0 e, (0, a))

-- An entry of `fitting` that says yes was there before, or an admission of a waiter put it there.
pub fit_all_sound :
    (m : Moment) (jobs ws : List Job) (fitting : Dict String Bool) (i : String)
    → get_or false i (fit_all m jobs ws fitting).1 ≡ true
    → (get_or false i fitting ≡ true) ⊎ Allowed m jobs ws i
unfolding fit_all admissible
fit_all_sound m jobs [] fitting i h = inl h
fit_all_sound m jobs (w ∷ ws) fitting i h =
    elim (fit_all_sound m (map (refresh_reservation m) jobs) ws (put w.id allow fitting) i h) [
      | inl there ↦
          let now = rw get_or-put at there in
          elim (Bool-cases (str_eq w.id i)) [
            | inl same ↦ inr (Allowed-here m jobs w ws i same (rw same at now))
            | inr other ↦ inl (rw other at now)
          ]
      | inr later ↦ inr (Allowed-cons m jobs w ws i later)
    ]
  where
    allow : Bool
    allow = allowed_in m (map (refresh_reservation m) jobs) w

-- A waiter with the identifier `i` was refused after some such rounds, at least one.
abbrev pub Refused : Moment → List Job → List Job → String → Type 0
Refused m jobs ws i =
    (w : Job) × Mem w ws × (w.id ≡ i) × ((n : ℕ) × (allowed_in m (rounds m (suc n) jobs) w ≡ false))

Refused-cons :
    (m : Moment) (jobs : List Job) (w : Job) (ws : List Job) (i : String)
    → Refused m (map (refresh_reservation m) jobs) ws i
    → Refused m jobs (w ∷ ws) i
Refused-cons m jobs w ws i (v, k, e, (n, a)) = (v, mem-cons_of_mem w k, e, (suc n, a))

Refused-here :
    (m : Moment) (jobs : List Job) (w : Job) (ws : List Job) (i : String)
    → str_eq w.id i ≡ true
    → allowed_in m (map (refresh_reservation m) jobs) w ≡ false
    → Refused m jobs (w ∷ ws) i
Refused-here m jobs w ws i e a = (w, mem-cons_self, (eq_iff w.id i).0 e, (0, a))

-- Where the entry says no, a waiter with the identifier was refused, or there is none.
fit_all-Refused :
    (m : Moment) (jobs ws : List Job) (fitting : Dict String Bool) (i : String)
    → get_or false i (fit_all m jobs ws fitting).1 ≡ false
    → Refused m jobs ws i ⊎ (get_or false i fitting ≡ false) × All (λ w. str_eq w.id i ≡ false) ws
unfolding fit_all admissible
fit_all-Refused m jobs [] fitting i h = inr (h, tt)
fit_all-Refused m jobs (w ∷ ws) fitting i h =
    elim (fit_all-Refused m (map (refresh_reservation m) jobs) ws (put w.id allow fitting) i h) [
      | inl later ↦ inl (Refused-cons m jobs w ws i later)
      | inr (there, others) ↦
          let now = rw get_or-put at there in
          elim (Bool-cases (str_eq w.id i)) [
            | inl same ↦ inl (Refused-here m jobs w ws i same (rw same at now))
            | inr other ↦ inr (rw other at now, (other, others))
          ]
    ]
  where
    allow : Bool
    allow = allowed_in m (map (refresh_reservation m) jobs) w

-- A waiter whose entry says no: one with its identifier was refused.
pub Refused-Mem :
    (m : Moment) (jobs ws : List Job) (j : Job)
    → Mem j ws
    → get_or false j.id (fit_all m jobs ws []).1 ≡ false
    → Refused m jobs ws j.id
Refused-Mem m jobs ws j n h = elim (fit_all-Refused m jobs ws [] j.id h) [
  | inl refused ↦ refused
  | inr (nothing, others) ↦ absurd (unlisted ws n others)
]
  where
    unlisted : (vs : List Job) → Mem j vs → All (λ w. str_eq w.id j.id ≡ false) vs → ⊥
    unlisted [] n o = not-mem-nil n
    unlisted (v ∷ vs) n (o, os) =
        Or.elim (hlevel) (eq-or-mem_of_mem-cons n)
          (λ e. ground (arith, o, (eq_iff v.id j.id).1 (ap (λ w. w.id) (sym e))))
          (λ rest. unlisted vs rest os)
