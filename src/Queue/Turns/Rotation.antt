-- ===== src/Queue/Turns/Rotation.antt =====
-- After `record_turn` (libexec/scheduler.py) the session that started a job is last in the rotation.
use mathlib.Core.List.{Mem, not-mem-nil, eq-or-mem_of_mem-cons}
use mathlib.Core.Logic.Or
use memcap.Prelude.{
  ◌+◌, ◌≤◌, ◌<◌, String, true, false, ◌||◌, ◌≡◌, ◌≢◌, inl, inr, sym, ap, none, List, [], ◌∷◌, arith,
  keep, any, lookup, get_or-put, get_or, string_eq, eq_iff, str_eq, Bool-cases, if◌then◌else◌,
}
use memcap.Values.{amount}
use memcap.Registry.{Job}
use memcap.Lanes.{lane, is_heavy}
use memcap.Queue.{session_bucket, has_text}
use memcap.Queue.Waiters.{Turns, turn_of, small_burst}
use memcap.Queue.Turns.{History, max_turn, recent, present, retain, take_turn, record_turn}

-- Every turn that is on record is at most the largest.
get_or-le-max_turn : (k : String) (d : Turns) → get_or 0 k d ≤ max_turn d
unfolding get_or lookup max_turn
get_or-le-max_turn k [] = omega arith
get_or-le-max_turn k ((j, v) ∷ d) = ground (arith, get_or-le-max_turn k d)

-- Retaining a subset of the keys changes no turn that stays.
lookup-retain :
    (here late : List String) (k : String) (d : Turns)
    → lookup k (retain here late d)
      ≡ (if has_text k here || has_text k late then lookup k d else none)
unfolding lookup retain keep
lookup-retain here late k [] = ground arith
lookup-retain here late k ((j, v) ∷ d) = elim (Bool-cases (str_eq j k)) [
  | inl same ↦ rw ((eq_iff j k).0 same) (ground (arith, lookup-retain here late k d, eq_iff k k))
  | inr other ↦ ground (arith, lookup-retain here late k d)
]

get_or-retain :
    (here late : List String) (k : String) (d : Turns)
    → get_or 0 k (retain here late d)
      ≡ (if has_text k here || has_text k late then get_or 0 k d else 0)
unfolding get_or
get_or-retain here late k d = ground (arith, lookup-retain here late k d)

different : (s t : String) → s ≢ t → str_eq s t ≡ false
different s t ne = elim (Bool-cases (str_eq s t)) [
  | inl same ↦ absurd (ne ((eq_iff s t).0 same))
  | inr other ↦ other
]

bucket-Mem :
    (j : Job) (jobs : List Job) → Mem j jobs → has_text (session_bucket j) (present jobs) ≡ true
unfolding has_text any
bucket-Mem j [] m = absurd (not-mem-nil m)
bucket-Mem j (k ∷ jobs) m =
    Or.elim (hlevel) (eq-or-mem_of_mem-cons m)
      (λ e. ground (arith, eq_iff (session_bucket k) (session_bucket j), ap session_bucket (sym e)))
      (λ rest. ground (arith, bucket-Mem j jobs rest))

module _ (h : History) (j : Job) where
  abbrev pub after : Turns
  after = (record_turn h j).session_turns

  turn-after :
      (k : String)
      → get_or 0 k after ≡ (
          if has_text k (present h.jobs)
            || has_text k (recent (take_turn (session_bucket j) h.session_turns))
          then (if str_eq (session_bucket j) k
              then max_turn h.session_turns + 1
              else get_or 0 k h.session_turns)
          else 0)
  unfolding record_turn take_turn
  turn-after k =
      rw
        (get_or-retain (present h.jobs) (recent (take_turn (session_bucket j) h.session_turns)) k
          (take_turn (session_bucket j) h.session_turns))
        (rw get_or-put)

  own_turn : Mem j h.jobs → get_or 0 (session_bucket j) after ≡ max_turn h.session_turns + 1
  own_turn m = ground (
    arith,
    turn-after (session_bucket j),
    bucket-Mem j h.jobs m,
    eq_iff (session_bucket j) (session_bucket j),
  )

  -- When a registered job starts, its session gets a turn behind that of every other session, and
  -- every other session that is in the registry keeps its turn.
  pub record_turn-last :
      Mem j h.jobs
      → (w : Job) → session_bucket w ≢ session_bucket j
      → (turn_of after w < turn_of after j)
        × (Mem w h.jobs → turn_of after w ≡ turn_of h.session_turns w)
  unfolding turn_of
  record_turn-last m w ne =
      let other = different (session_bucket j) (session_bucket w) (λ e. ne (sym e)) in
      (
        ground (
          arith,
          other,
          own_turn m,
          turn-after (session_bucket w),
          get_or-le-max_turn (session_bucket w) h.session_turns,
        ),
        λ n. ground (arith, other, turn-after (session_bucket w), bucket-Mem w h.jobs n),
      )

  -- The run of small jobs is at most three long, ends with a heavy job, and grows by one with a small
  -- job while it is shorter.
  pub record_turn-streak :
      (amount (record_turn h j).small_streak ≤ small_burst)
      × (is_heavy (lane j) ≡ true → amount (record_turn h j).small_streak ≡ 0)
      × (is_heavy (lane j) ≡ false
          → amount h.small_streak < small_burst
          → amount (record_turn h j).small_streak ≡ amount h.small_streak + 1)
  unfolding record_turn
  record_turn-streak = unfold amount in ground arith
