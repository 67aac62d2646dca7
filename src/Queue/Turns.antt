-- ===== src/Queue/Turns.antt =====
-- `Scheduler.record_turn` of libexec/scheduler.py: the rotation history and the run of small jobs.
pub mod Rotation
use memcap.Prelude.{
  ℕ, zero, suc, ◌+◌, min, max, String, Bool, true, false, ◌||◌, Option, none, some, List, [], ◌∷◌,
  map, ltb, leb, if◌then◌else◌, keep, Dict, put, lookup, string_eq, keys,
}
use memcap.Values.{Field, num, amount}
use memcap.Registry.{Job}
use memcap.Lanes.{lane, is_heavy}
use memcap.Queue.{session_bucket, has_text}
use memcap.Queue.Waiters.{Turns, small_burst}

-- The parts of the registry that `record_turn` reads and writes; `small_streak` is `missing` where
-- the registry has no such key.
pub record History : Type 0 where
  pub jobs : List Job
  pub small_streak : Field
  pub session_turns : Turns

-- `max(turns.values(), default=0)`
unfoldable pub max_turn : Turns → ℕ
max_turn [] = 0
max_turn ((k, v) ∷ d) = max v (max_turn d)

-- `sorted(turns, key=turns.get, reverse=True)`, which keeps the order of equal turns
unfoldable pub insert_latest : String × ℕ → Turns → Turns
insert_latest (k, v) [] = (k, v) ∷ []
insert_latest (k, v) ((j, w) ∷ d) =
    let rest = insert_latest (k, v) d in if leb w v then (k, v) ∷ (j, w) ∷ d else (j, w) ∷ rest

unfoldable pub latest_first : Turns → Turns
unfolding insert_latest
latest_first [] = []
latest_first (e ∷ d) = insert_latest e (latest_first d)

abbrev pub take {ℓ} : {A : Type ℓ} → ℕ → List A → List A
take zero xs = []
take (suc n) [] = []
take (suc n) (x ∷ xs) = x ∷ take n xs

-- `set(sorted(...)[:128])`
unfoldable pub recent : Turns → List String
unfolding latest_first
recent turns = keys (take 128 (latest_first turns))

-- `{self.session_bucket(j) for j in data["jobs"]}`
abbrev pub present : List Job → List String
present jobs = map session_bucket jobs

-- `{k: v for k, v in turns.items() if k in present or k in recent}`
unfoldable pub retain : List String → List String → Turns → Turns
retain here late turns = keep (λ e. has_text e.0 here || has_text e.0 late) turns

-- `turns[bucket] = max(turns.values(), default=0) + 1`
unfoldable pub take_turn : String → Turns → Turns
unfolding max_turn
take_turn bucket turns = put bucket (max_turn turns + 1) turns

-- The next length of the run of small jobs.
unfoldable pub next_streak : Job → Field → ℕ
next_streak j streak = if is_heavy (lane j) then 0 else min small_burst (amount streak + 1)

-- `record_turn(data, job)`
unfoldable pub record_turn : History → Job → History
unfolding take_turn retain recent next_streak
record_turn h j =
    let turns = take_turn (session_bucket j) h.session_turns in
    record h {
      small_streak = num (next_streak j h.small_streak);
      session_turns = retain (present h.jobs) (recent turns) turns;
    }
