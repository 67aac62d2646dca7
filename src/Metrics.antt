-- ===== src/Metrics.antt =====
-- libexec/scheduler_metrics.py and libexec/job_timing.py: what is counted about jobs and samples.
pub mod Blocked
pub mod Handoff
pub mod Phases
use memcap.Prelude.{
  ℕ, suc, ◌+◌, ◌-◌, ◌*◌, ◌/◌, String, Bool, false, not, ◌&&◌, ◌||◌, Option, none, some, List, [],
  ◌∷◌, if◌then◌else◌, keep, leb, ltb, ◌==◌, Dict, lookup, put, string_eq, str_eq,
}
use memcap.Values.{Field, num, number, amount}
use memcap.Sample.{Sample}
use memcap.Admission.Advance.{faulty}
use memcap.Processes.{Try, ok, raised}

-- `BLOCKERS`
abbrev pub blockers : List String
blockers =
    "unknown" ∷ "budget" ∷ "headroom" ∷ "slots" ∷ "pressure_or_measurement" ∷ "measurement"
    ∷ "fairness" ∷ "startup" ∷ "stabilizing" ∷ "paging" ∷ "sampling" ∷ []

abbrev pub is_one_of : String → List String → Bool
is_one_of s [] = false
is_one_of s (t ∷ ts) = str_eq s t || is_one_of s ts

unfoldable pub is_blocker : String → Bool
is_blocker reason = is_one_of reason blockers

-- The fields of a job that `account_blocker` keeps. `blocker_clock` is `none` for a value that is no
-- pair of a text and a number, `blocked_ms` is `none` for one that is no dictionary.
pub record Clock : Type 0 where
  pub blocker_clock : Option (String × ℕ)
  pub blocked_ms : Option (Dict String Field)

-- `totals.get(reason, 0)` where it is a number, and 0 where it is not
abbrev pub total_of : String → Dict String Field → ℕ
total_of reason totals = elim (lookup reason totals) [ none ↦ 0 | some f ↦ amount f ]

abbrev pub totals_of : Option (Dict String Field) → Dict String Field
totals_of none = []
totals_of (some totals) = totals

-- The time since the last decision, for the reason that was given then: `int((now - since) * 1000)`
-- drops the fraction of a millisecond. Clocks are microseconds, totals are milliseconds.
unfoldable pub attribute :
    Option (String × ℕ) → ℕ → Option (Dict String Field) → Option (Dict String Field)
unfolding is_blocker
attribute none now blocked = blocked
attribute (some (reason, since)) now blocked =
    if is_blocker reason && leb since now
    then some (
        put reason (num (total_of reason (totals_of blocked) + (now - since) / 1000))
          (totals_of blocked))
    else blocked

-- `account_blocker(job, reason, now)`
unfoldable pub account_blocker : Clock → String → ℕ → Clock
unfolding attribute is_blocker
account_blocker c reason now = record {
  blocker_clock = if is_blocker reason then some (reason, now) else none;
  blocked_ms = attribute c.blocker_clock now c.blocked_ms;
}

-- `blocker_fields(job)`, by reason
unfoldable pub blocker_fields : Clock → Dict String Field
unfolding is_blocker
blocker_fields c = keep (λ e. is_blocker e.0 && number e.1) (totals_of c.blocked_ms)

-- The result of `Popen.wait`: an exit code, or minus the signal that ended the process.
pub data ℤ : Type 0 where
  pos negsuc : ℕ → ℤ

pub record Completion : Type 0 where
  pub exit_code : ℕ
  pub signal : ℕ
  pub completion_kind : ℕ

-- `completion_fields(result, cancelled)`
unfoldable pub completion_fields : ℤ → Bool → Completion
completion_fields (pos n) cancelled = record {
  exit_code = n;
  signal = 0;
  completion_kind = if cancelled then 3 else 1;
}
completion_fields (negsuc n) cancelled = record {
  exit_code = 128 + suc n;
  signal = suc n;
  completion_kind = if cancelled then 3 else 2;
}

-- A snapshot of the counters of `vm_stat`; `invalid` for a value that is no number.
pub record Counters : Type 0 where
  pub boot_id : Option String
  pub page_bytes : Field
  pub monotonic : Field
  pub counter : Field

-- `not previous["boot_id"] or previous["boot_id"] != current["boot_id"]` fails.
abbrev pub same_boot : Option String → Option String → Bool
same_boot none b = false
same_boot (some a) none = false
same_boot (some a) (some b) = not (str_eq a "") && str_eq a b

-- `rate(previous, current, counter)` in KiB per second, as a numerator and a denominator. Equal sizes
-- of a page are tested as numbers only: both have to be the number that the current snapshot has.
unfoldable pub rate : Counters → Counters → Option (ℕ × ℕ)
unfolding number amount
rate previous current =
    let elapsed = amount current.monotonic - amount previous.monotonic in
    let delta = amount current.counter - amount previous.counter in
    let page = amount current.page_bytes in
    if not (same_boot previous.boot_id current.boot_id)
    then none
    else if not (
        number previous.page_bytes
        && number current.page_bytes
        && amount previous.page_bytes == page)
    then none
    else if not (
        number previous.monotonic
        && number current.monotonic
        && number previous.counter
        && number current.counter)
    then none
    else if leb (amount current.monotonic) (amount previous.monotonic)
    then none
    else if ltb (amount current.counter) (amount previous.counter)
    then none
    else if page == 4096 || page == 16384
    then some (delta * page * 1000, 1024 * elapsed)
    else none

-- `sample.json`: the key and the sample with the time that it holds.
pub record Cached : Type 0 where
  pub key : Option String
  pub sample : Sample

abbrev pub same_key : Option String → String → Bool
same_key none key = false
same_key (some k) key = str_eq k key

-- The published sample replaces the held one.
unfoldable pub adopts : Cached → String → Sample → ℕ → Bool
unfolding number amount faulty
adopts c key held mono =
    let stamp = amount c.sample.monotonic in
    same_key c.key key
    && number c.sample.monotonic
    && leb stamp mono
    && ltb (mono - stamp) 2000
    && (not (faulty held.fault) || held.busy)
    && (held.busy || not (number held.monotonic) || ltb (amount held.monotonic) stamp)

-- `newer_cached_sample(directory, key, held)`, less the counts of the sampling. The file may be
-- unreadable.
unfoldable pub newer_cached_sample : Try Cached → String → Sample → ℕ → Sample
unfolding adopts
newer_cached_sample raised key held mono = held
newer_cached_sample (ok c) key held mono = if adopts c key held mono then c.sample else held

-- The fields of `phase_fields` of libexec/job_timing.py.
pub record PhaseFields : Type 0 where
  pub awake_ms : Option ℕ
  pub elapsed_ms : Option ℕ
  pub sleep_ms : Option ℕ

abbrev pub no_fields : PhaseFields
no_fields = record { awake_ms = none; elapsed_ms = none; sleep_ms = none }

-- `phase_fields(job, phase)` from the two starts of the phase and the two clocks at its end; a start
-- that is missing or no number is `none`. The clocks are microseconds, and `int(... * 1000)` drops the
-- fraction of a millisecond; a hundredth of a second is the skew.
unfoldable pub phase_fields : Option ℕ → Option ℕ → ℕ → Option ℕ → PhaseFields
phase_fields none elapsed_start awake_end elapsed_end = no_fields
phase_fields (some a) none awake_end elapsed_end =
    if ltb awake_end a
    then no_fields
    else record no_fields { awake_ms = some ((awake_end - a) / 1000) }
phase_fields (some a) (some e) awake_end none =
    if ltb awake_end a
    then no_fields
    else record no_fields { awake_ms = some ((awake_end - a) / 1000) }
phase_fields (some a) (some e) awake_end (some f) =
    let awake = awake_end - a in
    let elapsed = f - e in
    if ltb awake_end a
    then no_fields
    else if ltb f e || ltb (elapsed + 10000) awake
    then record no_fields { awake_ms = some (awake / 1000) }
    else record {
      awake_ms = some (awake / 1000);
      elapsed_ms = some (elapsed / 1000);
      sleep_ms = some ((elapsed - awake) / 1000);
    }
