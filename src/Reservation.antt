-- ===== src/Reservation.antt =====
-- `Scheduler.reservation` of libexec/scheduler.py: how much memory a running job keeps reserved.
pub mod Window
pub mod Floors
use memcap.Prelude.{
  ℕ, ◌+◌, ◌-◌, ◌*◌, ◌/◌, max, Bool, true, false, not, ◌&&◌, ◌||◌, Option, none, some, List, [], ◌∷◌,
  ◌++◌, ltb, leb, if◌then◌else◌, keep, all, last_n, has, nat_eq, keys, Dict,
}
use memcap.Values.{Field, num, field_or, amount}
use memcap.Registry.{Job, footprint_members}
use memcap.Sample.{Sample}
use memcap.Admission.{gib, second, time_or}
use memcap.Admission.Advance.{faulty}

-- `int(peak * 1.25)`
abbrev pub quarter_more : ℕ → ℕ
quarter_more peak = peak * 5 / 4

abbrev pub Window : Type 0
Window = List (ℕ × ℕ)

-- `sample.get("footprints", {})`
abbrev pub footprints_of : Option (Dict ℕ Field) → Dict ℕ Field
footprints_of none = []
footprints_of (some d) = d

-- `all(p in sample.get("footprints", {}) for p in footprint_members(job))`
unfoldable pub is_complete : Job → Sample → Bool
is_complete j s = all (λ p. has p (footprints_of s.footprints)) (keys (footprint_members j))

abbrev pub nonempty {ℓ} : {A : Type ℓ} → List A → Bool
nonempty [] = false
nonempty (x ∷ xs) = true

-- `job.get("orphaned") and not job.get("recovery_active")`
abbrev pub is_uncertain : Job → Bool
is_uncertain j = j.orphaned && not j.recovery_active

-- The established allowance: `job.get("reservation_kb", job["memory_kb"])`.
abbrev pub established : Job → ℕ
established j = amount (field_or j.memory_kb j.reservation_kb)

-- The first adjustment of `reserve`.
unfoldable pub floor_reserve : Job → Bool → ℕ
floor_reserve j adaptive =
    if not adaptive || not j.elastic || is_uncertain j
    then max j.memory_kb (established j)
    else established j

-- The peak that admission has to cover, carried over gaps in the observation.
unfoldable pub carried_peak : Job → ℕ → Bool → Option ℕ
unfolding floor_reserve
carried_peak j measured adaptive =
    if adaptive && j.elastic
    then (elim j.admission_peak_kb [
      | none ↦ none
      | some a ↦ some (max (max a measured) ((floor_reserve j adaptive * 4 + 4) / 5))
    ])
    else none

-- The last row of a window, if there is one.
unfoldable pub last_row : Window → Option (ℕ × ℕ)
last_row [] = none
last_row (r ∷ rs) = elim (last_row rs) [ none ↦ some r | some q ↦ some q ]

-- `history[-1][1] = max(history[-1][1], measured)`
unfoldable pub raise_last : Window → ℕ → Window
raise_last [] m = []
raise_last ((t, p) ∷ []) m = (t, max p m) ∷ []
raise_last (r ∷ q ∷ rs) m = r ∷ raise_last (q ∷ rs) m

-- `abs(a - b)`
abbrev pub distance : ℕ → ℕ → ℕ
distance a b = (a - b) + (b - a)

-- The window and the time since which it runs, with the new point.
unfoldable pub add_point : Window → Option ℕ → ℕ → ℕ → ℕ → Window × Option ℕ
unfolding last_row raise_last
add_point history since stamp peak measured = elim (last_row history) [
  | none ↦ ((stamp, peak) ∷ [], some stamp)
  | some (t, p) ↦
      if ltb (5 * second) (distance stamp t)
      then ((stamp, peak) ∷ [], some stamp)
      else if ltb t stamp
      then (history ++ (stamp, measured) ∷ [], since)
      else (raise_last history measured, since)
]

-- `[row for row in history if row[0] >= stamp - 60][-128:]`
unfoldable pub trim : ℕ → Window → Window
trim stamp history = last_n 128 (keep (λ r. leb (stamp - 60 * second) r.0) history)

-- `max(row[1] for row in history)`
unfoldable pub window_peak : Window → ℕ
window_peak [] = 0
window_peak (r ∷ rs) = max r.1 (window_peak rs)

-- `stamp - job.get("reservation_window_since", stamp) > 60`
abbrev pub covers_minute : ℕ → Option ℕ → Bool
covers_minute stamp since = ltb (60 * second) (stamp - time_or stamp since)

-- Fresh and complete: the point joins the window, and a full minute of it replaces the peak.
unfoldable pub windowed : Job → ℕ → ℕ → ℕ → Job × ℕ
windowed j stamp peak measured =
    let (history, since) =
      add_point j.reservation_window j.reservation_window_since stamp peak measured in
    let kept = trim stamp history in
    let job = record j {
      reservation_window = kept;
      reservation_window_since = since;
      reservation_source = 2;
    } in
    if covers_minute stamp since
    then (record job { admission_peak_kb = some (window_peak kept) }, window_peak kept)
    else (job, peak)

-- The new reserve from a peak: startup keeps what was there, thirty seconds later only the peak
-- counts.
unfoldable pub settle : Job → ℕ → ℕ → ℕ → ℕ
settle j wall reserve peak =
    if leb (30 * second) (wall - time_or wall j.started)
    then max (gib / 2) (quarter_more peak)
    else max reserve (quarter_more peak)

-- `job.pop("reservation_window", None)`
abbrev pub drop_window : Job → Job
drop_window j = record j { reservation_window = [] }

abbrev pub peak_or : ℕ → ℕ → Option ℕ → ℕ
peak_or measured lifetime none = lifetime
peak_or measured lifetime (some a) = max measured a

abbrev pub with_carried : Job → Option ℕ → Job
with_carried j none = j
with_carried j (some a) = record j { admission_peak_kb = some a }

-- `0 <= time.monotonic() - stamp <= 2`
abbrev pub is_fresh : ℕ → ℕ → Bool
is_fresh mono stamp = leb stamp mono && leb (mono - stamp) (2 * second)

-- The branch of a complete measurement.
unfoldable pub reserve_complete : Job → Sample → ℕ → Bool → ℕ → ℕ → Job × ℕ
unfolding floor_reserve carried_peak windowed settle
reserve_complete j s measured adaptive mono wall =
    let lifetime = max measured (amount (field_or 0 j.observed_peak_kb)) in
    let carried = carried_peak j measured adaptive in
    let job = record (with_carried j carried) { observed_peak_kb = num lifetime } in
    let peak = peak_or measured lifetime carried in
    let stamp = amount (field_or 0 s.monotonic) in
    let reserve = floor_reserve j adaptive in
    if adaptive && is_fresh mono stamp
    then (let (job', peak') = windowed job stamp peak measured in
        (job', max (settle job wall reserve peak') measured))
    else if adaptive
    then (record job { reservation_source = 1 }, max (established j) (quarter_more measured))
    else (
      record (drop_window job) { reservation_source = 1 },
      max (settle job wall reserve peak) measured,
    )

-- The branch of an explicit request or an incomplete measurement: retain.
unfoldable pub reserve_retained : Job → Sample → ℕ → Bool → Job × ℕ
unfolding floor_reserve carried_peak
reserve_retained j s measured adaptive =
    let job = with_carried j (carried_peak j measured adaptive) in
    (
      record (if s.busy then job else drop_window job) { reservation_source = 3 },
      max (floor_reserve j adaptive) measured,
    )

-- Whether the measurement may adjust the reservation.
unfoldable pub may_adjust : Job → Sample → Bool
unfolding is_complete
may_adjust j s =
    j.elastic
    && not (is_uncertain j)
    && nonempty (footprint_members j)
    && not (faulty s.fault)
    && is_complete j s

-- `reservation(job, sample, measured, adaptive)`: the job with its updated window, and the reserve.
-- `mono` is `time.monotonic()` and `wall` is `time.time()`.
unfoldable pub reservation : Job → Sample → ℕ → Bool → ℕ → ℕ → Job × ℕ
unfolding may_adjust reserve_complete reserve_retained
reservation j s measured adaptive mono wall =
    if may_adjust j s
    then reserve_complete j s measured adaptive mono wall
    else reserve_retained j s measured adaptive
