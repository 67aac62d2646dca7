-- ===== src/Admission/Advance.antt =====
-- `advance` of libexec/admission.py: the paging and recovery state between samples.
use memcap.Prelude.{
  ℕ, ◌+◌, ◌-◌, ◌*◌, String, Bool, true, false, ◌&&◌, ◌||◌, Option, none, some, leb, ◌==◌, str_eq,
  if◌then◌else◌,
}
use memcap.Values.{Field, missing, invalid, num, field_or}
use memcap.Sample.{Sample}

-- Times are milliseconds; `none` where the controller has no such key.
pub record Controller : Type 0 where
  pub now : Field
  pub last_sample : Field
  pub boot_id : Option String
  pub healthy_since : Option ℕ
  pub cooldown_until : Option ℕ
  pub paging_since : Option ℕ
  pub last_start : Option ℕ

-- `sample.get("boot_id") == state.get("boot_id")`
unfoldable pub same_boot : Option String → Option String → Bool
same_boot none none = true
same_boot none (some b) = false
same_boot (some a) none = false
same_boot (some a) (some b) = str_eq a b

-- `number(stamp) and number(previous) and stamp <= previous`
unfoldable pub not_newer : Field → Field → Bool
not_newer (num a) (num b) = leb a b
not_newer _ _ = false

-- `sample.get("fault")`
unfoldable pub faulty : Option Bool → Bool
faulty none = false
faulty (some b) = b

-- `sample.get("pressure") in (1, 2)`
unfoldable pub known_pressure : Option ℕ → Bool
known_pressure none = false
known_pressure (some p) = p == 1 || p == 2

unfoldable pub is_pressure_2 : Option ℕ → Bool
is_pressure_2 none = false
is_pressure_2 (some p) = p == 2

-- `number(paging) and paging >= 128 * 1024`
unfoldable pub heavy_paging : Field → Bool
heavy_paging missing = false
heavy_paging invalid = false
heavy_paging (num n) = leb (128 * 1024) n

-- `state.setdefault(key, now)`
unfoldable pub set_default : ℕ → Option ℕ → ℕ
set_default now none = now
set_default now (some t) = t

-- A different boot drops everything that was remembered.
unfoldable pub rebooted : Controller → Sample → ℕ → Controller
unfolding same_boot
rebooted c s now = if same_boot s.boot_id c.boot_id then record c { now = num now } else record {
  now = num now;
  last_sample = missing;
  boot_id = s.boot_id;
  healthy_since = some now;
  cooldown_until = none;
  paging_since = none;
  last_start = none;
}

-- `if sample.get("fault") or sample.get("pressure") not in (1, 2)`
unfoldable pub note_health : Controller → Sample → ℕ → Controller
unfolding faulty known_pressure set_default
note_health c s now =
    if faulty s.fault || (if known_pressure s.pressure then false else true)
    then record c { healthy_since = some now; cooldown_until = some (now + 6000) }
    else record c { healthy_since = some (set_default now c.healthy_since) }

-- Sustained swap-out under pressure.
unfoldable pub note_paging : Controller → Sample → ℕ → Controller
unfolding is_pressure_2 heavy_paging set_default
note_paging c s now =
    if is_pressure_2 s.pressure && heavy_paging s.swap_out_kbps
    then (let since = set_default now c.paging_since in
        if leb 10000 (now - since)
        then record c { paging_since = some since; cooldown_until = some (now + 6000) }
        else record c { paging_since = some since })
    else record c { paging_since = none }

-- `advance(controller, sample, now)`
unfoldable pub advance : Controller → Sample → ℕ → Controller
unfolding same_boot not_newer rebooted note_health note_paging field_or
advance c s now =
    let stamp = field_or now s.monotonic in
    if same_boot s.boot_id c.boot_id && not_newer stamp c.last_sample
    then record c { now = num now }
    else note_paging (note_health (record (rebooted c s now) { last_sample = stamp }) s now) s now
