-- ===== src/CompilerProfiles.antt =====
-- libexec/compiler_profiles.py: predictions for compiler calls across edits (`predict` and
-- `record_profile`).
pub mod Bounds
use memcap.Prelude.{
  ℕ, zero, suc, ◌+◌, ◌-◌, ◌*◌, ◌/◌, min, max, String, Bool, true, false, not, ◌&&◌, ◌||◌, Option,
  none, some, List, [], ◌∷◌, ◌++◌, if◌then◌else◌, keep, last_n, length, leb, ltb, Dict, lookup,
  remove, string_eq, str_eq,
}

-- `GIB`
abbrev pub gib : ℕ
gib = 1048576

-- The digests of the four parts of a compiler's context; `none` for a missing one.
pub record Components : Type 0 where
  pub workers : Option String
  pub tool : Option String
  pub config : Option String
  pub env : Option String

pub record Profile : Type 0 where
  pub key : String
  pub family_key : Option String
  pub components : Option Components
  pub source_bytes : ℕ
  pub source_files : ℕ

pub record ProfileSample : Type 0 where
  pub peak_kb : ℕ
  pub at : ℕ
  pub source_bytes : ℕ
  pub source_files : ℕ

pub record ProfileRow : Type 0 where
  pub family_key : Option String
  pub components : Option Components
  pub samples : List ProfileSample
  pub partial_floor_kb : ℕ
  pub partial_at : Option ℕ

abbrev pub History : Type 0
History = Dict String ProfileRow

abbrev pub empty_row : ProfileRow
empty_row = record {
  family_key = none;
  components = none;
  samples = [];
  partial_floor_kb = 0;
  partial_at = none;
}

-- `MAX_AGE`, in milliseconds
abbrev pub max_age : ℕ
max_age = 604800000

-- `math.ceil(peak * 1.5)`
abbrev pub half_more : ℕ → ℕ
half_more peak = (peak * 3 + 1) / 2

-- `[s for s in samples if 0 <= now - s["at"] <= MAX_AGE]`
unfoldable pub recent : ℕ → List ProfileSample → List ProfileSample
recent now samples = keep (λ s. leb s.at now && leb (now - s.at) max_age) samples

-- `max(s["peak_kb"] for s in samples)`
unfoldable pub largest_peak : List ProfileSample → ℕ
largest_peak [] = 0
largest_peak (s ∷ ss) = max s.peak_kb (largest_peak ss)

-- `min(f(s) for s in samples)`, of at least one sample
unfoldable pub least : (ProfileSample → ℕ) → List ProfileSample → ℕ
least f [] = 0
least f (s ∷ []) = f s
least f (s ∷ t ∷ ss) = min (f s) (least f (t ∷ ss))

abbrev pub is_after : Option ℕ → ProfileSample → Bool
is_after none s = false
is_after (some t) s = ltb t s.at

-- The partial floor, which three later complete runs lift.
unfoldable pub floor_of : ProfileRow → List ProfileSample → ℕ
floor_of row samples =
    if leb 3 (length (keep (is_after row.partial_at) samples)) then 0 else row.partial_floor_kb

abbrev pub same_text : Option String → Option String → Bool
same_text none none = true
same_text (some a) (some b) = str_eq a b
same_text _ _ = false

-- The first part of the context that changed.
unfoldable pub changed_part : Components → Components → Option ℕ
changed_part old new =
    if not (same_text old.workers new.workers)
    then some 6
    else if not (same_text old.tool new.tool)
    then some 7
    else if not (same_text old.config new.config)
    then some 8
    else if not (same_text old.env new.env)
    then some 9
    else none

abbrev pub no_components : Components
no_components = record { workers = none; tool = none; config = none; env = none }

abbrev pub components_or : Option Components → Components
components_or none = no_components
components_or (some c) = c

-- `next((r for r in reversed(history.values()) if ...), None)`: the last row of the family.
unfoldable pub last_of_family : Option String → History → Option Components
last_of_family family [] = none
last_of_family family ((k, row) ∷ rest) = elim (last_of_family family rest) [
  | some c ↦ some c
  | none ↦ if same_text row.family_key family then row.components else none
]

-- `predict` for a key without a row: the prior, with the code of what changed.
unfoldable pub predict_cold : History → Profile → ℕ → ℕ × ℕ
unfolding last_of_family changed_part
predict_cold history p prior = elim (last_of_family p.family_key history) [
  | none ↦ (prior, 2)
  | some old ↦ elim (changed_part old (components_or p.components)) [
    | none ↦ (prior, 2)
    | some code ↦ (prior, code)
  ]
]

-- `x > minimum * 1.2`
abbrev pub has_grown : ℕ → ℕ → Bool
has_grown x minimum = ltb (minimum * 12) (x * 10)

-- `math.ceil(peak * 1.5 * growth)` with the growth `max(1, a / max(1, b), c / max(1, d))`. The
-- largest of the three products is the product with the largest factor.
abbrev pub ceil_div : ℕ → ℕ → ℕ
ceil_div a zero = 0
ceil_div a (suc b) = (a + b) / suc b

unfoldable pub grown_peak : ℕ → Profile → ℕ → ℕ → ℕ
grown_peak peak p bytes files = max (half_more peak) (
    max (ceil_div (peak * 3 * p.source_bytes) (2 * max 1 bytes))
      (ceil_div (peak * 3 * p.source_files) (2 * max 1 files)))

-- `predict` for a key with a row
unfoldable pub predict_row : ProfileRow → Profile → ℕ → ℕ → ℕ × ℕ
unfolding recent floor_of largest_peak least grown_peak
predict_row row p prior now =
    let samples = recent now row.samples in
    let floor = floor_of row samples in
    let raised = max prior floor in
    if ltb (length samples) 3
    then (raised, if leb 3 (length row.samples) then 4 else 3)
    else let peak = largest_peak samples in
      let target = max (max (gib / 2) (half_more peak)) floor in
      let bytes = least (λ s. s.source_bytes) samples in
      let files = least (λ s. s.source_files) samples in
      if leb prior target
      then (target, 1)
      else if has_grown p.source_bytes bytes || has_grown p.source_files files
      then (raised, 5)
      else (max (max (gib / 2) (grown_peak peak p bytes files)) floor, 1)

-- `predict(history, profile, prior, now)`: the prediction and its reason
unfoldable pub predict : History → Option Profile → ℕ → ℕ → ℕ × ℕ
unfolding predict_cold predict_row
predict history none prior now = (prior, 0)
predict history (some p) prior now = elim (lookup p.key history) [
  | none ↦ predict_cold history p prior
  | some row ↦ predict_row row p prior now
]

-- The row after a run with this peak.
unfoldable pub row_after : ProfileRow → Profile → ℕ → Bool → ℕ → ProfileRow
unfolding recent
row_after old p peak true now = record old {
  family_key = p.family_key;
  components = p.components;
  samples = last_n 20 (
      recent now old.samples
      ++ record {
        peak_kb = peak;
        at = now;
        source_bytes = p.source_bytes;
        source_files = p.source_files;
      }
        ∷ []);
}
row_after old p peak false now =
    let named = record old { family_key = p.family_key; components = p.components } in
    if ltb old.partial_floor_kb (half_more peak)
    then record named { partial_floor_kb = half_more peak; partial_at = some now }
    else named

abbrev pub row_or_empty : Option ProfileRow → ProfileRow
row_or_empty none = empty_row
row_or_empty (some row) = row

-- `record_profile(history, profile, peak, complete, now)`, of a peak that is a natural number: the
-- row goes to the end, and the first rows go beyond 256.
unfoldable pub record_profile : History → Option Profile → ℕ → Bool → ℕ → History
unfolding row_after
record_profile history none peak complete now = history
record_profile history (some p) peak complete now = last_n 256 (
    remove p.key history
    ++ (p.key, row_after (row_or_empty (lookup p.key history)) p peak complete now) ∷ [])
