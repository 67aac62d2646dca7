-- ===== src/Observation.antt =====
-- libexec/job_observation.py: what a supervisor observes of its own job's processes.
pub mod Poison
use memcap.Prelude.{
  ℕ, zero, suc, ◌+◌, ◌-◌, max, String, Bool, true, false, not, ◌&&◌, ◌||◌, Option, none, some, List,
  [], ◌∷◌, if◌then◌else◌, leb, ltb, ◌==◌, Dict, lookup, get_or, has, put, nat_eq, string_eq, str_eq,
}

-- The result of `sample_job`. `births` is empty where the code has no such key.
pub record ObservedSample : Type 0 where
  pub complete : Bool
  pub peak_kb : ℕ
  pub identities : Dict ℕ String
  pub footprints : Dict ℕ ℕ
  pub at : ℕ
  pub usage_identities : Dict ℕ ℕ
  pub missing : ℕ
  pub fault : ℕ
  pub duration_ms : ℕ
  pub reasons : Dict String ℕ
  pub births : Dict ℕ String

-- `job["owned_observation"]`; a missing key is `none`, 0, `false` or empty, as the code reads it.
pub record Observation : Type 0 where
  pub began : Option ℕ
  pub last : Option ℕ
  pub pending : Dict ℕ String
  pub pending_seen : ℕ
  pub pending_resolved : ℕ
  pub incomplete : Bool
  pub reasons : Dict String ℕ
  pub samples : ℕ
  pub peak_kb : ℕ
  pub missing : ℕ
  pub faults : ℕ
  pub probe_ms : ℕ
  pub usage_identities : Dict ℕ ℕ
  pub complete : Bool

abbrev pub is_none {ℓ} : {A : Type ℓ} → List A → Bool
is_none [] = true
is_none (x ∷ xs) = false

-- `REASONS`
abbrev pub reason_names : List String
reason_names = "anchor" ∷ "members" ∷ "usage" ∷ "identity" ∷ "refresh" ∷ "gap" ∷ "fault" ∷ []

-- The loop over `REASONS`, and the gap.
unfoldable pub add_reasons : List String → Dict String ℕ → Dict String ℕ → Dict String ℕ
add_reasons [] more total = total
add_reasons (r ∷ rs) more total =
    add_reasons rs more (put r (get_or 0 r total + get_or 0 r more) total)

abbrev pub count_of : Bool → ℕ
count_of true = 1
count_of false = 0

-- `at <= state.get("last", -1)`
abbrev pub is_stale : Option ℕ → ℕ → Bool
is_stale none at = false
is_stale (some last) at = leb at last

-- `at - result.get("last", result.get("began", at))`
abbrev pub gap_of : Observation → ℕ → ℕ
gap_of s at = elim s.last [
  | some last ↦ at - last
  | none ↦ elim s.began [ some began ↦ at - began | none ↦ 0 ]
]

-- New children alone leave an observation complete.
unfoldable pub is_birth_only : ObservedSample → Bool
is_birth_only x = not (is_none x.births) && x.missing == 0 && x.fault == 0

-- `accumulate(state, sample)`
unfoldable pub accumulate : Observation → ObservedSample → Observation
unfolding is_birth_only add_reasons
accumulate s x =
    if is_stale s.last x.at
    then s
    else let late = ltb 5000 (gap_of s x.at) in
      let reasons = add_reasons reason_names x.reasons s.reasons in
      let incomplete = s.incomplete || not x.complete && not (is_birth_only x) || late in
      let samples = s.samples + count_of x.complete in
      record s {
        last = some x.at;
        incomplete = incomplete;
        reasons = put "gap" (get_or 0 "gap" reasons + count_of late) reasons;
        samples = samples;
        peak_kb = max s.peak_kb x.peak_kb;
        missing = s.missing + x.missing;
        faults = s.faults + x.fault;
        probe_ms = s.probe_ms + x.duration_ms;
        usage_identities = x.usage_identities;
        complete = leb 2 samples && not incomplete;
      }

-- `d.get(pid) == start`
abbrev pub is_at : Dict ℕ String → ℕ → String → Bool
is_at d p start = elim (lookup p d) [ none ↦ false | some s ↦ str_eq s start ]

-- The obligations with the counts of failed, resolved and seen ones.
pub record Tally : Type 0 where
  pub pending : Dict ℕ String
  pub failed : ℕ
  pub resolved : ℕ
  pub seen : ℕ

-- One birth.
unfoldable pub add_birth : ℕ → String → Tally → Tally
add_birth p start t = if is_at t.pending p start then t else record t {
  pending = put p start t.pending;
  failed = t.failed + count_of (has p t.pending);
  seen = t.seen + 1;
}

-- The loop over the births.
unfoldable pub add_births : Dict ℕ String → Tally → Tally
unfolding add_birth
add_births [] t = t
add_births ((p, start) ∷ rest) t = add_births rest (add_birth p start t)

-- A complete paired reading of this identity settles the obligation.
abbrev pub is_settled : ObservedSample → ℕ → String → Bool
is_settled x p start = x.complete && is_at x.identities p start && has p x.footprints

-- The loop over the obligations; the keys of the dictionary are distinct.
unfoldable pub settle : ObservedSample → Dict ℕ String → Dict ℕ String → Tally → Tally
settle x current [] t = t
settle x current ((p, start) ∷ rest) t =
    let later = settle x current rest t in
    if is_settled x p start
    then record later { resolved = later.resolved + 1 }
    else if not (is_at current p start)
    then record later { failed = later.failed + 1 }
    else record later { pending = (p, start) ∷ later.pending }

-- One registered identity.
unfoldable pub add_one : ObservedSample → ℕ → String → Tally → Tally
add_one x p start t =
    if is_at x.identities p start || is_at t.pending p start
    then t
    else record t { pending = put p start t.pending; seen = t.seen + 1 }

-- The loop over the registered identities.
unfoldable pub add_current : ObservedSample → Dict ℕ String → Tally → Tally
unfolding add_one
add_current x [] t = t
add_current x ((p, start) ∷ rest) t = add_current x rest (add_one x p start t)

-- The obligations after a sample.
unfoldable pub tally : Observation → ObservedSample → Dict ℕ String → Tally
unfolding add_births settle add_current
tally s x current =
    let born =
      add_births x.births (record { pending = s.pending; failed = 0; resolved = 0; seen = 0 }) in
    add_current x current (settle x current born.pending (record born { pending = [] }))

-- The sample, marked as incomplete if an obligation failed.
abbrev pub mark_failed : ℕ → ObservedSample → ObservedSample
mark_failed zero x = x
mark_failed (suc n) x = record x {
  complete = false;
  missing = x.missing + suc n;
  reasons = put "refresh" (suc n) x.reasons;
}

-- `state.update(pending=..., pending_seen=..., pending_resolved=...)`
abbrev pub with_tally : Tally → Observation → Observation
with_tally t s = record s {
  pending = t.pending;
  pending_seen = s.pending_seen + t.seen;
  pending_resolved = s.pending_resolved + t.resolved;
}

-- `reconcile(state, sample, current)`
unfoldable pub reconcile : Observation → ObservedSample → Dict ℕ String → Observation × Bool
reconcile s x current =
    if is_stale s.last x.at
    then (s, false)
    else let t = tally s x current in
      let marked = mark_failed t.failed x in
      let after = accumulate (with_tally t s) marked in
      (
        record after { complete = after.complete && is_none t.pending },
        marked.complete && is_none t.pending,
      )

-- `complete_at(state, now)`
unfoldable pub complete_at : Observation → ℕ → Bool
complete_at s now =
    s.complete
    && is_none s.pending
    && (elim s.last [ none ↦ false | some last ↦ leb last now && leb (now - last) 5000 ])

-- `terminal_empty(sample, result, current_members)`, of a result of any type
unfoldable pub terminal_empty {ℓ} :
    {A : Type ℓ} → Option ObservedSample → Option A → Dict ℕ String → Bool
terminal_empty none result current = false
terminal_empty (some x) none current = false
terminal_empty (some x) (some r) current = is_none current && is_none x.identities && x.fault == 0
