-- ===== src/Tests/ObservationRuns.antt =====
-- Concrete job observations and compiler profiles.
use memcap.Prelude.{
  ℕ, ◌+◌, ◌*◌, String, Bool, true, false, ◌≡◌, ◌⊎◌, inl, inr, refl, Option, none, some, List, [],
  ◌∷◌, arith, All, Dict, lookup, string_eq, ◌<◌,
}
use memcap.Values.{num}
use memcap.Registry.{Job, running}
use memcap.Processes.{Table, ok, raised}
use memcap.Observation.{ObservedSample, Observation, complete_at, reconcile}
use memcap.Observation.Poison.{run, reconcile_lost}
use memcap.Owned.{Usage, Reader, members, observable, is_new, sample_job}
use memcap.Owned.Closure.{members_closed}
use memcap.Owned.Paired.{IsCertified, sample_job-IsCertified}
use memcap.CompilerProfiles.{Profile, ProfileSample, ProfileRow, History, predict}
use memcap.CompilerProfiles.Bounds.{IsEvident, predict-IsEvident}
use memcap.Tests.Fixtures.{runner, process}

-- Process 61 runs the job, 62 is its child, 70 is nobody's.
abbrev rows : Table
rows =
    (61, process 60 61 "Mon 2" "cc a.c")
    ∷ (62, process 61 62 "Mon 3" "as a.s")
    ∷ (70, process 1 70 "Mon 3" "vim")
    ∷ []

closed_members : members 501 runner rows ≡ (61, "Mon 2") ∷ (62, "Mon 3") ∷ []
unfolding members memcap.Prelude.keep memcap.Registry.footprint_members lookup memcap.Prelude.has
    memcap.Prelude.put
closed_members = refl

abbrev usage : ℕ → ℕ → Usage
usage identity kb = record { identity = num identity; footprint_kb = num kb }

abbrev reader : Reader
reader p = ok (some (usage (p + 1000) (p * 16)))

abbrev sampled : ObservedSample
sampled = sample_job 501 runner (ok rows) (ok rows) reader reader 5000 5040

sampled_complete : sampled.complete ≡ true
unfolding sample_job memcap.Prelude.keep memcap.Registry.footprint_members lookup memcap.Prelude.has
    memcap.Prelude.put memcap.Prelude.all
sampled_complete = refl

sampled_peak : sampled.peak_kb ≡ 1968
unfolding sample_job memcap.Prelude.keep memcap.Registry.footprint_members lookup memcap.Prelude.has
    memcap.Prelude.put memcap.Prelude.sum_of
sampled_peak = refl

sampled_raised : (sample_job 501 runner raised (ok rows) reader reader 5000 5040).fault ≡ 1
unfolding sample_job
sampled_raised = refl

sample_job-IsCertified_example : IsCertified 501 runner (ok rows) (ok rows) reader reader
unfolding sample_job memcap.Prelude.keep memcap.Registry.footprint_members lookup memcap.Prelude.has
    memcap.Prelude.put memcap.Prelude.all
sample_job-IsCertified_example =
    sample_job-IsCertified 501 runner (ok rows) (ok rows) reader reader 5000 5040 refl

members_closed_example :
    (members 501 runner rows ≡ [])
    ⊎ All (λ e. is_new 501 runner (members 501 runner rows) e ≡ false) (observable runner rows)
members_closed_example = members_closed 501 runner rows

-- 62 is owed a measurement.
abbrev owing : Observation
owing = record {
  began = some 4000;
  last = some 4000;
  pending = (62, "Mon 3") ∷ [];
  pending_seen = 1;
  pending_resolved = 0;
  incomplete = false;
  reasons = [];
  samples = 1;
  peak_kb = 900;
  missing = 0;
  faults = 0;
  probe_ms = 10;
  usage_identities = [];
  complete = true;
}

-- A sample that never saw it.
abbrev without : ObservedSample
without = record sampled { identities = (61, "Mon 2") ∷ []; footprints = (61, 976) ∷ [] }

reconcile_lost_example :
    complete_at
      (run
        (reconcile owing without ((61, "Mon 2") ∷ [])).0
        ((record sampled { at = 6000 }, (61, "Mon 2") ∷ []) ∷ []))
      6500
    ≡ false
unfolding lookup sample_job memcap.Prelude.keep memcap.Registry.footprint_members memcap.Prelude.has
    memcap.Prelude.put memcap.Prelude.all
reconcile_lost_example =
    reconcile_lost owing without ((61, "Mon 2") ∷ []) 62 "Mon 3" refl refl refl refl
      ((record sampled { at = 6000 }, (61, "Mon 2") ∷ []) ∷ []) 6500

-- Three complete runs of 1 GiB.
abbrev one_run : ℕ → ProfileSample
one_run at = record { peak_kb = 1048576; at = at; source_bytes = 1000; source_files = 10 }

abbrev history : History
history =
    (
      "tsc",
      record {
        family_key = none;
        components = none;
        samples = one_run 100 ∷ one_run 200 ∷ one_run 300 ∷ [];
        partial_floor_kb = 0;
        partial_at = none;
      },
    )
    ∷ []

abbrev profile : Profile
profile = record {
  key = "tsc";
  family_key = none;
  components = none;
  source_bytes = 1000;
  source_files = 10;
}

predicted : (predict history (some profile) 8388608 400).0 ≡ 1572864
unfolding predict lookup memcap.Prelude.keep
predicted = refl

predict-IsEvident_example :
    (p : Profile) × (row : ProfileRow) × (some profile ≡ some p)
    × (lookup p.key history ≡ some row)
    × IsEvident row p 400 (predict history (some profile) 8388608 400).0
unfolding predict lookup memcap.Prelude.keep
predict-IsEvident_example = predict-IsEvident history (some profile) 8388608 400 (omega arith)
