-- ===== src/CompilerProfiles/Bounds.antt =====
-- When libexec/compiler_profiles.py predicts less than the prior.
use memcap.Prelude.{
  ℕ, ◌*◌, ◌/◌, ◌≤◌, ◌<◌, ◌≡◌, inl, inr, refl, Option, none, some, List, [], ◌∷◌, arith, All, length,
  lookup, string_eq, Option-cases,
}
use memcap.CompilerProfiles.{
  gib, Profile, ProfileSample, ProfileRow, History, half_more, recent, largest_peak, least,
  floor_of, predict_cold, predict_row, predict, grown_peak,
}

largest_peak-All :
    (ss : List ProfileSample) (m : ℕ)
    → half_more (largest_peak ss) ≤ m
    → All (λ s. half_more s.peak_kb ≤ m) ss
unfolding largest_peak
largest_peak-All [] m h = tt
largest_peak-All (s ∷ ss) m h = (omega (arith, h), largest_peak-All ss m (omega (arith, h)))

least-All :
    (f : ProfileSample → ℕ) (ss : List ProfileSample) (n : ℕ)
    → n ≤ least f ss * 12
    → All (λ s. n ≤ f s * 12) ss
unfolding least
least-All f [] n h = tt
least-All f (s ∷ []) n h = (h, tt)
least-All f (s ∷ t ∷ ss) n h = (omega (arith, h), least-All f (t ∷ ss) n (omega (arith, h)))

-- The evidence for a prediction.
pub record IsEvident (row : ProfileRow) (p : Profile) (now result : ℕ) : Type 0 where
  pub enough : 3 ≤ length (recent now row.samples)
  pub peaks : All (λ s. half_more s.peak_kb ≤ result) (recent now row.samples)
  pub floor : floor_of row (recent now row.samples) ≤ result
  pub half : gib / 2 ≤ result
  pub bytes : All (λ s. p.source_bytes * 10 ≤ s.source_bytes * 12) (recent now row.samples)
  pub files : All (λ s. p.source_files * 10 ≤ s.source_files * 12) (recent now row.samples)

half_more-le-grown_peak :
    (peak : ℕ) (p : Profile) (bytes files : ℕ) → half_more peak ≤ grown_peak peak p bytes files
unfolding grown_peak
half_more-le-grown_peak peak p bytes files = omega arith

predict_row-numbers :
    (row : ProfileRow) (p : Profile) (prior now : ℕ)
    → (predict_row row p prior now).0 < prior
    → (3 ≤ length (recent now row.samples))
      × (half_more (largest_peak (recent now row.samples)) ≤ (predict_row row p prior now).0)
      × (floor_of row (recent now row.samples) ≤ (predict_row row p prior now).0)
      × (gib / 2 ≤ (predict_row row p prior now).0)
      × (p.source_bytes * 10 ≤ least (λ s. s.source_bytes) (recent now row.samples) * 12)
      × (p.source_files * 10 ≤ least (λ s. s.source_files) (recent now row.samples) * 12)
unfolding predict_row
predict_row-numbers row p prior now h = ground (
  arith,
  h,
  half_more-le-grown_peak (largest_peak (recent now row.samples)) p
      (least (λ s. s.source_bytes) (recent now row.samples))
      (least (λ s. s.source_files) (recent now row.samples)),
)

predict_row-IsEvident :
    (row : ProfileRow) (p : Profile) (prior now : ℕ)
    → (predict_row row p prior now).0 < prior
    → IsEvident row p now (predict_row row p prior now).0
predict_row-IsEvident row p prior now h =
    let (enough, peaks, floor, half, bytes, files) = predict_row-numbers row p prior now h in
    record {
      enough = enough;
      peaks = largest_peak-All (recent now row.samples) _ peaks;
      floor = floor;
      half = half;
      bytes = least-All (λ s. s.source_bytes) (recent now row.samples) _ bytes;
      files = least-All (λ s. s.source_files) (recent now row.samples) _ files;
    }

predict_cold-prior :
    (history : History) (p : Profile) (prior : ℕ) → (predict_cold history p prior).0 ≡ prior
unfolding predict_cold
predict_cold-prior history p prior = ground arith

-- A prediction is below the prior only with a row for the profile's key: at least three complete runs
-- within a week, half as much again as each of their peaks, the floor of partial runs, half a GiB,
-- and sources at most a fifth larger than in each of those runs.
pub predict-IsEvident :
    (history : History) (profile : Option Profile) (prior now : ℕ)
    → (predict history profile prior now).0 < prior
    → (p : Profile) × (row : ProfileRow) × (profile ≡ some p)
      × (lookup p.key history ≡ some row)
      × IsEvident row p now (predict history profile prior now).0
unfolding predict
predict-IsEvident history none prior now h = absurd (omega (arith, h))
predict-IsEvident history (some p) prior now h = elim (Option-cases (lookup p.key history)) [
  | inl absent ↦ absurd (ground (arith, h, absent, predict_cold-prior history p prior))
  | inr (row, found) ↦
      let same : predict history (some p) prior now ≡ predict_row row p prior now =
        ground (arith, found) in
      (p, row, refl, found, rw same (predict_row-IsEvident row p prior now (rw same at h)))
]
