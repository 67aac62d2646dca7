-- ===== src/Owned/Paired.antt =====
-- What a complete sample of libexec/job_observation.py certifies.
use memcap.Prelude.{
  ℕ, String, true, false, ◌≡◌, inl, inr, refl, Option, none, some, [], ◌∷◌, arith, All, Bool-cases,
  Option-cases, Dict, if◌then◌else◌, put, string_eq,
}
use memcap.Registry.{Job}
use memcap.Processes.{Table, Try, Try-cases, ok, raised}
use memcap.Observation.{ObservedSample, is_none, is_at}
use memcap.Owned.{
  Usage, paired, vouched, add_missing, add_pair, previous_of, Reader, reading, read_pairs, finish,
  sample_tables, empty_sample, same_members, members, after_members, all_read, sample_job,
}

-- Both readings of the process hold, name the same kernel identity and agree with the last one.
pub record IsPaired (j : Job) (first second : Reader) (after : Dict ℕ String) (e : ℕ × String)
    : Type 0 where
  pub stays : is_at after e.0 e.1 ≡ true
  pub before : Usage
  pub later : Usage
  pub first_read : reading (first e.0) ≡ some before
  pub second_read : second e.0 ≡ ok (some later)
  pub result : ℕ × ℕ
  pub agrees : paired (previous_of j e.0) before later ≡ some result

add_missing-complete :
    (reason : String) (p : ℕ) (previous : Option ℕ) (u : Option Usage) (x : ObservedSample)
    → (add_missing reason p previous u x).complete ≡ false
unfolding add_missing
add_missing-complete reason p previous u x = elim (Option-cases (vouched previous u)) [
  | inl none_vouched ↦ ground (arith, none_vouched)
  | inr (kb, vouches) ↦ ground (arith, vouches)
]

add_pair-complete :
    (p : ℕ) (previous : Option ℕ) (u v : Option Usage) (x : ObservedSample)
    → (add_pair p previous u v x).complete ≡ true
    → (x.complete ≡ true)
      × ((a : Usage) × (b : Usage) × (r : ℕ × ℕ) × (u ≡ some a)
          × (v ≡ some b)
          × (paired previous a b ≡ some r))
unfolding add_pair
add_pair-complete p previous none v x h =
    absurd (ground (arith, h, add_missing-complete "usage" p previous none x))
add_pair-complete p previous (some u) none x h =
    absurd (ground (arith, h, add_missing-complete "usage" p previous (some u) x))
add_pair-complete p previous (some u) (some v) x h = elim (Option-cases (paired previous u v)) [
  | inl fails ↦
      absurd (ground (arith, h, fails, add_missing-complete "identity" p previous (some u) x))
  | inr (r, pair) ↦ (ground (arith, h, pair), (u, v, r, refl, refl, pair))
]

module _ (j : Job) (first second : Reader) (after : Dict ℕ String) where
  read_pairs-IsPaired :
      (before : Dict ℕ String) (x : ObservedSample)
      → (read_pairs j first second after before x).0.complete ≡ true
      → (read_pairs j first second after before x).1 ≡ true
      → (x.complete ≡ true) × All (IsPaired j first second after) before
  unfolding read_pairs
  read_pairs-IsPaired [] x h w = (ground (arith, h), tt)
  read_pairs-IsPaired ((p, s) ∷ before) x h w = elim (Bool-cases (is_at after p s)) [
    | inr moved ↦
        let next = add_pair p (previous_of j p) (reading (first p)) none x in
        let rest =
          read_pairs-IsPaired before next (ground (arith, h, moved)) (ground (arith, w, moved)) in
        let (complete, pair) =
          add_pair-complete p (previous_of j p) (reading (first p)) none x rest.0 in
        let (a, b, r, u, v, k) = pair in absurd (ground (arith, v))
    | inl stays ↦ elim (Try-cases (second p)) [
      | inr failed ↦ absurd (ground (arith, w, stays, failed))
      | inl (v, got) ↦
          let next = add_pair p (previous_of j p) (reading (first p)) v x in
          let rest =
            read_pairs-IsPaired before next (ground (arith, h, stays, got))
              (ground (arith, w, stays, got)) in
          let (complete, pair) =
            add_pair-complete p (previous_of j p) (reading (first p)) v x rest.0 in
          let (a, b, r, u, there, k) = pair in
          (
            complete,
            (
              record {
                stays = stays;
                before = a;
                later = b;
                first_read = u;
                second_read = rw (← there) got;
                result = r;
                agrees = k;
              },
              rest.1,
            ),
          )
    ]
  ]

-- What a complete sample vouches for: both tables were read, they show the same processes, at least
-- one, and each of them held through both readings.
pub record IsCertified (me : ℕ) (j : Job) (table1 table2 : Try Table) (first second : Reader)
    : Type 0 where
  pub seen : Table
  pub seen_again : Table
  pub read : table1 ≡ ok seen
  pub read_again : table2 ≡ ok seen_again
  pub anchored : is_none (members me j seen) ≡ false
  pub same : same_members (members me j seen) (after_members me j seen seen_again) ≡ true
  pub pairs : All (IsPaired j first second (after_members me j seen seen_again)) (members me j seen)

sample_tables-IsPaired :
    (j : Job) (first second : Reader) (before after : Dict ℕ String) (x : ObservedSample)
    → (sample_tables j first second before after x).complete ≡ true
    → (same_members before after ≡ true) × All (IsPaired j first second after) before
unfolding sample_tables finish
sample_tables-IsPaired j first second before after x h =
    let start = record x {
      identities = before;
      complete = same_members before after;
      reasons = if same_members before after then x.reasons else put "members" 1 x.reasons;
    } in
    elim (Bool-cases (read_pairs j first second after before start).1) [
      | inr raises ↦ absurd (ground (arith, h, raises))
      | inl whole ↦
          read_pairs-IsPaired j first second after before start (ground (arith, h, whole)) whole
    ]

-- A sample is complete only when both process tables were read, they show the same owned
-- processes and at least one, and each of them was read twice without a failure, under one
-- positive kernel identity that agrees with the previous sample's, with the same start in the second table.
pub sample_job-IsCertified :
    (me : ℕ) (j : Job) (table1 table2 : Try Table) (first second : Reader) (began ended : ℕ)
    → (sample_job me j table1 table2 first second began ended).complete ≡ true
    → IsCertified me j table1 table2 first second
unfolding sample_job
sample_job-IsCertified me j raised table2 first second began ended h = absurd (ground (arith, h))
sample_job-IsCertified me j (ok t1) table2 first second began ended h =
    elim (Bool-cases (is_none (members me j t1))) [
      | inl nothing ↦ absurd (ground (arith, h, nothing))
      | inr anchored ↦ elim (Bool-cases (all_read first (members me j t1))) [
        | inr fails ↦ absurd (ground (arith, h, anchored, fails))
        | inl reads ↦ elim (Try-cases table2) [
          | inr failed ↦ absurd (ground (arith, h, anchored, reads, failed))
          | inl (t2, again) ↦
              let (same, pairs) =
                sample_tables-IsPaired j first second (members me j t1) (after_members me j t1 t2)
                  (empty_sample began) (ground (arith, h, anchored, reads, again)) in
              record {
                seen = t1;
                seen_again = t2;
                read = refl;
                read_again = again;
                anchored = anchored;
                same = same;
                pairs = pairs;
              }
        ]
      ]
    ]
