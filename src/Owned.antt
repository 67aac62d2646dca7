-- ===== src/Owned.antt =====
-- `members` and `sample_job` of libexec/job_observation.py: which processes a job owns, and one
-- paired reading of them.
pub mod Closure
pub mod Paired
use memcap.Prelude.{
  ℕ, zero, suc, ◌+◌, ◌-◌, max, String, Bool, true, false, not, ◌&&◌, Option, none, some, [], ◌∷◌,
  if◌then◌else◌, keep, all, ◌==◌, length, sum_of, Dict, lookup, get_or, has, put, nat_eq, string_eq,
  str_eq,
}
use memcap.Values.{Field, missing, invalid, num}
use memcap.Registry.{Job, footprint_members}
use memcap.Processes.{Row, Table, Try, ok, raised}
use memcap.Observation.{ObservedSample, is_none, is_at}

-- The table without the excluded processes.
unfoldable pub observable : Job → Table → Table
observable j table = keep (λ e. not (is_at j.observation_exclusions e.0 e.1.start)) table

-- The registered processes that still run as the user's.
unfoldable pub anchors : ℕ → Job → Table → Dict ℕ String
anchors me j table =
    keep
      (λ e. elim (lookup e.0 table) [ none ↦ false | some r ↦ str_eq r.start e.1 && r.uid == me ])
      (footprint_members j)

-- The user's processes of the job's group, without the supervisor.
unfoldable pub add_group : ℕ → Job → Table → Dict ℕ String → Dict ℕ String
add_group me j [] owned = owned
add_group me j ((p, r) ∷ rest) owned =
    add_group me j rest (
      if r.uid == me && r.group == j.group && not (p == j.owner)
      then put p r.start owned
      else owned)

-- A process of the user below an owned one that is not owned yet.
unfoldable pub is_new : ℕ → Job → Dict ℕ String → ℕ × Row → Bool
is_new me j owned (p, r) =
    not (has p owned) && r.uid == me && has r.ppid owned && not (p == j.owner)

-- One pass over the table, with whether it changed anything.
unfoldable pub pass : ℕ → Job → Table → Dict ℕ String → Dict ℕ String × Bool
unfolding is_new
pass me j [] owned = (owned, false)
pass me j (e ∷ rest) owned =
    let same = pass me j rest owned in
    let more = pass me j rest (put e.0 e.1.start owned) in
    if is_new me j owned e then (more.0, true) else same

-- `while changed`, with the passes that are left.
unfoldable pub close : ℕ → ℕ → Job → Table → Dict ℕ String → Dict ℕ String
unfolding pass
close zero me j table owned = owned
close (suc n) me j table owned =
    let (next, changed) = pass me j table owned in
    let rest = close n me j table next in if changed then rest else next

-- `members(job, table, uid)`. One pass more than the table has rows is enough.
unfoldable pub members : ℕ → Job → Table → Dict ℕ String
unfolding observable anchors add_group close
members me j table =
    let seen = observable j table in
    let roots = anchors me j seen in
    if is_none roots then [] else close (suc (length seen)) me j seen (add_group me j seen roots)

-- A reading of a process; a value of another type is `invalid`.
pub record Usage : Type 0 where
  pub identity : Field
  pub footprint_kb : Field

-- `type(identity) is int and identity > 0`
abbrev pub identity_of : Usage → Option ℕ
identity_of u = elim u.identity [
  | missing ↦ none
  | invalid ↦ none
  | num n ↦ if n == 0 then none else some n
]

abbrev pub footprint_of : Usage → Option ℕ
footprint_of u = elim u.footprint_kb [ missing ↦ none | invalid ↦ none | num n ↦ some n ]

-- The previous identity is none or this one.
abbrev pub agrees_with : Option ℕ → ℕ → Bool
agrees_with none i = true
agrees_with (some q) i = q == i

-- The identity and the larger footprint of a good pair of readings.
unfoldable pub paired : Option ℕ → Usage → Usage → Option (ℕ × ℕ)
paired previous u v = elim (identity_of u) [
  | none ↦ none
  | some i ↦ elim (identity_of v) [
    | none ↦ none
    | some k ↦ elim (footprint_of u) [
      | none ↦ none
      | some a ↦ elim (footprint_of v) [
        | none ↦ none
        | some b ↦ if i == k && agrees_with previous i then some (i, max a b) else none
      ]
    ]
  ]
]

-- The footprint of a first reading that a previous identity vouches for.
unfoldable pub vouched : Option ℕ → Option Usage → Option ℕ
vouched previous none = none
vouched none (some u) = none
vouched (some q) (some u) = elim (identity_of u) [
  | none ↦ none
  | some i ↦ if q == i then footprint_of u else none
]

abbrev pub with_footprint : ℕ → Option ℕ → ObservedSample → ObservedSample
with_footprint p none x = x
with_footprint p (some kb) x = record x { footprints = put p kb x.footprints }

-- A pair that does not hold.
unfoldable pub add_missing : String → ℕ → Option ℕ → Option Usage → ObservedSample → ObservedSample
unfolding vouched
add_missing reason p previous first x = with_footprint p (vouched previous first) (record x {
  complete = false;
  missing = x.missing + 1;
  reasons = put reason (get_or 0 reason x.reasons + 1) x.reasons;
})

-- One process with both readings.
unfoldable pub add_pair :
    ℕ → Option ℕ → Option Usage → Option Usage → ObservedSample → ObservedSample
unfolding paired add_missing
add_pair p previous none second x = add_missing "usage" p previous none x
add_pair p previous (some u) none x = add_missing "usage" p previous (some u) x
add_pair p previous (some u) (some v) x = elim (paired previous u v) [
  | none ↦ add_missing "identity" p previous (some u) x
  | some (i, kb) ↦ record x {
    usage_identities = put p i x.usage_identities;
    footprints = put p kb x.footprints;
  }
]

-- `job.get("owned_observation", {}).get("usage_identities", {}).get(pid)`
abbrev pub previous_of : Job → ℕ → Option ℕ
previous_of j p = elim j.owned_observation [ none ↦ none | some o ↦ lookup p o.usage_identities ]

abbrev pub mark_fault : ObservedSample → ObservedSample
mark_fault x = record x { complete = false; fault = 1; reasons = put "fault" 1 x.reasons }

-- The readings: `first` and `second` may raise. The flag says that nothing was raised.
abbrev pub Reader : Type 0
Reader = ℕ → Try (Option Usage)

-- No first reading raises.
unfoldable pub all_read : Reader → Dict ℕ String → Bool
all_read first [] = true
all_read first ((p, s) ∷ rest) = elim (first p) [ raised ↦ false | ok u ↦ all_read first rest ]

abbrev pub reading : Try (Option Usage) → Option Usage
reading raised = none
reading (ok u) = u

-- The loop over the processes, which stops where a second reading raises.
unfoldable pub read_pairs :
    Job → Reader → Reader → Dict ℕ String → Dict ℕ String → ObservedSample → ObservedSample × Bool
unfolding add_pair
read_pairs j first second after [] x = (x, true)
read_pairs j first second after ((p, start) ∷ rest) x =
    if is_at after p start
    then (elim (second p) [
      | raised ↦ (x, false)
      | ok v ↦
          read_pairs j first second after rest
            (add_pair p (previous_of j p) (reading (first p)) v x)
    ])
    else read_pairs j first second after rest
        (add_pair p (previous_of j p) (reading (first p)) none x)

abbrev pub empty_sample : ℕ → ObservedSample
empty_sample began = record {
  complete = false;
  peak_kb = 0;
  identities = [];
  footprints = [];
  at = began;
  usage_identities = [];
  missing = 0;
  fault = 0;
  duration_ms = 0;
  reasons = [];
  births = [];
}

-- `before == after`, and one direction of it
unfoldable pub covers : Dict ℕ String → Dict ℕ String → Bool
covers d es = all (λ e. is_at d e.0 e.1) es

abbrev pub same_members : Dict ℕ String → Dict ℕ String → Bool
same_members a b = covers a b && covers b a

-- `{pid: start for pid, start in after.items() if pid not in before}`
unfoldable pub births_of : Dict ℕ String → Dict ℕ String → Dict ℕ String
births_of before after = keep (λ e. not (has e.0 before)) after

-- The sum and the births, after the loop.
unfoldable pub finish : Dict ℕ String → Dict ℕ String → ObservedSample → ObservedSample
unfolding births_of covers
finish before after x = record x {
  peak_kb = sum_of (λ e. e.1) x.footprints;
  births = if x.missing == 0 && covers after before then births_of before after else [];
}

-- The sample once both tables are read.
unfoldable pub sample_tables :
    Job → Reader → Reader → Dict ℕ String → Dict ℕ String → ObservedSample → ObservedSample
unfolding read_pairs finish
sample_tables j first second before after x =
    let same = same_members before after in
    let (read, whole) = read_pairs j first second after before (record x {
      identities = before;
      complete = same;
      reasons = if same then x.reasons else put "members" 1 x.reasons;
    }) in
    if whole then finish before after read else mark_fault read

abbrev pub stamp : ℕ → ℕ → ObservedSample → ObservedSample
stamp began ended x = record x { at = ended; duration_ms = ended - began }

-- `members({**job, "footprint_members": before}, table2, uid)`
abbrev pub after_members : ℕ → Job → Table → Table → Dict ℕ String
after_members me j t1 t2 = members me (record j { footprint_members = some (members me j t1) }) t2

-- `sample_job(job, table_reader, usage_reader, uid=...)`: the two tables and the two readings of each
-- process, any of which may raise, and the clock before and after. Without an anchor the code
-- returns before it reads the clock again.
unfoldable pub sample_job :
    ℕ → Job → Try Table → Try Table → Reader → Reader → ℕ → ℕ → ObservedSample
unfolding members all_read sample_tables
sample_job me j table1 table2 first second began ended = elim table1 [
  | raised ↦ stamp began ended (mark_fault (empty_sample began))
  | ok t1 ↦
      let before = members me j t1 in
      if is_none before
      then record (empty_sample began) { reasons = ("anchor", 1) ∷ [] }
      else if not (all_read first before)
      then stamp began ended (mark_fault (empty_sample began))
      else elim table2 [
        | raised ↦ stamp began ended (mark_fault (empty_sample began))
        | ok t2 ↦
            stamp began ended
              (sample_tables j first second before (after_members me j t1 t2) (empty_sample began))
      ]
]
