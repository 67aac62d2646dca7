-- ===== src/Tests/AdmissionRuns.antt =====
-- libexec/admission.py at concrete inputs.
use memcap.Prelude.{
  List, All, inl, ◌+◌, ◌≤◌, ◌≡◌, ◌↔◌, refl, true, false, some, [], ◌∷◌, arith, sum_of, keep, elem,
  all, lookup,
}
use memcap.Values.{num, amount, field_or}
use memcap.Sample.{Sample}
use memcap.Registry.{is_running, is_resource, footprint_members}
use memcap.Admission.{
  decide, charge_jobs, request, mode_headroom, compare_headroom, finite_running, counted_of,
}
use memcap.Admission.Advance.{
  Controller, advance, faulty, same_boot, not_newer, is_pressure_2, heavy_paging,
}
use memcap.Admission.Charge.{promised, counted_part}
use memcap.Admission.Allowed.{Admitted, decide-allow_iff, pids_of}
use memcap.Admission.Budget.{decide_strict_within_cap}
use memcap.Admission.Recovery.{TakenUp}
use memcap.Admission.Recovery.Following.{Happening, sampled, busy, started, follow, OfBoot}
use memcap.Admission.Recovery.Runs.{
  fault_blocks_admission, reset_blocks_admission, paging_blocks_admission,
}
use memcap.Tests.Fixtures.{runner, healthy, strict_policy, adaptive_policy, steady, request_1g}

-- A healthy host admits a GiB beside a running job, in both modes.
runs_strict : (decide strict_policy healthy steady (runner ∷ []) request_1g).allow ≡ true
unfolding decide request mode_headroom compare_headroom finite_running charge_jobs elem is_resource
    keep is_running all footprint_members lookup sum_of
runs_strict = refl

runs_adaptive : (decide adaptive_policy healthy steady (runner ∷ []) request_1g).allow ≡ true
unfolding decide request mode_headroom compare_headroom finite_running charge_jobs elem is_resource
    keep is_running all footprint_members lookup sum_of
runs_adaptive = refl

decide-allow_iff_example :
    ((decide adaptive_policy healthy steady (runner ∷ []) request_1g).allow ≡ true)
    ↔ Admitted adaptive_policy healthy steady (runner ∷ []) request_1g
decide-allow_iff_example = decide-allow_iff adaptive_policy healthy steady (runner ∷ []) request_1g

tracked_covers :
    sum_of
      (counted_part healthy.footprints (pids_of healthy.tracked_pids))
      (keep is_running (runner ∷ []))
    ≤ amount healthy.tracked_kb
unfolding sum_of keep is_running counted_of amount footprint_members lookup elem
tracked_covers = omega arith

decide_strict_within_cap_example :
    sum_of (promised healthy.footprints) (keep is_running (runner ∷ []))
      + amount request_1g.memory_kb
    ≤ amount healthy.cap_kb
decide_strict_within_cap_example =
    decide_strict_within_cap strict_policy healthy steady (runner ∷ []) request_1g refl
      tracked_covers runs_strict

-- A faulty sample that follows, and a paging one after twelve seconds of paging.
abbrev faulted : Sample
faulted = record healthy { fault = some true }

-- Seconds later: a healthy sample, a busy sampler, and the start of a job.
abbrev later : List Happening
later =
    sampled (record healthy { monotonic = num 102500 }) 103000
    ∷ busy 104000
    ∷ started 104500
    ∷ sampled (record healthy { monotonic = num 105500 }) 106000
    ∷ []

same_boots : All (OfBoot faulted.boot_id) later
unfolding same_boot
same_boots = (refl, (tt, (tt, (refl, tt))))

fault_blocks_admission_example :
    (decide adaptive_policy healthy
      (follow (advance steady faulted 102000) later)
      []
      request_1g).allow
    ≡ false
fault_blocks_admission_example =
    fault_blocks_admission adaptive_policy steady faulted healthy 102000 later [] request_1g refl
      taken (unfold faulty in refl) (omega arith, (omega arith, (omega arith, (omega arith, tt))))
      same_boots (omega arith)
  where
    taken : TakenUp steady faulted 102000
    taken = unfold same_boot not_newer field_or in refl

-- A sample with heavy paging, twelve seconds after paging began.
abbrev paging : Sample
paging = record healthy { pressure = some 2; swap_out_kbps = num 200000 }

abbrev paged : Controller
paged = record steady { paging_since = some 90000 }

paging_blocks_admission_example :
    (decide adaptive_policy healthy
      (follow (advance paged paging 102000) later)
      []
      request_1g).allow
    ≡ false
paging_blocks_admission_example =
    paging_blocks_admission adaptive_policy paged paging healthy 102000 90000 later [] request_1g
      refl (unfold same_boot not_newer field_or in refl) (unfold same_boot in refl) refl
      (omega arith) (unfold is_pressure_2 in refl) (unfold heavy_paging in refl)
      (omega arith, (omega arith, (omega arith, (omega arith, tt)))) same_boots (omega arith)

-- The first sample after a reboot.
abbrev rebooted : Sample
rebooted = record healthy { boot_id = some "other" }

reset_blocks_admission_example :
    (decide adaptive_policy healthy
      (follow
        (advance steady rebooted 102000)
        (sampled (record rebooted { monotonic = num 102500 }) 103000 ∷ []))
      []
      request_1g).allow
    ≡ false
reset_blocks_admission_example =
    reset_blocks_admission adaptive_policy steady rebooted healthy 102000
      (sampled (record rebooted { monotonic = num 102500 }) 103000 ∷ []) [] request_1g refl
      (inl (unfold same_boot in refl)) (omega arith, tt) (omega arith)
