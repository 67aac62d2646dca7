-- ===== src/Tests/OwnershipRuns.antt =====
-- The ownership checks of libexec/scheduler.py at concrete inputs.
use memcap.Prelude.{
  ℕ, ◌≡◌, ◌≢◌, ◌↔◌, refl, Bool, true, false, Option, some, none, List, [], ◌∷◌, arith, str_eq,
}
use memcap.Registry.{Job}
use memcap.Processes.{Table}
use memcap.Ownership.{nested, find_running, authorize_cancel, wait_targets}
use memcap.Ownership.Ancestry.{IsInside, nested_iff}
use memcap.Ownership.Cancel.{IsCancellation, authorize_cancel-IsCancellation}
use memcap.Tests.Fixtures.{waiter, runner, process}

abbrev table : Table
table =
    (60, process 40 60 "Mon 1" "memcap")
    ∷ (61, process 60 61 "Mon 2" "sh")
    ∷ (62, process 61 61 "Mon 3" "make")
    ∷ []

-- A process below the registered member is nested.
inside : nested "bbbb" (runner ∷ []) 62 table ≡ true
unfolding nested find_running memcap.Registry.is_running memcap.Ownership.climb
    memcap.Prelude.lookup
inside = refl

nested_iff_example : (nested "bbbb" (runner ∷ []) 62 table ≡ true) ↔ (
    (str_eq "bbbb" "" ≡ false)
    × ((j : Job) × (find_running "bbbb" (runner ∷ []) ≡ some j) × IsInside 128 j 62 table))
nested_iff_example = nested_iff "bbbb" (runner ∷ []) 62 table

-- It does not wait for the job that it runs in.
waits_for_other : wait_targets (runner ∷ waiter ∷ []) 62 table ≡ waiter ∷ []
unfolding wait_targets memcap.Prelude.keep memcap.Prelude.any memcap.Prelude.lookup
    memcap.Prelude.has memcap.Prelude.put
waits_for_other = refl

abbrev ending : Job
ending = record runner { cancel = true }

cancels : authorize_cancel 501 "bbbb" 60 none false (ending ∷ []) table ≡ 61 ∷ []
unfolding authorize_cancel memcap.Proposals.find_job memcap.Processes.started_as
    memcap.Prelude.lookup memcap.Prelude.keep memcap.Ownership.is_target
cancels = refl

cancels_some : authorize_cancel 501 "bbbb" 60 none false (ending ∷ []) table ≢ []
cancels_some e = ground (arith, e, cancels)

authorize_cancel-IsCancellation_example :
    (false ≡ false)
    × IsCancellation 501 "bbbb" 60 none
        (ending ∷ [])
        table
        (authorize_cancel 501 "bbbb" 60 none false (ending ∷ []) table)
authorize_cancel-IsCancellation_example =
    authorize_cancel-IsCancellation 501 "bbbb" 60 none false (ending ∷ []) table cancels_some
