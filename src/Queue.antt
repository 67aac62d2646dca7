-- ===== src/Queue.antt =====
-- The choices of `Scheduler` in libexec/scheduler.py that read the registry: sessions, worker
-- shares, admission with fresh reservations, the next waiter and the rotation of turns.
pub mod Workers
pub mod Waiters
pub mod Turns
use Prim.Native.String
use Prim.Native.Char.{code}
use memcap.Prelude.{
  ℕ, ◌+◌, ◌-◌, ◌*◌, ◌/◌, min, max, String, Bool, true, false, not, ◌&&◌, List, [], ◌∷◌, ◌==◌,
  str_eq, if◌then◌else◌, any,
}
use memcap.Registry.{Job}
use memcap.Admission.{Mode}

-- The settings of a `Scheduler` that the modelled methods read. `cpus` is `os.cpu_count() or 2`.
pub record Settings : Type 0 where
  pub policy : Mode
  pub max_jobs : ℕ
  pub workers : ℕ
  pub headroom_kb : ℕ
  pub allowed_pressure : List ℕ
  pub cpus : ℕ

-- `text.split("/", 1)[0]`
unfoldable pub before_slash : String → String
before_slash String.[] = String.[]
before_slash (String.◌∷◌ c s) =
    let rest = before_slash s in if code c == 47 then String.[] else String.◌∷◌ c rest

-- `session_bucket(job)`
unfoldable pub session_bucket : Job → String
unfolding before_slash
session_bucket j =
    let parent = before_slash j.session_key in
    if str_eq parent "" then String.◌++◌ "project:" j.cwd else parent

-- `text in list`
unfoldable pub has_text : String → List String → Bool
has_text t xs = any (λ x. str_eq x t) xs

-- `len(set(texts))`
unfoldable pub distinct : List String → ℕ
unfolding has_text
distinct [] = 0
distinct (x ∷ xs) = (if has_text x xs then 0 else 1) + distinct xs
