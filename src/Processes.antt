-- ===== src/Processes.antt =====
-- The process table and its ancestry: `descendants` and `owner` of libexec/idle_gc.py, over the rows
-- that `table_now` of libexec/boot_timeout.py builds.
pub mod Tree
use memcap.Prelude.{
  ◌≡◌, refl, ◌⊎◌, inl, inr, ℕ, zero, suc, String, Bool, true, false, not, ◌&&◌, Option, none, some,
  List, [], ◌∷◌, ◌++◌, if◌then◌else◌, keep, all, elem, ◌==◌, Dict, lookup, nat_eq, keys, str_eq,
}

-- One row of `ps`. `age` is in seconds and `cpu` is in milliseconds; `process_table` of
-- libexec/idle_gc.py reads no group and no age, `table_now` of libexec/boot_timeout.py no processor
-- time.
pub record Row : Type 0 where
  pub ppid : ℕ
  pub group : ℕ
  pub uid : ℕ
  pub start : String
  pub age : ℕ
  pub cpu : ℕ
  pub command : String

-- A key `str(pid)` is the number `pid`.
abbrev pub Table : Type 0
Table = Dict ℕ Row

-- A function that may raise an exception which its caller does not handle.
pub data Try {ℓ} (A : Type ℓ) : Type ℓ where
  ok : A → Try A
  raised : Try A

infixl 5 ◌>>=◌
abbrev pub ◌>>=◌ {ℓ κ} : {A : Type ℓ} {B : Type κ} → Try A → (A → Try B) → Try B
ok a >>= f = f a
raised >>= f = raised

-- `set(xs) <= set(ys)`
unfoldable pub subset : List ℕ → List ℕ → Bool
subset xs ys = all (λ x. elem x ys) xs

-- `{p for p, row in table.items() if str(row["ppid"]) in found}`
unfoldable pub children_of : List ℕ → Table → List ℕ
children_of found table = keys (keep (λ e. elem e.1.ppid found) table)

-- The loop of `descendants`, with the rounds that are left; `found |= more` adds the new ones.
unfoldable pub descend : ℕ → List ℕ → Table → Try (List ℕ)
unfolding children_of subset
descend zero found table = raised
descend (suc rounds) found table =
    let more = children_of found table in
    let rest = descend rounds (keep (λ p. not (elem p found)) more ++ found) table in
    if subset more found then ok found else rest

-- `descendants(pid, table)`, which raises `GCError` after 64 rounds
unfoldable pub descendants : ℕ → Table → Try (List ℕ)
unfolding descend
descendants pid table = descend 64 (pid ∷ []) table

-- The loop of `owner`: at most 64 steps up, and never twice through a process. `is_agent` is
-- `AGENT.match`.
unfoldable pub owner_from : (String → Bool) → ℕ → List ℕ → ℕ → Table → Option ℕ
owner_from is_agent zero seen pid table = none
owner_from is_agent (suc steps) seen pid table = elim (lookup pid table) [
  | none ↦ none
  | some row ↦
      let next = owner_from is_agent steps (pid ∷ seen) row.ppid table in
      if elem pid seen then none else if is_agent row.command then some pid else next
]

-- `owner(pid, table)`
unfoldable pub owner : (String → Bool) → ℕ → Table → Option ℕ
unfolding owner_from
owner is_agent pid table = owner_from is_agent 64 [] pid table

-- `row is present and row["start"] == start`
unfoldable pub started_as : Option Row → String → Bool
started_as none start = false
started_as (some row) start = str_eq row.start start

-- To split on a computed outcome and keep the equation.
pub Try-cases {ℓ} : {A : Type ℓ} (m : Try A) → ((a : A) × (m ≡ ok a)) ⊎ (m ≡ raised)
Try-cases (ok a) = inl (a, refl)
Try-cases raised = inr refl
