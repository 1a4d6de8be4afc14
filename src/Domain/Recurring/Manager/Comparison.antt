-- ===== src/Domain/Recurring/Manager/Comparison.antt =====
-- What `checkSync` and `needsResync` of internal/domain/task/recurring/manager.go tell.
use tasques.Prelude.{
  ◌≡◌, ◌↔◌, refl, true, false, some, List, [], ◌∷◌, All, inl, inr, Option-cases, Bool-cases, arith,
}
use tasques.Domain.Metadata.{version_eq, version_eq_iff}
use tasques.Domain.Recurring.{RecurringTask}
use tasques.Domain.Recurring.Manager.{
  lookup, missing_in, mismatched, is_empty, compare, needs_resync,
}

-- The list has a task under the id of `t`.
abbrev pub Has : List RecurringTask → RecurringTask → Type 0
Has ts t = (u : RecurringTask) × (lookup t.id ts ≡ some u)

-- A task under the id of `t` in the list would have the version of `t`.
abbrev pub Agrees : List RecurringTask → RecurringTask → Type 0
Agrees ts t =
    (u : RecurringTask) → lookup t.id ts ≡ some u → u.metadata.version ≡ t.metadata.version

missing_in_lem :
    (memory ts : List RecurringTask)
    → (is_empty (missing_in memory ts) ≡ true) ↔ All (Has memory) ts
missing_in_lem memory [] = (λ h. tt, λ h. refl)
missing_in_lem memory (t ∷ ts) = elim (Option-cases (lookup t.id memory)) [
  | inl e ↦ (λ h. absurd (ground arith), λ h. absurd (ground arith))
  | inr (u, e) ↦
      let (there, back) = missing_in_lem memory ts in
      (λ h. ((u, e), there (ground arith)), λ h. let k = back h.1 in ground arith)
]

mismatched_lem :
    (memory ts : List RecurringTask)
    → (is_empty (mismatched memory ts) ≡ true) ↔ All (Agrees memory) ts
mismatched_lem memory [] = (λ h. tt, λ h. refl)
mismatched_lem memory (t ∷ ts) = elim (Option-cases (lookup t.id memory)) [
  | inl e ↦
      let (there, back) = mismatched_lem memory ts in
      (
        λ h. (λ u f. absurd (ground arith), there (ground arith)),
        λ h. let k = back h.1 in ground arith,
      )
  | inr (u, e) ↦
      let (there, back) = mismatched_lem memory ts in
      let eq = version_eq_iff u.metadata.version t.metadata.version in
      elim (Bool-cases (version_eq u.metadata.version t.metadata.version)) [
        | inl b ↦ (
          λ h. (λ u' f. ground (arith, eq), there (ground arith)),
          λ h. let k = back h.1 in ground arith,
        )
        | inr b ↦ (λ h. absurd (ground arith), λ h. absurd (ground (arith, eq.1 (h.0 u e))))
      ]
]

-- The full check asks for no resync exactly when the tasks of the data store are all in memory, under
-- the versions that they have there, and the tasks in memory are all in the data store.
pub needs_resync-compare :
    (from_data_store in_memory : List RecurringTask)
    → (needs_resync (compare from_data_store in_memory) ≡ false) ↔ (
        All (Has in_memory) from_data_store
        × All (Agrees in_memory) from_data_store
        × All (Has from_data_store) in_memory)
unfolding needs_resync compare
needs_resync-compare store memory = (
  λ h. (
    (missing_in_lem memory store).0 (ground arith),
    (mismatched_lem memory store).0 (ground arith),
    (missing_in_lem store memory).0 (ground arith),
  ),
  λ (h, k, l).
      let a = (missing_in_lem memory store).1 h in
      let b = (mismatched_lem memory store).1 k in
      let c = (missing_in_lem store memory).1 l in ground arith,
)
