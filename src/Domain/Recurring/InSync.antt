-- ===== src/Domain/Recurring/InSync.antt =====
-- What the manager of internal/domain/task/recurring/manager.go has in memory is scheduled, as it has it
-- in memory: the invariant, and what each change of memory does to it.
pub mod Steps
pub mod Syncs
use tasques.Prelude.{
  String, ◌≡◌, ◌≢◌, ◌⊎◌, refl, sym, ap, ◌∙◌, subst, Bool, true, false, Option, none, some, List, [],
  ◌∷◌, ◌++◌, Outcome, ok, err, inl, inr, Bool-cases, Outcome-cases, str_eq, str_eq_iff, All, arith,
  if◌then◌else◌,
}
use tasques.Domain.Recurring.{RecurringTask}
use tasques.Domain.Recurring.Manager.{
  Manager, lookup, delete, insert, remove, keep_each, continue, ask, Step,
}
use tasques.Domain.Recurring.Manager.Memory.{
  lookup-id, lookup-delete_self, lookup-delete_ne, lookup-insert_self, lookup-insert_ne,
  lookup-append,
}
use tasques.Domain.Recurring.Manager.Laws.{SameJob}

pub same_or_not : (a b : String) → (a ≡ b) ⊎ (a ≢ b)
same_or_not a b = elim (Bool-cases (str_eq a b)) [
  | inl e ↦ inl ((str_eq_iff a b).0 e)
  | inr e ↦ inr (λ f. absurd (ground (arith, (str_eq_iff a b).1 f)))
]

module _ {W : Type 0} (runs : W → String → Option RecurringTask) where
  -- A task with the job of `t` is scheduled under its id.
  abbrev pub Scheduled : W → RecurringTask → Type 0
  Scheduled w t = (u : RecurringTask) × (runs w t.id ≡ some u) × SameJob u t

  -- Each task in memory is scheduled.
  pub record InSync (m : Manager) (w : W) : Type 0 where
    pub at :
        (id : String) (t : RecurringTask) → lookup id m.scheduled_tasks ≡ some t → Scheduled w t

  -- The tasks of a list are themselves scheduled.
  abbrev pub Ready : W → List RecurringTask → Type 0
  Ready w ts = (id : String) (t : RecurringTask) → lookup id ts ≡ some t → runs w id ≡ some t

  -- What is scheduled under other ids stays.
  abbrev pub SameBut : String → W → W → Type 0
  SameBut k w w' = (id : String) → id ≢ k → runs w' id ≡ runs w id

  pub InSync-world :
      (m : Manager) (w w' : W) → ((id : String) → runs w' id ≡ runs w id) → InSync m w → InSync m w'
  InSync-world m w w' same h = record {
    at = λ id t f. let (u, r, j) = h.at id t f in (u, same t.id ∙ r, j);
  }

  pub Ready-world :
      (ts : List RecurringTask) (w w' : W)
      → ((id : String) → runs w' id ≡ runs w id)
      → Ready w ts
      → Ready w' ts
  Ready-world ts w w' same h id t f = same id ∙ h id t f

  -- A change under an id that is not in memory.
  pub InSync-other :
      (m : Manager) (k : String) (w w' : W)
      → lookup k m.scheduled_tasks ≡ none
      → SameBut k w w'
      → InSync m w
      → InSync m w'
  InSync-other m k w w' missing same h = record {
    at = λ id t f. elim (same_or_not id k) [
      | inl e ↦ absurd (ground (arith, ap (λ x. lookup x m.scheduled_tasks) e))
      | inr n ↦
          let (u, r, j) = h.at id t f in
          (u, same t.id (λ e. n (sym (lookup-id id m.scheduled_tasks f) ∙ e)) ∙ r, j)
    ];
  }

  pub InSync-remove :
      (m : Manager) (k : String) (w w' : W) → SameBut k w w' → InSync m w → InSync (remove k m) w'
  InSync-remove m k w w' same h = record {
    at = λ id t f. elim (same_or_not id k) [
      | inl e ↦
          let gone =
            ap (λ x. lookup x (delete k m.scheduled_tasks)) e
            ∙ lookup-delete_self k m.scheduled_tasks in
          absurd (ground arith)
      | inr n ↦
          let before = sym (lookup-delete_ne id k m.scheduled_tasks n) ∙ f in
          let (u, r, j) = h.at id t before in
          (u, same t.id (λ e. n (sym (lookup-id id m.scheduled_tasks before) ∙ e)) ∙ r, j)
    ];
  }

  pub InSync-insert :
      (m : Manager) (t : RecurringTask) (w : W)
      → Scheduled w t
      → InSync m w
      → InSync (record m { scheduled_tasks = insert t m.scheduled_tasks }) w
  InSync-insert m t w s h = record {
    at = λ id x f. elim (same_or_not id t.id) [
      | inl e ↦
          let found =
            ap (λ y. lookup y (insert t m.scheduled_tasks)) e
            ∙ lookup-insert_self t m.scheduled_tasks in
          let same : t ≡ x = ground arith in subst (Scheduled w) same s
      | inr n ↦ h.at id x (sym (lookup-insert_ne id t m.scheduled_tasks n) ∙ f)
    ];
  }

  pub keep_each-InSync :
      (ts : List RecurringTask) (m : Manager) (w : W)
      → All (λ t. t.is_deleted ≡ false → Scheduled w t) ts
      → InSync m w
      → InSync (keep_each ts m) w
  unfolding keep_each
  keep_each-InSync [] m w s h = h
  keep_each-InSync (t ∷ ts) m w (s, ss) h =
      let kept = record m { scheduled_tasks = insert t m.scheduled_tasks } in
      keep_each-InSync ts (if t.is_deleted then m else kept) w ss
        (either t.is_deleted m kept h (λ e. InSync-insert m t w (s e) h))
    where
      either :
          (b : Bool) (m m' : Manager)
          → InSync m w
          → (b ≡ false → InSync m' w)
          → InSync (if b then m else m') w
      either true m m' h k = h
      either false m m' h k = k refl

  -- A list whose tasks are scheduled, with one more that is.
  pub Ready-add :
      (made : List RecurringTask) (t : RecurringTask) (w w' : W)
      → lookup t.id made ≡ none
      → SameBut t.id w w'
      → runs w' t.id ≡ some t
      → Ready w made
      → Ready w' (made ++ (t ∷ []))
  unfolding lookup
  Ready-add made t w w' new same now h id x f = elim (lookup-append id made (t ∷ []) f) [
    | inl e ↦ same id (λ k. absurd (ground (arith, ap (λ y. lookup y made) k))) ∙ h id x e
    | inr e ↦ elim (same_or_not id t.id) [
      | inl k ↦
          let same : t ≡ x = ground (arith, str_eq_iff id t.id) in
          ap (runs w') k ∙ now ∙ ap some same
      | inr n ↦ absurd (ground (arith, str_eq_iff id t.id))
    ]
  ]

  pub Ready-other :
      (made : List RecurringTask) (k : String) (w w' : W)
      → lookup k made ≡ none
      → SameBut k w w'
      → Ready w made
      → Ready w' made
  Ready-other made k w w' new same h id x f =
      same id (λ e. absurd (ground (arith, ap (λ y. lookup y made) e))) ∙ h id x f

-- What holds after a step: `Q` of what it returns, or after an error the invariant alone.
module _ {W E : Type 0} (runs : W → String → Option RecurringTask) where
  abbrev pub Post : {A : Type 0} → (A → Manager → W → Type 0) → Outcome E A × Manager × W → Type 0
  Post Q (ok a, m, w) = Q a m w
  Post Q (err e, m, w) = InSync runs m w

  pub Post-bind :
      {A B : Type 0} (R : A → Manager → W → Type 0) (Q : B → Manager → W → Type 0)
      (r : Outcome E A × Manager × W) (f : A → Step W E B)
      → Post R r
      → ((a : A) (m : Manager) (w : W) → R a m w → Post Q (f a m w))
      → Post Q (continue r f)
  Post-bind R Q (ok a, m, w) f h k = k a m w h
  Post-bind R Q (err e, m, w) f h k = h

  pub Post-map :
      {A : Type 0} (R Q : A → Manager → W → Type 0) (r : Outcome E A × Manager × W)
      → ((a : A) (m : Manager) (w : W) → R a m w → Q a m w)
      → Post R r
      → Post Q r
  Post-map R Q (ok a, m, w) f h = f a m w h
  Post-map R Q (err e, m, w) f h = h

  -- A call of the service leaves memory alone, and what is scheduled.
  abbrev pub Asked : {A : Type 0} → (W → Outcome E A × W) → Manager → W → A → Manager → W → Type 0
  Asked call m w a m' w' =
      (m' ≡ m)
      × InSync runs m' w'
      × ◌≡◌ {A = Outcome E _ × W} (call w) (ok a, w')
      × ((id : String) → runs w' id ≡ runs w id)

  pub ask-Post :
      {A : Type 0} (call : W → Outcome E A × W) (m : Manager) (w : W)
      → ((id : String) → runs (call w).1 id ≡ runs w id)
      → InSync runs m w
      → Post (Asked call m w) (ask call m w)
  ask-Post call m w same h =
      let synced = InSync-world runs m w (call w).1 same h in
      elim (Outcome-cases (call w).0) [
        | inl (a, e) ↦ rw e (refl, synced, λ i. (e i, (call w).1), same)
        | inr (x, e) ↦ rw e synced
      ]

  -- The invariant of the last state, however the step ended.
  pub Post-InSync :
      {A : Type 0} (r : Outcome E A × Manager × W) → Post (λ _. InSync runs) r → InSync runs r.1 r.2
  Post-InSync (ok a, m, w) h = h
  Post-InSync (err e, m, w) h = h

  pub Post-and :
      {A : Type 0} (R : A → Manager → W → Type 0) (P : Manager → Type 0)
      (r : Outcome E A × Manager × W)
      → Post R r
      → P r.1
      → Post (λ a m w. R a m w × P m) r
  Post-and R P (ok a, m, w) h p = (h, p)
  Post-and R P (err e, m, w) h p = h
