-- ===== src/Domain/Recurring/Manager/Memory.antt =====
-- The map of the tasks that the manager of internal/domain/task/recurring/manager.go has scheduled, as a
-- map: what is found under an id after each change.
use tasques.Prelude.{
  String, ◌≡◌, ◌≢◌, ◌⊎◌, refl, false, none, some, List, [], ◌∷◌, ◌++◌, inl, inr, Bool-cases, str_eq,
  str_eq_iff, str_eq_refl, All, arith,
}
use tasques.Domain.Recurring.{RecurringTask}
use tasques.Domain.Recurring.Manager.{lookup, delete, insert}

pub str_eq_ne : (a b : String) → a ≢ b → str_eq a b ≡ false
str_eq_ne a b n = elim (Bool-cases (str_eq a b)) [
  | inl e ↦ absurd (n ((str_eq_iff a b).0 e))
  | inr e ↦ e
]

pub lookup-id :
    (id : String) (ts : List RecurringTask) {t : RecurringTask} → lookup id ts ≡ some t → t.id ≡ id
unfolding lookup
lookup-id id [] h = absurd (ground arith)
lookup-id id (x ∷ ts) {t} h = elim (Bool-cases (str_eq id x.id)) [
  | inl e ↦ ground (arith, str_eq_iff id x.id)
  | inr e ↦ let rest : lookup id ts ≡ some t = ground arith in lookup-id id ts rest
]

pub lookup-delete_self : (id : String) (ts : List RecurringTask) → lookup id (delete id ts) ≡ none
unfolding lookup delete
lookup-delete_self id [] = refl
lookup-delete_self id (x ∷ ts) = elim (Bool-cases (str_eq id x.id)) [
  | inl e ↦ rw e (lookup-delete_self id ts)
  | inr e ↦ let rest = lookup-delete_self id ts in ground arith
]

pub lookup-delete_ne :
    (id k : String) (ts : List RecurringTask) → id ≢ k → lookup id (delete k ts) ≡ lookup id ts
unfolding lookup delete
lookup-delete_ne id k [] n = refl
lookup-delete_ne id k (x ∷ ts) n =
    let rest = lookup-delete_ne id k ts n in ground (arith, str_eq_iff k x.id, str_eq_iff id x.id)

pub lookup-insert_self :
    (t : RecurringTask) (ts : List RecurringTask) → lookup t.id (insert t ts) ≡ some t
unfolding lookup insert
lookup-insert_self t ts = ground (arith, str_eq_refl t.id)

pub lookup-insert_ne :
    (id : String) (t : RecurringTask) (ts : List RecurringTask)
    → id ≢ t.id
    → lookup id (insert t ts) ≡ lookup id ts
unfolding lookup insert
lookup-insert_ne id t ts n =
    let other = lookup-delete_ne id t.id ts n in ground (arith, str_eq_ne id t.id n)

-- What is found in two lists is found in the first, or not there but in the second.
pub lookup-append :
    (id : String) (xs ys : List RecurringTask) {t : RecurringTask}
    → lookup id (xs ++ ys) ≡ some t
    → (lookup id xs ≡ some t) ⊎ (lookup id ys ≡ some t)
unfolding lookup
lookup-append id [] ys h = inr h
lookup-append id (x ∷ xs) ys {t} h = elim (Bool-cases (str_eq id x.id)) [
  | inl e ↦ inl (ground arith)
  | inr e ↦
      let rest : lookup id (xs ++ ys) ≡ some t = ground arith in
      elim (lookup-append id xs ys rest) [ inl f ↦ inl (ground arith) | inr f ↦ inr f ]
]

-- The task has another id than those of the list.
abbrev pub Apart : RecurringTask → List RecurringTask → Type 0
Apart t ts = All (λ x. t.id ≢ x.id) ts

-- All ids are different.
abbrev pub Distinct : List RecurringTask → Type 0
Distinct [] = Unit
Distinct (t ∷ ts) = Apart t ts × Distinct ts

pub lookup-Apart :
    (t : RecurringTask) (ts : List RecurringTask) → Apart t ts → lookup t.id ts ≡ none
unfolding lookup
lookup-Apart t [] h = refl
lookup-Apart t (x ∷ ts) (n, h) =
    let rest = lookup-Apart t ts h in ground (arith, str_eq_ne t.id x.id n)
