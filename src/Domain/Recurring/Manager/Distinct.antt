-- ===== src/Domain/Recurring/Manager/Distinct.antt =====
-- Lists of tasks with different ids: the parts into which the manager of
-- internal/domain/task/recurring/manager.go splits them have different ids too.
use tasques.Prelude.{
  String, ◌≡◌, ◌≢◌, ◌⊎◌, sym, subst, Bool, true, false, none, some, List, [], ◌∷◌, ◌++◌, inl, inr,
  Bool-cases, Option-cases, All, All-append, All-split, append_assoc, if◌then◌else◌, arith,
}
use tasques.Domain.Metadata.{version_eq}
use tasques.Domain.Recurring.{RecurringTask}
use tasques.Domain.Recurring.Manager.{lookup, deleted_of, live_of, missing_in, mismatched}
use tasques.Domain.Recurring.Manager.Memory.{Apart, Distinct, lookup-Apart}

Apart-sym : (t x : RecurringTask) → t.id ≢ x.id → x.id ≢ t.id
Apart-sym t x n e = n (sym e)

-- A task between two lists is apart from the first, and can be left out.
pub Distinct-middle :
    (xs : List RecurringTask) (t : RecurringTask) (ys : List RecurringTask)
    → Distinct (xs ++ (t ∷ ys))
    → Apart t xs × Distinct (xs ++ ys)
Distinct-middle [] t ys (a, d) = (tt, d)
Distinct-middle (x ∷ xs) t ys (a, d) =
    let (ax, ay) = All-split (λ y. x.id ≢ y.id) xs (t ∷ ys) a in
    let (at, d') = Distinct-middle xs t ys d in
    ((Apart-sym x t ay.0, at), (All-append (λ y. x.id ≢ y.id) xs ys ax ay.1, d'))

-- It can be put between them if it is apart from both.
pub Distinct-insert :
    (xs : List RecurringTask) (t : RecurringTask) (ys : List RecurringTask)
    → Distinct (xs ++ ys)
    → Apart t xs
    → Apart t ys
    → Distinct (xs ++ (t ∷ ys))
Distinct-insert [] t ys d ax ay = (ay, d)
Distinct-insert (x ∷ xs) t ys (a, d) (n, ax) ay =
    let (hx, hy) = All-split (λ y. x.id ≢ y.id) xs ys a in
    (
      All-append (λ y. x.id ≢ y.id) xs (t ∷ ys) hx (Apart-sym t x n, hy),
      Distinct-insert xs t ys d ax ay,
    )

-- What `front` and a list made so far say of the next task of a loop.
pub Distinct-next :
    (front made : List RecurringTask) (t : RecurringTask) (ts : List RecurringTask)
    → Distinct (front ++ (made ++ (t ∷ ts)))
    → (lookup t.id made ≡ none)
      × Distinct (front ++ (made ++ ts))
      × Distinct (front ++ ((made ++ (t ∷ [])) ++ ts))
Distinct-next front made t ts d =
    let grouped = subst Distinct (sym (append_assoc front made (t ∷ ts))) d in
    let (a, d') = Distinct-middle (front ++ made) t ts grouped in
    (
      lookup-Apart t made (All-split (λ x. t.id ≢ x.id) front made a).1,
      subst Distinct (append_assoc front made ts) d',
      subst (λ l. Distinct (front ++ l)) (sym (append_assoc made (t ∷ []) ts)) d,
    )

All-parts :
    (P : RecurringTask → Type 0) (ts : List RecurringTask)
    → All P ts
    → All P (deleted_of ts) × All P (live_of ts)
All-parts P [] h = (tt, tt)
All-parts P (t ∷ ts) (p, h) =
    let (d, l) = All-parts P ts h in either t.is_deleted t (deleted_of ts) (live_of ts) p d l
  where
    either :
        (b : Bool) (t : RecurringTask) (xs ys : List RecurringTask)
        → P t
        → All P xs
        → All P ys
        → All P (if b then t ∷ xs else xs) × All P (if b then ys else t ∷ ys)
    either true t xs ys p hx hy = ((p, hx), hy)
    either false t xs ys p hx hy = (hx, (p, hy))

-- A task that goes into one of two lists.
Distinct-either :
    (b : Bool) (t : RecurringTask) (xs ys : List RecurringTask)
    → Distinct (xs ++ ys)
    → Apart t xs
    → Apart t ys
    → Distinct ((if b then t ∷ xs else xs) ++ (if b then ys else t ∷ ys))
Distinct-either true t xs ys d ax ay = (All-append (λ y. t.id ≢ y.id) xs ys ax ay, d)
Distinct-either false t xs ys d ax ay = Distinct-insert xs t ys d ax ay

pub deleted_of-Distinct :
    (ts : List RecurringTask) → Distinct ts → Distinct (deleted_of ts ++ live_of ts)
deleted_of-Distinct [] d = tt
deleted_of-Distinct (t ∷ ts) (a, d) =
    let (ad, al) = All-parts (λ x. t.id ≢ x.id) ts a in
    Distinct-either t.is_deleted t (deleted_of ts) (live_of ts) (deleted_of-Distinct ts d) ad al

-- What is found among the deleted tasks is deleted.
pub lookup-deleted_of :
    (id : String) (ts : List RecurringTask) {t : RecurringTask}
    → lookup id (deleted_of ts) ≡ some t
    → t.is_deleted ≡ true
unfolding lookup
lookup-deleted_of id [] h = absurd (ground arith)
lookup-deleted_of id (x ∷ ts) {t} h = ground (arith, lookup-deleted_of id ts {t = t})

-- Where `checkSync` puts a task of the data store: it is missing in memory, or there under the same
-- version, or there under another one.
abbrev Puts :
    RecurringTask
    → (memory ts : List RecurringTask) → List RecurringTask
    → List RecurringTask
    → Type 0
Puts t memory ts missing other =
    (missing_in memory (t ∷ ts) ≡ missing) × (mismatched memory (t ∷ ts) ≡ other)

puts :
    (t : RecurringTask) (memory ts : List RecurringTask)
    → Puts t memory ts (t ∷ missing_in memory ts) (mismatched memory ts)
      ⊎ Puts t memory ts (missing_in memory ts) (mismatched memory ts)
      ⊎ Puts t memory ts (missing_in memory ts) (t ∷ mismatched memory ts)
puts t memory ts = elim (Option-cases (lookup t.id memory)) [
  | inl e ↦ inl (ground arith, ground arith)
  | inr (u, e) ↦ elim (Bool-cases (version_eq u.metadata.version t.metadata.version)) [
    | inl b ↦ inr (inl (ground arith, ground arith))
    | inr b ↦ inr (inr (ground arith, ground arith))
  ]
]

missing_in-parts :
    (P : RecurringTask → Type 0) (memory ts : List RecurringTask)
    → All P ts
    → All P (missing_in memory ts) × All P (mismatched memory ts)
missing_in-parts P memory [] h = (tt, tt)
missing_in-parts P memory (t ∷ ts) (p, h) =
    let (hm, hv) = missing_in-parts P memory ts h in
    elim (puts t memory ts) [
      | inl (a, b) ↦ (subst (All P) (sym a) (p, hm), subst (All P) (sym b) hv)
      | inr (inl (a, b)) ↦ (subst (All P) (sym a) hm, subst (All P) (sym b) hv)
      | inr (inr (a, b)) ↦ (subst (All P) (sym a) hm, subst (All P) (sym b) (p, hv))
    ]

pub missing_in-Distinct :
    (memory ts : List RecurringTask)
    → Distinct ts
    → Distinct (missing_in memory ts ++ mismatched memory ts)
missing_in-Distinct memory [] d = tt
missing_in-Distinct memory (t ∷ ts) (a, d) =
    let missing = missing_in memory ts in
    let other = mismatched memory ts in
    let rest = missing_in-Distinct memory ts d in
    let (am, av) = missing_in-parts (λ x. t.id ≢ x.id) memory ts a in
    elim (puts t memory ts) [
      | inl (a, b) ↦
          subst Distinct (sym (append_eq a b))
            (All-append (λ x. t.id ≢ x.id) missing other am av, rest)
      | inr (inl (a, b)) ↦ subst Distinct (sym (append_eq a b)) rest
      | inr (inr (a, b)) ↦
          subst Distinct (sym (append_eq a b)) (Distinct-insert missing t other rest am av)
    ]
  where
    append_eq : {xs xs' ys ys' : List RecurringTask} → xs ≡ xs' → ys ≡ ys' → xs ++ ys ≡ xs' ++ ys'
    append_eq a b = λ i. a i ++ b i
