-- ===== src/Domain/Queue/Valid.antt =====
-- The texts that `NameFromString` of internal/domain/queue/models.go takes, said without its code.
use tasques.Prelude.{
  ℕ, ◌≡◌, ◌≢◌, refl, inl, inr, ◌↔◌, ◌⊎◌, true, false, List, [], ◌∷◌, map, ok, arith, All,
}
use tasques.Domain.Queue.{
  invalid_chars, contains_any, list_eq, NameError, name_errors, name_from_string,
}

-- Not the first character of a name.
abbrev pub StartsWell : List ℕ → Type 0
StartsWell [] = ⊥
StartsWell (c ∷ s) = (c ≢ b'_') × (c ≢ b'-') × (c ≢ b'+')

abbrev pub AllowedChar : ℕ → Type 0
AllowedChar c = All (λ x. x ≢ c) invalid_chars

pub record IsName (lower : ℕ → ℕ) (s : List ℕ) : Type 0 where
  pub starts : StartsWell s
  pub allowed : All AllowedChar s
  pub not_dot : s ≢ b'.' ∷ []
  pub not_dots : s ≢ b'.' ∷ b'.' ∷ []
  pub lower_case : map lower s ≡ s

list_eq_iff : (s t : List ℕ) → (list_eq s t ≡ true) ↔ (s ≡ t)
list_eq_iff [] [] = (λ h. refl, λ h. refl)
list_eq_iff [] (b ∷ t) = (λ h. cc, λ h. cc)
list_eq_iff (a ∷ s) [] = (λ h. cc, λ h. cc)
list_eq_iff (a ∷ s) (b ∷ t) =
    (λ h. ground (arith, list_eq_iff s t), λ h. ground (arith, list_eq_iff s t))

contains_any-allowed : (s : List ℕ) → (contains_any s invalid_chars ≡ false) ↔ All AllowedChar s
contains_any-allowed [] = (λ h. tt, λ h. refl)
contains_any-allowed (c ∷ s) =
    (λ h. ground (arith, contains_any-allowed s), λ h. ground (arith, contains_any-allowed s))

name_errors-nil : (lower : ℕ → ℕ) (s : List ℕ) → (name_errors lower s ≡ []) ↔ IsName lower s
unfolding name_errors
name_errors-nil lower [] = (λ h. cc, λ v. absurd v.starts)
name_errors-nil lower (c ∷ s) = (
  (λ h. record {
    starts = ground arith;
    allowed = ground (arith, contains_any-allowed (c ∷ s));
    not_dot = λ e. ground (arith, list_eq_iff (c ∷ s) (b'.' ∷ []));
    not_dots = λ e. ground (arith, list_eq_iff (c ∷ s) (b'.' ∷ b'.' ∷ []));
    lower_case = ground (arith, list_eq_iff (c ∷ s) (map lower (c ∷ s)));
  }),
  λ v. ground (
    arith,
    contains_any-allowed (c ∷ s),
    list_eq_iff (c ∷ s) (b'.' ∷ []),
    list_eq_iff (c ∷ s) (b'.' ∷ b'.' ∷ []),
    list_eq_iff (c ∷ s) (map lower (c ∷ s)),
  ),
)

-- A text is taken as a queue's name, and then as it stands, exactly when it is not empty, has none of
-- the invalid characters, does not begin with `_`, `-` or `+`, is neither `.` nor `..`, and is in
-- lower case.
pub name_from_string-ok_iff :
    (lower : ℕ → ℕ) (s n : List ℕ) → (name_from_string lower s ≡ ok n) ↔ ((n ≡ s) × IsName lower s)
unfolding name_from_string
name_from_string-ok_iff lower s n = elim (cases (name_errors lower s)) [
  | inl e ↦ (λ h. (ground arith, (name_errors-nil lower s).0 e), λ (m, v). ground arith)
  | inr (x, xs, e) ↦
      (λ h. absurd (ground arith), λ (m, v). absurd (ground (arith, (name_errors-nil lower s).1 v)))
]
  where
    cases :
        (xs : List NameError)
        → (xs ≡ []) ⊎ ((y : NameError) × (ys : List NameError) × (xs ≡ y ∷ ys))
    cases [] = inl refl
    cases (y ∷ ys) = inr (y, ys, refl)
