-- ===== src/Domain/Queue.antt =====
-- internal/domain/queue/models.go: which texts are names of queues. A text is a list of code points.
-- `lower` is unicode.ToLower, on one code point.
pub mod Valid
use Prim.Native.Char.{code}
use tasques.Prelude.{
  ℕ, zero, suc, ◌+◌, ◌≤◌, ◌<◌, String, ◌≡◌, ◌≢◌, refl, ◌⊎◌, inl, inr, ◌↔◌, Bool, true, false, ◌||◌,
  ◌&&◌, not, List, [], ◌∷◌, ◌++◌, map, Outcome, ok, err, ◌==◌, ==_iff, if◌then◌else◌, arith, All,
}

-- The code points of a text.
abbrev pub codes : String → List ℕ
codes String.[] = []
codes (String.◌∷◌ c s) = code c ∷ codes s

abbrev pub invalid_chars : List ℕ
invalid_chars = codes "\\/*?\"<>| ,#:"

abbrev pub illegal_prefixes : List (List ℕ)
illegal_prefixes = codes "_" ∷ codes "-" ∷ codes "+" ∷ []

abbrev pub illegals : List (List ℕ)
illegals = codes "." ∷ codes ".." ∷ []

abbrev pub contains : List ℕ → ℕ → Bool
contains [] c = false
contains (x ∷ xs) c = x == c || contains xs c

-- strings.ContainsAny
abbrev pub contains_any : List ℕ → List ℕ → Bool
contains_any [] chars = false
contains_any (c ∷ s) chars = contains chars c || contains_any s chars

-- strings.HasPrefix
abbrev pub has_prefix : List ℕ → List ℕ → Bool
has_prefix s [] = true
has_prefix [] (p ∷ ps) = false
has_prefix (c ∷ s) (p ∷ ps) = c == p && has_prefix s ps

abbrev pub list_eq : List ℕ → List ℕ → Bool
list_eq [] [] = true
list_eq (a ∷ s) (b ∷ t) = a == b && list_eq s t
list_eq _ _ = false

pub data NameError : Type 0 where
  empty_string contains_invalid_chars : NameError
  starts_with_illegal equal_to_illegal : List ℕ → NameError
  not_lower_case : NameError

abbrev pub when : Bool → NameError → List NameError
when b e = if b then e ∷ [] else []

-- The two loops of the source, each over its list.
unfoldable pub prefix_errors : List ℕ → List (List ℕ) → List NameError
prefix_errors s [] = []
prefix_errors s (p ∷ ps) = when (has_prefix s p) (starts_with_illegal p) ++ prefix_errors s ps

unfoldable pub illegal_errors : List ℕ → List (List ℕ) → List NameError
illegal_errors s [] = []
illegal_errors s (i ∷ is) = when (list_eq s i) (equal_to_illegal i) ++ illegal_errors s is

abbrev pub is_empty : List ℕ → Bool
is_empty [] = true
is_empty (c ∷ s) = false

unfoldable pub name_errors : (ℕ → ℕ) → List ℕ → List NameError
unfolding prefix_errors illegal_errors
name_errors lower s =
    when (is_empty s) empty_string
    ++ (when (contains_any s invalid_chars) contains_invalid_chars
        ++ (prefix_errors s illegal_prefixes
            ++ (illegal_errors s illegals ++ when (not (list_eq s (map lower s))) not_lower_case)))

unfoldable pub name_from_string : (ℕ → ℕ) → List ℕ → Outcome (List NameError) (List ℕ)
unfolding name_errors
name_from_string lower s = elim (name_errors lower s) [ [] ↦ ok s | e ∷ es ↦ err (e ∷ es) ]
