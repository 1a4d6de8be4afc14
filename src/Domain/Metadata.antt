-- ===== src/Domain/Metadata.antt =====
-- internal/domain/metadata/models.go
use tasques.Prelude.{ℕ, ℤ, Bool, ◌&&◌, ◌==◌, ◌≡◌, true, ◌↔◌, arith}

pub record Version : Type 0 where
  pub seq_num : ℕ
  pub primary_term : ℕ

pub record Metadata : Type 0 where
  pub created_at : ℤ
  pub modified_at : ℤ
  pub version : Version

-- Go's `==` on two versions compares them field by field.
unfoldable pub version_eq : Version → Version → Bool
version_eq a b = a.seq_num == b.seq_num && a.primary_term == b.primary_term

pub version_eq_iff : (a b : Version) → (version_eq a b ≡ true) ↔ (a ≡ b)
unfolding version_eq
version_eq_iff a b = (ground arith, ground arith)
