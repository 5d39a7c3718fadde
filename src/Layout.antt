-- ===== src/Layout.antt =====
-- `#[repr(C)]`: the places of a structure's fields and its size, as the Rust reference gives them.
use ginit.Base.{ℕ, ◌+◌, ◌-◌, ◌*◌, ◌/◌, List, [], ◌∷◌, if◌then◌else◌, leb}

-- The size and the alignment of a type.
pub record Layout : Type 0 where
  pub size : ℕ
  pub align : ℕ

-- The least multiple of `align` from `n` on.
unfoldable pub round_up : ℕ → ℕ → ℕ
round_up n align = (n + align - 1) / align * align

abbrev pub int : ℕ → Layout
int n = record { size = n; align = n }

-- The offset behind the fields, from an offset on.
unfoldable pub end_of : ℕ → List Layout → ℕ
unfolding round_up
end_of offset [] = offset
end_of offset (f ∷ fs) = end_of (round_up offset f.align + f.size) fs

unfoldable pub max_align : List Layout → ℕ
max_align [] = 1
max_align (f ∷ fs) = let a = max_align fs in if leb f.align a then a else f.align

unfoldable pub struct : List Layout → Layout
unfolding end_of max_align
struct fs = record { size = round_up (end_of 0 fs) (max_align fs); align = max_align fs }
