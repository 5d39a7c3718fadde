-- ===== src/Build/Str/Parts.antt =====
-- The first line of a text and the first part of a string, for the strings of build.rs.
use ginit.Base.{ℕ, ◌≡◌, refl, false, Bytes, [], ◌∷◌, ◌++◌, some, Free, arith}
use ginit.Build.Str.{lines, starts_with_lf, split_once}

starts_with_lf-quoted : (l rest : Bytes) → Free b'\n' l → starts_with_lf (l ++ b'\'' ∷ rest) ≡ false
unfolding starts_with_lf
starts_with_lf-quoted [] rest f = refl
starts_with_lf-quoted (b ∷ l) rest (n, f) = n

-- A line that ends with a quote, in front of others.
pub lines-quoted :
    (l rest : Bytes)
    → Free b'\n' l
    → lines (l ++ b'\'' ∷ b'\n' ∷ rest) ≡ (l ++ b'\'' ∷ []) ∷ lines rest
unfolding lines
lines-quoted [] rest f = refl
lines-quoted (b ∷ l) rest (n, f) =
    rw (n, starts_with_lf-quoted l (b'\n' ∷ rest) f, lines-quoted l rest f) (ground arith)

pub split_once-append :
    (c : ℕ) (front back : Bytes)
    → Free c front
    → split_once c (front ++ c ∷ back) ≡ some (front, back)
unfolding split_once
split_once-append c [] back f = ground arith
split_once-append c (b ∷ front) back (n, f) = rw (n, split_once-append c front back f) refl
