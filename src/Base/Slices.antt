-- ===== src/Base/Slices.antt =====
-- Slices of arrays: what follows a part of a slice, and a copy into the free end of an array.
use Prim.Native.Nat.{ℕ, zero, suc, ◌+◌, ◌-◌, ◌≤◌}
use mathlib.Core.Path.{◌≡◌, refl, sym, ap, ◌∙◌}
use mathlib.Core.List.{List, [], ◌∷◌, ◌++◌}
use mathlib.Core.Option.{some}
use native.Mathlib.Omega.{arith}
use ginit.Base.Tests.{le→leb}
use ginit.Base.Lists.{
  length, take, drop, slice, copy_from_slice, overwrite, length-overwrite, length-append,
  length-drop, length-take, take-append, drop-append,
}

module _ {ℓ} {A : Type ℓ} where
  drop-nil : (n : ℕ) → drop {A = A} n [] ≡ []
  drop-nil zero = refl
  drop-nil (suc n) = refl

  take-nil : (n : ℕ) → take {A = A} n [] ≡ []
  take-nil zero = refl
  take-nil (suc n) = refl

  pub drop-drop : (i k : ℕ) (xs : List A) → drop k (drop i xs) ≡ drop (i + k) xs
  drop-drop zero k xs = let e : 0 + k ≡ k = omega arith in rw e
  drop-drop (suc i) k [] = drop-nil k ∙ sym (drop-nil (suc i + k))
  drop-drop (suc i) k (x ∷ xs) =
      let e : suc i + k ≡ suc (i + k) = omega arith in rw e (drop-drop i k xs)

  drop-take : (k m : ℕ) (xs : List A) → drop k (take m xs) ≡ take (m - k) (drop k xs)
  drop-take zero m xs = let e : m - 0 ≡ m = omega arith in rw e
  drop-take (suc k) zero xs = let e : 0 - suc k ≡ 0 = omega arith in rw e
  drop-take (suc k) (suc m) [] = sym (take-nil (suc m - suc k))
  drop-take (suc k) (suc m) (x ∷ xs) =
      let e : suc m - suc k ≡ m - k = omega arith in rw e (drop-take k m xs)

  pub append-take-drop : (n : ℕ) (xs : List A) → take n xs ++ drop n xs ≡ xs
  append-take-drop zero xs = refl
  append-take-drop (suc n) [] = refl
  append-take-drop (suc n) (x ∷ xs) = ap (◌∷◌ x) (append-take-drop n xs)

  drop_past :
      (front : List A) (x : A) (rest : List A) → drop (length front + 1) (front ++ x ∷ rest) ≡ rest
  drop_past [] x rest = refl
  drop_past (y ∷ ys) x rest =
      let e : suc (length ys) + 1 ≡ suc (length ys + 1) = omega arith in rw e (drop_past ys x rest)

  pub slice_bounds :
      (i j : ℕ) (xs r : List A)
      → slice i j xs ≡ some r
      → (i ≤ j) × (j ≤ length xs) × (i + length r ≡ j) × (take (j - i) (drop i xs) ≡ r)
  unfolding slice
  slice_bounds i j xs r h = ground (arith, length-take (j - i) (drop i xs), length-drop i xs)

  pub slice_inside :
      (i j : ℕ) (xs : List A)
      → i ≤ j
      → j ≤ length xs
      → slice i j xs ≡ some (take (j - i) (drop i xs))
  unfolding slice
  slice_inside i j xs p q = rw (le→leb i j p, le→leb j (length xs) q)

  -- Behind an element at which a slice is split.
  pub slice-rest :
      (i j : ℕ) (xs front : List A) (x : A) (rest : List A)
      → slice i j xs ≡ some (front ++ x ∷ rest)
      → slice (i + (length front + 1)) j xs ≡ some rest
  slice-rest i j xs front x rest h =
      let (p, q, l, e) = slice_bounds i j xs (front ++ x ∷ rest) h in
      let k : ℕ = length front + 1 in
      let n : length front + suc (length rest) ≡ length (front ++ x ∷ rest) =
        sym (length-append front (x ∷ rest)) in
      slice_inside (i + k) j xs (omega arith) q
      ∙ ap some (
          let d : j - (i + k) ≡ j - i - k = omega arith in
          rw (d, ← drop-drop i k xs, ← drop-take k (j - i) (drop i xs), e) (drop_past front x rest))

  drop-append_more : (xs ys : List A) (k : ℕ) → drop (length xs + k) (xs ++ ys) ≡ drop k ys
  drop-append_more [] ys k = let e : 0 + k ≡ k = omega arith in rw e
  drop-append_more (x ∷ xs) ys k =
      let e : suc (length xs) + k ≡ suc (length xs + k) = omega arith in
      rw e (drop-append_more xs ys k)

  -- The first `length front` elements.
  pub slice-front : (front ys : List A) → slice 0 (length front) (front ++ ys) ≡ some front
  slice-front front ys =
      slice_inside 0 (length front) (front ++ ys) (omega arith)
        (omega (arith, length-append front ys))
      ∙ ap some
          (let e : length front - 0 ≡ length front = omega arith in rw e (take-append front ys))

  -- A copy behind `content`, into the free space.
  pub copy_from_slice-append :
      (content space ys : List A)
      → length ys ≤ length space
      → copy_from_slice (content ++ space) (length content) ys
        ≡ some (content ++ (ys ++ drop (length ys) space))
  unfolding copy_from_slice
  copy_from_slice-append content space ys h = rw (
    le→leb (length content + length ys) (length (content ++ space))
        (omega (arith, length-append content space)),
    take-append content space,
    drop-append_more content space (length ys),
  )

  take-overwrite :
      (old new : List A) → length new ≤ length old → take (length new) (overwrite old new) ≡ new
  take-overwrite old [] h = refl
  take-overwrite [] (y ∷ new) h = absurd (omega arith)
  take-overwrite (x ∷ old) (y ∷ new) h = ap (◌∷◌ y) (take-overwrite old new (omega arith))

  pub overwrite-drop :
      (old new : List A)
      → length new ≤ length old
      → overwrite old new ≡ new ++ drop (length new) old
  overwrite-drop [] [] h = refl
  overwrite-drop (x ∷ old) [] h = refl
  overwrite-drop [] (y ∷ new) h = absurd (omega arith)
  overwrite-drop (x ∷ old) (y ∷ new) h = ap (◌∷◌ y) (overwrite-drop old new (omega arith))

  -- What a read has stored.
  pub slice-overwrite :
      (old new : List A)
      → length new ≤ length old
      → slice 0 (length new) (overwrite old new) ≡ some new
  slice-overwrite old new h =
      slice_inside 0 (length new) (overwrite old new) (omega arith)
        (omega (arith, length-overwrite old new))
      ∙ ap some
          (let e : length new - 0 ≡ length new = omega arith in rw e (take-overwrite old new h))

  pub slice-inner :
      (pre mid ys : List A)
      → slice (length pre) (length pre + length mid) (pre ++ (mid ++ ys)) ≡ some mid
  slice-inner pre mid ys =
      let n : length pre + length mid - length pre ≡ length mid = omega arith in
      slice_inside (length pre) (length pre + length mid) (pre ++ (mid ++ ys)) (omega arith)
        (omega (arith, length-append pre (mid ++ ys), length-append mid ys))
      ∙ ap some (rw (n, drop-append pre (mid ++ ys)) (take-append mid ys))
