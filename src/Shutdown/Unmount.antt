-- ===== src/Shutdown/Unmount.antt =====
-- The order in which src/shutdown.rs unmounts.
use mathlib.Core.Path.{fun_ext}
use mathlib.Core.List.{reverse-append}
use ginit.Base.{
  ℕ, zero, suc, ◌+◌, ◌-◌, ◌<◌, ◌≡◌, refl, sym, ◌∙◌, ◌≢◌, ◌⊎◌, inl, inr, ◌==◌, false, Bytes, List,
  [], ◌∷◌, ◌++◌, some, get_elem?, length, length-append, c_str-append, Free, append_assoc,
  append-nil, reverse, le→leb, arith,
}
use ginit.Base.Slices.{slice-inner}
use ginit.Machine.{M, pure, ◌>>◌}
use ginit.Mounts.Lines.{terminated}
use ginit.Shutdown.{find_start, unmount_one, unmount_loop, or_panic}

-- Unmounting in the order of a list.
unfoldable pub unmount_each : List Bytes → M (Unit {0})
unmount_each [] = pure tt
unmount_each (d ∷ ds) = do unmount_one d; unmount_each ds

-- A path is not empty and holds no NUL.
abbrev pub IsPath : Bytes → Type 0
IsPath d = (d ≢ []) × Free 0 d

abbrev pub ArePaths : List Bytes → Type 0
ArePaths [] = Unit
ArePaths (d ∷ ds) = IsPath d × ArePaths ds

get_elem?-append :
    (pre xs : Bytes) (k : ℕ) → get_elem? (pre ++ xs) (length pre + k) ≡ get_elem? xs k
get_elem?-append [] xs k = let e : 0 + k ≡ k = omega arith in rw e
get_elem?-append (x ∷ pre) xs k =
    let e : suc (length pre) + k ≡ suc (length pre + k) = omega arith in
    rw e (get_elem?-append pre xs k)

get_elem?-Free :
    (d ys : Bytes) (k : ℕ)
    → Free 0 d
    → k < length d
    → (b : ℕ) × (get_elem? (d ++ ys) k ≡ some b) × ((b == 0) ≡ false)
get_elem?-Free [] ys k h l = absurd (omega arith)
get_elem?-Free (b ∷ d) ys zero (e, h) l = (b, refl, e)
get_elem?-Free (b ∷ d) ys (suc k) (e, h) l = get_elem?-Free d ys k h (omega arith)

nonempty : (d : Bytes) → d ≢ [] → 0 < length d
nonempty [] h = absurd (h refl)
nonempty (b ∷ d) h = omega arith

-- Empty, or with a NUL at its end.
abbrev EndsNul : Bytes → Type 0
EndsNul pre = (pre ≡ []) ⊎ ((q : Bytes) × (pre ≡ q ++ 0 ∷ []))

find_start_nul :
    (mounts : Bytes) (i : ℕ) → get_elem? mounts i ≡ some 0 → find_start mounts i ≡ some (suc i)
unfolding find_start
find_start_nul mounts zero e = rw (e, find_start)
find_start_nul mounts (suc i) e = rw (e, find_start)

module _ (d ys : Bytes) (h : Free 0 d) where
  find_start_first :
      (pre : Bytes)
      → EndsNul pre
      → 0 < length d
      → find_start (pre ++ (d ++ ys)) (length pre) ≡ some (length pre)
  unfolding find_start
  find_start_first pre (inl e) l =
      let (b, g, ne) = get_elem?-Free d ys 0 h l in rw e (rw (g, find_start, ne))
  find_start_first pre (inr (q, e)) l =
      let (b, g, ne) = get_elem?-Free d ys 0 h l in
      let n : length (q ++ 0 ∷ []) ≡ suc (length q) = omega (arith, length-append q (0 ∷ [])) in
      let z : suc (length q) + 0 ≡ suc (length q) = omega arith in
      let z' : length q + 0 ≡ length q = omega arith in
      let g' = rw (n, z) at (get_elem?-append (q ++ 0 ∷ []) (d ++ ys) 0 ∙ g) in
      let nul : get_elem? ((q ++ 0 ∷ []) ++ (d ++ ys)) (length q) ≡ some 0 =
        rw append_assoc (rw z' at (get_elem?-append q (0 ∷ (d ++ ys)) 0)) in
      rw (e, n)
        (rw (g', find_start, ne) (find_start_nul ((q ++ 0 ∷ []) ++ (d ++ ys)) (length q) nul))

  find_start_lem :
      (pre : Bytes) (k : ℕ)
      → EndsNul pre
      → k < length d
      → find_start (pre ++ (d ++ ys)) (length pre + k) ≡ some (length pre)
  unfolding find_start
  find_start_lem pre zero e l =
      let z : length pre + 0 ≡ length pre = omega arith in rw z (find_start_first pre e l)
  find_start_lem pre (suc k) e l =
      let (b, g, ne) = get_elem?-Free d ys (suc k) h l in
      let z : length pre + suc k ≡ suc (length pre + k) = omega arith in
      rw (z, rw z at (get_elem?-append pre (d ++ ys) (suc k) ∙ g), find_start, ne)
        (find_start_lem pre k e (omega arith))

-- One round of the loop, at the last entry of the array's used part.
unmount_loop_round :
    (pre d ys : Bytes) (fuel : ℕ)
    → EndsNul pre
    → IsPath d
    → unmount_loop (suc fuel) (pre ++ (d ++ 0 ∷ ys)) (length (pre ++ (d ++ 0 ∷ [])))
      ≡ (do unmount_one d; unmount_loop fuel (pre ++ (d ++ 0 ∷ ys)) (length pre))
unfolding unmount_loop
unmount_loop_round pre d ys fuel e (ne, h) = fun_ext λ m. fun_ext λ w.
    let l : 0 < length d = nonempty d ne in
    let n : length (pre ++ (d ++ 0 ∷ [])) ≡ length pre + length (d ++ 0 ∷ []) =
      length-append pre (d ++ 0 ∷ []) in
    let n' : length (d ++ 0 ∷ []) ≡ length d + 1 = omega (arith, length-append d (0 ∷ [])) in
    let i : length pre + length (d ++ 0 ∷ []) - 2 ≡ length pre + (length d - 1) = omega arith in
    rw
      (
        n,
        le→leb 2 (length pre + length (d ++ 0 ∷ [])) (omega arith),
        i,
        find_start_lem d (0 ∷ ys) h pre (length d - 1) e (omega arith),
        or_panic,
      )
      (rw (← append_assoc d (0 ∷ []) ys)
        (rw (slice-inner pre (d ++ 0 ∷ []) ys, or_panic, c_str-append d [] h)))

-- The entries of a list that begins with the last one.
terminated_rev : List Bytes → Bytes
terminated_rev [] = []
terminated_rev (e ∷ es) = terminated_rev es ++ (e ++ 0 ∷ [])

terminated_rev-EndsNul : (es : List Bytes) → EndsNul (terminated_rev es)
unfolding terminated_rev
terminated_rev-EndsNul [] = inl refl
terminated_rev-EndsNul (e ∷ es) =
    inr (terminated_rev es ++ e, sym (append_assoc (terminated_rev es) e (0 ∷ [])))

unmount_loop-rev :
    (es : List Bytes) (ys : Bytes) (fuel : ℕ)
    → ArePaths es
    → length es < fuel
    → unmount_loop fuel (terminated_rev es ++ ys) (length (terminated_rev es)) ≡ unmount_each es
unfolding terminated_rev unmount_each
unmount_loop-rev es ys zero h l = absurd (omega arith)
unmount_loop-rev [] ys (suc fuel) h l = unfold unmount_loop in refl
unmount_loop-rev (e ∷ es) ys (suc fuel) (p, h) l = rw (
  append_assoc (terminated_rev es) (e ++ 0 ∷ []) ys,
  append_assoc e (0 ∷ []) ys,
  unmount_loop_round (terminated_rev es) e ys fuel (terminated_rev-EndsNul es) p,
  unmount_loop-rev es (e ++ 0 ∷ ys) fuel h (omega arith),
)

terminated_rev-append :
    (es ds : List Bytes) → terminated_rev (es ++ ds) ≡ terminated_rev ds ++ terminated_rev es
unfolding terminated_rev
terminated_rev-append [] ds = sym (append-nil (terminated_rev ds))
terminated_rev-append (e ∷ es) ds =
    rw (terminated_rev-append es ds)
      (append_assoc (terminated_rev ds) (terminated_rev es) (e ++ 0 ∷ []))

terminated-eq-rev : (ds : List Bytes) → terminated ds ≡ terminated_rev (reverse ds)
unfolding terminated_rev
terminated-eq-rev [] = refl
terminated-eq-rev (d ∷ ds) =
    rw
      (
        reverse-append (d ∷ []) ds,
        terminated_rev-append (reverse ds) (d ∷ []),
        ← terminated-eq-rev ds,
      )
      (sym (append_assoc d (0 ∷ []) (terminated ds)))

ArePaths-append : (es ds : List Bytes) → ArePaths es → ArePaths ds → ArePaths (es ++ ds)
ArePaths-append [] ds he hd = hd
ArePaths-append (e ∷ es) ds (p, he) hd = (p, ArePaths-append es ds he hd)

ArePaths-reverse : (ds : List Bytes) → ArePaths ds → ArePaths (reverse ds)
ArePaths-reverse [] h = tt
ArePaths-reverse (d ∷ ds) (p, h) =
    rw (reverse-append (d ∷ []) ds)
      (ArePaths-append (reverse ds) (d ∷ []) (ArePaths-reverse ds h) (p, tt))

length-reverse_paths : (ds : List Bytes) → length (reverse ds) ≡ length ds
length-reverse_paths [] = refl
length-reverse_paths (d ∷ ds) =
    rw (reverse-append (d ∷ []) ds)
      (omega (arith, length-append (reverse ds) (d ∷ []), length-reverse_paths ds))

-- Over an array that holds paths, each with a NUL behind it, and with fuel for more than the
-- paths, the loop unmounts each of them once, the last one first.
pub unmount_loop-reverse :
    (ds : List Bytes) (ys : Bytes) (fuel : ℕ)
    → ArePaths ds
    → length ds < fuel
    → unmount_loop fuel (terminated ds ++ ys) (length (terminated ds)) ≡ unmount_each (reverse ds)
unmount_loop-reverse ds ys fuel h l = rw (terminated-eq-rev ds) (
    unmount_loop-rev (reverse ds) ys fuel (ArePaths-reverse ds h)
      (omega (arith, length-reverse_paths ds)))
