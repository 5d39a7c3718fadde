-- ===== src/Build/Env/Order.antt =====
-- The order of strings and of the entries of an environment in build.rs, which is total.
use ginit.Base.{◌≡◌, refl, true, false, Bool-cases, ◌⊎◌, inl, inr, Bytes, [], ◌∷◌, arith}
use ginit.Build.Str.{str_eq, str_le}
use ginit.Build.Profile.{Entry}
use ginit.Build.Env.{entry_le}

pub str_eq_refl : (a : Bytes) → str_eq a a ≡ true
unfolding str_eq
str_eq_refl [] = refl
str_eq_refl (b ∷ a) = ground (arith, str_eq_refl a)

pub str_eq-eq : (a b : Bytes) → str_eq a b ≡ true → a ≡ b
unfolding str_eq
str_eq-eq [] [] e = refl
str_eq-eq [] (y ∷ b) e = absurd cc
str_eq-eq (x ∷ a) [] e = absurd cc
str_eq-eq (x ∷ a) (y ∷ b) e = grind (arith, str_eq-eq a b)

str_le_refl : (a : Bytes) → str_le a a ≡ true
unfolding str_le
str_le_refl [] = refl
str_le_refl (b ∷ a) = ground (arith, str_le_refl a)

str_le_total : (a b : Bytes) → str_le a b ≡ false → str_le b a ≡ true
unfolding str_le
str_le_total [] b e = absurd cc
str_le_total (x ∷ a) [] e = refl
str_le_total (x ∷ a) (y ∷ b) e = ground (arith, str_le_total a b)

str_le_antisym : (a b : Bytes) → str_le a b ≡ true → str_le b a ≡ true → a ≡ b
unfolding str_le
str_le_antisym [] [] p q = refl
str_le_antisym [] (y ∷ b) p q = absurd cc
str_le_antisym (x ∷ a) [] p q = absurd cc
str_le_antisym (x ∷ a) (y ∷ b) p q = grind (arith, str_le_antisym a b)

str_le_trans : (a b c : Bytes) → str_le a b ≡ true → str_le b c ≡ true → str_le a c ≡ true
unfolding str_le
str_le_trans [] b c p q = refl
str_le_trans (x ∷ a) [] c p q = absurd cc
str_le_trans (x ∷ a) (y ∷ b) [] p q = absurd cc
str_le_trans (x ∷ a) (y ∷ b) (z ∷ c) p q = ground (arith, str_le_trans a b c)

pub str_eq_sym : (a b : Bytes) → str_eq a b ≡ str_eq b a
unfolding str_eq
str_eq_sym [] [] = refl
str_eq_sym [] (y ∷ b) = refl
str_eq_sym (x ∷ a) [] = refl
str_eq_sym (x ∷ a) (y ∷ b) = ground (arith, str_eq_sym a b)

pub entry_le_total : (e f : Entry) → entry_le e f ≡ false → entry_le f e ≡ true
unfolding entry_le
entry_le_total (k, v) (l, w) h = ground (arith, str_le_total k l, str_le_total v w, str_eq_sym k l)

pub different : (k l : Bytes) → k ≡ l → str_eq k l ≡ false → ⊥
different k l e other = let h = rw e at other in let r = str_eq_refl l in absurd cc

pub entry_le_antisym : (e f : Entry) → entry_le e f ≡ true → entry_le f e ≡ true → e ≡ f
unfolding entry_le
entry_le_antisym (k, v) (l, w) p q = elim (Bool-cases (str_eq k l)) [
  | inl same ↦
      let k_is_l = str_eq-eq k l same in
      let v_is_w = str_le_antisym v w (rw same at p) (rw (← str_eq_sym k l, same) at q) in
      λ i. (k_is_l i, v_is_w i)
  | inr other ↦
      let k_is_l = str_le_antisym k l (rw other at p) (rw (← str_eq_sym k l, other) at q) in
      absurd (different k l k_is_l other)
]

pub entry_le_trans :
    (e f g : Entry) → entry_le e f ≡ true → entry_le f g ≡ true → entry_le e g ≡ true
unfolding entry_le
entry_le_trans (k, v) (l, w) (m, x) p q = elim (Bool-cases (str_eq k l)) [
  | inl kl ↦ elim (Bool-cases (str_eq l m)) [
    | inl lm ↦ rw (str_eq-eq k l kl, lm) (str_le_trans v w x (rw kl at p) (rw lm at q))
    | inr lm ↦ rw (str_eq-eq k l kl, lm) (rw lm at q)
  ]
  | inr kl ↦ elim (Bool-cases (str_eq l m)) [
    | inl lm ↦ rw (← str_eq-eq l m lm, kl) (rw kl at p)
    | inr lm ↦ strict (rw kl at p) (rw lm at q) kl (Bool-cases (str_eq k m))
  ]
]
  where
    strict :
        str_le k l ≡ true
        → str_le l m ≡ true
        → str_eq k l ≡ false
        → (str_eq k m ≡ true) ⊎ (str_eq k m ≡ false)
        → entry_le (k, v) (m, x) ≡ true
    strict k_le_l l_le_m kl (inl km) =
        let m_le_k : str_le m k ≡ true = rw (str_eq-eq k m km) (str_le_refl m) in
        absurd (different k l (str_le_antisym k l k_le_l (str_le_trans l m k l_le_m m_le_k)) kl)
    strict k_le_l l_le_m kl (inr km) = rw km (str_le_trans k l m k_le_l l_le_m)
