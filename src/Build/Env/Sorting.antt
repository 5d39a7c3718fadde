-- ===== src/Build/Env/Sorting.antt =====
-- The environment of the compositor does not depend on the order in which the maps are iterated.
use ginit.Base.{
  ◌≡◌, refl, sym, ap, ◌∙◌, true, Bool-cases, inl, inr, List, [], ◌∷◌, ◌++◌, if◌then◌else◌, text,
  arith,
}
use mathlib.Core.List.{foldr, Perm}
use mathlib.Core.List.Perm
use ginit.Build.Str.{str_eq}
use ginit.Build.Profile.{Entry}
use ginit.Build.Libc.{Passwd}
use ginit.Build.Env.{entry_le, insert_sorted, sort_unstable, without_rootpath, pushed_env, sway_env}
use ginit.Build.Env.Order.{entry_le_total, entry_le_antisym, entry_le_trans}

insert_front :
    (e f : Entry) (env : List Entry)
    → entry_le e f ≡ true
    → insert_sorted e (insert_sorted f env) ≡ insert_sorted f (insert_sorted e env)
unfolding insert_sorted
insert_front e f [] h = grind (arith, entry_le_antisym e f)
insert_front e f (g ∷ env) h =
    grind (
      arith,
      entry_le_antisym e f,
      entry_le_trans e f g,
      entry_le_trans f e g,
      insert_front e f env,
    )

-- Two entries may be inserted in either order.
insert_sorted-commute :
    (e f : Entry) (env : List Entry)
    → insert_sorted e (insert_sorted f env) ≡ insert_sorted f (insert_sorted e env)
insert_sorted-commute e f env = elim (Bool-cases (entry_le e f)) [
  | inl below ↦ insert_front e f env below
  | inr above ↦ sym (insert_front f e env (entry_le_total e f above))
]

-- An entry of the profile goes into the sorted list, except for ROOTPATH.
abbrev insert_other : Entry → List Entry → List Entry
insert_other (k, v) env = if str_eq k (text "ROOTPATH") then env else insert_sorted (k, v) env

insert_other-commute :
    (e f : Entry) (env : List Entry)
    → insert_other e (insert_other f env) ≡ insert_other f (insert_other e env)
insert_other-commute (k, v) (l, w) env = ground (arith, insert_sorted-commute (k, v) (l, w) env)

sort_unstable-foldr :
    (xs ys : List Entry) → sort_unstable (xs ++ ys) ≡ foldr insert_sorted (sort_unstable ys) xs
unfolding sort_unstable
sort_unstable-foldr [] ys = refl
sort_unstable-foldr (x ∷ xs) ys = ap (insert_sorted x) (sort_unstable-foldr xs ys)

sort_unstable-others :
    (xs ys : List Entry)
    → sort_unstable (without_rootpath xs ++ ys) ≡ foldr insert_other (sort_unstable ys) xs
unfolding sort_unstable without_rootpath
sort_unstable-others [] ys = refl
sort_unstable-others ((k, v) ∷ xs) ys = ground (arith, sort_unstable-others xs ys)

-- The entries of the profile and those of the settings may come in any order: the list is the
-- same.
pub sway_env-Perm :
    (profile profile' ui ui' : List Entry) (passwd : Passwd)
    → Perm profile profile'
    → Perm ui ui'
    → sway_env profile ui passwd ≡ sway_env profile' ui' passwd
unfolding sway_env
sway_env-Perm profile profile' ui ui' passwd p q =
    let pushed = pushed_env passwd in
    sort_unstable-others profile (ui ++ pushed)
    ∙ Perm.foldr-eq (hlevel) insert_other insert_other-commute p (sort_unstable (ui ++ pushed))
    ∙ ap (λ (env : List Entry). foldr insert_other env profile')
        (sort_unstable-foldr ui pushed
          ∙ Perm.foldr-eq (hlevel) insert_sorted insert_sorted-commute q (sort_unstable pushed)
          ∙ sym (sort_unstable-foldr ui' pushed))
    ∙ sym (sort_unstable-others profile' (ui' ++ pushed))
