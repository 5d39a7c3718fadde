-- ===== src/Build/Env/Lookup.antt =====
-- What a program finds in the sorted environment: `getenv` gives the first entry of a name.
use ginit.Base.{
  ◌≡◌, refl, sym, true, false, Bool-cases, ◌⊎◌, inl, inr, Bytes, List, [], ◌∷◌, ◌++◌, Option, none,
  some, if◌then◌else◌,
}
use ginit.Build.Str.{str_eq, str_le}
use ginit.Build.Profile.{Entry, get}
use ginit.Build.Env.{entry_le, insert_sorted, sort_unstable, without_rootpath, pushed_env, sway_env}
use ginit.Build.Libc.{Passwd}
use ginit.Build.Env.Order.{str_eq-eq, str_eq_refl, entry_le_total, entry_le_trans}

abbrev smaller : Bytes → Option Bytes → Option Bytes
smaller v none = some v
smaller v (some w) = some (if str_le v w then v else w)

-- The least of the values that the entries give a name.
unfoldable pub least : Bytes → List Entry → Option Bytes
least key [] = none
least key ((k, v) ∷ env) = let rest = least key env in if str_eq key k then smaller v rest else rest

-- No entry of the list is less than this one.
abbrev Bounds : Entry → List Entry → Type 0
Bounds e [] = Unit
Bounds e (f ∷ env) = (entry_le e f ≡ true) × Bounds e env

abbrev IsSorted : List Entry → Type 0
IsSorted [] = Unit
IsSorted (e ∷ env) = Bounds e env × IsSorted env

Bounds-trans : (e f : Entry) (env : List Entry) → entry_le e f ≡ true → Bounds f env → Bounds e env
Bounds-trans e f [] l b = tt
Bounds-trans e f (g ∷ env) l (h, b) = (entry_le_trans e f g l h, Bounds-trans e f env l b)

Bounds-insert :
    (e f : Entry) (env : List Entry)
    → entry_le e f ≡ true
    → Bounds e env
    → Bounds e (insert_sorted f env)
unfolding insert_sorted
Bounds-insert e f [] l b = (l, tt)
Bounds-insert e f (g ∷ env) l (h, b) = elim (Bool-cases (entry_le f g)) [
  | inl below ↦ rw below (l, (h, b))
  | inr above ↦ rw above (h, Bounds-insert e f env l b)
]

insert_sorted-IsSorted :
    (e : Entry) (env : List Entry) → IsSorted env → IsSorted (insert_sorted e env)
unfolding insert_sorted
insert_sorted-IsSorted e [] s = (tt, tt)
insert_sorted-IsSorted e (f ∷ env) (b, s) = elim (Bool-cases (entry_le e f)) [
  | inl below ↦ rw below ((below, Bounds-trans e f env below b), (b, s))
  | inr above ↦
      rw above (Bounds-insert f e env (entry_le_total e f above) b, insert_sorted-IsSorted e env s)
]

sort_unstable-IsSorted : (env : List Entry) → IsSorted (sort_unstable env)
unfolding sort_unstable
sort_unstable-IsSorted [] = tt
sort_unstable-IsSorted (e ∷ env) = insert_sorted-IsSorted e _ (sort_unstable-IsSorted env)

-- The value of an entry in front of a list that it bounds is the smaller one.
smaller-get :
    (key v : Bytes) (env : List Entry) → Bounds (key, v) env → smaller v (get key env) ≡ some v
unfolding get entry_le
smaller-get key v [] b = refl
smaller-get key v ((k, w) ∷ env) (h, b) = elim (Bool-cases (str_eq key k)) [
  | inl same ↦ rw (same, (rw same at h)) refl
  | inr other ↦ rw other (smaller-get key v env b)
]

get-front :
    (key k v : Bytes) (env : List Entry)
    → Bounds (k, v) env
    → get key ((k, v) ∷ env) ≡ (if str_eq key k then smaller v (get key env) else get key env)
unfolding get
get-front key k v env b = elim (Bool-cases (str_eq key k)) [
  | inl same ↦ rw same (sym (smaller-get key v env (rw (str_eq-eq key k same) b)))
  | inr other ↦ rw other refl
]

-- Behind an entry that is less, the name is another one or the value is greater.
get-behind :
    (key k v l w : Bytes)
    → entry_le (k, v) (l, w) ≡ false
    → str_eq key k ≡ true
    → str_eq key l ≡ true
    → some w ≡ smaller v (some w)
unfolding entry_le
get-behind key k v l w above same_k same_l =
    let here : entry_le (key, v) (key, w) ≡ false =
      rw (← str_eq-eq key k same_k, ← str_eq-eq key l same_l) at above in
    rw (rw (str_eq_refl key) at here) refl

get-insert_sorted :
    (key k v : Bytes) (env : List Entry)
    → IsSorted env
    → get key (insert_sorted (k, v) env)
      ≡ (if str_eq key k then smaller v (get key env) else get key env)
unfolding insert_sorted get
get-insert_sorted key k v [] s = refl
get-insert_sorted key k v ((l, w) ∷ env) (b, s) = elim (Bool-cases (entry_le (k, v) (l, w))) [
  | inl below ↦
      rw below (get-front key k v ((l, w) ∷ env) (below, Bounds-trans (k, v) (l, w) env below b))
  | inr above ↦
      rw (above, get-insert_sorted key k v env s)
        (behind above (Bool-cases (str_eq key k)) (Bool-cases (str_eq key l)))
]
  where
    behind :
        entry_le (k, v) (l, w) ≡ false
        → (str_eq key k ≡ true) ⊎ (str_eq key k ≡ false)
        → (str_eq key l ≡ true) ⊎ (str_eq key l ≡ false)
        → (if str_eq key l
            then some w
            else if str_eq key k
            then smaller v (get key env)
            else get key env)
          ≡ (if str_eq key k
              then smaller v (if str_eq key l then some w else get key env)
              else if str_eq key l
              then some w
              else get key env)
    behind above (inl p) (inl q) = rw (p, q) (get-behind key k v l w above p q)
    behind above (inl p) (inr q) = rw (p, q) refl
    behind above (inr p) (inl q) = rw (p, q) refl
    behind above (inr p) (inr q) = rw (p, q) refl

-- The first entry of a name in the sorted list has the least of the values that it is given.
pub get-sort_unstable :
    (key : Bytes) (env : List Entry) → get key (sort_unstable env) ≡ least key env
unfolding sort_unstable least get
get-sort_unstable key [] = refl
get-sort_unstable key ((k, v) ∷ env) =
    rw
      (
        get-insert_sorted key k v (sort_unstable env) (sort_unstable-IsSorted env),
        get-sort_unstable key env,
      )
      refl

-- What `getenv` finds for a name in the environment of the compositor is the least of all the
-- values that the profile, the settings and the script itself give it.
pub get-sway_env :
    (key : Bytes) (profile ui : List Entry) (passwd : Passwd)
    → get key (sway_env profile ui passwd)
      ≡ least key (without_rootpath profile ++ (ui ++ pushed_env passwd))
unfolding sway_env
get-sway_env key profile ui passwd =
    get-sort_unstable key (without_rootpath profile ++ (ui ++ pushed_env passwd))
