-- ===== src/Build/Generated/Lists.antt =====
-- The lists of the generated file: the environment and the groups, as they are read back.
use ginit.Base.{
  ℕ, zero, suc, ◌<◌, ◌≤◌, ◌^◌, ◌≡◌, refl, true, Bytes, List, [], ◌∷◌, ◌++◌, append_assoc,
  append-nil, flatten, sym, ◌∙◌, map, Option, none, some, text, length, length-append, arith,
}
use ginit.Linux.Console.{decimal}
use ginit.Build.Str.{strip_prefix}
use ginit.Build.Addr.{is_digit}
use ginit.Build.Profile.{Entry}
use ginit.Build.Format.{c_literal, entry_pieces, user_groups_str, sway_envp_str}
use ginit.Build.Reader.{read_number, starts_with_digit}
use ginit.Build.Reader.Literals.{fill, flatten-fill, all_plain, read_c_literal-c_literal}
use ginit.Build.Reader.Numbers.{EndsNumber, read_number-decimal, starts_with_digit-decimal}
use ginit.Build.Generated.{read_until, read_entry, read_more, read_array}

module _ {A : Type 0} (end : Bytes) (item : Bytes → Option (A × Bytes)) where
  pub read_until-step :
      (fuel : ℕ) (s more rest : Bytes) (first : A) (others : List A)
      → strip_prefix end s ≡ none
      → item s ≡ some (first, more)
      → read_until end item fuel more ≡ some (others, rest)
      → read_until end item (suc fuel) s ≡ some (first ∷ others, rest)
  unfolding read_until
  read_until-step fuel s more rest first others p q r = rw (read_until, p, q, r) refl

-- `key=value`
abbrev pub entry_text : Entry → Bytes
entry_text (k, v) = k ++ (text "=" ++ v)

abbrev pub PlainEntries : List Entry → Type 0
PlainEntries [] = Unit
PlainEntries (e ∷ env) = (all_plain (entry_text e) ≡ true) × PlainEntries env

read_entry-fill :
    (entry rest : Bytes)
    → all_plain entry ≡ true
    → read_entry (fill (entry_pieces entry) rest) ≡ some (entry, rest)
unfolding read_entry text strip_prefix
read_entry-fill entry rest h = rw (read_c_literal-c_literal entry _ h) refl

abbrev pub env_end : Bytes
env_end = text "    ptr::null(),\n]"

sway_envp_str-fill :
    (e : Entry) (env : List Entry) (rest : Bytes)
    → sway_envp_str (e ∷ env) ++ rest
      ≡ fill (entry_pieces (entry_text e)) (sway_envp_str env ++ rest)
unfolding sway_envp_str
sway_envp_str-fill (k, v) env rest =
    append_assoc (flatten (entry_pieces (k ++ (text "=" ++ v)))) (sway_envp_str env) rest
    ∙ flatten-fill (entry_pieces (k ++ (text "=" ++ v))) (sway_envp_str env ++ rest)

read_until-sway_envp_str :
    (fuel : ℕ) (env : List Entry) (rest : Bytes)
    → length env < fuel
    → PlainEntries env
    → read_until env_end read_entry fuel (sway_envp_str env ++ (env_end ++ rest))
      ≡ some (map entry_text env, rest)
unfolding read_until sway_envp_str c_literal text strip_prefix
read_until-sway_envp_str zero env rest l p = absurd (omega arith)
read_until-sway_envp_str (suc fuel) [] rest l p = refl
read_until-sway_envp_str (suc fuel) (e ∷ env) rest l (h, p) =
    rw (sway_envp_str-fill e env (env_end ++ rest)) (
      read_until-step env_end read_entry fuel _ _ rest _ _ refl (read_entry-fill _ _ h)
        (read_until-sway_envp_str fuel env rest (omega arith) p))

length-sway_envp_str : (env : List Entry) → length env ≤ length (sway_envp_str env)
unfolding sway_envp_str text
length-sway_envp_str [] = omega arith
length-sway_envp_str ((k, v) ∷ env) =
    rw (length-append _ (sway_envp_str env)) (omega (arith, length-sway_envp_str env))

pub read_env :
    (env : List Entry) (rest : Bytes)
    → PlainEntries env
    → (let s = sway_envp_str env ++ (env_end ++ rest) in
        read_until env_end read_entry (length s) s ≡ some (map entry_text env, rest))
unfolding text
read_env env rest p =
    read_until-sway_envp_str _ env rest
      (rw (length-append (sway_envp_str env) (env_end ++ rest))
        (omega (arith, length-sway_envp_str env)))
      p

abbrev pub AllBelow : ℕ → List ℕ → Type 0
AllBelow bound [] = Unit
AllBelow bound (n ∷ ns) = (n < bound) × AllBelow bound ns

-- The text behind the first number.
abbrev more_str : List ℕ → Bytes
more_str [] = []
more_str (g ∷ groups) = text ", " ++ user_groups_str (g ∷ groups)

user_groups_str-cons :
    (g : ℕ) (groups : List ℕ) → user_groups_str (g ∷ groups) ≡ decimal g ++ more_str groups
unfolding user_groups_str
user_groups_str-cons g [] = sym (append-nil (decimal g))
user_groups_str-cons g (h ∷ groups) = refl

more_str-EndsNumber :
    (groups : List ℕ) (rest : Bytes) → EndsNumber (more_str groups ++ (text "]" ++ rest))
unfolding text is_digit
more_str-EndsNumber [] rest = refl
more_str-EndsNumber (g ∷ groups) rest = refl

read_first :
    (g : ℕ) (groups : List ℕ) (rest : Bytes)
    → g < 2 ^ 32
    → read_number (2 ^ 32) (user_groups_str (g ∷ groups) ++ (text "]" ++ rest))
      ≡ some (g, more_str groups ++ (text "]" ++ rest))
read_first g groups rest b =
    rw
      (user_groups_str-cons g groups, append_assoc (decimal g) (more_str groups) (text "]" ++ rest))
      (read_number-decimal _ g _ b (more_str-EndsNumber groups rest))

read_more-more_str :
    (fuel : ℕ) (groups : List ℕ) (rest : Bytes)
    → length groups < fuel
    → AllBelow (2 ^ 32) groups
    → read_more fuel (more_str groups ++ (text "]" ++ rest)) ≡ some (groups, rest)
unfolding read_more text strip_prefix is_digit
read_more-more_str zero groups rest l p = absurd (omega arith)
read_more-more_str (suc fuel) [] rest l p = refl
read_more-more_str (suc fuel) (g ∷ groups) rest l (b, p) =
    rw (read_first g groups rest b, read_more-more_str fuel groups rest (omega arith) p) refl

length-more_str : (groups : List ℕ) → length groups ≤ length (more_str groups)
unfolding text
length-more_str [] = omega arith
length-more_str (g ∷ groups) =
    rw (user_groups_str-cons g groups, length-append (decimal g) (more_str groups))
      (omega (arith, length-more_str groups))

not_closed : (s : Bytes) → starts_with_digit s ≡ true → strip_prefix (text "]") s ≡ none
unfolding text strip_prefix is_digit
not_closed [] h = ground arith
not_closed (b ∷ s) h = ground arith

first-not_closed :
    (g : ℕ) (groups : List ℕ) (rest : Bytes)
    → strip_prefix (text "]") (user_groups_str (g ∷ groups) ++ rest) ≡ none
first-not_closed g groups rest = not_closed _ (
    rw (user_groups_str-cons g groups, append_assoc (decimal g) (more_str groups) rest)
      (starts_with_digit-decimal g _))

read_more-length :
    (groups : List ℕ) (rest : Bytes)
    → AllBelow (2 ^ 32) groups
    → (let s = more_str groups ++ (text "]" ++ rest) in
        read_more (length s) s ≡ some (groups, rest))
unfolding text
read_more-length groups rest p =
    read_more-more_str _ groups rest
      (rw (length-append (more_str groups) (text "]" ++ rest))
        (omega (arith, length-more_str groups)))
      p

pub read_array-user_groups_str :
    (groups : List ℕ) (rest : Bytes)
    → AllBelow (2 ^ 32) groups
    → read_array (user_groups_str groups ++ (text "]" ++ rest)) ≡ some (groups, rest)
unfolding read_array user_groups_str text strip_prefix
read_array-user_groups_str [] rest p = refl
read_array-user_groups_str (g ∷ groups) rest (b, p) =
    rw
      (
        read_array,
        first-not_closed g groups (text "]" ++ rest),
        read_first g groups rest b,
        read_more-length groups rest p,
      )
      refl
