-- ===== src/Build/Profile/Lines.antt =====
-- `get_profile_env` of build.rs on a file of lines `export KEY='value'`.
use ginit.Base.{
  ℕ, ◌≡◌, refl, sym, ◌∙◌, ◌⊎◌, true, false, Bytes, List, [], ◌∷◌, ◌++◌, append_assoc, Option, none,
  some, text, if◌then◌else◌, Free, Bool-cases, inl, inr,
}
use ginit.Build.Str.{is_utf8, from_utf8, lines, str_eq}
use ginit.Build.Str.Parts.{lines-quoted, split_once-append}
use ginit.Build.Unquote.Quoting.{unquote-quoted}
use ginit.Build.Profile.{Entry, insert, get, profile_entry, collect, get_profile_env}
use ginit.Build.Reader.Literals.{strip_prefix-append}
use ginit.Build.Env.Order.{str_eq-eq, different}

-- The line of an entry without its closing quote.
abbrev line_start : Bytes → Bytes → Bytes
line_start key value = text "export " ++ (key ++ b'=' ∷ b'\'' ∷ value)

unfoldable pub profile_text : List Entry → Bytes
profile_text [] = []
profile_text ((key, value) ∷ env) = line_start key value ++ b'\'' ∷ b'\n' ∷ profile_text env

-- The keys and values that such lines can hold.
pub record IsExport (key value : Bytes) : Type 0 where
  pub key_line : Free b'\n' key
  pub key_name : Free b'=' key
  pub value_line : Free b'\n' value
  pub value_quotes : Free b'\'' value
  pub value_backslashes : Free b'\\' value

abbrev pub AreExports : List Entry → Type 0
AreExports [] = Unit
AreExports ((key, value) ∷ env) = IsExport key value × AreExports env

Free-append : (x : ℕ) (a b : Bytes) → Free x a → Free x b → Free x (a ++ b)
Free-append x [] b f g = g
Free-append x (c ∷ a) b (n, f) g = (n, Free-append x a b f g)

line_start-Free : (key value : Bytes) → IsExport key value → Free b'\n' (line_start key value)
unfolding text
line_start-Free key value e =
    let rest =
      Free-append b'\n' key (b'=' ∷ b'\'' ∷ value) e.key_line (refl, (refl, e.value_line)) in
    (refl, (refl, (refl, (refl, (refl, (refl, (refl, rest)))))))

profile_entry-export :
    (key value : Bytes)
    → IsExport key value
    → profile_entry (line_start key value ++ b'\'' ∷ []) ≡ some (some (key, value))
unfolding profile_entry
profile_entry-export key value e =
    rw
      (
        append_assoc (text "export ") (key ++ b'=' ∷ b'\'' ∷ value) (b'\'' ∷ []),
        append_assoc key (b'=' ∷ b'\'' ∷ value) (b'\'' ∷ []),
        profile_entry,
        strip_prefix-append (text "export ") _,
        split_once-append b'=' key _ e.key_name,
        unquote-quoted value e.value_quotes e.value_backslashes,
      )
      refl

-- The entries put into a map, one after the other.
abbrev insert_all : List Entry → List Entry → List Entry
insert_all env [] = env
insert_all env ((key, value) ∷ entries) = insert_all (insert key value env) entries

collect-profile_text :
    (env entries : List Entry)
    → AreExports entries
    → collect env (lines (profile_text entries)) ≡ some (insert_all env entries)
unfolding collect profile_text lines
collect-profile_text env [] e = refl
collect-profile_text env ((key, value) ∷ entries) (e, es) =
    rw
      (
        lines-quoted (line_start key value) (profile_text entries) (line_start-Free key value e),
        profile_entry-export key value e,
      )
      (collect-profile_text (insert key value env) entries es)

-- The value that the last entry with this key gives, or the one that was there before.
unfoldable pub last_value : Bytes → Option Bytes → List Entry → Option Bytes
last_value key before [] = before
last_value key before ((k, v) ∷ entries) =
    let now = if str_eq key k then some v else before in last_value key now entries

get-insert :
    (key k v : Bytes) (env : List Entry)
    → get key (insert k v env) ≡ (if str_eq key k then some v else get key env)
unfolding get insert
get-insert key k v [] = refl
get-insert key k v ((l, w) ∷ env) = elim (Bool-cases (str_eq k l)) [
  | inl same ↦ rw (same, str_eq-eq k l same) (replaced (Bool-cases (str_eq key l)))
  | inr other ↦
      rw (other, get-insert key k v env)
        (kept other (Bool-cases (str_eq key k)) (Bool-cases (str_eq key l)))
]
  where
    replaced :
        (str_eq key l ≡ true) ⊎ (str_eq key l ≡ false)
        → (if str_eq key l then some v else get key env)
          ≡ (if str_eq key l then some v else if str_eq key l then some w else get key env)
    replaced (inl p) = rw p refl
    replaced (inr p) = rw p refl

    kept :
        str_eq k l ≡ false
        → (str_eq key k ≡ true) ⊎ (str_eq key k ≡ false)
        → (str_eq key l ≡ true) ⊎ (str_eq key l ≡ false)
        → (if str_eq key l then some w else if str_eq key k then some v else get key env)
          ≡ (if str_eq key k then some v else if str_eq key l then some w else get key env)
    kept other (inl p) (inl q) =
        absurd (different k l (sym (str_eq-eq key k p) ∙ str_eq-eq key l q) other)
    kept other (inl p) (inr q) = rw (p, q) refl
    kept other (inr p) (inl q) = rw (p, q) refl
    kept other (inr p) (inr q) = rw (p, q) refl

get-insert_all :
    (key : Bytes) (env entries : List Entry)
    → get key (insert_all env entries) ≡ last_value key (get key env) entries
unfolding last_value
get-insert_all key env [] = refl
get-insert_all key env ((k, v) ∷ entries) =
    rw (get-insert_all key (insert k v env) entries, get-insert key k v env) refl

-- A file of lines `export KEY='value'`, in UTF-8, gives a map in which every key has the value of
-- its last line, and no other key is there.
pub get_profile_env-profile_text :
    (entries : List Entry)
    → is_utf8 (profile_text entries) ≡ true
    → AreExports entries
    → (env : List Entry) × (get_profile_env (some (profile_text entries)) ≡ some env)
      × ((key : Bytes) → get key env ≡ last_value key none entries)
unfolding get_profile_env from_utf8 get
get_profile_env-profile_text entries u e = (
  insert_all [] entries,
  rw u (collect-profile_text [] entries e),
  λ key. get-insert_all key [] entries,
)
