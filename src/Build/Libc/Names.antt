-- ===== src/Build/Libc/Names.antt =====
-- The names that build.rs hands to libc, and the list of groups that it gets.
use ginit.Base.{
  ℕ, ◌≤◌, ◌<◌, ◌≡◌, refl, sym, ap, ◌∙◌, ◌==◌, ℤ, pos, negsuc, Bytes, List, [], ◌∷◌, ◌++◌, some,
  length, take, replicate, overwrite, c_str, c_str-append, Free, Bool-cases, inl, inr, arith,
}
use ginit.Build.Settings.{Host, GroupsReply}
use ginit.Build.Libc.{libc_check_error, name_pointer, getgrouplist, get_from_username}

c_str-behind : (name behind : Bytes) → Free 0 name → c_str (name ++ behind) ≡ name ++ c_str behind
unfolding c_str
c_str-behind [] behind f = refl
c_str-behind (b ∷ name) behind (n, f) = rw (n, c_str-behind name behind f) refl

c_str-Free : (s : Bytes) → Free 0 (c_str s)
unfolding c_str
c_str-Free [] = tt
c_str-Free (b ∷ s) = elim (Bool-cases (b == 0)) [
  | inl nul ↦ rw nul tt
  | inr other ↦ rw other (other, c_str-Free s)
]

c_str-whole : (s : Bytes) → Free 0 s → c_str (s ++ 0 ∷ []) ≡ s
c_str-whole s f = c_str-append s [] f

Free-append : (a b : Bytes) → Free 0 a → Free 0 b → Free 0 (a ++ b)
Free-append [] b f g = g
Free-append (c ∷ a) b (n, f) g = (n, Free-append a b f g)

-- The host, with a NUL behind the name of the user.
abbrev pub with_nul : Host → Host
with_nul host = record host { behind_user = 0 ∷ [] }

name_pointer-behind :
    (host : Host) (name : Bytes)
    → Free 0 name
    → name_pointer host name ≡ name_pointer (with_nul host) (name ++ c_str host.behind_user)
unfolding name_pointer
name_pointer-behind host name f =
    c_str-behind name host.behind_user f
    ∙ sym (
        c_str-whole (name ++ c_str host.behind_user)
          (Free-append name _ f (c_str-Free host.behind_user)))

-- The script gets the entry of the user whose name goes on with the bytes that lie behind the
-- string in memory, up to a NUL: that of another user, or a panic, unless the next byte is a NUL.
pub get_from_username-behind :
    (host : Host) (name : Bytes)
    → Free 0 name
    → get_from_username host name
      ≡ get_from_username (with_nul host) (name ++ c_str host.behind_user)
unfolding get_from_username
get_from_username-behind host name f = rw (name_pointer-behind host name f) refl

-- What the manual says of `getgrouplist`, for a user with these groups: all of them are stored
-- where there is room, else the result is -1; `*ngroups` gets their number in both cases.
pub record ListsGroups (reply : ℤ → GroupsReply) (groups : List ℕ) : Type 0 where
  pub no_room :
      (room : ℕ)
      → room < length groups
      → reply (pos room)
        ≡ record { ret = negsuc 0; num = pos (length groups); stored = take room groups }
  pub has_room :
      (room : ℕ)
      → length groups ≤ room
      → reply (pos room)
        ≡ record { ret = pos (length groups); num = pos (length groups); stored = groups }

overwrite-replicate : (groups : List ℕ) → overwrite (replicate (length groups) 0) groups ≡ groups
overwrite-replicate [] = refl
overwrite-replicate (g ∷ groups) = ap (◌∷◌ g) (overwrite-replicate groups)

first_num :
    (reply : ℤ → GroupsReply) (groups : List ℕ)
    → ListsGroups reply groups
    → (reply (pos 0)).num ≡ pos (length groups)
first_num reply [] l = ap (λ (r : GroupsReply). r.num) (l.has_room 0 (omega arith))
first_num reply (g ∷ groups) l = ap (λ (r : GroupsReply). r.num) (l.no_room 0 (omega arith))

-- The two calls get the whole list of groups, whatever its length.
pub getgrouplist-ListsGroups :
    (host : Host) (name : Bytes) (group : ℕ) (groups : List ℕ)
    → ListsGroups (host.getgrouplist (name_pointer host name) group) groups
    → getgrouplist host name group ≡ some groups
unfolding getgrouplist libc_check_error
getgrouplist-ListsGroups host name group groups l =
    rw
      (
        first_num (host.getgrouplist (name_pointer host name) group) groups l,
        l.has_room (length groups) (omega arith),
      )
      (ap some (overwrite-replicate groups))
