-- ===== src/Security/LastLine.antt =====
-- Which line of the file a user of the loaded store comes from: `FileUserStore::load_users` and
-- `get_user` of netfiles/src/security/access_control.cpp.
use net_files.Base.{
  false, List, [], ◌∷◌, Option, none, some, ◌≡◌, refl, sym, ap, ◌∙◌, Bytes, equal, equal_iff,
  if◌then◌else◌, Bool-cases, inl, inr,
}
use net_files.Core.Utils.{getlines}
use net_files.Security.Users.{
  UserInfo, parse_permission, parse_enabled, insert_user, find_user, load_parts, load_lines,
  load_users,
}

-- What a store holds after an insertion, as a map from names: the new user at his name, and what was
-- there at every other.
find_user-insert_user :
    (name : Bytes) (u : UserInfo) (us : List UserInfo)
    → find_user name (insert_user u us)
      ≡ (if equal u.username name then some u else find_user name us)
unfolding find_user insert_user
find_user-insert_user name u [] = refl
find_user-insert_user name u (v ∷ r) = elim (Bool-cases (equal v.username u.username)) [
  | inl e ↦
      let same : equal v.username name ≡ equal u.username name =
        ap (λ x. equal x name) ((equal_iff v.username u.username).0 e) in
      rw (e, same)
        (elim (Bool-cases (equal u.username name)) [ inl y ↦ rw y refl | inr n ↦ rw n refl ])
  | inr e ↦
      rw (e, find_user-insert_user name u r)
        (elim (Bool-cases (equal u.username name)) [
          | inl y ↦
              let other : equal v.username name ≡ false =
                sym (ap (equal v.username) ((equal_iff u.username name).0 y)) ∙ e in
              rw (y, other) refl
          | inr n ↦ rw n refl
        ])
]

abbrev pub or_else : Option UserInfo → Option UserInfo → Option UserInfo
or_else (some u) o = some u
or_else none o = o

-- The user that a line's parts spell, when there are five at least.
abbrev pub entry_of : List Bytes → Option UserInfo
entry_of (a ∷ b ∷ c ∷ p ∷ e ∷ r) = some (record {
  username = a;
  password_hash = b;
  home_directory = c;
  permission = parse_permission p;
  enabled = parse_enabled e;
})
entry_of _ = none

abbrev pub named : Bytes → Option UserInfo → Option UserInfo
named name none = none
named name (some u) = if equal u.username name then some u else none

-- The last of the lines that spells a user of the name.
unfoldable pub last_named : Bytes → List Bytes → Option UserInfo
last_named name [] = none
last_named name (line ∷ lines) =
    or_else (last_named name lines) (named name (entry_of (getlines b':' [] line)))

find_user-load_parts :
    (name : Bytes) (parts : List Bytes) (us : List UserInfo)
    → find_user name (load_parts parts us)
      ≡ or_else (named name (entry_of parts)) (find_user name us)
unfolding load_parts
find_user-load_parts name [] us = refl
find_user-load_parts name (a ∷ []) us = refl
find_user-load_parts name (a ∷ b ∷ []) us = refl
find_user-load_parts name (a ∷ b ∷ c ∷ []) us = refl
find_user-load_parts name (a ∷ b ∷ c ∷ p ∷ []) us = refl
find_user-load_parts name (a ∷ b ∷ c ∷ p ∷ e ∷ r) us =
    find_user-insert_user name _ us
    ∙ elim (Bool-cases (equal a name)) [ inl y ↦ rw y refl | inr n ↦ rw n refl ]

or_else_assoc : (a b c : Option UserInfo) → or_else a (or_else b c) ≡ or_else (or_else a b) c
or_else_assoc (some u) b c = refl
or_else_assoc none b c = refl

find_user-load_lines :
    (name : Bytes) (lines : List Bytes) (us : List UserInfo)
    → find_user name (load_lines lines us) ≡ or_else (last_named name lines) (find_user name us)
unfolding load_lines last_named
find_user-load_lines name [] us = refl
find_user-load_lines name (line ∷ lines) us =
    let parts = getlines b':' [] line in
    find_user-load_lines name lines (load_parts parts us)
    ∙ ap (or_else (last_named name lines)) (find_user-load_parts name parts us)
    ∙ or_else_assoc (last_named name lines) (named name (entry_of parts)) (find_user name us)

or_else-none : (o : Option UserInfo) → or_else o none ≡ o
or_else-none (some u) = refl
or_else-none none = refl

-- The loaded store is a map from names to users: under every name it has the user that the last line
-- with that name spells, among the lines of five parts at least, and none where no line has the name.
pub find_user-load_users :
    (name text : Bytes)
    → find_user name (load_users (some text)) ≡ last_named name (getlines b'\n' [] text)
unfolding load_users
find_user-load_users name text =
    find_user-load_lines name (getlines b'\n' [] text) []
    ∙ unfold find_user in or_else-none (last_named name (getlines b'\n' [] text))
