-- ===== src/Security/Users.antt =====
-- `FileUserStore` of netfiles/src/security/access_control.cpp. The map of users is a list with one entry
-- a name, in some order; the file is its text as a C++ text stream gives it.
use net_files.Base.{
  Bool, true, false, ◌||◌, List, [], ◌∷◌, ◌++◌, Option, none, some, Bytes, codes, equal,
  if◌then◌else◌,
}
use net_files.Core.Utils.{getlines}

pub data AccessPermission : Type 0 where
  nothing read write execute admin full : AccessPermission

pub record UserInfo : Type 0 where
  pub username : Bytes
  pub password_hash : Bytes
  pub home_directory : Bytes
  pub permission : AccessPermission
  pub enabled : Bool

unfoldable pub parse_permission : Bytes → AccessPermission
parse_permission s =
    if equal s (codes "read")
    then read
    else if equal s (codes "write")
    then write
    else if equal s (codes "admin")
    then admin
    else nothing

unfoldable pub parse_enabled : Bytes → Bool
parse_enabled s = equal s (codes "1") || equal s (codes "true")

-- `users_[user.username] = user`.
unfoldable pub insert_user : UserInfo → List UserInfo → List UserInfo
insert_user u [] = u ∷ []
insert_user u (v ∷ r) = if equal v.username u.username then u ∷ r else v ∷ insert_user u r

unfoldable pub find_user : Bytes → List UserInfo → Option UserInfo
find_user name [] = none
find_user name (v ∷ r) = if equal v.username name then some v else find_user name r

-- A line with fewer than five parts is passed over; parts behind the fifth are not looked at.
unfoldable pub load_parts : List Bytes → List UserInfo → List UserInfo
unfolding insert_user parse_permission parse_enabled
load_parts (a ∷ b ∷ c ∷ p ∷ e ∷ r) users =
    insert_user
      (record {
        username = a;
        password_hash = b;
        home_directory = c;
        permission = parse_permission p;
        enabled = parse_enabled e;
      })
      users
load_parts _ users = users

unfoldable pub load_lines : List Bytes → List UserInfo → List UserInfo
unfolding load_parts getlines
load_lines [] users = users
load_lines (line ∷ lines) users = load_lines lines (load_parts (getlines b':' [] line) users)

-- No file, no users.
unfoldable pub load_users : Option Bytes → List UserInfo
unfolding load_lines getlines
load_users none = []
load_users (some text) = load_lines (getlines b'\n' [] text) []

unfoldable pub print_permission : AccessPermission → Bytes
print_permission read = codes "read"
print_permission write = codes "write"
print_permission admin = codes "admin"
print_permission _ = codes "none"

unfoldable pub user_line : UserInfo → Bytes
unfolding print_permission
user_line u =
    u.username
    ++ (b':'
        ∷ (u.password_hash
            ++ (b':'
                ∷ (u.home_directory
                    ++ (b':'
                        ∷ (print_permission u.permission
                            ++ (b':' ∷ (if u.enabled then b'1' else b'0') ∷ [])))))))

unfoldable pub save_users : List UserInfo → Bytes
unfolding user_line
save_users [] = []
save_users (u ∷ us) = user_line u ++ (b'\n' ∷ save_users us)

unfoldable pub validate_password : UserInfo → Bytes → Bool
validate_password u password = equal u.password_hash password

unfoldable pub user_exists : Bytes → List UserInfo → Bool
unfolding find_user
user_exists name users = elim (find_user name users) [ none ↦ false | some u ↦ true ]

-- The new map, and the text that the file then holds.
unfoldable pub add_user : UserInfo → List UserInfo → List UserInfo × Bytes
unfolding insert_user save_users
add_user u users = (insert_user u users, save_users (insert_user u users))
