-- ===== src/Security/Stored.antt =====
-- Saving the users of a store and loading them again.
use net_files.Base.{
  Bool, true, false, List, [], ◌∷◌, ◌++◌, append_assoc, append-nil, some, ◌≡◌, ◌≢◌, refl, sym, ap,
  ◌∙◌, Bytes, codes, equal, is_empty, if◌then◌else◌, All, All-append, Lacks, arith,
}
use net_files.Core.Utils.{getlines, getlines-part, getlines-last}
use net_files.Security.Users.{
  AccessPermission, nothing, read, write, execute, admin, full, UserInfo, parse_permission,
  parse_enabled, insert_user, load_parts, load_lines, load_users, print_permission, user_line,
  save_users,
}

-- What the file's format can hold: texts without its two delimiters, and one of the four permissions
-- that it has words for.
pub record IsPlain (u : UserInfo) : Type 0 where
  pub name_fits : Lacks b':' u.username × Lacks b'\n' u.username
  pub hash_fits : Lacks b':' u.password_hash × Lacks b'\n' u.password_hash
  pub home_fits : Lacks b':' u.home_directory × Lacks b'\n' u.home_directory
  pub not_execute : u.permission ≢ execute
  pub not_full : u.permission ≢ full

permission_word :
    (p : AccessPermission) → Lacks b':' (print_permission p) × Lacks b'\n' (print_permission p)
unfolding print_permission codes
permission_word nothing = ground arith
permission_word read = ground arith
permission_word write = ground arith
permission_word execute = ground arith
permission_word admin = ground arith
permission_word full = ground arith

parse_permission-print_permission :
    (p : AccessPermission) → p ≢ execute → p ≢ full → parse_permission (print_permission p) ≡ p
unfolding parse_permission print_permission codes equal
parse_permission-print_permission nothing e f = refl
parse_permission-print_permission read e f = refl
parse_permission-print_permission write e f = refl
parse_permission-print_permission admin e f = refl
parse_permission-print_permission execute e f = absurd (e refl)
parse_permission-print_permission full e f = absurd (f refl)

abbrev flag : Bool → Bytes
flag b = (if b then b'1' else b'0') ∷ []

flag_fits :
    (b : Bool)
    → Lacks b':' (flag b)
      × Lacks b'\n' (flag b)
      × (parse_enabled (flag b) ≡ b)
      × (is_empty (flag b) ≡ false)
unfolding parse_enabled codes equal
flag_fits true = ground arith
flag_fits false = ground arith

getlines-user_line :
    (u : UserInfo)
    → IsPlain u
    → getlines b':' [] (user_line u)
      ≡ u.username
        ∷ u.password_hash
        ∷ u.home_directory
        ∷ print_permission u.permission
        ∷ flag u.enabled
        ∷ []
unfolding user_line
getlines-user_line u h =
    getlines-part b':' u.username [] _ h.name_fits.0
    ∙ ap (λ r. u.username ∷ r)
        (getlines-part b':' u.password_hash [] _ h.hash_fits.0
          ∙ ap (λ r. u.password_hash ∷ r)
              (getlines-part b':' u.home_directory [] _ h.home_fits.0
                ∙ ap (λ r. u.home_directory ∷ r)
                    (getlines-part b':' (print_permission u.permission) [] _
                        (permission_word u.permission).0
                      ∙ ap (λ r. print_permission u.permission ∷ r)
                          (getlines-last b':' (flag u.enabled) [] (flag_fits u.enabled).0
                            (flag_fits u.enabled).3))))

user_line-Lacks : (u : UserInfo) → IsPlain u → Lacks b'\n' (user_line u)
unfolding user_line
user_line-Lacks u h = joined u.username _ h.name_fits.1 (
    joined u.password_hash _ h.hash_fits.1 (
      joined u.home_directory _ h.home_fits.1 (
        joined (print_permission u.permission) _ (permission_word u.permission).1
          (flag_fits u.enabled).1)))
  where
    joined : (p s : Bytes) → Lacks b'\n' p → Lacks b'\n' s → Lacks b'\n' (p ++ (b':' ∷ s))
    joined p s hp hs = All-append (λ c. c ≢ b'\n') p (b':' ∷ s) hp (ground arith, hs)

load_parts-user_line :
    (u : UserInfo) (users : List UserInfo)
    → IsPlain u
    → load_parts (getlines b':' [] (user_line u)) users ≡ insert_user u users
unfolding load_parts
load_parts-user_line u users h = rw (
  getlines-user_line u h,
  parse_permission-print_permission u.permission h.not_execute h.not_full,
  (flag_fits u.enabled).2,
)

-- No user of the list has the name.
abbrev Fresh : Bytes → List UserInfo → Type 0
Fresh name = All (λ v. equal v.username name ≡ false)

insert_user-Fresh :
    (u : UserInfo) (users : List UserInfo)
    → Fresh u.username users
    → insert_user u users ≡ users ++ u ∷ []
unfolding insert_user
insert_user-Fresh u [] h = refl
insert_user-Fresh u (v ∷ r) (n, h) = rw (n, insert_user-Fresh u r h)

-- The names of the list are different, and none is in use before it.
abbrev pub AllNew : List UserInfo → List UserInfo → Type 0
AllNew before [] = Unit
AllNew before (u ∷ us) = Fresh u.username before × AllNew (before ++ u ∷ []) us

load_lines-save_users :
    (us before : List UserInfo)
    → All IsPlain us
    → AllNew before us
    → load_lines (getlines b'\n' [] (save_users us)) before ≡ before ++ us
unfolding load_lines save_users
load_lines-save_users [] before h n = unfold getlines in sym (append-nil before)
load_lines-save_users (u ∷ us) before (p, h) (f, n) =
    let rest = getlines b'\n' [] (save_users us) in
    ap (λ ls. load_lines ls before)
      (getlines-part b'\n' (user_line u) [] (save_users us) (user_line-Lacks u p))
    ∙ ap (load_lines rest) (load_parts-user_line u before p ∙ insert_user-Fresh u before f)
    ∙ load_lines-save_users us (before ++ u ∷ []) h n
    ∙ append_assoc before (u ∷ []) us

-- A store that was saved is loaded as it was, in the same order, when its names are different, no
-- text of it holds a colon or a line end, and every permission is one that the format has a word for.
pub load_users-save_users :
    (us : List UserInfo) → All IsPlain us → AllNew [] us → load_users (some (save_users us)) ≡ us
unfolding load_users
load_users-save_users us h n = load_lines-save_users us [] h n
