-- ===== src/Security/Access.antt =====
-- `AccessController` of netfiles/src/security/access_control.cpp, and who it lets in.
pub mod Granted
use net_files.Base.{
  ℕ, ◌≤◌, ◌≢◌, inl, inr, Bool-cases, Bool, true, false, not, ◌&&◌, ◌||◌, List, Option, none, some,
  ◌≡◌, ◌↔◌, refl, ap, ◌∙◌, Bytes, equal_iff, is_empty, if◌then◌else◌, ◌==◌, leb, starts_with,
  starts_with_iff, IsPrefixOf, Outcome, done, thrown, arith,
}
use net_files.Core.Fs.Disk.{Disk}
use net_files.Core.Fs.Ops.{message, not_found}
use net_files.Core.Fs.Walk.{canonical, exists}
use net_files.Security.Users.{
  AccessPermission, nothing, read, write, execute, admin, full, UserInfo, find_user,
  validate_password,
}

pub data AuthResult : Type 0 where
  success failure no_such_user wrong_password account_disabled need_password : AuthResult

unfoldable pub authenticate_user : Option UserInfo → Bytes → AuthResult
unfolding validate_password
authenticate_user none password = no_such_user
authenticate_user (some user) password =
    if not user.enabled
    then account_disabled
    else if validate_password user password
    then success
    else wrong_password

unfoldable pub authenticate : List UserInfo → Bytes → Bytes → AuthResult
unfolding authenticate_user find_user
authenticate users username password = authenticate_user (find_user username users) password

abbrev ordinal : AccessPermission → ℕ
ordinal nothing = 0
ordinal read = 1
ordinal write = 2
ordinal execute = 3
ordinal admin = 4
ordinal full = 5

-- `==` of the enumeration.
abbrev same : AccessPermission → AccessPermission → Bool
same a b = ordinal a == ordinal b

-- The levels of the last part of `check_permission`.
unfoldable pub permits : AccessPermission → AccessPermission → Bool
permits required held =
    if same required nothing
    then true
    else if same required read
        && (same held read || same held write || same held admin || same held full)
    then true
    else if same required write && (same held write || same held admin || same held full)
    then true
    else if same required admin && same held admin
    then true
    else false

-- The user's home when there is one, and the global root otherwise.
unfoldable pub allowed_root : Disk → Bytes → UserInfo → Option Bytes
allowed_root d root user =
    if not (is_empty user.home_directory) && exists d user.home_directory
    then canonical d user.home_directory
    else canonical d root

unfoldable pub check_target : Option Bytes → Bytes → AccessPermission → UserInfo → Outcome Bool
unfolding permits
check_target none target required user = thrown (message not_found)
check_target (some base) target required user =
    done (if not (starts_with target base) then false else permits required user.permission)

unfoldable pub check_path : Disk → Bytes → Option Bytes → AccessPermission → UserInfo → Outcome Bool
unfolding check_target allowed_root
check_path d root none required user = done false
check_path d root (some target) required user =
    check_target (allowed_root d root user) target required user

unfoldable pub check_user : Disk → Bytes → Bytes → AccessPermission → Option UserInfo → Outcome Bool
unfolding check_path
check_user d root path required none = done false
check_user d root path required (some user) = check_path d root (canonical d path) required user

unfoldable pub check_permission :
    Disk → List UserInfo → Bytes → Bytes → Bytes → AccessPermission → Outcome Bool
unfolding check_user find_user
check_permission d users root username path required =
    check_user d root path required (find_user username users)

unfoldable pub get_home_directory : List UserInfo → Bytes → Bytes → Bytes
unfolding find_user
get_home_directory users root username = elim (find_user username users) [
  | none ↦ root
  | some user ↦ if not (is_empty user.home_directory) then user.home_directory else root
]

authenticate_user_success :
    (o : Option UserInfo) (password : Bytes)
    → (authenticate_user o password ≡ success) ↔ (
        (user : UserInfo) × (o ≡ some user)
        × (user.enabled ≡ true)
        × (user.password_hash ≡ password))
unfolding authenticate_user validate_password
authenticate_user_success none password = (λ e. absurd (cc), λ (u, e, on, p). absurd (cc))
authenticate_user_success (some user) password = (
  λ e. (user, refl, ground arith, ground (arith, equal_iff user.password_hash password)),
  λ (u, e, on, p).
      let same_user : user ≡ u = cc e in
      let on' = ap (λ v. v.enabled) same_user ∙ on in
      let p' =
        (equal_iff user.password_hash password).1 (ap (λ v. v.password_hash) same_user ∙ p) in
      ground (arith, on', p'),
)

-- A login succeeds for exactly the users that the store knows by the name, that are enabled, and whose
-- stored text is the password.
pub authenticate_success :
    (users : List UserInfo) (username password : Bytes)
    → (authenticate users username password ≡ success) ↔ (
        (user : UserInfo) × (find_user username users ≡ some user)
        × (user.enabled ≡ true)
        × (user.password_hash ≡ password))
unfolding authenticate
authenticate_success users username password =
    authenticate_user_success (find_user username users) password
