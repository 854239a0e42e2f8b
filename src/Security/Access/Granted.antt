-- ===== src/Security/Access/Granted.antt =====
-- Whom `AccessController::check_permission` of netfiles/src/security/access_control.cpp grants access.
use net_files.Base.{
  ℕ, [], ◌∷◌, ◌≤◌, ◌≢◌, inl, inr, Bool-cases, true, false, not, ◌&&◌, List, Option, none, some, ◌≡◌,
  ◌↔◌, refl, Bytes, is_empty, if◌then◌else◌, leb, starts_with, starts_with_iff, IsPrefixOf, done,
  arith,
}
use net_files.Core.Fs.Disk.{Disk}
use net_files.Core.Fs.Walk.{canonical, exists}
use net_files.Security.Users.{
  AccessPermission, nothing, read, write, execute, admin, full, UserInfo, find_user,
}
use net_files.Security.Access.{
  permits, allowed_root, check_target, check_path, check_user, check_permission,
}

-- What is asked for and what is held, as levels.
unfoldable pub level_asked : AccessPermission → ℕ
level_asked nothing = 0
level_asked read = 1
level_asked write = 2
level_asked admin = 3
level_asked execute = 4
level_asked full = 4

unfoldable pub level_held : AccessPermission → ℕ
level_held nothing = 0
level_held execute = 0
level_held read = 1
level_held write = 2
level_held full = 2
level_held admin = 3

-- Permissions are levels: nothing, reading, writing (which `FULL` stands for too) and administration.
-- Asking for `EXECUTE` or `FULL` is always refused.
pub permits_levels :
    (required held : AccessPermission)
    → permits required held ≡ leb (level_asked required) (level_held held)
unfolding permits level_asked level_held
permits_levels nothing nothing = refl
permits_levels nothing read = refl
permits_levels nothing write = refl
permits_levels nothing execute = refl
permits_levels nothing admin = refl
permits_levels nothing full = refl
permits_levels read nothing = refl
permits_levels read read = refl
permits_levels read write = refl
permits_levels read execute = refl
permits_levels read admin = refl
permits_levels read full = refl
permits_levels write nothing = refl
permits_levels write read = refl
permits_levels write write = refl
permits_levels write execute = refl
permits_levels write admin = refl
permits_levels write full = refl
permits_levels execute nothing = refl
permits_levels execute read = refl
permits_levels execute write = refl
permits_levels execute execute = refl
permits_levels execute admin = refl
permits_levels execute full = refl
permits_levels admin nothing = refl
permits_levels admin read = refl
permits_levels admin write = refl
permits_levels admin execute = refl
permits_levels admin admin = refl
permits_levels admin full = refl
permits_levels full nothing = refl
permits_levels full read = refl
permits_levels full write = refl
permits_levels full execute = refl
permits_levels full admin = refl
permits_levels full full = refl

-- The directory that a user may use, by its canonical text: the home where there is one, and else the
-- global root.
pub data IsAllowedRoot (d : Disk) (root base home : Bytes) : Type 0 where
  at_home :
      home ≢ []
      → exists d home ≡ true
      → canonical d home ≡ some base
      → IsAllowedRoot d root base home
  no_home : home ≡ [] → canonical d root ≡ some base → IsAllowedRoot d root base home
  home_missing :
      exists d home ≡ false → canonical d root ≡ some base → IsAllowedRoot d root base home

allowed_root-IsAllowedRoot :
    (d : Disk) (root base : Bytes) (user : UserInfo)
    → (allowed_root d root user ≡ some base) ↔ IsAllowedRoot d root base user.home_directory
unfolding allowed_root
allowed_root-IsAllowedRoot d root base user = by_home user.home_directory
  where
    by_home :
        (home : Bytes)
        → ((if not (is_empty home) && exists d home then canonical d home else canonical d root)
            ≡ some base)
          ↔ IsAllowedRoot d root base home
    by_home [] = (λ e. no_home refl e, back)
      where
        back : IsAllowedRoot d root base [] → canonical d root ≡ some base
        back (at_home n x e) = absurd (n refl)
        back (no_home n e) = e
        back (home_missing x e) = e
    by_home (c ∷ s) = elim (Bool-cases (exists d (c ∷ s))) [
      | inl there ↦ rw there (λ e. at_home (λ n. cc n) there e, there_back there)
      | inr missing ↦ rw missing (λ e. home_missing missing e, missing_back missing)
    ]
      where
        there_back :
            exists d (c ∷ s) ≡ true
            → IsAllowedRoot d root base (c ∷ s)
            → canonical d (c ∷ s) ≡ some base
        there_back y (at_home n x e) = e
        there_back y (no_home n e) = absurd (cc n)
        there_back y (home_missing x e) = absurd (cc (y, x))

        missing_back :
            exists d (c ∷ s) ≡ false
            → IsAllowedRoot d root base (c ∷ s)
            → canonical d root ≡ some base
        missing_back y (at_home n x e) = absurd (cc (y, x))
        missing_back y (no_home n e) = absurd (cc n)
        missing_back y (home_missing x e) = e

-- What a granted access means: a known user, an existing path whose text begins with the text of the
-- directory that the user may use, and a level that is high enough.
pub record IsGranted (d : Disk) (users : List UserInfo) (root username path : Bytes)
    (required : AccessPermission) : Type 0 where
  pub user : UserInfo
  pub known : find_user username users ≡ some user
  pub target : Bytes
  pub target_is : canonical d path ≡ some target
  pub base : Bytes
  pub base_is : IsAllowedRoot d root base user.home_directory
  pub prefix : IsPrefixOf base target
  pub enough : level_asked required ≤ level_held user.permission

permits_enough :
    (required held : AccessPermission)
    → (permits required held ≡ true) ↔ (level_asked required ≤ level_held held)
permits_enough required held = (
  λ e. ground (arith, permits_levels required held, e),
  λ h. ground (arith, permits_levels required held, h),
)

check_target-true :
    (o : Option Bytes) (target : Bytes) (required : AccessPermission) (user : UserInfo)
    → check_target o target required user ≡ done true
    → (base : Bytes) × (o ≡ some base)
      × IsPrefixOf base target
      × (permits required user.permission ≡ true)
unfolding check_target
check_target-true none target required user e = absurd (cc)
check_target-true (some base) target required user e =
    (base, refl, (starts_with_iff target base).0 (ground arith), ground arith)

check_path-IsGranted :
    (d : Disk) (users : List UserInfo) (root username path : Bytes) (required : AccessPermission)
    (user : UserInfo) (o : Option Bytes)
    → find_user username users ≡ some user
    → canonical d path ≡ o
    → check_path d root o required user ≡ done true
    → IsGranted d users root username path required
unfolding check_path
check_path-IsGranted d users root username path required user none k t e = absurd (cc e)
check_path-IsGranted d users root username path required user (some target) k t e =
    let (base, b, p, enough) =
      check_target-true (allowed_root d root user) target required user e in
    record {
      user = user;
      known = k;
      target = target;
      target_is = t;
      base = base;
      base_is = (allowed_root-IsAllowedRoot d root base user).0 b;
      prefix = p;
      enough = (permits_enough required user.permission).0 enough;
    }

check_user-IsGranted :
    (d : Disk) (users : List UserInfo) (root username path : Bytes) (required : AccessPermission)
    (o : Option UserInfo)
    → find_user username users ≡ o
    → check_user d root path required o ≡ done true
    → IsGranted d users root username path required
unfolding check_user
check_user-IsGranted d users root username path required none k e = absurd (cc e)
check_user-IsGranted d users root username path required (some user) k e =
    check_path-IsGranted d users root username path required user (canonical d path) k refl e

granted :
    (d : Disk) (users : List UserInfo) (root username path : Bytes) (required : AccessPermission)
    → IsGranted d users root username path required
    → check_permission d users root username path required ≡ done true
unfolding check_permission check_user check_path check_target
granted d users root username path required g =
    let begins : starts_with g.target g.base ≡ true =
      (starts_with_iff g.target g.base).1 g.prefix in
    let base = (allowed_root-IsAllowedRoot d root g.base g.user).1 g.base_is in
    let enough = (permits_enough required g.user.permission).1 g.enough in
    rw (g.known) (rw (g.target_is) (rw base (rw (begins, enough) refl)))

-- Access is granted exactly to a known user, for an existing path whose text begins with the text of the
-- directory that the user may use (the home where the user has one that exists, else the global root),
-- with a level that is high enough: nothing, reading, writing (which `FULL` stands for too) and
-- administration, one above the other. Nobody is high enough for `EXECUTE` and `FULL`.
pub check_permission-IsGranted :
    (d : Disk) (users : List UserInfo) (root username path : Bytes) (required : AccessPermission)
    → (check_permission d users root username path required ≡ done true)
      ↔ IsGranted d users root username path required
unfolding check_permission
check_permission-IsGranted d users root username path required = (
  λ e. check_user-IsGranted d users root username path required (find_user username users) refl e,
  λ g. granted d users root username path required g,
)
