-- ===== src/Ftp/Processor/Confined/Paths.antt =====
-- What each handler changes once its path is resolved: nothing whose text does not begin with the root's.
use net_files.Base.{
  ℕ, Bool, false, List, [], ◌∷◌, ◌++◌, some, ◌≡◌, ◌≢◌, refl, sym, ap, ◌∙◌, subst, ◌⊎◌, inl, inr,
  Bytes, is_empty, ◌||◌, not, arith, append_assoc, flatten_with, Bool-cases, Outcome, done, thrown,
  pending, IsPrefixOf, starts_with, starts_with_iff,
}
use net_files.Core.Fs.AtReal.{
  BeyondOutcome, remove_directory-Beyond, remove_file-Beyond, create_directory-IsReal,
}
use net_files.Core.Fs.Canonical.{IsDirectoryAt, resolve_names-render}
use net_files.Core.Fs.Disk.{Components, Disk, node_at, same_path, same_path_iff, is_under, render}
use net_files.Core.Fs.Frame.{is_under-split, is_under_refl}
use net_files.Core.Fs.Ops.{remove_directory, remove_file, create_directory}
use net_files.Ftp.Transfer.Listing.{send_listing, send_once, list_lines}
use net_files.Ftp.Transfer.Loops.{max_size}
use net_files.Core.Fs.Walk.{canonical, resolve_names, is_directory, exists}
use net_files.Ftp.Execute.{Host, list_path, retr_path, stor_path, resolve_in, count_bytes}
use net_files.Ftp.Handlers.Files.{dele_path, rnfr_path, cwd_path, mkd_path, rmd_path, size_path}
use net_files.Ftp.PathResolver.{IsInside, resolve-IsInside}
use net_files.Ftp.Quiet.{
  after-Holds, Quiet, Quiet-refl, OnlyAt, send_directory_listing-Quiet, send_file-Quiet,
  receive_file-OnlyAt,
}
use net_files.Ftp.Types.{Reply}
use net_files.Ftp.World.{World, after, commit}

-- `q`'s text does not begin with the text of the canonical root.
abbrev pub Outside : Disk → Bytes → Components → Type 0
Outside d root q =
    (base : Bytes) → canonical d root ≡ some base → starts_with (render q) base ≡ false

abbrev pub Confined : World → World → Type 0
Confined w v =
    (q : Components)
    → Outside w.disk w.session.root_directory q
    → node_at v.disk q ≡ node_at w.disk q

pub Confined-refl : (w : World) → Confined w w
Confined-refl w q o = refl

pub same_disk-Confined : (w v : World) → v.disk ≡ w.disk → Confined w v
same_disk-Confined w v e q o = ap (λ d. node_at d q) e

-- A longer path has the text of a shorter one as a prefix.
flatten_with-append :
    (b : ℕ) (ps qs : List Bytes)
    → flatten_with b (ps ++ qs) ≡ flatten_with b ps ++ flatten_with b qs
unfolding flatten_with
flatten_with-append b [] qs = refl
flatten_with-append b (p ∷ ps) qs = simp (flatten_with-append b ps, append_assoc)

render-prefix : (p r : Components) → IsPrefixOf (render p) (render (p ++ r))
unfolding render
render-prefix [] [] = ([], refl)
render-prefix [] (c ∷ r) = (c ++ flatten_with b'/' r, unfold flatten_with in refl)
render-prefix (c ∷ p) r = (flatten_with b'/' r, flatten_with-append b'/' (c ∷ p) r)

prefix_trans : (a b c : Bytes) → IsPrefixOf a b → IsPrefixOf b c → IsPrefixOf a c
prefix_trans a b c (r, e) (s, f) = (r ++ s, f ∙ rw e (append_assoc a r s))

-- What lies under a path with the root's prefix has the prefix too.
pub Outside-is_under :
    (d : Disk) (root base : Bytes) (p q : Components)
    → canonical d root ≡ some base
    → IsPrefixOf base (render p)
    → Outside d root q
    → is_under p q ≡ false
Outside-is_under d root base p q b pre o = elim (Bool-cases (is_under p q)) [
  | inr e ↦ e
  | inl e ↦
      let (r, split) = is_under-split p q e in
      let longer = subst (λ x. IsPrefixOf (render p) (render x)) (sym split) (render-prefix p r) in
      absurd (cc (o base b, (starts_with_iff (render q) base).1 (prefix_trans base _ _ pre longer)))
]

pub IsInside-is_under :
    {d : Disk} {root p : Bytes} (i : IsInside d root p) (q : Components)
    → Outside d root q
    → is_under i.names q ≡ false
IsInside-is_under {d} {root} i q o =
    Outside-is_under d root i.base i.names q i.base_is (subst (IsPrefixOf i.base) i.shown i.prefix)
      o

module _ (w : World) where
  -- What a command's path resolves to: nothing, or a path inside.
  abbrev pub Resolved : Bytes → Type 0
  Resolved p = (p ≡ []) ⊎ IsInside w.disk w.session.root_directory p

  -- The outcome of a file system call that touches only what lies under an inside path.
  pub commit-Confined :
      (p : Bytes) (i : IsInside w.disk w.session.root_directory p) (o : Outcome Disk) (r : Reply)
      → BeyondOutcome i.names w.disk o
      → Confined w (commit w o r).1
  commit-Confined p i (done d) r h q o = h q (IsInside-is_under i q o)
  commit-Confined p i (thrown m) r h q o = refl
  commit-Confined p i pending r h q o = refl

  removed-Beyond :
      (p : Bytes) (i : IsInside w.disk w.session.root_directory p)
      → BeyondOutcome i.names w.disk (remove_directory w.disk p)
  removed-Beyond p i =
      subst (λ x. BeyondOutcome i.names w.disk (remove_directory w.disk x)) (sym i.shown)
        (remove_directory-Beyond i.names i.real)

  removed_file-Beyond :
      (p : Bytes) (i : IsInside w.disk w.session.root_directory p)
      → BeyondOutcome i.names w.disk (remove_file w.disk p)
  removed_file-Beyond p i =
      subst (λ x. BeyondOutcome i.names w.disk (remove_file w.disk x)) (sym i.shown)
        (remove_file-Beyond i.names i.real)

  pub dele_path-Confined : (p : Bytes) → Resolved p → Confined w (dele_path p w).1
  unfolding dele_path
  dele_path-Confined [] r = Confined-refl w
  dele_path-Confined (c ∷ p) (inl e) = absurd (cc)
  dele_path-Confined (c ∷ p) (inr i) = elim (Bool-cases (is_directory w.disk (c ∷ p))) [
    | inl e ↦ rw e (commit-Confined (c ∷ p) i _ _ (removed-Beyond (c ∷ p) i))
    | inr e ↦ rw e (commit-Confined (c ∷ p) i _ _ (removed_file-Beyond (c ∷ p) i))
  ]

  pub rmd_path-Confined : (p : Bytes) → Resolved p → Confined w (rmd_path p w).1
  unfolding rmd_path
  rmd_path-Confined [] r = Confined-refl w
  rmd_path-Confined (c ∷ p) (inl e) = absurd (cc)
  rmd_path-Confined (c ∷ p) (inr i) = commit-Confined (c ∷ p) i _ _ (removed-Beyond (c ∷ p) i)

  abbrev Made : Outcome Disk → Type 0
  Made o = (o ≡ done w.disk) ⊎ ((m : Bytes) × (o ≡ thrown m))

  -- MKD resolves its path first, so the path exists already, and nothing is made.
  pub mkd_path_same_disk : (p : Bytes) → Resolved p → (mkd_path p w).1.disk ≡ w.disk
  unfolding mkd_path
  mkd_path_same_disk [] r = refl
  mkd_path_same_disk (c ∷ p) (inl e) = absurd (cc)
  mkd_path_same_disk (c ∷ p) (inr i) =
      elim (subst (λ x. Made (create_directory w.disk x)) (sym i.shown)
        (create_directory-IsReal i.names i.real)) [ inl e ↦ rw e | inr (m, e) ↦ rw e ]

  pub rnfr_path-Confined : (p : Bytes) → Confined w (rnfr_path p w).1
  unfolding rnfr_path
  rnfr_path-Confined [] = Confined-refl w
  rnfr_path-Confined (c ∷ p) = Confined-refl w

  pub cwd_path_same_disk : (p : Bytes) → (cwd_path p w).1.disk ≡ w.disk
  unfolding cwd_path
  cwd_path_same_disk p = ground arith

  pub size_path_same_disk : (p : Bytes) → (size_path p w).1.disk ≡ w.disk
  unfolding size_path
  size_path_same_disk p = ground arith

  is_under→same_path : (p q : Components) → is_under p q ≡ false → same_path p q ≡ false
  is_under→same_path p q h = ground (arith, same_path_iff p q, is_under_refl p)

  pub stor_path-Confined : (h : Host) (p : Bytes) → Resolved p → Confined w (stor_path h p w).1
  unfolding stor_path
  stor_path-Confined h [] r = Confined-refl w
  stor_path-Confined h (c ∷ p) (inl e) = absurd (cc)
  stor_path-Confined h (c ∷ p) (inr i) =
      after-Holds (Confined w) (OnlyAt i.names w) _ count_bytes
        (receive_file-OnlyAt h.stream (c ∷ p) max_size i.names w (
          subst (λ x. resolve_names w.disk x ≡ some i.names) (sym i.shown)
            (resolve_names-render i.names i.real)))
        (λ v only q o. only.elsewhere q (is_under→same_path _ q (IsInside-is_under i q o)))
        (λ n v only q o. only.elsewhere q (is_under→same_path _ q (IsInside-is_under i q o)))

  pub retr_path_same_disk : (h : Host) (p : Bytes) → (retr_path h p w).1.disk ≡ w.disk
  unfolding retr_path
  retr_path_same_disk h p = elim (Bool-cases (is_empty p || not (exists w.disk p))) [
    | inl e ↦ rw e
    | inr e ↦ rw e (
        after-Holds (λ v. v.disk ≡ w.disk) (Quiet w) _ count_bytes
          (send_file-Quiet h.stream p 0 max_size w) (λ v q. q.disk_same) (λ n v q. q.disk_same))
  ]

pub list_path-Quiet :
    (h : Host) (p : Bytes) (detailed : Bool) (w : World) → Quiet w (list_path h p detailed w).1
unfolding list_path send_listing
list_path-Quiet h p detailed w = elim (Bool-cases (is_empty p || not (exists w.disk p))) [
  | inl e ↦ rw e (Quiet-refl w)
  | inr e ↦ rw e (elim (Bool-cases (is_directory w.disk p)) [
    | inl d ↦ rw d (
        after-Holds (Quiet w) (Quiet w) _ _ (send_directory_listing-Quiet h.attributes p detailed w)
          (λ v q. q) (λ n v q. q))
    | inr d ↦ rw d (unfold after send_once list_lines in Quiet-refl w)
  ])
]

pub resolve_in-cases :
    (w : World) (path : Bytes)
    → IsDirectoryAt w.disk w.disk.working
    → Resolved w (resolve_in w path)
resolve_in-cases w path h = elim (nil_cases (resolve_in w path)) [
  | inl e ↦ inl e
  | inr n ↦
      inr (resolve-IsInside w.disk w.session.current_directory w.session.root_directory path h n)
]
  where
    nil_cases : (s : Bytes) → (s ≡ []) ⊎ (s ≢ [])
    nil_cases [] = inl refl
    nil_cases (c ∷ s) = inr (λ e. cc)
