-- ===== src/Webdav/Handler/Confined.antt =====
-- The sandbox of the WebDAV server: which nodes its methods (netfiles/src/webdav/dav_handler.cpp) change.
pub mod Methods
use net_files.Base.{
  ℕ, suc, Bool, true, false, not, ◌||◌, [], ◌∷◌, ◌++◌, none, some, ◌≡◌, ◌≢◌, refl, sym, ap, ◌∙◌,
  subst, ◌⊎◌, inl, inr, Bytes, codes, is_empty, if◌then◌else◌, arith, Bool-cases, Option,
  Option-cases, Outcome, done, thrown, pending,
}
use net_files.Core.Fs.AtReal.{
  Beyond, BeyondResult, BeyondOutcome, Beyond₂, BeyondOutcome₂, remove_file-Beyond,
  remove_directory-Beyond, rename_file-Beyond₂, create_directory-IsReal,
}
use net_files.Core.Fs.Canonical.{IsDirectoryAt, IsReal, locate-render, resolve_names-render}
use net_files.Core.Fs.Copy.{write_whole, copy_file}
use net_files.Core.Fs.Copy.AtFile.{write_whole-Beyond, copy_file-Beyond}
use net_files.Core.Fs.Disk.{Components, Disk, node_at, is_under, render}
use net_files.Core.Fs.Ops.{
  Checked, good, bad, raise, rename, rename_file, remove_file, remove_directory, create_directory,
}
use net_files.Core.Fs.Walk.{exists, is_directory}
use net_files.Ftp.PathResolver.{IsInside}
use net_files.Ftp.Processor.Confined.{Outside, IsInside-is_under}
use net_files.Webdav.Handler.{
  plain, not_found, on_disk, at_path, at_request, resolve_path, resolve_destination,
  destination_path,
}
use net_files.Webdav.Handler.Files.{
  put_typed, put_resource, delete_resource, process_transfer, put_path, put_new, put_created,
  transfer, transfer_resource, answer_moved, mkcol_path, process_get, process_head, process_put,
  process_delete, process_mkcol, process_copy, process_move,
}
use net_files.Webdav.Handler.Paths.{
  Resolved, resolved-Holds, IsNew, create-IsNew, at_path-Holds, at_request-Holds,
}
use net_files.Webdav.Handler.Propfind.{
  process_propfind, process_proppatch, process_lock, process_unlock, process_options,
}
use net_files.Webdav.Handler.Serve.{dispatch}
use net_files.Webdav.Handler.Still.{
  process_get-Still, process_head-Still, process_propfind-Still, process_proppatch-Still,
  process_lock-Still, process_unlock-Still, process_options-Still,
}
use net_files.Webdav.Http.Headers.{HttpRequest}
use net_files.Webdav.Http.Response.{HttpResponse}
use net_files.Webdav.Http.Types.{
  HttpMethod, get, head, put, delete, mkcol, propfind, proppatch, copy, move, lock, unlock, options,
}
use net_files.Webdav.Resource
use net_files.Webdav.Resource.{
  DavResource, ResourceType, changed, put_done, put_loop, create, put_result, put_file, remove,
  copy_to, move_to,
}
use net_files.Webdav.World.{
  DavHost, DavWorld, M, after, pure, either-Holds, after-Holds, write_all, write_all_disk,
}

-- The tree `d` is that of `w` but for nodes whose text begins with the text of the canonical root.
abbrev pub DiskConfined : DavWorld → Disk → Type 0
DiskConfined w d = (q : Components) → Outside w.disk w.root q → node_at d q ≡ node_at w.disk q

abbrev pub Confined : DavWorld → DavWorld → Type 0
Confined w v = DiskConfined w v.disk

pub same_tree : (w : DavWorld) (d : Disk) → d ≡ w.disk → DiskConfined w d
same_tree w d e q o = ap (λ x. node_at x q) e

pub same_disk : (w v : DavWorld) → v.disk ≡ w.disk → Confined w v
same_disk w v e q o = ap (λ d. node_at d q) e

-- A step of the file system, and then what leaves the tree alone.
pub stepped-Confined :
    {A B : Type 0} (f : Disk → Outcome A × Disk) (k : A → M B) (w : DavWorld)
    → DiskConfined w (f w.disk).1
    → ((a : A) (v : DavWorld) → (k a v).1.disk ≡ v.disk)
    → Confined w (after (on_disk f w) k).1
stepped-Confined f k w h same =
    after-Holds (Confined w) (λ v. v.disk ≡ (f w.disk).1) (on_disk f w) k refl
      (λ v e q o. ap (λ d. node_at d q) e ∙ h q o)
      (λ a v e q o. ap (λ d. node_at d q) (same a v ∙ e) ∙ h q o)

module _ (w : DavWorld) (p : Bytes) (i : IsInside w.disk w.root p) where
  changed-Confined :
      {A : Type 0} (a : A) (o : Outcome Disk)
      → BeyondOutcome i.names w.disk o
      → DiskConfined w (changed a w.disk o).1
  unfolding changed
  changed-Confined a (done d) h q o = h q (IsInside-is_under i q o)
  changed-Confined a (thrown m) h q o = refl
  changed-Confined a pending h q o = refl

  raised-Beyond :
      (text : Bytes) (c : Checked Disk)
      → BeyondResult i.names w.disk c
      → BeyondOutcome i.names w.disk (raise text c)
  unfolding raise
  raised-Beyond text (good d) h = h
  raised-Beyond text (bad e) h = tt

  put_done-Confined :
      (ended : Bool) (c : Checked Disk)
      → BeyondResult i.names w.disk c
      → DiskConfined w (put_done ended w.disk c).1
  unfolding put_done
  put_done-Confined ended (good d) h q o = h q (IsInside-is_under i q o)
  put_done-Confined ended (bad e) h q o = refl

  put_result-Confined : (b : Bool × Bytes) → DiskConfined w (put_result p w.disk b).1
  unfolding put_result
  put_result-Confined (ended, written) = put_done-Confined ended (write_whole w.disk p written) (
      subst (λ x. BeyondResult i.names w.disk (write_whole w.disk x written)) (sym i.shown)
        (write_whole-Beyond i.names written i.real))

  pub put-Confined :
      (r : DavResource) (input : Bytes) (size : ℕ)
      → r.path ≡ p
      → DiskConfined w (Resource.put r input size w.disk).1
  unfolding Resource.put put_file
  put-Confined r input size e = by_type r.type
    where
      by_type :
          (t : ResourceType)
          → DiskConfined w
              (elim t as (λ _. Outcome (Unit {0}) × Disk) [
                | ResourceType.file ↦ put_file r.path input size w.disk
                | ResourceType.collection ↦ (thrown (codes "Cannot PUT to a collection"), w.disk)
              ]).1
      by_type ResourceType.file =
          subst (λ x. DiskConfined w (put_result x w.disk (put_loop (suc size) input size [])).1)
            (sym e) (put_result-Confined (put_loop (suc size) input size []))
      by_type ResourceType.collection = λ k o. refl

  pub inside_exists : exists w.disk p ≡ true
  unfolding exists
  inside_exists = rw i.shown (rw (resolve_names-render i.names i.real, exists) refl)

  pub inside_creates : create w.disk p ≢ none
  unfolding create
  inside_creates e = let bad : some _ ≡ none = rw inside_exists at e in absurd (cc)

  pub remove-Confined : (r : DavResource) → r.path ≡ p → DiskConfined w (remove r w.disk).1
  unfolding remove
  remove-Confined r e = by_type r.type
    where
      by_type :
          (t : ResourceType)
          → DiskConfined w
              (elim t as (λ _. Outcome Bool × Disk) [
                | ResourceType.file ↦ changed true w.disk (remove_file w.disk r.path)
                | ResourceType.collection ↦ changed true w.disk (remove_directory w.disk r.path)
              ]).1
      by_type ResourceType.file = changed-Confined true _ (
          subst (λ x. BeyondOutcome i.names w.disk (remove_file w.disk x)) (sym (e ∙ i.shown))
            (remove_file-Beyond i.names i.real))
      by_type ResourceType.collection = changed-Confined true _ (
          subst (λ x. BeyondOutcome i.names w.disk (remove_directory w.disk x)) (sym (e ∙ i.shown))
            (remove_directory-Beyond i.names i.real))

  -- A copy of a file onto the path.
  pub copy_file-Confined :
      (r : DavResource) → r.type ≡ ResourceType.file → DiskConfined w (copy_to r p w.disk).1
  unfolding copy_to
  copy_file-Confined r e =
      rw (e, copy_to)
        (changed-Confined tt _ (
          raised-Beyond (codes "Copy failed: ") (copy_file w.disk r.path p) (
            subst (λ x. BeyondResult i.names w.disk (copy_file w.disk r.path x)) (sym i.shown)
              (copy_file-Beyond r.path i.names i.real))))

raised₂-Beyond :
    (p t : Components) (d : Disk) (x y : Bytes) (c : Checked Disk)
    → BeyondOutcome₂ p t d (raise x c)
    → BeyondOutcome₂ p t d (raise y c)
unfolding raise
raised₂-Beyond p t d x y (good e) h = h
raised₂-Beyond p t d x y (bad e) h = tt

changed₂-Confined :
    (w : DavWorld) (s t : Bytes) (i : IsInside w.disk w.root s) (j : IsInside w.disk w.root t)
    (o : Outcome Disk)
    → BeyondOutcome₂ i.names j.names w.disk o
    → DiskConfined w (changed tt w.disk o).1
unfolding changed
changed₂-Confined w s t i j (done d) h q o = h q (IsInside-is_under i q o) (IsInside-is_under j q o)
changed₂-Confined w s t i j (thrown m) h q o = refl
changed₂-Confined w s t i j pending h q o = refl

pub move-Confined :
    (w : DavWorld) (s t : Bytes) (i : IsInside w.disk w.root s) (j : IsInside w.disk w.root t)
    (r : DavResource)
    → r.path ≡ s
    → DiskConfined w (move_to r t w.disk).1
unfolding move_to raise rename_file
move-Confined w s t i j r e = changed₂-Confined w s t i j _ (
    raised₂-Beyond i.names j.names w.disk (codes "Failed to rename: ") (codes "Move failed: ")
      (rename w.disk r.path t)
      (subst (λ x. BeyondOutcome₂ i.names j.names w.disk (rename_file w.disk r.path x))
        (sym j.shown)
        (subst (λ x. BeyondOutcome₂ i.names j.names w.disk (rename_file w.disk x (render j.names)))
          (sym (e ∙ i.shown))
          (rename_file-Beyond₂ (render i.names) i.names j.names (locate-render i.names i.real)
            j.real))))
