-- ===== src/Webdav/Handler/Confined/Methods.antt =====
-- The methods of netfiles/src/webdav/dav_handler.cpp change nodes below the root only.
use net_files.Base.{
  true, false, ◌||◌, [], ◌∷◌, none, some, ◌≡◌, refl, ap, ◌∙◌, inl, inr, Bytes, codes, is_empty,
  Option, Outcome, done,
}
use net_files.Core.Fs.Canonical.{IsDirectoryAt}
use net_files.Core.Fs.Disk.{Components, Disk, node_at}
use net_files.Core.Fs.Walk.{is_directory}
use net_files.Ftp.PathResolver.{IsInside}
use net_files.Ftp.Processor.Confined.{Outside}
use net_files.Webdav.Handler.{plain, not_found, resolve_path, resolve_destination, destination_path}
use net_files.Webdav.Handler.Files.{
  put_typed, put_resource, delete_resource, process_transfer, put_path, put_new, put_created,
  transfer, transfer_resource, answer_moved, mkcol_path, process_put, process_delete, process_mkcol,
  process_copy, process_move,
}
use net_files.Webdav.Handler.Paths.{
  Resolved, resolved-Holds, IsNew, create-IsNew, at_path-Holds, at_request-Holds,
}
use net_files.Webdav.Handler.Serve.{dispatch}
use net_files.Webdav.Handler.Still.{
  process_get-Still, process_head-Still, process_propfind-Still, process_proppatch-Still,
  process_lock-Still, process_unlock-Still, process_options-Still,
}
use net_files.Webdav.Http.Headers.{HttpRequest}
use net_files.Webdav.Http.Response.{HttpResponse}
use net_files.Webdav.Http.Types.{
  HttpMethod, get, head, put, delete, mkcol, propfind, proppatch, copy, move, lock, unlock, options,
}
use net_files.Webdav.Resource
use net_files.Webdav.Resource.{
  DavResource, ResourceType, changed, put_done, put_loop, create, put_result, put_file, remove,
  copy_to, move_to,
}
use net_files.Webdav.World.{DavHost, DavWorld, M, pure, either-Holds}
use net_files.Webdav.Handler.Confined.{
  DiskConfined, Confined, same_tree, same_disk, stepped-Confined, move-Confined, put-Confined,
  inside_exists, inside_creates, remove-Confined, copy_file-Confined,
}

or_empty : (s t : Bytes) → t ≡ [] → (is_empty s || is_empty t) ≡ true
or_empty [] t e = refl
or_empty (c ∷ s) t e = rw e refl

module _ (q : HttpRequest) (w : DavWorld) where
  put_typed-Confined :
      (r : DavResource) (t : ResourceType) (p : Bytes)
      → IsInside w.disk w.root p
      → r.path ≡ p
      → Confined w (put_typed q r t w).1
  unfolding put_typed
  put_typed-Confined r ResourceType.collection p i e = λ k o. refl
  put_typed-Confined r ResourceType.file p i e =
      stepped-Confined (Resource.put r q.body q.content_length)
        (λ _. pure (plain 201 (codes "Created"))) w (put-Confined w p i r q.body q.content_length e)
        (λ a v. refl)

  put_new-Confined :
      (k : M HttpResponse) (p : Bytes) (o : Option DavResource)
      → IsInside w.disk w.root p
      → create w.disk p ≡ o
      → Confined w (put_new q k o w).1
  unfolding put_new put_resource
  put_new-Confined k p none i e = absurd (inside_creates w p i e)
  put_new-Confined k p (some r) i e =
      put_typed-Confined r r.type p i (create-IsNew w.disk p r e).path_is

  put_path-Confined : (p : Bytes) → Resolved w p → Confined w (put_path q p w).1
  unfolding put_path
  put_path-Confined p (inl e) = rw e (same_disk w w refl)
  put_path-Confined p (inr i) =
      either-Holds (Confined w) (is_empty p) (done not_found, w) _ (same_disk w w refl)
        (put_new-Confined (put_created q p) p (create w.disk p) i refl)

  process_put-Confined : IsDirectoryAt w.disk w.disk.working → Confined w (process_put q w).1
  unfolding process_put
  process_put-Confined h =
      resolved-Holds (Confined w) q.path (put_path q) w h (same_disk w w refl)
        (λ p e r. put_path-Confined p r)

  process_delete-Confined : IsDirectoryAt w.disk w.disk.working → Confined w (process_delete q w).1
  unfolding process_delete delete_resource
  process_delete-Confined h =
      at_request-Holds (Confined w) q delete_resource w h (same_disk w w refl) (λ r p i n.
        stepped-Confined (remove r) _ w (remove-Confined w p i r n.path_is) (λ a v. refl))

  mkcol_path_same : (p : Bytes) → Resolved w p → (mkcol_path p w).1 ≡ w
  unfolding mkcol_path
  mkcol_path_same p (inl e) = rw e refl
  mkcol_path_same p (inr i) =
      rw (inside_exists w p i)
        (either-Holds (λ v. v ≡ w) (is_empty p) (done not_found, w) _ refl refl)

  -- MKCOL never changes anything, since its path has to exist.
  pub process_mkcol_same : IsDirectoryAt w.disk w.disk.working → (process_mkcol q w).1 ≡ w
  unfolding process_mkcol
  process_mkcol_same h =
      resolved-Holds (λ v. v ≡ w) q.path mkcol_path w h refl (λ p e r. mkcol_path_same p r)

  process_transfer-Confined :
      (step : DavResource → Bytes → Disk → Outcome (Unit {0}) × Disk)
      → ((r : DavResource) (s t : Bytes)
          → resolve_path w.disk w.root q.path ≡ done s
          → IsNew w.disk s r
          → IsInside w.disk w.root s
          → IsInside w.disk w.root t
          → DiskConfined w (step r t w.disk).1)
      → IsDirectoryAt w.disk w.disk.working
      → Confined w (process_transfer step q w).1
  unfolding process_transfer resolve_destination transfer transfer_resource answer_moved
  process_transfer-Confined step ok h =
      resolved-Holds (Confined w) q.path _ w h (same_disk w w refl) (λ s e r.
        resolved-Holds (Confined w) (destination_path q.destination) (transfer step q s) w h
          (same_disk w w refl) (λ t f o. at_both s t e r o))
    where
      at_both :
          (s t : Bytes)
          → resolve_path w.disk w.root q.path ≡ done s
          → Resolved w s
          → Resolved w t
          → Confined w (transfer step q s t w).1
      at_both s t e r (inl f) = rw (or_empty s t f) (same_disk w w refl)
      at_both s t e r (inr j) =
          either-Holds (Confined w) (is_empty s || is_empty t) (done not_found, w) _
            (same_disk w w refl)
            (at_path-Holds (Confined w) s (transfer_resource step q t) w r (same_disk w w refl)
              (λ x i n.
                stepped-Confined (λ d. step x t d) (λ _. answer_moved q t) w (ok x s t e n i j)
                  (λ a v. refl)))

  process_move-Confined : IsDirectoryAt w.disk w.disk.working → Confined w (process_move q w).1
  unfolding process_move
  process_move-Confined =
      process_transfer-Confined move_to (λ r s t e n i j. move-Confined w s t i j r n.path_is)

  process_copy-Confined :
      ((s : Bytes) → resolve_path w.disk w.root q.path ≡ done s → is_directory w.disk s ≡ false)
      → IsDirectoryAt w.disk w.disk.working
      → Confined w (process_copy q w).1
  unfolding process_copy
  process_copy-Confined is_file =
      process_transfer-Confined copy_to
        (λ r s t e n i j. copy_file-Confined w t j r (n.type_is ∙ rw (is_file s e) refl))

  dispatch-Confined_all :
      (h : DavHost) (m : HttpMethod)
      → IsDirectoryAt w.disk w.disk.working
      → (m ≡ copy
          → (s : Bytes) → resolve_path w.disk w.root q.path ≡ done s
          → is_directory w.disk s ≡ false)
      → Confined w (dispatch h m q w).1
  unfolding dispatch
  dispatch-Confined_all h get i c = same_tree w _ (process_get-Still q w).disk_same
  dispatch-Confined_all h head i c = same_tree w _ (process_head-Still q w).disk_same
  dispatch-Confined_all h put i c = process_put-Confined i
  dispatch-Confined_all h delete i c = process_delete-Confined i
  dispatch-Confined_all h mkcol i c = same_tree w _ (ap (λ v. v.disk) (process_mkcol_same i))
  dispatch-Confined_all h propfind i c = same_tree w _ (process_propfind-Still q w h).disk_same
  dispatch-Confined_all h proppatch i c = same_tree w _ (process_proppatch-Still q w).disk_same
  dispatch-Confined_all h copy i c = process_copy-Confined (c refl) i
  dispatch-Confined_all h move i c = process_move-Confined i
  dispatch-Confined_all h lock i c = same_tree w _ (process_lock-Still q w h).disk_same
  dispatch-Confined_all h unlock i c = same_tree w _ (process_unlock-Still q w).disk_same
  dispatch-Confined_all h options i c = same_tree w _ (process_options-Still q w h).disk_same

-- The sandbox of the WebDAV server, for every method but COPY of a directory: no node changes whose
-- path's text does not begin with the text of the canonical root, provided that the process's working
-- directory is a directory of the tree. A COPY is covered where the path of the request does not
-- resolve to a directory.
pub dispatch-Confined :
    (h : DavHost) (m : HttpMethod) (q : HttpRequest) (w : DavWorld) (k : Components)
    → IsDirectoryAt w.disk w.disk.working
    → (m ≡ copy
        → (s : Bytes) → resolve_path w.disk w.root q.path ≡ done s
        → is_directory w.disk s ≡ false)
    → Outside w.disk w.root k
    → node_at (dispatch h m q w).1.disk k ≡ node_at w.disk k
dispatch-Confined h m q w k i c o = dispatch-Confined_all q w h m i c k o
