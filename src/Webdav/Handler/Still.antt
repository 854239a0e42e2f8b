-- ===== src/Webdav/Handler/Still.antt =====
-- Which methods of netfiles/src/webdav/dav_handler.cpp leave the tree alone, and that none reads from the
-- socket.
use net_files.Base.{
  none, some, ◌≡◌, refl, ◌∙◌, ◌||◌, Bytes, codes, equal, is_empty, Option, Outcome, done,
}
use net_files.Core.Fs.Disk.{Disk}
use net_files.Core.Fs.Ops.{Checked, good, bad, create_directories}
use net_files.Core.Fs.Walk.{exists}
use net_files.Webdav.Handler.{
  plain, not_found, forbidden, on_disk, resolve_path, resolve_destination,
}
use net_files.Webdav.Handler.Files.{
  get_resource, process_get, process_head, put_typed, put_resource, put_new, put_created, put_path,
  process_put, delete_resource, process_delete, made, mkcol_path, process_mkcol, transfer,
  transfer_resource, answer_moved, process_transfer,
}
use net_files.Webdav.Handler.Paths.{resolved-any, at_path-any, at_request-any}
use net_files.Webdav.Handler.Propfind.{
  propfind_path, process_propfind, process_proppatch, process_lock, process_unlock, process_options,
  children_of, depth_of,
}
use net_files.Webdav.Http.Date.{get_http_date}
use net_files.Webdav.Http.Headers.{HttpRequest}
use net_files.Webdav.Http.Response.{HttpResponse, generate_response}
use net_files.Webdav.Resource
use net_files.Webdav.Resource.{DavResource, ResourceType, create, lock}
use net_files.Webdav.World.{
  DavHost, DavWorld, M, after, after-Holds, either-Holds, pure, now, write_all, write_all_disk,
  write_all_reads,
}

pub record Still (w v : DavWorld) : Type 0 where
  pub disk_same : v.disk ≡ w.disk
  pub reads_same : v.reads ≡ w.reads

Still-refl : (w : DavWorld) → Still w w
Still-refl w = record { disk_same = refl; reads_same = refl }

Still-trans : {u v w : DavWorld} → Still u v → Still v w → Still u w
Still-trans a b = record {
  disk_same = b.disk_same ∙ a.disk_same;
  reads_same = b.reads_same ∙ a.reads_same;
}

write_all-Still : (s : Bytes) (w : DavWorld) → Still w (write_all s w).1
write_all-Still s w = record { disk_same = write_all_disk s w; reads_same = write_all_reads s w }

module _ (q : HttpRequest) (w : DavWorld) where
  get_resource-Still : (r : DavResource) → Still w (get_resource r w).1
  unfolding get_resource
  get_resource-Still r =
      after-Holds (Still w) (Still w) (write_all (generate_response _) w) _ (write_all-Still _ w)
        (λ v s. s)
        (λ a v s.
          after-Holds (Still w) (Still w) (Resource.get r v.disk, v) _ s (λ u t. t)
            (λ output u t.
              after-Holds (Still w) (Still w) (write_all output u) _
                (Still-trans t (write_all-Still output u)) (λ x y. y) (λ b x y. y)))

  pub process_get-Still : Still w (process_get q w).1
  unfolding process_get
  process_get-Still = at_request-any (Still w) q get_resource w (Still-refl w) get_resource-Still

  pub process_head-Still : Still w (process_head q w).1
  unfolding process_head
  process_head-Still = at_request-any (Still w) q _ w (Still-refl w) (λ r. Still-refl w)

  propfind_path-Still : (h : DavHost) (p : Bytes) → Still w (propfind_path h q p w).1
  unfolding propfind_path
  propfind_path-Still h p = either-Holds (Still w) (is_empty p) _ _ (Still-refl w) (
      either-Holds (Still w) (equal (depth_of q) (codes "1")) _ _
        (after-Holds (Still w) (Still w) (children_of _ w.disk p, w) _ (Still-refl w) (λ v s. s)
          (λ es v s. s))
        (Still-refl w))

  pub process_propfind-Still : (h : DavHost) → Still w (process_propfind h q w).1
  unfolding process_propfind
  process_propfind-Still h =
      resolved-any (Still w) (resolve_path w.disk w.root q.path) (propfind_path h q) w
        (Still-refl w) (propfind_path-Still h)

  pub process_proppatch-Still : Still w (process_proppatch q w).1
  unfolding process_proppatch
  process_proppatch-Still = Still-refl w

  pub process_lock-Still : (h : DavHost) → Still w (process_lock h q w).1
  unfolding process_lock
  process_lock-Still h =
      at_request-any (Still w) q _ w (Still-refl w)
        (λ r. unfold lock after now in record { disk_same = refl; reads_same = refl })

  pub process_unlock-Still : Still w (process_unlock q w).1
  unfolding process_unlock
  process_unlock-Still = at_request-any (Still w) q _ w (Still-refl w) (λ r. Still-refl w)

  pub process_options-Still : (h : DavHost) → Still w (process_options h q w).1
  unfolding process_options get_http_date after now
  process_options-Still h = record { disk_same = refl; reads_same = refl }

  -- The methods that change the tree read nothing from the socket.
  abbrev pub SameReads : DavWorld → Type 0
  SameReads v = v.reads ≡ w.reads

  on_disk-SameReads :
      {A B : Type 0} (f : Disk → Outcome A × Disk) (k : A → M B) (v : DavWorld)
      → SameReads v
      → ((a : A) (u : DavWorld) → SameReads u → SameReads (k a u).1)
      → SameReads (after (on_disk f v) k).1
  on_disk-SameReads f k v e go = after-Holds SameReads SameReads (on_disk f v) k e (λ u s. s) go

  put_typed-SameReads :
      (r : DavResource) (t : ResourceType) (v : DavWorld)
      → SameReads v
      → SameReads (put_typed q r t v).1
  unfolding put_typed
  put_typed-SameReads r ResourceType.collection v e = e
  put_typed-SameReads r ResourceType.file v e =
      on_disk-SameReads (Resource.put r q.body q.content_length)
        (λ _. pure (plain 201 (codes "Created"))) v e (λ a u s. s)

  put_new-SameReads :
      (k : M HttpResponse) (o : Option DavResource) (v : DavWorld)
      → SameReads v
      → SameReads (k v).1
      → SameReads (put_new q k o v).1
  unfolding put_new put_resource
  put_new-SameReads k none v e h = h
  put_new-SameReads k (some r) v e h = put_typed-SameReads r r.type v e

  pub process_put-SameReads : SameReads (process_put q w).1
  unfolding process_put put_path put_created
  process_put-SameReads =
      resolved-any SameReads (resolve_path w.disk w.root q.path) (put_path q) w refl (λ p.
        either-Holds SameReads (is_empty p) (done not_found, w) _ refl
          (put_new-SameReads (put_created q p) (create w.disk p) w refl
            (put_new-SameReads (pure forbidden) _ _ refl refl)))

  pub process_delete-SameReads : SameReads (process_delete q w).1
  unfolding process_delete delete_resource
  process_delete-SameReads =
      at_request-any SameReads q _ w refl
        (λ r. on_disk-SameReads (Resource.remove r) _ w refl (λ a u s. s))

  made-SameReads : (c : Checked Disk) → SameReads (made w c).1
  unfolding made
  made-SameReads (good d) = refl
  made-SameReads (bad e) = refl

  pub process_mkcol-SameReads : SameReads (process_mkcol q w).1
  unfolding process_mkcol mkcol_path
  process_mkcol-SameReads =
      resolved-any SameReads (resolve_path w.disk w.root q.path) mkcol_path w refl (λ p.
        either-Holds SameReads (is_empty p) _ _ refl (
          either-Holds SameReads (exists w.disk p) _ _ refl
            (made-SameReads (create_directories w.disk p))))

  transfer_resource-SameReads :
      (step : DavResource → Bytes → Disk → Outcome (Unit {0}) × Disk) (dst : Bytes)
      (r : DavResource)
      → SameReads (transfer_resource step q dst r w).1
  unfolding transfer_resource answer_moved
  transfer_resource-SameReads step dst r =
      on_disk-SameReads (step r dst) (λ _. answer_moved q dst) w refl (λ a u s. s)

  pub process_transfer-SameReads :
      (step : DavResource → Bytes → Disk → Outcome (Unit {0}) × Disk)
      → SameReads (process_transfer step q w).1
  unfolding process_transfer transfer
  process_transfer-SameReads step =
      resolved-any SameReads (resolve_path w.disk w.root q.path)
        (λ src w. after (resolve_destination w.disk w.root q.destination, w) (transfer step q src))
        w refl
        (λ src.
          resolved-any SameReads (resolve_destination w.disk w.root q.destination)
            (transfer step q src) w refl
            (λ dst.
              either-Holds SameReads (is_empty src || is_empty dst) (done not_found, w) _ refl
                (at_path-any SameReads src (transfer_resource step q dst) w refl
                  (transfer_resource-SameReads step dst))))
