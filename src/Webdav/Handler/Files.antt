-- ===== src/Webdav/Handler/Files.antt =====
-- The methods of netfiles/src/webdav/dav_handler.cpp that read and change the tree.
use net_files.Base.{
  ◌||◌, ◌&&◌, [], Option, none, some, Bytes, codes, equal, is_empty, if◌then◌else◌, to_string,
  Outcome, done,
}
use net_files.Core.Fs.Disk.{Disk}
use net_files.Core.Fs.Copy.{write_whole}
use net_files.Core.Fs.Ops.{Checked, good, bad, message, create_directories}
use net_files.Core.Fs.Walk.{exists}
use net_files.Webdav.Http.Headers.{HttpRequest}
use net_files.Webdav.Http.Response.{HttpResponse, generate_response}
use net_files.Webdav.Resource
use net_files.Webdav.Resource.{
  DavLock, DavResource, ResourceType, create, filename, get_size, get_properties, copy_to, move_to,
  remove,
}
use net_files.Webdav.World.{DavWorld, M, after, ◌>>=◌, ◌>>◌, pure, write_all}
use net_files.Webdav.Handler.{
  resolve_path, resolve_destination, plain, with_header, not_found, forbidden, method_not_allowed,
  on_disk, at_path, at_request,
}

abbrev pub content_head : DavResource → Disk → HttpResponse
content_head r d =
    with_header (codes "Content-Length") (to_string (get_size r d)) (
      with_header (codes "Content-Type") (codes "application/octet-stream")
        (plain 200 (codes "OK")))

-- The head and the content are written here, and the head once more by the loop.
unfoldable pub get_resource : DavResource → M HttpResponse
get_resource r w = after (write_all (generate_response (content_head r w.disk)) w) (λ _ v.
    after (Resource.get r v.disk, v) (λ output. write_all output >> pure (content_head r w.disk)))

unfoldable pub process_get : HttpRequest → M HttpResponse
unfolding at_request get_resource
process_get q = at_request q get_resource

unfoldable pub process_head : HttpRequest → M HttpResponse
unfolding at_request
process_head q = at_request q (λ r w. (done (content_head r w.disk), w))

-- By the type of the resource.
unfoldable pub put_typed : HttpRequest → DavResource → ResourceType → M HttpResponse
put_typed q r ResourceType.collection = pure method_not_allowed
put_typed q r ResourceType.file =
    on_disk (Resource.put r q.body q.content_length) >> pure (plain 201 (codes "Created"))

unfoldable pub put_resource : HttpRequest → DavResource → M HttpResponse
unfolding put_typed
put_resource q r = put_typed q r r.type

-- `std::ofstream(path).close()`: a failure is not looked at.
abbrev touched : Disk → Bytes → Disk
touched d path = elim (write_whole d path []) [ good d' ↦ d' | bad e ↦ d ]

unfoldable pub put_new : HttpRequest → M HttpResponse → Option DavResource → M HttpResponse
unfolding put_resource
put_new q otherwise none = otherwise
put_new q otherwise (some r) = put_resource q r

-- A new file is made, and looked for again.
unfoldable pub put_created : HttpRequest → Bytes → M HttpResponse
unfolding put_new
put_created q path w =
    let v = record w { disk = touched w.disk path } in
    put_new q (pure forbidden) (create v.disk path) v

unfoldable pub put_path : HttpRequest → Bytes → M HttpResponse
unfolding put_new put_created
put_path q path w =
    if is_empty path
    then (done not_found, w)
    else put_new q (put_created q path) (create w.disk path) w

unfoldable pub process_put : HttpRequest → M HttpResponse
unfolding put_path
process_put q w = after (resolve_path w.disk w.root q.path, w) (put_path q)

unfoldable pub delete_resource : DavResource → M HttpResponse
delete_resource r = do
  removed ← on_disk (remove r)
  pure (
      if removed then plain 204 (codes "No Content") else plain 500 (codes "Internal Server Error"))

unfoldable pub process_delete : HttpRequest → M HttpResponse
unfolding at_request delete_resource
process_delete q = at_request q delete_resource

unfoldable pub made : DavWorld → Checked Disk → Outcome HttpResponse × DavWorld
made w (good d) = (done (plain 201 (codes "Created")), record w { disk = d })
made w (bad e) = (done (record (plain 409 (codes "Conflict")) { body = message e }), w)

unfoldable pub mkcol_path : Bytes → M HttpResponse
unfolding made
mkcol_path path w =
    if is_empty path
    then (done not_found, w)
    else if exists w.disk path
    then (
      done (record (plain 405 (codes "Method Not Allowed")) {
        body = codes "Collection already exists";
      }),
      w,
    )
    else made w (create_directories w.disk path)

unfoldable pub process_mkcol : HttpRequest → M HttpResponse
unfolding mkcol_path
process_mkcol q w = after (resolve_path w.disk w.root q.path, w) mkcol_path

-- `copy` and `move` go ahead first; `Overwrite` is looked at when the destination is there already.
unfoldable pub answer_moved : HttpRequest → Bytes → M HttpResponse
answer_moved q dst w = (
  done (
      if equal q.overwrite (codes "F") && exists w.disk dst
      then plain 412 (codes "Precondition Failed")
      else plain 201 (codes "Created")),
  w,
)

unfoldable pub transfer_resource :
    (DavResource → Bytes → Disk → Outcome (Unit {0}) × Disk)
    → HttpRequest
    → Bytes
    → DavResource
    → M HttpResponse
unfolding answer_moved
transfer_resource step q dst r = on_disk (step r dst) >> answer_moved q dst

unfoldable pub transfer :
    (DavResource → Bytes → Disk → Outcome (Unit {0}) × Disk)
    → HttpRequest
    → Bytes
    → Bytes
    → M HttpResponse
unfolding at_path transfer_resource
transfer step q src dst w =
    if is_empty src || is_empty dst
    then (done not_found, w)
    else at_path src (transfer_resource step q dst) w

unfoldable pub process_transfer :
    (DavResource → Bytes → Disk → Outcome (Unit {0}) × Disk) → HttpRequest → M HttpResponse
unfolding transfer
process_transfer step q w =
    after (resolve_path w.disk w.root q.path, w)
      (λ src w. after (resolve_destination w.disk w.root q.destination, w) (transfer step q src))

unfoldable pub process_copy : HttpRequest → M HttpResponse
unfolding process_transfer
process_copy q = process_transfer copy_to q

unfoldable pub process_move : HttpRequest → M HttpResponse
unfolding process_transfer
process_move q = process_transfer move_to q
