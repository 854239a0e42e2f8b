-- ===== src/Webdav/Handler.antt =====
-- `DavRequestHandler` of netfiles/src/webdav/dav_handler.cpp: the methods of the server, and its loop.
pub mod Paths
pub mod Files
pub mod Propfind
pub mod Still
pub mod Serve
pub mod Enough
pub mod Confined
pub mod Effects
use net_files.Base.{
  ℕ, zero, suc, ◌+◌, Bool, true, false, not, ◌||◌, ◌&&◌, List, [], ◌∷◌, ◌++◌, Option, none, some,
  Bytes, codes, equal, is_empty, starts_with, find, drop, length, if◌then◌else◌, ◌==◌, to_string,
  Outcome, done, thrown, pending,
}
use net_files.Core.Fs.Disk.{Disk, join_path}
use net_files.Core.Fs.Copy.{write_whole}
use net_files.Core.Fs.Ops.{
  Checked, good, bad, message, create_directories, FileEntry, read_directory,
}
use net_files.Core.Fs.Walk.{canonical, exists}
use net_files.Webdav.Http.Date.{get_http_date}
use net_files.Webdav.Http.Filename.{encode_filename}
use net_files.Webdav.Http.Headers.{Headers, HttpRequest, set_header}
use net_files.Webdav.Http.Response.{HttpResponse, generate_response}
use net_files.Webdav.Http.Types.{
  HttpMethod, get, head, put, delete, mkcol, propfind, proppatch, copy, move, lock, unlock, options,
  http11,
}
use net_files.Webdav.Http.Url.{decode_url}
use net_files.Webdav.Resource
use net_files.Webdav.Resource.{
  DavLock, DavResource, ResourceType, create, filename, get_size, get_properties, copy_to, move_to,
  remove,
}
use net_files.Webdav.World.{DavHost, DavWorld, M, after, ◌>>=◌, ◌>>◌, pure, lift, write_all}
use net_files.Webdav.Xml.{
  DavXmlBuilder, new_builder, add_declaration, start_multistatus, end_multistatus, start_response,
  end_response, start_propstat, end_propstat, start_prop, end_prop, add_status, build,
}

-- The check that the path lies under the root: a prefix test on texts.
unfoldable pub within_root : Bytes → Option Bytes → Bytes
within_root target none = []
within_root target (some base) = if starts_with target base then target else []

-- `resolve_path` behind the decoding; the empty path refuses.
unfoldable pub resolve_under : Disk → Bytes → Bytes → Bytes
unfolding within_root
resolve_under d root path = elim (canonical d (join_path root path)) [
  | none ↦ []
  | some target ↦ within_root target (canonical d root)
]

-- `decoded.substr(1)` of an empty text is an exception.
unfoldable pub resolve_decoded : Disk → Bytes → Bytes → Outcome Bytes
unfolding resolve_under
resolve_decoded d root [] = thrown (codes "invalid string position")
resolve_decoded d root (c ∷ decoded) = done (resolve_under d root decoded)

unfoldable pub resolve_path : Disk → Bytes → Bytes → Outcome Bytes
unfolding resolve_decoded
resolve_path d root request_path = resolve_decoded d root (decode_url request_path)

-- `destination.find('/', 8)`, and the text from there on.
unfoldable pub from_slash : Bytes → Bytes → Bytes
from_slash whole s = elim (find (codes "/") s) [ none ↦ whole | some i ↦ drop i s ]

-- The path of a full URL.
unfoldable pub destination_path : Bytes → Bytes
unfolding from_slash
destination_path destination =
    if starts_with destination (codes "http://") || starts_with destination (codes "https://")
    then from_slash destination (drop 8 destination)
    else destination

unfoldable pub resolve_destination : Disk → Bytes → Bytes → Outcome Bytes
unfolding destination_path resolve_path
resolve_destination d root destination = resolve_path d root (destination_path destination)

abbrev pub plain : ℕ → Bytes → HttpResponse
plain code text = record {
  status_code = code;
  status_message = text;
  version = http11;
  headers = [];
  body = [];
}

abbrev pub with_header : Bytes → Bytes → HttpResponse → HttpResponse
with_header key v r = record r { headers = set_header key v r.headers }

-- A body with its type and its length.
abbrev pub with_body : Bytes → Bytes → HttpResponse → HttpResponse
with_body kind text r =
    with_header (codes "Content-Length") (to_string (length text))
      (with_header (codes "Content-Type") kind (record r { body = text }))

abbrev pub allowed : Bytes
allowed =
    codes "GET, HEAD, PUT, DELETE, MKCOL, PROPFIND, "
    ++ codes "PROPPATCH, COPY, MOVE, LOCK, UNLOCK, OPTIONS"

unfoldable pub method_not_allowed : HttpResponse
method_not_allowed = with_header (codes "Allow") allowed (plain 405 (codes "Method Not Allowed"))

unfoldable pub not_found : HttpResponse
not_found =
    with_body (codes "text/plain") (codes "Resource not found") (plain 404 (codes "Not Found"))

unfoldable pub forbidden : HttpResponse
forbidden = with_body (codes "text/plain") (codes "Access denied") (plain 403 (codes "Forbidden"))

unfoldable pub precondition_failed : Bytes → HttpResponse
precondition_failed text =
    with_body (codes "text/plain") text (plain 412 (codes "Precondition Failed"))

-- A step of the file system from the world's tree.
abbrev pub on_disk : {A : Type 0} → (Disk → Outcome A × Disk) → M A
on_disk f w = let (o, d) = f w.disk in (o, record w { disk = d })

-- The resource at the path of a request: none when it is refused or not there.
unfoldable pub resource_at : DavWorld → Bytes → Option DavResource
resource_at w path = if is_empty path then none else create w.disk path

-- The method goes on at the resource; without one it ends in `not_found`.
unfoldable pub at_path : Bytes → (DavResource → M HttpResponse) → M HttpResponse
unfolding resource_at
at_path path go w = elim (resource_at w path) [ none ↦ (done not_found, w) | some r ↦ go r w ]

unfoldable pub at_request : HttpRequest → (DavResource → M HttpResponse) → M HttpResponse
unfolding at_path
at_request q go w = after (resolve_path w.disk w.root q.path, w) (λ path. at_path path go)
