-- ===== src/Webdav/Handler/Propfind.antt =====
-- PROPFIND, PROPPATCH, LOCK, UNLOCK and OPTIONS of netfiles/src/webdav/dav_handler.cpp.
use net_files.Base.{
  Bool, true, false, ◌||◌, List, [], ◌∷◌, ◌++◌, Option, none, some, Bytes, codes, equal, is_empty,
  find, length, if◌then◌else◌, ◌==◌, to_string, Outcome, done,
}
use net_files.Core.Fs.Disk.{Disk}
use net_files.Core.Fs.Ops.{FileEntry, read_directory}
use net_files.Webdav.Http.Date.{get_http_date}
use net_files.Webdav.Http.Filename.{encode_filename}
use net_files.Webdav.Http.Headers.{HttpRequest}
use net_files.Webdav.Http.Response.{HttpResponse}
use net_files.Webdav.Resource
use net_files.Webdav.Resource.{
  DavLock, DavResource, ResourceType, create, filename, get_size, get_properties, copy_to, move_to,
  remove,
}
use net_files.Webdav.World.{DavHost, M, after, ◌>>=◌, pure}
use net_files.Webdav.Xml.{
  DavXmlBuilder, new_builder, add_declaration, start_multistatus, end_multistatus, start_response,
  end_response, start_propstat, end_propstat, start_prop, end_prop, add_status, build,
}
use net_files.Webdav.Handler.{
  resolve_path, plain, with_header, with_body, not_found, at_request, allowed,
}

-- One `response` element of the listing.
unfoldable pub add_resource : DavHost → Bytes → DavResource → Disk → DavXmlBuilder → DavXmlBuilder
add_resource h href r d xml = end_response (
    end_propstat (
      add_status 200 (codes "OK") (
        end_prop (
          get_properties h r d (
            start_prop
              (start_propstat (start_response (encode_filename h.gb18030_to_utf8 href) xml)))))))

unfoldable pub add_base :
    DavHost → Bytes → Option DavResource → Disk → DavXmlBuilder → DavXmlBuilder
unfolding add_resource
add_base h href none d xml = xml
add_base h href (some r) d xml = add_resource h href r d xml

-- `ends_with('/')`.
unfoldable pub ends_with_slash : Bytes → Bool
ends_with_slash [] = false
ends_with_slash (c ∷ []) = c == b'/'
ends_with_slash (c ∷ e ∷ s) = ends_with_slash (e ∷ s)

unfoldable pub child_path : Bytes → Bytes → Bytes
unfolding ends_with_slash
child_path path name = (if ends_with_slash path then path else path ++ b'/' ∷ []) ++ name

unfoldable pub add_children :
    DavHost → Bytes → Disk → List FileEntry → DavXmlBuilder → DavXmlBuilder
unfolding add_base child_path filename
add_children h path d [] xml = xml
add_children h path d (e ∷ es) xml =
    let name = filename e.path in
    add_children h path d es (
      if equal name (codes ".") || equal name (codes "..")
      then xml
      else add_base h (child_path path name) (create d e.path) d xml)

-- The entries below a collection.
unfoldable pub children_of : Option DavResource → Disk → Bytes → Outcome (List FileEntry)
children_of none d path = done []
children_of (some r) d path = elim r.type [
  | ResourceType.collection ↦ read_directory d path
  | ResourceType.file ↦ done []
]

unfoldable pub listing_start :
    DavHost → HttpRequest → Bytes → Option DavResource → Disk → DavXmlBuilder
unfolding add_base new_builder
listing_start h q depth base d =
    let xml = start_multistatus (add_declaration new_builder) in
    if equal depth (codes "0") || equal depth (codes "1") then add_base h q.path base d xml else xml

abbrev pub answer_listing : DavXmlBuilder → HttpResponse
answer_listing xml =
    with_body (codes "text/xml; charset=utf-8") (build (end_multistatus xml)).0
      (plain 207 (codes "Multi-Status"))

abbrev pub depth_of : HttpRequest → Bytes
depth_of q = if is_empty q.depth then codes "0" else q.depth

unfoldable pub propfind_path : DavHost → HttpRequest → Bytes → M HttpResponse
unfolding listing_start children_of add_children
propfind_path h q path w =
    let base = create w.disk path in
    let xml = listing_start h q (depth_of q) base w.disk in
    if is_empty path
    then (done not_found, w)
    else if equal (depth_of q) (codes "1")
    then after (children_of base w.disk path, w)
        (λ es v. (done (answer_listing (add_children h q.path v.disk es xml)), v))
    else (done (answer_listing xml), w)

unfoldable pub process_propfind : DavHost → HttpRequest → M HttpResponse
unfolding propfind_path
process_propfind h q w = after (resolve_path w.disk w.root q.path, w) (propfind_path h q)

unfoldable pub process_proppatch : HttpRequest → M HttpResponse
process_proppatch q = pure (
    with_body (codes "text/xml")
      (codes "<D:response xmlns:D=\"DAV:\"><D:propstat><D:prop/></D:propstat></D:response>")
      (plain 200 (codes "OK")))

-- `body.find("exclusive") != npos`.
abbrev pub is_exclusive : HttpRequest → Bool
is_exclusive q = elim (find (codes "exclusive") q.body) [ none ↦ false | some i ↦ true ]

abbrev pub lock_owner : Bytes
lock_owner = codes "WebDAV Client"

unfoldable pub lock_text : DavLock → Bytes
lock_text l =
    codes "<D:prop xmlns:D=\"DAV:\"><D:lockdiscovery><D:activelock>\n"
    ++ (codes "            <D:locktype><D:write/></D:locktype>\n            <D:lockscope>"
        ++ ((if l.exclusive then codes "<D:exclusive/>" else codes "<D:shared/>")
            ++ (codes "</D:lockscope>\n            <D:depth>Infinity</D:depth>\n"
                ++ (codes "            <D:owner>"
                    ++ (l.owner
                        ++ (codes "</D:owner>\n            <D:timeout>Second-900</D:timeout>\n"
                            ++ (codes "            <D:locktoken><D:href>"
                                ++ (l.token
                                    ++ (codes "</D:href></D:locktoken>\n"
                                        ++ codes
                                            "        </D:activelock></D:lockdiscovery></D:prop>")))))))))

abbrev pub answer_lock : DavLock → HttpResponse
answer_lock l = with_header (codes "Content-Length") (to_string (length (lock_text l))) (
    with_header (codes "Lock-Token") l.token (
      with_header (codes "Content-Type") (codes "text/xml")
        (record (plain 200 (codes "OK")) { body = lock_text l })))

-- The resource that holds the new lock lives as long as the request.
unfoldable pub process_lock : DavHost → HttpRequest → M HttpResponse
unfolding at_request lock_text
process_lock h q =
    at_request q
      (λ r. do (l, kept) ← Resource.lock h lock_owner (is_exclusive q) r; pure (answer_lock l))

unfoldable pub process_unlock : HttpRequest → M HttpResponse
unfolding at_request
process_unlock q = at_request q (λ r. pure (
    if (Resource.unlock q.lock_token r).0
    then plain 204 (codes "No Content")
    else plain 409 (codes "Conflict")))

unfoldable pub process_options : DavHost → HttpRequest → M HttpResponse
unfolding get_http_date
process_options h q = do
  date ← get_http_date h
  pure (
      with_header (codes "Date") date (
        with_header (codes "MS-Author-Via") (codes "DAV") (
          with_header (codes "Connection") (codes "keep-alive") (
            with_header (codes "Server") (codes "WebDAV Server") (
              with_header (codes "Content-Type") (codes "text/html") (
                with_header (codes "Content-Length") (codes "0") (
                  with_header (codes "DAV") (codes "1, 2")
                    (with_header (codes "Allow") allowed (plain 200 (codes "OK"))))))))))
