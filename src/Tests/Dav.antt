-- ===== src/Tests/Dav.antt =====
-- The theorems on the WebDAV server, at the small site.
use net_files.Base.{
  ℕ, ◌≤◌, List, [], ◌∷◌, ◌++◌, none, some, ◌≡◌, refl, ◌⊎◌, Bytes, codes, done, starts_with, equal,
  flatten_with, arith, find, length,
}
use net_files.Core.Fs.Canonical.{IsReal, resolve_names-IsReal}
use net_files.Core.Fs.Disk.{
  file, node_at, render, join_path, components, names_from, find_entry, same_path, is_absolute,
  ends_in_slash,
}
use net_files.Core.Fs.Ops.{locate, locate_from, set_node}
use net_files.Core.Fs.Walk.{
  canonical, resolve_names, walk, walk_names, move_of, start_of, exists, is_directory, status,
}
use net_files.Ftp.PathResolver.{resolve}
use net_files.Ftp.World.{got}
use net_files.StringUtil.Utf.{utf32_to_utf8, utf32_to_utf16, to_utf16, from_utf16, text}
use net_files.StringUtil.Utf.RoundTrip.{from_utf16-to_utf16}
use net_files.Webdav.Handler.{
  plain, not_found, resolve_path, resolve_decoded, resolve_under, within_root, destination_path,
  from_slash, resolve_destination, at_request, at_path, resource_at,
}
use net_files.Webdav.Handler.Confined.Methods.{dispatch-Confined}
use net_files.Webdav.Handler.Effects.{process_copy_overwrites, dispatch-put}
use net_files.Webdav.Handler.Effects.Answers.{
  file_head, process_get_twice, process_unlock_refused, dispatch_missing,
}
use net_files.Webdav.Handler.Enough.{serve_dav_enough}
use net_files.Webdav.Handler.Files.{process_copy}
use net_files.Webdav.Handler.Paths.{resolve_path-resolve}
use net_files.Webdav.Handler.Propfind.{process_unlock}
use net_files.Webdav.Handler.Serve.{dispatch, answer, serve}
use net_files.Webdav.Http.Headers.{
  HttpRequest, parse_headers, header_lines, header_line, header_parts, store_header, keep_common,
  set_length, set_header, cut_colon, skip_blanks, stoul,
}
use net_files.Core.Utils.{split, to_lower}
use net_files.StringUtil.{encode, until_nul, local, utf8}
use net_files.Webdav.Http.RequestLine.{parse_request_line, request_parts, version_of}
use net_files.Webdav.Http.Request.{new_request, value, parse_request, blank_line, find_header}
use net_files.Webdav.Http.Request.Body.{arriving}
use net_files.Webdav.Http.Request.Complete.{parse_request-Complete}
use net_files.Webdav.Http.Request.Whole.{parse_request_whole}
use net_files.Webdav.Http.RequestLine.Version.{more_lines, parse_request_line_version}
use net_files.Webdav.Http.Types.{method_to_string, get, put, delete, mkcol, copy, http11, unknown}
use net_files.Webdav.Http.Url.{encode_url, decode_url, decode_from, hex_at, hex_pair, hex_value}
use net_files.Webdav.Resource
use net_files.Webdav.Resource.{create, without_token}
use net_files.Webdav.Http.Response.{HttpResponse}
use net_files.Webdav.World.{Tm, DavHost, DavWorld, pure, after, weight}
use net_files.Webdav.Xml.{escape_xml}
use net_files.Webdav.Xml.Escape.{unescape_from, unescape-escape_xml}
use net_files.Tests.{
  host, disk, root, working_is, secret-Outside, root_resolves, a_names, secret_names,
}

abbrev noon : Tm
noon = record { sec = 5; min = 30; hour = 12; mday = 9; mon = 1; year = 126; wday = 1 }

abbrev dav_host : DavHost
dav_host = record {
  win32 = host.win32;
  gb18030_to_utf8 = λ s. s;
  clock = λ n. n;
  gmtime = λ t. noon;
  modified = λ p. noon;
  bits = 32;
  unset = unknown;
}

abbrev dav_world : DavWorld
dav_world = record {
  root = root;
  disk = disk;
  reads = [];
  writes = none ∷ none ∷ none ∷ [];
  buffer = [];
  sent = [];
  ticks = 0;
}

abbrev for_a : HttpRequest
for_a = record (new_request get (codes "/a.txt") http11) {
  body = codes "hello";
  content_length = 4;
}

abbrev a_path : Bytes
a_path = codes "/srv/ftp/a.txt"

a_is : resolve_path disk root (codes "/a.txt") ≡ done (render a_names)
unfolding resolve_path resolve_decoded resolve_under within_root decode_url decode_from hex_at
    canonical resolve_names walk walk_names components names_from move_of equal node_at find_entry
    same_path is_absolute starts_with render flatten_with join_path ends_in_slash start_of locate
    locate_from codes
a_is = refl

a_holds : node_at disk a_names ≡ some (file (codes "he\r\nllo"))
unfolding node_at find_entry same_path equal codes
a_holds = refl

a-IsReal : IsReal disk a_names
unfolding codes
a-IsReal = resolve_names-IsReal disk (codes "/srv/ftp/a.txt") a_names working_is root_resolves

dispatch-Confined_example :
    node_at (dispatch dav_host delete for_a dav_world).1.disk secret_names
    ≡ node_at disk secret_names
dispatch-Confined_example =
    dispatch-Confined dav_host delete for_a dav_world secret_names working_is (λ e. cc)
      secret-Outside

process_get_twice_example : answer dav_host (pure tt) (value for_a) dav_world ≡ (
  done tt,
  record dav_world {
    writes = [];
    sent = (file_head dav_world a_path ++ codes "he\r\nllo") ++ file_head dav_world a_path;
  },
)
unfolding new_request codes render flatten_with
process_get_twice_example =
    process_get_twice dav_host for_a dav_world a_names (codes "he\r\nllo") [] refl a_is a-IsReal
      a_holds refl

-- A server over the whole of `/srv`, asked to copy a file onto another one only if it is not there.
abbrev wide_world : DavWorld
wide_world = record dav_world { root = codes "/srv" }

abbrev copying : HttpRequest
copying = record (new_request copy (codes "/ftp/a.txt") http11) {
  destination = codes "http://host/other/b.txt";
  overwrite = codes "F";
}

process_copy_overwrites_example : process_copy copying wide_world ≡ (
  done (plain 412 (codes "Precondition Failed")),
  record wide_world { disk = set_node secret_names (file (codes "he\r\nllo")) disk },
)
unfolding resolve_path resolve_decoded resolve_under within_root decode_url decode_from hex_at
    resolve_destination destination_path from_slash canonical resolve_names walk walk_names
    components names_from move_of equal node_at find_entry same_path is_absolute starts_with render
    flatten_with join_path ends_in_slash start_of locate locate_from codes new_request find
process_copy_overwrites_example =
    process_copy_overwrites copying wide_world a_names secret_names (codes "he\r\nllo")
      (codes "secret") refl refl a-IsReal
      (resolve_names-IsReal disk (codes "/srv/other/b.txt") secret_names working_is refl) refl refl
      refl

abbrev conflict : HttpResponse
conflict = plain 409 (codes "Conflict")

process_unlock_refused_example : (conflict.status_code ≡ 404) ⊎ (conflict.status_code ≡ 409)
unfolding process_unlock at_request at_path resource_at resolve_path resolve_decoded resolve_under
    within_root decode_url decode_from hex_at create exists is_directory status Resource.unlock
    without_token after canonical resolve_names walk walk_names components names_from move_of equal
    node_at find_entry same_path is_absolute starts_with render flatten_with join_path ends_in_slash
    start_of locate locate_from codes new_request
process_unlock_refused_example = process_unlock_refused for_a dav_world conflict dav_world refl

dispatch_missing_example :
    dispatch dav_host mkcol (record for_a { path = codes "/new" }) dav_world
    ≡ (done not_found, dav_world)
unfolding decode_url decode_from hex_at canonical resolve_names walk walk_names components
    names_from move_of equal node_at find_entry same_path is_absolute starts_with render
    flatten_with join_path ends_in_slash start_of locate locate_from codes
dispatch_missing_example =
    dispatch_missing dav_host mkcol (record for_a { path = codes "/new" }) dav_world b'/'
      (codes "new") refl refl (λ e. cc, λ e. cc, λ e. cc, λ e. cc)

resolve_path-resolve_example :
    resolve_path disk root (codes "/%61.txt") ≡ done (resolve disk root root (codes "a.txt"))
unfolding decode_url decode_from hex_at hex_pair hex_value codes
resolve_path-resolve_example =
    resolve_path-resolve disk root (codes "/%61.txt") b'/' (codes "a.txt") refl

unescape-escape_xml_example :
    unescape_from 0 (escape_xml (codes "a<b&\"c")) ≡ some (codes "a<b&\"c")
unescape-escape_xml_example = unescape-escape_xml (codes "a<b&\"c")

-- A letter, the euro sign and a face.
abbrev letters : List ℕ
letters = 0x48 ∷ 0x20AC ∷ 0x1F600 ∷ []

from_utf16-to_utf16_example :
    (to_utf16 (utf32_to_utf8 letters) ≡ text (utf32_to_utf16 letters))
    × (from_utf16 (utf32_to_utf16 letters) ≡ utf32_to_utf8 letters)
from_utf16-to_utf16_example = from_utf16-to_utf16 letters (ground arith)

abbrev put_head : Bytes
put_head = codes "PUT /a.txt HTTP/1.1\r\nContent-Length: 5"

abbrev first_body : Bytes
first_body = codes "he"

abbrev later : List Bytes
later = codes "l" ∷ codes "lo" ∷ []

-- A client that sends a request in three pieces.
abbrev first_read : Bytes
first_read = put_head ++ (blank_line ++ first_body)

abbrev sending : DavWorld
sending = record dav_world { reads = got first_read ∷ arriving later [] }

-- The request's line and headers.
abbrev put_request : HttpRequest
put_request = record (new_request put (codes "/a.txt") unknown) {
  headers = (codes "content-length", codes "5") ∷ [];
  content_length = 5;
}

abbrev whole_request : HttpRequest
whole_request = record put_request { body = codes "hello" }

fits : length first_read ≤ 4096
unfolding codes
fits = omega arith

at_blank : find blank_line first_read ≡ some (length put_head)
unfolding find starts_with codes
at_blank = refl

at_line : parse_request_line put_head unknown ≡ some (put, codes "/a.txt", unknown)
unfolding parse_request_line request_parts version_of split decode_url decode_from hex_at equal
    codes
at_line = refl

at_headers : parse_headers 32 put_head (new_request put (codes "/a.txt") unknown) ≡ done put_request
unfolding parse_headers header_lines header_line header_parts store_header keep_common set_length
    set_header cut_colon skip_blanks stoul starts_with codes new_request equal to_lower
at_headers = refl

at_name : encode host.win32 local utf8 (until_nul (codes "/a.txt")) ≡ done (codes "/a.txt")
unfolding encode until_nul codes
at_name = refl

parse_request_whole_example :
    parse_request dav_host sending
    ≡ (done (value whole_request), record dav_world { buffer = codes "hello" })
unfolding codes new_request find_header equal stoul
parse_request_whole_example =
    parse_request_whole dav_host dav_world later [] put_head first_body (codes "/a.txt")
      (codes "/a.txt") (codes "5") put unknown put_request 4 fits at_blank at_line at_name
      at_headers refl refl (refl, (refl, tt)) (omega arith)

-- The world when the request has been read.
abbrev received : DavWorld
received = record dav_world { buffer = codes "hello" }

sent_is_read : parse_request dav_host sending ≡ (done (value whole_request), received)
unfolding codes new_request find_header equal stoul
sent_is_read =
    parse_request_whole dav_host dav_world later [] put_head first_body (codes "/a.txt")
      (codes "/a.txt") (codes "5") put unknown put_request 4 fits at_blank at_line at_name
      at_headers refl refl (refl, (refl, tt)) (omega arith)

parse_request-Complete_example : whole_request.content_length ≤ length whole_request.body
unfolding codes new_request find_header equal stoul
parse_request-Complete_example = parse_request-Complete dav_host sending sent_is_read

serve_dav_enough_example : serve 60 dav_host sending ≡ serve 99 dav_host sending
unfolding codes weight
serve_dav_enough_example = serve_dav_enough 60 99 dav_host sending (omega arith) (omega arith)

parse_request_line_version_example :
    parse_request_line
      (method_to_string get
        ++ (b' '
            ∷ (encode_url (codes "/a b")
                ++ (b' '
                    ∷ (more_lines (codes "HTTP/1.0") (codes "Host:") ++ (b' ' ∷ codes "here"))))))
      http11
    ≡ some (get, codes "/a b", unknown)
unfolding codes
parse_request_line_version_example =
    parse_request_line_version get (codes "/a b") (codes "HTTP/1.0") (codes "Host:") (codes "here")
      http11 (ground arith) (ground arith) (ground arith)

dispatch-put_example : dispatch dav_host put whole_request received ≡ (
  done (plain 201 (codes "Created")),
  record received { disk = set_node a_names (file (codes "hello")) disk },
)
unfolding codes new_request find_header equal stoul
dispatch-put_example =
    dispatch-put dav_host sending received whole_request a_names (codes "he\r\nllo") sent_is_read
      refl a_is a-IsReal a_holds
