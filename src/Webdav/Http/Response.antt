-- ===== src/Webdav/Http/Response.antt =====
-- Responses (`HttpResponse`, `error_response`, `generate_response` of netfiles/src/webdav/http_parser.hpp
-- and http_parser.cpp), and what `parse_headers` makes of printed headers.
use net_files.Base.{
  ℕ, Bool, false, ◌||◌, [], ◌∷◌, ◌++◌, ◌≡◌, Bytes, codes, equal, length, if◌then◌else◌, ◌==◌, Lacks,
  Outcome, done, thrown, pending, to_string,
}
use net_files.Core.Utils.{to_lower}
use net_files.Webdav.Http.Headers.{Headers, HttpRequest, set_header, store_header}
use net_files.Webdav.Http.Types.{HttpVersion, http11}

pub record HttpResponse : Type 0 where
  pub status_code : ℕ
  pub status_message : Bytes
  pub version : HttpVersion
  pub headers : Headers
  pub body : Bytes

unfoldable pub get_header : Bytes → Headers → Bytes
get_header k [] = []
get_header k ((j, x) ∷ r) = if equal j k then x else get_header k r

unfoldable pub error_response : ℕ → Bytes → HttpResponse
unfolding set_header
error_response code message = record {
  status_code = code;
  status_message = message;
  version = http11;
  headers =
      set_header (codes "Content-Length") (to_string (length message))
        (set_header (codes "Content-Type") (codes "text/plain") []);
  body = message;
}

-- A header's line without its line feed.
unfoldable pub header_text : Bytes → Bytes → Bytes
header_text key value = (key ++ (b':' ∷ b' ' ∷ value)) ++ 13 ∷ []

unfoldable pub print_headers : Headers → Bytes
unfolding header_text
print_headers [] = []
print_headers ((key, value) ∷ r) = header_text key value ++ (b'\n' ∷ print_headers r)

unfoldable pub generate_response : HttpResponse → Bytes
unfolding print_headers
generate_response r =
    codes "HTTP/1.1 "
    ++ (to_string r.status_code
        ++ (b' '
            ∷ (r.status_message ++ (13 ∷ 10 ∷ (print_headers r.headers ++ (13 ∷ 10 ∷ r.body))))))

-- The headers stored one after the other, until one throws.
unfoldable pub store_all : ℕ → Headers → HttpRequest → Outcome HttpRequest
store_all bits [] r = done r
store_all bits ((key, value) ∷ hs) r = elim (store_header bits (to_lower key) value r) [
  | done q ↦ store_all bits hs q
  | thrown m ↦ thrown m
  | pending ↦ pending
]

abbrev starts_blank : Bytes → Bool
starts_blank [] = false
starts_blank (c ∷ s) = c == b' ' || c == b'\t'

-- A key without colon and line feed, and a value without line feed that does not begin with a blank.
abbrev pub IsHeader : Bytes × Bytes → Type 0
IsHeader (key, value) =
    Lacks b':' key × Lacks b'\n' key × Lacks b'\n' value × (starts_blank value ≡ false)
