-- ===== src/Webdav/Http/RequestLine.antt =====
-- `parse_request_line` of netfiles/src/webdav/http_parser.cpp.
pub mod Version
use net_files.Base.{
  ℕ, ◌/◌, ◌%◌, ◌<◌, true, List, [], ◌∷◌, ◌++◌, Option, none, some, ◌≡◌, ◌≢◌, refl, ap, ◌∙◌, Bytes,
  codes, equal, if◌then◌else◌, All, Lacks, arith, Bool-cases, inl, inr,
}
use net_files.Core.Utils.{split, split-first, split-only}
use net_files.Webdav.Http.Types.{
  HttpMethod, get, head, put, delete, mkcol, propfind, proppatch, copy, move, lock, unlock, options,
  HttpVersion, http10, http11, unknown, method_to_string, string_to_method, string_to_method_iff,
}
use net_files.Webdav.Http.Url.{
  decode_url, encode_url, is_unreserved, hex_upper, decode_url-encode_url,
}

-- The version is only set when there is a third part.
unfoldable pub version_of : List Bytes → HttpVersion → HttpVersion
version_of [] version = version
version_of (v ∷ r) version =
    if equal v (codes "HTTP/1.1")
    then http11
    else if equal v (codes "HTTP/1.0")
    then http10
    else unknown

unfoldable pub request_parts : List Bytes → HttpVersion → Option (HttpMethod × Bytes × HttpVersion)
unfolding version_of string_to_method decode_url
request_parts (m ∷ p ∷ r) version = elim (string_to_method m) [
  | none ↦ none
  | some method ↦ some (method, decode_url p, version_of r version)
]
request_parts _ version = none

-- `none` for `false`; `version` is what the request held before.
unfoldable pub parse_request_line : Bytes → HttpVersion → Option (HttpMethod × Bytes × HttpVersion)
unfolding request_parts split
parse_request_line line version = request_parts (split line b' ') version

-- A request line with an encoded path.
unfoldable pub request_line : HttpMethod → Bytes → Bytes
request_line method path =
    method_to_string method ++ (b' ' ∷ (encode_url path ++ (b' ' ∷ codes "HTTP/1.1")))

pub method_fits : (m : HttpMethod) → Lacks b' ' (method_to_string m)
unfolding method_to_string codes
method_fits get = ground arith
method_fits head = ground arith
method_fits put = ground arith
method_fits delete = ground arith
method_fits mkcol = ground arith
method_fits propfind = ground arith
method_fits proppatch = ground arith
method_fits copy = ground arith
method_fits move = ground arith
method_fits lock = ground arith
method_fits unlock = ground arith
method_fits options = ground arith

hex_upper_fits : (n : ℕ) → hex_upper n ≢ b' '
unfolding hex_upper
hex_upper_fits n = ground arith

unreserved_fits : (c : ℕ) → is_unreserved c ≡ true → c ≢ b' '
unfolding is_unreserved
unreserved_fits c h = ground arith

pub encode_url_fits : (s : Bytes) → Lacks b' ' (encode_url s)
unfolding encode_url
encode_url_fits [] = tt
encode_url_fits (c ∷ s) = elim (Bool-cases (is_unreserved c)) [
  | inl e ↦ rw e (unreserved_fits c e, encode_url_fits s)
  | inr e ↦ rw e (
    (λ z. absurd (omega arith)),
    (hex_upper_fits (c / 16), (hex_upper_fits (c % 16), encode_url_fits s)),
  )
]

version_fits : Lacks b' ' (codes "HTTP/1.1")
unfolding codes
version_fits = ground arith

request_parts_known :
    (m : HttpMethod) (p : Bytes) (version : HttpVersion)
    → request_parts (method_to_string m ∷ p ∷ codes "HTTP/1.1" ∷ []) version
      ≡ some (m, decode_url p, http11)
unfolding request_parts version_of equal codes
request_parts_known m p version =
    rw ((string_to_method_iff (method_to_string m) m).1 refl, request_parts)

-- A request line made of a method's name, an encoded path and the version is read back: the method,
-- the path's bytes and HTTP/1.1.
pub parse_request_line-request_line :
    (method : HttpMethod) (path : Bytes) (version : HttpVersion)
    → All (λ c. c < 256) path
    → parse_request_line (request_line method path) version ≡ some (method, path, http11)
unfolding parse_request_line request_line
parse_request_line-request_line method path version h =
    ap (λ ps. request_parts ps version)
      (split-first b' ' (method_to_string method) _ (method_fits method)
        ∙ ap (λ r. method_to_string method ∷ r)
            (split-first b' ' (encode_url path) _ (encode_url_fits path)
              ∙ ap (λ r. encode_url path ∷ r) (split-only b' ' (codes "HTTP/1.1") version_fits)))
    ∙ request_parts_known method (encode_url path) version
    ∙ ap (λ p. some (method, p, http11)) (decode_url-encode_url path h)
