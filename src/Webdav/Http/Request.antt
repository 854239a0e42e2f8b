-- ===== src/Webdav/Http/Request.antt =====
-- `HttpParser::parse_request` of netfiles/src/webdav/http_parser.cpp: a request from the socket.
pub mod Body
pub mod Complete
pub mod Whole
use net_files.Base.{
  ℕ, zero, suc, ◌+◌, ◌-◌, Bool, List, [], ◌∷◌, ◌++◌, Option, none, some, Bytes, codes, equal, find,
  is_empty, take, drop, length, if◌then◌else◌, ltb, Outcome, done, thrown, pending,
}
use net_files.StringUtil.{local, utf8, encode, until_nul}
use net_files.Webdav.Http.Headers.{Headers, HttpRequest, parse_headers, stoul}
use net_files.Webdav.Http.RequestLine.{parse_request_line}
use net_files.Webdav.Http.Types.{HttpMethod, get, HttpVersion}
use net_files.Webdav.World.{DavHost, DavWorld, M, after, ◌>>=◌, pure, lift, read_some, weight}

-- `std::expected`.
pub data Expected {ℓ} (A : Type ℓ) : Type ℓ where
  value : A → Expected A
  unexpected : Bytes → Expected A

-- A new request; the method and the version are not initialised in the source.
unfoldable pub new_request : HttpMethod → Bytes → HttpVersion → HttpRequest
new_request method path version = record {
  method = method;
  path = path;
  version = version;
  headers = [];
  body = [];
  host = [];
  if_match = [];
  if_none_match = [];
  if_modified_since = [];
  if_unmodified_since = [];
  authorization = [];
  depth = [];
  destination = [];
  overwrite = [];
  lock_token = [];
  content_type = [];
  content_length = 0;
}

unfoldable pub find_header : Bytes → Headers → Option Bytes
find_header k [] = none
find_header k ((j, x) ∷ r) = if equal j k then some x else find_header k r

abbrev pub blank_line : Bytes
blank_line = 13 ∷ 10 ∷ 13 ∷ 10 ∷ []

abbrev pub chunk_of : ℕ → ℕ → ℕ
chunk_of n have = if ltb (n - have) 4096 then n - have else 4096

-- The loop that reads until the body has `n` bytes.
unfoldable pub read_body : ℕ → ℕ → Bytes → M Bytes
read_body zero n body w = (pending, w)
read_body (suc f) n body w =
    let more = after (read_some (chunk_of n (length body)) w) (λ b. read_body f n (body ++ b)) in
    if ltb (length body) n then more else (done body, w)

-- Fuel that is enough for the events that are left.
unfoldable pub read_rest : ℕ → Bytes → M Bytes
unfolding read_body
read_rest n body w = read_body (suc (weight w.reads)) n body w

-- The body of a request whose length is known.
unfoldable pub with_length : ℕ → Bytes → HttpRequest → M HttpRequest
unfolding read_rest
with_length zero body r = pure (record r { content_length = 0 })
with_length (suc n) body r = do
  whole ← read_rest (suc n) body
  pure (record r { content_length = suc n; body = whole })

unfoldable pub with_body : DavHost → Bytes → HttpRequest → Option Bytes → M HttpRequest
unfolding with_length
with_body h body r none = pure r
with_body h body r (some text) = do n ← lift (stoul h.bits text); with_length n body r

-- From the parsed request line on; `head` is the text in front of the blank line, `body` what of the
-- first read stands behind it.
unfoldable pub parse_rest :
    DavHost → Bytes → Bytes → Option (HttpMethod × Bytes × HttpVersion) → M (Expected HttpRequest)
unfolding with_body new_request
parse_rest h head body none = pure (unexpected (codes "Invalid request line"))
parse_rest h head body (some (method, path, version)) = do
  name ← lift (encode h.win32 local utf8 (until_nul path))
  r ← lift (parse_headers h.bits head (new_request method name version))
  q ← with_body h body r (find_header (codes "content-length") r.headers)
  pure (value q)

-- With no blank line in what was read, the head is empty and nothing is consumed.
unfoldable pub parse_content : DavHost → Bytes → Option ℕ → M (Expected HttpRequest)
unfolding parse_rest
parse_content h content none w = parse_rest h [] [] (parse_request_line [] h.unset) w
parse_content h content (some i) w =
    parse_rest h (take i content) (drop (i + 4) content)
      (parse_request_line (take i content) h.unset) (record w { buffer = drop (i + 4) w.buffer })

-- `cotent_sv`: as many bytes as were read now, from the front of the buffer.
unfoldable pub content_of : Bytes → DavWorld → Bytes
content_of bytes w = take (length bytes) w.buffer

unfoldable pub parse_request : DavHost → M (Expected HttpRequest)
unfolding parse_content content_of
parse_request h = read_some 4096 >>= λ bytes w.
    parse_content h (content_of bytes w) (find blank_line (content_of bytes w)) w
