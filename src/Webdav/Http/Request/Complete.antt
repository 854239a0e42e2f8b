-- ===== src/Webdav/Http/Request/Complete.antt =====
-- What `HttpParser::parse_request` (netfiles/src/webdav/http_parser.cpp) gives, when it gives a request.
use net_files.Base.{
  ℕ, zero, suc, ◌||◌, ◌≤◌, ◌<◌, false, List, [], ◌∷◌, Option, none, some, ◌≡◌, refl, ap, subst,
  Bytes, codes, equal, equal_iff, is_empty, length, if◌then◌else◌, Outcome, done, thrown, pending,
  arith, Bool-cases, inl, inr,
}
use net_files.Core.Utils.{getlines}
use net_files.Webdav.Http.Headers.{
  Headers, HttpRequest, set_header, set_length, keep_common, store_header, header_parts,
  header_line, header_lines, parse_headers,
}
use net_files.Webdav.Http.Request.{
  Expected, value, new_request, find_header, read_rest, with_length, with_body, parse_rest,
  parse_content, content_of, parse_request,
}
use net_files.Webdav.Http.Request.Body.{read_body-Complete, read_body-weight}
use net_files.Webdav.Http.Types.{HttpMethod, HttpVersion}
use net_files.Webdav.World.{DavHost, DavWorld, after-eq_done, read_some-weight, weight}

find_header-set_header :
    (k j x : Bytes) (hs : Headers)
    → find_header k (set_header j x hs) ≡ (if equal j k then some x else find_header k hs)
unfolding find_header set_header
find_header-set_header k j x [] = refl
find_header-set_header k j x ((i, y) ∷ hs) =
    ground (arith, equal_iff j k, equal_iff i k, equal_iff i j, find_header-set_header k j x hs)

-- Without a length among the headers, the request's length is 0.
abbrev Counted : HttpRequest → Type 0
Counted r = find_header (codes "content-length") r.headers ≡ none → r.content_length ≡ 0

keep_common-headers :
    (bits : ℕ) (key x : Bytes) (r q : HttpRequest)
    → keep_common bits key x r ≡ done q
    → (q.headers ≡ r.headers)
      × (equal key (codes "content-length") ≡ false → q.content_length ≡ r.content_length)
unfolding keep_common set_length
keep_common-headers bits key x r q h = ground arith

store_header-Counted :
    (bits : ℕ) (key x : Bytes) (r q : HttpRequest)
    → store_header bits key x r ≡ done q
    → Counted r
    → Counted q
unfolding store_header
store_header-Counted bits key x r q h c none_there =
    let (same, kept) = keep_common-headers bits key x _ q h in
    ground (arith, find_header-set_header (codes "content-length") key x r.headers)

header_parts-Counted :
    (bits : ℕ) (o : Option (Bytes × Bytes)) (r q : HttpRequest)
    → header_parts bits o r ≡ done q
    → Counted r
    → Counted q
unfolding header_parts
header_parts-Counted bits none r q h c = subst Counted {x = r} {y = q} (cc) c
header_parts-Counted bits (some (key, x)) r q h c = store_header-Counted bits _ _ r q h c

header_line-Counted :
    (bits : ℕ) (line : Bytes) (r q : HttpRequest)
    → header_line bits line r ≡ done q
    → Counted r
    → Counted q
unfolding header_line
header_line-Counted bits line r q h c = elim (Bool-cases (is_empty line || equal line (13 ∷ []))) [
  | inl e ↦ let same : done r ≡ done q = rw e at h in subst Counted {x = r} {y = q} (cc) c
  | inr e ↦ header_parts-Counted bits _ r q (rw e at h) c
]

header_lines-Counted :
    (bits : ℕ) (lines : List Bytes) (r q : HttpRequest)
    → header_lines bits lines r ≡ done q
    → Counted r
    → Counted q
unfolding header_lines
header_lines-Counted bits [] r q h c = subst Counted {x = r} {y = q} (cc) c
header_lines-Counted bits (line ∷ lines) r q h c =
    by_outcome (header_line bits line r) refl (header_lines-Counted bits lines) h
  where
    by_outcome :
        (o : Outcome HttpRequest)
        → header_line bits line r ≡ o
        → ((p : HttpRequest) (q : HttpRequest)
            → header_lines bits lines p ≡ done q
            → Counted p
            → Counted q)
        → (elim o [ done p ↦ header_lines bits lines p | thrown m ↦ thrown m | pending ↦ pending ])
          ≡ done q
        → Counted q
    by_outcome (done p) e go h = go p q h (header_line-Counted bits line r p e c)
    by_outcome (thrown m) e go h = absurd (cc)
    by_outcome pending e go h = absurd (cc)

parse_headers-Counted :
    (bits : ℕ) (text : Bytes) (r q : HttpRequest)
    → parse_headers bits text r ≡ done q
    → Counted r
    → Counted q
unfolding parse_headers
parse_headers-Counted bits text r q h c = header_lines-Counted bits (getlines b'\n' [] text) r q h c

with_length-Complete :
    (n : ℕ) (body : Bytes) (r : HttpRequest) (w : DavWorld) {q : HttpRequest} {v : DavWorld}
    → with_length n body r w ≡ (done q, v)
    → q.content_length ≤ length q.body
unfolding with_length read_rest
with_length-Complete zero body r w {q} h =
    let none_asked : 0 ≡ q.content_length = ground (arith, h) in rw (← none_asked) (omega arith)
with_length-Complete (suc n) body r w {q} h =
    let (whole, u, at_whole, rest) = after-eq_done _ _ h in
    let (a, b) : (suc n ≡ q.content_length) × (whole ≡ q.body) = ground (arith, rest) in
    rw (← a) (rw (← b) (read_body-Complete (suc (weight w.reads)) (suc n) body w at_whole))

with_body-Complete :
    (h : DavHost) (body : Bytes) (r : HttpRequest) (w : DavWorld) (o : Option Bytes)
    {q : HttpRequest} {v : DavWorld}
    → find_header (codes "content-length") r.headers ≡ o
    → Counted r
    → with_body h body r o w ≡ (done q, v)
    → q.content_length ≤ length q.body
unfolding with_body
with_body-Complete h body r w none {q} none_there c e =
    let same : r ≡ q = cc in
    subst (λ q. q.content_length ≤ length q.body) same (omega (arith, c none_there))
with_body-Complete h body r w (some text) found c e =
    let (n, u, at_n, rest) = after-eq_done _ _ e in with_length-Complete n body r u rest

parse_rest-Complete :
    (h : DavHost) (head body : Bytes) (o : Option (HttpMethod × Bytes × HttpVersion)) (w : DavWorld)
    {q : HttpRequest} {v : DavWorld}
    → parse_rest h head body o w ≡ (done (value q), v)
    → q.content_length ≤ length q.body
unfolding parse_rest
parse_rest-Complete h head body none w e = absurd (cc)
parse_rest-Complete h head body (some (method, path, version)) w {q} e =
    let (name, u, at_name, named) = after-eq_done _ _ e in
    let (r, u', at_r, parsed) = after-eq_done _ _ named in
    let (whole, u'', at_whole, last) = after-eq_done _ _ parsed in
    let same : whole ≡ q = cc in
    let counted : Counted r =
      parse_headers-Counted h.bits head _ r (ap (λ p. p.0) at_r)
        (unfold new_request in λ z. refl) in
    subst (λ q. q.content_length ≤ length q.body) same
      (with_body-Complete h body r u' _ refl counted at_whole)

parse_content-Complete :
    (h : DavHost) (content : Bytes) (o : Option ℕ) (w : DavWorld) {q : HttpRequest} {v : DavWorld}
    → parse_content h content o w ≡ (done (value q), v)
    → q.content_length ≤ length q.body
unfolding parse_content
parse_content-Complete h content none w e = parse_rest-Complete h [] [] _ w e
parse_content-Complete h content (some i) w e = parse_rest-Complete h _ _ _ _ e

-- A request that comes out of the parser carries at least as many bytes of body as its length says.
pub parse_request-Complete :
    (h : DavHost) (w : DavWorld) {q : HttpRequest} {v : DavWorld}
    → parse_request h w ≡ (done (value q), v)
    → q.content_length ≤ length q.body
unfolding parse_request
parse_request-Complete h w e =
    let (bytes, u, at_bytes, rest) = after-eq_done _ _ e in
    parse_content-Complete h (content_of bytes u) _ u rest

with_length-weight :
    (n : ℕ) (body : Bytes) (r : HttpRequest) (w : DavWorld) {q : HttpRequest} {v : DavWorld}
    → with_length n body r w ≡ (done q, v)
    → weight v.reads ≤ weight w.reads
unfolding with_length read_rest
with_length-weight zero body r w {q} {v} h =
    let same : w.reads ≡ v.reads = ap (λ p. p.1.reads) h in rw same (omega arith)
with_length-weight (suc n) body r w {q} {v} h =
    let (whole, u, at_whole, rest) = after-eq_done _ _ h in
    let same : u.reads ≡ v.reads = ap (λ p. p.1.reads) rest in
    rw (← same) (read_body-weight (suc (weight w.reads)) (suc n) body w at_whole)

with_body-weight :
    (h : DavHost) (body : Bytes) (r : HttpRequest) (w : DavWorld) (o : Option Bytes)
    {q : HttpRequest} {v : DavWorld}
    → with_body h body r o w ≡ (done q, v)
    → weight v.reads ≤ weight w.reads
unfolding with_body
with_body-weight h body r w none {q} {v} e =
    let same : w.reads ≡ v.reads = ap (λ p. p.1.reads) e in rw same (omega arith)
with_body-weight h body r w (some text) {q} {v} e =
    let (n, u, at_n, rest) = after-eq_done _ _ e in
    let same : w.reads ≡ u.reads = ap (λ p. p.1.reads) at_n in
    rw same (with_length-weight n body r u rest)

parse_rest-weight :
    (h : DavHost) (head body : Bytes) (o : Option (HttpMethod × Bytes × HttpVersion)) (w : DavWorld)
    {q : Expected HttpRequest} {v : DavWorld}
    → parse_rest h head body o w ≡ (done q, v)
    → weight v.reads ≤ weight w.reads
unfolding parse_rest
parse_rest-weight h head body none w {q} {v} e =
    let same : w.reads ≡ v.reads = ap (λ p. p.1.reads) e in rw same (omega arith)
parse_rest-weight h head body (some (method, path, version)) w {q} {v} e =
    let (name, u, at_name, named) = after-eq_done _ _ e in
    let (r, u', at_r, parsed) = after-eq_done _ _ named in
    let (whole, u'', at_whole, last) = after-eq_done _ _ parsed in
    let one : w.reads ≡ u.reads = ap (λ p. p.1.reads) at_name in
    let two : u.reads ≡ u'.reads = ap (λ p. p.1.reads) at_r in
    let three : u''.reads ≡ v.reads = ap (λ p. p.1.reads) last in
    rw (one, two, ← three) (with_body-weight h body r u' _ at_whole)

parse_content-weight :
    (h : DavHost) (content : Bytes) (o : Option ℕ) (w : DavWorld) {q : Expected HttpRequest}
    {v : DavWorld}
    → parse_content h content o w ≡ (done q, v)
    → weight v.reads ≤ weight w.reads
unfolding parse_content
parse_content-weight h content none w e = parse_rest-weight h [] [] _ w e
parse_content-weight h content (some i) w e = parse_rest-weight h _ _ _ _ e

-- Every request takes something from the socket.
pub parse_request_less :
    (h : DavHost) (w : DavWorld) {q : Expected HttpRequest} {v : DavWorld}
    → parse_request h w ≡ (done q, v)
    → weight v.reads < weight w.reads
unfolding parse_request
parse_request_less h w e =
    let (bytes, u, at_bytes, rest) = after-eq_done _ _ e in
    let less = read_some-weight 4096 w (omega arith) at_bytes in
    let more = parse_content-weight h (content_of bytes u) _ u rest in omega (arith, less, more)
