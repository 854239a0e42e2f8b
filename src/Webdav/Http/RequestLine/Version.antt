-- ===== src/Webdav/Http/RequestLine/Version.antt =====
-- What `parse_request_line` (netfiles/src/webdav/http_parser.cpp) makes of the version when it is handed
-- the whole head of a request, as `parse_request` hands it.
use net_files.Base.{
  List, ℕ, ◌<◌, false, [], ◌∷◌, ◌++◌, some, ◌≡◌, ◌≢◌, refl, ap, ◌∙◌, Bytes, codes, equal, equal_iff,
  All, Lacks, All-append, arith, Bool-cases, inl, inr,
}
use net_files.Core.Utils.{split, split-first}
use net_files.Webdav.Http.RequestLine.{
  parse_request_line, request_parts, version_of, method_fits, encode_url_fits,
}
use net_files.Webdav.Http.Types.{
  HttpMethod, HttpVersion, unknown, method_to_string, string_to_method_iff,
}
use net_files.Webdav.Http.Url.{decode_url, encode_url, decode_url-encode_url}

-- The end of the first line, and what follows.
abbrev pub more_lines : Bytes → Bytes → Bytes
more_lines version name = version ++ (13 ∷ 10 ∷ name)

middle_Lacks : (c : ℕ) (v s : Bytes) → Lacks c (v ++ (c ∷ s)) → ⊥
middle_Lacks c [] s (h, _) = h refl
middle_Lacks c (x ∷ v) s (_, h) = middle_Lacks c v s h

no_version : (text v name : Bytes) → Lacks 13 text → equal (more_lines v name) text ≡ false
no_version text v name h = elim (Bool-cases (equal (more_lines v name) text)) [
  | inl e ↦
      let same : more_lines v name ≡ text = ground (arith, equal_iff (more_lines v name) text) in
      absurd (middle_Lacks 13 v (10 ∷ name) (rw same h))
  | inr e ↦ e
]

http11_Lacks : Lacks 13 (codes "HTTP/1.1")
unfolding codes
http11_Lacks = ground arith

http10_Lacks : Lacks 13 (codes "HTTP/1.0")
unfolding codes
http10_Lacks = ground arith

version_of-more_lines :
    (v name : Bytes) (version : HttpVersion) (r : List Bytes)
    → version_of (more_lines v name ∷ r) version ≡ unknown
unfolding version_of
version_of-more_lines v name version r =
    rw (no_version (codes "HTTP/1.1") v name http11_Lacks, version_of)
      (rw (no_version (codes "HTTP/1.0") v name http10_Lacks))

request_parts_unknown :
    (m : HttpMethod) (p v name : Bytes) (r : List Bytes) (version : HttpVersion)
    → request_parts (method_to_string m ∷ p ∷ more_lines v name ∷ r) version
      ≡ some (m, decode_url p, unknown)
unfolding request_parts
request_parts_unknown m p v name r version =
    rw ((string_to_method_iff (method_to_string m) m).1 refl, request_parts)
      (ap (λ x. some (m, decode_url p, x)) (version_of-more_lines v name version r))

-- Of a head that has a header line with a blank in it, the first line's version is never understood
-- when the version and the header's name hold no blank: what is compared reaches up to the next
-- blank, the end of the line and the header's name included. The method and the path are read as
-- they were.
pub parse_request_line_version :
    (method : HttpMethod) (path v name rest : Bytes) (version : HttpVersion)
    → All (λ c. c < 256) path
    → Lacks b' ' v
    → Lacks b' ' name
    → parse_request_line
        (method_to_string method
          ++ (b' ' ∷ (encode_url path ++ (b' ' ∷ (more_lines v name ++ (b' ' ∷ rest))))))
        version
      ≡ some (method, path, unknown)
unfolding parse_request_line
parse_request_line_version method path v name rest version h a b =
    ap (λ ps. request_parts ps version)
      (split-first b' ' (method_to_string method) _ (method_fits method)
        ∙ ap (λ r. method_to_string method ∷ r)
            (split-first b' ' (encode_url path) _ (encode_url_fits path)
              ∙ ap (λ r. encode_url path ∷ r) (split-first b' ' (more_lines v name) rest fits)))
    ∙ request_parts_unknown method (encode_url path) v name (split rest b' ') version
    ∙ ap (λ p. some (method, p, unknown)) (decode_url-encode_url path h)
  where
    fits : Lacks b' ' (more_lines v name)
    fits = All-append (λ c. c ≢ b' ') v (13 ∷ 10 ∷ name) a (ground arith, (ground arith, b))
