-- ===== src/Webdav/Http/Request/Whole.antt =====
-- A request that arrives whole, as `HttpParser::parse_request` (netfiles/src/webdav/http_parser.cpp)
-- reads it, and what it leaves in the stream buffer.
use net_files.Base.{
  take_all, drop_all, ℕ, suc, ◌+◌, ◌≤◌, List, [], ◌∷◌, ◌++◌, some, ◌≡◌, sym, ap, ◌∙◌, Bytes, codes,
  find, drop, length, done, All, arith, take-length-append, drop-length-append, drop-drop,
}
use net_files.Ftp.World.{ReadEvent, got}
use net_files.StringUtil.{local, utf8, encode, until_nul}
use net_files.Webdav.Http.Headers.{HttpRequest, stoul, parse_headers}
use net_files.Webdav.Http.Request.{
  value, new_request, find_header, blank_line, read_rest, with_length, with_body, parse_rest,
  parse_content, content_of, parse_request,
}
use net_files.Webdav.Http.Request.Body.{arriving, joined, NonEmpty, read_body-arriving}
use net_files.Webdav.Http.RequestLine.{parse_request_line}
use net_files.Webdav.Http.Types.{HttpMethod, HttpVersion}
use net_files.Webdav.World.{DavHost, DavWorld, after, read_some, read_from, left_over, weight}

drop-append : (s t r : Bytes) → drop (length s + length t) (s ++ (t ++ r)) ≡ r
drop-append s t r =
    sym (drop-drop (length s) (length t) (s ++ (t ++ r)))
    ∙ ap (λ x. drop (length t) x) (drop-length-append s (t ++ r))
    ∙ drop-length-append t r

module _ (h : DavHost) (w : DavWorld) (cs : List Bytes) (rest : List ReadEvent) where
  -- The world when `buffer` is left of the first read.
  abbrev pub Left : Bytes → DavWorld
  Left buffer = record w { buffer = buffer; reads = arriving cs rest }

  abbrev pub Done : Bytes → DavWorld
  Done buffer = record w { buffer = buffer; reads = rest }

  read_rest-arriving :
      (n : ℕ) (body : Bytes)
      → All NonEmpty cs
      → length body + length (joined cs) ≡ n
      → read_rest n body (Left body) ≡ (done (body ++ joined cs), Done (body ++ joined cs))
  unfolding read_rest
  read_rest-arriving n body ne e =
      read_body-arriving (suc (weight (arriving cs rest))) n body cs rest
        (record w { buffer = body }) ne e (omega arith)

  with_body-arriving :
      (n : ℕ) (body text : Bytes) (r : HttpRequest)
      → stoul h.bits text ≡ done (suc n)
      → All NonEmpty cs
      → length body + length (joined cs) ≡ suc n
      → with_body h body r (some text) (Left body) ≡ (
        done (record r { content_length = suc n; body = body ++ joined cs }),
        Done (body ++ joined cs),
      )
  unfolding with_body with_length after
  with_body-arriving n body text r at_n ne e =
      rw (at_n, with_body) (rw (read_rest-arriving (suc n) body ne e))

  module _ (head body path name text : Bytes) (method : HttpMethod) (version : HttpVersion)
      (r : HttpRequest) (n : ℕ) where
    parse_rest-arriving :
        encode h.win32 local utf8 (until_nul path) ≡ done name
        → parse_headers h.bits head (new_request method name version) ≡ done r
        → find_header (codes "content-length") r.headers ≡ some text
        → stoul h.bits text ≡ done (suc n)
        → All NonEmpty cs
        → length body + length (joined cs) ≡ suc n
        → parse_rest h head body (some (method, path, version)) (Left body) ≡ (
          done (value (record r { content_length = suc n; body = body ++ joined cs })),
          Done (body ++ joined cs),
        )
    unfolding parse_rest after
    parse_rest-arriving at_name at_r found at_n ne e =
        rw (at_name, parse_rest)
          (rw (at_r) (rw found (rw (with_body-arriving n body text r at_n ne e))))

    -- When the stream buffer is empty, a request whose head and blank line come with the first read,
    -- of at most 4096 bytes, whose line, path and headers are understood and say a length that is not 0, and whose body comes
    -- with that read and in further pieces that are not empty until it has just that length, is
    -- read with that body. The body also stays in the stream buffer, where the next request is
    -- looked for.
    pub parse_request_whole :
        length (head ++ (blank_line ++ body)) ≤ 4096
        → find blank_line (head ++ (blank_line ++ body)) ≡ some (length head)
        → parse_request_line head h.unset ≡ some (method, path, version)
        → encode h.win32 local utf8 (until_nul path) ≡ done name
        → parse_headers h.bits head (new_request method name version) ≡ done r
        → find_header (codes "content-length") r.headers ≡ some text
        → stoul h.bits text ≡ done (suc n)
        → All NonEmpty cs
        → length body + length (joined cs) ≡ suc n
        → parse_request h (record w {
          buffer = [];
          reads = got (head ++ (blank_line ++ body)) ∷ arriving cs rest;
        })
          ≡ (
            done (value (record r { content_length = suc n; body = body ++ joined cs })),
            Done (body ++ joined cs),
          )
    unfolding parse_request after read_some read_from left_over content_of parse_content
    parse_request_whole fits at_blank at_line at_name at_r found at_n ne e =
        let content = head ++ (blank_line ++ body) in
        rw (take_all 4096 content fits, drop_all 4096 content fits)
          (rw (take_all (length content) content (omega arith)) (
            rw at_blank (
              rw (take-length-append head (blank_line ++ body), drop-append head blank_line body)
                (rw at_line (parse_rest-arriving at_name at_r found at_n ne e)))))
