-- ===== src/Webdav/Handler/Effects/Answers.antt =====
-- What GET, UNLOCK and requests for nothing are answered (netfiles/src/webdav/dav_handler.cpp).
use net_files.Base.{
  List, ◌⊎◌, ℕ, [], ◌∷◌, ◌++◌, none, some, ◌≡◌, ◌≢◌, refl, ap, ◌∙◌, inl, inr, Bytes, codes,
  if◌then◌else◌, Option, Outcome, done, thrown, pending,
}
use net_files.Core.Fs.Canonical.{IsReal, resolve_names-render}
use net_files.Core.Fs.Disk.{Components, file, Disk, node_at, render, join_path}
use net_files.Core.Fs.Walk.{resolve_names, status}
use net_files.Webdav.Handler.{plain, not_found, resource_at, at_path, at_request, resolve_path}
use net_files.Webdav.Handler.Files.{
  content_head, get_resource, process_get, put_path, process_put, mkcol_path, process_mkcol,
  process_head, process_delete,
}
use net_files.Ftp.PathResolver.{resolve-missing}
use net_files.Webdav.Handler.Paths.{resolve_path-resolve, create-IsNew}
use net_files.Webdav.Handler.Propfind.{
  process_propfind, propfind_path, process_lock, process_unlock,
}
use net_files.Webdav.Handler.Serve.{dispatch, go_on, answer}
use net_files.Webdav.Http.Headers.{HttpRequest}
use net_files.Webdav.Http.Request.{value}
use net_files.Webdav.Http.Types.{
  HttpMethod, get, head, put, delete, mkcol, propfind, proppatch, copy, move, lock, unlock, options,
  HttpVersion, http10, http11, unknown,
}
use net_files.Webdav.Http.Url.{decode_url}
use net_files.Webdav.Http.Response.{HttpResponse, generate_response}
use net_files.Webdav.Resource
use net_files.Webdav.Resource.{
  DavResource, ResourceType, create, changed, get_content, copy_to, put_done, put_result, put_file,
  put_loop, without_token,
}
use net_files.Webdav.Resource.Streams.{get_content_whole}
use net_files.Webdav.World.{DavHost, DavWorld, M, after, pure, write_all, write_to}
use net_files.Webdav.Handler.Effects.{file_resource, at_path-render}

write_all-none :
    (s : Bytes) (w : DavWorld) (os : List (Option Bytes))
    → w.writes ≡ none ∷ os
    → write_all s w ≡ (done tt, record w { writes = os; sent = w.sent ++ s })
unfolding write_all write_to
write_all-none s w os h = rw (h, write_all) refl

status-render :
    {d : Disk} (p : Components) (content : Bytes)
    → IsReal d p
    → node_at d p ≡ some (file content)
    → status d (render p) ≡ some (file content)
unfolding status
status-render p content r h = rw (resolve_names-render p r, status) h

get-render :
    {d : Disk} (p : Components) (content : Bytes)
    → IsReal d p
    → node_at d p ≡ some (file content)
    → Resource.get (file_resource (render p)) d ≡ done content
unfolding Resource.get
get-render p content r h = ap get_content (status-render p content r h) ∙ get_content_whole content

-- The head that GET sends for the file at a path.
abbrev pub file_head : DavWorld → Bytes → Bytes
file_head w path = generate_response (content_head (file_resource path) w.disk)

get_resource_sent :
    (w : DavWorld) (t : Components) (content : Bytes) (os : List (Option Bytes))
    → IsReal w.disk t
    → node_at w.disk t ≡ some (file content)
    → w.writes ≡ none ∷ none ∷ os
    → get_resource (file_resource (render t)) w ≡ (
      done (content_head (file_resource (render t)) w.disk),
      record w { writes = os; sent = (w.sent ++ file_head w (render t)) ++ content },
    )
unfolding get_resource after
get_resource_sent w t content os rt nt at_w =
    rw (write_all-none (file_head w (render t)) w (none ∷ os) at_w, get_resource)
      (rw (get-render t content rt nt) (
        rw
          (write_all-none content
            (record w { writes = none ∷ os; sent = w.sent ++ file_head w (render t) }) os refl)
          refl))

go_on-pure : (version : HttpVersion) (w : DavWorld) → go_on version (pure tt) w ≡ (done tt, w)
unfolding go_on
go_on-pure http10 w = refl
go_on-pure http11 w = refl
go_on-pure unknown w = refl

-- GET of a path that resolves to a file, to a client that takes the three writes: what is sent is a
-- head, the content of the file, and the same head again, and the tree stays as it was.
pub process_get_twice :
    (h : DavHost) (q : HttpRequest) (w : DavWorld) (t : Components) (content : Bytes)
    (os : List (Option Bytes))
    → q.method ≡ get
    → resolve_path w.disk w.root q.path ≡ done (render t)
    → IsReal w.disk t
    → node_at w.disk t ≡ some (file content)
    → w.writes ≡ none ∷ none ∷ none ∷ os
    → answer h (pure tt) (value q) w ≡ (
      done tt,
      record w {
        writes = os;
        sent = ((w.sent ++ file_head w (render t)) ++ content) ++ file_head w (render t);
      },
    )
unfolding answer dispatch process_get at_request after
process_get_twice h q w t content os m at_t rt nt at_w =
    rw (m, answer, dispatch)
      (rw (at_t, process_get)
        (rw (at_path-render t content get_resource w rt nt) (
          rw (get_resource_sent w t content (none ∷ os) rt nt at_w) (
            rw
              (write_all-none (file_head w (render t))
                (record w {
                  writes = none ∷ os;
                  sent = (w.sent ++ file_head w (render t)) ++ content;
                })
                os refl)
              (go_on-pure q.version _)))))

-- When UNLOCK is answered, the answer is 404 or 409, whatever was locked before: the resource that
-- holds a lock is gone with the request that took it.
pub process_unlock_refused :
    (q : HttpRequest) (w : DavWorld) (r : HttpResponse) (v : DavWorld)
    → process_unlock q w ≡ (done r, v)
    → (r.status_code ≡ 404) ⊎ (r.status_code ≡ 409)
unfolding process_unlock at_request after at_path resource_at Resource.unlock without_token
    not_found
process_unlock_refused q w r v = by_path (resolve_path w.disk w.root q.path)
  where
    k : DavResource → M HttpResponse
    k x = pure (
        if (Resource.unlock q.lock_token x).0
        then plain 204 (codes "No Content")
        else plain 409 (codes "Conflict"))

    by_resource :
        (p : Bytes) (o : Option DavResource)
        → create w.disk p ≡ o
        → elim o as (λ _. Outcome HttpResponse × DavWorld) [
          | none ↦ (done not_found, w)
          | some x ↦ k x w
        ]
          ≡ (done r, v)
        → (r.status_code ≡ 404) ⊎ (r.status_code ≡ 409)
    by_resource p none f e = let same : not_found ≡ r = cc in inl (rw (← same) refl)
    by_resource p (some x) f e =
        let none_held = (create-IsNew w.disk p x f).no_locks in
        let same : plain 409 (codes "Conflict") ≡ r = let g = rw none_held at e in cc in
        inr (rw (← same) refl)

    by_path :
        (o : Outcome Bytes)
        → after (o, w) (λ p. at_path p k) ≡ (done r, v)
        → (r.status_code ≡ 404) ⊎ (r.status_code ≡ 409)
    by_path (thrown m) e = absurd (cc)
    by_path pending e = absurd (cc)
    by_path (done []) e = let same : not_found ≡ r = cc in inl (rw (← same) refl)
    by_path (done (c ∷ p)) e = by_resource (c ∷ p) (create w.disk (c ∷ p)) refl e

-- A request other than PROPPATCH, OPTIONS, COPY and MOVE, whose path decodes to a text that is not
-- empty and names nothing below the root, is answered with `not_found` and changes nothing: PUT and
-- MKCOL too, which are there to make what does not exist.
pub dispatch_missing :
    (h : DavHost) (m : HttpMethod) (q : HttpRequest) (w : DavWorld) (c : ℕ) (rest : Bytes)
    → decode_url q.path ≡ c ∷ rest
    → resolve_names w.disk (join_path w.root rest) ≡ none
    → (m ≢ proppatch) × (m ≢ options) × (m ≢ copy) × (m ≢ move)
    → dispatch h m q w ≡ (done not_found, w)
unfolding dispatch after process_get process_head process_put process_delete process_mkcol
    process_propfind process_lock process_unlock at_request at_path resource_at put_path mkcol_path
    propfind_path
dispatch_missing h m q w c rest e gone which = by_method m which
  where
    empty : resolve_path w.disk w.root q.path ≡ done []
    empty =
        resolve_path-resolve w.disk w.root q.path c rest e
        ∙ ap done (resolve-missing w.disk w.root w.root rest gone)

    at_empty :
        {A : Type 0} (k : Bytes → M A) → after (resolve_path w.disk w.root q.path, w) k ≡ k [] w
    at_empty k = rw empty refl

    by_method :
        (m : HttpMethod)
        → (m ≢ proppatch) × (m ≢ options) × (m ≢ copy) × (m ≢ move)
        → dispatch h m q w ≡ (done not_found, w)
    by_method get x = at_empty (λ p. at_path p get_resource)
    by_method head x = at_empty _
    by_method put x = at_empty (put_path q)
    by_method delete x = at_empty _
    by_method mkcol x = at_empty mkcol_path
    by_method propfind x = at_empty (propfind_path h q)
    by_method lock x = at_empty _
    by_method unlock x = at_empty _
    by_method proppatch (x, _, _, _) = absurd (x refl)
    by_method options (_, x, _, _) = absurd (x refl)
    by_method copy (_, _, x, _) = absurd (x refl)
    by_method move (_, _, _, x) = absurd (x refl)
