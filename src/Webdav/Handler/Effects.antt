-- ===== src/Webdav/Handler/Effects.antt =====
-- What COPY and PUT of netfiles/src/webdav/dav_handler.cpp do at a file.
pub mod Answers
use net_files.Base.{
  List, ◌⊎◌, ℕ, suc, ◌≤◌, Bool, true, false, not, ◌||◌, ◌&&◌, [], ◌∷◌, ◌++◌, none, some, ◌≡◌, ◌≢◌,
  refl, sym, ap, ◌∙◌, subst, inl, inr, Bytes, codes, equal, is_empty, take, length, if◌then◌else◌,
  arith, Option, Option-cases, Bool-cases, Outcome, done, thrown, pending, flatten_with,
}
use net_files.Core.Fs.Canonical.{IsReal, resolve_names-render}
use net_files.Core.Fs.Copy.{copy_file}
use net_files.Core.Fs.Copy.AtFile.{copy_file-IsReal, write_whole-IsReal, set_node-IsReal}
use net_files.Core.Fs.Disk.{Components, Node, file, Disk, same_path, node_at, render, join_path}
use net_files.Core.Fs.Ops.{raise, set_node}
use net_files.Core.Fs.Walk.{exists, resolve_names, status, is_directory, is_dir_node}
use net_files.Webdav.Handler.{
  plain, not_found, resource_at, at_path, at_request, resolve_path, resolve_destination,
}
use net_files.Webdav.Handler.Files.{
  content_head, get_resource, process_get, put_typed, put_resource, put_new, put_path, process_put,
  answer_moved, transfer_resource, transfer, process_transfer, process_copy, mkcol_path,
  process_mkcol, process_head, process_delete,
}
use net_files.Ftp.PathResolver.{resolve-missing}
use net_files.Webdav.Handler.Paths.{resolve_path-resolve, create-IsNew}
use net_files.Webdav.Handler.Propfind.{
  process_propfind, propfind_path, process_lock, process_unlock,
}
use net_files.Webdav.Handler.Serve.{dispatch, go_on, answer}
use net_files.Webdav.Http.Headers.{HttpRequest}
use net_files.Webdav.Http.Request.{value}
use net_files.Webdav.Http.Types.{
  HttpMethod, get, head, put, delete, mkcol, propfind, proppatch, copy, move, lock, unlock, options,
  HttpVersion, http10, http11, unknown,
}
use net_files.Webdav.Http.Url.{decode_url}
use net_files.Webdav.Http.Response.{HttpResponse, generate_response}
use net_files.Webdav.Handler.Serve.{dispatch}
use net_files.Webdav.Http.Request.{value, parse_request}
use net_files.Webdav.Http.Request.Complete.{parse_request-Complete}
use net_files.Webdav.Http.Types.{put}
use net_files.Webdav.Resource
use net_files.Webdav.Resource.{
  DavResource, ResourceType, create, changed, get_content, copy_to, put_done, put_result, put_file,
  put_loop, without_token,
}
use net_files.Webdav.Resource.Streams.{put_loop_ends, get_content_whole}
use net_files.Webdav.World.{DavHost, DavWorld, M, after, pure, write_all, write_to}

-- The resource of a file.
abbrev pub file_resource : Bytes → DavResource
file_resource path = record { type = ResourceType.file; path = path; active_locks = [] }

and_true : (b : Bool) → (b && true) ≡ b
and_true true = refl
and_true false = refl

render_full : (p : Components) → is_empty (render p) ≡ false
unfolding render flatten_with
render_full [] = refl
render_full (c ∷ p) = refl

exists-render : {d : Disk} (p : Components) → IsReal d p → exists d (render p) ≡ true
unfolding exists
exists-render p r = rw (resolve_names-render p r, exists) refl

is_directory-render :
    {d : Disk} (p : Components) (content : Bytes)
    → IsReal d p
    → node_at d p ≡ some (file content)
    → is_directory d (render p) ≡ false
unfolding is_directory status
is_directory-render p content r h =
    rw (resolve_names-render p r, is_directory, status) (rw (h, is_dir_node) refl)

create-render :
    {d : Disk} (p : Components) (content : Bytes)
    → IsReal d p
    → node_at d p ≡ some (file content)
    → create d (render p) ≡ some (file_resource (render p))
unfolding create
create-render p content r h = rw (exists-render p r) (rw (is_directory-render p content r h) refl)

pub at_path-render :
    (p : Components) (content : Bytes) (k : DavResource → M HttpResponse) (w : DavWorld)
    → IsReal w.disk p
    → node_at w.disk p ≡ some (file content)
    → at_path (render p) k w ≡ k (file_resource (render p)) w
unfolding at_path resource_at
at_path-render p content k w r h =
    rw (render_full p, at_path, resource_at) (rw (create-render p content r h))

-- COPY of one file onto another one, where both paths resolve: the second has the content of the
-- first in the end, whatever the header `Overwrite` says, and nothing else changes; with the value
-- `F` the answer is 412 nevertheless.
pub process_copy_overwrites :
    (q : HttpRequest) (w : DavWorld) (s t : Components) (content old : Bytes)
    → resolve_path w.disk w.root q.path ≡ done (render s)
    → resolve_destination w.disk w.root q.destination ≡ done (render t)
    → IsReal w.disk s
    → IsReal w.disk t
    → node_at w.disk s ≡ some (file content)
    → node_at w.disk t ≡ some (file old)
    → same_path s t ≡ false
    → process_copy q w ≡ (
      done (
          if equal q.overwrite (codes "F")
          then plain 412 (codes "Precondition Failed")
          else plain 201 (codes "Created")),
      record w { disk = set_node t (file content) w.disk },
    )
unfolding process_copy process_transfer transfer transfer_resource answer_moved after copy_to
    changed raise
process_copy_overwrites q w s t content old at_s at_t rs rt ns nt apart =
    let there = exists-render t (set_node-IsReal t old content rt nt) in
    rw (at_s, process_copy)
      (rw at_t (
        rw (render_full s, render_full t)
          (rw
            (
              at_path-render s content (transfer_resource copy_to q (render t)) w rs ns,
              process_copy,
            )
            (rw (copy_file-IsReal s t content old rs rt ns nt apart)
              (rw there (rw (and_true (equal q.overwrite (codes "F"))) refl))))))

-- PUT to a path that resolves to a file, with at least as much body as the length that the request
-- gives: the answer is 201, the file holds exactly that much of the body and nothing of what it
-- held before, and nothing else changes.
pub process_put_stored :
    (q : HttpRequest) (w : DavWorld) (t : Components) (old : Bytes)
    → resolve_path w.disk w.root q.path ≡ done (render t)
    → IsReal w.disk t
    → node_at w.disk t ≡ some (file old)
    → q.content_length ≤ length q.body
    → process_put q w ≡ (
      done (plain 201 (codes "Created")),
      record w { disk = set_node t (file (take q.content_length q.body)) w.disk },
    )
unfolding process_put put_path put_new put_resource put_typed Resource.put put_file put_result
    put_done after
process_put_stored q w t old at_t rt nt enough =
    rw (at_t, process_put)
      (rw (render_full t, put_path)
        (rw (create-render t old rt nt, put_new)
          (rw (put_loop_ends (suc q.content_length) q.content_length q.body [] (omega arith) enough)
            (rw (write_whole-IsReal t old (take q.content_length q.body) rt nt) refl))))

-- A PUT that was read from the socket, whose path resolves to a file: the method ends, its answer is
-- 201, the file holds as much of the request's body as its length says and nothing of what it held
-- before, and nothing else changes.
pub dispatch-put :
    (h : DavHost) (w v : DavWorld) (q : HttpRequest) (t : Components) (old : Bytes)
    → parse_request h w ≡ (done (value q), v)
    → q.method ≡ put
    → resolve_path v.disk v.root q.path ≡ done (render t)
    → IsReal v.disk t
    → node_at v.disk t ≡ some (file old)
    → dispatch h q.method q v ≡ (
      done (plain 201 (codes "Created")),
      record v { disk = set_node t (file (take q.content_length q.body)) v.disk },
    )
unfolding dispatch
dispatch-put h w v q t old read is_put at_t rt nt =
    ap (λ m. dispatch h m q v) is_put
    ∙ process_put_stored q v t old at_t rt nt (parse_request-Complete h w read)
