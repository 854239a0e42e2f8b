-- ===== src/Webdav/Handler/Paths.antt =====
-- What the path of a request resolves to (netfiles/src/webdav/dav_handler.cpp).
use net_files.Base.{
  ℕ, not, [], ◌∷◌, none, some, ◌≡◌, ◌≢◌, refl, ap, ◌⊎◌, inl, inr, Bytes, if◌then◌else◌, arith,
  Bool-cases, Option, Option-cases, Outcome, done, thrown, pending,
}
use net_files.Core.Fs.Canonical.{IsDirectoryAt}
use net_files.Core.Fs.Disk.{Disk, join_path}
use net_files.Core.Fs.Walk.{canonical, exists, is_directory}
use net_files.Ftp.PathResolver.{resolve, under_root, IsInside, resolve-IsInside}
use net_files.Webdav.Handler.{
  within_root, resolve_under, resolve_decoded, resolve_path, at_path, at_request, resource_at,
}
use net_files.Webdav.Http.Headers.{HttpRequest}
use net_files.Webdav.Http.Response.{HttpResponse}
use net_files.Webdav.Http.Url.{decode_url}
use net_files.Webdav.Resource.{DavResource, ResourceType, create}
use net_files.Webdav.World.{DavWorld, M, after}

within_root-under_root :
    (target : Bytes) (o : Option Bytes)
    → within_root target o
      ≡ elim o as (λ _. Bytes) [ none ↦ [] | some base ↦ under_root base target ]
unfolding within_root under_root
within_root-under_root target none = refl
within_root-under_root target (some base) = refl

-- Both servers decide alike which paths lie below the root: a WebDAV path that decodes to a text
-- that is not empty is resolved as an FTP session in its root directory resolves that text without
-- its first character.
pub resolve_path-resolve :
    (d : Disk) (root path : Bytes) (c : ℕ) (rest : Bytes)
    → decode_url path ≡ c ∷ rest
    → resolve_path d root path ≡ done (resolve d root root rest)
unfolding resolve_path resolve_decoded resolve_under resolve
resolve_path-resolve d root path c rest e =
    rw e (ap done (by_target (canonical d (join_path root rest))))
  where
    by_target :
        (o : Option Bytes)
        → elim o as (λ _. Bytes) [ none ↦ [] | some target ↦ within_root target (canonical d root) ]
          ≡ elim o as (λ _. Bytes) [
            | none ↦ []
            | some target ↦ elim (canonical d root) as (λ _. Bytes) [
              | none ↦ []
              | some base ↦ under_root base target
            ]
          ]
    by_target none = refl
    by_target (some target) = within_root-under_root target (canonical d root)

-- What a request's path comes to: nothing, or a real node with the root's prefix.
abbrev pub Resolved : DavWorld → Bytes → Type 0
Resolved w p = (p ≡ []) ⊎ IsInside w.disk w.root p

nil_cases : (s : Bytes) → (s ≡ []) ⊎ (s ≢ [])
nil_cases [] = inl refl
nil_cases (c ∷ s) = inr (λ e. cc)

resolve-Resolved :
    (w : DavWorld) (rest : Bytes)
    → IsDirectoryAt w.disk w.disk.working
    → Resolved w (resolve w.disk w.root w.root rest)
resolve-Resolved w rest h = elim (nil_cases (resolve w.disk w.root w.root rest)) [
  | inl e ↦ inl e
  | inr n ↦ inr (resolve-IsInside w.disk w.root w.root rest h n)
]

-- A method that goes on with the path that the request's path resolves to.
pub resolved-Holds :
    {A : Type 0} (P : DavWorld → Type 0) (path : Bytes) (k : Bytes → M A) (w : DavWorld)
    → IsDirectoryAt w.disk w.disk.working
    → P w
    → ((p : Bytes) → resolve_path w.disk w.root path ≡ done p → Resolved w p → P (k p w).1)
    → P (after (resolve_path w.disk w.root path, w) k).1
unfolding after
resolved-Holds P path k w h stop go = by_text (decode_url path) refl
  where
    by_text : (s : Bytes) → decode_url path ≡ s → P (after (resolve_path w.disk w.root path, w) k).1
    by_text [] e = unfold resolve_path resolve_decoded in rw e stop
    by_text (c ∷ rest) e =
        let found = resolve_path-resolve w.disk w.root path c rest e in
        rw found (go _ found (resolve-Resolved w rest h))

-- A new resource: its path is the one asked for, and it has no locks.
pub record IsNew (d : Disk) (path : Bytes) (r : DavResource) : Type 0 where
  pub path_is : r.path ≡ path
  pub no_locks : r.active_locks ≡ []
  pub type_is :
      r.type ≡ (if is_directory d path then ResourceType.collection else ResourceType.file)

pub create-IsNew :
    (d : Disk) (path : Bytes) (r : DavResource) → create d path ≡ some r → IsNew d path r
unfolding create
create-IsNew d path r e = elim (Bool-cases (not (exists d path))) [
  | inl gone ↦ let bad : none ≡ some r = rw gone at e in absurd (cc)
  | inr there ↦
      let same = rw there at e in
      record {
        path_is = ground (arith, same);
        no_locks = ground (arith, same);
        type_is = ground (arith, same);
      }
]

pub at_path-Holds :
    (P : DavWorld → Type 0) (p : Bytes) (k : DavResource → M HttpResponse) (w : DavWorld)
    → Resolved w p
    → P w
    → ((r : DavResource) → IsInside w.disk w.root p → IsNew w.disk p r → P (k r w).1)
    → P (at_path p k w).1
unfolding at_path resource_at
at_path-Holds P [] k w h stop go = stop
at_path-Holds P (c ∷ p) k w (inl e) stop go = absurd (cc)
at_path-Holds P (c ∷ p) k w (inr i) stop go = elim (Option-cases (create w.disk (c ∷ p))) [
  | inl e ↦ rw (e, at_path) stop
  | inr (r, e) ↦ rw (e, at_path) (go r i (create-IsNew w.disk (c ∷ p) r e))
]

pub at_request-Holds :
    (P : DavWorld → Type 0) (q : HttpRequest) (k : DavResource → M HttpResponse) (w : DavWorld)
    → IsDirectoryAt w.disk w.disk.working
    → P w
    → ((r : DavResource) (p : Bytes) → IsInside w.disk w.root p → IsNew w.disk p r → P (k r w).1)
    → P (at_request q k w).1
unfolding at_request
at_request-Holds P q k w h stop go =
    resolved-Holds P q.path (λ p. at_path p k) w h stop
      (λ p e r. at_path-Holds P p k w r stop (λ x. go x p))

-- The same, whatever the path resolves to.
pub resolved-any :
    {A : Type 0} (P : DavWorld → Type 0) (o : Outcome Bytes) (k : Bytes → M A) (w : DavWorld)
    → P w
    → ((p : Bytes) → P (k p w).1)
    → P (after (o, w) k).1
unfolding after
resolved-any P (done p) k w stop go = go p
resolved-any P (thrown m) k w stop go = stop
resolved-any P pending k w stop go = stop

pub at_path-any :
    (P : DavWorld → Type 0) (p : Bytes) (k : DavResource → M HttpResponse) (w : DavWorld)
    → P w
    → ((r : DavResource) → P (k r w).1)
    → P (at_path p k w).1
unfolding at_path
at_path-any P p k w stop go = elim (Option-cases (resource_at w p)) [
  | inl e ↦ rw (e, at_path) stop
  | inr (r, e) ↦ rw (e, at_path) (go r)
]

pub at_request-any :
    (P : DavWorld → Type 0) (q : HttpRequest) (k : DavResource → M HttpResponse) (w : DavWorld)
    → P w
    → ((r : DavResource) → P (k r w).1)
    → P (at_request q k w).1
unfolding at_request
at_request-any P q k w stop go =
    resolved-any P (resolve_path w.disk w.root q.path) (λ p. at_path p k) w stop
      (λ p. at_path-any P p k w stop go)
