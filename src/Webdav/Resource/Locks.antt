-- ===== src/Webdav/Resource/Locks.antt =====
-- The locks of one resource (`lock` and `unlock` of netfiles/src/webdav/dav_resource.cpp).
use net_files.Base.{
  suc, ◌+◌, Bool, true, List, [], ◌∷◌, ◌++◌, none, some, ◌≡◌, refl, Bytes, codes, equal_iff, done,
  arith,
}
use net_files.Webdav.Resource.{
  DavLock, DavResource, hex_digits, lifetime, lock, without_token, unlock,
}
use net_files.Webdav.Http.Filename.{encode_filename}
use net_files.Webdav.World.{DavHost, DavWorld, after, now}

without_token-snoc :
    (t : Bytes) (ls : List DavLock) (l : DavLock)
    → without_token t ls ≡ none
    → l.token ≡ t
    → without_token t (ls ++ l ∷ []) ≡ some ls
unfolding without_token
without_token-snoc t [] l h e = ground (arith, equal_iff l.token t)
without_token-snoc t (k ∷ ls) l h e = ground (arith, without_token-snoc t ls l, e)

-- The token of a lock that is taken now.
abbrev pub token_now : DavHost → DavWorld → Bytes
token_now h w = codes "urn:uuid:" ++ hex_digits (suc (h.clock w.ticks)) (h.clock w.ticks) []

-- A lock can be taken whatever locks there are, exclusive ones included. Where its token is new,
-- unlocking with the token gives the resource back as it was.
pub unlock-lock :
    (h : DavHost) (owner : Bytes) (exclusive : Bool) (r : DavResource) (w : DavWorld)
    → without_token (token_now h w) r.active_locks ≡ none
    → (l : DavLock) × (q : DavResource) × (v : DavWorld) × (lock h owner exclusive r w
        ≡ (done (l, q), v))
      × (l.exclusive ≡ exclusive)
      × (unlock l.token q ≡ (true, r))
unfolding lock unlock after now
unlock-lock h owner exclusive r w new =
    let l : DavLock = record {
      token = token_now h w;
      owner = owner;
      expires = h.clock (suc w.ticks) + lifetime;
      exclusive = exclusive;
      path = encode_filename h.gb18030_to_utf8 r.path;
    } in
    let snoc = without_token-snoc (token_now h w) r.active_locks l new refl in
    (
      l,
      record r { active_locks = r.active_locks ++ l ∷ [] },
      record w { ticks = suc (suc w.ticks) },
      refl,
      refl,
      rw (snoc, unlock),
    )
