-- ===== src/Ftp/PathResolver.antt =====
-- `PathResolver` of netfiles/src/ftp/ftp_command_processor.cpp: the check that keeps a session
-- below its root, and the path that PWD prints.
use net_files.Base.{
  false, [], ◌∷◌, ◌++◌, none, some, ◌≡◌, ◌≢◌, refl, Bytes, codes, equal, starts_with,
  starts_with_iff, IsPrefixOf, is_empty, if◌then◌else◌, arith, Bool-cases, inl, inr, Option-cases,
  Outcome, done, thrown, ◌∙◌, sym, subst, flatten_with, equal_iff, equal_refl, append-IsPrefixOf,
  append_assoc, append-nil,
}
use net_files.Core.Fs.Disk.{Components, Disk, join_path, render, is_under}
use net_files.Core.Fs.Walk.{canonical, resolve_names}
use net_files.Core.Fs.Ops.{message, not_found}
use net_files.Core.Fs.Canonical.{canonical-eq_some, IsReal, IsDirectoryAt, resolve_names-IsReal}

-- The check on two canonical paths; the empty text refuses.
unfoldable pub under_root : Bytes → Bytes → Bytes
under_root root path = if starts_with path root then path else []

-- The text of the resolved path, or the empty one.
unfoldable pub resolve : Disk → Bytes → Bytes → Bytes → Bytes
unfolding under_root
resolve d current root path = elim (canonical d (join_path current path)) [
  | none ↦ []
  | some target ↦ elim (canonical d root) [ none ↦ [] | some base ↦ under_root base target ]
]

-- The two loops of `get_relative_path`: leave out what is common, go up for each name of the root
-- that is left, then down the rest of the path.
ups : Components → Bytes → Bytes
ups [] out = out
ups (c ∷ r) out = ups r (join_path out (codes ".."))

downs : Components → Bytes → Bytes
downs [] out = out
downs (c ∷ r) out = downs r (join_path out c)

relative_names : Components → Components → Bytes
relative_names [] root = ups root []
relative_names (x ∷ a) [] = downs (x ∷ a) []
relative_names (x ∷ a) (y ∷ b) =
    let both = relative_names a b in
    let apart = downs (x ∷ a) (ups (y ∷ b) []) in if equal x y then both else apart

-- Iterating over a canonical path gives the root slash and then the names; the slash is common.
unfoldable pub get_relative_path : Disk → Bytes → Bytes → Outcome Bytes
unfolding relative_names ups downs
get_relative_path d absolute base = elim (resolve_names d base) [
  | none ↦ thrown (message not_found)
  | some root ↦ elim (resolve_names d absolute) [
    | none ↦ thrown (message not_found)
    | some path ↦
        let result = relative_names path root in
        if is_empty result then done (b'/' ∷ []) else done result
  ]
]

append_ne_self : (c x : Bytes) → x ≢ [] → c ≢ c ++ x
append_ne_self [] x h e = h (sym e)
append_ne_self (y ∷ c) x h e = append_ne_self c x h (ground arith)

-- What a path that was not refused is: the text of a real node, with the text of the canonical root
-- as a prefix.
pub record IsInside (d : Disk) (root p : Bytes) : Type 0 where
  pub names : Components
  pub base : Bytes
  pub shown : p ≡ render names
  pub real : IsReal d names
  pub base_is : canonical d root ≡ some base
  pub prefix : IsPrefixOf base p

resolve-IsInside_names :
    (d : Disk) (current root path base target : Bytes)
    → IsDirectoryAt d d.working
    → canonical d (join_path current path) ≡ some target
    → canonical d root ≡ some base
    → under_root base target ≢ []
    → IsInside d root (under_root base target)
unfolding under_root
resolve-IsInside_names d current root path base target h e b n =
    elim (Bool-cases (starts_with target base)) [
      | inl s ↦
          let (q, at_q, shown) = canonical-eq_some d _ target e in
          rw s (record {
            names = q;
            base = base;
            shown = shown;
            real = resolve_names-IsReal d _ q h at_q;
            base_is = b;
            prefix = (starts_with_iff target base).0 s;
          })
      | inr s ↦ absurd (n (rw s))
    ]

resolve-under_root :
    (d : Disk) (current root path : Bytes) {base target : Bytes}
    → canonical d (join_path current path) ≡ some target
    → canonical d root ≡ some base
    → resolve d current root path ≡ under_root base target
unfolding resolve
resolve-under_root d current root path e b = rw (e, resolve) (rw b)

resolve-no_target :
    (d : Disk) (current root path : Bytes)
    → canonical d (join_path current path) ≡ none
    → resolve d current root path ≡ []
unfolding resolve
resolve-no_target d current root path e = rw (e, resolve)

resolve-no_root :
    (d : Disk) (current root path : Bytes) {target : Bytes}
    → canonical d (join_path current path) ≡ some target
    → canonical d root ≡ none
    → resolve d current root path ≡ []
unfolding resolve
resolve-no_root d current root path e b = rw (e, resolve) (rw b)

-- Whatever `resolve` lets through is a real node of the tree (a file or a directory, reached through
-- directories only, no link and no dots on the way) whose text begins with the text of the canonical
-- root, provided that the process's working directory is a directory.
pub resolve-IsInside :
    (d : Disk) (current root path : Bytes)
    → IsDirectoryAt d d.working
    → resolve d current root path ≢ []
    → IsInside d root (resolve d current root path)
resolve-IsInside d current root path h n =
    elim (Option-cases (canonical d (join_path current path))) [
      | inl e ↦ absurd (n (resolve-no_target d current root path e))
      | inr (target, e) ↦ elim (Option-cases (canonical d root)) [
        | inl b ↦ absurd (n (resolve-no_root d current root path e b))
        | inr (base, b) ↦
            let same = resolve-under_root d current root path e b in
            subst (IsInside d root) (sym same)
              (resolve-IsInside_names d current root path base target h e b (λ z. n (same ∙ z)))
      ]
    ]

-- A path that does not exist is refused, wherever it would lie.
pub resolve-missing :
    (d : Disk) (current root path : Bytes)
    → resolve_names d (join_path current path) ≡ none
    → resolve d current root path ≡ []
unfolding canonical
resolve-missing d current root path h = resolve-no_target d current root path (rw (h, canonical))

render-snoc : (p : Components) (c : Bytes) → render (p ++ c ∷ []) ≡ flatten_with b'/' (p ++ c ∷ [])
unfolding render
render-snoc [] c = refl
render-snoc (x ∷ p) c = refl

flatten_with-extend :
    (p : Components) (c x : Bytes)
    → flatten_with b'/' (p ++ (c ++ x) ∷ []) ≡ flatten_with b'/' (p ++ c ∷ []) ++ x
unfolding flatten_with
flatten_with-extend [] c x = simp append-nil
flatten_with-extend (y ∷ p) c x = simp (flatten_with-extend p c x, append_assoc)

is_under_extend :
    (p : Components) (c x : Bytes) → x ≢ [] → is_under (p ++ c ∷ []) (p ++ (c ++ x) ∷ []) ≡ false
unfolding is_under
is_under_extend [] c x h = ground (arith, equal_iff c (c ++ x), append_ne_self c x h)
is_under_extend (y ∷ p) c x h = ground (arith, equal_refl y, is_under_extend p c x h)

-- The root check compares texts, not names: a sibling of the root whose name begins with the root's
-- name is let through although it does not lie under the root.
pub resolve_admits_sibling :
    (d : Disk) (current root path : Bytes) (p : Components) (c x : Bytes)
    → canonical d root ≡ some (render (p ++ c ∷ []))
    → canonical d (join_path current path) ≡ some (render (p ++ (c ++ x) ∷ []))
    → x ≢ []
    → (resolve d current root path ≡ render (p ++ (c ++ x) ∷ []))
      × (is_under (p ++ c ∷ []) (p ++ (c ++ x) ∷ []) ≡ false)
unfolding under_root
resolve_admits_sibling d current root path p c x b e h =
    (resolve-under_root d current root path e b ∙ under_root-extend p c x, is_under_extend p c x h)
  where
    under_root-extend :
        (p : Components) (c x : Bytes)
        → under_root (render (p ++ c ∷ [])) (render (p ++ (c ++ x) ∷ []))
          ≡ render (p ++ (c ++ x) ∷ [])
    under_root-extend p c x =
        rw (render-snoc p (c ++ x), render-snoc p c, flatten_with-extend p c x)
          (rw (
            (starts_with_iff _ _).1 (append-IsPrefixOf (flatten_with b'/' (p ++ c ∷ [])) x),
            under_root,
          ))
