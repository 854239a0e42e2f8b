-- ===== src/Core/Fs/Canonical.antt =====
-- A canonical path resolves to itself: what `canonical` returned is read back without a detour.
use net_files.Base.{
  ℕ, zero, suc, true, [], ◌∷◌, ◌++◌, Option, none, some, ◌≡◌, ◌≢◌, refl, sym, ap, ◌∙◌, subst, Bytes,
  equal, is_empty, drop_last, drop_last-snoc, All, All-append, Lacks, arith, append_assoc,
  append-nil, flatten_with, starts_with, ◌==◌, Bool-cases, Option-cases, inl, inr,
}
use net_files.Core.Fs.Disk.{
  Components, Node, file, directory, link, Disk, node_at, components, names_from, is_absolute,
  render,
}
use net_files.Core.Fs.Walk.{
  into, move_of, start_of, link_base, walk_names, enter, Move-cases, walk_names-stay, walk_names-up,
  walk_names-into, walk, max_links, resolve_names, canonical,
}
use net_files.Core.Fs.Ops.{locate_from, locate, last_name}

-- No name of a path that was split holds a slash.
names_from-Lacks : (s name : Bytes) → Lacks b'/' name → All (Lacks b'/') (names_from name s)
unfolding names_from
names_from-Lacks [] name h = (h, tt)
names_from-Lacks (c ∷ s) name h = elim (Bool-cases (c == b'/')) [
  | inl e ↦ rw e (h, names_from-Lacks s [] tt)
  | inr e ↦ rw e (
      names_from-Lacks s (name ++ c ∷ [])
        (All-append (λ b. b ≢ b'/') name (c ∷ []) h (ground arith, tt)))
]

pub components-Lacks : (s : Bytes) → All (Lacks b'/') (components s)
unfolding components
components-Lacks s = names_from-Lacks s [] tt

names_from-append :
    (c s name : Bytes) → Lacks b'/' c → names_from name (c ++ s) ≡ names_from (name ++ c) s
unfolding names_from
names_from-append [] s name h = rw append-nil
names_from-append (x ∷ c) s name (hx, h) =
    ground (arith, names_from-append c s (name ++ x ∷ []) h, append_assoc name (x ∷ []) c)

names_from-flatten_with :
    (q : Components) (name : Bytes)
    → All (Lacks b'/') q
    → names_from name (flatten_with b'/' q) ≡ name ∷ q
unfolding flatten_with names_from
names_from-flatten_with [] name h = refl
names_from-flatten_with (c ∷ q) name (hc, h) =
    ap (◌∷◌ name) (names_from-append c (flatten_with b'/' q) [] hc ∙ names_from-flatten_with q c h)

-- The names of a canonical path's text, behind the empty name in front of the first slash.
pub components-render :
    (c : Bytes) (q : Components)
    → All (Lacks b'/') (c ∷ q)
    → components (render (c ∷ q)) ≡ [] ∷ c ∷ q
unfolding components render
components-render c q h = names_from-flatten_with (c ∷ q) [] h

-- `p` is reached from the root through directories, by names that go down.
pub data Reached (d : Disk) : Components → Type 0 where
  top : Reached d []
  down :
      {p q : Components} (c : Bytes)
      → Reached d p
      → node_at d p ≡ some directory
      → move_of c ≡ into
      → Lacks b'/' c
      → q ≡ p ++ c ∷ []
      → Reached d q

-- What stands at the end of a resolution: a file or a directory, never a link.
abbrev pub IsSettled : Option Node → Type 0
IsSettled none = ⊥
IsSettled (some (link t)) = ⊥
IsSettled (some (file b)) = Unit
IsSettled (some directory) = Unit

abbrev pub IsReal : Disk → Components → Type 0
IsReal d q = Reached d q × IsSettled (node_at d q)

abbrev pub IsDirectoryAt : Disk → Components → Type 0
IsDirectoryAt d p = Reached d p × (node_at d p ≡ some directory)

pub node_at-top : (d : Disk) → node_at d [] ≡ some directory
unfolding node_at
node_at-top d = refl

pub top-IsDirectoryAt : (d : Disk) → IsDirectoryAt d []
top-IsDirectoryAt d = (top, node_at-top d)

pub Reached-Lacks : {d : Disk} {q : Components} → Reached d q → All (Lacks b'/') q
Reached-Lacks top = tt
Reached-Lacks (down {p} c r n m l e) =
    rw e (All-append (Lacks b'/') p (c ∷ []) (Reached-Lacks r) (l, tt))

parent-IsDirectoryAt : {d : Disk} {q : Components} → Reached d q → IsDirectoryAt d (drop_last q)
parent-IsDirectoryAt {d} top = top-IsDirectoryAt d
parent-IsDirectoryAt (down {p} c r n m l e) = rw (e, drop_last-snoc p c) (r, n)

-- A `follow` that lands on real nodes.
abbrev Lands : Disk → (Components → Components → Option Components) → Type 0
Lands d follow =
    (base todo q : Components)
    → IsDirectoryAt d base
    → All (Lacks b'/') todo
    → follow base todo ≡ some q
    → IsReal d q

dir-IsReal : {d : Disk} {p : Components} → IsDirectoryAt d p → IsReal d p
dir-IsReal (r, n) = (r, rw n tt)

link_base-IsDirectoryAt :
    (d : Disk) (base : Components) (t : Bytes)
    → IsDirectoryAt d base
    → IsDirectoryAt d (link_base base t)
link_base-IsDirectoryAt d base t h = elim (Bool-cases (is_absolute t)) [
  | inl e ↦ rw e (top-IsDirectoryAt d)
  | inr e ↦ rw e h
]

-- Going into an entry lands on a real node, if walking on from a directory does.
enter-IsReal :
    (d : Disk) (base : Components) (c : Bytes) (r q : Components)
    (follow : Components → Components → Option Components)
    → Lands d follow
    → IsDirectoryAt d base
    → move_of c ≡ into
    → All (Lacks b'/') (c ∷ r)
    → (IsDirectoryAt d (base ++ c ∷ [])
        → walk_names d follow (base ++ c ∷ []) r ≡ some q
        → IsReal d q)
    → (n : Option Node) → node_at d (base ++ c ∷ []) ≡ n
    → enter
        (base ++ c ∷ [])
        (is_empty r)
        (walk_names d follow (base ++ c ∷ []) r)
        (λ t. follow (link_base base t) (components t ++ r))
        n
      ≡ some q
    → IsReal d q
unfolding enter
enter-IsReal d base c r q follow lands h m (lc, l) on none en e = cc
enter-IsReal d base c r q follow lands h m (lc, l) on (some (file b)) en e =
    subst (IsReal d) (ground arith) (down c h.0 h.1 m lc refl, rw en tt)
enter-IsReal d base c r q follow lands h m (lc, l) on (some directory) en e =
    on (down c h.0 h.1 m lc refl, en) e
enter-IsReal d base c r q follow lands h m (lc, l) on (some (link t)) en e =
    lands (link_base base t) (components t ++ r) q (link_base-IsDirectoryAt d base t h)
      (All-append (Lacks b'/') (components t) r (components-Lacks t) l) e

walk_names-IsReal :
    (d : Disk) (follow : Components → Components → Option Components)
    → Lands d follow
    → Lands d (walk_names d follow)
walk_names-IsReal d follow lands base [] q h l e =
    subst (IsReal d) {x = base} {y = q} (unfold walk_names in ground arith) (dir-IsReal h)
walk_names-IsReal d follow lands base (c ∷ r) q h (lc, l) e = elim (Move-cases (move_of c)) [
  | inl m ↦
      walk_names-IsReal d follow lands base r q h l (sym (walk_names-stay d follow base c r m) ∙ e)
  | inr (inl m) ↦
      walk_names-IsReal d follow lands (drop_last base) r q (parent-IsDirectoryAt h.0) l
        (sym (walk_names-up d follow base c r m) ∙ e)
  | inr (inr m) ↦
      enter-IsReal d base c r q follow lands h m (lc, l)
        (λ h' e'. walk_names-IsReal d follow lands (base ++ c ∷ []) r q h' l e')
        (node_at d (base ++ c ∷ [])) refl (sym (walk_names-into d follow base c r m) ∙ e)
]

walk-IsReal : (f : ℕ) (d : Disk) → Lands d (walk f d)
unfolding walk
walk-IsReal zero d = walk_names-IsReal d (λ _ _. none) (λ b t q h l e. cc)
walk-IsReal (suc f) d = walk_names-IsReal d (walk f d) (walk-IsReal f d)

start_of-IsDirectoryAt :
    (d : Disk) (s : Bytes) → IsDirectoryAt d d.working → IsDirectoryAt d (start_of d s)
unfolding start_of
start_of-IsDirectoryAt d s h = elim (Bool-cases (is_absolute s)) [
  | inl e ↦ rw e (top-IsDirectoryAt d)
  | inr e ↦ rw e h
]

-- Whatever a path resolves to is a real node.
pub resolve_names-IsReal :
    (d : Disk) (s : Bytes) (q : Components)
    → IsDirectoryAt d d.working
    → resolve_names d s ≡ some q
    → IsReal d q
unfolding resolve_names
resolve_names-IsReal d [] q h e = cc
resolve_names-IsReal d (c ∷ s) q h e =
    walk-IsReal max_links d (start_of d (c ∷ s)) (components (c ∷ s)) q
      (start_of-IsDirectoryAt d (c ∷ s) h) (components-Lacks (c ∷ s)) e

-- The walk comes through a reached directory as it came there first.
walk_names-Reached :
    {d : Disk} {p : Components} (follow : Components → Components → Option Components)
    (r : Components)
    → Reached d p
    → node_at d p ≡ some directory
    → walk_names d follow [] (p ++ r) ≡ walk_names d follow p r
walk_names-Reached follow r top n = refl
walk_names-Reached {d} {p} follow r (down {p = b} c h nb m l e) n =
    rw (e, append_assoc)
      (walk_names-Reached follow (c ∷ r) h nb
        ∙ walk_names-into d follow b c r m
        ∙ rw (← e, n) (unfold enter in refl))

-- A real node's own names lead to it.
walk_names-IsSettled :
    {d : Disk} (follow : Components → Components → Option Components) {q : Components}
    → IsReal d q
    → walk_names d follow [] q ≡ some q
walk_names-IsSettled {d} follow {q} (top, s) = unfold walk_names in refl
walk_names-IsSettled {d} follow {q} (down {p = b} c h nb m l e, s) =
    subst (λ x. walk_names d follow [] x ≡ some q) (sym e)
      (walk_names-Reached follow (c ∷ []) h nb
        ∙ walk_names-into d follow b c [] m
        ∙ (rw (← e) (settled (node_at d q) s)))
  where
    settled :
        (n : Option Node)
        → IsSettled n
        → enter q true
            (walk_names d follow q [])
            (λ t. follow (link_base b t) (components t ++ []))
            n
          ≡ some q
    settled none s' = absurd s'
    settled (some (file t)) s' = unfold enter in refl
    settled (some directory) s' = unfold enter walk_names in refl
    settled (some (link t)) s' = absurd s'

walk-IsReal_self : (f : ℕ) {d : Disk} {q : Components} → IsReal d q → walk f d [] q ≡ some q
unfolding walk
walk-IsReal_self zero {d} h = walk_names-IsSettled (λ _ _. none) h
walk-IsReal_self (suc f) {d} h = walk_names-IsSettled (walk f d) h

-- The empty name in front of the first slash goes nowhere.
walk-nil_name : (f : ℕ) (d : Disk) (q : Components) → walk f d [] ([] ∷ q) ≡ walk f d [] q
unfolding walk
walk-nil_name zero d q = walk_names-stay d (λ _ _. none) [] [] q (unfold move_of equal in refl)
walk-nil_name (suc f) d q = walk_names-stay d (walk f d) [] [] q (unfold move_of equal in refl)

-- Resolving the text of a real node gives the node.
pub resolve_names-render :
    {d : Disk} (q : Components) → IsReal d q → resolve_names d (render q) ≡ some q
unfolding resolve_names render components is_absolute starts_with flatten_with walk
resolve_names-render {d} [] h =
    walk-nil_name max_links d ([] ∷ [])
    ∙ walk-nil_name max_links d []
    ∙ walk-IsReal_self max_links h
resolve_names-render {d} (c ∷ q) h =
    rw (components-render c q (Reached-Lacks h.0))
      (walk-nil_name max_links d (c ∷ q) ∙ walk-IsReal_self max_links h)

last_name-snoc : (p : Components) (c : Bytes) → last_name (p ++ c ∷ []) ≡ c
unfolding last_name
last_name-snoc [] c = refl
last_name-snoc (x ∷ []) c = refl
last_name-snoc (x ∷ y ∷ p) c = last_name-snoc (y ∷ p) c

pub start_of-render : (d : Disk) (q : Components) → start_of d (render q) ≡ []
unfolding start_of render is_absolute starts_with flatten_with
start_of-render d [] = refl
start_of-render d (c ∷ q) = refl

components-render_snoc :
    (p : Components) (c : Bytes)
    → All (Lacks b'/') (p ++ c ∷ [])
    → components (render (p ++ c ∷ [])) ≡ [] ∷ (p ++ c ∷ [])
components-render_snoc [] c h = components-render c [] h
components-render_snoc (x ∷ p) c h = components-render x (p ++ c ∷ []) h

drop_last-nil_snoc : (p : Components) (c : Bytes) → drop_last ([] ∷ (p ++ c ∷ [])) ≡ [] ∷ p
drop_last-nil_snoc p c = drop_last-snoc ([] ∷ p) c

last_name-nil_snoc : (p : Components) (c : Bytes) → last_name ([] ∷ (p ++ c ∷ [])) ≡ c
last_name-nil_snoc p c = last_name-snoc ([] ∷ p) c

locate_from-snoc :
    (d : Disk) (p : Components) (c : Bytes) (whole : Option Components)
    → IsDirectoryAt d p
    → move_of c ≡ into
    → locate_from d [] ([] ∷ (p ++ c ∷ [])) whole ≡ some (p ++ c ∷ [])
unfolding locate_from
locate_from-snoc d p c whole h m =
    rw (last_name-nil_snoc p c, m, locate_from)
      (rw (drop_last-nil_snoc p c) (
        rw (walk-nil_name max_links d p ∙ walk-IsReal_self max_links (dir-IsReal h))
          (rw (h.1, last_name-nil_snoc p c))))

-- The names of a real node's text, taken without following the last one, stand for the node too.
pub locate-render : {d : Disk} (q : Components) → IsReal d q → locate d (render q) ≡ some q
unfolding locate
locate-render {d} q (top, s) =
    unfold locate_from components names_from render last_name move_of equal in
    resolve_names-render [] (top, s)
locate-render {d} q (down {p} c h n m l e, s) =
    subst (λ x. locate d (render x) ≡ some x) (sym e)
      (rw
        (
          start_of-render d (p ++ c ∷ []),
          components-render_snoc p c (Reached-Lacks (down c h n m l refl)),
        )
        (locate_from-snoc d p c _ (h, n) m))

pub canonical-eq_some :
    (d : Disk) (s t : Bytes)
    → canonical d s ≡ some t
    → (q : Components) × (resolve_names d s ≡ some q) × (t ≡ render q)
unfolding canonical
canonical-eq_some d s t e = elim (Option-cases (resolve_names d s)) [
  | inl no_path ↦ absurd (ground arith)
  | inr (q, at_q) ↦ (q, at_q, ground arith)
]

pub canonical-render :
    {d : Disk} (q : Components) → IsReal d q → canonical d (render q) ≡ some (render q)
unfolding canonical
canonical-render q h = rw (resolve_names-render q h, canonical)

-- What `canonical` returns is canonical: resolving it again, with the tree unchanged, gives it back.
-- The process's working directory has to be a directory of the tree.
pub canonical-canonical :
    (d : Disk) (s t : Bytes)
    → IsDirectoryAt d d.working
    → canonical d s ≡ some t
    → canonical d t ≡ some t
canonical-canonical d s t h e =
    let (q, at_q, shown) = canonical-eq_some d s t e in
    subst (λ x. canonical d x ≡ some x) (sym shown)
      (canonical-render q (resolve_names-IsReal d s q h at_q))
