-- ===== src/Core/Fs/Walk.antt =====
-- Resolution of a path, links followed: what `canonical`, `status` and `open` do first.
use net_files.Base.{
  ℕ, zero, suc, Bool, true, false, [], ◌∷◌, ◌++◌, Option, none, some, ◌≡◌, refl, Bytes, codes,
  equal, is_empty, if◌then◌else◌, drop_last, ◌⊎◌, inl, inr,
}
use net_files.Core.Fs.Disk.{
  Components, Node, file, directory, link, Disk, node_at, components, is_absolute, render,
}

-- What a name asks for: to stay (`.` and the empty name), to go up, or to go into an entry.
pub data Move : Type 0 where
  stay up into : Move

unfoldable pub move_of : Bytes → Move
move_of c =
    if equal c []
    then stay
    else if equal c (codes ".")
    then stay
    else if equal c (codes "..")
    then up
    else into

pub Move-cases : (m : Move) → (m ≡ stay) ⊎ (m ≡ up) ⊎ (m ≡ into)
Move-cases stay = inl refl
Move-cases up = inr (inl refl)
Move-cases into = inr (inr refl)

unfoldable pub start_of : Disk → Bytes → Components
start_of d s = if is_absolute s then [] else d.working

-- The base that a link's target is read from.
abbrev pub link_base : Components → Bytes → Components
link_base base t = if is_absolute t then [] else base

-- Going into the node that a name stands for: `last` says that no name is left, `rest` is the walk
-- on from here, `follow` resolves what is left behind a link.
unfoldable pub enter :
    Components
    → Bool
    → Option Components
    → (Bytes → Option Components)
    → Option Node
    → Option Components
enter here last rest follow none = none
enter here last rest follow (some (file _)) = if last then some here else none
enter here last rest follow (some directory) = rest
enter here last rest follow (some (link t)) = follow t

-- One pass over the names. `follow` resolves what is left when a link is met.
module _ (d : Disk) (follow : Components → Components → Option Components) where
  unfoldable pub walk_names : Components → Components → Option Components
  unfolding enter
  walk_names base [] = some base
  walk_names base (c ∷ r) = elim (move_of c) [
    | stay ↦ walk_names base r
    | up ↦ walk_names (drop_last base) r
    | into ↦
        enter (base ++ c ∷ []) (is_empty r) (walk_names (base ++ c ∷ []) r)
          (λ t. follow (link_base base t) (components t ++ r)) (node_at d (base ++ c ∷ []))
  ]

module _ (d : Disk) (follow : Components → Components → Option Components) (base : Components)
    (c : Bytes) (r : Components) where
  pub walk_names-stay :
      move_of c ≡ stay → walk_names d follow base (c ∷ r) ≡ walk_names d follow base r
  unfolding walk_names
  walk_names-stay m = rw (m, walk_names)

  pub walk_names-up :
      move_of c ≡ up → walk_names d follow base (c ∷ r) ≡ walk_names d follow (drop_last base) r
  unfolding walk_names
  walk_names-up m = rw (m, walk_names)

  pub walk_names-into :
      move_of c ≡ into
      → walk_names d follow base (c ∷ r)
        ≡ enter
            (base ++ c ∷ [])
            (is_empty r)
            (walk_names d follow (base ++ c ∷ []) r)
            (λ t. follow (link_base base t) (components t ++ r))
            (node_at d (base ++ c ∷ []))
  unfolding walk_names
  walk_names-into m = rw (m, walk_names)

-- As many links are followed as the fuel says.
unfoldable pub walk : ℕ → Disk → Components → Components → Option Components
walk zero d = walk_names d (λ _ _. none)
walk (suc f) d = walk_names d (walk f d)

-- The system's limit on links in one resolution (ELOOP).
abbrev pub max_links : ℕ
max_links = 40

-- `std::filesystem::canonical`, by its names; `none` is an error code.
unfoldable pub resolve_names : Disk → Bytes → Option Components
unfolding start_of
resolve_names d s = if is_empty s then none else walk max_links d (start_of d s) (components s)

unfoldable pub canonical : Disk → Bytes → Option Bytes
unfolding resolve_names
canonical d s = elim (resolve_names d s) [ none ↦ none | some p ↦ some (render p) ]

unfoldable pub exists : Disk → Bytes → Bool
unfolding resolve_names
exists d s = elim (resolve_names d s) [ none ↦ false | some p ↦ true ]

-- The node that a path names, behind all links.
unfoldable pub status : Disk → Bytes → Option Node
unfolding resolve_names
status d s = elim (resolve_names d s) [ none ↦ none | some p ↦ node_at d p ]

abbrev pub is_dir_node : Option Node → Bool
is_dir_node (some directory) = true
is_dir_node _ = false

unfoldable pub is_directory : Disk → Bytes → Bool
unfolding status
is_directory d s = is_dir_node (status d s)
