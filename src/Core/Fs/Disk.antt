-- ===== src/Core/Fs/Disk.antt =====
-- A tree of named nodes, and `std::filesystem::path` as its text with the generic (`/`) grammar.
use net_files.Base.{
  Bool, true, false, ◌&&◌, List, [], ◌∷◌, ◌++◌, Option, none, some, ◌≡◌, Bytes, equal, equal_iff,
  starts_with, flatten_with, if◌then◌else◌, ◌==◌, arith, ◌↔◌,
}

-- The names from the root of the tree down to a node.
abbrev pub Components : Type 0
Components = List Bytes

pub data Node : Type 0 where
  file : Bytes → Node
  directory : Node
  link : Bytes → Node

abbrev pub Entries : Type 0
Entries = List (Components × Node)

-- `working` is the directory that relative paths start from.
pub record Disk : Type 0 where
  pub entries : Entries
  pub working : Components

unfoldable pub same_path : Components → Components → Bool
same_path [] [] = true
same_path [] (y ∷ ys) = false
same_path (x ∷ xs) [] = false
same_path (x ∷ xs) (y ∷ ys) = equal x y && same_path xs ys

pub same_path_iff : (p q : Components) → (same_path p q ≡ true) ↔ (p ≡ q)
unfolding same_path
same_path_iff [] [] = ground arith
same_path_iff [] (y ∷ q) = ground arith
same_path_iff (x ∷ p) [] = ground arith
same_path_iff (x ∷ p) (y ∷ q) = ground (arith, equal_iff x y, same_path_iff p q)

-- Does `q` lie at `p` or below it?
unfoldable pub is_under : Components → Components → Bool
is_under [] q = true
is_under (x ∷ p) [] = false
is_under (x ∷ p) (y ∷ q) = equal x y && is_under p q

unfoldable pub find_entry : Components → Entries → Option Node
find_entry p [] = none
find_entry p ((q, n) ∷ r) = if same_path q p then some n else find_entry p r

-- The root is always a directory.
unfoldable pub node_at : Disk → Components → Option Node
unfolding find_entry
node_at d [] = some directory
node_at d (c ∷ p) = find_entry (c ∷ p) d.entries

-- The names between the slashes; empty ones are kept.
unfoldable pub names_from : Bytes → Bytes → Components
names_from name [] = name ∷ []
names_from name (c ∷ s) =
    let cut = name ∷ names_from [] s in
    let grow = names_from (name ++ c ∷ []) s in if c == b'/' then cut else grow

unfoldable pub components : Bytes → Components
unfolding names_from
components s = names_from [] s

unfoldable pub is_absolute : Bytes → Bool
is_absolute s = starts_with s (b'/' ∷ [])

-- The text of a canonical path.
unfoldable pub render : Components → Bytes
render [] = b'/' ∷ []
render (c ∷ p) = flatten_with b'/' (c ∷ p)

-- Does the text end in a slash? Of the empty text this says yes: no slash is put behind it.
unfoldable pub ends_in_slash : Bytes → Bool
ends_in_slash [] = true
ends_in_slash (c ∷ []) = c == b'/'
ends_in_slash (c ∷ d ∷ s) = ends_in_slash (d ∷ s)

-- `operator/` of paths.
unfoldable pub join_path : Bytes → Bytes → Bytes
unfolding is_absolute
join_path p q = if is_absolute q then q else if ends_in_slash p then p ++ q else p ++ (b'/' ∷ q)
