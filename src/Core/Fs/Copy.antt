-- ===== src/Core/Fs/Copy.antt =====
-- `std::filesystem::copy_file` and `copy`, and the streams that write a file whole, as
-- netfiles/src/webdav/dav_resource.cpp uses them.
pub mod AtFile
use net_files.Base.{
  ℕ, zero, suc, Bool, true, false, List, [], ◌∷◌, Option, none, some, Bytes, if◌then◌else◌,
}
use net_files.Core.Fs.Disk.{
  Components, Node, file, directory, link, Disk, same_path, node_at, components, join_path,
}
use net_files.Core.Fs.Ops.{
  Errc, not_found, is_a_directory, file_exists, name_too_long, invalid_argument, Checked, good, bad,
  set_node, children, last_name, locate,
}
use net_files.Core.Fs.Walk.{resolve_names, is_dir_node}

-- Where a new entry can be made: a name without an entry, in a directory.
unfoldable pub free_place : Disk → Bytes → Option Components
unfolding locate
free_place d s = elim (locate d s) [
  | none ↦ none
  | some q ↦ elim (node_at d q) [ none ↦ some q | some n ↦ none ]
]

unfoldable pub create_at : Disk → Node → Option Components → Checked Disk
create_at d n none = bad not_found
create_at d n (some q) = good (set_node q n d)

-- Writing into what is there: only a file can be written.
unfoldable pub write_node : Disk → Components → Bytes → Option Node → Checked Disk
write_node d q content (some (file _)) = good (set_node q (file content) d)
write_node d q content (some directory) = bad is_a_directory
write_node d q content (some (link _)) = bad not_found
write_node d q content none = bad not_found

-- `std::ofstream` with `trunc`, and all that is written before it closes. A link that leads
-- nowhere is not followed here: nothing is written.
unfoldable pub write_whole : Disk → Bytes → Bytes → Checked Disk
unfolding free_place create_at write_node
write_whole d s content = elim (resolve_names d s) [
  | none ↦ create_at d (file content) (free_place d s)
  | some q ↦ write_node d q content (node_at d q)
]

-- `copy_file` with `overwrite_existing`, from a node at `p`.
unfoldable pub copy_from : Disk → Components → Bytes → Option Node → Checked Disk
unfolding free_place create_at write_node
copy_from d p t (some (file content)) = elim (resolve_names d t) [
  | none ↦ create_at d (file content) (free_place d t)
  | some q ↦ if same_path p q then bad file_exists else write_node d q content (node_at d q)
]
copy_from d p t _ = bad invalid_argument

unfoldable pub copy_file : Disk → Bytes → Bytes → Checked Disk
unfolding copy_from
copy_file d s t = elim (resolve_names d s) [
  | none ↦ bad not_found
  | some p ↦ copy_from d p t (node_at d p)
]

-- A copy that fails keeps what was copied before.
abbrev pub Copied : Type 0
Copied = Disk × Option Errc

unfoldable pub settled : Disk → Checked Disk → Copied
settled d (good d') = (d', none)
settled d (bad e) = (d, some e)

-- The entries of a directory, one after the other, until one fails.
unfoldable pub copy_names :
    (Disk → Bytes → Bytes → Copied) → Bytes → Bytes → List Bytes → Disk → Copied
copy_names step s t [] d = (d, none)
copy_names step s t (c ∷ cs) d = elim ((step d (join_path s c) (join_path t c)).1) [
  | none ↦ copy_names step s t cs (step d (join_path s c) (join_path t c)).0
  | some e ↦ ((step d (join_path s c) (join_path t c)).0, some e)
]

unfoldable pub copy_made :
    (Disk → Bytes → Bytes → Copied) → Bytes → Bytes → List Bytes → Disk → Checked Disk → Copied
unfolding copy_names
copy_made step s t cs d (good d') = copy_names step s t cs d'
copy_made step s t cs d (bad e) = (d, some e)

-- A directory at `p` onto the node at `q`.
unfoldable pub copy_directory :
    (Disk → Bytes → Bytes → Copied) → Disk → Bytes → Bytes → Components → Option Components → Copied
unfolding copy_made copy_names create_at free_place
copy_directory step d s t p none =
    copy_made step s t (children p d.entries) d (create_at d directory (free_place d t))
copy_directory step d s t p (some q) =
    if same_path p q
    then (d, some file_exists)
    else if is_dir_node (node_at d q)
    then copy_names step s t (children p d.entries) d
    else (d, some is_a_directory)

abbrev pub onto_name : Disk → Bytes → Bytes → Bytes
onto_name d s t = elim (resolve_names d t) [
  | none ↦ t
  | some q ↦ if is_dir_node (node_at d q) then join_path t (last_name (components s)) else t
]

unfoldable pub copy_node :
    (Disk → Bytes → Bytes → Copied) → Disk → Bytes → Bytes → Option Components → Copied
unfolding copy_directory copy_file settled
copy_node step d s t none = (d, some not_found)
copy_node step d s t (some p) =
    if is_dir_node (node_at d p)
    then copy_directory step d s t p (resolve_names d t)
    else settled d (copy_file d s (onto_name d s t))

-- `copy` with `recursive` and `overwrite_existing`, so many directories deep.
unfoldable pub copy_tree : ℕ → Disk → Bytes → Bytes → Copied
unfolding copy_node
copy_tree zero d s t = (d, some name_too_long)
copy_tree (suc f) d s t = copy_node (copy_tree f) d s t (resolve_names d s)

-- The depth at which a path is too long for the system: 260 characters, at least two for each name. A
-- directory that is copied into itself is copied until then.
abbrev pub max_depth : ℕ
max_depth = 130

unfoldable pub copy : Disk → Bytes → Bytes → Copied
unfolding copy_tree
copy d s t = copy_tree max_depth d s t
