-- ===== src/Core/Fs/Ops.antt =====
-- The operations of `std::filesystem` that change the tree or list it, and the methods of
-- `AsyncFileSystemPOSIX` (netfiles/src/core/async_fs.cpp) over them.
use net_files.Base.{
  ℕ, Bool, List, [], ◌∷◌, ◌++◌, Option, none, some, Bytes, codes, is_empty, if◌then◌else◌,
  drop_last, length, drop, ◌≡◌, Outcome, done, thrown,
}
use net_files.Core.Fs.Disk.{
  Components, Node, file, directory, link, Entries, Disk, same_path, is_under, node_at, components,
  join_path,
}
use net_files.Core.Fs.Walk.{
  stay, up, into, move_of, start_of, link_base, walk, max_links, resolve_names, status, is_dir_node,
}

-- The error conditions that the model tells apart.
pub data Errc : Type 0 where
  not_found not_a_directory is_a_directory not_empty invalid_argument busy file_exists
        name_too_long :
      Errc

-- `std::error_code::message`.
unfoldable pub message : Errc → Bytes
message not_found = codes "No such file or directory"
message not_a_directory = codes "Not a directory"
message is_a_directory = codes "Is a directory"
message not_empty = codes "Directory not empty"
message invalid_argument = codes "Invalid argument"
message busy = codes "Device or resource busy"
message file_exists = codes "File exists"
message name_too_long = codes "File name too long"

-- A call with an `std::error_code` argument.
pub data Checked {ℓ} (A : Type ℓ) : Type ℓ where
  good : A → Checked A
  bad : Errc → Checked A

unfoldable pub erase_under : Components → Entries → Entries
erase_under p [] = []
erase_under p ((q, n) ∷ r) = if is_under p q then erase_under p r else (q, n) ∷ erase_under p r

unfoldable pub erase_entry : Components → Entries → Entries
erase_entry p [] = []
erase_entry p ((q, n) ∷ r) = if same_path q p then erase_entry p r else (q, n) ∷ erase_entry p r

unfoldable pub set_node : Components → Node → Disk → Disk
set_node p n d = record d { entries = (p, n) ∷ erase_entry p d.entries }

unfoldable pub erase_tree : Components → Disk → Disk
erase_tree p d = record d { entries = erase_under p d.entries }

-- The names of the entries right below `p`, in the order of the table.
unfoldable pub child_of : Components → Components → Option Bytes
child_of [] (c ∷ []) = some c
child_of [] [] = none
child_of [] (c ∷ y ∷ q) = none
child_of (x ∷ p) [] = none
child_of (x ∷ p) (y ∷ q) = if same_path (x ∷ []) (y ∷ []) then child_of p q else none

unfoldable pub children : Components → Entries → List Bytes
children p [] = []
children p ((q, n) ∷ r) = elim (child_of p q) [ none ↦ children p r | some c ↦ c ∷ children p r ]

-- The path that a name stands for, its last link not followed.
unfoldable pub last_name : Components → Bytes
last_name [] = []
last_name (c ∷ []) = c
last_name (c ∷ e ∷ r) = last_name (e ∷ r)

-- From `start` along the names `cs`; `whole` is the full resolution, for a last name `.` or `..`.
unfoldable pub locate_from : Disk → Components → Components → Option Components → Option Components
locate_from d start cs whole = elim (move_of (last_name cs)) [
  | into ↦ elim (walk max_links d start (drop_last cs)) [
    | none ↦ none
    | some p ↦ if is_dir_node (node_at d p) then some (p ++ last_name cs ∷ []) else none
  ]
  | _ ↦ whole
]

unfoldable pub locate : Disk → Bytes → Option Components
unfolding locate_from last_name
locate d s = locate_from d (start_of d s) (components s) (resolve_names d s)

-- One name of `create_directories`, by the node that stands there: `fresh` goes on in a new
-- directory, `there` in one that exists, `behind` in the directory behind a link.
unfoldable pub enter_dir :
    Disk
    → Components
    → Checked Disk
    → Checked Disk
    → (Components → Checked Disk)
    → Option Node
    → Checked Disk
enter_dir d base fresh there behind none = fresh
enter_dir d base fresh there behind (some directory) = there
enter_dir d base fresh there behind (some (file _)) = bad not_a_directory
enter_dir d base fresh there behind (some (link t)) =
    elim (walk max_links d (link_base base t) (components t)) [
      | none ↦ bad not_found
      | some p ↦
          let rest = behind p in if is_dir_node (node_at d p) then rest else bad not_a_directory
    ]

unfoldable pub make_dirs : Disk → Components → Components → Checked Disk
unfolding enter_dir
make_dirs d base [] = good d
make_dirs d base (c ∷ r) = elim (move_of c) [
  | stay ↦ make_dirs d base r
  | up ↦ make_dirs d (drop_last base) r
  | into ↦
      enter_dir d base (make_dirs (set_node (base ++ c ∷ []) directory d) (base ++ c ∷ []) r)
        (make_dirs d (base ++ c ∷ []) r) (λ p. make_dirs d p r) (node_at d (base ++ c ∷ []))
]

module _ (d : Disk) (base : Components) (c : Bytes) (r : Components) where
  pub make_dirs-stay : move_of c ≡ stay → make_dirs d base (c ∷ r) ≡ make_dirs d base r
  unfolding make_dirs
  make_dirs-stay m = rw (m, make_dirs)

  pub make_dirs-into :
      move_of c ≡ into
      → make_dirs d base (c ∷ r)
        ≡ enter_dir d base
            (make_dirs (set_node (base ++ c ∷ []) directory d) (base ++ c ∷ []) r)
            (make_dirs d (base ++ c ∷ []) r)
            (λ p. make_dirs d p r)
            (node_at d (base ++ c ∷ []))
  unfolding make_dirs
  make_dirs-into m = rw (m, make_dirs)

-- `std::filesystem::create_directories`.
unfoldable pub create_directories : Disk → Bytes → Checked Disk
unfolding make_dirs start_of
create_directories d s =
    if is_empty s then bad not_found else make_dirs d (start_of d s) (components s)

-- `std::filesystem::remove_all`: nothing there is no error.
unfoldable pub remove_all : Disk → Bytes → Checked Disk
unfolding locate
remove_all d s = elim (locate d s) [
  | none ↦ good d
  | some p ↦ if is_empty p then bad busy else good (erase_tree p d)
]

-- `std::filesystem::remove`: a file, a link or an empty directory.
unfoldable pub remove_node : Disk → Components → Option Node → Checked Disk
remove_node d p none = good d
remove_node d p (some directory) =
    if is_empty p
    then bad busy
    else if is_empty (children p d.entries)
    then good (erase_tree p d)
    else bad not_empty
remove_node d p (some _) = good (erase_tree p d)

unfoldable pub remove : Disk → Bytes → Checked Disk
unfolding locate remove_node
remove d s = elim (locate d s) [ none ↦ good d | some p ↦ remove_node d p (node_at d p) ]

-- The entries at `p` and below, moved to `q`.
unfoldable pub move_entries : Components → Components → Entries → Entries
move_entries p q [] = []
move_entries p q ((k, n) ∷ r) =
    (if is_under p k then (q ++ drop (length p) k, n) else (k, n)) ∷ move_entries p q r

unfoldable pub move_tree : Components → Components → Disk → Disk
move_tree p q d = record d { entries = move_entries p q (erase_under q d.entries) }

unfoldable pub rename_onto : Disk → Components → Components → Node → Option Node → Checked Disk
rename_onto d p q n none = good (move_tree p q d)
rename_onto d p q directory (some directory) =
    if is_empty (children q d.entries) then good (move_tree p q d) else bad not_empty
rename_onto d p q directory (some _) = bad not_a_directory
rename_onto d p q n (some directory) = bad is_a_directory
rename_onto d p q n (some _) = good (move_tree p q d)

-- The target is a directory above the source, so it is not empty.
unfoldable pub onto_ancestor : Node → Checked Disk
onto_ancestor directory = bad not_empty
onto_ancestor _ = bad is_a_directory

unfoldable pub rename_node : Disk → Components → Components → Option Node → Checked Disk
unfolding rename_onto onto_ancestor
rename_node d p q none = bad not_found
rename_node d p q (some n) =
    if same_path p q
    then good d
    else if is_under p q
    then bad invalid_argument
    else if is_under q p
    then onto_ancestor n
    else rename_onto d p q n (node_at d q)

-- `std::filesystem::rename`.
unfoldable pub rename : Disk → Bytes → Bytes → Checked Disk
unfolding rename_node locate
rename d s t = elim (locate d s) [
  | none ↦ bad not_found
  | some p ↦ elim (locate d t) [ none ↦ bad not_found | some q ↦ rename_node d p q (node_at d p) ]
]

-- `AsyncFileSystemPOSIX`: an error code becomes an exception.
unfoldable pub raise {ℓ} : {A : Type ℓ} → Bytes → Checked A → Outcome A
raise prefix (good a) = done a
raise prefix (bad e) = thrown (prefix ++ message e)

unfoldable pub create_directory : Disk → Bytes → Outcome Disk
unfolding raise create_directories
create_directory d s = raise (codes "Failed to create directory: ") (create_directories d s)

unfoldable pub remove_directory : Disk → Bytes → Outcome Disk
unfolding raise remove_all
remove_directory d s = raise (codes "Failed to remove directory: ") (remove_all d s)

unfoldable pub remove_file : Disk → Bytes → Outcome Disk
unfolding raise remove
remove_file d s = raise (codes "Failed to remove file: ") (remove d s)

unfoldable pub rename_file : Disk → Bytes → Bytes → Outcome Disk
unfolding raise rename
rename_file d s t = raise (codes "Failed to rename: ") (rename d s t)

pub size_of : Option Node → ℕ
size_of (some (file b)) = length b
size_of _ = 0

-- 0 on an error, and for a directory, whose size `std::filesystem::file_size` refuses.
unfoldable pub file_size : Disk → Bytes → ℕ
unfolding size_of status
file_size d s = size_of (status d s)

-- `FileEntry`, less the time and the permissions.
pub record FileEntry : Type 0 where
  pub path : Bytes
  pub size : ℕ
  pub is_dir : Bool

entry_of : Bytes → Option Node → List FileEntry
entry_of p none = []
entry_of p (some n) =
    record { path = p; size = size_of (some n); is_dir = is_dir_node (some n) } ∷ []

list_entries : Disk → Bytes → List Bytes → List FileEntry
unfolding entry_of
list_entries d s [] = []
list_entries d s (c ∷ cs) =
    entry_of (join_path s c) (status d (join_path s c)) ++ list_entries d s cs

-- Entries whose status has an error are left out; what is no directory is an exception.
unfoldable pub read_directory : Disk → Bytes → Outcome (List FileEntry)
unfolding list_entries size_of
read_directory d s = elim (resolve_names d s) [
  | none ↦ thrown (message not_found)
  | some p ↦
      if is_dir_node (node_at d p)
      then done (list_entries d s (children p d.entries))
      else thrown (message not_a_directory)
]
