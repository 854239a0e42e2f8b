-- ===== src/Ftp/Transfer/Listing.antt =====
-- `DataTransfer::send_listing`, `send_directory_listing` and `format_list_entry`.
use net_files.Base.{
  ℕ, zero, suc, ◌-◌, ◌/◌, ◌%◌, ◌^◌, Bool, List, [], ◌∷◌, ◌++◌, Bytes, codes, length, take,
  if◌then◌else◌, ◌==◌, Outcome, done, thrown, pending, to_string, map,
}
use net_files.Core.Fs.Disk.{components}
use net_files.Core.Fs.Ops.{FileEntry, read_directory, last_name}
use net_files.Ftp.Transfer.Loops.{set_writes}
use net_files.Ftp.World.{took, write_failed, M}

-- `FTPFileInfo`; the time is the text that `std::put_time` makes of it.
pub record FileInfo : Type 0 where
  pub name : Bytes
  pub size : ℕ
  pub is_dir : Bool
  pub permissions : ℕ
  pub modified : Bytes

-- What the file system and the clock say of an entry, by its path.
pub record Attributes : Type 0 where
  pub perms_of : Bytes → ℕ
  pub stamp_of : Bytes → Bytes

abbrev has_perm : ℕ → ℕ → Bool
has_perm perms bit = (perms / 2 ^ bit) % 2 == 1

perm_letter : ℕ → ℕ → ℕ → ℕ
perm_letter perms bit letter = if has_perm perms bit then letter else b'-'

replicate : ℕ → ℕ → Bytes
replicate zero c = []
replicate (suc n) c = c ∷ replicate n c

-- `std::setw`: filled with blanks on the left.
pad_left : ℕ → Bytes → Bytes
unfolding replicate
pad_left n s = replicate (n - length s) b' ' ++ s

-- `owner_read` is 0400, `others_exec` is 01.
unfoldable pub format_list_entry : FileInfo → Bytes
unfolding perm_letter pad_left
format_list_entry info =
    (if info.is_dir then b'd' else b'-')
    ∷ perm_letter info.permissions 8 b'r'
    ∷ perm_letter info.permissions 7 b'w'
    ∷ perm_letter info.permissions 6 b'x'
    ∷ perm_letter info.permissions 5 b'r'
    ∷ perm_letter info.permissions 4 b'w'
    ∷ perm_letter info.permissions 3 b'x'
    ∷ perm_letter info.permissions 2 b'r'
    ∷ perm_letter info.permissions 1 b'w'
    ∷ perm_letter info.permissions 0 b'x'
    ∷ (codes "    1 root root "
        ++ (pad_left 12 (to_string info.size) ++ (b' ' ∷ (info.modified ++ (b' ' ∷ info.name)))))

abbrev crlf : Bytes
crlf = 13 ∷ 10 ∷ []

unfoldable pub list_lines : List FileInfo → Bytes
unfolding format_list_entry
list_lines [] = []
list_lines (info ∷ r) = format_list_entry info ++ (crlf ++ list_lines r)

unfoldable pub name_lines : List FileInfo → Bytes
name_lines [] = []
name_lines (info ∷ r) = info.name ++ (crlf ++ name_lines r)

-- One `async_send`, which may take a part; with nothing to send it completes at once.
unfoldable pub send_once : Bytes → M (Unit {0})
send_once [] w = (done tt, w)
send_once (x ∷ s) w = elim w.net.writes [
  | [] ↦ (pending, w)
  | write_failed m ∷ ws ↦ (thrown m, set_writes w ws)
  | took n ∷ ws ↦ (done tt, set_writes (record w { data_out = w.data_out ++ take n (x ∷ s) }) ws)
]

unfoldable pub send_listing : List FileInfo → M (Unit {0})
unfolding list_lines send_once
send_listing entries w = send_once (list_lines entries) w

file_info : Attributes → FileEntry → FileInfo
file_info at e = record {
  name = last_name (components e.path);
  size = e.size;
  is_dir = e.is_dir;
  permissions = at.perms_of e.path;
  modified = at.stamp_of e.path;
}

unfoldable pub send_entries : Attributes → Bool → Outcome (List FileEntry) → M (Unit {0})
unfolding name_lines file_info list_lines send_once
send_entries at detailed (thrown m) w = (thrown m, w)
send_entries at detailed pending w = (pending, w)
send_entries at detailed (done es) w =
    let infos = map (file_info at) es in
    send_once (if detailed then list_lines infos else name_lines infos) w

unfoldable pub send_directory_listing : Attributes → Bytes → Bool → M (Unit {0})
unfolding send_entries
send_directory_listing at path detailed w = send_entries at detailed (read_directory w.disk path) w
