-- ===== src/Core/Fs/Files.antt =====
-- `read_file` and `write_file` of netfiles/src/core/async_fs.cpp, and `sanitize_path` of
-- netfiles/src/core/utils.hpp.
pub mod RoundTrip
use net_files.Base.{
  ℕ, zero, suc, ◌+◌, ◌-◌, ◌^◌, ◌%◌, Bool, List, [], ◌∷◌, ◌++◌, Option, none, some, Bytes, codes,
  starts_with, take, drop, length, if◌then◌else◌, ltb, ◌==◌, Outcome, done, thrown,
}
use net_files.Core.Fs.Copy.{free_place}
use net_files.Core.Fs.Disk.{Components, Node, file, directory, link, Disk, node_at, join_path}
use net_files.Core.Fs.Ops.{Errc, message, not_found, is_a_directory, invalid_argument, set_node}
use net_files.Core.Fs.Walk.{canonical, status, resolve_names}

abbrev pub failed : {A : Type 0} → Bytes → Errc → Outcome A
failed text e = thrown (text ++ message e)

-- The system's descriptors, which `open` gives without `O_BINARY`. `off_bits` is the width of `off_t`,
-- a signed type: 64 on POSIX systems, 32 on Windows. `get_text` is what one read of at most so many
-- bytes delivers of the bytes that lie from the position on, and `put_byte` what a byte that is
-- written becomes: on POSIX systems both leave bytes alone, and Windows has its text mode. A
-- directory can be opened for reading on POSIX systems; where it cannot, and for writing, the error's
-- text is `directory_error`.
pub record Descriptors : Type 0 where
  pub off_bits : ℕ
  pub get_text : ℕ → Bytes → Bytes
  pub put_byte : ℕ → Bytes
  pub opens_directory : Bool
  pub directory_error : Bytes

-- Where `lseek` leads: the offset is cast to `off_t`, and a negative one is refused. An offset of 0
-- is not sought at all.
unfoldable pub seek_to : Descriptors → ℕ → Option ℕ
seek_to os offset =
    if offset == 0
    then some 0
    else if ltb (offset % 2 ^ os.off_bits) (2 ^ (os.off_bits - 1))
    then some (offset % 2 ^ os.off_bits)
    else none

-- The read from where the descriptor stands.
unfoldable pub read_from : Descriptors → ℕ → Bytes → Option ℕ → Outcome Bytes
read_from os size content none = failed (codes "Failed to seek: ") invalid_argument
read_from os size content (some pos) = done (os.get_text size (drop pos content))

-- A directory that was opened cannot be read.
unfoldable pub read_directory_from : Option ℕ → Outcome Bytes
read_directory_from none = failed (codes "Failed to seek: ") invalid_argument
read_directory_from (some pos) = failed (codes "Failed to read: ") is_a_directory

-- What comes into a buffer of `size` bytes; the source returns how many there are.
unfoldable pub read_node : Descriptors → ℕ → ℕ → Option Node → Outcome Bytes
unfolding read_from read_directory_from seek_to
read_node os size offset (some (file content)) = read_from os size content (seek_to os offset)
read_node os size offset (some directory) =
    if os.opens_directory
    then read_directory_from (seek_to os offset)
    else thrown (codes "Failed to open file: " ++ os.directory_error)
read_node os size offset _ = failed (codes "Failed to open file: ") not_found

unfoldable pub read_file : Descriptors → Disk → Bytes → ℕ → ℕ → Outcome Bytes
unfolding read_node
read_file os d path size offset = read_node os size offset (status d path)

unfoldable pub put_text : Descriptors → Bytes → Bytes
put_text os [] = []
put_text os (c ∷ b) = os.put_byte c ++ put_text os b

unfoldable pub zeros : ℕ → Bytes
zeros zero = []
zeros (suc n) = 0 ∷ zeros n

-- Bytes written at an offset, behind zeros when it lies behind the end.
unfoldable pub put_at : Bytes → ℕ → Bytes → Bytes
unfolding zeros
put_at old offset buffer =
    (take offset old ++ zeros (offset - length old))
    ++ (buffer ++ drop (offset + length buffer) old)

-- The write where the descriptor stands. Its count is of the bytes offered.
unfoldable pub write_from :
    Descriptors → Disk → Components → Bytes → Bytes → Option ℕ → Outcome ℕ × Disk
unfolding put_at put_text
write_from os d q buffer content none =
    (failed (codes "Failed to seek: ") invalid_argument, set_node q (file content) d)
write_from os d q buffer content (some pos) =
    (done (length buffer), set_node q (file (put_at content pos (put_text os buffer))) d)

-- The file that was opened: cut off when the offset is 0.
unfoldable pub write_opened : Descriptors → Disk → Components → Bytes → ℕ → Bytes → Outcome ℕ × Disk
unfolding write_from seek_to
write_opened os d q buffer offset old =
    write_from os d q buffer (if offset == 0 then [] else old) (seek_to os offset)

unfoldable pub write_there :
    Descriptors → Disk → Components → Bytes → ℕ → Option Node → Outcome ℕ × Disk
unfolding write_opened
write_there os d q buffer offset (some (file old)) = write_opened os d q buffer offset old
write_there os d q buffer offset (some directory) =
    (thrown (codes "Failed to open file for writing: " ++ os.directory_error), d)
write_there os d q buffer offset _ =
    (failed (codes "Failed to open file for writing: ") not_found, d)

-- A file that is not there is made, where its directory is there.
unfoldable pub write_new : Descriptors → Disk → Bytes → ℕ → Option Components → Outcome ℕ × Disk
unfolding write_opened
write_new os d buffer offset none =
    (failed (codes "Failed to open file for writing: ") not_found, d)
write_new os d buffer offset (some q) = write_opened os d q buffer offset []

unfoldable pub write_file : Descriptors → Disk → Bytes → Bytes → ℕ → Outcome ℕ × Disk
unfolding write_there write_new
write_file os d path buffer offset = elim (resolve_names d path) [
  | none ↦ write_new os d buffer offset (free_place d path)
  | some q ↦ write_there os d q buffer offset (node_at d q)
]

-- `std::filesystem::canonical` without an error code throws.
unfoldable pub canonical_or_throw : Disk → Bytes → Outcome Bytes
canonical_or_throw d s = elim (canonical d s) [
  | none ↦ failed (codes "cannot make canonical path: ") not_found
  | some t ↦ done t
]

unfoldable pub sanitized : Bytes → Outcome Bytes → Outcome Bytes
sanitized target (done base) = done (if starts_with target base then target else [])
sanitized target o = o

unfoldable pub sanitize_path : Disk → Bytes → Bytes → Outcome Bytes
unfolding canonical_or_throw sanitized
sanitize_path d root path = elim (canonical d (join_path root path)) [
  | none ↦ failed (codes "cannot make canonical path: ") not_found
  | some target ↦ sanitized target (canonical_or_throw d root)
]
