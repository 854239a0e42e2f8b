-- ===== src/Ftp/Transfer/File.antt =====
-- `CNtFile` and `AsyncFileBuffered` (netfiles/src/core/async_fs.hpp and async_fs.cpp).
use net_files.Base.{
  ℕ, ◌+◌, [], ◌∷◌, ◌++◌, Option, none, some, Bytes, codes, length, take, drop, if◌then◌else◌, ltb,
  Outcome, done, thrown, max,
}
use net_files.Core.Fs.Disk.{Components, Node, file, Disk, node_at}
use net_files.Core.Fs.Walk.{resolve_names}
use net_files.Core.Fs.Ops.{set_node, message, not_found, is_a_directory}

-- `position` is where the C stream stands: `Read` and `Write` go on from there, whatever offset they
-- are given. `current_offset` is the wrapper's own count, and all that `seek` sets.
pub record AsyncFile : Type 0 where
  pub names : Components
  pub size : ℕ
  pub current_offset : ℕ
  pub position : ℕ

abbrev pub content_of : Option Node → Bytes
content_of (some (file b)) = b
content_of _ = []

-- The size is taken first, and that throws unless a file is there; then `fopen` with "r+".
unfoldable pub open_node : Components → Option Node → Outcome AsyncFile
open_node p (some (file b)) =
    done (record { names = p; size = length b; current_offset = 0; position = 0 })
open_node p (some _) = thrown (message is_a_directory)
open_node p none = thrown (message not_found)

unfoldable pub open_file : Disk → Bytes → Outcome AsyncFile
unfolding open_node
open_file d s = elim (resolve_names d s) [
  | none ↦ thrown (message not_found)
  | some p ↦ open_node p (node_at d p)
]

-- The C stream's text mode ("r+" is not binary): what is read of a file's bytes, and what a byte that
-- is written becomes. On POSIX systems both leave bytes alone; on Windows CR LF is read as LF, and LF
-- is written as CR LF.
pub record Stream : Type 0 where
  pub get_text : Bytes → Bytes
  pub put_byte : ℕ → Bytes

unfoldable pub written : Stream → Bytes → Bytes
written st [] = []
written st (c ∷ b) = st.put_byte c ++ written st b

unfoldable pub read_chunk : Stream → Disk → AsyncFile → ℕ → Bytes
read_chunk st d f n = take n (drop f.position (st.get_text (content_of (node_at d f.names))))

unfoldable pub advance : AsyncFile → ℕ → AsyncFile
advance f n = record f { current_offset = f.current_offset + n; position = f.position + n }

-- Bytes written over what is there, from `pos` on.
unfoldable pub overwrite : Bytes → ℕ → Bytes → Bytes
overwrite old pos new = take pos old ++ (new ++ drop (pos + length new) old)

unfoldable pub write_chunk : Stream → Disk → AsyncFile → Bytes → Disk
unfolding overwrite written
write_chunk st d f b =
    set_node f.names (file (overwrite (content_of (node_at d f.names)) f.position (written st b))) d

unfoldable pub advance_write : Stream → AsyncFile → Bytes → AsyncFile
unfolding written
advance_write st f b = record f {
  current_offset = f.current_offset + length b;
  position = f.position + length (written st b);
  size = max f.size (f.current_offset + length b);
}

unfoldable pub seek : AsyncFile → ℕ → Outcome AsyncFile
seek f offset =
    if ltb f.size offset
    then thrown (codes "Seek offset exceeds file size")
    else done (record f { current_offset = offset })
