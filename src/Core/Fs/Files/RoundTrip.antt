-- ===== src/Core/Fs/Files/RoundTrip.antt =====
-- What `write_file` wrote, `read_file` reads (netfiles/src/core/async_fs.cpp).
use net_files.Base.{
  ℕ, zero, suc, ◌+◌, ◌-◌, [], ◌++◌, some, ◌≡◌, refl, sym, ap, ◌∙◌, Bytes, take, drop, length,
  if◌then◌else◌, ◌==◌, done, arith, length-append, length-take, drop-length-append,
}
use net_files.Core.Fs.Canonical.{IsReal, resolve_names-render}
use net_files.Core.Fs.Copy.AtFile.{set_node-IsReal, node_at-set_file}
use net_files.Core.Fs.Disk.{Components, file, Disk, node_at, render}
use net_files.Core.Fs.Files.{
  Descriptors, seek_to, read_from, zeros, put_at, put_text, read_node, read_file, write_from,
  write_opened, write_there, write_file,
}
use net_files.Core.Fs.Walk.{status}

length-zeros : (n : ℕ) → length (zeros n) ≡ n
unfolding zeros
length-zeros zero = refl
length-zeros (suc n) = omega (arith, length-zeros n)

-- From the place of a write on, a file holds what was written, and then what it held behind that.
drop-put_at :
    (old buffer : Bytes) (pos : ℕ)
    → drop pos (put_at old pos buffer) ≡ buffer ++ drop (pos + length buffer) old
unfolding put_at
drop-put_at old buffer pos =
    let front = take pos old ++ zeros (pos - length old) in
    let rest = drop (pos + length buffer) old in
    let there : length front ≡ pos = omega (
      arith,
      length-append (take pos old) (zeros (pos - length old)),
      length-take pos old,
      length-zeros (pos - length old),
    ) in
    ap (λ n. drop n (front ++ (buffer ++ rest))) (sym there)
    ∙ drop-length-append front (buffer ++ rest)

read_file-render :
    {d : Disk} (os : Descriptors) (q : Components) (content : Bytes) (size offset pos : ℕ)
    → IsReal d q
    → node_at d q ≡ some (file content)
    → seek_to os offset ≡ some pos
    → read_file os d (render q) size offset ≡ done (os.get_text size (drop pos content))
unfolding read_file status read_node read_from
read_file-render {d} os q content size offset pos r h seek =
    rw (resolve_names-render q r, read_file, status) (rw (h, read_node) (rw seek refl))

-- What was written to a file that is there, at an offset that leads to a place (which is the offset
-- modulo the width of `off_t`, where that is not negative), is counted, and a read of any size from that offset delivers what the descriptor's mode makes of the bytes written followed
-- by those that the file held behind them, whether the offset lies inside the file, at its end or
-- behind it. At offset 0 the file was cut off, and nothing lies behind.
pub read_file-write_file :
    {d : Disk} (os : Descriptors) (q : Components) (old buffer : Bytes) (offset pos size : ℕ)
    → IsReal d q
    → node_at d q ≡ some (file old)
    → seek_to os offset ≡ some pos
    → ((write_file os d (render q) buffer offset).0 ≡ done (length buffer))
      × (read_file os (write_file os d (render q) buffer offset).1 (render q) size offset
          ≡ done (
              os.get_text size (
                put_text os buffer
                ++ drop (pos + length (put_text os buffer)) (if offset == 0 then [] else old))))
unfolding write_file write_there write_opened write_from
read_file-write_file {d} os q old buffer offset pos size r h seek =
    let content = put_at (if offset == 0 then [] else old) pos (put_text os buffer) in
    rw (resolve_names-render q r, write_file)
      (rw (h, write_there)
        (rw (seek, write_opened)
          (
            refl,
            read_file-render os q content size offset pos (set_node-IsReal q old content r h)
                  (node_at-set_file d q old content h) seek
                ∙ ap (λ x. done (os.get_text size x))
                    (drop-put_at (if offset == 0 then [] else old) (put_text os buffer) pos),
          )))
