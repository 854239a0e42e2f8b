-- ===== src/Ftp/Transfer/Receive.antt =====
-- What `DataTransfer::receive_file` of netfiles/src/ftp/data_channel.cpp makes of a file that is there.
use net_files.Base.{
  ℕ, zero, suc, ◌+◌, ◌≤◌, ◌<◌, true, false, List, [], ◌∷◌, ◌++◌, some, ◌≡◌, refl, ap, sym, subst,
  ◌∙◌, Bytes, length, take, drop, length-append, drop-drop, take-append-drop, take-length-append,
  drop-length-append, append_assoc, is_empty, ltb, Outcome, thrown, arith, All,
}
use net_files.Core.Fs.Disk.{Components, Disk, file, node_at}
use net_files.Core.Fs.Canonical.{node_at-top}
use net_files.Core.Fs.Frame.{node_at-set_node_self}
use net_files.Core.Fs.Walk.{resolve_names}
use net_files.Ftp.Transfer.File.{
  Stream, written, AsyncFile, open_file, open_node, write_chunk, advance_write, overwrite,
}
use net_files.Ftp.Transfer.Loops.{
  max_size, receive_loop, receive_sought, receive_opened, receive_file,
}
use net_files.Ftp.World.{World, ReadEvent, got, read_failed}

-- The reads that bring these chunks, and then what is left.
unfoldable pub chunks_then : List Bytes → List ReadEvent → List ReadEvent
chunks_then [] rs = rs
chunks_then (b ∷ bs) rs = got b ∷ chunks_then bs rs

-- The chunks in one.
unfoldable pub concat : List Bytes → Bytes
concat [] = []
concat (b ∷ bs) = b ++ concat bs

written-append : (st : Stream) (a b : Bytes) → written st (a ++ b) ≡ written st a ++ written st b
unfolding written
written-append st [] b = refl
written-append st (c ∷ a) b = simp (written-append st a b, append_assoc)

length-take : (n : ℕ) (s : Bytes) → n ≤ length s → length (take n s) ≡ n
length-take zero s h = refl
length-take (suc n) [] h = absurd (omega arith)
length-take (suc n) (x ∷ s) h = omega (arith, length-take n s (omega arith))

overwrite_behind :
    (q d b : Bytes) (n : ℕ) → n ≡ length q → overwrite (q ++ d) n b ≡ q ++ (b ++ drop (length b) d)
unfolding overwrite
overwrite_behind q d b n e =
    rw (
      e,
      take-length-append q d,
      ← drop-drop (length q) (length b) (q ++ d),
      drop-length-append q d,
    )

-- Writing at a place and going on behind it writes both parts in one.
overwrite-append :
    (old : Bytes) (pos : ℕ) (a b : Bytes)
    → pos ≤ length old
    → overwrite (overwrite old pos a) (pos + length a) b ≡ overwrite old pos (a ++ b)
unfolding overwrite
overwrite-append old pos a b h =
    let both : length (take pos old ++ a) ≡ pos + length a =
      omega (arith, length-append (take pos old) a, length-take pos old h) in
    let rest : drop (length b) (drop (pos + length a) old) ≡ drop (pos + length (a ++ b)) old =
      drop-drop (pos + length a) (length b) old
      ∙ ap (λ n. drop n old) {x = pos + length a + length b} {y = pos + length (a ++ b)}
          (omega (arith, length-append a b)) in
    ap (λ x. overwrite x (pos + length a) b)
      (sym (append_assoc (take pos old) a (drop (pos + length a) old)))
    ∙ overwrite_behind (take pos old ++ a) (drop (pos + length a) old) b (pos + length a) (sym both)
    ∙ append_assoc (take pos old) a (b ++ drop (length b) (drop (pos + length a) old))
    ∙ ap (λ x. take pos old ++ (a ++ (b ++ x))) rest
    ∙ ap (λ x. take pos old ++ x) (sym (append_assoc a b (drop (pos + length (a ++ b)) old)))

length-overwrite :
    (old : Bytes) (pos : ℕ) (a : Bytes)
    → pos ≤ length old
    → pos + length a ≤ length (overwrite old pos a)
unfolding overwrite
length-overwrite old pos a h = omega (
  arith,
  length-append (take pos old) (a ++ drop (pos + length a) old),
  length-append a (drop (pos + length a) old),
  length-take pos old h,
)

-- How an upload ends: with a count, or with the exception of the last read.
abbrev Stored : Components → Bytes → Outcome ℕ → Outcome ℕ × World → Type 0
Stored p b o r = (r.0 ≡ o) × (node_at r.1.disk p ≡ some (file b))

overwrite_nothing : (old : Bytes) (pos : ℕ) → overwrite old pos [] ≡ old
unfolding overwrite
overwrite_nothing old pos =
    ap (λ n. take pos old ++ drop n old) {x = pos + 0} {y = pos} (omega arith)
    ∙ take-append-drop pos old

write_chunk-at :
    (st : Stream) (c : Bytes) (p : Components) (d : Disk) (f : AsyncFile) (old x : Bytes)
    → f.names ≡ c ∷ p
    → node_at d (c ∷ p) ≡ some (file old)
    → node_at (write_chunk st d f x) (c ∷ p) ≡ some (file (overwrite old f.position (written st x)))
unfolding write_chunk
write_chunk-at st c p d f old x n at_p = rw n (node_at-set_node_self c p _ d ∙ rw at_p)

-- The chunks are written one behind the other, and the loop goes on with what comes then.
receive_loop-chunks :
    (st : Stream) (c : Bytes) (p : Components) (bs : List Bytes) (m : ℕ) (f : AsyncFile) (total : ℕ)
    (w : World) (old new : Bytes) (n : ℕ) (tail : List ReadEvent) (o : Outcome ℕ)
    → f.names ≡ c ∷ p
    → node_at w.disk (c ∷ p) ≡ some (file old)
    → f.position ≤ length old
    → n ≡ total + length (concat bs)
    → n < m
    → new ≡ overwrite old f.position (written st (concat bs))
    → All (λ b. is_empty b ≡ false) bs
    → ((g : AsyncFile) (v : World)
        → node_at v.disk (c ∷ p) ≡ some (file new)
        → Stored (c ∷ p) new o (receive_loop st tail m g n v))
    → Stored (c ∷ p) new o (receive_loop st (chunks_then bs tail) m f total w)
unfolding receive_loop chunks_then concat advance_write written
receive_loop-chunks st c p [] m f total w old new n tail o names at_p h en b ew ne go =
    subst (λ k. Stored (c ∷ p) new o (receive_loop st tail m f k w)) {x = n} {y = total}
      (omega (arith, en))
      (go f w (at_p ∙ ap (λ x. some (file x)) (sym (ew ∙ overwrite_nothing old f.position))))
receive_loop-chunks st c p (x ∷ bs) m f total w old new n tail o names at_p h en b ew (nx, ne) go =
    let lt : ltb total m ≡ true = ground (arith, length-append x (concat bs)) in
    rw (lt, nx)
      (receive_loop-chunks st c p bs m (advance_write st f x) (total + length x)
        (record w { disk = write_chunk st w.disk f x }) (overwrite old f.position (written st x))
        new n tail o names (write_chunk-at st c p w.disk f old x names at_p)
        (length-overwrite old f.position (written st x) h)
        (omega (arith, en, length-append x (concat bs))) b
        (ew
          ∙ ap (overwrite old f.position) (written-append st x (concat bs))
          ∙ sym (overwrite-append old f.position (written st x) (written st (concat bs)) h))
        ne go)

receive_loop-failed :
    (st : Stream) (p : Components) (m : ℕ) (f : AsyncFile) (n : ℕ) (w : World) (new t : Bytes)
    (rs : List ReadEvent)
    → n < m
    → node_at w.disk p ≡ some (file new)
    → Stored p new (thrown t) (receive_loop st (read_failed t ∷ rs) m f n w)
unfolding receive_loop
receive_loop-failed st p m f n w new t rs b e =
    let lt : ltb n m ≡ true = ground arith in rw lt (refl, e)

-- The content that an upload leaves: what was received, and behind it what the file held there before.
abbrev pub over_old : Bytes → Bytes → Bytes
over_old old new = new ++ drop (length new) old

overwrite-front : (old new : Bytes) → over_old old new ≡ overwrite old 0 new
unfolding overwrite
overwrite-front old new =
    ap (λ n. new ++ drop n old) {x = length new} {y = 0 + length new} (omega arith)

receive_opened-Stored :
    (st : Stream) (p : Components) (old : Bytes) (w : World) (bs : List Bytes)
    (tail : List ReadEvent) (o : Outcome ℕ)
    → node_at w.disk p ≡ some (file old)
    → w.net.reads ≡ chunks_then bs tail
    → All (λ b. is_empty b ≡ false) bs
    → length (concat bs) < max_size
    → ((g : AsyncFile) (v : World)
        → node_at v.disk p ≡ some (file (over_old old (written st (concat bs))))
        → Stored p
            (over_old old (written st (concat bs)))
            o
            (receive_loop st tail max_size g (length (concat bs)) v))
    → Stored p
        (over_old old (written st (concat bs)))
        o
        (receive_opened st false max_size (open_node p (node_at w.disk p)) w)
unfolding receive_opened receive_sought open_node
receive_opened-Stored st [] old w bs tail o at_p r ne b go = absurd (cc (at_p, node_at-top w.disk))
receive_opened-Stored st (c ∷ p) old w bs tail o at_p r ne b go =
    let f : AsyncFile = record {
      names = c ∷ p;
      size = length old;
      current_offset = 0;
      position = 0;
    } in
    rw at_p (
      subst
        (λ x.
          Stored (c ∷ p) (over_old old (written st (concat bs))) o
            (receive_loop st x max_size f 0 w))
        (sym r)
        (receive_loop-chunks st c p bs max_size f 0 w old (over_old old (written st (concat bs)))
          (length (concat bs)) tail o refl at_p (omega arith) (omega arith) b
          (overwrite-front old (written st (concat bs))) ne go))

-- An upload to a path that resolves to a file, whose last read fails, as the read at the end of a
-- connection does: the exception is passed on although all that was received is in the file, in
-- order, as the stream writes it, followed by what the file held behind that length before (the file
-- is not cut off).
pub receive_file_failed :
    (st : Stream) (path : Bytes) (p : Components) (old : Bytes) (bs : List Bytes) (m : Bytes)
    (rs : List ReadEvent) (w : World)
    → resolve_names w.disk path ≡ some p
    → node_at w.disk p ≡ some (file old)
    → w.net.reads ≡ chunks_then bs (read_failed m ∷ rs)
    → All (λ b. is_empty b ≡ false) bs
    → length (concat bs) < max_size
    → ((receive_file st path false max_size w).0 ≡ thrown m)
      × (node_at (receive_file st path false max_size w).1.disk p
          ≡ some (file (over_old old (written st (concat bs)))))
unfolding receive_file open_file
receive_file_failed st path p old bs m rs w at_path at_p r ne b =
    rw (at_path, open_file)
      (receive_opened-Stored st p old w bs (read_failed m ∷ rs) _ at_p r ne b
        (λ g v e. receive_loop-failed st p max_size g _ v _ m rs b e))
