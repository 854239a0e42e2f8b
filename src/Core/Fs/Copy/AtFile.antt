-- ===== src/Core/Fs/Copy/AtFile.antt =====
-- Writing a file and copying onto one, at a canonical path: what changes, and what stays.
use net_files.Base.{
  Bool, true, false, [], ◌∷◌, Option, none, some, ◌≡◌, refl, ◌∙◌, Bytes, if◌then◌else◌, arith,
  Bool-cases, Option-cases, inl, inr,
}
use net_files.Core.Fs.AtReal.{BeyondResult}
use net_files.Core.Fs.Canonical.{Reached, top, down, IsReal, resolve_names-render}
use net_files.Core.Fs.Copy.{write_node, write_whole, copy_from, copy_file}
use net_files.Core.Fs.Disk.{
  Components, Node, file, directory, link, Disk, same_path, same_path_iff, is_under, node_at,
  render,
}
use net_files.Core.Fs.Frame.{is_under_refl, node_at-set_node, node_at-set_node_self}
use net_files.Core.Fs.Ops.{good, bad, set_node, file_exists}
use net_files.Core.Fs.Walk.{resolve_names}

is_under→same_path : (p q : Components) → is_under p q ≡ false → same_path p q ≡ false
is_under→same_path p q h = ground (arith, same_path_iff p q, is_under_refl p)

write_node-Beyond :
    (d : Disk) (q : Components) (content : Bytes) (n : Option Node)
    → BeyondResult q d (write_node d q content n)
unfolding write_node
write_node-Beyond d q content none = tt
write_node-Beyond d q content (some directory) = tt
write_node-Beyond d q content (some (link t)) = tt
write_node-Beyond d q content (some (file b)) =
    λ k h. node_at-set_node q k (file content) d (is_under→same_path q k h)

-- Writing by a canonical path touches no other node.
pub write_whole-Beyond :
    {d : Disk} (q : Components) (content : Bytes)
    → IsReal d q
    → BeyondResult q d (write_whole d (render q) content)
unfolding write_whole
write_whole-Beyond {d} q content r =
    rw (resolve_names-render q r, write_whole) (write_node-Beyond d q content (node_at d q))

pub write_whole-IsReal :
    {d : Disk} (q : Components) (old content : Bytes)
    → IsReal d q
    → node_at d q ≡ some (file old)
    → write_whole d (render q) content ≡ good (set_node q (file content) d)
unfolding write_whole
write_whole-IsReal {d} q old content r e =
    rw (resolve_names-render q r, write_whole) (rw e (unfold write_node in refl))

copy_from-Beyond :
    {d : Disk} (p q : Components) (n : Option Node)
    → IsReal d q
    → BeyondResult q d (copy_from d p (render q) n)
unfolding copy_from
copy_from-Beyond p q none r = tt
copy_from-Beyond p q (some directory) r = tt
copy_from-Beyond p q (some (link t)) r = tt
copy_from-Beyond {d} p q (some (file content)) r =
    rw (resolve_names-render q r, copy_from) (by_test (same_path p q))
  where
    by_test :
        (b : Bool)
        → BeyondResult q d (if b then bad file_exists else write_node d q content (node_at d q))
    by_test true = tt
    by_test false = write_node-Beyond d q content (node_at d q)

-- Copying a file onto a canonical path touches no other node.
pub copy_file-Beyond :
    {d : Disk} (s : Bytes) (q : Components)
    → IsReal d q
    → BeyondResult q d (copy_file d s (render q))
unfolding copy_file
copy_file-Beyond {d} s q r = elim (Option-cases (resolve_names d s)) [
  | inl e ↦ rw (e, copy_file) tt
  | inr (p, e) ↦ rw (e, copy_file) (copy_from-Beyond p q (node_at d p) r)
]

-- Copying one file onto another puts the content of the first into the second.
pub copy_file-IsReal :
    {d : Disk} (p q : Components) (content old : Bytes)
    → IsReal d p
    → IsReal d q
    → node_at d p ≡ some (file content)
    → node_at d q ≡ some (file old)
    → same_path p q ≡ false
    → copy_file d (render p) (render q) ≡ good (set_node q (file content) d)
unfolding copy_file copy_from
copy_file-IsReal {d} p q content old rp rq at_p at_q apart =
    rw (resolve_names-render p rp, copy_file)
      (rw (at_p, copy_from)
        (rw (resolve_names-render q rq, copy_from)
          (rw apart (rw at_q (unfold write_node in refl)))))

-- Writing a file that is there leaves every way to a node as it was.
pub Reached-set_node :
    {d : Disk} (t : Components) (old new : Bytes) {q : Components}
    → node_at d t ≡ some (file old)
    → Reached d q
    → Reached (set_node t (file new) d) q
Reached-set_node t old new at_t top = top
Reached-set_node {d} t old new at_t (down {p} c r n m l e) =
    down c (Reached-set_node t old new at_t r) (node_at-set_node t p (file new) d apart ∙ n) m l e
  where
    apart : same_path t p ≡ false
    apart = elim (Bool-cases (same_path t p)) [
      | inl same ↦ let e : t ≡ p = ground (arith, same_path_iff t p) in absurd (cc)
      | inr e ↦ e
    ]

pub node_at-set_file :
    (d : Disk) (t : Components) (old new : Bytes)
    → node_at d t ≡ some (file old)
    → node_at (set_node t (file new) d) t ≡ some (file new)
unfolding node_at
node_at-set_file d [] old new h = absurd (cc)
node_at-set_file d (c ∷ t) old new h = node_at-set_node_self c t (file new) d

-- The file that was written is still found by its canonical path.
pub set_node-IsReal :
    {d : Disk} (t : Components) (old new : Bytes)
    → IsReal d t
    → node_at d t ≡ some (file old)
    → IsReal (set_node t (file new) d) t
set_node-IsReal {d} t old new r h =
    (Reached-set_node t old new h r.0, rw (node_at-set_file d t old new h) tt)
