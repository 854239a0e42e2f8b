-- ===== src/Core/Fs/Frame.antt =====
-- Looking a path up after a change of the tree: what each change leaves alone.
use net_files.Base.{
  true, false, [], ◌∷◌, ◌++◌, some, ◌≡◌, refl, equal_iff, Bytes, arith, length, drop, ◌∙◌,
}
use net_files.Core.Fs.Disk.{
  Components, Node, Entries, Disk, same_path, same_path_iff, is_under, find_entry, node_at,
}
use net_files.Core.Fs.Ops.{erase_under, erase_entry, set_node, erase_tree, move_entries, move_tree}

pub is_under-append : (p r : Components) → is_under p (p ++ r) ≡ true
unfolding is_under
is_under-append [] r = refl
is_under-append (x ∷ p) r = ground (arith, is_under-append p r, equal_iff x x)

pub is_under-split : (p q : Components) → is_under p q ≡ true → (r : Components) × (q ≡ p ++ r)
unfolding is_under
is_under-split [] q h = (q, refl)
is_under-split (x ∷ p) [] h = cc
is_under-split (x ∷ p) (y ∷ q) h =
    let (r, e) = is_under-split p q (ground arith) in (r, ground (arith, equal_iff x y))

pub is_under_refl : (p : Components) → is_under p p ≡ true
unfolding is_under
is_under_refl [] = refl
is_under_refl (x ∷ p) = ground (arith, is_under_refl p, equal_iff x x)

pub find_entry-erase_under :
    (p q : Components) (es : Entries)
    → is_under p q ≡ false
    → find_entry q (erase_under p es) ≡ find_entry q es
unfolding find_entry erase_under
find_entry-erase_under p q [] h = refl
find_entry-erase_under p q ((k, n) ∷ es) h =
    ground (arith, same_path_iff k q, find_entry-erase_under p q es h)

pub find_entry-erase_entry :
    (p q : Components) (es : Entries)
    → same_path p q ≡ false
    → find_entry q (erase_entry p es) ≡ find_entry q es
unfolding find_entry erase_entry
find_entry-erase_entry p q [] h = refl
find_entry-erase_entry p q ((k, n) ∷ es) h = ground (
  arith,
  same_path_iff k q,
  same_path_iff k p,
  same_path_iff p q,
  find_entry-erase_entry p q es h,
)

pub find_entry-move_entries :
    (p t q : Components) (es : Entries)
    → is_under p q ≡ false
    → is_under t q ≡ false
    → find_entry q (move_entries p t es) ≡ find_entry q es
unfolding find_entry move_entries
find_entry-move_entries p t q [] h k = refl
find_entry-move_entries p t q ((i, n) ∷ es) h k = ground (
  arith,
  same_path_iff i q,
  same_path_iff (t ++ drop (length p) i) q,
  is_under-append t (drop (length p) i),
  find_entry-move_entries p t q es h k,
)

pub node_at-set_node :
    (p q : Components) (n : Node) (d : Disk)
    → same_path p q ≡ false
    → node_at (set_node p n d) q ≡ node_at d q
unfolding node_at set_node
node_at-set_node p [] n d h = refl
node_at-set_node p (c ∷ q) n d h = ground (arith, find_entry-erase_entry p (c ∷ q) d.entries h)

pub node_at-set_node_self :
    (c : Bytes) (p : Components) (n : Node) (d : Disk)
    → node_at (set_node (c ∷ p) n d) (c ∷ p) ≡ some n
unfolding node_at set_node
node_at-set_node_self c p n d = ground (arith, same_path_iff (c ∷ p) (c ∷ p))

pub node_at-erase_tree :
    (p q : Components) (d : Disk) → is_under p q ≡ false → node_at (erase_tree p d) q ≡ node_at d q
unfolding node_at erase_tree
node_at-erase_tree p [] d h = refl
node_at-erase_tree p (c ∷ q) d h = find_entry-erase_under p (c ∷ q) d.entries h

pub node_at-move_tree :
    (p t q : Components) (d : Disk)
    → is_under p q ≡ false
    → is_under t q ≡ false
    → node_at (move_tree p t d) q ≡ node_at d q
unfolding node_at move_tree
node_at-move_tree p t [] d h k = refl
node_at-move_tree p t (c ∷ q) d h k =
    find_entry-move_entries p t (c ∷ q) _ h k ∙ find_entry-erase_under t (c ∷ q) d.entries k
