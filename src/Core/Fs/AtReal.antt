-- ===== src/Core/Fs/AtReal.antt =====
-- The operations of the file system on the text of a canonical path: which nodes they touch.
use net_files.Base.{
  false, [], ◌∷◌, ◌++◌, Option, none, some, ◌≡◌, refl, sym, ◌∙◌, subst, ◌⊎◌, inl, inr, Bytes, codes,
  is_empty, if◌then◌else◌, append_assoc, flatten_with, Bool-cases, Outcome, done, thrown, pending,
  starts_with, equal,
}
use net_files.Core.Fs.Disk.{
  Components, Node, file, directory, link, Disk, node_at, components, is_absolute, render, is_under,
  same_path,
}
use net_files.Core.Fs.Walk.{move_of, is_dir_node}
use net_files.Core.Fs.Ops.{
  Checked, good, bad, not_found, busy, not_a_directory, erase_tree, make_dirs, message, raise,
  create_directories, create_directory, remove_all, remove_directory, remove, remove_file,
  remove_node, rename, rename_node, rename_onto, onto_ancestor, children, enter_dir, make_dirs-stay,
  make_dirs-into, set_node, rename_file, locate, move_tree,
}
use net_files.Core.Fs.Canonical.{
  IsSettled, node_at-top, Reached, top, down, IsReal, locate-render, components-render,
  Reached-Lacks,
}
use net_files.Core.Fs.Frame.{node_at-erase_tree, node_at-move_tree}

-- Every node outside of what lies at `p` or below is as before.
abbrev pub Beyond : Components → Disk → Disk → Type 0
Beyond p d e = (q : Components) → is_under p q ≡ false → node_at e q ≡ node_at d q

abbrev pub BeyondResult : Components → Disk → Checked Disk → Type 0
BeyondResult p d (good e) = Beyond p d e
BeyondResult p d (bad c) = Unit

abbrev pub BeyondOutcome : Components → Disk → Outcome Disk → Type 0
BeyondOutcome p d (done e) = Beyond p d e
BeyondOutcome p d (thrown m) = Unit
BeyondOutcome p d pending = Unit

raise-Beyond :
    (p : Components) (d : Disk) (m : Bytes) (c : Checked Disk)
    → BeyondResult p d c
    → BeyondOutcome p d (raise m c)
unfolding raise
raise-Beyond p d m (good e) h = h
raise-Beyond p d m (bad c) h = tt

remove_node-Beyond :
    (d : Disk) (p : Components) (n : Option Node) → BeyondResult p d (remove_node d p n)
unfolding remove_node
remove_node-Beyond d p none = λ q h. refl
remove_node-Beyond d [] (some directory) = tt
remove_node-Beyond d (c ∷ p) (some directory) =
    elim (Bool-cases (is_empty (children (c ∷ p) d.entries))) [
      | inl e ↦ rw e (λ q h. node_at-erase_tree (c ∷ p) q d h)
      | inr e ↦ rw e tt
    ]
remove_node-Beyond d p (some (file b)) = λ q h. node_at-erase_tree p q d h
remove_node-Beyond d p (some (link b)) = λ q h. node_at-erase_tree p q d h

erase_all-Beyond :
    (d : Disk) (p : Components)
    → BeyondResult p d (if is_empty p then bad busy else good (erase_tree p d))
erase_all-Beyond d [] = tt
erase_all-Beyond d (c ∷ p) = λ q h. node_at-erase_tree (c ∷ p) q d h

-- Removing a directory by its canonical path touches nothing but what lies at it or below.
pub remove_directory-Beyond :
    {d : Disk} (p : Components) → IsReal d p → BeyondOutcome p d (remove_directory d (render p))
unfolding remove_directory
remove_directory-Beyond {d} p r =
    rw (locate-render p r, remove_all) (raise-Beyond p d _ _ (erase_all-Beyond d p))

pub remove_file-Beyond :
    {d : Disk} (p : Components) → IsReal d p → BeyondOutcome p d (remove_file d (render p))
unfolding remove_file
remove_file-Beyond {d} p r =
    rw (locate-render p r, remove) (raise-Beyond p d _ _ (remove_node-Beyond d p (node_at d p)))

-- Every node that lies neither at or below `p` nor at or below `t` is as before.
abbrev pub Beyond₂ : Components → Components → Disk → Disk → Type 0
Beyond₂ p t d e =
    (q : Components) → is_under p q ≡ false → is_under t q ≡ false → node_at e q ≡ node_at d q

abbrev BeyondResult₂ : Components → Components → Disk → Checked Disk → Type 0
BeyondResult₂ p t d (good e) = Beyond₂ p t d e
BeyondResult₂ p t d (bad c) = Unit

abbrev pub BeyondOutcome₂ : Components → Components → Disk → Outcome Disk → Type 0
BeyondOutcome₂ p t d (done e) = Beyond₂ p t d e
BeyondOutcome₂ p t d (thrown m) = Unit
BeyondOutcome₂ p t d pending = Unit

module _ (d : Disk) (p t : Components) where
  moved-Beyond₂ : Beyond₂ p t d (move_tree p t d)
  moved-Beyond₂ q h k = node_at-move_tree p t q d h k

  rename_onto-Beyond₂ : (n : Node) (m : Option Node) → BeyondResult₂ p t d (rename_onto d p t n m)
  unfolding rename_onto
  rename_onto-Beyond₂ n none = moved-Beyond₂
  rename_onto-Beyond₂ directory (some directory) =
      elim (Bool-cases (is_empty (children t d.entries))) [
        | inl e ↦ rw e moved-Beyond₂
        | inr e ↦ rw e tt
      ]
  rename_onto-Beyond₂ directory (some (file b)) = tt
  rename_onto-Beyond₂ directory (some (link b)) = tt
  rename_onto-Beyond₂ (file b) (some directory) = tt
  rename_onto-Beyond₂ (link b) (some directory) = tt
  rename_onto-Beyond₂ (file b) (some (file b')) = moved-Beyond₂
  rename_onto-Beyond₂ (file b) (some (link b')) = moved-Beyond₂
  rename_onto-Beyond₂ (link b) (some (file b')) = moved-Beyond₂
  rename_onto-Beyond₂ (link b) (some (link b')) = moved-Beyond₂

  onto_ancestor-bad : (n : Node) → BeyondResult₂ p t d (onto_ancestor n)
  unfolding onto_ancestor
  onto_ancestor-bad directory = tt
  onto_ancestor-bad (file b) = tt
  onto_ancestor-bad (link b) = tt

  rename_node-Beyond₂ : (o : Option Node) → BeyondResult₂ p t d (rename_node d p t o)
  unfolding rename_node
  rename_node-Beyond₂ none = tt
  rename_node-Beyond₂ (some n) = elim (Bool-cases (same_path p t)) [
    | inl e ↦ rw e (λ q h k. refl)
    | inr e ↦ rw e (elim (Bool-cases (is_under p t)) [
      | inl u ↦ rw u tt
      | inr u ↦ rw u (elim (Bool-cases (is_under t p)) [
        | inl v ↦ rw v (onto_ancestor-bad n)
        | inr v ↦ rw v (rename_onto-Beyond₂ n (node_at d t))
      ])
    ])
  ]

  raise-Beyond₂ :
      (m : Bytes) (c : Checked Disk) → BeyondResult₂ p t d c → BeyondOutcome₂ p t d (raise m c)
  unfolding raise
  raise-Beyond₂ m (good e) h = h
  raise-Beyond₂ m (bad c) h = tt

-- A rename from what stands at `p` to a canonical path touches nothing but what lies at or below
-- the two.
pub rename_file-Beyond₂ :
    {d : Disk} (s : Bytes) (p t : Components)
    → locate d s ≡ some p
    → IsReal d t
    → BeyondOutcome₂ p t d (rename_file d s (render t))
unfolding rename_file
rename_file-Beyond₂ {d} s p t l r =
    rw (l, rename)
      (rw (locate-render t r) (raise-Beyond₂ d p t _ _ (rename_node-Beyond₂ d p t (node_at d p))))

-- Coming through a directory that is there already creates nothing.
make_dirs-Reached :
    {d : Disk} {p : Components} (r : Components)
    → Reached d p
    → node_at d p ≡ some directory
    → make_dirs d [] (p ++ r) ≡ make_dirs d p r
make_dirs-Reached r top n = refl
make_dirs-Reached {d} {p} r (down {p = b} c h nb m l e) n =
    rw (e, append_assoc)
      (make_dirs-Reached (c ∷ r) h nb
        ∙ make_dirs-into d b c r m
        ∙ rw (← e, n) (unfold enter_dir in refl))

make_dirs-IsReal :
    {d : Disk} (p : Components)
    → IsReal d p
    → make_dirs d [] p ≡ (if is_dir_node (node_at d p) then good d else bad not_a_directory)
make_dirs-IsReal {d} p (top, s) = rw (node_at-top d) (unfold make_dirs in refl)
make_dirs-IsReal {d} p (down {p = b} c h nb m l e, s) =
    subst
      (λ x. make_dirs d [] x ≡ (if is_dir_node (node_at d p) then good d else bad not_a_directory))
      (sym e)
      (make_dirs-Reached (c ∷ []) h nb
        ∙ make_dirs-into d b c [] m
        ∙ rw (← e) (settled (node_at d p) s))
  where
    settled :
        (n : Option Node)
        → IsSettled n
        → enter_dir d b
            (make_dirs (set_node p directory d) p [])
            (make_dirs d p [])
            (λ q. make_dirs d q [])
            n
          ≡ (if is_dir_node n then good d else bad not_a_directory)
    settled none s' = absurd s'
    settled (some (file t)) s' = unfold enter_dir in refl
    settled (some directory) s' = unfold enter_dir make_dirs in refl
    settled (some (link t)) s' = absurd s'

make_dirs-nil_name : (d : Disk) (r : Components) → make_dirs d [] ([] ∷ r) ≡ make_dirs d [] r
make_dirs-nil_name d r = make_dirs-stay d [] [] r (unfold move_of equal in refl)

make_dirs-render :
    {d : Disk} (p : Components)
    → IsReal d p
    → create_directories d (render p)
      ≡ (if is_dir_node (node_at d p) then good d else bad not_a_directory)
unfolding create_directories render components is_absolute starts_with flatten_with
make_dirs-render {d} [] r =
    make_dirs-nil_name d ([] ∷ []) ∙ make_dirs-nil_name d [] ∙ make_dirs-IsReal [] r
make_dirs-render {d} (c ∷ q) r =
    rw (components-render c q (Reached-Lacks r.0))
      (make_dirs-nil_name d (c ∷ q) ∙ make_dirs-IsReal (c ∷ q) r)

-- `create_directories` on a canonical path creates nothing: the tree is as it was, or the call fails
-- because a file stands there.
pub create_directory-IsReal :
    {d : Disk} (p : Components)
    → IsReal d p
    → (create_directory d (render p) ≡ done d)
      ⊎ ((m : Bytes) × (create_directory d (render p) ≡ thrown m))
unfolding create_directory raise
create_directory-IsReal {d} p r = elim (Bool-cases (is_dir_node (node_at d p))) [
  | inl e ↦ inl (rw (make_dirs-render p r) (rw e))
  | inr e ↦ inr (
    codes "Failed to create directory: " ++ message not_a_directory,
    rw (make_dirs-render p r) (rw e),
  )
]

pub rename_file-no_source :
    (d : Disk) (s t : Bytes)
    → locate d s ≡ none
    → rename_file d s t ≡ thrown (codes "Failed to rename: " ++ message not_found)
unfolding rename_file raise
rename_file-no_source d s t e = rw (e, rename)
