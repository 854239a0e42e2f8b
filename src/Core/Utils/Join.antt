-- ===== src/Core/Utils/Join.antt =====
-- `split`, `parseCmd`, `to_lower` and `to_Upper`, and what joining gives back.
use mathlib.Core.List.{concat-ne-nil}
use net_files.Base.{
  ◌∙◌, ap, sym, ℕ, ◌+◌, ◌-◌, List, [], ◌∷◌, ◌++◌, append_assoc, append-nil, ◌≡◌, ◌≢◌, refl, Bytes,
  All, All-append, Lacks, flatten_with, if◌then◌else◌, ◌==◌, within, arith, Bool-cases, ◌⊎◌, inl,
  inr,
}

-- `sv.find(delim)` from where the part `cur` starts, and the parts cut off before it.
split_from : ℕ → List Bytes → Bytes → Bytes → List Bytes
split_from delim parts cur [] = parts ++ cur ∷ []
split_from delim parts cur (c ∷ s) =
    let cut = split_from delim (parts ++ cur ∷ []) [] s in
    let grow = split_from delim parts (cur ++ c ∷ []) s in if c == delim then cut else grow

unfoldable pub split : Bytes → ℕ → List Bytes
unfolding split_from
split s delim = split_from delim [] [] s

-- `parseCmd`: at most one cut, at the first delimiter.
parse_cmd_from : ℕ → Bytes → Bytes → List Bytes
parse_cmd_from delim cur [] = cur ∷ []
parse_cmd_from delim cur (c ∷ s) =
    if c == delim then cur ∷ s ∷ [] else parse_cmd_from delim (cur ++ c ∷ []) s

unfoldable pub parse_cmd : Bytes → ℕ → List Bytes
unfolding parse_cmd_from
parse_cmd s delim = parse_cmd_from delim [] s

-- `std::tolower` and `std::toupper` in the C locale.
unfoldable pub tolower : ℕ → ℕ
tolower c = if within b'A' b'Z' c then c + 32 else c

unfoldable pub toupper : ℕ → ℕ
toupper c = if within b'a' b'z' c then c - 32 else c

unfoldable pub to_lower : Bytes → Bytes
unfolding tolower
to_lower [] = []
to_lower (c ∷ s) = tolower c ∷ to_lower s

unfoldable pub to_upper : Bytes → Bytes
unfolding toupper
to_upper [] = []
to_upper (c ∷ s) = toupper c ∷ to_upper s

-- The parts with the delimiter between them.
abbrev pub join : List Bytes → ℕ → Bytes
join [] delim = []
join (p ∷ ps) delim = p ++ flatten_with delim ps

flatten_with-append :
    (b : ℕ) (ps qs : List Bytes)
    → flatten_with b (ps ++ qs) ≡ flatten_with b ps ++ flatten_with b qs
unfolding flatten_with
flatten_with-append b [] qs = refl
flatten_with-append b (p ∷ ps) qs = simp (flatten_with-append b ps, append_assoc)

flatten_with-split_from :
    (d : ℕ) (s cur : Bytes) (parts : List Bytes)
    → flatten_with d (split_from d parts cur s) ≡ flatten_with d parts ++ (d ∷ (cur ++ s))
unfolding split_from flatten_with
flatten_with-split_from d [] cur parts = flatten_with-append d parts (cur ∷ [])
flatten_with-split_from d (c ∷ s) cur parts =
    grind (arith, flatten_with-split_from d s, flatten_with-append, append_assoc)

split_from-ne-nil : (d : ℕ) (s cur : Bytes) (parts : List Bytes) → split_from d parts cur s ≢ []
unfolding split_from
split_from-ne-nil d [] cur parts = concat-ne-nil cur parts
split_from-ne-nil d (c ∷ s) cur parts = grind (arith, split_from-ne-nil d s)

flatten_with-join : (d : ℕ) (ps : List Bytes) → ps ≢ [] → flatten_with d ps ≡ d ∷ join ps d
unfolding flatten_with
flatten_with-join d [] h = absurd (h refl)
flatten_with-join d (p ∷ ps) h = refl

-- Joining the parts that `split` makes, with the delimiter between them, gives the text back.
pub join-split : (s : Bytes) (delim : ℕ) → join (split s delim) delim ≡ s
unfolding split flatten_with
join-split s delim = cc (
  flatten_with-split_from delim s [] [],
  flatten_with-join delim _ (split_from-ne-nil delim s [] []),
)

split_from-Lacks :
    (d : ℕ) (s cur : Bytes) (parts : List Bytes)
    → Lacks d cur
    → All (Lacks d) parts
    → All (Lacks d) (split_from d parts cur s)
unfolding split_from
split_from-Lacks d [] cur parts h hp = All-append (Lacks d) parts (cur ∷ []) hp (h, tt)
split_from-Lacks d (c ∷ s) cur parts h hp = ground (
  arith,
  split_from-Lacks d s [] (parts ++ cur ∷ []) tt (All-append (Lacks d) parts (cur ∷ []) hp (h, tt)),
  λ (n : c ≢ d).
      split_from-Lacks d s (cur ++ c ∷ []) parts (All-append (λ b. b ≢ d) cur (c ∷ []) h (n, tt))
        hp,
)

-- No part that `split` makes holds the delimiter.
pub split-Lacks : (s : Bytes) (delim : ℕ) → All (Lacks delim) (split s delim)
unfolding split
split-Lacks s delim = split_from-Lacks delim s [] [] tt tt

split_from-parts :
    (d : ℕ) (s cur : Bytes) (parts : List Bytes)
    → split_from d parts cur s ≡ parts ++ split_from d [] cur s
unfolding split_from
split_from-parts d [] cur parts = refl
split_from-parts d (c ∷ s) cur parts = elim (Bool-cases (c == d)) [
  | inl e ↦ rw e (
      split_from-parts d s [] (parts ++ cur ∷ [])
      ∙ append_assoc parts (cur ∷ []) _
      ∙ ap (λ r. parts ++ r) (sym (split_from-parts d s [] (cur ∷ []))))
  | inr e ↦ rw e (split_from-parts d s (cur ++ c ∷ []) parts)
]

split_from-first :
    (d : ℕ) (p cur s : Bytes)
    → Lacks d p
    → split_from d [] cur (p ++ (d ∷ s)) ≡ (cur ++ p) ∷ split_from d [] [] s
unfolding split_from
split_from-first d [] cur s h = ground (arith, split_from-parts d s [] (cur ∷ []), append-nil cur)
split_from-first d (c ∷ p) cur s (n, h) =
    ground (arith, split_from-first d p (cur ++ c ∷ []) s h, append_assoc cur (c ∷ []) p)

split_from-only : (d : ℕ) (p cur : Bytes) → Lacks d p → split_from d [] cur p ≡ (cur ++ p) ∷ []
unfolding split_from
split_from-only d [] cur h = rw (append-nil cur)
split_from-only d (c ∷ p) cur (n, h) =
    ground (arith, split_from-only d p (cur ++ c ∷ []) h, append_assoc cur (c ∷ []) p)

-- A part without the delimiter is cut off in front of it.
pub split-first :
    (delim : ℕ) (p s : Bytes) → Lacks delim p → split (p ++ (delim ∷ s)) delim ≡ p ∷ split s delim
unfolding split
split-first delim p s h = split_from-first delim p [] s h

-- A text without the delimiter is its own only part.
pub split-only : (delim : ℕ) (p : Bytes) → Lacks delim p → split p delim ≡ p ∷ []
unfolding split
split-only delim p h = split_from-only delim p [] h

-- The two shapes of a command line's split.
abbrev pub SplitOnce : ℕ → Bytes → List Bytes → Type 0
SplitOnce d s parts =
    ((parts ≡ s ∷ []) × Lacks d s)
    ⊎ ((c : Bytes) × (a : Bytes) × (parts ≡ c ∷ a ∷ []) × Lacks d c × (s ≡ c ++ (d ∷ a)))

parse_cmd_from-SplitOnce :
    (d : ℕ) (s cur : Bytes) → Lacks d cur → SplitOnce d (cur ++ s) (parse_cmd_from d cur s)
unfolding parse_cmd_from
parse_cmd_from-SplitOnce d [] cur h = rw append-nil (inl (refl, h))
parse_cmd_from-SplitOnce d (c ∷ s) cur h = elim (Bool-cases (c == d)) [
  | inl e ↦ rw e (inr (cur, s, refl, h, ground arith))
  | inr e ↦
      rw (e, ← append_assoc cur (c ∷ []) s)
        (parse_cmd_from-SplitOnce d s (cur ++ c ∷ [])
          (All-append (λ b. b ≢ d) cur (c ∷ []) h (ground arith, tt)))
]

-- `parseCmd` gives the whole text when it holds no delimiter, and otherwise what stands before and
-- behind the first one: the first part never holds the delimiter, and nothing is lost.
pub parse_cmd-SplitOnce : (s : Bytes) (delim : ℕ) → SplitOnce delim s (parse_cmd s delim)
unfolding parse_cmd
parse_cmd-SplitOnce s delim = parse_cmd_from-SplitOnce delim s [] tt

toupper-tolower : (c : ℕ) → (toupper (tolower c) ≡ toupper c) × (tolower (toupper c) ≡ tolower c)
unfolding toupper tolower
toupper-tolower c = ground arith

-- The two case conversions undo one another up to case: each absorbs the other.
pub to_upper-to_lower :
    (s : Bytes) → (to_upper (to_lower s) ≡ to_upper s) × (to_lower (to_upper s) ≡ to_lower s)
unfolding to_upper to_lower
to_upper-to_lower [] = (refl, refl)
to_upper-to_lower (c ∷ s) = ground (arith, toupper-tolower c, to_upper-to_lower s)
