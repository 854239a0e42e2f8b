-- ===== src/Core/Utils/Lines.antt =====
-- `std::getline` repeated over a text, as the user store and the header parser call it.
use net_files.Base.{
  ℕ, Bool, drop_last, false, List, [], ◌∷◌, ◌++◌, append_assoc, append-nil, ◌≡◌, Bytes, is_empty,
  if◌then◌else◌, ◌==◌, Lacks, arith,
}

-- What repeated `std::getline` with a delimiter gives: a last part only if it is not empty.
unfoldable pub getlines : ℕ → Bytes → Bytes → List Bytes
getlines delim cur [] = if is_empty cur then [] else cur ∷ []
getlines delim cur (c ∷ s) =
    let cut = cur ∷ getlines delim [] s in
    let grow = getlines delim (cur ++ c ∷ []) s in if c == delim then cut else grow

unfoldable pub ends_in_cr : Bytes → Bool
ends_in_cr [] = false
ends_in_cr (c ∷ []) = c == 13
ends_in_cr (c ∷ d ∷ s) = ends_in_cr (d ∷ s)

-- `line.pop_back()` when the last character is CR.
unfoldable pub drop_cr : Bytes → Bytes
unfolding ends_in_cr
drop_cr s = if ends_in_cr s then drop_last s else s

pub getlines-part :
    (d : ℕ) (p cur s : Bytes)
    → Lacks d p
    → getlines d cur (p ++ (d ∷ s)) ≡ (cur ++ p) ∷ getlines d [] s
unfolding getlines
getlines-part d [] cur s h = ground (arith, append-nil cur)
getlines-part d (c ∷ p) cur s (n, h) =
    ground (arith, getlines-part d p (cur ++ c ∷ []) s h, append_assoc cur (c ∷ []) p)

pub getlines-last :
    (d : ℕ) (p cur : Bytes)
    → Lacks d p
    → is_empty (cur ++ p) ≡ false
    → getlines d cur p ≡ (cur ++ p) ∷ []
unfolding getlines
getlines-last d [] [] h e = absurd (ground arith)
getlines-last d [] (x ∷ cur) h e = rw (append-nil cur)
getlines-last d (c ∷ p) cur (n, h) e =
    ground (arith, getlines-last d p (cur ++ c ∷ []) h, append_assoc cur (c ∷ []) p)
