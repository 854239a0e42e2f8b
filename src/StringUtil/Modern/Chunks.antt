-- ===== src/StringUtil/Modern/Chunks.antt =====
-- What `split_chunks`, `serialize` and `split` of `ModernString` (netfiles/src/stringUtil.h) keep of a text.
use native.Mathlib.Omega.{div_fact, mod_fact}
use net_files.Base.{
  drop-drop, drop_all, length-take, ◌≢◌, Lacks, All-append, ℕ, zero, suc, ◌+◌, ◌-◌, ◌*◌, ◌/◌, ◌%◌,
  ◌^◌, ◌≤◌, ◌<◌, Bool, true, false, List, [], ◌∷◌, ◌++◌, ◌≡◌, refl, sym, ap, ◌∙◌, Bytes, is_empty,
  take, drop, length, if◌then◌else◌, ltb, min, ◌==◌, done, All, arith, append_assoc, append-nil,
  length-drop, take-append-drop, Bool-cases, inl, inr,
}
use net_files.Core.Utils.{split, split-first, split-only}
use net_files.StringUtil.Modern.{
  chunks_from, split_chunks, keep_part, split_part, split_char, four_bytes, serialize, deserialize,
}

-- The pieces put together.
abbrev pub pieces : List Bytes → Bytes
pieces [] = []
pieces (c ∷ cs) = c ++ pieces cs

take-min : (k : ℕ) (s : Bytes) → take (min k (length s)) s ≡ take k s
take-min zero s = ap (λ m. take m s) {x = min zero (length s)} {y = zero} (omega arith)
take-min (suc k) [] = ap (λ m. take {A = ℕ} m []) {x = min (suc k) 0} {y = 0} (omega arith)
take-min (suc k) (c ∷ s) =
    ap (λ m. take m (c ∷ s)) {x = min (suc k) (suc (length s))} {y = suc (min k (length s))}
      (omega arith)
    ∙ ap (λ r. c ∷ r) (take-min k s)

module _ (s : Bytes) (n : ℕ) where
  pieces-chunks_from :
      (left i : ℕ)
      → length s ≤ i * suc n + left * suc n
      → pieces (chunks_from left i (suc n) s) ≡ drop (i * suc n) s
  unfolding chunks_from
  pieces-chunks_from zero i h = sym (drop_all (i * suc n) s (omega (arith, h)))
  pieces-chunks_from (suc left) i h =
      let m = i * suc n in
      let next : suc i * suc n ≡ m + suc n = omega arith in
      ap (λ r. take (min (suc n) r) (drop m s) ++ pieces (chunks_from left (suc i) (suc n) s))
        {x = length s - m} {y = length (drop m s)} (omega (arith, length-drop m s))
      ∙ ap (λ r. r ++ pieces (chunks_from left (suc i) (suc n) s)) (take-min (suc n) (drop m s))
      ∙ ap (λ r. take (suc n) (drop m s) ++ r)
          (pieces-chunks_from left (suc i) (omega (arith, next, h))
            ∙ ap (λ k. drop k s) next
            ∙ sym (drop-drop m (suc n) s))
      ∙ take-append-drop (suc n) (drop m s)

  chunks_from-Short : (left i : ℕ) → All (λ c. length c ≤ suc n) (chunks_from left i (suc n) s)
  unfolding chunks_from
  chunks_from-Short zero i = tt
  chunks_from-Short (suc left) i = (
    omega (arith, length-take (min (suc n) (length s - i * suc n)) (drop (i * suc n) s)),
    chunks_from-Short left (suc i),
  )

-- Cutting a text into chunks of a size that is not zero loses nothing: put together again the chunks are
-- the text, and none of them is longer than the size.
pub pieces-split_chunks :
    (s : Bytes) (n : ℕ)
    → (pieces (split_chunks s (suc n)) ≡ s) × All (λ c. length c ≤ suc n) (split_chunks s (suc n))
unfolding split_chunks
pieces-split_chunks s n =
    let count = (length s + suc n - 1) / suc n in
    let whole : suc n * count + (length s + suc n - 1) % suc n ≡ length s + suc n - 1 =
      div_fact (length s + suc n - 1) n in
    let part : (length s + suc n - 1) % suc n < suc n = mod_fact (length s + suc n - 1) n in
    (
      pieces-chunks_from s n count 0 (omega (arith, whole, part))
          ∙ ap (λ k. drop k s) {x = 0 * suc n} {y = 0} (omega arith),
      chunks_from-Short s n count 0,
    )

-- A text that was serialized is read back up to the length that its four bytes can say: all of it when it
-- is shorter than 4 GiB, and otherwise what is left of the length modulo that.
pub deserialize-serialize :
    (s : Bytes) → deserialize (serialize s) ≡ done (take (length s % 2 ^ 32) s)
unfolding deserialize serialize four_bytes
deserialize-serialize s =
    let l = length s % 2 ^ 32 in
    let len : l % 256
          + l / 256 % 256 * 256
          + l / 65536 % 256 * 65536
          + l / 16777216 % 256 * 16777216
        ≡ l =
      omega arith in
    let fits : ltb (length s + 4) (4 + l) ≡ false = ground arith in rw len (rw fits refl)

-- The parts that are not empty.
abbrev pub filled_parts : List Bytes → List Bytes
filled_parts [] = []
filled_parts (p ∷ ps) = let rest = filled_parts ps in if is_empty p then rest else p ∷ rest

abbrev pub kept_parts : Bool → List Bytes → List Bytes
kept_parts skip_empty ps = if skip_empty then filled_parts ps else ps

keep_part-kept :
    (b : Bool) (p : Bytes) (ps : List Bytes)
    → keep_part b p (kept_parts b ps) ≡ kept_parts b (p ∷ ps)
unfolding keep_part
keep_part-kept true p ps = refl
keep_part-kept false p ps = refl

keep_last : (b : Bool) (p : Bytes) → keep_part b p [] ≡ kept_parts b (p ∷ [])
unfolding keep_part
keep_last true p = refl
keep_last false p = refl

split_part-split :
    (d : ℕ) (b : Bool) (part s : Bytes)
    → Lacks d part
    → split_part d b part s ≡ kept_parts b (split (part ++ s) d)
unfolding split_part
split_part-split d b part [] h =
    keep_last b part
    ∙ ap (λ ps. kept_parts b ps) (sym (split-only d part h))
    ∙ ap (λ x. kept_parts b (split x d)) (sym (append-nil part))
split_part-split d b part (c ∷ s) h = elim (Bool-cases (c == d)) [
  | inl e ↦
      let same : d ≡ c = ground arith in
      rw e (
        ap (λ ps. keep_part b part ps) (split_part-split d b [] s tt)
        ∙ keep_part-kept b part (split s d)
        ∙ ap (λ ps. kept_parts b ps) (sym (split-first d part s h))
        ∙ ap (λ x. kept_parts b (split (part ++ (x ∷ s)) d)) same)
  | inr e ↦ rw e (
      split_part-split d b (part ++ c ∷ []) s
        (All-append (λ x. x ≢ d) part (c ∷ []) h (ground arith, tt))
      ∙ ap (λ t. kept_parts b (split t d)) (append_assoc part (c ∷ []) s))
]

-- `ModernString::split` at a character gives the parts that `utils::split` gives, and when empty parts are
-- skipped those of them that are not empty.
pub split_char-split :
    (s : Bytes) (d : ℕ)
    → (split_char s d false ≡ split s d) × (split_char s d true ≡ filled_parts (split s d))
unfolding split_char
split_char-split s d = (split_part-split d false [] s tt, split_part-split d true [] s tt)
