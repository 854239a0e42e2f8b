-- ===== src/StringUtil/Modern/Cut/Trim.antt =====
-- What `trim` of netfiles/src/stringUtil.h takes away, and what it leaves.
use net_files.Base.{
  ℕ, Bool, true, false, not, ◌&&◌, [], ◌∷◌, ◌++◌, ◌≡◌, refl, ap, ◌∙◌, Bytes, is_empty, All, arith,
  Bool-cases, inl, inr,
}
use net_files.StringUtil.Modern.Cut.{is_one_of, trim_left, trim_right, trim_chars}

module _ (chars : Bytes) where
  abbrev pub AllOf : Bytes → Type 0
  AllOf = All (λ c. is_one_of chars c ≡ true)

  trim_left_splits : (s : Bytes) → (front : Bytes) × AllOf front × (s ≡ front ++ trim_left chars s)
  unfolding trim_left
  trim_left_splits [] = ([], tt, refl)
  trim_left_splits (c ∷ s) = elim (Bool-cases (is_one_of chars c)) [
    | inl e ↦
        let (front, h, same) = trim_left_splits s in rw e (c ∷ front, (e, h), ap (λ r. c ∷ r) same)
    | inr e ↦ rw e ([], tt, refl)
  ]

  nil_of_empty : (s : Bytes) → is_empty s ≡ true → s ≡ []
  nil_of_empty [] e = refl
  nil_of_empty (c ∷ s) e = cc

  both_true : (a b : Bool) → (a && b) ≡ true → (a ≡ true) × (b ≡ true)
  both_true a b e = (ground arith, ground arith)

  trim_right_splits : (s : Bytes) → (back : Bytes) × AllOf back × (s ≡ trim_right chars s ++ back)
  unfolding trim_right
  trim_right_splits [] = ([], tt, refl)
  trim_right_splits (c ∷ s) =
      let (back, h, same) = trim_right_splits s in
      elim (Bool-cases (is_one_of chars c && is_empty (trim_right chars s))) [
        | inl e ↦
            let (one, none_left) = both_true (is_one_of chars c) _ e in
            let all_back : s ≡ back =
              same ∙ ap (λ r. r ++ back) (nil_of_empty (trim_right chars s) none_left) in
            rw e (c ∷ back, (one, h), ap (λ r. c ∷ r) all_back)
        | inr e ↦ rw e (back, h, ap (λ r. c ∷ r) same)
      ]

  -- The text does not begin with one of the characters.
  abbrev pub starts_free : Bytes → Bool
  starts_free [] = true
  starts_free (c ∷ s) = not (is_one_of chars c)

  starts_free-trim_left : (s : Bytes) → starts_free (trim_left chars s) ≡ true
  unfolding trim_left
  starts_free-trim_left [] = refl
  starts_free-trim_left (c ∷ s) = elim (Bool-cases (is_one_of chars c)) [
    | inl e ↦ rw e (starts_free-trim_left s)
    | inr e ↦ rw e (rw e refl)
  ]

  starts_free-trim_right :
      (s : Bytes) → starts_free s ≡ true → starts_free (trim_right chars s) ≡ true
  unfolding trim_right
  starts_free-trim_right [] h = refl
  starts_free-trim_right (c ∷ s) h =
      let e : is_one_of chars c ≡ false = ground arith in rw e (rw e refl)

  -- The text does not end with one of the characters.
  abbrev pub ends_free : Bytes → Bool
  ends_free [] = true
  ends_free (c ∷ []) = not (is_one_of chars c)
  ends_free (c ∷ x ∷ s) = ends_free (x ∷ s)

  ends_free-cons :
      (c : ℕ) (s : Bytes)
      → (is_one_of chars c && is_empty s) ≡ false
      → ends_free s ≡ true
      → ends_free (c ∷ s) ≡ true
  ends_free-cons c [] e h = ground arith
  ends_free-cons c (x ∷ s) e h = h

  ends_free-trim_right : (s : Bytes) → ends_free (trim_right chars s) ≡ true
  unfolding trim_right
  ends_free-trim_right [] = refl
  ends_free-trim_right (c ∷ s) =
      elim (Bool-cases (is_one_of chars c && is_empty (trim_right chars s))) [
        | inl e ↦ rw e refl
        | inr e ↦ rw e (ends_free-cons c (trim_right chars s) e (ends_free-trim_right s))
      ]

  -- `t` is `s` without the characters of the set at its ends.
  pub record IsTrimmed (s t : Bytes) : Type 0 where
    pub front : Bytes
    pub back : Bytes
    pub front_taken : AllOf front
    pub back_taken : AllOf back
    pub between : s ≡ front ++ (t ++ back)
    pub begins : starts_free t ≡ true
    pub ends : ends_free t ≡ true

  -- Trimming takes away characters of the set only, at both ends, and all of them: what is left neither
  -- begins nor ends with one of the set.
  pub trim_chars-IsTrimmed : (s : Bytes) → IsTrimmed s (trim_chars chars s)
  unfolding trim_chars
  trim_chars-IsTrimmed s =
      let (start, h, same) = trim_left_splits s in
      let (end, k, rest) = trim_right_splits (trim_left chars s) in
      record {
        front = start;
        back = end;
        front_taken = h;
        back_taken = k;
        between = same ∙ ap (λ r. start ++ r) rest;
        begins = starts_free-trim_right (trim_left chars s) (starts_free-trim_left s);
        ends = ends_free-trim_right (trim_left chars s);
      }
