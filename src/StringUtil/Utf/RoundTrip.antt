-- ===== src/StringUtil/Utf/RoundTrip.antt =====
-- The portable conversions of netfiles/src/stringUtil.h undo each other on code points.
use Prim.Native.Nat.{bit_or}
use net_files.Base.{
  ℕ, zero, suc, ◌+◌, ◌-◌, ◌*◌, ◌/◌, ◌%◌, ◌^◌, ◌<◌, Bool, true, false, if◌then◌else◌, List, [], ◌∷◌,
  ◌++◌, ◌≡◌, ◌≢◌, refl, ap, ◌∙◌, Bytes, ◌==◌, ltb, within, All, arith, Bool-cases, inl, inr,
}
use net_files.StringUtil.Utf.{
  text, push, utf8_from, utf8_to_utf32, continuation, utf8_of, utf32_to_utf8, encode_utf8, is_high,
  utf16_to_utf32, encode_utf16, utf32_to_utf16, to_utf16, from_utf16,
}

-- Putting in the bits of any number under the bound is adding it to the mark.
marks_add : ℕ → ℕ → Bool
marks_add mark zero = true
marks_add mark (suc low) =
    let rest = marks_add mark low in if bit_or mark low == mark + low then rest else false

or_marks : (bound mark x : ℕ) → marks_add mark bound ≡ true → x < bound → bit_or mark x ≡ mark + x
unfolding marks_add
or_marks zero mark x tested below = absurd (omega arith)
or_marks (suc low) mark x tested below = elim (Bool-cases (x == low)) [
  | inl e ↦ ground arith
  | inr e ↦ or_marks low mark x (ground arith) (ground arith)
]

or_0x80 : (x : ℕ) → x < 64 → bit_or 0x80 x ≡ 0x80 + x
unfolding marks_add
or_0x80 x h = or_marks 64 0x80 x refl h

or_0xC0 : (x : ℕ) → x < 32 → bit_or 0xC0 x ≡ 0xC0 + x
unfolding marks_add
or_0xC0 x h = or_marks 32 0xC0 x refl h

or_0xE0 : (x : ℕ) → x < 16 → bit_or 0xE0 x ≡ 0xE0 + x
unfolding marks_add
or_0xE0 x h = or_marks 16 0xE0 x refl h

or_0xF0 : (x : ℕ) → x < 8 → bit_or 0xF0 x ≡ 0xF0 + x
unfolding marks_add
or_0xF0 x h = or_marks 8 0xF0 x refl h

or_0xD800 : (x : ℕ) → x < 1024 → bit_or 0xD800 x ≡ 0xD800 + x
unfolding marks_add
or_0xD800 x h = or_marks 1024 0xD800 x refl h

or_0xDC00 : (x : ℕ) → x < 1024 → bit_or 0xDC00 x ≡ 0xDC00 + x
unfolding marks_add
or_0xDC00 x h = or_marks 1024 0xDC00 x refl h

continuation_sum : (x : ℕ) → continuation x ≡ 0x80 + x % 2 ^ 6
continuation_sum x = or_0x80 (x % 2 ^ 6) (omega arith)

-- Each form that a code point is written in is read back.
module _ (c : ℕ) (s : Bytes) where
  utf8_from-two :
      c < 0x800
      → (ltb c 0x80 ≡ false)
      → utf8_from 0 0 (((0xC0 + c / 2 ^ 6) % 2 ^ 8) ∷ (0x80 + c % 2 ^ 6) ∷ s)
        ≡ push c (utf8_from 0 0 s)
  unfolding utf8_from
  utf8_from-two h k = let e : c / 2 ^ 6 * 2 ^ 6 + c % 2 ^ 6 ≡ c = omega arith in ground arith

  utf8_from-three :
      c < 0x10000
      → (ltb c 0x800 ≡ false)
      → utf8_from 0 0
          (((0xE0 + c / 2 ^ 12) % 2 ^ 8) ∷ (0x80 + c / 2 ^ 6 % 2 ^ 6) ∷ (0x80 + c % 2 ^ 6) ∷ s)
        ≡ push c (utf8_from 0 0 s)
  unfolding utf8_from
  utf8_from-three h k =
      let e : (c / 2 ^ 12 * 2 ^ 6 + c / 2 ^ 6 % 2 ^ 6) * 2 ^ 6 + c % 2 ^ 6 ≡ c = omega arith in
      ground arith

  utf8_from-four :
      c < 0x200000
      → (ltb c 0x10000 ≡ false)
      → utf8_from 0 0 (
          ((0xF0 + c / 2 ^ 18) % 2 ^ 8)
          ∷ (0x80 + c / 2 ^ 12 % 2 ^ 6)
          ∷ (0x80 + c / 2 ^ 6 % 2 ^ 6)
          ∷ (0x80 + c % 2 ^ 6)
          ∷ s)
        ≡ push c (utf8_from 0 0 s)
  unfolding utf8_from
  utf8_from-four h k =
      let e : ((c / 2 ^ 18 * 2 ^ 6 + c / 2 ^ 12 % 2 ^ 6) * 2 ^ 6 + c / 2 ^ 6 % 2 ^ 6) * 2 ^ 6
            + c % 2 ^ 6
          ≡ c =
        omega arith in
      ground arith

  utf8_from-utf8_of : c < 0x200000 → utf8_from 0 0 (utf8_of c ++ s) ≡ push c (utf8_from 0 0 s)
  unfolding utf8_of
  utf8_from-utf8_of h = elim (Bool-cases (ltb c 0x80)) [
    | inl one ↦ rw one (unfold utf8_from in ground arith)
    | inr a ↦ elim (Bool-cases (ltb c 0x800)) [
      | inl two ↦
          rw (a, two)
            (rw (or_0xC0 (c / 2 ^ 6) (ground arith), continuation_sum c)
              (utf8_from-two (ground arith) a))
      | inr b ↦ elim (Bool-cases (ltb c 0x10000)) [
        | inl three ↦
            rw (a, b, three)
              (rw
                (
                  or_0xE0 (c / 2 ^ 12) (ground arith),
                  continuation_sum c,
                  continuation_sum (c / 2 ^ 6),
                )
                (utf8_from-three (ground arith) b))
        | inr d ↦
            rw (a, b, d)
              (rw
                (
                  or_0xF0 (c / 2 ^ 18) (omega arith),
                  continuation_sum c,
                  continuation_sum (c / 2 ^ 6),
                  continuation_sum (c / 2 ^ 12),
                )
                (utf8_from-four h d))
      ]
    ]
  ]

-- Code points below 2 ^ 21, surrogates among them, are read back from UTF-8 as they were written.
pub utf8_to_utf32-utf32_to_utf8 :
    (s : List ℕ) → All (λ c. c < 0x200000) s → utf8_to_utf32 (utf32_to_utf8 s) ≡ text s
unfolding utf8_to_utf32 utf32_to_utf8
utf8_to_utf32-utf32_to_utf8 [] h = unfold utf8_from in refl
utf8_to_utf32-utf32_to_utf8 (c ∷ s) (b, h) =
    utf8_from-utf8_of c (utf32_to_utf8 s) b
    ∙ ap (push c) (utf8_to_utf32-utf32_to_utf8 s h)
    ∙ unfold push in refl

-- A Unicode scalar value.
abbrev pub IsScalar : ℕ → Type 0
IsScalar c = (c < 0x110000) × (within 0xD800 0xDFFF c ≡ false)

utf16_to_utf32-single :
    (u : ℕ) (s : List ℕ) → is_high u ≡ false → utf16_to_utf32 (u ∷ s) ≡ u ∷ utf16_to_utf32 s
unfolding utf16_to_utf32
utf16_to_utf32-single u [] h = refl
utf16_to_utf32-single u (v ∷ s) h = ground arith

utf16_to_utf32-pair :
    (c : ℕ) (s : List ℕ)
    → c < 0x110000
    → ltb c 0x10000 ≡ false
    → utf16_to_utf32
        (((0xD800 + (c - 0x10000) / 2 ^ 10) % 2 ^ 16) ∷ (0xDC00 + (c - 0x10000) % 2 ^ 10) ∷ s)
      ≡ c ∷ utf16_to_utf32 s
unfolding utf16_to_utf32
utf16_to_utf32-pair c s h k =
    let e : (c - 0x10000) / 2 ^ 10 * 2 ^ 10 + (c - 0x10000) % 2 ^ 10 + 0x10000 ≡ c = ground arith in
    ground arith

utf16_to_utf32-encode_utf16 :
    (c : ℕ) (s : List ℕ) → IsScalar c → utf16_to_utf32 (encode_utf16 c ++ s) ≡ c ∷ utf16_to_utf32 s
unfolding encode_utf16
utf16_to_utf32-encode_utf16 c s (h, k) = elim (Bool-cases (ltb c 0x10000)) [
  | inl one ↦ rw one (utf16_to_utf32-single c s (ground arith))
  | inr two ↦ rw two (
      rw
        (
          or_0xD800 ((c - 0x10000) / 2 ^ 10) (ground arith),
          or_0xDC00 ((c - 0x10000) % 2 ^ 10) (omega arith),
        )
        (utf16_to_utf32-pair c s h two))
]

-- Unicode scalar values are read back from UTF-16 as they were written.
pub utf16_to_utf32-utf32_to_utf16 :
    (s : List ℕ) → All IsScalar s → utf16_to_utf32 (utf32_to_utf16 s) ≡ s
unfolding utf32_to_utf16
utf16_to_utf32-utf32_to_utf16 [] h = unfold utf16_to_utf32 in refl
utf16_to_utf32-utf32_to_utf16 (c ∷ s) (b, h) =
    utf16_to_utf32-encode_utf16 c (utf32_to_utf16 s) b
    ∙ ap (λ r. c ∷ r) (utf16_to_utf32-utf32_to_utf16 s h)

-- `encodeUtf8` writes what `utf32_to_utf8` writes for a scalar value, and nothing for any other number.
pub encode_utf8_lem :
    (c : ℕ)
    → (IsScalar c → encode_utf8 c ≡ utf32_to_utf8 (c ∷ [])) × (encode_utf8 c ≢ [] → IsScalar c)
unfolding encode_utf8 utf32_to_utf8 utf8_of
encode_utf8_lem c = (λ h. ground arith, λ h. ground arith)

-- UTF-8 text of Unicode scalar values becomes the UTF-16 text of the same values, and that becomes the
-- same UTF-8 text again.
pub from_utf16-to_utf16 :
    (s : List ℕ)
    → All IsScalar s
    → (to_utf16 (utf32_to_utf8 s) ≡ text (utf32_to_utf16 s))
      × (from_utf16 (utf32_to_utf16 s) ≡ utf32_to_utf8 s)
unfolding to_utf16 from_utf16
from_utf16-to_utf16 s h = (
  rw (utf8_to_utf32-utf32_to_utf8 s (scalars_small s h)),
  ap utf32_to_utf8 (utf16_to_utf32-utf32_to_utf16 s h),
)
  where
    scalars_small : (s : List ℕ) → All IsScalar s → All (λ c. c < 0x200000) s
    scalars_small [] h = tt
    scalars_small (c ∷ s) ((b, k), h) = (omega arith, scalars_small s h)
