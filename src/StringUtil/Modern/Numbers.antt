-- ===== src/StringUtil/Modern/Numbers.antt =====
-- Numbers of `ModernString` (netfiles/src/stringUtil.h): what `to_uint` makes of a printed number.
use net_files.Base.{
  ℕ, zero, suc, ◌+◌, ◌-◌, ◌*◌, ◌/◌, ◌%◌, ◌^◌, ◌<◌, Bool, true, false, [], ◌∷◌, some, ◌≡◌, refl, ap,
  ◌∙◌, Bytes, ltb, within, to_string, digits, arith, Bool-cases, inl, inr,
}
use net_files.StringUtil.Modern.{parse_digits, to_uint}

parse_digits-digits :
    (f n : ℕ) (out : Bytes)
    → n < f
    → parse_digits 32 0 (digits f n out) ≡ parse_digits 32 (n % 2 ^ 32) out
unfolding parse_digits digits
parse_digits-digits zero n out h = absurd (omega arith)
parse_digits-digits (suc f) n out h = elim (Bool-cases (ltb n 10)) [
  | inl e ↦
      let digit : within b'0' b'9' (48 + n) ≡ true = ground arith in
      rw e (
        rw digit (
          ap (λ k. parse_digits 32 k out) {x = (0 * 10 + (48 + n - 48)) % 2 ^ 32} {y = n % 2 ^ 32}
            (omega arith)))
  | inr e ↦
      let digit : within b'0' b'9' (48 + n % 10) ≡ true = ground arith in
      rw e (
        parse_digits-digits f (n / 10) ((48 + n % 10) ∷ out) (ground arith)
        ∙ rw digit (
            ap (λ k. parse_digits 32 k out)
              {x = (n / 10 % 2 ^ 32 * 10 + (48 + n % 10 - 48)) % 2 ^ 32} {y = n % 2 ^ 32}
              (omega arith)))
]

abbrev pub starts_digit : Bytes → Bool
starts_digit [] = false
starts_digit (c ∷ s) = within b'0' b'9' c

pub starts_digit-digits : (f n : ℕ) (out : Bytes) → n < f → starts_digit (digits f n out) ≡ true
unfolding digits
starts_digit-digits zero n out h = absurd (omega arith)
starts_digit-digits (suc f) n out h = elim (Bool-cases (ltb n 10)) [
  | inl e ↦ rw e (ground arith)
  | inr e ↦ rw e (starts_digit-digits f (n / 10) ((48 + n % 10) ∷ out) (ground arith))
]

to_uint_digits :
    (bits : ℕ) (s : Bytes) → starts_digit s ≡ true → to_uint bits s ≡ some (parse_digits bits 0 s)
unfolding to_uint
to_uint_digits bits [] h = absurd (cc)
to_uint_digits bits (c ∷ s) h = rw h refl

-- A number that was printed is read back into 32 bits modulo 2 ^ 32: as it was when it fits, and as
-- another number, with no error, when it does not.
pub to_uint-to_string : (n : ℕ) → to_uint 32 (to_string n) ≡ some (n % 2 ^ 32)
unfolding to_string
to_uint-to_string n =
    to_uint_digits 32 (digits (suc n) n []) (starts_digit-digits (suc n) n [] (omega arith))
    ∙ ap some (parse_digits-digits (suc n) n [] (omega arith) ∙ unfold parse_digits in refl)
