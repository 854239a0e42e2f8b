-- ===== src/Webdav/Http/Url.antt =====
-- `encode_url` and `decode_url` of netfiles/src/webdav/http_parser.cpp.
use net_files.Base.{
  ℕ, zero, suc, ◌+◌, ◌-◌, ◌*◌, ◌/◌, ◌%◌, ◌<◌, Bool, true, ◌&&◌, ◌||◌, [], ◌∷◌, Option, none, some,
  ◌≡◌, refl, ap, ◌∙◌, Bytes, if◌then◌else◌, ◌==◌, ltb, within, All, arith, Bool-cases, inl, inr,
}

-- `std::isalnum` in the C locale, and the four marks.
unfoldable pub is_unreserved : ℕ → Bool
is_unreserved c =
    within b'0' b'9' c
    || within b'A' b'Z' c
    || within b'a' b'z' c
    || c == b'-'
    || c == b'_'
    || c == b'.'
    || c == b'~'

unfoldable pub hex_upper : ℕ → ℕ
hex_upper n = if ltb n 10 then 48 + n else 55 + n

-- `std::setw(2)`, filled with 0.
unfoldable pub encode_url : Bytes → Bytes
unfolding is_unreserved hex_upper
encode_url [] = []
encode_url (c ∷ s) =
    let rest = encode_url s in
    if is_unreserved c then c ∷ rest else b'%' ∷ hex_upper (c / 16) ∷ hex_upper (c % 16) ∷ rest

unfoldable pub hex_value : ℕ → Option ℕ
hex_value c =
    if within b'0' b'9' c
    then some (c - 48)
    else if within b'A' b'F' c
    then some (c - 55)
    else if within b'a' b'f' c
    then some (c - 87)
    else none

abbrev is_blank : ℕ → Bool
is_blank c = c == b' ' || within 9 13 c

-- `iss >> std::hex >> value` on two characters, as a `char`: blanks are passed over, then come a sign
-- or none, and digits; what stands behind the digits is left, but `0x` without a digit is an error.
unfoldable pub hex_pair : ℕ → ℕ → Option ℕ
unfolding hex_value
hex_pair a b = elim (hex_value a) [
  | some v ↦ elim (hex_value b) [
    | some w ↦ some (v * 16 + w)
    | none ↦ if v == 0 && (b == b'x' || b == b'X') then none else some v
  ]
  | none ↦
      if is_blank a || a == b'+'
      then hex_value b
      else if a == b'-'
      then elim (hex_value b) [ none ↦ none | some w ↦ some ((256 - w) % 256) ]
      else none
]

unfoldable pub hex_at : Bytes → Option ℕ
unfolding hex_pair
hex_at (a ∷ b ∷ r) = hex_pair a b
hex_at _ = none

-- `skip` characters are left out, after a code (`i += 2`).
unfoldable pub decode_from : ℕ → Bytes → Bytes
unfolding hex_at
decode_from skip [] = []
decode_from (suc skip) (c ∷ s) = decode_from skip s
decode_from zero (c ∷ s) =
    let plain = c ∷ decode_from zero s in
    let behind = decode_from 2 s in
    if c == b'%' then elim (hex_at s) [ none ↦ plain | some v ↦ v ∷ behind ] else plain

unfoldable pub decode_url : Bytes → Bytes
unfolding decode_from
decode_url encoded = decode_from 0 encoded

hex_value-hex_upper : (n : ℕ) → n < 16 → hex_value (hex_upper n) ≡ some n
unfolding hex_value hex_upper
hex_value-hex_upper n h = ground arith

pub hex_pair-hex_upper :
    (c : ℕ) → c < 256 → hex_pair (hex_upper (c / 16)) (hex_upper (c % 16)) ≡ some c
unfolding hex_pair
hex_pair-hex_upper c h =
    rw (hex_value-hex_upper (c / 16) (omega arith), hex_pair)
      (rw (hex_value-hex_upper (c % 16) (omega arith)) (ap some (omega arith)))

decode_from-plain :
    (c : ℕ) (s : Bytes) → is_unreserved c ≡ true → decode_from 0 (c ∷ s) ≡ c ∷ decode_from 0 s
unfolding decode_from is_unreserved
decode_from-plain c s h = ground arith

pub decode_from-code :
    (a b v : ℕ) (s : Bytes)
    → hex_pair a b ≡ some v
    → decode_from 0 (b'%' ∷ a ∷ b ∷ s) ≡ v ∷ decode_from 0 s
unfolding decode_from hex_at
decode_from-code a b v s h = rw (h, decode_from)

-- Decoding what `encode_url` made gives the text back, whatever bytes it holds.
pub decode_url-encode_url : (s : Bytes) → All (λ c. c < 256) s → decode_url (encode_url s) ≡ s
unfolding decode_url encode_url
decode_url-encode_url [] h = unfold decode_from in refl
decode_url-encode_url (c ∷ s) (b, h) = elim (Bool-cases (is_unreserved c)) [
  | inl e ↦
      rw e (decode_from-plain c (encode_url s) e ∙ ap (λ r. c ∷ r) (decode_url-encode_url s h))
  | inr e ↦ rw e (
      decode_from-code (hex_upper (c / 16)) (hex_upper (c % 16)) c (encode_url s)
        (hex_pair-hex_upper c b)
      ∙ ap (λ r. c ∷ r) (decode_url-encode_url s h))
]
