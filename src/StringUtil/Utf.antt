-- ===== src/StringUtil/Utf.antt =====
-- The portable conversions of netfiles/src/stringUtil.h, `detail` and `EncodingConverter`, and
-- `encodeUtf8` of netfiles/src/webdav/http_parser.cpp. A string of any kind is its list of units.
pub mod RoundTrip
use Prim.Native.Nat.{bit_or}
use net_files.Base.{
  ℕ, zero, suc, Bool, ◌+◌, ◌-◌, ◌*◌, ◌/◌, ◌%◌, ◌^◌, ◌&&◌, ◌||◌, List, [], ◌∷◌, ◌++◌, Bytes,
  if◌then◌else◌, ◌==◌, ltb, leb, within,
}

-- What decoding UTF-8 gives: code points, an exception, or a read behind the end of the text.
pub data Decoded : Type 0 where
  text : List ℕ → Decoded
  invalid : Decoded
  out_of_range : Decoded

unfoldable pub push : ℕ → Decoded → Decoded
push c (text s) = text (c ∷ s)
push c invalid = invalid
push c out_of_range = out_of_range

-- `left` is how many units the code point still takes, `codepoint` its bits so far.
unfoldable pub utf8_from : ℕ → ℕ → Bytes → Decoded
unfolding push
utf8_from zero codepoint [] = text []
utf8_from (suc left) codepoint [] = out_of_range
utf8_from zero codepoint (byte ∷ s) =
    let one = push byte (utf8_from 0 0 s) in
    let two = utf8_from 1 (byte % 2 ^ 5) s in
    let three = utf8_from 2 (byte % 2 ^ 4) s in
    let four = utf8_from 3 (byte % 2 ^ 3) s in
    if ltb byte 0x80
    then one
    else if byte / 2 ^ 5 == 0x06
    then two
    else if byte / 2 ^ 4 == 0x0E
    then three
    else if byte / 2 ^ 3 == 0x1E
    then four
    else invalid
utf8_from (suc zero) codepoint (byte ∷ s) =
    push (codepoint * 2 ^ 6 + byte % 2 ^ 6) (utf8_from 0 0 s)
utf8_from (suc (suc left)) codepoint (byte ∷ s) =
    utf8_from (suc left) (codepoint * 2 ^ 6 + byte % 2 ^ 6) s

unfoldable pub utf8_to_utf32 : Bytes → Decoded
unfolding utf8_from
utf8_to_utf32 input = utf8_from 0 0 input

-- `0x80 | (bits & 0x3F)`.
abbrev pub continuation : ℕ → ℕ
continuation bits = bit_or 0x80 (bits % 2 ^ 6)

unfoldable pub utf8_of : ℕ → Bytes
utf8_of c =
    if ltb c 0x80
    then c ∷ []
    else if ltb c 0x800
    then bit_or 0xC0 (c / 2 ^ 6) % 2 ^ 8 ∷ continuation c ∷ []
    else if ltb c 0x10000
    then bit_or 0xE0 (c / 2 ^ 12) % 2 ^ 8 ∷ continuation (c / 2 ^ 6) ∷ continuation c ∷ []
    else bit_or 0xF0 (c / 2 ^ 18) % 2 ^ 8
      ∷ continuation (c / 2 ^ 12)
      ∷ continuation (c / 2 ^ 6)
      ∷ continuation c
      ∷ []

unfoldable pub utf32_to_utf8 : List ℕ → Bytes
unfolding utf8_of
utf32_to_utf8 [] = []
utf32_to_utf8 (c ∷ s) = utf8_of c ++ utf32_to_utf8 s

-- The bytes written to `output`; none for what is no code point.
unfoldable pub encode_utf8 : ℕ → Bytes
encode_utf8 c =
    if within 0xD800 0xDFFF c
    then []
    else if ltb 0x10FFFF c
    then []
    else if ltb c 0x80
    then c ∷ []
    else if ltb c 0x800
    then bit_or 0xC0 (c / 2 ^ 6) % 2 ^ 8 ∷ continuation c ∷ []
    else if ltb c 0x10000
    then bit_or 0xE0 (c / 2 ^ 12) % 2 ^ 8 ∷ continuation (c / 2 ^ 6) ∷ continuation c ∷ []
    else bit_or 0xF0 (c / 2 ^ 18) % 2 ^ 8
      ∷ continuation (c / 2 ^ 12)
      ∷ continuation (c / 2 ^ 6)
      ∷ continuation c
      ∷ []

abbrev pub is_high : ℕ → Bool
is_high u = within 0xD800 0xDBFF u

abbrev pub is_low : ℕ → Bool
is_low u = within 0xDC00 0xDFFF u

-- `decode_utf16` at each unit; the unit behind a high surrogate is taken when it is a low one.
unfoldable pub utf16_to_utf32 : List ℕ → List ℕ
utf16_to_utf32 [] = []
utf16_to_utf32 (u ∷ []) = u ∷ []
utf16_to_utf32 (u ∷ v ∷ s) =
    let pair = (0x10000 + (u - 0xD800) * 2 ^ 10 + (v - 0xDC00)) ∷ utf16_to_utf32 s in
    let single = u ∷ utf16_to_utf32 (v ∷ s) in if is_high u && is_low v then pair else single

unfoldable pub encode_utf16 : ℕ → List ℕ
encode_utf16 c =
    if ltb c 0x10000
    then c ∷ []
    else bit_or 0xD800 ((c - 0x10000) / 2 ^ 10) % 2 ^ 16
      ∷ bit_or 0xDC00 ((c - 0x10000) % 2 ^ 10)
      ∷ []

unfoldable pub utf32_to_utf16 : List ℕ → List ℕ
unfolding encode_utf16
utf32_to_utf16 [] = []
utf32_to_utf16 (c ∷ s) = encode_utf16 c ++ utf32_to_utf16 s

utf16_decoded : Decoded → Decoded
unfolding utf32_to_utf16
utf16_decoded (text s) = text (utf32_to_utf16 s)
utf16_decoded invalid = invalid
utf16_decoded out_of_range = out_of_range

-- `EncodingConverter::to_utf16` and `from_utf16`.
unfoldable pub to_utf16 : Bytes → Decoded
unfolding utf8_to_utf32 utf16_decoded
to_utf16 input = utf16_decoded (utf8_to_utf32 input)

unfoldable pub from_utf16 : List ℕ → Bytes
unfolding utf16_to_utf32 utf32_to_utf8
from_utf16 input = utf32_to_utf8 (utf16_to_utf32 input)
