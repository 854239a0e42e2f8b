-- ===== src/StringUtil/Modern.antt =====
-- `ModernString<char>` of netfiles/src/stringUtil.h: cutting, joining and printing.
pub mod Chunks
pub mod Numbers
pub mod Cut
use net_files.Base.{
  ℕ, zero, suc, ◌+◌, ◌-◌, ◌*◌, ◌/◌, ◌%◌, ◌^◌, Bool, true, false, not, ◌||◌, ◌&&◌, List, [], ◌∷◌,
  ◌++◌, Option, none, some, Bytes, codes, find, is_empty, take, drop, length, if◌then◌else◌, ltb,
  min, ◌==◌, within, to_string, Outcome, done, thrown, pending,
}

-- A part is kept unless empty parts are skipped.
unfoldable pub keep_part : Bool → Bytes → List Bytes → List Bytes
keep_part skip_empty part rest = if skip_empty && is_empty part then rest else part ∷ rest

-- `split` at a character, with the part that was begun.
unfoldable pub split_part : ℕ → Bool → Bytes → Bytes → List Bytes
unfolding keep_part
split_part delimiter skip_empty part [] = keep_part skip_empty part []
split_part delimiter skip_empty part (c ∷ s) =
    let cut = keep_part skip_empty part (split_part delimiter skip_empty [] s) in
    let grow = split_part delimiter skip_empty (part ++ c ∷ []) s in
    if c == delimiter then cut else grow

unfoldable pub split_char : Bytes → ℕ → Bool → List Bytes
unfolding split_part
split_char s delimiter skip_empty = split_part delimiter skip_empty [] s

-- The chunks from number `i` on.
unfoldable pub chunks_from : ℕ → ℕ → ℕ → Bytes → List Bytes
chunks_from zero i chunk_size s = []
chunks_from (suc left) i chunk_size s =
    take (min chunk_size (length s - i * chunk_size)) (drop (i * chunk_size) s)
    ∷ chunks_from left (suc i) chunk_size s

unfoldable pub split_chunks : Bytes → ℕ → List Bytes
unfolding chunks_from
split_chunks s zero = []
split_chunks s (suc n) = chunks_from ((length s + suc n - 1) / suc n) 0 (suc n) s

-- The loop of `replace`: what stood in front of each occurrence is taken from the text's beginning, and
-- nothing is taken from behind the last one. With an empty `old` it finds the same place for ever.
unfoldable pub replace_from : ℕ → Bytes → Bytes → Bytes → ℕ → Bytes → Outcome Bytes
replace_from zero s old new pos result = pending
replace_from (suc f) s old new pos result = elim (find old (drop pos s)) as (λ _. Outcome Bytes) [
  | none ↦ done result
  | some i ↦ replace_from f s old new (pos + i + length old) (result ++ (take (pos + i) s ++ new))
]

unfoldable pub replace : Bytes → Bytes → Bytes → Outcome Bytes
unfolding replace_from
replace s old new = replace_from (suc (length s)) s old new 0 []

-- `width` copies of a character.
unfoldable pub filled : ℕ → ℕ → Bytes
filled zero fill = []
filled (suc n) fill = fill ∷ filled n fill

unfoldable pub padded_left : Bytes → ℕ → ℕ → Bytes
unfolding filled
padded_left s width fill = filled (width - length s) fill ++ s

unfoldable pub padded_right : Bytes → ℕ → ℕ → Bytes
unfolding filled
padded_right s width fill = s ++ filled (width - length s) fill

unfoldable pub centered : Bytes → ℕ → ℕ → Bytes
unfolding filled
centered s width fill =
    let pad_total = width - length s in
    filled (pad_total / 2) fill ++ (s ++ filled (pad_total - pad_total / 2) fill)

unfoldable pub repeated : Bytes → ℕ → Bytes
repeated s zero = []
repeated s (suc n) = s ++ repeated s n

-- `from_number`: the digits behind the filling.
unfoldable pub from_number : ℕ → ℕ → ℕ → Bytes
unfolding padded_left
from_number value width fill = padded_left (to_string value) width fill

-- The digits of `parse_number`, for an unsigned type of `bits` bits: it stops at what is no digit. The
-- hexadecimal prefix is only looked for behind a sign, which an unsigned type does not take.
unfoldable pub parse_digits : ℕ → ℕ → Bytes → ℕ
parse_digits bits result [] = result
parse_digits bits result (c ∷ s) =
    let rest = parse_digits bits ((result * 10 + (c - b'0')) % 2 ^ bits) s in
    if within b'0' b'9' c then rest else result

unfoldable pub to_uint : ℕ → Bytes → Option ℕ
unfolding parse_digits
to_uint bits [] = none
to_uint bits (c ∷ s) = if within b'0' b'9' c then some (parse_digits bits 0 (c ∷ s)) else none

-- A number of 32 bits as its four bytes, the lowest first.
unfoldable pub four_bytes : ℕ → Bytes
four_bytes n = n % 256 ∷ n / 256 % 256 ∷ n / 65536 % 256 ∷ n / 16777216 % 256 ∷ []

unfoldable pub serialize : Bytes → Bytes
unfolding four_bytes
serialize s = four_bytes (length s % 2 ^ 32) ++ s

unfoldable pub deserialize : Bytes → Outcome Bytes
deserialize (a ∷ b ∷ c ∷ d ∷ rest) =
    let len = a + b * 256 + c * 65536 + d * 16777216 in
    if ltb (length rest + 4) (4 + len)
    then thrown (codes "Invalid serialized data size")
    else done (take len rest)
deserialize _ = thrown (codes "Invalid serialized data")
