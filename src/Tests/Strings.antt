-- ===== src/Tests/Strings.antt =====
-- The theorems on `ModernString` at small texts.
use net_files.Base.{◌%◌, ◌^◌, false, true, some, ◌≡◌, codes, to_string, length, take, done}
use net_files.Core.Utils.{split}
use net_files.StringUtil.Modern.{split_char, serialize, deserialize, to_uint}
use net_files.StringUtil.Modern.Chunks.{filled_parts, split_char-split, deserialize-serialize}
use net_files.StringUtil.Modern.Cut.{blanks, trim_chars}
use net_files.StringUtil.Modern.Cut.Trim.{IsTrimmed, trim_chars-IsTrimmed}
use net_files.StringUtil.Modern.Numbers.{to_uint-to_string}

split_char-split_example :
    (split_char (codes "a,,b") b',' false ≡ split (codes "a,,b") b',')
    × (split_char (codes "a,,b") b',' true ≡ filled_parts (split (codes "a,,b") b','))
split_char-split_example = split_char-split (codes "a,,b") b','

deserialize-serialize_example :
    deserialize (serialize (codes "text"))
    ≡ done (take (length (codes "text") % 2 ^ 32) (codes "text"))
deserialize-serialize_example = deserialize-serialize (codes "text")

to_uint-to_string_example : to_uint 32 (to_string 4294967301) ≡ some 5
to_uint-to_string_example = to_uint-to_string 4294967301

trim_chars-IsTrimmed_example :
    IsTrimmed blanks (codes " a b\n") (trim_chars blanks (codes " a b\n"))
trim_chars-IsTrimmed_example = trim_chars-IsTrimmed blanks (codes " a b\n")
