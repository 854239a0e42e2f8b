-- ===== src/StringUtil.antt =====
-- netfiles/src/stringUtil.h: `StringUtil::encode`, the conversion between the local code page and
-- UTF-8 by way of wide characters.
pub mod Utf
pub mod Modern
use net_files.Base.{
  ℕ, List, [], ◌∷◌, Bytes, codes, is_empty, if◌then◌else◌, ◌==◌, Outcome, done, thrown,
}

-- `CP_ACP`, of `char`, and `CP_UTF8`, of `char8_t`.
pub data CodePage : Type 0 where
  local utf8 : CodePage

-- The Win32 conversions: an empty result is a failure.
pub record Win32 : Type 0 where
  pub multi_byte_to_wide_char : CodePage → Bytes → List ℕ
  pub wide_char_to_multi_byte : CodePage → List ℕ → Bytes

-- A buffer read as a C string ends at its first NUL.
unfoldable pub until_nul : Bytes → Bytes
until_nul [] = []
until_nul (c ∷ s) = if c == 0 then [] else c ∷ until_nul s

-- The last branch of `encode`: between two different narrow encodings.
unfoldable pub encode : Win32 → CodePage → CodePage → Bytes → Outcome Bytes
unfolding until_nul
encode os dst src input =
    let wide = os.multi_byte_to_wide_char src input in
    if is_empty wide
    then thrown (codes "MultiByteToWideChar failed")
    else (let result = os.wide_char_to_multi_byte dst wide in
        if is_empty result
        then thrown (codes "WideCharToMultiByte failed")
        else done (until_nul result))
