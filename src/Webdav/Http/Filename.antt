-- ===== src/Webdav/Http/Filename.antt =====
-- `HttpParser::encodeFilename` of netfiles/src/webdav/http_parser.cpp.
use net_files.Base.{
  ℕ, ◌/◌, ◌%◌, ◌<◌, [], ◌∷◌, ◌++◌, ◌≡◌, ◌≢◌, refl, ap, ◌∙◌, Bytes, codes, if◌then◌else◌, ◌==◌, leb,
  All, arith, Lacks, Bool-cases, inl, inr,
}
use net_files.Webdav.Http.Url.{
  is_unreserved, hex_upper, decode_url, decode_from, decode_from-code, hex_pair, hex_value,
  hex_pair-hex_upper,
}

-- One byte of the UTF-8 text.
unfoldable pub encode_name_byte : ℕ → Bytes
unfolding is_unreserved hex_upper
encode_name_byte c =
    if is_unreserved c
    then c ∷ []
    else if c == b' '
    then codes "%20"
    else if leb c 0x7F
    then c ∷ []
    else b'%' ∷ hex_upper (c / 16) ∷ hex_upper (c % 16) ∷ []

unfoldable pub encode_name : Bytes → Bytes
unfolding encode_name_byte
encode_name [] = []
encode_name (c ∷ s) = encode_name_byte c ++ encode_name s

-- The conversion to UTF-8 is that of the library faw::Encoding, a parameter.
unfoldable pub encode_filename : (Bytes → Bytes) → Bytes → Bytes
unfolding encode_name
encode_filename gb18030_to_utf8 filename = encode_name (gb18030_to_utf8 filename)

decode_from-other : (c : ℕ) (s : Bytes) → c ≢ b'%' → decode_from 0 (c ∷ s) ≡ c ∷ decode_from 0 s
unfolding decode_from
decode_from-other c s h = ground arith

decode_from-encode_name_byte :
    (c : ℕ) (s : Bytes)
    → c < 256
    → c ≢ b'%'
    → decode_from 0 (encode_name_byte c ++ s) ≡ c ∷ decode_from 0 s
unfolding encode_name_byte codes
decode_from-encode_name_byte c s b h = elim (Bool-cases (is_unreserved c)) [
  | inl e ↦ rw e (decode_from-other c s h)
  | inr e ↦ elim (Bool-cases (c == b' ')) [
    | inl blank ↦
        let same : 32 ≡ c = ground arith in
        rw (e, blank)
          (decode_from-code b'2' b'0' 32 s (unfold hex_pair hex_value in refl)
            ∙ ap (λ x. x ∷ decode_from 0 s) same)
    | inr other ↦ elim (Bool-cases (leb c 0x7F)) [
      | inl plain ↦ rw (e, other, plain) (decode_from-other c s h)
      | inr high ↦
          rw (e, other, high)
            (decode_from-code (hex_upper (c / 16)) (hex_upper (c % 16)) c s
              (hex_pair-hex_upper c b))
    ]
  ]
]

-- A name as the listings print it is read back as it was, provided that its UTF-8 text has no `%`,
-- which the listing leaves as it is.
pub decode_url-encode_name :
    (s : Bytes) → All (λ c. c < 256) s → Lacks b'%' s → decode_url (encode_name s) ≡ s
unfolding decode_url encode_name
decode_url-encode_name [] b h = unfold decode_from in refl
decode_url-encode_name (c ∷ s) (b, bs) (h, hs) =
    decode_from-encode_name_byte c (encode_name s) b h
    ∙ ap (λ r. c ∷ r) (decode_url-encode_name s bs hs)
