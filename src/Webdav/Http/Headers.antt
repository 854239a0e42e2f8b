-- ===== src/Webdav/Http/Headers.antt =====
-- The request and `parse_headers` of netfiles/src/webdav/http_parser.cpp.
use net_files.Base.{
  ℕ, ◌+◌, ◌-◌, ◌*◌, ◌^◌, ◌%◌, Bool, true, false, not, ◌||◌, List, [], ◌∷◌, ◌++◌, Option, none, some,
  Bytes, codes, equal, is_empty, if◌then◌else◌, ◌==◌, ltb, within, Outcome, done, thrown, pending,
}
use net_files.Core.Utils.{getlines, drop_cr, to_lower}
use net_files.Webdav.Http.Types.{HttpMethod, HttpVersion}

-- The map of headers is a list with one entry a key.
abbrev pub Headers : Type 0
Headers = List (Bytes × Bytes)

pub record HttpRequest : Type 0 where
  pub method : HttpMethod
  pub path : Bytes
  pub version : HttpVersion
  pub headers : Headers
  pub body : Bytes
  pub host : Bytes
  pub if_match : Bytes
  pub if_none_match : Bytes
  pub if_modified_since : Bytes
  pub if_unmodified_since : Bytes
  pub authorization : Bytes
  pub depth : Bytes
  pub destination : Bytes
  pub overwrite : Bytes
  pub lock_token : Bytes
  pub content_type : Bytes
  pub content_length : ℕ

-- `headers[key] = value`.
unfoldable pub set_header : Bytes → Bytes → Headers → Headers
set_header k v [] = (k, v) ∷ []
set_header k v ((j, x) ∷ r) = if equal j k then (k, v) ∷ r else (j, x) ∷ set_header k v r

abbrev is_digit : ℕ → Bool
is_digit c = within b'0' b'9' c

-- The digits at the front, as a number; the rest is not looked at.
unfoldable pub leading_number : ℕ → Bytes → ℕ
leading_number n [] = n
leading_number n (c ∷ s) =
    let more = leading_number (n * 10 + (c - b'0')) s in if is_digit c then more else n

unfoldable pub starts_number : Bytes → Bool
starts_number [] = false
starts_number (c ∷ s) = is_digit c

unfoldable pub to_ulong : ℕ → Bool → Bytes → Outcome ℕ
unfolding leading_number starts_number
to_ulong bits negative s =
    if not (starts_number s)
    then thrown (codes "invalid stoul argument")
    else if ltb (leading_number 0 s) (2 ^ bits)
    then done (if negative then (2 ^ bits - leading_number 0 s) % 2 ^ bits else leading_number 0 s)
    else thrown (codes "stoul argument out of range")

unfoldable pub signed_ulong : ℕ → Bytes → Outcome ℕ
unfolding to_ulong
signed_ulong bits [] = thrown (codes "invalid stoul argument")
signed_ulong bits (c ∷ s) =
    if c == b'-'
    then to_ulong bits true s
    else if c == b'+'
    then to_ulong bits false s
    else to_ulong bits false (c ∷ s)

unfoldable pub skip_space : Bytes → Bytes
skip_space [] = []
skip_space (c ∷ s) = let rest = skip_space s in if c == b' ' || within 9 13 c then rest else c ∷ s

-- `std::stoul`; `bits` is the width of `unsigned long`.
unfoldable pub stoul : ℕ → Bytes → Outcome ℕ
unfolding signed_ulong skip_space
stoul bits s = signed_ulong bits (skip_space s)

-- `value.erase(value.begin())` while a blank is in front.
unfoldable pub skip_blanks : Bytes → Bytes
skip_blanks [] = []
skip_blanks (c ∷ s) = let rest = skip_blanks s in if c == b' ' || c == b'\t' then rest else c ∷ s

-- The text in front of the first colon, and the text behind it.
unfoldable pub cut_colon : Bytes → Bytes → Option (Bytes × Bytes)
cut_colon key [] = none
cut_colon key (c ∷ s) =
    let rest = cut_colon (key ++ c ∷ []) s in if c == b':' then some (key, s) else rest

unfoldable pub set_length : Outcome ℕ → HttpRequest → Outcome HttpRequest
set_length (done n) r = done (record r { content_length = n })
set_length (thrown m) r = thrown m
set_length pending r = pending

-- The fields for the common headers.
unfoldable pub keep_common : ℕ → Bytes → Bytes → HttpRequest → Outcome HttpRequest
unfolding set_length stoul
keep_common bits key value r =
    if equal key (codes "host")
    then done (record r { host = value })
    else if equal key (codes "if-match")
    then done (record r { if_match = value })
    else if equal key (codes "if-none-match")
    then done (record r { if_none_match = value })
    else if equal key (codes "authorization")
    then done (record r { authorization = value })
    else if equal key (codes "depth")
    then done (record r { depth = value })
    else if equal key (codes "destination")
    then done (record r { destination = value })
    else if equal key (codes "overwrite")
    then done (record r { overwrite = value })
    else if equal key (codes "lock-token")
    then done (record r { lock_token = value })
    else if equal key (codes "content-type")
    then done (record r { content_type = value })
    else if equal key (codes "content-length")
    then set_length (stoul bits value) r
    else done r

unfoldable pub store_header : ℕ → Bytes → Bytes → HttpRequest → Outcome HttpRequest
unfolding keep_common set_header
store_header bits key value r =
    keep_common bits key value (record r { headers = set_header key value r.headers })

unfoldable pub header_parts : ℕ → Option (Bytes × Bytes) → HttpRequest → Outcome HttpRequest
unfolding store_header skip_blanks
header_parts bits none r = done r
header_parts bits (some (key, value)) r = store_header bits (to_lower key) (skip_blanks value) r

unfoldable pub header_line : ℕ → Bytes → HttpRequest → Outcome HttpRequest
unfolding header_parts cut_colon drop_cr
header_line bits line r =
    if is_empty line || equal line (13 ∷ [])
    then done r
    else header_parts bits (cut_colon [] (drop_cr line)) r

unfoldable pub header_lines : ℕ → List Bytes → HttpRequest → Outcome HttpRequest
unfolding header_line
header_lines bits [] r = done r
header_lines bits (line ∷ lines) r = elim (header_line bits line r) [
  | done q ↦ header_lines bits lines q
  | thrown m ↦ thrown m
  | pending ↦ pending
]

-- The result of the source is always `true`; an exception of `stoul` goes through.
unfoldable pub parse_headers : ℕ → Bytes → HttpRequest → Outcome HttpRequest
unfolding header_lines getlines
parse_headers bits text r = header_lines bits (getlines b'\n' [] text) r
