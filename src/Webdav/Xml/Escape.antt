-- ===== src/Webdav/Xml/Escape.antt =====
-- What `escape_xml` of netfiles/src/webdav/dav_namespaces.hpp makes of a text.
use net_files.Base.{
  ℕ, zero, suc, ◌||◌, ◌==◌, Option, none, some, [], ◌∷◌, ◌++◌, ◌≡◌, ◌≢◌, refl, ap, ◌∙◌, Bytes,
  codes, if◌then◌else◌, All-append, Lacks, arith, starts_with,
}
use net_files.Webdav.Xml.{escape_char, escape_xml}

-- An XML reader's view: the character that a text begins with, and how many characters of its
-- spelling follow the first. `&` stands at the beginning of one of the five references only, and the
-- other four characters never stand for themselves.
unfoldable pub first_char : Bytes → Option ℕ × ℕ
first_char [] = (none, 0)
first_char (c ∷ s) =
    if starts_with (c ∷ s) (codes "&amp;")
    then (some b'&', 4)
    else if starts_with (c ∷ s) (codes "&lt;")
    then (some b'<', 3)
    else if starts_with (c ∷ s) (codes "&gt;")
    then (some b'>', 3)
    else if starts_with (c ∷ s) (codes "&quot;")
    then (some b'"', 5)
    else if starts_with (c ∷ s) (codes "&apos;")
    then (some 39, 5)
    else if c == b'&' || c == b'<' || c == b'>' || c == b'"' || c == 39
    then (none, 0)
    else (some c, 0)

abbrev pub joined : Option ℕ → Option Bytes → Option Bytes
joined (some c) (some s) = some (c ∷ s)
joined (some c) none = none
joined none s = none

-- The text with its references replaced, or nothing where it is not well formed; `skip` characters
-- belong to the one before.
unfoldable pub unescape_from : ℕ → Bytes → Option Bytes
unfolding first_char
unescape_from skip [] = some []
unescape_from (suc skip) (c ∷ s) = unescape_from skip s
unescape_from zero (c ∷ s) = joined (first_char (c ∷ s)).0 (unescape_from (first_char (c ∷ s)).1 s)

unescape_from-escape_char :
    (c : ℕ) (s : Bytes) → unescape_from 0 (escape_char c ++ s) ≡ joined (some c) (unescape_from 0 s)
unfolding unescape_from escape_char first_char starts_with codes
unescape_from-escape_char c s = ground arith

-- A reader of XML gets the text back from what was escaped, whatever it holds. The reader resolves the
-- five references, and refuses a text where one of `&`, `<`, `>`, `"` and `'` stands by itself.
pub unescape-escape_xml : (s : Bytes) → unescape_from 0 (escape_xml s) ≡ some s
unfolding escape_xml
unescape-escape_xml [] = unfold unescape_from in refl
unescape-escape_xml (c ∷ s) =
    unescape_from-escape_char c (escape_xml s) ∙ ap (joined (some c)) (unescape-escape_xml s)

escape_char-Lacks : (c : ℕ) → Lacks b'<' (escape_char c)
unfolding escape_char codes
escape_char-Lacks c = ground arith

pub escape_xml-Lacks : (s : Bytes) → Lacks b'<' (escape_xml s)
unfolding escape_xml
escape_xml-Lacks [] = tt
escape_xml-Lacks (c ∷ s) =
    All-append (λ x. x ≢ b'<') (escape_char c) (escape_xml s) (escape_char-Lacks c)
      (escape_xml-Lacks s)
