-- ===== src/StringUtil/Modern/Cut.antt =====
-- Trimming and the other ways to cut a `ModernString<char>` of netfiles/src/stringUtil.h.
pub mod Trim
use net_files.Base.{
  ℕ, zero, suc, ◌+◌, ◌-◌, Bool, true, false, not, ◌||◌, ◌&&◌, List, [], ◌∷◌, ◌++◌, Option, none,
  some, Bytes, codes, equal, find, is_empty, starts_with, take, drop, length, if◌then◌else◌, ltb,
  leb, ◌==◌, within, Outcome, done, thrown, pending,
}

-- One of the characters.
unfoldable pub is_one_of : Bytes → ℕ → Bool
is_one_of [] c = false
is_one_of (x ∷ chars) c = c == x || is_one_of chars c

-- The blanks of `trim`.
abbrev pub blanks : Bytes
blanks = 32 ∷ 9 ∷ 10 ∷ 13 ∷ 11 ∷ 12 ∷ []

-- From the first character that is none of `chars` on.
unfoldable pub trim_left : Bytes → Bytes → Bytes
unfolding is_one_of
trim_left chars [] = []
trim_left chars (c ∷ s) = let rest = trim_left chars s in if is_one_of chars c then rest else c ∷ s

-- Up to the last character that is none of `chars`.
unfoldable pub trim_right : Bytes → Bytes → Bytes
unfolding is_one_of
trim_right chars [] = []
trim_right chars (c ∷ s) =
    let rest = trim_right chars s in if is_one_of chars c && is_empty rest then [] else c ∷ rest

unfoldable pub trim_chars : Bytes → Bytes → Bytes
unfolding trim_left trim_right
trim_chars chars s = trim_right chars (trim_left chars s)

unfoldable pub trim : Bytes → Bytes
unfolding trim_chars
trim s = trim_chars blanks s

-- `substr` with a position behind the end is an exception.
unfoldable pub substr : Bytes → ℕ → ℕ → Outcome Bytes
substr s pos count =
    if ltb (length s) pos
    then thrown (codes "basic_string::substr")
    else done (take count (drop pos s))

unfoldable pub left : Bytes → ℕ → Bytes
left s count = if leb (length s) count then s else take count s

unfoldable pub right : Bytes → ℕ → Bytes
right s count = if leb (length s) count then s else drop (length s - count) s

unfoldable pub ends_with : Bytes → Bytes → Bool
ends_with s suffix =
    leb (length suffix) (length s) && equal (drop (length s - length suffix) s) suffix

-- `split_with_delim`: the runs of characters that are no delimiters, with the run that was begun.
unfoldable pub runs_from : Bytes → Bytes → Bytes → List Bytes
unfolding is_one_of
runs_from delimiters run [] = if is_empty run then [] else run ∷ []
runs_from delimiters run (c ∷ s) =
    let cut = runs_from delimiters [] s in
    let grow = runs_from delimiters (run ++ c ∷ []) s in
    if is_one_of delimiters c then if is_empty run then cut else run ∷ cut else grow

unfoldable pub split_with_delim : Bytes → Bytes → List Bytes
unfolding runs_from
split_with_delim s delimiters = runs_from delimiters [] s

-- A line without the CR at its end.
unfoldable pub without_last_cr : Bytes → Bytes
without_last_cr [] = []
without_last_cr (c ∷ []) = if c == 13 then [] else c ∷ []
without_last_cr (c ∷ e ∷ s) = c ∷ without_last_cr (e ∷ s)

-- `split_lines`, with the line that was begun; the last one keeps its CR, and is left out when empty.
unfoldable pub lines_from : Bytes → Bytes → List Bytes
unfolding without_last_cr
lines_from line [] = if is_empty line then [] else line ∷ []
lines_from line (c ∷ s) =
    let cut = without_last_cr line ∷ lines_from [] s in
    let grow = lines_from (line ++ c ∷ []) s in if c == 10 then cut else grow

unfoldable pub split_lines : Bytes → List Bytes
unfolding lines_from
split_lines s = lines_from [] s

unfoldable pub replace_first : Bytes → Bytes → Bytes → Bytes
replace_first s old new = elim (find old s) [
  | none ↦ s
  | some i ↦ take i s ++ (new ++ drop (i + length old) s)
]

unfoldable pub replace_char : Bytes → ℕ → ℕ → Bytes
replace_char [] old new = []
replace_char (c ∷ s) old new = (if c == old then new else c) ∷ replace_char s old new

-- `join`, with the separator in front of every string but the first.
unfoldable pub join_rest : Bytes → List Bytes → Bytes
join_rest separator [] = []
join_rest separator (s ∷ ss) = separator ++ (s ++ join_rest separator ss)

unfoldable pub join_strings : Bytes → List Bytes → Bytes
unfolding join_rest
join_strings separator [] = []
join_strings separator (s ∷ ss) = s ++ join_rest separator ss
