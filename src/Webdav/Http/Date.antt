-- ===== src/Webdav/Http/Date.antt =====
-- `getHttpDate` of netfiles/src/webdav/http_parser.cpp, and the `std::strftime` of
-- netfiles/src/webdav/dav_resource.cpp, which prints in the same form.
use net_files.Base.{
  ℕ, zero, suc, ◌+◌, ◌/◌, ◌%◌, ◌≤◌, ◌<◌, List, [], ◌∷◌, ◌++◌, ◌≡◌, Bytes, codes, length,
  length-append, if◌then◌else◌, ltb, to_string, digits, arith, refl, ◌*◌, All, Bool-cases, inl, inr,
}
use net_files.Webdav.World.{DavHost, M, ◌>>=◌, pure, now, Tm}

-- An array of texts; an index behind its end is outside of what the calendar gives.
unfoldable pub name_at : List Bytes → ℕ → Bytes
name_at [] n = []
name_at (s ∷ r) zero = s
name_at (s ∷ r) (suc n) = name_at r n

abbrev pub days : List Bytes
days =
    codes "Sun"
    ∷ codes "Mon"
    ∷ codes "Tue"
    ∷ codes "Wed"
    ∷ codes "Thu"
    ∷ codes "Fri"
    ∷ codes "Sat"
    ∷ []

abbrev pub months : List Bytes
months =
    codes "Jan"
    ∷ codes "Feb"
    ∷ codes "Mar"
    ∷ codes "Apr"
    ∷ codes "May"
    ∷ codes "Jun"
    ∷ codes "Jul"
    ∷ codes "Aug"
    ∷ codes "Sep"
    ∷ codes "Oct"
    ∷ codes "Nov"
    ∷ codes "Dec"
    ∷ []

-- `%02d`.
unfoldable pub two_digits : ℕ → Bytes
two_digits n = if ltb n 10 then b'0' ∷ to_string n else to_string n

-- What a format prints: its pieces, one behind the other.
unfoldable pub format : List Bytes → Bytes
format [] = []
format (s ∷ r) = s ++ format r

-- `"%s, %02d %s %d %02d:%02d:%02d GMT"`.
unfoldable pub date_text : Tm → Bytes
unfolding format name_at two_digits
date_text t = format (
    name_at days t.wday
    ∷ codes ", "
    ∷ two_digits t.mday
    ∷ codes " "
    ∷ name_at months t.mon
    ∷ codes " "
    ∷ to_string (t.year + 1900)
    ∷ codes " "
    ∷ two_digits t.hour
    ∷ codes ":"
    ∷ two_digits t.min
    ∷ codes ":"
    ∷ two_digits t.sec
    ∷ codes " GMT"
    ∷ [])

unfoldable pub get_http_date : DavHost → M Bytes
unfolding date_text
get_http_date h = do time ← now h; pure (date_text (h.gmtime time))

-- What a calendar gives, up to the year 9999; a second may be a leap second.
pub record IsCalendar (t : Tm) : Type 0 where
  pub wday : t.wday < 7
  pub mday : t.mday < 32
  pub mon : t.mon < 12
  pub year : t.year < 8100
  pub hour : t.hour < 24
  pub min : t.min < 60
  pub sec : t.sec < 61

-- At most `k` digits for a number below the bound; one more place for each tenfold.
digits_bound :
    (k bound : ℕ)
    → ((f n : ℕ) (out : Bytes) → n < bound → length (digits f n out) ≤ k + length out)
    → (f n : ℕ) (out : Bytes) → n < bound * 10
    → length (digits f n out) ≤ suc k + length out
unfolding digits
digits_bound k bound shorter zero n out h = omega arith
digits_bound k bound shorter (suc f) n out h =
    ground (arith, shorter f (n / 10) ((48 + n % 10) ∷ out) (omega arith))

digits_ten : (f n : ℕ) (out : Bytes) → n < 10 → length (digits f n out) ≤ 1 + length out
unfolding digits
digits_ten zero n out h = omega arith
digits_ten (suc f) n out h = ground arith

digits_hundred : (f n : ℕ) (out : Bytes) → n < 100 → length (digits f n out) ≤ 2 + length out
digits_hundred = digits_bound 1 10 digits_ten

digits_thousand : (f n : ℕ) (out : Bytes) → n < 1000 → length (digits f n out) ≤ 3 + length out
digits_thousand = digits_bound 2 100 digits_hundred

to_string_ten : (n : ℕ) → n < 10 → length (to_string n) ≤ 1
unfolding to_string
to_string_ten n h = omega (arith, digits_ten (suc n) n [] h)

to_string_hundred : (n : ℕ) → n < 100 → length (to_string n) ≤ 2
unfolding to_string
to_string_hundred n h = omega (arith, digits_hundred (suc n) n [] h)

year_length : (n : ℕ) → n < 10000 → length (to_string n) ≤ 4
unfolding to_string
year_length n h = omega (arith, digits_bound 3 1000 digits_thousand (suc n) n [] h)

length-two_digits : (n : ℕ) → n < 100 → length (two_digits n) ≤ 2
unfolding two_digits
length-two_digits n h = elim (Bool-cases (ltb n 10)) [
  | inl e ↦ rw e (omega (arith, to_string_ten n (ground arith)))
  | inr e ↦ rw e (to_string_hundred n h)
]

-- The length that a format prints is the sum of its pieces' lengths.
lengths : List Bytes → ℕ
lengths [] = 0
lengths (s ∷ r) = length s + lengths r

length-format : (r : List Bytes) → length (format r) ≡ lengths r
unfolding format lengths
length-format [] = refl
length-format (s ∷ r) = omega (arith, length-append s (format r), length-format r)

length-name_at :
    (names : List Bytes) (n : ℕ) → All (λ s. length s ≤ 3) names → length (name_at names n) ≤ 3
unfolding name_at
length-name_at [] n h = omega arith
length-name_at (s ∷ r) zero (a, h) = a
length-name_at (s ∷ r) (suc n) (a, h) = length-name_at r n h

-- A date up to the year 9999 takes at most 29 characters, so that it fits into the source's buffer of
-- 64 with its NUL.
pub date_text_fits : (t : Tm) → IsCalendar t → length (date_text t) ≤ 29
unfolding date_text lengths codes
date_text_fits t c = omega (
  arith,
  length-format _,
  length-name_at days t.wday (omega arith),
  length-name_at months t.mon (omega arith),
  year_length (t.year + 1900) (omega (arith, c.year)),
  length-two_digits t.mday (omega (arith, c.mday)),
  length-two_digits t.hour (omega (arith, c.hour)),
  length-two_digits t.min (omega (arith, c.min)),
  length-two_digits t.sec (omega (arith, c.sec)),
)
