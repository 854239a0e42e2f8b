-- ===== src/Base/Text.antt =====
-- Byte strings: comparison, prefixes, and decimal print (`std::string`, `std::to_string`).
use Prim.Native.Nat.{ℕ, zero, suc, ◌+◌, ◌/◌, ◌%◌}
use Prim.Native.Char.{code}
use Prim.Native.String.{String}
use mathlib.Core.Path.{◌≡◌, refl}
use mathlib.Core.Logic.{◌↔◌}
use mathlib.Core.Bool.{Bool, true, false, ◌&&◌}
use mathlib.Core.Option.{Option, none, some}
use mathlib.Core.List.{List, [], ◌∷◌, ◌++◌}
use native.Mathlib.Omega.{arith}
use net_files.Base.Tests.{◌==◌, if◌then◌else◌, ltb}

abbrev pub Bytes : Type 0
Bytes = List ℕ

-- The bytes of an ASCII literal.
unfoldable pub codes : String → Bytes
codes String.[] = []
codes (String.◌∷◌ c s) = code c ∷ codes s

-- `operator==` on strings.
unfoldable pub equal : Bytes → Bytes → Bool
equal [] [] = true
equal [] (y ∷ ys) = false
equal (x ∷ xs) [] = false
equal (x ∷ xs) (y ∷ ys) = x == y && equal xs ys

pub equal_iff : (a b : Bytes) → (equal a b ≡ true) ↔ (a ≡ b)
unfolding equal
equal_iff [] [] = ground arith
equal_iff [] (y ∷ b) = ground arith
equal_iff (x ∷ a) [] = ground arith
equal_iff (x ∷ a) (y ∷ b) = ground (arith, equal_iff a b)

pub equal_refl : (a : Bytes) → equal a a ≡ true
equal_refl a = (equal_iff a a).1 refl

-- `s.find(p) == 0`, and `starts_with`.
unfoldable pub starts_with : Bytes → Bytes → Bool
starts_with s [] = true
starts_with [] (y ∷ p) = false
starts_with (x ∷ s) (y ∷ p) = x == y && starts_with s p

abbrev pub IsPrefixOf : Bytes → Bytes → Type 0
IsPrefixOf p s = (rest : Bytes) × (s ≡ p ++ rest)

pub append-IsPrefixOf : (p r : Bytes) → IsPrefixOf p (p ++ r)
append-IsPrefixOf p r = (r, refl)

starts_with_sound : (s p : Bytes) → starts_with s p ≡ true → IsPrefixOf p s
unfolding starts_with
starts_with_sound s [] h = (s, refl)
starts_with_sound [] (y ∷ p) h = cc
starts_with_sound (x ∷ s) (y ∷ p) h =
    let (r, e) = starts_with_sound s p (ground arith) in (r, ground arith)

starts_with-append : (p r : Bytes) → starts_with (p ++ r) p ≡ true
unfolding starts_with
starts_with-append [] r = refl
starts_with-append (x ∷ p) r = ground (arith, starts_with-append p r)

pub starts_with_iff : (s p : Bytes) → (starts_with s p ≡ true) ↔ IsPrefixOf p s
starts_with_iff s p = (starts_with_sound s p, λ (r, e). rw e (starts_with-append p r))

abbrev one_on : Option ℕ → Option ℕ
one_on none = none
one_on (some i) = some (suc i)

-- `s.find(p)`: where `p` first stands in `s`.
unfoldable pub find : Bytes → Bytes → Option ℕ
unfolding starts_with
find p [] = if starts_with [] p then some 0 else none
find p (c ∷ s) = let later = one_on (find p s) in if starts_with (c ∷ s) p then some 0 else later

-- Each part behind a mark.
unfoldable pub flatten_with : ℕ → List Bytes → Bytes
flatten_with b [] = []
flatten_with b (c ∷ cs) = b ∷ (c ++ flatten_with b cs)

-- Digits by repeated division. The fuel is the number itself: each round makes it smaller.
unfoldable pub digits : ℕ → ℕ → Bytes → Bytes
digits zero n out = out
digits (suc f) n out =
    let rest = digits f (n / 10) ((48 + n % 10) ∷ out) in if ltb n 10 then (48 + n) ∷ out else rest

-- `std::to_string` of an unsigned number.
unfoldable pub to_string : ℕ → Bytes
unfolding digits
to_string n = digits (suc n) n []
