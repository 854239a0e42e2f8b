-- ===== src/Ftp/Handlers/Ports.antt =====
-- The numbers of PORT and PASV: printed, read, and put together to a port.
use Prim.Native.Nat.{bit_or, bit_or-bitwise}
use net_files.Base.{
  ℕ, zero, suc, ◌+◌, ◌-◌, ◌*◌, ◌/◌, ◌%◌, ◌^◌, ◌≤◌, ◌<◌, max, true, false, List, [], ◌∷◌, ◌≡◌, refl,
  ap, sym, subst, append-nil, ◌∙◌, Bytes, codes, is_empty, ltb, Lacks, arith, Bool-cases, inl, inr,
  done, to_string, digits, flatten_with,
}
use net_files.Core.Utils.{split, split-first, split-only, join}
use net_files.Ftp.Handlers.Login.{
  all_digits, decimal, is_number, stoi, port_number, dotted, port_groups, port_set, port_matched,
  handle_port,
}
use net_files.Ftp.Types.{active, command_okay}
use net_files.Ftp.World.{World, set_session}

decimal-digits : (f n : ℕ) (out : Bytes) → n < f → decimal 0 (digits f n out) ≡ decimal n out
unfolding digits decimal
decimal-digits zero n out h = absurd (omega arith)
decimal-digits (suc f) n out h = elim (Bool-cases (ltb n 10)) [
  | inl e ↦ rw e (ap (λ k. decimal k out) {x = 0 * 10 + (48 + n - 48)} {y = n} (omega arith))
  | inr e ↦ rw e (
      decimal-digits f (n / 10) ((48 + n % 10) ∷ out) (ground arith)
      ∙ ap (λ k. decimal k out) {x = n / 10 * 10 + (48 + n % 10 - 48)} {y = n} (omega arith))
]

-- Printing a number and reading it gives it back.
decimal-to_string : (n : ℕ) → decimal 0 (to_string n) ≡ n
unfolding to_string decimal
decimal-to_string n = decimal-digits (suc n) n [] (omega arith)

all_digits-digits :
    (f n : ℕ) (out : Bytes) → n < f → all_digits out ≡ true → all_digits (digits f n out) ≡ true
unfolding digits all_digits
all_digits-digits zero n out h a = absurd (omega arith)
all_digits-digits (suc f) n out h a = elim (Bool-cases (ltb n 10)) [
  | inl e ↦ rw e (ground arith)
  | inr e ↦ rw e (all_digits-digits f (n / 10) ((48 + n % 10) ∷ out) (ground arith) (ground arith))
]

digits_some : (f n : ℕ) (out : Bytes) → n < f → is_empty (digits f n out) ≡ false
unfolding digits
digits_some zero n out h = absurd (omega arith)
digits_some (suc f) n out h = elim (Bool-cases (ltb n 10)) [
  | inl e ↦ rw e
  | inr e ↦ rw e (digits_some f (n / 10) ((48 + n % 10) ∷ out) (ground arith))
]

is_number-to_string : (n : ℕ) → is_number (to_string n) ≡ true
unfolding is_number to_string
is_number-to_string n = rw (
  digits_some (suc n) n [] (omega arith),
  all_digits-digits (suc n) n [] (omega arith) (unfold all_digits in refl),
)

digits_fit : (s : Bytes) → all_digits s ≡ true → Lacks b',' s
unfolding all_digits
digits_fit [] h = tt
digits_fit (c ∷ s) h = (ground arith, digits_fit s (ground arith))

to_string_fits : (n : ℕ) → Lacks b',' (to_string n)
unfolding to_string
to_string_fits n =
    digits_fit (digits (suc n) n [])
      (all_digits-digits (suc n) n [] (omega arith) (unfold all_digits in refl))

stoi-to_string : (n : ℕ) → n < 256 → stoi (to_string n) ≡ done n
unfolding stoi
stoi-to_string n h = rw (decimal-to_string n) (ground arith)

-- The high part's digits are apart from the low part's: `or` is a sum.
abbrev IsSum : ℕ → ℕ → Type 0
IsSum a b = (n : ℕ) → a ≤ n → Prim.Native.Nat.digits (λ b. b) max n a b ≡ a + b

low_sum : (a n : ℕ) → a ≤ n → Prim.Native.Nat.digits (λ b. b) max n a 0 ≡ a + 0
low_sum zero zero h = omega arith
low_sum zero (suc n) h = omega arith
low_sum (suc a) zero h = absurd (omega arith)
low_sum (suc a) (suc n) h = omega (arith, low_sum (suc a / 2) n (omega arith))

IsSum-double : (x a b : ℕ) → x ≡ 2 * a → IsSum a (b / 2) → IsSum x b
IsSum-double zero a b e s zero h = omega arith
IsSum-double zero a b e s (suc n) h = omega arith
IsSum-double (suc x) a b e s zero h = absurd (omega arith)
IsSum-double (suc x) a b e s (suc n) h =
    let half : suc x / 2 ≡ a = omega (arith, e) in
    omega (
      arith,
      subst (λ k. Prim.Native.Nat.digits (λ b. b) max n k (b / 2) ≡ k + b / 2) (sym half)
          (s n (omega (arith, e, h))),
    )

bit_or_sum : (p b : ℕ) → b < 256 → bit_or (p * 2 ^ 8) b ≡ p * 2 ^ 8 + b
bit_or_sum p b h =
    let shifted : IsSum (p * 2 ^ 8) b = IsSum-double _ (p * 2 ^ 7) b (omega arith) (
      IsSum-double _ (p * 2 ^ 6) (b / 2) (omega arith) (
        IsSum-double _ (p * 2 ^ 5) (b / 2 / 2) (omega arith) (
          IsSum-double _ (p * 2 ^ 4) (b / 2 / 2 / 2) (omega arith) (
            IsSum-double _ (p * 2 ^ 3) (b / 2 / 2 / 2 / 2) (omega arith) (
              IsSum-double _ (p * 2 ^ 2) (b / 2 / 2 / 2 / 2 / 2) (omega arith) (
                IsSum-double _ (p * 2) (b / 2 / 2 / 2 / 2 / 2 / 2) (omega arith) (
                  IsSum-double _ p (b / 2 / 2 / 2 / 2 / 2 / 2 / 2) (omega arith) (
                    subst (IsSum p) {x = 0} {y = b / 2 / 2 / 2 / 2 / 2 / 2 / 2 / 2}
                      (omega (arith, h)) (low_sum p))))))))) in
    (λ i. bit_or-bitwise (p * 2 ^ 8) b i) ∙ shifted (p * 2 ^ 8) (omega arith)

port_number_sum : (p1 p2 : ℕ) → p1 < 256 → p2 < 256 → port_number p1 p2 ≡ p1 * 256 + p2
unfolding port_number
port_number_sum p1 p2 h1 h2 =
    let small1 : p1 % 2 ^ 16 ≡ p1 = omega arith in
    let small2 : p2 % 2 ^ 16 ≡ p2 = omega arith in
    rw (small1, small2, bit_or_sum p1 p2 h2) (omega arith)

abbrev pub six_numbers : ℕ → ℕ → ℕ → ℕ → ℕ → ℕ → List Bytes
six_numbers a b c d p1 p2 =
    to_string a ∷ to_string b ∷ to_string c ∷ to_string d ∷ to_string p1 ∷ to_string p2 ∷ []

split-join :
    (a b c d p1 p2 : ℕ)
    → split (join (six_numbers a b c d p1 p2) b',') b',' ≡ six_numbers a b c d p1 p2
unfolding flatten_with
split-join a b c d p1 p2 =
    split-first b',' (to_string a) _ (to_string_fits a)
    ∙ ap (λ r. to_string a ∷ r)
        (split-first b',' (to_string b) _ (to_string_fits b)
          ∙ ap (λ r. to_string b ∷ r)
              (split-first b',' (to_string c) _ (to_string_fits c)
                ∙ ap (λ r. to_string c ∷ r)
                    (split-first b',' (to_string d) _ (to_string_fits d)
                      ∙ ap (λ r. to_string d ∷ r)
                          (split-first b',' (to_string p1) _ (to_string_fits p1)
                            ∙ ap (λ r. to_string p1 ∷ r)
                                (ap (λ t. split t b',') (append-nil (to_string p2))
                                  ∙ split-only b',' (to_string p2) (to_string_fits p2))))))

-- PORT with six printed numbers of which the last two are bytes makes the session dial the address of
-- the first four, at the port that the two make, in active mode.
pub handle_port-join :
    (a b c d p1 p2 : ℕ) (w : World)
    → p1 < 256
    → p2 < 256
    → handle_port (join (six_numbers a b c d p1 p2) b',') w ≡ (
      done (command_okay, codes "PORT command successful"),
      set_session w (record w.session {
        data_conn_host = dotted (to_string a) (to_string b) (to_string c) (to_string d);
        data_conn_port = p1 * 256 + p2;
        data_conn_type = active;
      }),
    )
unfolding handle_port port_groups port_matched port_set
handle_port-join a b c d p1 p2 w h1 h2 = rw (split-join a b c d p1 p2) (
    rw
      (
        is_number-to_string a,
        is_number-to_string b,
        is_number-to_string c,
        is_number-to_string d,
        is_number-to_string p1,
        is_number-to_string p2,
      )
      (rw (stoi-to_string p1 h1, port_matched)
        (rw (stoi-to_string p2 h2) (rw (port_number_sum p1 p2 h1 h2)))))
