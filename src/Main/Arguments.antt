-- ===== src/Main/Arguments.antt =====
-- Reading a command line back (`main` of netfiles/src/main.cpp).
use net_files.Base.{
  ℕ, zero, suc, ◌+◌, ◌-◌, ◌*◌, ◌/◌, ◌%◌, ◌^◌, ◌<◌, true, false, ◌||◌, List, [], ◌∷◌, some, ◌≡◌,
  refl, ap, ◌∙◌, Bytes, codes, equal, ltb, ◌==◌, within, to_string, digits, arith, Bool-cases, inl,
  inr, done,
}
use net_files.Main.{ServerConfig, with_number, set_option, is_help, parse_args}
use net_files.StringUtil.Modern.Numbers.{starts_digit, starts_digit-digits}
use net_files.Webdav.Http.Headers.{
  leading_number, starts_number, to_ulong, signed_ulong, skip_space, stoul,
}

leading_number-digits :
    (f n : ℕ) (out : Bytes) → n < f → leading_number 0 (digits f n out) ≡ leading_number n out
unfolding leading_number digits
leading_number-digits zero n out h = absurd (omega arith)
leading_number-digits (suc f) n out h = elim (Bool-cases (ltb n 10)) [
  | inl e ↦
      let digit : within b'0' b'9' (48 + n) ≡ true = ground arith in
      rw e (
        rw digit
          (ap (λ k. leading_number k out) {x = 0 * 10 + (48 + n - 48)} {y = n} (omega arith)))
  | inr e ↦
      let digit : within b'0' b'9' (48 + n % 10) ≡ true = ground arith in
      rw e (
        leading_number-digits f (n / 10) ((48 + n % 10) ∷ out) (ground arith)
        ∙ rw digit (
            ap (λ k. leading_number k out) {x = n / 10 * 10 + (48 + n % 10 - 48)} {y = n}
              (omega arith)))
]

to_ulong_digits :
    (bits : ℕ) (s : Bytes)
    → starts_number s ≡ true
    → leading_number 0 s < 2 ^ bits
    → to_ulong bits false s ≡ done (leading_number 0 s)
unfolding to_ulong
to_ulong_digits bits s h k =
    let fits : ltb (leading_number 0 s) (2 ^ bits) ≡ true = ground arith in
    rw (h, to_ulong) (rw fits refl)

stoul_digits :
    (bits : ℕ) (s : Bytes)
    → starts_digit s ≡ true
    → leading_number 0 s < 2 ^ bits
    → stoul bits s ≡ done (leading_number 0 s)
unfolding stoul signed_ulong skip_space
stoul_digits bits [] h k = absurd (cc)
stoul_digits bits (c ∷ s) h k =
    let solid : (c == b' ' || within 9 13 c) ≡ false = ground arith in
    let minus : (c == b'-') ≡ false = ground arith in
    let plus : (c == b'+') ≡ false = ground arith in
    rw (solid, stoul, skip_space)
      (rw (minus, signed_ulong)
        (rw plus (to_ulong_digits bits (c ∷ s) (unfold starts_number in h) k)))

-- A number that was printed is read back, where the type can hold it.
stoul-to_string : (bits n : ℕ) → n < 2 ^ bits → stoul bits (to_string n) ≡ done n
unfolding to_string
stoul-to_string bits n h =
    let same : leading_number 0 (to_string n) ≡ n =
      leading_number-digits (suc n) n [] (omega arith) ∙ unfold leading_number in refl in
    stoul_digits bits (to_string n) (starts_digit-digits (suc n) n [] (omega arith)) (rw same h)
    ∙ ap done same

no_help_a : is_help (codes "-a") ≡ false
unfolding equal codes
no_help_a = refl

no_help_p : is_help (codes "-p") ≡ false
unfolding equal codes
no_help_p = refl

no_help_w : is_help (codes "-w") ≡ false
unfolding equal codes
no_help_w = refl

no_help_r : is_help (codes "-r") ≡ false
unfolding equal codes
no_help_r = refl

no_help_t : is_help (codes "-t") ≡ false
unfolding equal codes
no_help_t = refl

parse_args-option :
    (bits : ℕ) (arg v : Bytes) (c next : ServerConfig) (rest : List Bytes)
    → is_help arg ≡ false
    → set_option bits arg v c ≡ some (done next)
    → parse_args bits c (arg ∷ v ∷ rest) ≡ parse_args bits next rest
unfolding parse_args
parse_args-option bits arg v c next rest help at_option = rw (help, parse_args) (rw at_option refl)

module _ (bits : ℕ) where
  set_address :
      (v : Bytes) (c : ServerConfig)
      → set_option bits (codes "-a") v c ≡ some (done (record c { bind_address = v }))
  unfolding set_option equal codes
  set_address v c = refl

  set_root :
      (v : Bytes) (c : ServerConfig)
      → set_option bits (codes "-r") v c ≡ some (done (record c { root_directory = v }))
  unfolding set_option equal codes
  set_root v c = refl

  set_port :
      (n : ℕ) (c : ServerConfig)
      → n < 2 ^ bits
      → set_option bits (codes "-p") (to_string n) c
        ≡ some (done (record c { ftp_port = n % 2 ^ 16 }))
  unfolding set_option with_number equal codes
  set_port n c h =
      ap (λ o. some (with_number (λ n. record c { ftp_port = n % 2 ^ 16 }) o))
        (stoul-to_string bits n h)

  set_webdav_port :
      (n : ℕ) (c : ServerConfig)
      → n < 2 ^ bits
      → set_option bits (codes "-w") (to_string n) c
        ≡ some (done (record c { webdav_port = n % 2 ^ 16 }))
  unfolding set_option with_number equal codes
  set_webdav_port n c h =
      ap (λ o. some (with_number (λ n. record c { webdav_port = n % 2 ^ 16 }) o))
        (stoul-to_string bits n h)

  set_threads :
      (n : ℕ) (c : ServerConfig)
      → n < 2 ^ bits
      → set_option bits (codes "-t") (to_string n) c ≡ some (done (record c { io_pool_size = n }))
  unfolding set_option with_number equal codes
  set_threads n c h =
      ap (λ o. some (with_number (λ n. record c { io_pool_size = n }) o)) (stoul-to_string bits n h)

-- A configuration's command line.
abbrev pub arguments : ServerConfig → List Bytes
arguments c =
    codes "-a"
    ∷ c.bind_address
    ∷ codes "-p"
    ∷ to_string c.ftp_port
    ∷ codes "-w"
    ∷ to_string c.webdav_port
    ∷ codes "-r"
    ∷ c.root_directory
    ∷ codes "-t"
    ∷ to_string c.io_pool_size
    ∷ []

-- The command line of a configuration sets the five fields that it has options for, whatever they were:
-- the addresses and the number of threads as they are, the ports modulo 2 ^ 16, with no error for one
-- that is too large. The numbers have to fit into `unsigned long`.
pub parse_args-arguments :
    (bits : ℕ) (c d : ServerConfig)
    → c.ftp_port < 2 ^ bits
    → c.webdav_port < 2 ^ bits
    → c.io_pool_size < 2 ^ bits
    → parse_args bits d (arguments c)
      ≡ done (
          some (record d {
            bind_address = c.bind_address;
            ftp_port = c.ftp_port % 2 ^ 16;
            webdav_port = c.webdav_port % 2 ^ 16;
            root_directory = c.root_directory;
            io_pool_size = c.io_pool_size;
          }))
parse_args-arguments bits c d hf hw hi =
    let one = record d { bind_address = c.bind_address } in
    let two = record one { ftp_port = c.ftp_port % 2 ^ 16 } in
    let three = record two { webdav_port = c.webdav_port % 2 ^ 16 } in
    let four = record three { root_directory = c.root_directory } in
    parse_args-option bits (codes "-a") c.bind_address d one _ no_help_a
      (set_address bits c.bind_address d)
    ∙ parse_args-option bits (codes "-p") (to_string c.ftp_port) one two _ no_help_p
        (set_port bits c.ftp_port one hf)
    ∙ parse_args-option bits (codes "-w") (to_string c.webdav_port) two three _ no_help_w
        (set_webdav_port bits c.webdav_port two hw)
    ∙ parse_args-option bits (codes "-r") c.root_directory three four _ no_help_r
        (set_root bits c.root_directory three)
    ∙ parse_args-option bits (codes "-t") (to_string c.io_pool_size) four _ _ no_help_t
        (set_threads bits c.io_pool_size four hi)
    ∙ unfold parse_args in refl
