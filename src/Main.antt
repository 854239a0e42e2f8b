-- ===== src/Main.antt =====
-- `main` of netfiles/src/main.cpp: the configuration from the command line.
pub mod Arguments
use net_files.Base.{
  ℕ, ◌%◌, ◌^◌, Bool, true, false, ◌||◌, List, [], ◌∷◌, Option, none, some, Bytes, codes, equal,
  if◌then◌else◌, Outcome, done, thrown, pending,
}
use net_files.Webdav.Http.Headers.{stoul}

pub record ServerConfig : Type 0 where
  pub bind_address : Bytes
  pub ftp_port : ℕ
  pub webdav_port : ℕ
  pub root_directory : Bytes
  pub io_pool_size : ℕ
  pub use_tls : Bool
  pub cert_file : Bytes
  pub key_file : Bytes

abbrev pub default_config : ServerConfig
default_config = record {
  bind_address = codes "0.0.0.0";
  ftp_port = 21;
  webdav_port = 8080;
  root_directory = codes "d:";
  io_pool_size = 4;
  use_tls = false;
  cert_file = [];
  key_file = [];
}

abbrev pub is_option : Bytes → Bytes → Bytes → Bool
is_option short long arg = equal arg short || equal arg long

-- A field set to what `std::stoul` gives.
unfoldable pub with_number : (ℕ → ServerConfig) → Outcome ℕ → Outcome ServerConfig
with_number set (done n) = done (set n)
with_number set (thrown m) = thrown m
with_number set pending = pending

-- An option with the argument behind it; none when the argument is no option.
unfoldable pub set_option : ℕ → Bytes → Bytes → ServerConfig → Option (Outcome ServerConfig)
unfolding with_number
set_option bits arg v c =
    if is_option (codes "-a") (codes "--address") arg
    then some (done (record c { bind_address = v }))
    else if is_option (codes "-p") (codes "--port") arg
    then some (with_number (λ n. record c { ftp_port = n % 2 ^ 16 }) (stoul bits v))
    else if is_option (codes "-w") (codes "--webdav-port") arg
    then some (with_number (λ n. record c { webdav_port = n % 2 ^ 16 }) (stoul bits v))
    else if is_option (codes "-r") (codes "--root") arg
    then some (done (record c { root_directory = v }))
    else if is_option (codes "-t") (codes "--threads") arg
    then some (with_number (λ n. record c { io_pool_size = n }) (stoul bits v))
    else none

abbrev pub is_help : Bytes → Bool
is_help arg = is_option (codes "-h") (codes "--help") arg

-- The loop over the arguments behind the program's name; none when the help was asked for. What is no
-- option, or an option with nothing behind it, is passed over. `bits` is the width of `unsigned long`.
unfoldable pub parse_args : ℕ → ServerConfig → List Bytes → Outcome (Option ServerConfig)
unfolding set_option
parse_args bits c [] = done (some c)
parse_args bits c (arg ∷ []) = done (if is_help arg then none else some c)
parse_args bits c (arg ∷ v ∷ rest) = elim (is_help arg) as (λ _. Outcome (Option ServerConfig)) [
  | true ↦ done none
  | false ↦ elim (set_option bits arg v c) as (λ _. Outcome (Option ServerConfig)) [
    | none ↦ parse_args bits c (v ∷ rest)
    | some o ↦ elim o as (λ _. Outcome (Option ServerConfig)) [
      | done next ↦ parse_args bits next rest
      | thrown m ↦ thrown m
      | pending ↦ pending
    ]
  ]
]
