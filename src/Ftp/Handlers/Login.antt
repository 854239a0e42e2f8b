-- ===== src/Ftp/Handlers/Login.antt =====
-- USER, PASS, QUIT, PORT, PASV and TYPE: the handlers that change the session alone.
use net_files.Base.{
  ℕ, ◌+◌, ◌-◌, ◌*◌, ◌/◌, ◌%◌, ◌^◌, Bool, true, false, not, ◌||◌, ◌&&◌, List, [], ◌∷◌, ◌++◌, Option,
  none, some, Bytes, codes, equal, is_empty, if◌then◌else◌, ltb, within, Outcome, done, thrown,
  pending, to_string,
}
use Prim.Native.Nat.{bit_or}
use net_files.Core.Utils.{split}
use net_files.Ftp.Execute.{Host}
use net_files.Ftp.Transfer.Channel.{create_passive_channel}
use net_files.Ftp.Types.{
  active, write, Reply, need_password, not_logged_in, logged_in, service_closing_control,
  parameter_syntax_error, command_okay, enter_pasvive_mode,
}
use net_files.Ftp.World.{M, after, set_session}

unfoldable pub handle_user : Bytes → M Reply
handle_user arg w = (
  done (need_password, codes "User name OK, more password required"),
  set_session w (record w.session { username = arg }),
)

unfoldable pub handle_pass : Bytes → M Reply
handle_pass arg w =
    if is_empty w.session.username
    then (done (not_logged_in, codes "Login with USER first"), w)
    else (
      done (logged_in, codes "Login successful"),
      set_session w (record w.session { authenticated = true; permission = write }),
    )

unfoldable pub handle_quit : Bytes → M Reply
handle_quit arg w = (done (service_closing_control, codes "Goodbye"), record w { active = false })

abbrev pub is_digit : ℕ → Bool
is_digit c = within b'0' b'9' c

unfoldable pub all_digits : Bytes → Bool
all_digits [] = true
all_digits (c ∷ s) = is_digit c && all_digits s

-- `\d+`.
unfoldable pub is_number : Bytes → Bool
unfolding all_digits
is_number s = not (is_empty s) && all_digits s

-- `(\d+),(\d+),(\d+),(\d+),(\d+),(\d+)`: no number holds a comma, so the match is the split.
unfoldable pub port_groups : List Bytes → Option (Bytes × Bytes × Bytes × Bytes × Bytes × Bytes)
port_groups (a ∷ b ∷ c ∷ d ∷ e ∷ f ∷ []) =
    if is_number a && is_number b && is_number c && is_number d && is_number e && is_number f
    then some (a, b, c, d, e, f)
    else none
port_groups _ = none

unfoldable pub decimal : ℕ → Bytes → ℕ
decimal n [] = n
decimal n (c ∷ s) = decimal (n * 10 + (c - b'0')) s

-- `std::stoi` of digits: out of the range of `int` is an exception.
unfoldable pub stoi : Bytes → Outcome ℕ
unfolding decimal
stoi s = if ltb (decimal 0 s) (2 ^ 31) then done (decimal 0 s) else thrown (codes "stoi")

-- `(uint16_t(p1) << 8) | uint16_t(p2)`, kept in 16 bits. The shift is done in `int`.
unfoldable pub port_number : ℕ → ℕ → ℕ
port_number p1 p2 = bit_or ((p1 % 2 ^ 16) * 2 ^ 8) (p2 % 2 ^ 16) % 2 ^ 16

unfoldable pub dotted : Bytes → Bytes → Bytes → Bytes → Bytes
dotted a b c d = a ++ (b'.' ∷ (b ++ (b'.' ∷ (c ++ (b'.' ∷ d)))))

unfoldable pub port_set : Bytes → Outcome ℕ → Outcome ℕ → M Reply
port_set host (done p1) (done p2) w = (
  done (command_okay, codes "PORT command successful"),
  set_session w (record w.session {
    data_conn_host = host;
    data_conn_port = port_number p1 p2;
    data_conn_type = active;
  }),
)
port_set host (thrown m) p2 w = (thrown m, w)
port_set host pending p2 w = (pending, w)
port_set host (done p1) (thrown m) w = (thrown m, w)
port_set host (done p1) pending w = (pending, w)

unfoldable pub port_matched : Option (Bytes × Bytes × Bytes × Bytes × Bytes × Bytes) → M Reply
unfolding port_set
port_matched none w = (done (parameter_syntax_error, codes "Invalid PORT command"), w)
port_matched (some (a, b, c, d, e, f)) w = port_set (dotted a b c d) (stoi e) (stoi f) w

unfoldable pub handle_port : Bytes → M Reply
unfolding port_groups port_matched
handle_port arg w = port_matched (port_groups (split arg b',')) w

-- The numbers of a 227 reply. The listener stands on 127.0.0.1.
unfoldable pub pasv_reply : ℕ → Bytes
pasv_reply port =
    codes "Entering Passive Mode (127,0,0,1,"
    ++ (to_string ((port / 2 ^ 8) % 256) ++ (b',' ∷ (to_string (port % 256) ++ codes ")")))

unfoldable pub handle_pasv : Host → Bytes → M Reply
unfolding pasv_reply after
handle_pasv h arg w =
    after (create_passive_channel h.sockets w)
      (λ port w'. (done (enter_pasvive_mode, pasv_reply port), w'))

unfoldable pub handle_type : Bytes → M Reply
handle_type arg w =
    if equal arg (codes "I") || equal arg (codes "Binary")
    then (
      done (command_okay, codes "Type set to I"),
      set_session w (record w.session { representation_type = codes "I" }),
    )
    else if equal arg (codes "A") || equal arg (codes "ASCII")
    then (
      done (command_okay, codes "Type set to A"),
      set_session w (record w.session { representation_type = codes "A" }),
    )
    else (done (parameter_syntax_error, codes "Invalid type"), w)
