-- ===== src/Ftp/Execute.antt =====
-- `send_response`, `execute_list`, `execute_retr` and `execute_stor` of
-- netfiles/src/ftp/ftp_session.cpp.
use net_files.Base.{
  ℕ, ◌+◌, ◌^◌, ◌%◌, Bool, false, not, ◌||◌, [], ◌∷◌, ◌++◌, Bytes, codes, is_empty, if◌then◌else◌,
  Outcome, done, thrown, pending, to_string,
}
use net_files.Core.Fs.Walk.{exists, is_directory}
use net_files.StringUtil.{Win32, local, utf8, encode}
use net_files.Ftp.PathResolver.{resolve}
use net_files.Ftp.Transfer.File.{Stream}
use net_files.Ftp.Transfer.Channel.{Sockets, establish_data_connection}
use net_files.Ftp.Transfer.Listing.{Attributes, send_listing, send_directory_listing}
use net_files.Ftp.Transfer.Loops.{max_size, send_file, receive_file}
use net_files.Ftp.Types.{
  ResponseCode, to_int, data_connection_open, file_action_completed, file_unavailable, Reply,
}
use net_files.Ftp.World.{World, M, after, ◌>>◌, pure}

-- What the program runs on and does not implement.
pub record Host : Type 0 where
  pub win32 : Win32
  pub sockets : Sockets
  pub attributes : Attributes
  pub stream : Stream
  pub control_send : Bytes → Outcome (Unit {0})

abbrev pub crlf : Bytes
crlf = 13 ∷ 10 ∷ []

unfoldable pub write_control : Outcome (Unit {0}) → Bytes → M (Unit {0})
write_control (done u) text w = (done u, record w { control_out = w.control_out ++ text ∷ [] })
write_control (thrown m) text w = (thrown m, w)
write_control pending text w = (pending, w)

unfoldable pub send_encoded : Host → Outcome Bytes → M (Unit {0})
unfolding write_control
send_encoded h (done text) w = write_control (h.control_send text) text w
send_encoded h (thrown m) w = (thrown m, w)
send_encoded h pending w = (pending, w)

unfoldable pub send_response : Host → ResponseCode → Bytes → M (Unit {0})
unfolding send_encoded
send_response h code text w =
    send_encoded h (encode h.win32 utf8 local (to_string (to_int code) ++ (b' ' ∷ (text ++ crlf))))
      w

-- The session's own resolution of a command's path.
abbrev pub resolve_in : World → Bytes → Bytes
resolve_in w path = resolve w.disk w.session.current_directory w.session.root_directory path

-- `bytes_transferred` is a `std::size_t`.
abbrev pub count_bytes : ℕ → M Reply
count_bytes n w = (
  done (file_action_completed, codes "Transfer complete (" ++ (to_string n ++ codes " bytes)")),
  record w {
    session = record w.session { bytes_transferred = (w.session.bytes_transferred + n) % 2 ^ 64 };
  },
)

-- The listing of what the path names; for a file the list of entries stays empty.
unfoldable pub list_path : Host → Bytes → Bool → M Reply
list_path h full detailed w =
    if is_empty full || not (exists w.disk full)
    then (done (file_unavailable, codes "Directory not found"), w)
    else if is_directory w.disk full
    then after (send_directory_listing h.attributes full detailed w)
        (λ _. pure (file_action_completed, codes "Transfer complete"))
    else after (send_listing [] w) (λ _. pure (file_action_completed, codes "Transfer complete"))

unfoldable pub execute_list : Host → Bytes → Bool → M Reply
unfolding list_path send_response establish_data_connection after
execute_list h path detailed = do
  send_response h data_connection_open (codes "Opening ASCII mode data connection for file list")
  establish_data_connection h.sockets
  λ w. list_path h (resolve_in w path) detailed w

unfoldable pub retr_path : Host → Bytes → M Reply
retr_path h full w =
    if is_empty full || not (exists w.disk full)
    then (done (file_unavailable, codes "File not found"), w)
    else after (send_file h.stream full 0 max_size w) count_bytes

unfoldable pub execute_retr : Host → Bytes → M Reply
unfolding retr_path send_response establish_data_connection after
execute_retr h filename = do
  send_response h data_connection_open
      (codes "Opening BINARY mode data connection for file transfer")
  establish_data_connection h.sockets
  λ w. retr_path h (resolve_in w filename) w

unfoldable pub stor_path : Host → Bytes → M Reply
stor_path h full w =
    if is_empty full
    then (done (file_unavailable, codes "Invalid path"), w)
    else after (receive_file h.stream full false max_size w) count_bytes

unfoldable pub execute_stor : Host → Bytes → M Reply
unfolding stor_path send_response establish_data_connection after
execute_stor h filename = do
  send_response h data_connection_open (codes "Opening BINARY mode data connection for file upload")
  establish_data_connection h.sockets
  λ w. stor_path h (resolve_in w filename) w
