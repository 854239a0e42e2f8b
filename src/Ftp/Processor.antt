-- ===== src/Ftp/Processor.antt =====
-- `FTPCommandProcessor::process_command`, and the session's loop (netfiles/src/ftp/ftp_session.cpp).
pub mod Guard
pub mod Confined
pub mod Session
pub mod Effects
use net_files.Base.{
  ℕ, zero, suc, Bool, true, false, ◌||◌, List, [], ◌∷◌, ◌++◌, Option, none, some, Bytes, codes,
  equal, is_empty, if◌then◌else◌, ◌==◌, drop_last, Outcome, done, thrown, pending,
}
use net_files.Core.Utils.{parse_cmd, to_upper}
use net_files.StringUtil.{local, utf8, encode}
use net_files.Ftp.Execute.{Host, send_response}
use net_files.Ftp.Handlers.Files.{
  handle_list, handle_nlst, handle_retr, handle_stor, handle_dele, handle_rnfr, handle_rnto,
  handle_cwd, handle_pwd, handle_mkd, handle_rmd, handle_size,
}
use net_files.Ftp.Handlers.Info.{handle_mdtm, handle_noop, handle_feat, handle_opts}
use net_files.Ftp.Handlers.Login.{
  handle_user, handle_pass, handle_quit, handle_port, handle_pasv, handle_type,
}
use net_files.Ftp.Types.{
  Reply, ResponseCode, to_int, syntax_error, file_unavailable, service_closing_control,
}
use net_files.Ftp.World.{World, M, after}

abbrev pub Handler : Type 0
Handler = Bytes → M Reply

-- `register_all_commands`. CDUP is CWD on "..".
unfoldable pub handlers : Host → List (Bytes × Handler)
handlers h =
    (codes "USER", handle_user)
    ∷ (codes "PASS", handle_pass)
    ∷ (codes "QUIT", handle_quit)
    ∷ (codes "PORT", handle_port)
    ∷ (codes "PASV", handle_pasv h)
    ∷ (codes "LIST", handle_list h)
    ∷ (codes "NLST", handle_nlst h)
    ∷ (codes "RETR", handle_retr h)
    ∷ (codes "STOR", handle_stor h)
    ∷ (codes "DELE", handle_dele)
    ∷ (codes "RNFR", handle_rnfr)
    ∷ (codes "RNTO", handle_rnto)
    ∷ (codes "CWD", handle_cwd)
    ∷ (codes "PWD", handle_pwd)
    ∷ (codes "MKD", handle_mkd)
    ∷ (codes "RMD", handle_rmd)
    ∷ (codes "TYPE", handle_type)
    ∷ (codes "SIZE", handle_size)
    ∷ (codes "MDTM", handle_mdtm)
    ∷ (codes "NOOP", handle_noop)
    ∷ (codes "FEAT", handle_feat)
    ∷ (codes "OPTS", handle_opts)
    ∷ (codes "CDUP", λ a. handle_cwd (codes ".."))
    ∷ []

-- `handlers_.find(command)`.
unfoldable pub find_handler : Bytes → List (Bytes × Handler) → Option Handler
find_handler k [] = none
find_handler k ((j, f) ∷ r) = if equal j k then some f else find_handler k r

is_trailing : ℕ → Bool
is_trailing c = c == 13 || c == 10 || c == b' ' || c == b'\t'

-- The `while` over `back()`: a tail of blanks and line ends is dropped.
trim_step : ℕ → Bytes → Bytes
trim_step c [] = if is_trailing c then [] else c ∷ []
trim_step c (x ∷ s) = c ∷ x ∷ s

unfoldable pub trim_end : Bytes → Bytes
unfolding trim_step is_trailing
trim_end [] = []
trim_end (c ∷ s) = trim_step c (trim_end s)

-- An exception of a handler becomes a 550 reply.
unfoldable pub catch_error : Outcome Reply × World → Outcome Reply × World
catch_error (done r, w) = (done r, w)
catch_error (thrown m, w) = (done (file_unavailable, codes "Error: " ++ m), w)
catch_error (pending, w) = (pending, w)

unfoldable pub run_handler : Option Handler → Bytes → Bytes → M Reply
unfolding catch_error
run_handler none command argument w = (done (syntax_error, codes "Unknown command: " ++ command), w)
run_handler (some f) command argument w = catch_error (f argument w)

-- The command word and its argument, from the parts of the line.
abbrev pub command_of : List Bytes → Bytes
command_of [] = []
command_of (c ∷ r) = to_upper c

abbrev pub argument_of : List Bytes → Bytes
argument_of (c ∷ a ∷ r) = a
argument_of _ = []

unfoldable pub run_parts : Host → List Bytes → M Reply
unfolding run_handler find_handler
run_parts h parts w =
    run_handler (find_handler (command_of parts) (handlers h)) (command_of parts)
      (argument_of parts) w

unfoldable pub run_line : Host → Bytes → M Reply
unfolding run_parts
run_line h trimmed w =
    if is_empty trimmed
    then (done (syntax_error, codes "Empty command"), w)
    else run_parts h (parse_cmd trimmed b' ') w

unfoldable pub decoded : Host → Outcome Bytes → M Reply
unfolding run_line trim_end
decoded h (done s) w = run_line h (trim_end s) w
decoded h (thrown m) w = (thrown m, w)
decoded h pending w = (pending, w)

unfoldable pub process_command : Host → Bytes → M Reply
unfolding decoded
process_command h raw_command w = decoded h (encode h.win32 local utf8 raw_command) w

-- `process_one_command` on the line that was read. The closing reply ends the session.
unfoldable pub replied : Host → Reply → M (Unit {0})
unfolding send_response after
replied h (code, text) w = after (send_response h code text w) (λ u w'. (
  done u,
  if to_int code == to_int service_closing_control then record w' { active = false } else w',
))

unfoldable pub process_line : Host → Bytes → M (Unit {0})
unfolding replied process_command
process_line h line w =
    if is_empty line then (done tt, w) else after (process_command h line w) (replied h)

-- `start`: lines are processed as long as the session is active; an exception ends the loop.
unfoldable pub go_on : (World → World) → Outcome (Unit {0}) × World → World
go_on next (done u, w) = if w.active then next w else w
go_on next (thrown m, w) = w
go_on next (pending, w) = w

unfoldable pub command_loop : Host → List Bytes → World → World
unfolding process_line go_on
command_loop h [] w = w
command_loop h (line ∷ lines) w = go_on (command_loop h lines) (process_line h line w)
