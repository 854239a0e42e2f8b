-- ===== src/Ftp/Processor/Effects/Errors.antt =====
-- What becomes of an exception that a handler throws (`process_command` of
-- netfiles/src/ftp/ftp_command_processor.cpp and the loop of netfiles/src/ftp/ftp_session.cpp).
use net_files.Base.{
  true, false, List, [], ◌∷◌, ◌++◌, some, ◌≡◌, refl, ◌∙◌, ap, Bytes, codes, is_empty, equal, done,
  thrown,
}
use net_files.Core.Utils.{parse_cmd, to_upper}
use net_files.Ftp.Execute.{Host, send_response}
use net_files.Ftp.Processor.{
  Handler, catch_error, run_handler, run_parts, run_line, decoded, process_command, process_line,
  command_loop, go_on, replied, find_handler, handlers, command_of, argument_of, trim_end,
}
use net_files.Ftp.Types.{to_int, file_unavailable}
use net_files.Ftp.World.{World, after}
use net_files.StringUtil.{local, utf8, encode}

run_line_thrown :
    (h : Host) (s m : Bytes) (f : Handler) (w v : World)
    → find_handler (command_of (parse_cmd s b' ')) (handlers h) ≡ some f
    → f (argument_of (parse_cmd s b' ')) w ≡ (thrown m, v)
    → run_line h s w ≡ (done (file_unavailable, codes "Error: " ++ m), v)
unfolding run_line run_parts
run_line_thrown h [] m f w v found e =
    absurd (unfold find_handler handlers equal parse_cmd to_upper codes in cc found)
run_line_thrown h (c ∷ s) m f w v found e =
    rw found (unfold run_handler in ap catch_error e ∙ unfold catch_error in refl)

process_line_thrown :
    (h : Host) (line s m : Bytes) (f : Handler) (w v u : World)
    → is_empty line ≡ false
    → encode h.win32 local utf8 line ≡ done s
    → find_handler (command_of (parse_cmd (trim_end s) b' ')) (handlers h) ≡ some f
    → f (argument_of (parse_cmd (trim_end s) b' ')) w ≡ (thrown m, v)
    → send_response h file_unavailable (codes "Error: " ++ m) v ≡ (done tt, u)
    → process_line h line w ≡ (done tt, u)
unfolding process_line process_command decoded replied to_int
process_line_thrown h line s m f w v u ne e found t sent =
    rw (ne, e) (rw (run_line_thrown h (trim_end s) m f w v found t) (unfold after in rw sent refl))

-- An exception of a handler ends no session: where a line's command word has a handler that throws,
-- the client is sent 550 with the exception's text, what the handler changed before is kept, and the
-- lines behind are looked at as ever, as long as that reply is sent and the session is active.
pub command_loop_thrown :
    (h : Host) (line s m : Bytes) (f : Handler) (lines : List Bytes) (w v u : World)
    → is_empty line ≡ false
    → encode h.win32 local utf8 line ≡ done s
    → find_handler (command_of (parse_cmd (trim_end s) b' ')) (handlers h) ≡ some f
    → f (argument_of (parse_cmd (trim_end s) b' ')) w ≡ (thrown m, v)
    → send_response h file_unavailable (codes "Error: " ++ m) v ≡ (done tt, u)
    → u.active ≡ true
    → command_loop h (line ∷ lines) w ≡ command_loop h lines u
unfolding command_loop
command_loop_thrown h line s m f lines w v u ne e found t sent on =
    rw (process_line_thrown h line s m f w v u ne e found t sent) (unfold go_on in rw on refl)
