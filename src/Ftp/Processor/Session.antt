-- ===== src/Ftp/Processor/Session.antt =====
-- What a session's state can become: its root is fixed, the login goes through a user name, and the
-- current directory stays where it is or moves to a path inside.
mod Opened
use net_files.Base.{
  ◌&◌, ℕ, Bool, true, false, [], ◌∷◌, Option, none, some, ◌≡◌, ◌≢◌, refl, sym, ap, ◌∙◌, ◌⊎◌, inl,
  inr, ◌||◌, not, Bytes, codes, is_empty, if◌then◌else◌, arith, Bool-cases, Option-cases, Outcome,
  done, thrown, pending, All,
}
use net_files.Core.Fs.Canonical.{IsDirectoryAt}
use net_files.Core.Fs.Walk.{resolve_names, is_directory, exists}
use net_files.Ftp.Execute.{
  Host, execute_list, execute_retr, execute_stor, list_path, retr_path, stor_path, resolve_in,
  count_bytes, send_response,
}
use net_files.Ftp.Handlers.Files.{
  if_logged_in, need_argument, handle_list, handle_nlst, handle_retr, handle_stor, handle_dele,
  handle_rnfr, handle_rnto, handle_cwd, handle_pwd, handle_mkd, handle_rmd, handle_size, dele_path,
  rnfr_path, rnto_path, cwd_path, mkd_path, rmd_path, size_path,
}
use net_files.Ftp.Handlers.Info.{handle_mdtm, handle_noop, handle_feat, handle_opts}
use net_files.Ftp.Handlers.Login.{
  handle_user, handle_pass, handle_quit, handle_port, handle_pasv, handle_type, port_groups,
  port_set, port_matched,
}
use net_files.Ftp.PathResolver.{IsInside}
use net_files.Ftp.Processor.{handlers, process_command}
use net_files.Ftp.Processor.Confined.{Resolved, resolve_in-cases, list_path-Quiet}
use net_files.Ftp.Processor.Guard.{process_command-Keeps}
use net_files.Ftp.Quiet.{
  after-Holds, branch-Holds, Quiet, Quiet-trans, send_response-Quiet,
  establish_data_connection-Quiet, send_file-Quiet, receive_file-OnlyAt,
}
use net_files.Core.Utils.{split}
use net_files.Ftp.Transfer.Channel.{
  create_passive_channel, find_available_port, listening, establish_data_connection,
}
use net_files.Ftp.Transfer.File.{Stream, open_file}
use net_files.Ftp.Transfer.Loops.{max_size, receive_file, receive_opened}
use net_files.Ftp.Types.{Reply, ResponseCode}
use net_files.Ftp.World.{World, M, after, commit}
use net_files.Ftp.Processor.Session.Opened.{
  Bounded, Bounded-refl, session_same-Bounded, kept-Bounded, need_argument-Bounded, commit-Bounded,
  list-Bounded, retr-Bounded, stor-Bounded,
}

port_set-Bounded :
    (host : Bytes) (o1 o2 : Outcome ℕ) (w : World) → Bounded w (port_set host o1 o2 w).1
unfolding port_set
port_set-Bounded host (done p1) (done p2) w = record {
  root_same = refl;
  stays = λ e. e;
  user = λ e. inl e;
  moves = λ h. inl refl;
}
port_set-Bounded host (thrown m) p2 w = Bounded-refl w
port_set-Bounded host pending p2 w = Bounded-refl w
port_set-Bounded host (done p1) (thrown m) w = Bounded-refl w
port_set-Bounded host (done p1) pending w = Bounded-refl w

port_matched-Bounded :
    (o : Option (Bytes × Bytes × Bytes × Bytes × Bytes × Bytes)) (w : World)
    → Bounded w (port_matched o w).1
unfolding port_matched
port_matched-Bounded none w = Bounded-refl w
port_matched-Bounded (some (a, b, c, d, e, f)) w = port_set-Bounded _ _ _ w

listening_session : (o : Outcome ℕ) (w : World) → (listening o w).1.session ≡ w.session
unfolding listening
listening_session (done p) w = refl
listening_session (thrown m) w = refl
listening_session pending w = refl

-- PASV changes nothing of the session, the kind of its data connections included.
pub handle_pasv_session :
    (h : Host) (arg : Bytes) (w : World) → (handle_pasv h arg w).1.session ≡ w.session
unfolding handle_pasv create_passive_channel
handle_pasv_session h arg w =
    after-Holds (λ v. v.session ≡ w.session) (λ v. v.session ≡ w.session) _ _
      (listening_session (h.sockets.listen_on (find_available_port h.sockets)) w) (λ v e. e)
      (λ n v e. e)

module _ (arg : Bytes) (w : World) where
  user-Bounded : Bounded w (handle_user arg w).1
  unfolding handle_user
  user-Bounded = record {
    root_same = refl;
    stays = λ e. e;
    user = λ e. inl e;
    moves = λ h. inl refl;
  }

  pass-Bounded : Bounded w (handle_pass arg w).1
  unfolding handle_pass
  pass-Bounded = elim (Bool-cases (is_empty w.session.username)) [
    | inl e ↦ rw e (Bounded-refl w)
    | inr e ↦ rw e (record {
      root_same = refl;
      stays = λ h. refl;
      user = λ h. inr (λ n. ground arith);
      moves = λ h. inl refl;
    })
  ]

  port-Bounded : Bounded w (handle_port arg w).1
  unfolding handle_port
  port-Bounded = port_matched-Bounded (port_groups (split arg b',')) w

  pasv-Bounded : (h : Host) → Bounded w (handle_pasv h arg w).1
  unfolding handle_pasv
  pasv-Bounded h = session_same-Bounded w _ (handle_pasv_session h arg w)

  type-Bounded : Bounded w (handle_type arg w).1
  unfolding handle_type
  type-Bounded = ground arith

  opts-Bounded : Bounded w (handle_opts arg w).1
  unfolding handle_opts
  opts-Bounded = ground arith

  pwd-Bounded : Bounded w (handle_pwd arg w).1
  unfolding handle_pwd
  pwd-Bounded = ground arith

cwd_path-Bounded :
    (w : World) (p : Bytes)
    → (IsDirectoryAt w.disk w.disk.working → Resolved w p)
    → Bounded w (cwd_path p w).1
unfolding cwd_path
cwd_path-Bounded w [] r = Bounded-refl w
cwd_path-Bounded w (c ∷ p) r =
    branch-Holds (Bounded w) (not (exists w.disk (c ∷ p))) _ _ (Bounded-refl w) (
      branch-Holds (Bounded w) (not (is_directory w.disk (c ∷ p))) _ _ (Bounded-refl w) (record {
        root_same = refl;
        stays = λ e. e;
        user = λ e. inl e;
        moves = λ h. elim (r h) [ inl e ↦ absurd (cc) | inr i ↦ inr i ];
      }))

cwd-Bounded : (a : Bytes) (w : World) → Bounded w (handle_cwd a w).1
unfolding handle_cwd
cwd-Bounded a =
    kept-Bounded (λ w. cwd_path (resolve_in w a) w)
      (λ w. cwd_path-Bounded w (resolve_in w a) (λ h. resolve_in-cases w a h))

rnfr_path-Bounded : (w : World) (p : Bytes) → Bounded w (rnfr_path p w).1
unfolding rnfr_path
rnfr_path-Bounded w [] = Bounded-refl w
rnfr_path-Bounded w (c ∷ p) = record {
  root_same = refl;
  stays = λ e. e;
  user = λ e. inl e;
  moves = λ h. inl refl;
}

size_path-Bounded : (w : World) (p : Bytes) → Bounded w (size_path p w).1
unfolding size_path
size_path-Bounded w p =
    branch-Holds (Bounded w) (is_empty p) _ _ (Bounded-refl w)
      (branch-Holds (Bounded w) (is_directory w.disk p) _ _ (Bounded-refl w) (Bounded-refl w))

-- The calls of the file system leave the session as it was.
changed-Bounded :
    (w : World) (p : Bytes) (text : Bytes) (code : ResponseCode) (o : Outcome _) (r : Reply)
    → Bounded w (if is_empty p then (done (code, text), w) else commit w o r).1
changed-Bounded w p text code o r =
    branch-Holds (Bounded w) (is_empty p) _ _ (Bounded-refl w) (commit-Bounded w o r)

handlers-Bounded :
    (h : Host) → All (λ e. (a : Bytes) (w : World) → Bounded w (e.1 a w).1) (handlers h)
unfolding handlers handle_quit handle_list handle_nlst handle_retr handle_stor handle_dele
    handle_rnfr handle_rnto handle_rmd handle_mkd handle_size handle_mdtm handle_noop handle_feat
    dele_path rnto_path rmd_path mkd_path
handlers-Bounded h =
    user-Bounded
    & pass-Bounded
    & (λ a w. session_same-Bounded w _ refl)
    & port-Bounded
    & (λ a w. pasv-Bounded a w h)
    & (λ a. kept-Bounded _ (λ w. list-Bounded h a w true))
    & (λ a. kept-Bounded _ (λ w. list-Bounded h a w false))
    & (λ a.
        kept-Bounded _ (λ w. need_argument-Bounded a _ (execute_retr h a) w (retr-Bounded h a w)))
    & (λ a.
        kept-Bounded _ (λ w. need_argument-Bounded a _ (execute_stor h a) w (stor-Bounded h a w)))
    & (λ a. kept-Bounded _ (λ w. changed-Bounded w (resolve_in w a) _ _ _ _))
    & (λ a. kept-Bounded _ (λ w. rnfr_path-Bounded w (resolve_in w a)))
    & (λ a. kept-Bounded _ (λ w.
        branch-Holds (Bounded w) (is_empty w.session.rename_from_path) _ _ (Bounded-refl w) (
          need_argument-Bounded a _ (rnto_path (resolve_in w a)) w
            (changed-Bounded w (resolve_in w a) _ _ _ _))))
    & cwd-Bounded
    & pwd-Bounded
    & (λ a. kept-Bounded _ (λ w. changed-Bounded w (resolve_in w a) _ _ _ _))
    & (λ a. kept-Bounded _ (λ w. changed-Bounded w (resolve_in w a) _ _ _ _))
    & type-Bounded
    & (λ a. kept-Bounded _ (λ w. size_path-Bounded w (resolve_in w a)))
    & (λ a w. Bounded-refl w)
    & (λ a w. Bounded-refl w)
    & (λ a w. Bounded-refl w)
    & opts-Bounded
    & (λ a. cwd-Bounded (codes ".."))
    & tt

pub process_command-Bounded :
    (h : Host) (raw : Bytes) (w : World) → Bounded w (process_command h raw w).1
process_command-Bounded h raw w =
    process_command-Keeps Bounded Bounded-refl h raw w (handlers-Bounded h)

-- A session that is logged in after a command line was logged in before it, or had been given a user
-- name before it.
pub process_command_login :
    (h : Host) (raw : Bytes) (w : World)
    → (process_command h raw w).1.session.authenticated ≡ true
    → (w.session.authenticated ≡ true) ⊎ (w.session.username ≢ [])
process_command_login h raw w = (process_command-Bounded h raw w).user

-- Nothing logs a session out.
pub process_command_stays :
    (h : Host) (raw : Bytes) (w : World)
    → w.session.authenticated ≡ true
    → (process_command h raw w).1.session.authenticated ≡ true
process_command_stays h raw w = (process_command-Bounded h raw w).stays

-- The current directory after a command line is the one before it, or a real node whose text has the
-- text of the canonical root as a prefix, provided that the process's working directory is a directory.
pub process_command_directory :
    (h : Host) (raw : Bytes) (w : World)
    → IsDirectoryAt w.disk w.disk.working
    → ((process_command h raw w).1.session.current_directory ≡ w.session.current_directory)
      ⊎ IsInside w.disk w.session.root_directory
          (process_command h raw w).1.session.current_directory
process_command_directory h raw w = (process_command-Bounded h raw w).moves
