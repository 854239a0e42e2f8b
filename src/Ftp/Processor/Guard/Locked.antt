-- ===== src/Ftp/Processor/Guard/Locked.antt =====
-- The commands of a session that has not logged in (netfiles/src/ftp/ftp_command_processor.cpp).
use net_files.Base.{
  ◌&◌, ℕ, false, [], ◌∷◌, Option, none, some, ◌≡◌, refl, Bytes, All, Outcome, done, thrown, pending,
  arith,
}
use net_files.StringUtil.{local, utf8, encode}
use net_files.Core.Utils.{parse_cmd}
use net_files.Ftp.Execute.{Host}
use net_files.Ftp.Handlers.Files.{
  if_logged_in, handle_list, handle_nlst, handle_retr, handle_stor, handle_dele, handle_rnfr,
  handle_rnto, handle_cwd, handle_pwd, handle_mkd, handle_rmd, handle_size,
}
use net_files.Ftp.Handlers.Info.{handle_mdtm, handle_noop, handle_feat, handle_opts}
use net_files.Ftp.Handlers.Login.{
  handle_user, handle_pass, handle_quit, handle_port, handle_pasv, handle_type, pasv_reply,
}
use net_files.Ftp.Processor.{
  Handler, handlers, find_handler, catch_error, run_handler, run_line, decoded, process_command,
  trim_end, command_of, argument_of,
}
use net_files.Ftp.Transfer.Channel.{create_passive_channel, listening, find_available_port}
use net_files.Ftp.Types.{Reply, enter_pasvive_mode}
use net_files.Ftp.World.{World, M, after}
use net_files.Core.Fs.Disk.{Disk}
use net_files.Ftp.Processor.Guard.{
  SameFiles, SameFiles-refl, create_passive_channel-SameFiles, find_handler-All,
  process_command-Keeps,
}

abbrev Locked : World → World → Type 0
Locked w v = w.session.authenticated ≡ false → SameFiles w v

handle_pass-Locked : (a : Bytes) (w : World) → Locked w (handle_pass a w).1
unfolding handle_pass
handle_pass-Locked a w off = ground arith

handle_port-Locked : (a : Bytes) (w : World) → Locked w (handle_port a w).1
unfolding handle_port
handle_port-Locked a w off = ground arith

handle_pasv-Locked : (h : Host) (a : Bytes) (w : World) → Locked w (handle_pasv h a w).1
unfolding handle_pasv
handle_pasv-Locked h a w off = ground (arith, create_passive_channel-SameFiles h w)

handle_type-Locked : (a : Bytes) (w : World) → Locked w (handle_type a w).1
unfolding handle_type
handle_type-Locked a w off = ground arith

handle_opts-Locked : (a : Bytes) (w : World) → Locked w (handle_opts a w).1
unfolding handle_opts
handle_opts-Locked a w off = ground arith

if_logged_in-Locked : (k : M Reply) (w : World) → Locked w (if_logged_in k w).1
if_logged_in-Locked k w off = rw off (SameFiles-refl w)

handlers-Locked :
    (h : Host) → All (λ e. (a : Bytes) (w : World) → Locked w (e.1 a w).1) (handlers h)
unfolding handlers handle_user handle_quit handle_list handle_nlst handle_retr handle_stor
    handle_dele handle_rnfr handle_rnto handle_cwd handle_pwd handle_mkd handle_rmd handle_size
    handle_mdtm handle_noop handle_feat
handlers-Locked h =
    (λ a w off. SameFiles-refl w)
    & handle_pass-Locked
    & (λ a w off. SameFiles-refl w)
    & handle_port-Locked
    & handle_pasv-Locked h
    & (λ a. if_logged_in-Locked _)
    & (λ a. if_logged_in-Locked _)
    & (λ a. if_logged_in-Locked _)
    & (λ a. if_logged_in-Locked _)
    & (λ a. if_logged_in-Locked _)
    & (λ a. if_logged_in-Locked _)
    & (λ a. if_logged_in-Locked _)
    & (λ a. if_logged_in-Locked _)
    & (λ a. if_logged_in-Locked _)
    & (λ a. if_logged_in-Locked _)
    & (λ a. if_logged_in-Locked _)
    & handle_type-Locked
    & (λ a. if_logged_in-Locked _)
    & (λ a w off. SameFiles-refl w)
    & (λ a w off. SameFiles-refl w)
    & (λ a w off. SameFiles-refl w)
    & handle_opts-Locked
    & (λ a. if_logged_in-Locked _)
    & tt

-- The same session over another tree and with other paths: what a client without a login may not see.
abbrev pub with_others : Disk → Bytes → Bytes → Bytes → World → World
with_others d root current source w = record w {
  disk = d;
  session = record w.session {
    root_directory = root;
    current_directory = current;
    rename_from_path = source;
  };
}

answered :
    (o : Outcome ℕ) (v w : World)
    → (after {B = Reply} (listening o v) (λ p u. (done (enter_pasvive_mode, pasv_reply p), u))).0
      ≡ (after {B = Reply} (listening o w) (λ p u. (done (enter_pasvive_mode, pasv_reply p), u))).0
unfolding after listening
answered (done p) v w = refl
answered (thrown m) v w = refl
answered pending v w = refl

module _ (d : Disk) (root current source : Bytes) where
  abbrev Other : World → World
  Other = with_others d root current source

  -- The reply is the same over another tree and other paths.
  abbrev IsBlind : Handler → Type 0
  IsBlind f =
      (a : Bytes) (w : World) → w.session.authenticated ≡ false → (f a (Other w)).0 ≡ (f a w).0

  handle_pass-IsBlind : IsBlind handle_pass
  unfolding handle_pass
  handle_pass-IsBlind a w off = ground arith

  handle_port-IsBlind : IsBlind handle_port
  unfolding handle_port
  handle_port-IsBlind a w off = ground arith

  handle_pasv-IsBlind : (h : Host) → IsBlind (handle_pasv h)
  unfolding handle_pasv create_passive_channel
  handle_pasv-IsBlind h a w off =
      answered (h.sockets.listen_on (find_available_port h.sockets)) (Other w) w

  handle_type-IsBlind : IsBlind handle_type
  unfolding handle_type
  handle_type-IsBlind a w off = ground arith

  handle_opts-IsBlind : IsBlind handle_opts
  unfolding handle_opts
  handle_opts-IsBlind a w off = ground arith

  if_logged_in-IsBlind :
      (k : M Reply) (w : World)
      → w.session.authenticated ≡ false
      → (if_logged_in k (Other w)).0 ≡ (if_logged_in k w).0
  if_logged_in-IsBlind k w off = rw off refl

  handlers-IsBlind : (h : Host) → All (λ e. IsBlind e.1) (handlers h)
  unfolding handlers handle_user handle_quit handle_list handle_nlst handle_retr handle_stor
      handle_dele handle_rnfr handle_rnto handle_cwd handle_pwd handle_mkd handle_rmd handle_size
      handle_mdtm handle_noop handle_feat
  handlers-IsBlind h =
      (λ a w off. refl)
      & handle_pass-IsBlind
      & (λ a w off. refl)
      & handle_port-IsBlind
      & handle_pasv-IsBlind h
      & (λ a. if_logged_in-IsBlind _)
      & (λ a. if_logged_in-IsBlind _)
      & (λ a. if_logged_in-IsBlind _)
      & (λ a. if_logged_in-IsBlind _)
      & (λ a. if_logged_in-IsBlind _)
      & (λ a. if_logged_in-IsBlind _)
      & (λ a. if_logged_in-IsBlind _)
      & (λ a. if_logged_in-IsBlind _)
      & (λ a. if_logged_in-IsBlind _)
      & (λ a. if_logged_in-IsBlind _)
      & (λ a. if_logged_in-IsBlind _)
      & handle_type-IsBlind
      & (λ a. if_logged_in-IsBlind _)
      & (λ a w off. refl)
      & (λ a w off. refl)
      & (λ a w off. refl)
      & handle_opts-IsBlind
      & (λ a. if_logged_in-IsBlind _)
      & tt

  catch_error-same :
      (r q : Outcome Reply × World) → r.0 ≡ q.0 → (catch_error r).0 ≡ (catch_error q).0
  unfolding catch_error
  catch_error-same (done r, w) (o, v) e = rw (← e) refl
  catch_error-same (thrown m, w) (o, v) e = rw (← e) refl
  catch_error-same (pending, w) (o, v) e = rw (← e) refl

  run_handler-IsBlind :
      (o : Option Handler) (k a : Bytes) (w : World)
      → w.session.authenticated ≡ false
      → ((f : Handler) → o ≡ some f → IsBlind f)
      → (run_handler o k a (Other w)).0 ≡ (run_handler o k a w).0
  unfolding run_handler
  run_handler-IsBlind none k a w off b = refl
  run_handler-IsBlind (some f) k a w off b =
      catch_error-same (f a (Other w)) (f a w) (b f refl a w off)

  run_line-IsBlind :
      (h : Host) (s : Bytes) (w : World)
      → w.session.authenticated ≡ false
      → (run_line h s (Other w)).0 ≡ (run_line h s w).0
  unfolding run_line
  run_line-IsBlind h [] w off = refl
  run_line-IsBlind h (c ∷ s) w off =
      let command = command_of (parse_cmd (c ∷ s) b' ') in
      run_handler-IsBlind (find_handler command (handlers h)) command
        (argument_of (parse_cmd (c ∷ s) b' ')) w off
        (λ f e. find_handler-All IsBlind command (handlers h) f (handlers-IsBlind h) e)

  decoded-IsBlind :
      (h : Host) (o : Outcome Bytes) (w : World)
      → w.session.authenticated ≡ false
      → (decoded h o (Other w)).0 ≡ (decoded h o w).0
  unfolding decoded
  decoded-IsBlind h (done s) w off = run_line-IsBlind h (trim_end s) w off
  decoded-IsBlind h (thrown m) w off = refl
  decoded-IsBlind h pending w off = refl

-- Before the login, whatever the line holds: the tree, the bytes sent on data connections, the current
-- directory, the root and the rename source stay as they were, and the reply tells nothing of them:
-- over any other tree, root, current directory and rename source it is the same.
pub process_command_locked :
    (h : Host) (raw : Bytes) (w : World) (d : Disk) (root current source : Bytes)
    → w.session.authenticated ≡ false
    → SameFiles w (process_command h raw w).1
      × ((process_command h raw (with_others d root current source w)).0
          ≡ (process_command h raw w).0)
unfolding process_command
process_command_locked h raw w d root current source off = (
  process_command-Keeps Locked (λ v e. SameFiles-refl v) h raw w (handlers-Locked h) off,
  decoded-IsBlind d root current source h (encode h.win32 local utf8 raw) w off,
)
