-- ===== src/Ftp/Processor/Guard.antt =====
-- What every command keeps, whatever it is: lemmas over the table of handlers
-- (netfiles/src/ftp/ftp_command_processor.cpp).
pub mod Locked
use net_files.Base.{
  ◌&◌, ℕ, false, List, [], ◌∷◌, Option, none, some, ◌≡◌, refl, Bytes, equal, All, inl, inr, Outcome,
  done, thrown, pending, arith, Bool-cases, subst,
}
use net_files.StringUtil.{local, utf8, encode}
use net_files.Core.Utils.{parse_cmd}
use net_files.Ftp.Execute.{Host}
use net_files.Ftp.Handlers.Files.{
  if_logged_in, handle_list, handle_nlst, handle_retr, handle_stor, handle_dele, handle_rnfr,
  handle_rnto, handle_cwd, handle_pwd, handle_mkd, handle_rmd, handle_size,
}
use net_files.Ftp.Handlers.Info.{handle_mdtm, handle_noop, handle_feat, handle_opts}
use net_files.Ftp.Handlers.Login.{
  handle_user, handle_pass, handle_quit, handle_port, handle_pasv, handle_type,
}
use net_files.Ftp.Processor.{
  Handler, handlers, find_handler, catch_error, run_handler, run_line, decoded, process_command,
  trim_end, command_of, argument_of,
}
use net_files.Ftp.Transfer.Channel.{create_passive_channel, listening, find_available_port}
use net_files.Ftp.Types.{Reply}
use net_files.Ftp.World.{World, M}

-- What all handlers of a table have, the one that is found has.
pub find_handler-All :
    (P : Handler → Type 0) (k : Bytes) (hs : List (Bytes × Handler)) (f : Handler)
    → All (λ e. P e.1) hs
    → find_handler k hs ≡ some f
    → P f
unfolding find_handler
find_handler-All P k [] f ks e = cc
find_handler-All P k ((j, g) ∷ hs) f (kg, ks) e = elim (Bool-cases (equal j k)) [
  | inl hit ↦ subst P {x = g} {y = f} (ground arith) kg
  | inr miss ↦ find_handler-All P k hs f ks (ground arith)
]

-- A property of the world before and the world after, that doing nothing has.
module _ (R : World → World → Type 0) (same : (w : World) → R w w) where
  abbrev Keeps : Handler → Type 0
  Keeps f = (a : Bytes) (w : World) → R w (f a w).1

  catch_error-Keeps : (w : World) (r : Outcome Reply × World) → R w r.1 → R w (catch_error r).1
  unfolding catch_error
  catch_error-Keeps w (done r, w') h = h
  catch_error-Keeps w (thrown m, w') h = h
  catch_error-Keeps w (pending, w') h = h

  run_handler-Keeps :
      (o : Option Handler) (c a : Bytes) (w : World)
      → ((f : Handler) → o ≡ some f → Keeps f)
      → R w (run_handler o c a w).1
  unfolding run_handler
  run_handler-Keeps none c a w h = same w
  run_handler-Keeps (some f) c a w h = catch_error-Keeps w (f a w) (h f refl a w)

  run_line-Keeps :
      (h : Host) (s : Bytes) (w : World)
      → All (λ e. Keeps e.1) (handlers h)
      → R w (run_line h s w).1
  unfolding run_line
  run_line-Keeps h [] w ks = same w
  run_line-Keeps h (c ∷ s) w ks =
      let command = command_of (parse_cmd (c ∷ s) b' ') in
      run_handler-Keeps (find_handler command (handlers h)) command
        (argument_of (parse_cmd (c ∷ s) b' ')) w
        (λ f e. find_handler-All Keeps command (handlers h) f ks e)

  decoded-Keeps :
      (h : Host) (o : Outcome Bytes) (w : World)
      → All (λ e. Keeps e.1) (handlers h)
      → R w (decoded h o w).1
  unfolding decoded
  decoded-Keeps h (done s) w ks = run_line-Keeps h (trim_end s) w ks
  decoded-Keeps h (thrown m) w ks = same w
  decoded-Keeps h pending w ks = same w

  -- What all handlers keep, a command keeps, also where it is refused.
  pub process_command-Keeps :
      (h : Host) (raw : Bytes) (w : World)
      → All (λ e. Keeps e.1) (handlers h)
      → R w (process_command h raw w).1
  unfolding process_command
  process_command-Keeps h raw w ks = decoded-Keeps h (encode h.win32 local utf8 raw) w ks

-- The files, what the client was sent on data connections, and the paths of the session.
abbrev pub SameFiles : World → World → Type 0
SameFiles w v =
    (v.disk ≡ w.disk)
    × (v.data_out ≡ w.data_out)
    × (v.session.current_directory ≡ w.session.current_directory)
    × (v.session.root_directory ≡ w.session.root_directory)
    × (v.session.rename_from_path ≡ w.session.rename_from_path)

pub SameFiles-refl : (w : World) → SameFiles w w
SameFiles-refl w = (refl, refl, refl, refl, refl)

listening-SameFiles : (o : Outcome ℕ) (w : World) → SameFiles w (listening o w).1
unfolding listening
listening-SameFiles (done p) w = SameFiles-refl w
listening-SameFiles (thrown m) w = SameFiles-refl w
listening-SameFiles pending w = SameFiles-refl w

pub create_passive_channel-SameFiles :
    (h : Host) (w : World) → SameFiles w (create_passive_channel h.sockets w).1
unfolding create_passive_channel
create_passive_channel-SameFiles h w =
    listening-SameFiles (h.sockets.listen_on (find_available_port h.sockets)) w
