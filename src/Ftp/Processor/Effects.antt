-- ===== src/Ftp/Processor/Effects.antt =====
-- What single commands do, beyond what all of them keep: creation, renaming and the end of a session
-- (netfiles/src/ftp/ftp_command_processor.cpp).
pub mod Errors
use net_files.Base.{
  Bool, true, false, List, [], ◌∷◌, Option, none, some, ◌≡◌, ◌≢◌, refl, sym, ap, ◌∙◌, subst, inl,
  inr, Bytes, codes, is_empty, equal, if◌then◌else◌, ◌==◌, arith, Bool-cases, Outcome, done, thrown,
  pending, IsPrefixOf,
}
use net_files.Core.Fs.Canonical.{
  IsDirectoryAt, IsReal, IsSettled, locate-render, resolve_names-render,
}
use net_files.Core.Fs.Disk.{Components, Disk, node_at, same_path, same_path_iff, render}
use net_files.Core.Fs.Ops.{locate}
use net_files.Core.Fs.Walk.{canonical, resolve_names}
use net_files.Core.Utils.{parse_cmd, to_upper}
use net_files.Ftp.Execute.{Host, execute_stor, stor_path, resolve_in, count_bytes, send_response}
use net_files.Ftp.Handlers.Files.{
  handle_rnfr, rnfr_path, handle_mkd, handle_stor, handle_rnto, rnto_path,
}
use net_files.Ftp.Handlers.Login.{handle_quit}
use net_files.Ftp.PathResolver.{IsInside}
use net_files.Ftp.Processor.{
  Handler, catch_error, run_handler, run_parts, run_line, decoded, process_command, process_line,
  command_loop, go_on, replied, find_handler, handlers, command_of, argument_of, trim_end,
}
use net_files.Ftp.Processor.Confined.{IsSane, Resolved, resolve_in-cases, mkd_path_same_disk}
use net_files.Ftp.Processor.Session.{process_command-Bounded}
use net_files.Ftp.Quiet.{
  after-Holds, branch-Holds, Quiet, Quiet-trans, OnlyAt, send_response-Quiet,
  establish_data_connection-Quiet, receive_file-OnlyAt,
}
use net_files.Ftp.Transfer.Channel.{establish_data_connection}
use net_files.Ftp.Transfer.Loops.{max_size}
use net_files.Ftp.Types.{Reply, to_int, service_closing_control}
use net_files.Ftp.World.{World, M, after, commit}
use net_files.StringUtil.{local, utf8, encode}

-- A canonical path inside is a sane rename source.
inside-source :
    (w : World) (s : Bytes) (p : Components) (base : Bytes)
    → IsInside w.disk w.session.root_directory s
    → locate w.disk s ≡ some p
    → canonical w.disk w.session.root_directory ≡ some base
    → IsPrefixOf base (render p)
inside-source w s p base i at_p b =
    let same_base : i.base ≡ base = ground (arith, i.base_is) in
    let names : i.names ≡ p =
      ground (arith, ap (locate w.disk) i.shown, locate-render i.names i.real) in
    subst (λ x. IsPrefixOf x (render p)) same_base
      (subst (IsPrefixOf i.base) (i.shown ∙ ap render names) i.prefix)

rnfr_path-IsSane : (w : World) (p : Bytes) → Resolved w p → IsSane w → IsSane (rnfr_path p w).1
unfolding rnfr_path
rnfr_path-IsSane w [] r s = s
rnfr_path-IsSane w (c ∷ p) (inl e) s = absurd (cc)
rnfr_path-IsSane w (c ∷ p) (inr i) s = record {
  working = s.working;
  source = λ q base. inside-source w (c ∷ p) q base i;
}

-- RNFR leaves a sane session sane: the source that it remembers has the root's prefix.
pub handle_rnfr-IsSane : (arg : Bytes) (w : World) → IsSane w → IsSane (handle_rnfr arg w).1
unfolding handle_rnfr
handle_rnfr-IsSane arg w s =
    branch-Holds IsSane w.session.authenticated _ _
      (rnfr_path-IsSane w (resolve_in w arg) (resolve_in-cases w arg s.working) s) s

-- MKD changes nothing of the tree, in whatever way it ends: the path that it makes has to exist to be
-- resolved.
pub handle_mkd_same_disk :
    (arg : Bytes) (w : World)
    → IsDirectoryAt w.disk w.disk.working
    → (handle_mkd arg w).1.disk ≡ w.disk
unfolding handle_mkd
handle_mkd_same_disk arg w h =
    branch-Holds (λ v. v.disk ≡ w.disk) w.session.authenticated _ _
      (mkd_path_same_disk w (resolve_in w arg) (resolve_in-cases w arg h)) refl

-- A real node is not where nothing is.
IsReal-apart :
    {d : Disk} (p q : Components) → IsReal d p → node_at d q ≡ none → same_path p q ≡ false
IsReal-apart {d} p q (r, settled) e = elim (Bool-cases (same_path p q)) [
  | inr n ↦ n
  | inl y ↦ absurd (subst IsSettled (ap (node_at d) ((same_path_iff p q).0 y) ∙ e) settled)
]

module _ (q : Components) where
  abbrev Absent : World → Type 0
  Absent v = node_at v.disk q ≡ none

  stor_path-Absent :
      (h : Host) (w : World) (p : Bytes) → Resolved w p → Absent w → Absent (stor_path h p w).1
  unfolding stor_path
  stor_path-Absent h w [] r e = e
  stor_path-Absent h w (c ∷ p) (inl n) e = absurd (cc)
  stor_path-Absent h w (c ∷ p) (inr i) e =
      after-Holds Absent (OnlyAt i.names w) _ count_bytes
        (receive_file-OnlyAt h.stream (c ∷ p) max_size i.names w (
          subst (λ x. resolve_names w.disk x ≡ some i.names) (sym i.shown)
            (resolve_names-render i.names i.real)))
        (λ v only. only.elsewhere q (IsReal-apart i.names q i.real e) ∙ e)
        (λ n v only. only.elsewhere q (IsReal-apart i.names q i.real e) ∙ e)

  execute_stor-Absent :
      (h : Host) (arg : Bytes) (w : World)
      → IsDirectoryAt w.disk w.disk.working
      → Absent w
      → Absent (execute_stor h arg w).1
  unfolding execute_stor
  execute_stor-Absent h arg w d e =
      after-Holds Absent (Quiet w) (send_response h _ _ w) _ (send_response-Quiet h _ _ w)
        (λ v r. ap (λ x. node_at x q) r.disk_same ∙ e)
        (λ a u r.
          after-Holds Absent (Quiet w) (establish_data_connection h.sockets u)
            (λ _ v. stor_path h (resolve_in v arg) v)
            (Quiet-trans r (establish_data_connection-Quiet h.sockets u))
            (λ v s. ap (λ x. node_at x q) s.disk_same ∙ e)
            (λ b v s.
              stor_path-Absent h v (resolve_in v arg) (resolve_in-cases v arg (rw (s.disk_same) d))
                (ap (λ x. node_at x q) s.disk_same ∙ e)))

-- STOR creates no file: where there was no node, there is none afterwards, in whatever way the
-- command ends. An upload goes into a file that is there already.
pub handle_stor_creates_nothing :
    (h : Host) (arg : Bytes) (w : World) (q : Components)
    → IsDirectoryAt w.disk w.disk.working
    → node_at w.disk q ≡ none
    → node_at (handle_stor h arg w).1.disk q ≡ none
unfolding handle_stor
handle_stor_creates_nothing h arg w q d e =
    branch-Holds (Absent q) w.session.authenticated _ _
      (branch-Holds (Absent q) (is_empty arg) _ _ e (execute_stor-Absent q h arg w d e)) e

commit_session : (v : World) (o : Outcome Disk) (r : Reply) → (commit v o r).1.session ≡ v.session
commit_session v (done d) r = refl
commit_session v (thrown m) r = refl
commit_session v pending r = refl

-- RNTO forgets nothing: the session, with its rename source, is the same afterwards.
pub handle_rnto_session : (arg : Bytes) (w : World) → (handle_rnto arg w).1.session ≡ w.session
unfolding handle_rnto rnto_path
handle_rnto_session arg w =
    let Same : World → Type 0 = λ v. v.session ≡ w.session in
    branch-Holds Same w.session.authenticated _ _
      (branch-Holds Same (is_empty w.session.rename_from_path) _ _ refl (
        branch-Holds Same (is_empty arg) _ _ refl
          (branch-Holds Same (is_empty (resolve_in w arg)) _ _ refl (commit_session w _ _))))
      refl

pick-Holds : (P : World → Type 0) (b : Bool) (v w : World) → P v → P w → P (if b then v else w)
pick-Holds P true v w p q = p
pick-Holds P false v w p q = q

process_line_root :
    (h : Host) (line : Bytes) (w : World)
    → (process_line h line w).1.session.root_directory ≡ w.session.root_directory
unfolding process_line replied
process_line_root h line w =
    let Same : World → Type 0 = λ v. v.session.root_directory ≡ w.session.root_directory in
    branch-Holds Same (is_empty line) _ _ refl (
      after-Holds Same Same (process_command h line w) (replied h)
        (process_command-Bounded h line w).root_same (λ v e. e)
        (λ (code, text) v e.
          after-Holds Same Same (send_response h code text v) _
            (ap (λ t. t.root_directory) (send_response-Quiet h code text v).session_same ∙ e)
            (λ u f. f)
            (λ a u f.
              pick-Holds Same (to_int code == to_int service_closing_control)
                (record u { active = false }) u f f)))

go_on-Holds :
    (P : World → Type 0) (next : World → World) (r : Outcome (Unit {0}) × World)
    → P r.1
    → ((v : World) → P v → P (next v))
    → P (go_on next r)
unfolding go_on
go_on-Holds P next (thrown m, w) p h = p
go_on-Holds P next (pending, w) p h = p
go_on-Holds P next (done u, w) p h = pick-Holds P w.active (next w) w (h w p) p

-- The root of a session is the same after any lines of commands.
pub command_loop_root :
    (h : Host) (lines : List Bytes) (w : World)
    → (command_loop h lines w).session.root_directory ≡ w.session.root_directory
unfolding command_loop
command_loop_root h [] w = refl
command_loop_root h (line ∷ lines) w =
    go_on-Holds (λ v. v.session.root_directory ≡ w.session.root_directory) (command_loop h lines)
      (process_line h line w) (process_line_root h line w) (λ v e. command_loop_root h lines v ∙ e)

-- What follows the closing reply.
abbrev close : Unit {0} → M (Unit {0})
close u w = (done u, record w { active = false })

closing :
    (next : World → World) (r : Outcome (Unit {0}) × World)
    → go_on next (after r close) ≡ (after r close).1
unfolding go_on after
closing next (done u, w) = refl
closing next (thrown m, w) = refl
closing next (pending, w) = refl

run_line_quit :
    (h : Host) (s : Bytes) (w : World)
    → command_of (parse_cmd s b' ') ≡ codes "QUIT"
    → run_line h s w
      ≡ (done (service_closing_control, codes "Goodbye"), record w { active = false })
unfolding run_line run_parts parse_cmd to_upper codes
run_line_quit h [] w q = absurd (cc)
run_line_quit h (c ∷ s) w q =
    rw q (unfold find_handler handlers equal run_handler handle_quit catch_error in refl)

-- A line whose command word is QUIT, in whatever case, ends the loop: the lines behind it are not
-- looked at, also when the reply cannot be sent.
pub command_loop_quit :
    (h : Host) (line s : Bytes) (lines : List Bytes) (w : World)
    → is_empty line ≡ false
    → encode h.win32 local utf8 line ≡ done s
    → command_of (parse_cmd (trim_end s) b' ') ≡ codes "QUIT"
    → command_loop h (line ∷ lines) w ≡ (process_line h line w).1
unfolding command_loop process_line process_command decoded replied to_int
command_loop_quit h line s lines w ne e q =
    rw (ne, e)
      (rw (run_line_quit h (trim_end s) w q) (
        unfold after in
        closing (command_loop h lines) (
          send_response h service_closing_control (codes "Goodbye") (record w { active = false }))))
