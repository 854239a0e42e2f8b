-- ===== src/Ftp/Processor/Confined.antt =====
-- The sandbox: no command of an FTP session changes a node whose path does not begin with the root's.
mod Paths
pub use Paths.{
  Outside, Confined, mkd_path_same_disk, Resolved, resolve_in-cases, list_path-Quiet,
  IsInside-is_under,
}
use net_files.Base.{
  ◌&◌, ℕ, Bool, true, false, List, [], ◌∷◌, ◌++◌, Option, none, some, ◌≡◌, ◌≢◌, refl, sym, ap, ◌∙◌,
  subst, ◌⊎◌, inl, inr, Bytes, codes, is_empty, equal, if◌then◌else◌, ◌||◌, not, arith,
  append_assoc, flatten_with, Bool-cases, Option-cases, Outcome, done, thrown, pending, IsPrefixOf,
  starts_with, starts_with_iff, All,
}
use net_files.Core.Fs.AtReal.{
  Beyond, BeyondOutcome, Beyond₂, BeyondOutcome₂, remove_directory-Beyond, remove_file-Beyond,
  rename_file-Beyond₂, rename_file-no_source, create_directory-IsReal,
}
use net_files.Core.Fs.Canonical.{IsReal, IsDirectoryAt, resolve_names-render}
use net_files.Core.Fs.Disk.{Components, Disk, node_at, same_path, same_path_iff, is_under, render}
use net_files.Core.Fs.Frame.{is_under-split, is_under_refl, is_under-append}
use net_files.Core.Fs.Ops.{
  locate, remove_directory, remove_file, create_directory, rename_file, message,
}
use net_files.Ftp.Transfer.Channel.{establish_data_connection}
use net_files.Ftp.Transfer.Listing.{send_listing, send_once, list_lines}
use net_files.Ftp.Transfer.Loops.{max_size}
use net_files.Core.Fs.Walk.{canonical, resolve_names, is_directory, exists}
use net_files.Ftp.Execute.{
  Host, execute_list, execute_retr, execute_stor, list_path, retr_path, stor_path, resolve_in,
  count_bytes, send_response,
}
use net_files.Ftp.Handlers.Files.{
  if_logged_in, need_argument, handle_list, handle_nlst, handle_retr, handle_stor, handle_dele,
  handle_rnfr, handle_rnto, handle_cwd, handle_pwd, handle_mkd, handle_rmd, handle_size, dele_path,
  rnfr_path, rnto_path, cwd_path, mkd_path, rmd_path, size_path,
}
use net_files.Ftp.Handlers.Info.{handle_mdtm, handle_noop, handle_feat, handle_opts}
use net_files.Ftp.Handlers.Login.{
  handle_user, handle_pass, handle_quit, handle_port, handle_pasv, handle_type,
}
use net_files.Ftp.Processor.{handlers, process_command}
use net_files.Ftp.Processor.Guard.{process_command-Keeps, create_passive_channel-SameFiles}
use net_files.Ftp.PathResolver.{resolve, IsInside, resolve-IsInside}
use net_files.Ftp.Quiet.{
  after-Holds, branch-Holds, Quiet, Quiet-refl, Quiet-trans, OnlyAt, send_response-Quiet,
  establish_data_connection-Quiet, send_directory_listing-Quiet, send_once-Quiet, send_file-Quiet,
  receive_file-OnlyAt,
}
use net_files.Ftp.Types.{Reply, ResponseCode}
use net_files.Ftp.World.{World, M, after, commit}
use Paths.{
  Confined-refl, same_disk-Confined, Outside-is_under, commit-Confined, dele_path-Confined,
  rmd_path-Confined, rnfr_path-Confined, cwd_path_same_disk, size_path_same_disk,
  stor_path-Confined, retr_path_same_disk,
}

-- What a session relies on between two commands: the working directory of the process is there, and
-- the remembered rename source, if it still stands for a path, stands for one with the root's prefix.
pub record IsSane (w : World) : Type 0 where
  pub working : IsDirectoryAt w.disk w.disk.working
  pub source :
      (p : Components) (base : Bytes)
      → locate w.disk w.session.rename_from_path ≡ some p
      → canonical w.disk w.session.root_directory ≡ some base
      → IsPrefixOf base (render p)

abbrev Boxed : World → World → Type 0
Boxed w v = IsSane w → Confined w v

commit₂-Confined :
    (w : World) (f p : Components) (o : Outcome Disk) (r : Reply)
    → ((q : Components) → Outside w.disk w.session.root_directory q → is_under f q ≡ false)
    → ((q : Components) → Outside w.disk w.session.root_directory q → is_under p q ≡ false)
    → BeyondOutcome₂ f p w.disk o
    → Confined w (commit w o r).1
commit₂-Confined w f p (done d) r hf hp h q o = h q (hf q o) (hp q o)
commit₂-Confined w f p (thrown m) r hf hp h q o = refl
commit₂-Confined w f p pending r hf hp h q o = refl

rnto_path-Confined :
    (w : World) (p : Bytes) → IsSane w → Resolved w p → Confined w (rnto_path p w).1
unfolding rnto_path
rnto_path-Confined w [] s r = Confined-refl w
rnto_path-Confined w (c ∷ p) s (inl e) = absurd (cc)
rnto_path-Confined w (c ∷ p) s (inr i) =
    elim (Option-cases (locate w.disk w.session.rename_from_path)) [
      | inl e ↦ rw (rename_file-no_source w.disk w.session.rename_from_path (c ∷ p) e) (λ q o. refl)
      | inr (f, e) ↦
          commit₂-Confined w f i.names _ _
            (λ q o.
              Outside-is_under w.disk _ i.base f q i.base_is (s.source f i.base e i.base_is) o)
            (λ q o. IsInside-is_under i q o)
            (subst
              (λ x.
                BeyondOutcome₂ f i.names w.disk (rename_file w.disk w.session.rename_from_path x))
              (sym i.shown) (rename_file-Beyond₂ w.session.rename_from_path f i.names e i.real))
    ]

-- Steps that leave the tree and the session alone may come first.
Confined-Quiet : {w v : World} (u : World) → Quiet w v → Confined v u → Confined w u
Confined-Quiet {w} {v} u q c k o =
    c k (rw (q.disk_same, q.session_same) o) ∙ ap (λ d. node_at d k) q.disk_same

-- The two steps that the three transfer commands begin with.
opened-Confined :
    (h : Host) (code : ResponseCode) (text : Bytes) (k : M Reply) (w : World)
    → ((v : World) → Quiet w v → Confined v (k v).1)
    → Confined w
        (after
          (send_response h code text w)
          (λ _ u. after (establish_data_connection h.sockets u) (λ _. k))).1
opened-Confined h code text k w go =
    after-Holds (Confined w) (Quiet w) (send_response h code text w) _
      (send_response-Quiet h code text w) (λ v q. same_disk-Confined w v q.disk_same)
      (λ a u q.
        after-Holds (Confined w) (Quiet w) (establish_data_connection h.sockets u) (λ _. k)
          (Quiet-trans q (establish_data_connection-Quiet h.sockets u))
          (λ v r. same_disk-Confined w v r.disk_same) (λ b v r. Confined-Quiet (k v).1 r (go v r)))

working-Quiet : {w v : World} → Quiet w v → IsSane w → IsDirectoryAt v.disk v.disk.working
working-Quiet q s = rw (q.disk_same) s.working

module _ (h : Host) (arg : Bytes) (w : World) where
  list-Boxed : (detailed : Bool) → Boxed w (execute_list h arg detailed w).1
  unfolding execute_list
  list-Boxed detailed s =
      opened-Confined h _ _ (λ v. list_path h (resolve_in v arg) detailed v) w
        (λ v q.
          same_disk-Confined v (list_path h (resolve_in v arg) detailed v).1
            (list_path-Quiet h (resolve_in v arg) detailed v).disk_same)

  retr-Boxed : Boxed w (execute_retr h arg w).1
  unfolding execute_retr
  retr-Boxed s =
      opened-Confined h _ _ (λ v. retr_path h (resolve_in v arg) v) w
        (λ v q.
          same_disk-Confined v (retr_path h (resolve_in v arg) v).1
            (retr_path_same_disk v h (resolve_in v arg)))

  stor-Boxed : Boxed w (execute_stor h arg w).1
  unfolding execute_stor
  stor-Boxed s =
      opened-Confined h _ _ (λ v. stor_path h (resolve_in v arg) v) w
        (λ v q.
          stor_path-Confined v h (resolve_in v arg) (resolve_in-cases v arg (working-Quiet q s)))

kept-Boxed :
    (k : M Reply) → ((w : World) → Boxed w (k w).1) → (w : World) → Boxed w (if_logged_in k w).1
kept-Boxed k go w s =
    branch-Holds (Confined w) w.session.authenticated _ _ (go w s) (Confined-refl w)

-- A handler that resolves its path and goes on with it.
Resolved-Boxed :
    (k : Bytes → M Reply) (arg : Bytes)
    → ((w : World) (p : Bytes) → IsSane w → Resolved w p → Confined w (k p w).1)
    → (w : World) → Boxed w (if_logged_in (λ v. k (resolve_in v arg) v) w).1
Resolved-Boxed k arg go =
    kept-Boxed (λ v. k (resolve_in v arg) v) (λ w s. go w _ s (resolve_in-cases w arg s.working))

need_argument-Boxed :
    (arg text : Bytes) (k : M Reply) (w : World)
    → Boxed w (k w).1
    → Boxed w (need_argument arg text k w).1
need_argument-Boxed [] text k w h s = Confined-refl w
need_argument-Boxed (c ∷ arg) text k w h s = h s

rnto-Boxed : (arg : Bytes) (w : World) → Boxed w (handle_rnto arg w).1
unfolding handle_rnto
rnto-Boxed arg = kept-Boxed _ λ w s.
    branch-Holds (Confined w) (is_empty w.session.rename_from_path) _ _ (Confined-refl w) (
      need_argument-Boxed arg _ (rnto_path (resolve_in w arg)) w
        (λ s'. rnto_path-Confined w _ s' (resolve_in-cases w arg s'.working)) s)

mkd-Boxed : (arg : Bytes) (w : World) → Boxed w (handle_mkd arg w).1
unfolding handle_mkd
mkd-Boxed arg =
    Resolved-Boxed mkd_path arg
      (λ w p s r. same_disk-Confined w (mkd_path p w).1 (mkd_path_same_disk w p r))

same_disk-Boxed : (w v : World) → v.disk ≡ w.disk → Boxed w v
same_disk-Boxed w v e s = same_disk-Confined w v e

module _ (arg : Bytes) (w : World) where
  pass-Boxed : Boxed w (handle_pass arg w).1
  unfolding handle_pass
  pass-Boxed = same_disk-Boxed w (handle_pass arg w).1 (ground arith)

  port-Boxed : Boxed w (handle_port arg w).1
  unfolding handle_port
  port-Boxed = same_disk-Boxed w (handle_port arg w).1 (ground arith)

  pasv-Boxed : (h : Host) → Boxed w (handle_pasv h arg w).1
  unfolding handle_pasv
  pasv-Boxed h =
      same_disk-Boxed w (handle_pasv h arg w).1
        (ground (arith, create_passive_channel-SameFiles h w))

  type-Boxed : Boxed w (handle_type arg w).1
  unfolding handle_type
  type-Boxed = same_disk-Boxed w (handle_type arg w).1 (ground arith)

  opts-Boxed : Boxed w (handle_opts arg w).1
  unfolding handle_opts
  opts-Boxed = same_disk-Boxed w (handle_opts arg w).1 (ground arith)

  pwd-Boxed : Boxed w (handle_pwd arg w).1
  unfolding handle_pwd
  pwd-Boxed = same_disk-Boxed w (handle_pwd arg w).1 (ground arith)

cwd-Boxed : (a : Bytes) (w : World) → Boxed w (handle_cwd a w).1
unfolding handle_cwd
cwd-Boxed a =
    Resolved-Boxed cwd_path a
      (λ w p s r. same_disk-Confined w (cwd_path p w).1 (cwd_path_same_disk w p))

handlers-Boxed : (h : Host) → All (λ e. (a : Bytes) (w : World) → Boxed w (e.1 a w).1) (handlers h)
unfolding handlers handle_user handle_quit handle_list handle_nlst handle_retr handle_stor
    handle_dele handle_rnfr handle_cwd handle_rmd handle_size handle_mdtm handle_noop handle_feat
handlers-Boxed h =
    (λ a w s. Confined-refl w)
    & pass-Boxed
    & (λ a w s. Confined-refl w)
    & port-Boxed
    & (λ a w. pasv-Boxed a w h)
    & (λ a. kept-Boxed _ (λ w. list-Boxed h a w true))
    & (λ a. kept-Boxed _ (λ w. list-Boxed h a w false))
    & (λ a. kept-Boxed _ (λ w. need_argument-Boxed a _ (execute_retr h a) w (retr-Boxed h a w)))
    & (λ a. kept-Boxed _ (λ w. need_argument-Boxed a _ (execute_stor h a) w (stor-Boxed h a w)))
    & (λ a. Resolved-Boxed dele_path a (λ w p s. dele_path-Confined w p))
    & (λ a. Resolved-Boxed rnfr_path a (λ w p s r. rnfr_path-Confined w p))
    & rnto-Boxed
    & cwd-Boxed
    & pwd-Boxed
    & mkd-Boxed
    & (λ a. Resolved-Boxed rmd_path a (λ w p s. rmd_path-Confined w p))
    & type-Boxed
    & (λ a.
        Resolved-Boxed size_path a
          (λ w p s r. same_disk-Confined w (size_path p w).1 (size_path_same_disk w p)))
    & (λ a w s. Confined-refl w)
    & (λ a w s. Confined-refl w)
    & (λ a w s. Confined-refl w)
    & opts-Boxed
    & (λ a. cwd-Boxed (codes ".."))
    & tt

-- The sandbox: in a session whose rename source and working directory are sane, no command line
-- changes a node whose path's text does not begin with the text of the canonical root.
pub process_command-Confined :
    (h : Host) (raw : Bytes) (w : World) (q : Components)
    → IsSane w
    → Outside w.disk w.session.root_directory q
    → node_at (process_command h raw w).1.disk q ≡ node_at w.disk q
process_command-Confined h raw w q s =
    process_command-Keeps Boxed (λ v s. Confined-refl v) h raw w (handlers-Boxed h) s q
