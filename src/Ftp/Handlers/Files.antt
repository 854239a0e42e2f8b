-- ===== src/Ftp/Handlers/Files.antt =====
-- The handlers that need a login: listings, transfers, and changes of the tree.
use net_files.Base.{
  true, false, not, ◌||◌, [], ◌∷◌, ◌++◌, Bytes, codes, is_empty, if◌then◌else◌, Outcome, done,
  thrown, pending, to_string,
}
use net_files.Core.Fs.Ops.{create_directory, remove_directory, remove_file, rename_file, file_size}
use net_files.Core.Fs.Walk.{exists, is_directory}
use net_files.Ftp.Execute.{Host, execute_list, execute_retr, execute_stor, resolve_in}
use net_files.Ftp.PathResolver.{get_relative_path}
use net_files.Ftp.Types.{
  Reply, not_logged_in, parameter_syntax_error, file_unavailable, file_action_completed,
  file_action_pending, bad_sequence, cwd_pub, directory_created, file_status_okay,
}
use net_files.Ftp.World.{M, set_session, commit}

-- The guard that these handlers begin with.
abbrev pub if_logged_in : M Reply → M Reply
if_logged_in k w =
    if w.session.authenticated then k w else (done (not_logged_in, codes "Not logged in"), w)

abbrev pub need_argument : Bytes → Bytes → M Reply → M Reply
need_argument arg text k w = if is_empty arg then (done (parameter_syntax_error, text), w) else k w

unfoldable pub handle_list : Host → Bytes → M Reply
handle_list h arg = if_logged_in (execute_list h arg true)

unfoldable pub handle_nlst : Host → Bytes → M Reply
handle_nlst h arg = if_logged_in (execute_list h arg false)

unfoldable pub handle_retr : Host → Bytes → M Reply
handle_retr h arg = if_logged_in (need_argument arg (codes "Missing filename") (execute_retr h arg))

unfoldable pub handle_stor : Host → Bytes → M Reply
handle_stor h arg = if_logged_in (need_argument arg (codes "Missing filename") (execute_stor h arg))

-- The rest of a handler, on the resolved path.
unfoldable pub dele_path : Bytes → M Reply
dele_path path w =
    if is_empty path
    then (done (file_unavailable, codes "Invalid path"), w)
    else commit w
        (if is_directory w.disk path then remove_directory w.disk path else remove_file w.disk path)
        (file_action_completed, codes "File deleted")

unfoldable pub handle_dele : Bytes → M Reply
unfolding dele_path
handle_dele arg = if_logged_in (λ w. dele_path (resolve_in w arg) w)

unfoldable pub rnfr_path : Bytes → M Reply
rnfr_path path w = if is_empty path then (done (file_unavailable, codes "Invalid path"), w) else (
  done (file_action_pending, codes "Ready for destination name"),
  set_session w (record w.session { rename_from_path = path }),
)

unfoldable pub handle_rnfr : Bytes → M Reply
unfolding rnfr_path
handle_rnfr arg = if_logged_in (λ w. rnfr_path (resolve_in w arg) w)

unfoldable pub rnto_path : Bytes → M Reply
rnto_path to w =
    if is_empty to
    then (done (file_unavailable, codes "Invalid destination path"), w)
    else commit w (rename_file w.disk w.session.rename_from_path to)
        (file_action_completed, codes "Rename successful")

unfoldable pub handle_rnto : Bytes → M Reply
unfolding rnto_path
handle_rnto arg = if_logged_in λ w.
    if is_empty w.session.rename_from_path
    then (done (bad_sequence, codes "RNFR required first"), w)
    else need_argument arg (codes "Missing destination name") (rnto_path (resolve_in w arg)) w

unfoldable pub cwd_path : Bytes → M Reply
cwd_path path w =
    if is_empty path || not (exists w.disk path)
    then (done (file_unavailable, codes "Directory not found"), w)
    else if not (is_directory w.disk path)
    then (done (file_unavailable, codes "Not a directory"), w)
    else (
      done (cwd_pub, codes "Directory changed"),
      set_session w (record w.session { current_directory = path }),
    )

unfoldable pub handle_cwd : Bytes → M Reply
unfolding cwd_path
handle_cwd arg = if_logged_in (λ w. cwd_path (resolve_in w arg) w)

quoted : Bytes → Bytes
quoted p = b'"' ∷ (p ++ b'"' ∷ [])

pwd_reply : Outcome Bytes → M Reply
unfolding quoted
pwd_reply (done p) w = (done (directory_created, quoted (if is_empty p then b'/' ∷ [] else p)), w)
pwd_reply (thrown m) w = (thrown m, w)
pwd_reply pending w = (pending, w)

unfoldable pub handle_pwd : Bytes → M Reply
unfolding pwd_reply
handle_pwd arg =
    if_logged_in λ w.
      pwd_reply (get_relative_path w.disk w.session.current_directory w.session.root_directory) w

unfoldable pub mkd_path : Bytes → M Reply
unfolding quoted
mkd_path path w =
    if is_empty path
    then (done (file_unavailable, codes "Invalid path"), w)
    else commit w (create_directory w.disk path)
        (directory_created, quoted path ++ codes " created")

unfoldable pub handle_mkd : Bytes → M Reply
unfolding mkd_path
handle_mkd arg = if_logged_in (λ w. mkd_path (resolve_in w arg) w)

unfoldable pub rmd_path : Bytes → M Reply
rmd_path path w =
    if is_empty path
    then (done (file_unavailable, codes "Invalid path"), w)
    else commit w (remove_directory w.disk path) (file_action_completed, codes "Directory removed")

unfoldable pub handle_rmd : Bytes → M Reply
unfolding rmd_path
handle_rmd arg = if_logged_in (λ w. rmd_path (resolve_in w arg) w)

unfoldable pub size_path : Bytes → M Reply
size_path path w =
    if is_empty path
    then (done (file_unavailable, codes "File not found"), w)
    else if is_directory w.disk path
    then (done (file_unavailable, codes "Is a directory"), w)
    else (done (file_status_okay, to_string (file_size w.disk path)), w)

unfoldable pub handle_size : Bytes → M Reply
unfolding size_path
handle_size arg = if_logged_in (λ w. size_path (resolve_in w arg) w)
