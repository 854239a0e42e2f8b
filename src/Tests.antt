-- ===== src/Tests.antt =====
-- A small site for the tests: a disk, a session, the network and the host around them.
use net_files.Base.{
  List, Bool, true, false, [], ◌∷◌, ◌++◌, none, some, ◌≡◌, ◌≢◌, refl, leb, ◌≤◌, ◌+◌, ◌*◌, to_string,
  ◌↔◌, subst, ◌⊎◌, Bytes, codes, ltb, done, thrown, starts_with, All, Lacks, ◌==◌, if◌then◌else◌,
  equal, flatten_with, arith,
}
use net_files.Core.Fs.Canonical.{IsDirectoryAt, top-IsDirectoryAt, canonical-canonical}
use net_files.Core.Fs.Disk.{
  Components, file, directory, Disk, node_at, is_under, render, join_path, components, names_from,
  find_entry, same_path, is_absolute, ends_in_slash,
}
use net_files.Core.Fs.Ops.{locate, locate_from}
use net_files.Core.Fs.Walk.{exists, canonical, resolve_names, walk, walk_names, move_of, start_of}
use net_files.Core.Utils.{
  split, parse_cmd, to_upper, to_lower, join, SplitOnce, join-split, split-Lacks,
  parse_cmd-SplitOnce, to_upper-to_lower,
}
use net_files.Ftp.Execute.{Host}
use net_files.Ftp.Handlers.Files.{handle_rnfr, handle_mkd, handle_stor, handle_rnto}
use net_files.Ftp.Handlers.Login.{handle_pasv}
use net_files.Ftp.PathResolver.{
  resolve, under_root, IsInside, resolve-IsInside, resolve-missing, resolve_admits_sibling,
}
use net_files.Ftp.Processor.{process_command, process_line, command_loop, trim_end}
use net_files.Ftp.Processor.Confined.{IsSane, Outside, process_command-Confined}
use net_files.Ftp.Processor.Effects.{
  handle_rnfr-IsSane, handle_mkd_same_disk, handle_stor_creates_nothing, handle_rnto_session,
  command_loop_root, command_loop_quit,
}
use net_files.Ftp.Processor.Guard.{SameFiles}
use net_files.Ftp.Processor.Session.{
  handle_pasv_session, process_command_login, process_command_stays, process_command_directory,
}
use net_files.Ftp.Transfer.File.{Stream, written}
use net_files.Ftp.Transfer.Loops.{send_file, receive_file, max_size}
use net_files.Ftp.Transfer.Send.{enough, send_file_whole}
use net_files.Ftp.Transfer.Receive.{chunks_then, concat, receive_file_failed}
use net_files.Ftp.Types.{active, command_okay, SessionState, image, passive, none_granted}
use net_files.Ftp.World.{ReadEvent, set_session, World, Network, got, read_failed, took}
use net_files.Security.Access.{
  success, authenticate, authenticate_success, permits, allowed_root, check_permission,
}
use net_files.Security.Stored.{IsPlain, load_users-save_users}
use net_files.Security.Users.{AccessPermission, UserInfo, find_user, load_users, save_users}
use net_files.Webdav.Http.RequestLine.{
  parse_request_line, request_line, parse_request_line-request_line,
}
use net_files.Webdav.Http.Types.{
  get, propfind, http11, unknown, method_to_string, string_to_method, string_to_method_iff,
}
use net_files.Webdav.Http.Url.{decode_url, encode_url, decode_url-encode_url}
use net_files.Ftp.Handlers.Login.{handle_port, dotted}
use net_files.Ftp.Handlers.Ports.{six_numbers, handle_port-join}
use net_files.Ftp.Transfer.Channel.{find_available_port, pasv_port_min}
use net_files.Ftp.Transfer.PortSearch.{find_available_port_first}
use net_files.Webdav.Http.Headers.{Headers, HttpRequest, parse_headers}
use net_files.Webdav.Http.Response.{print_headers, store_all}
use net_files.Core.Utils.{drop_cr, ends_in_cr}
use net_files.Ftp.Session.{
  new_session, new_session-IsSane, cut_line, read_command, IsRead, read_command-IsRead, serve,
}
use net_files.StringUtil.{encode, until_nul}
mod Commands
mod Dav
mod Storage
mod Text
mod Strings

-- A stream of text that puts a CR before each LF, and reads none.
abbrev without_cr : Bytes → Bytes
without_cr [] = []
without_cr (c ∷ s) = let rest = without_cr s in if c == 13 then rest else c ∷ rest

abbrev pub text_stream : Stream
text_stream = record {
  get_text = without_cr;
  put_byte = λ c. if c == 10 then 13 ∷ 10 ∷ [] else c ∷ [];
}

-- ASCII text is the same in all encodings.
abbrev pub host : Host
host = record {
  win32 = record { multi_byte_to_wide_char = λ p s. s; wide_char_to_multi_byte = λ p s. s };
  sockets = record {
    can_bind = λ p. ltb 20001 p;
    listen_on = λ p. done p;
    make_address = λ a. done tt;
  };
  attributes = record { perms_of = λ p. 420; stamp_of = λ p. codes "Jan 01 12:00" };
  stream = text_stream;
  control_send = λ s. done tt;
}

abbrev pub srv : Components
srv = codes "srv" ∷ []

abbrev pub root_names : Components
root_names = codes "srv" ∷ codes "ftp" ∷ []

abbrev pub a_names : Components
a_names = codes "srv" ∷ codes "ftp" ∷ codes "a.txt" ∷ []

abbrev pub secret_names : Components
secret_names = codes "srv" ∷ codes "other" ∷ codes "b.txt" ∷ []

abbrev pub disk : Disk
disk = record {
  entries =
      (srv, directory)
      ∷ (root_names, directory)
      ∷ (a_names, file (codes "he\r\nllo"))
      ∷ ((codes "srv" ∷ codes "ftp2" ∷ []), directory)
      ∷ ((codes "srv" ∷ codes "other" ∷ []), directory)
      ∷ (secret_names, file (codes "secret"))
      ∷ [];
  working = [];
}

abbrev pub root : Bytes
root = codes "/srv/ftp"

abbrev pub session : Bool → Bytes → SessionState
session on source = record {
  username = codes "anna";
  authenticated = on;
  permission = none_granted;
  current_directory = root;
  root_directory = root;
  transfer_mode = image;
  representation_type = codes "I";
  data_conn_type = passive;
  data_conn_port = 0;
  data_conn_host = [];
  rename_from_path = source;
  login_time = 0;
  bytes_transferred = 0;
}

abbrev pub world : Bool → Bytes → Network → World
world on source net = record {
  session = session on source;
  active = true;
  acceptor = some 20002;
  passive_port = 20002;
  disk = disk;
  net = net;
  control_out = [];
  data_out = [];
}

abbrev pub no_net : Network
no_net = record { dialled = []; connections = []; reads = []; writes = [] }

abbrev pub idle : World
idle = world true [] no_net

pub working_is : IsDirectoryAt disk []
working_is = top-IsDirectoryAt disk

pub root_is : canonical disk root ≡ some root
unfolding canonical resolve_names walk walk_names components names_from move_of equal node_at
    find_entry same_path is_absolute starts_with render flatten_with join_path ends_in_slash
    start_of locate locate_from codes
root_is = refl

pub root_resolves : resolve_names disk (codes "/srv/ftp/a.txt") ≡ some a_names
unfolding canonical resolve_names walk walk_names components names_from move_of equal node_at
    find_entry same_path is_absolute starts_with render flatten_with join_path ends_in_slash
    start_of locate locate_from codes
root_resolves = refl

pub a_resolves : resolve disk root root (codes "a.txt") ≡ codes "/srv/ftp/a.txt"
unfolding resolve under_root canonical resolve_names walk walk_names components names_from move_of
    equal node_at find_entry same_path is_absolute starts_with render flatten_with join_path
    ends_in_slash start_of locate locate_from codes
a_resolves = refl

pub secret-Outside : Outside disk root secret_names
unfolding canonical resolve_names walk walk_names components names_from move_of equal node_at
    find_entry same_path is_absolute starts_with render flatten_with join_path ends_in_slash
    start_of locate locate_from codes
secret-Outside base e =
    subst (λ b. starts_with (render secret_names) b ≡ false) {x = root} {y = base}
      (ground (arith, root_is)) refl

no_source : locate disk [] ≡ none
unfolding canonical resolve_names walk walk_names components names_from move_of equal node_at
    find_entry same_path is_absolute starts_with render flatten_with join_path ends_in_slash
    start_of locate locate_from codes
no_source = refl

pub idle-IsSane : IsSane idle
unfolding canonical resolve_names walk walk_names components names_from move_of equal node_at
    find_entry same_path is_absolute starts_with render flatten_with join_path ends_in_slash
    start_of locate locate_from codes
idle-IsSane = record { working = working_is; source = λ p base e b. absurd (cc no_source) }

-- A client that connects and sends two parts.
abbrev pub sending : Network
sending = record {
  dialled = [];
  connections = none ∷ [];
  reads = got (codes "ab\n") ∷ got (codes "c") ∷ got [] ∷ [];
  writes = [];
}
