-- ===== src/Tests/Text.antt =====
-- The theorems on texts, the users file and the HTTP head, at concrete ones.
use net_files.Base.{
  done, true, false, [], ◌∷◌, ◌++◌, some, ◌≡◌, refl, codes, starts_with, equal, flatten_with, arith,
}
use net_files.Core.Fs.Disk.{
  node_at, render, join_path, components, names_from, find_entry, same_path, is_absolute,
  ends_in_slash,
}
use net_files.Core.Fs.Ops.{locate, locate_from}
use net_files.Core.Fs.Walk.{exists, canonical, resolve_names, walk, walk_names, move_of, start_of}
use net_files.Main.{ServerConfig, default_config, parse_args}
use net_files.Main.Arguments.{arguments, parse_args-arguments}
use net_files.Security.Access.{permits, allowed_root, check_permission}
use net_files.Security.Access.Granted.{IsGranted, check_permission-IsGranted}
use net_files.Security.Stored.{IsPlain, load_users-save_users}
use net_files.Base.{Bytes}
use net_files.Core.Utils.{getlines}
use net_files.Security.LastLine.{last_named, find_user-load_users}
use net_files.Security.Users.{
  parse_permission, parse_enabled, AccessPermission, UserInfo, find_user, load_users, save_users,
}
use net_files.Webdav.Http.RequestLine.{
  parse_request_line, request_line, parse_request_line-request_line,
}
use net_files.Webdav.Http.Types.{get, propfind, http11, unknown}
use net_files.Webdav.Http.Url.{decode_url, encode_url, decode_url-encode_url}
use net_files.Webdav.Http.Headers.{Headers, HttpRequest}
use net_files.Tests.{disk}

abbrev anna : UserInfo
anna = record {
  username = codes "anna";
  password_hash = codes "pw";
  home_directory = codes "/srv/ftp";
  permission = AccessPermission.write;
  enabled = true;
}

abbrev bob : UserInfo
bob = record {
  username = codes "bob";
  password_hash = [];
  home_directory = [];
  permission = AccessPermission.nothing;
  enabled = false;
}

anna-IsPlain : IsPlain anna
unfolding codes
anna-IsPlain = record {
  name_fits = ground arith;
  hash_fits = ground arith;
  home_fits = ground arith;
  not_execute = λ e. cc;
  not_full = λ e. cc;
}

bob-IsPlain : IsPlain bob
unfolding codes
bob-IsPlain = record {
  name_fits = ground arith;
  hash_fits = ground arith;
  home_fits = ground arith;
  not_execute = λ e. cc;
  not_full = λ e. cc;
}

load_users-save_users_example : load_users (some (save_users (anna ∷ bob ∷ []))) ≡ anna ∷ bob ∷ []
unfolding equal codes
load_users-save_users_example =
    load_users-save_users (anna ∷ bob ∷ []) (anna-IsPlain, (bob-IsPlain, tt)) (tt, ((refl, tt), tt))

-- Two lines with the same name, and one that is too short.
abbrev twice : Bytes
twice = codes "anna:old:/a:read:1\nanna:new:/b:write:0\nanna:x\n"

find_user-load_users_example :
    find_user (codes "anna") (load_users (some twice))
    ≡ some (record {
      username = codes "anna";
      password_hash = codes "new";
      home_directory = codes "/b";
      permission = AccessPermission.write;
      enabled = false;
    })
unfolding last_named getlines parse_permission parse_enabled equal codes
find_user-load_users_example = find_user-load_users (codes "anna") twice

check_permission-IsGranted_example :
    IsGranted disk
      (anna ∷ bob ∷ [])
      (codes "/srv")
      (codes "anna")
      (codes "/srv/ftp/a.txt")
      AccessPermission.read
unfolding check_permission permits allowed_root find_user exists canonical resolve_names walk
    walk_names components names_from move_of equal node_at find_entry same_path is_absolute
    starts_with render flatten_with join_path ends_in_slash start_of locate locate_from codes
check_permission-IsGranted_example =
    (check_permission-IsGranted disk (anna ∷ bob ∷ []) (codes "/srv") (codes "anna")
        (codes "/srv/ftp/a.txt") AccessPermission.read).0
      refl

decode_url-encode_url_example :
    decode_url (encode_url (codes "a b%/" ++ 200 ∷ [])) ≡ codes "a b%/" ++ 200 ∷ []
unfolding codes
decode_url-encode_url_example = decode_url-encode_url (codes "a b%/" ++ 200 ∷ []) (ground arith)

parse_request_line-request_line_example :
    parse_request_line (request_line propfind (codes "/my dir")) unknown
    ≡ some (propfind, codes "/my dir", http11)
unfolding codes
parse_request_line-request_line_example =
    parse_request_line-request_line propfind (codes "/my dir") unknown (ground arith)

abbrev request : HttpRequest
request = record {
  method = get;
  path = [];
  version = unknown;
  headers = [];
  body = [];
  host = [];
  if_match = [];
  if_none_match = [];
  if_modified_since = [];
  if_unmodified_since = [];
  authorization = [];
  depth = [];
  destination = [];
  overwrite = [];
  lock_token = [];
  content_type = [];
  content_length = 0;
}

abbrev sent_headers : Headers
sent_headers = (codes "Host", codes "a.org") ∷ (codes "Content-Length", codes "12") ∷ []

abbrev wanted : ServerConfig
wanted = record default_config {
  bind_address = codes "127.0.0.1";
  ftp_port = 2121;
  webdav_port = 70000;
  io_pool_size = 2;
}

parse_args-arguments_example :
    parse_args 32 default_config (arguments wanted)
    ≡ done (some (record wanted { webdav_port = 4464 }))
unfolding codes
parse_args-arguments_example =
    parse_args-arguments 32 wanted default_config (omega arith) (omega arith) (omega arith)
