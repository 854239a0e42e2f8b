-- ===== src/Tests/Commands.antt =====
-- The theorems on the FTP session and its commands, at the small site.
use net_files.Base.{
  List, true, false, [], ◌∷◌, ◌≡◌, ◌≢◌, refl, ◌⊎◌, codes, to_string, ◌*◌, ◌+◌, arith,
}
use net_files.Core.Fs.Disk.{Disk, node_at}
use net_files.Core.Utils.{parse_cmd, to_upper}
use net_files.Ftp.PathResolver.{IsInside}
use net_files.Ftp.Processor.{
  process_command, process_line, command_loop, trim_end, find_handler, handlers,
}
use net_files.Ftp.Processor.Confined.{process_command-Confined}
use net_files.Ftp.Processor.Effects.{command_loop_quit}
use net_files.Ftp.Processor.Effects.Errors.{command_loop_thrown}
use net_files.Ftp.Processor.Guard.{SameFiles}
use net_files.Ftp.Processor.Guard.Locked.{with_others, process_command_locked}
use net_files.Ftp.Processor.Session.{
  process_command_login, process_command_stays, process_command_directory,
}
use net_files.Ftp.World.{ReadEvent, World, got}
use net_files.Core.Utils.{drop_cr, ends_in_cr}
use net_files.Ftp.Session.{cut_line, read_command, IsRead, read_command-IsRead}
use net_files.Base.{equal}
use net_files.Core.Utils.{join, split}
use net_files.Ftp.Execute.{send_response}
use net_files.Ftp.Handlers.Dial.{establish_data_connection-handle_port}
use net_files.Ftp.Handlers.Login.{handle_port, dotted, is_number, stoi}
use net_files.Ftp.Handlers.Ports.{six_numbers}
use net_files.Ftp.Transfer.Channel.{establish_data_connection}
use net_files.Ftp.Types.{to_int}
use net_files.StringUtil.{encode, until_nul}
use net_files.Tests.{
  secret-Outside, host, secret_names, disk, root, world, no_net, idle, working_is, idle-IsSane,
}

process_command-Confined_example :
    node_at (process_command host (codes "DELE a.txt") idle).1.disk secret_names
    ≡ node_at disk secret_names
process_command-Confined_example =
    process_command-Confined host (codes "DELE a.txt") idle secret_names idle-IsSane secret-Outside

process_command_login_example : (idle.session.authenticated ≡ true) ⊎ (idle.session.username ≢ [])
process_command_login_example =
    process_command_login host (codes "NOOP") idle
      (process_command_stays host (codes "NOOP") idle refl)

process_command_directory_example :
    ((process_command host (codes "CWD ..") idle).1.session.current_directory ≡ root)
    ⊎ IsInside disk root (process_command host (codes "CWD ..") idle).1.session.current_directory
process_command_directory_example = process_command_directory host (codes "CWD ..") idle working_is

command_loop_quit_example :
    command_loop host (codes "quit\r" ∷ codes "DELE a.txt" ∷ []) idle
    ≡ (process_line host (codes "quit\r") idle).1
unfolding encode until_nul parse_cmd trim_end to_upper codes
command_loop_quit_example =
    command_loop_quit host (codes "quit\r") (codes "quit\r") (codes "DELE a.txt" ∷ []) idle refl
      refl refl

abbrev fresh : World
fresh = record idle { session = record idle.session { username = []; authenticated = false } }

abbrev typed : List ReadEvent
typed = got (codes "NOOP\r") ∷ got (codes "\nQU") ∷ got (codes "IT\r\n") ∷ []

read_command-IsRead_example :
    IsRead [] typed (codes "NOOP") (codes "QU") (got (codes "IT\r\n") ∷ [])
unfolding read_command cut_line drop_cr ends_in_cr codes
read_command-IsRead_example =
    read_command-IsRead [] typed (codes "NOOP") (codes "QU") (got (codes "IT\r\n") ∷ []) refl

abbrev stranger : World
stranger = world false [] no_net

abbrev empty_disk : Disk
empty_disk = record { entries = []; working = [] }

process_command_locked_example :
    SameFiles stranger (process_command host (codes "SIZE a.txt") stranger).1
    × ((process_command host
          (codes "SIZE a.txt")
          (with_others empty_disk (codes "/") (codes "/tmp") [] stranger)).0
        ≡ (process_command host (codes "SIZE a.txt") stranger).0)
process_command_locked_example =
    process_command_locked host (codes "SIZE a.txt") stranger empty_disk (codes "/") (codes "/tmp")
      [] refl

command_loop_thrown_example :
    command_loop host (codes "PORT 1,2,3,4,9999999999,1" ∷ codes "QUIT" ∷ []) idle
    ≡ command_loop host
        (codes "QUIT" ∷ [])
        (record idle { control_out = codes "550 Error: stoi\r\n" ∷ [] })
unfolding encode until_nul parse_cmd trim_end to_upper find_handler handlers equal handle_port split
    is_number stoi send_response to_int to_string codes
command_loop_thrown_example =
    command_loop_thrown host (codes "PORT 1,2,3,4,9999999999,1") (codes "PORT 1,2,3,4,9999999999,1")
      (codes "stoi") handle_port (codes "QUIT" ∷ []) idle idle
      (record idle { control_out = codes "550 Error: stoi\r\n" ∷ [] }) refl refl refl refl refl refl

establish_data_connection-handle_port_example :
    (establish_data_connection host.sockets
      (handle_port (join (six_numbers 127 0 0 1 78 52) b',') idle).1).1.net.dialled
    ≡ (dotted (to_string 127) (to_string 0) (to_string 0) (to_string 1), 78 * 256 + 52) ∷ []
establish_data_connection-handle_port_example =
    establish_data_connection-handle_port host.sockets 127 0 0 1 78 52 idle (omega arith)
      (omega arith) refl
