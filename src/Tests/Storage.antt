-- ===== src/Tests/Storage.antt =====
-- The theorems on paths, the tree of files and the transfers, at the small site.
use net_files.Base.{
  true, false, [], ◌∷◌, ◌++◌, none, some, ◌≡◌, ◌≢◌, refl, ◌≤◌, codes, done, thrown, starts_with,
  equal, flatten_with, arith, false, take,
}
use net_files.Core.Fs.Disk.{
  file, node_at, is_under, render, join_path, components, names_from, find_entry, same_path,
  is_absolute, ends_in_slash,
}
use net_files.Core.Fs.Canonical.{IsReal, resolve_names-IsReal}
use net_files.Core.Fs.Files.{Descriptors, seek_to, put_text, read_file, write_file}
use net_files.Core.Fs.Files.RoundTrip.{read_file-write_file}
use net_files.Core.Fs.Ops.{locate, locate_from}
use net_files.Core.Fs.Walk.{canonical, resolve_names, walk, walk_names, move_of, start_of}
use net_files.Ftp.Handlers.Files.{handle_stor}
use net_files.Ftp.PathResolver.{resolve, IsInside, resolve-IsInside, resolve_admits_sibling}
use net_files.Ftp.Processor.Effects.{handle_stor_creates_nothing}
use net_files.Ftp.Transfer.File.{written}
use net_files.Ftp.Transfer.Loops.{send_file, receive_file, max_size}
use net_files.Ftp.Transfer.Send.{enough, send_file_whole}
use net_files.Ftp.Transfer.Receive.{chunks_then, concat, receive_file_failed}
use net_files.Ftp.World.{World, Network, got, read_failed, took}
use net_files.Ftp.Transfer.Channel.{find_available_port, pasv_port_min}
use net_files.Ftp.Transfer.PortSearch.{find_available_port_first}
use net_files.Tests.{
  root_resolves, text_stream, host, srv, a_names, disk, root, world, working_is, a_resolves,
  sending,
}

two_is : codes "2" ≢ []
unfolding codes
two_is e = cc

resolve-IsInside_example : IsInside disk root (resolve disk root root (codes "a.txt"))
unfolding codes
resolve-IsInside_example =
    resolve-IsInside disk root root (codes "a.txt") working_is (λ e. cc a_resolves)

resolve_admits_sibling_example :
    (resolve disk root root (codes "../ftp2") ≡ render (srv ++ (codes "ftp" ++ codes "2") ∷ []))
    × (is_under (srv ++ codes "ftp" ∷ []) (srv ++ (codes "ftp" ++ codes "2") ∷ []) ≡ false)
unfolding canonical resolve_names walk walk_names components names_from move_of equal node_at
    find_entry same_path is_absolute starts_with render flatten_with join_path ends_in_slash
    start_of locate locate_from codes
resolve_admits_sibling_example =
    resolve_admits_sibling disk root root (codes "../ftp2") srv (codes "ftp") (codes "2") refl refl
      (λ e. absurd (two_is e))

handle_stor_creates_nothing_example :
    node_at
      (handle_stor host (codes "new.txt") (world true [] sending)).1.disk
      (codes "srv" ∷ codes "ftp" ∷ codes "new.txt" ∷ [])
    ≡ none
unfolding node_at find_entry same_path equal codes
handle_stor_creates_nothing_example =
    handle_stor_creates_nothing host (codes "new.txt") (world true [] sending)
      (codes "srv" ∷ codes "ftp" ∷ codes "new.txt" ∷ []) working_is refl

taking : World
taking = world true [] (record {
  dialled = [];
  connections = [];
  reads = [];
  writes = took 4 ∷ took 1 ∷ took 1 ∷ took 9 ∷ took 1 ∷ took 1 ∷ [];
})

send_file_whole_example :
    ((send_file text_stream (codes "/srv/ftp/a.txt") 0 max_size taking).0 ≡ done 6)
    × ((send_file text_stream (codes "/srv/ftp/a.txt") 0 max_size taking).1.data_out
        ≡ codes "he\nllo")
unfolding enough taking canonical resolve_names walk walk_names components names_from move_of equal
    node_at find_entry same_path is_absolute starts_with render flatten_with join_path ends_in_slash
    start_of locate locate_from codes
send_file_whole_example =
    send_file_whole text_stream (codes "/srv/ftp/a.txt") a_names (codes "he\r\nllo") taking refl
      refl (omega arith) refl

-- A client whose connection ends as connections do.
abbrev ending : Network
ending = record {
  dialled = [];
  connections = none ∷ [];
  reads = got (codes "ab\n") ∷ read_failed (codes "End of file") ∷ [];
  writes = [];
}

receive_file_failed_example :
    ((receive_file text_stream (codes "/srv/ftp/a.txt") false max_size (world true [] ending)).0
      ≡ thrown (codes "End of file"))
    × (node_at
          (receive_file text_stream
            (codes "/srv/ftp/a.txt")
            false
            max_size
            (world true [] ending)).1.disk
          a_names
        ≡ some (file (codes "ab\r\nllo")))
unfolding chunks_then concat written canonical resolve_names walk walk_names components names_from
    move_of equal node_at find_entry same_path is_absolute starts_with render flatten_with join_path
    ends_in_slash start_of locate locate_from codes
receive_file_failed_example =
    receive_file_failed text_stream (codes "/srv/ftp/a.txt") a_names (codes "he\r\nllo")
      (codes "ab\n" ∷ []) (codes "End of file") [] (world true [] ending) refl refl refl (refl, tt)
      (omega arith)

find_available_port_first_example :
    (pasv_port_min ≤ find_available_port host.sockets)
    × (find_available_port host.sockets ≤ 20005)
    × (host.sockets.can_bind (find_available_port host.sockets) ≡ true)
find_available_port_first_example =
    find_available_port_first host.sockets 20005 (omega arith) (omega arith) refl

a-IsReal : IsReal disk a_names
unfolding codes
a-IsReal = resolve_names-IsReal disk (codes "/srv/ftp/a.txt") a_names working_is root_resolves

-- A system with a text mode and a signed `off_t` of 32 bits.
abbrev windows : Descriptors
windows = record {
  off_bits = 32;
  get_text = λ n s. text_stream.get_text (take n s);
  put_byte = text_stream.put_byte;
  opens_directory = false;
  directory_error = codes "Permission denied";
}

read_file-write_file_example :
    ((write_file windows disk (render a_names) (codes "X\n") 3).0 ≡ done 2)
    × (read_file windows
          (write_file windows disk (render a_names) (codes "X\n") 3).1
          (render a_names)
          5
          3
        ≡ done (codes "X\no"))
unfolding node_at find_entry same_path equal codes seek_to put_text
read_file-write_file_example =
    read_file-write_file windows a_names (codes "he\r\nllo") (codes "X\n") 3 3 5 a-IsReal refl refl
