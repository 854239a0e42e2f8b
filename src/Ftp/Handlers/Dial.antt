-- ===== src/Ftp/Handlers/Dial.antt =====
-- What a data connection dials after PORT: `handle_port` of netfiles/src/ftp/ftp_command_processor.cpp,
-- `establish_data_connection` of netfiles/src/ftp/ftp_session.cpp and `create_active_channel` of
-- netfiles/src/ftp/data_channel.cpp.
use net_files.Base.{
  ℕ, ◌+◌, ◌*◌, ◌<◌, List, [], ◌∷◌, ◌++◌, Option, none, some, ◌≡◌, refl, Bytes, done, to_string,
}
use net_files.Core.Utils.{join}
use net_files.Ftp.Handlers.Login.{dotted, handle_port}
use net_files.Ftp.Handlers.Ports.{six_numbers, handle_port-join}
use net_files.Ftp.Transfer.Channel.{
  Sockets, connect, create_active_channel, dial, open_data, establish_data_connection,
}
use net_files.Ftp.World.{World}

connect_dialled :
    (cs : List (Option Bytes)) (w : World) → (connect cs w).1.net.dialled ≡ w.net.dialled
unfolding connect
connect_dialled [] w = refl
connect_dialled (some m ∷ cs) w = refl
connect_dialled (none ∷ cs) w = refl

-- After PORT with six printed numbers, of which the last two are bytes, a data connection dials the
-- address of the first four at the port of the last two, and nothing else, where the address is one
-- that the system takes.
pub establish_data_connection-handle_port :
    (os : Sockets) (a b c d p1 p2 : ℕ) (w : World)
    → p1 < 256
    → p2 < 256
    → os.make_address (dotted (to_string a) (to_string b) (to_string c) (to_string d)) ≡ done tt
    → (establish_data_connection os
        (handle_port (join (six_numbers a b c d p1 p2) b',') w).1).1.net.dialled
      ≡ w.net.dialled
        ++ (dotted (to_string a) (to_string b) (to_string c) (to_string d), p1 * 256 + p2) ∷ []
unfolding establish_data_connection open_data
establish_data_connection-handle_port os a b c d p1 p2 w h1 h2 address =
    rw (handle_port-join a b c d p1 p2 w h1 h2)
      (rw address (unfold dial create_active_channel in connect_dialled w.net.connections _))
