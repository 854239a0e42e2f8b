-- ===== src/Ftp/Transfer/Channel.antt =====
-- `DataChannelManager` (netfiles/src/ftp/data_channel.cpp) and `establish_data_connection`
-- (netfiles/src/ftp/ftp_session.cpp).
use net_files.Base.{
  ℕ, zero, suc, ◌+◌, ◌-◌, Bool, List, [], ◌∷◌, ◌++◌, Option, none, some, Bytes, codes,
  if◌then◌else◌, ◌==◌, Outcome, done, thrown, pending, to_string,
}
use net_files.Ftp.Types.{DataConnectionType, active, passive}
use net_files.Ftp.World.{World, M}

-- The system's sockets: whether a listener can be bound to a port, the local port that a listener on
-- 127.0.0.1 gets, and the check of a numeric address.
pub record Sockets : Type 0 where
  pub can_bind : ℕ → Bool
  pub listen_on : ℕ → Outcome ℕ
  pub make_address : Bytes → Outcome (Unit {0})

abbrev pub pasv_port_min : ℕ
pasv_port_min = 20000

abbrev pub pasv_port_max : ℕ
pasv_port_max = 30000

-- The loop's body over the ports from `port` on, as many as are left.
unfoldable pub find_port : (ℕ → Bool) → ℕ → ℕ → ℕ
find_port free zero port = 0
find_port free (suc left) port =
    let next = find_port free left (port + 1) in if free port then port else next

-- `find_available_port`; 0 when none can be bound.
unfoldable pub find_available_port : Sockets → ℕ
unfolding find_port
find_available_port os = find_port os.can_bind (pasv_port_max + 1 - pasv_port_min) pasv_port_min

-- The new listener takes the place of the old one.
unfoldable pub listening : Outcome ℕ → M ℕ
listening (thrown m) w = (thrown m, w)
listening pending w = (pending, w)
listening (done port) w = (done port, record w { acceptor = some port; passive_port = port })

unfoldable pub create_passive_channel : Sockets → M ℕ
unfolding find_available_port listening
create_passive_channel os w = listening (os.listen_on (find_available_port os)) w

-- A data connection comes about, or the attempt is an exception, by the next event.
unfoldable pub connect : List (Option Bytes) → World → Outcome (Unit {0}) × World
connect [] w = (pending, w)
connect (some m ∷ cs) w = (thrown m, record w { net = record w.net { connections = cs } })
connect (none ∷ cs) w = (done tt, record w { net = record w.net { connections = cs } })

-- The listener takes one connection and is gone.
unfoldable pub close_acceptor : Outcome (Unit {0}) × World → Outcome (Unit {0}) × World
close_acceptor (done u, w) = (done u, record w { acceptor = none })
close_acceptor (thrown m, w) = (thrown m, w)
close_acceptor (pending, w) = (pending, w)

unfoldable pub accept_on : Option ℕ → ℕ → M (Unit {0})
unfolding connect close_acceptor
accept_on none port w =
    (thrown (codes "No passive connection pending on port " ++ to_string port), w)
accept_on (some p) port w =
    if p == port
    then close_acceptor (connect w.net.connections w)
    else (thrown (codes "No passive connection pending on port " ++ to_string port), w)

unfoldable pub accept_passive_connection : ℕ → M (Unit {0})
unfolding accept_on
accept_passive_connection port w = accept_on w.acceptor port w

-- The socket is connected to the endpoint that is asked for: how that ends is the next event.
unfoldable pub create_active_channel : Bytes × ℕ → M (Unit {0})
unfolding connect
create_active_channel target w =
    connect w.net.connections
      (record w { net = record w.net { dialled = w.net.dialled ++ target ∷ [] } })

abbrev pub close_all : World → World
close_all w = record w { acceptor = none }

unfoldable pub dial : Outcome (Unit {0}) → M (Unit {0})
unfolding create_active_channel
dial (done u) w = create_active_channel (w.session.data_conn_host, w.session.data_conn_port) w
dial (thrown m) w = (thrown m, w)
dial pending w = (pending, w)

unfoldable pub open_data : Sockets → DataConnectionType → M (Unit {0})
unfolding dial accept_passive_connection
open_data os passive w = accept_passive_connection w.passive_port w
open_data os active w = dial (os.make_address w.session.data_conn_host) w

unfoldable pub establish_data_connection : Sockets → M (Unit {0})
unfolding open_data
establish_data_connection os w = open_data os w.session.data_conn_type w
