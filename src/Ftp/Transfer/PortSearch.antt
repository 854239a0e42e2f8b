-- ===== src/Ftp/Transfer/PortSearch.antt =====
-- The port that `DataChannelManager::find_available_port` of netfiles/src/ftp/data_channel.cpp finds.
use net_files.Base.{ℕ, zero, suc, ◌+◌, ◌-◌, ◌≤◌, ◌<◌, Bool, true, ◌≡◌, arith, Bool-cases, inl, inr}
use net_files.Ftp.Transfer.Channel.{
  Sockets, pasv_port_min, pasv_port_max, find_port, find_available_port,
}

find_port_first :
    (free : ℕ → Bool) (left port q : ℕ)
    → port ≤ q
    → q < port + left
    → free q ≡ true
    → (port ≤ find_port free left port)
      × (find_port free left port ≤ q)
      × (free (find_port free left port) ≡ true)
unfolding find_port
find_port_first free zero port q h k e = absurd (omega arith)
find_port_first free (suc left) port q h k e = elim (Bool-cases (free port)) [
  | inl f ↦ rw f (omega arith, h, f)
  | inr f ↦
      let later : port + 1 ≤ q = ground arith in
      let (a, b, c) = find_port_first free left (port + 1) q later (omega arith) e in
      rw f (omega arith, b, c)
]

-- When a port of the range can be bound, the port that is found can be, lies in the range, and does
-- not stand behind the first.
pub find_available_port_first :
    (os : Sockets) (q : ℕ)
    → pasv_port_min ≤ q
    → q ≤ pasv_port_max
    → os.can_bind q ≡ true
    → (pasv_port_min ≤ find_available_port os)
      × (find_available_port os ≤ q)
      × (os.can_bind (find_available_port os) ≡ true)
unfolding find_available_port
find_available_port_first os q h k e =
    find_port_first os.can_bind (pasv_port_max + 1 - pasv_port_min) pasv_port_min q h (omega arith)
      e
