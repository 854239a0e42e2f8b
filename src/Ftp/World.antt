-- ===== src/Ftp/World.antt =====
-- All that a session's coroutines read and change, and the state-and-exception monad over it.
use net_files.Base.{ℕ, Bool, List, Option, Bytes, Outcome, done, thrown, pending}
use net_files.Core.Fs.Disk.{Disk}
use net_files.Ftp.Types.{SessionState, Reply}

-- What a read of a connection gives: bytes, or an exception, as at the connection's end. Bytes are
-- one at least where the buffer is not empty; what the code does with a read of none is translated
-- all the same.
pub data ReadEvent : Type 0 where
  got : Bytes → ReadEvent
  read_failed : Bytes → ReadEvent

-- What a write takes: so many bytes of those offered, or an exception.
pub data WriteEvent : Type 0 where
  took : ℕ → WriteEvent
  write_failed : Bytes → WriteEvent

-- The client's side of the data connections, in order. When a list is used up, the next such
-- operation stays pending. `dialled` holds the endpoints (host and port) that the server has asked to
-- be connected to, in order.
pub record Network : Type 0 where
  pub dialled : List (Bytes × ℕ)
  pub connections : List (Option Bytes)
  pub reads : List ReadEvent
  pub writes : List WriteEvent

-- `acceptor` is `pasv_acceptor_`, by its local port. `control_out` and `data_out` hold what was sent.
pub record World : Type 0 where
  pub session : SessionState
  pub active : Bool
  pub acceptor : Option ℕ
  pub passive_port : ℕ
  pub disk : Disk
  pub net : Network
  pub control_out : List Bytes
  pub data_out : Bytes

abbrev pub M : Type 0 → Type 0
M A = World → Outcome A × World

-- An exception keeps the changes made before it.
unfoldable pub after : {A B : Type 0} → Outcome A × World → (A → M B) → Outcome B × World
after (done a, w) f = f a w
after (thrown e, w) f = (thrown e, w)
after (pending, w) f = (pending, w)

infixl 5 ◌>>=◌ ◌>>◌
abbrev pub ◌>>=◌ : {A B : Type 0} → M A → (A → M B) → M B
◌>>=◌ m f w = after (m w) f

abbrev pub ◌>>◌ : {B : Type 0} → M (Unit {0}) → M B → M B
◌>>◌ m k w = after (m w) (λ _. k)

abbrev pub pure : {A : Type 0} → A → M A
pure a w = (done a, w)

abbrev pub raise : {A : Type 0} → Bytes → M A
raise e w = (thrown e, w)

abbrev pub set_session : World → SessionState → World
set_session w s = record w { session = s }

-- A call of the file system, and the reply when it succeeds.
abbrev pub commit : World → Outcome Disk → Reply → Outcome Reply × World
commit w (done d) r = (done r, record w { disk = d })
commit w (thrown e) r = (thrown e, w)
commit w pending r = (pending, w)
