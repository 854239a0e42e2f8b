-- ===== src/Ftp/Quiet.antt =====
-- Which steps of a transfer leave the tree and the session's state alone, and what an upload changes.
use net_files.Base.{
  ℕ, zero, suc, ◌+◌, ◌-◌, min, Bool, true, false, List, [], ◌∷◌, Option, none, some, ◌≡◌, ◌++◌,
  refl, ◌∙◌, Bytes, is_empty, if◌then◌else◌, ltb, ◌==◌, length, Outcome, done, thrown, pending,
  arith, Bool-cases, inl, inr,
}
use net_files.Core.Fs.Disk.{Components, Disk, node_at, same_path, Node, file, directory, link}
use net_files.Core.Fs.Walk.{resolve_names}
use net_files.Core.Fs.Frame.{node_at-set_node}
use net_files.Core.Fs.Ops.{FileEntry, read_directory}
use net_files.Ftp.Execute.{Host, send_response, send_encoded, write_control}
use net_files.Ftp.Transfer.Channel.{
  Sockets, establish_data_connection, open_data, dial, connect, create_active_channel,
  close_acceptor, accept_on,
}
use net_files.Ftp.Transfer.File.{
  Stream, AsyncFile, open_node, open_file, read_chunk, write_chunk, advance_write, seek,
}
use net_files.Ftp.Transfer.Listing.{Attributes, send_once, send_entries, send_directory_listing}
use net_files.Ftp.Transfer.Loops.{
  buffer_size, send_all, send_loop, send_sought, send_opened, send_file, receive_loop,
  receive_opened, receive_file, file_bytes,
}
use net_files.Ftp.Types.{ResponseCode, DataConnectionType, active, passive}
use net_files.Ftp.World.{
  World, M, after, got, read_failed, WriteEvent, took, write_failed, ReadEvent,
}

-- A property of the last world of two steps: the first step ends in `Q`, and `Q` leads to `P`
-- whether the second step is made or not.
pub after-Holds :
    {A B : Type 0} (P Q : World → Type 0) (r : Outcome A × World) (k : A → M B)
    → Q r.1
    → ((v : World) → Q v → P v)
    → ((a : A) (v : World) → Q v → P (k a v).1)
    → P (after r k).1
unfolding after
after-Holds P Q (done a, v) k q stop go = go a v q
after-Holds P Q (thrown m, v) k q stop go = stop v q
after-Holds P Q (pending, v) k q stop go = stop v q

pub branch-Holds :
    {A : Type 0} (P : World → Type 0) (b : Bool) (x y : Outcome A × World)
    → P x.1
    → P y.1
    → P (if b then x else y).1
branch-Holds P true x y hx hy = hx
branch-Holds P false x y hx hy = hy

pub record Quiet (w v : World) : Type 0 where
  pub disk_same : v.disk ≡ w.disk
  pub session_same : v.session ≡ w.session

pub Quiet-refl : (w : World) → Quiet w w
Quiet-refl w = record { disk_same = refl; session_same = refl }

pub Quiet-trans : {w v u : World} → Quiet w v → Quiet v u → Quiet w u
Quiet-trans q r = record {
  disk_same = r.disk_same ∙ q.disk_same;
  session_same = r.session_same ∙ q.session_same;
}

write_control-Quiet :
    (o : Outcome (Unit {0})) (text : Bytes) (w : World) → Quiet w (write_control o text w).1
unfolding write_control
write_control-Quiet (done u) text w = record { disk_same = refl; session_same = refl }
write_control-Quiet (thrown m) text w = record { disk_same = refl; session_same = refl }
write_control-Quiet pending text w = record { disk_same = refl; session_same = refl }

send_encoded-Quiet : (h : Host) (o : Outcome Bytes) (w : World) → Quiet w (send_encoded h o w).1
unfolding send_encoded
send_encoded-Quiet h (done text) w = write_control-Quiet (h.control_send text) text w
send_encoded-Quiet h (thrown m) w = record { disk_same = refl; session_same = refl }
send_encoded-Quiet h pending w = record { disk_same = refl; session_same = refl }

pub send_response-Quiet :
    (h : Host) (code : ResponseCode) (text : Bytes) (w : World)
    → Quiet w (send_response h code text w).1
unfolding send_response
send_response-Quiet h code text w = send_encoded-Quiet h _ w

connect-Quiet : (cs : List (Option Bytes)) (w : World) → Quiet w (connect cs w).1
unfolding connect
connect-Quiet [] w = record { disk_same = refl; session_same = refl }
connect-Quiet (some m ∷ cs) w = record { disk_same = refl; session_same = refl }
connect-Quiet (none ∷ cs) w = record { disk_same = refl; session_same = refl }

close_acceptor-Quiet :
    (w : World) (r : Outcome (Unit {0}) × World) → Quiet w r.1 → Quiet w (close_acceptor r).1
unfolding close_acceptor
close_acceptor-Quiet w (done u, v) q = record {
  disk_same = q.disk_same;
  session_same = q.session_same;
}
close_acceptor-Quiet w (thrown m, v) q = q
close_acceptor-Quiet w (pending, v) q = q

accept_on-Quiet : (o : Option ℕ) (port : ℕ) (w : World) → Quiet w (accept_on o port w).1
unfolding accept_on
accept_on-Quiet none port w = record { disk_same = refl; session_same = refl }
accept_on-Quiet (some p) port w = elim (Bool-cases (p == port)) [
  | inl e ↦ rw e (close_acceptor-Quiet w _ (connect-Quiet w.net.connections w))
  | inr e ↦ rw e (record { disk_same = refl; session_same = refl })
]

create_active_channel-Quiet :
    (target : Bytes × ℕ) (w : World) → Quiet w (create_active_channel target w).1
unfolding create_active_channel
create_active_channel-Quiet target w =
    let asked : World = record w {
      net = record w.net { dialled = w.net.dialled ++ target ∷ [] };
    } in
    let q : Quiet asked (connect w.net.connections asked).1 =
      connect-Quiet w.net.connections asked in
    record { disk_same = q.disk_same; session_same = q.session_same }

dial-Quiet : (o : Outcome (Unit {0})) (w : World) → Quiet w (dial o w).1
unfolding dial
dial-Quiet (done u) w =
    create_active_channel-Quiet (w.session.data_conn_host, w.session.data_conn_port) w
dial-Quiet (thrown m) w = record { disk_same = refl; session_same = refl }
dial-Quiet pending w = record { disk_same = refl; session_same = refl }

open_data-Quiet : (os : Sockets) (t : DataConnectionType) (w : World) → Quiet w (open_data os t w).1
unfolding open_data
open_data-Quiet os passive w = accept_on-Quiet w.acceptor w.passive_port w
open_data-Quiet os active w = dial-Quiet (os.make_address w.session.data_conn_host) w

pub establish_data_connection-Quiet :
    (os : Sockets) (w : World) → Quiet w (establish_data_connection os w).1
unfolding establish_data_connection
establish_data_connection-Quiet os w = open_data-Quiet os w.session.data_conn_type w

pub send_once-Quiet : (s : Bytes) (w : World) → Quiet w (send_once s w).1
unfolding send_once
send_once-Quiet [] w = record { disk_same = refl; session_same = refl }
send_once-Quiet (x ∷ s) w = ground arith

send_entries-Quiet :
    (at : Attributes) (detailed : Bool) (o : Outcome (List FileEntry)) (w : World)
    → Quiet w (send_entries at detailed o w).1
unfolding send_entries
send_entries-Quiet at detailed (done es) w = send_once-Quiet _ w
send_entries-Quiet at detailed (thrown m) w = record { disk_same = refl; session_same = refl }
send_entries-Quiet at detailed pending w = record { disk_same = refl; session_same = refl }

pub send_directory_listing-Quiet :
    (at : Attributes) (path : Bytes) (detailed : Bool) (w : World)
    → Quiet w (send_directory_listing at path detailed w).1
unfolding send_directory_listing
send_directory_listing-Quiet at path detailed w =
    send_entries-Quiet at detailed (read_directory w.disk path) w

send_all-Quiet : (ws : List WriteEvent) (s : Bytes) (w : World) → Quiet w (send_all ws s w).1
unfolding send_all
send_all-Quiet ws [] w = record { disk_same = refl; session_same = refl }
send_all-Quiet [] (x ∷ s) w = record { disk_same = refl; session_same = refl }
send_all-Quiet (write_failed m ∷ ws) (x ∷ s) w = record { disk_same = refl; session_same = refl }
send_all-Quiet (took n ∷ ws) (x ∷ s) w =
    Quiet-trans (record { disk_same = refl; session_same = refl }) (send_all-Quiet ws _ _)

send_loop-Quiet :
    (st : Stream) (fuel m : ℕ) (f : AsyncFile) (total : ℕ) (w : World)
    → Quiet w (send_loop st fuel m f total w).1
unfolding send_loop
send_loop-Quiet st zero m f total w = record { disk_same = refl; session_same = refl }
send_loop-Quiet st (suc fuel) m f total w = elim (Bool-cases (ltb total m)) [
  | inr e ↦ rw e (record { disk_same = refl; session_same = refl })
  | inl e ↦
      rw e (elim (Bool-cases (is_empty (read_chunk st w.disk f (min buffer_size (m - total))))) [
        | inl z ↦ rw z (record { disk_same = refl; session_same = refl })
        | inr z ↦ rw z (
            after-Holds (Quiet w) (Quiet w) (send_all w.net.writes _ w) _
              (send_all-Quiet w.net.writes _ w) (λ v q. q)
              (λ a v q. Quiet-trans q (send_loop-Quiet st fuel m _ _ v)))
      ])
]

send_sought-Quiet :
    (st : Stream) (m : ℕ) (o : Outcome AsyncFile) (w : World) → Quiet w (send_sought st m o w).1
unfolding send_sought
send_sought-Quiet st m (thrown e) w = record { disk_same = refl; session_same = refl }
send_sought-Quiet st m pending w = record { disk_same = refl; session_same = refl }
send_sought-Quiet st m (done f) w = send_loop-Quiet st (suc (length (file_bytes st w f))) m f 0 w

send_opened-Quiet :
    (st : Stream) (offset m : ℕ) (o : Outcome AsyncFile) (w : World)
    → Quiet w (send_opened st offset m o w).1
unfolding send_opened
send_opened-Quiet st offset m (thrown e) w = record { disk_same = refl; session_same = refl }
send_opened-Quiet st offset m pending w = record { disk_same = refl; session_same = refl }
send_opened-Quiet st offset m (done f) w =
    send_sought-Quiet st m (if ltb 0 offset then seek f offset else done f) w

pub send_file-Quiet :
    (st : Stream) (path : Bytes) (offset m : ℕ) (w : World)
    → Quiet w (send_file st path offset m w).1
unfolding send_file
send_file-Quiet st path offset m w = send_opened-Quiet st offset m (open_file w.disk path) w

-- The session and every node but the one at `p` are as before.
pub record OnlyAt (p : Components) (w v : World) : Type 0 where
  pub session_same : v.session ≡ w.session
  pub elsewhere : (q : Components) → same_path p q ≡ false → node_at v.disk q ≡ node_at w.disk q

OnlyAt-refl : (p : Components) (w : World) → OnlyAt p w w
OnlyAt-refl p w = record { session_same = refl; elsewhere = λ q h. refl }

OnlyAt-trans : {p : Components} {w v u : World} → OnlyAt p w v → OnlyAt p v u → OnlyAt p w u
OnlyAt-trans a b = record {
  session_same = b.session_same ∙ a.session_same;
  elsewhere = λ q h. b.elsewhere q h ∙ a.elsewhere q h;
}

receive_loop-OnlyAt :
    (st : Stream) (rs : List ReadEvent) (m : ℕ) (f : AsyncFile) (total : ℕ) (w : World)
    → OnlyAt f.names w (receive_loop st rs m f total w).1
unfolding receive_loop advance_write
receive_loop-OnlyAt st [] m f total w = record { session_same = refl; elsewhere = λ q h. refl }
receive_loop-OnlyAt st (read_failed e ∷ rs) m f total w = elim (Bool-cases (ltb total m)) [
  | inl t ↦ rw t (record { session_same = refl; elsewhere = λ q h. refl })
  | inr t ↦ rw t (record { session_same = refl; elsewhere = λ q h. refl })
]
receive_loop-OnlyAt st (got b ∷ rs) m f total w = elim (Bool-cases (ltb total m)) [
  | inr t ↦ rw t (record { session_same = refl; elsewhere = λ q h. refl })
  | inl t ↦ rw t (elim (Bool-cases (is_empty b)) [
    | inl z ↦ rw z (record { session_same = refl; elsewhere = λ q h. refl })
    | inr z ↦ rw z (
        OnlyAt-trans {v = record w { disk = write_chunk st w.disk f b }}
          (record {
            session_same = refl;
            elsewhere = λ q h. unfold write_chunk in node_at-set_node f.names q _ w.disk h;
          })
          (receive_loop-OnlyAt st rs m (advance_write st f b) (total + length b) _))
  ])
]

-- An upload changes no node but the one that its path resolves to.
receive_opened-OnlyAt :
    (st : Stream) (m : ℕ) (p : Components) (n : Option Node) (w : World)
    → OnlyAt p w (receive_opened st false m (open_node p n) w).1
unfolding receive_opened open_node
receive_opened-OnlyAt st m p none w = OnlyAt-refl p w
receive_opened-OnlyAt st m p (some directory) w = OnlyAt-refl p w
receive_opened-OnlyAt st m p (some (link t)) w = OnlyAt-refl p w
receive_opened-OnlyAt st m p (some (file b)) w =
    receive_loop-OnlyAt st w.net.reads m
      (record { names = p; size = length b; current_offset = 0; position = 0 }) 0 w

open_file-resolved :
    (d : Disk) (s : Bytes) (p : Components)
    → resolve_names d s ≡ some p
    → open_file d s ≡ open_node p (node_at d p)
unfolding open_file
open_file-resolved d s p e = rw (e, open_file)

pub receive_file-OnlyAt :
    (st : Stream) (path : Bytes) (m : ℕ) (p : Components) (w : World)
    → resolve_names w.disk path ≡ some p
    → OnlyAt p w (receive_file st path false m w).1
unfolding receive_file
receive_file-OnlyAt st path m p w e =
    rw (open_file-resolved w.disk path p e) (receive_opened-OnlyAt st m p (node_at w.disk p) w)
