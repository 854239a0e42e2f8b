-- ===== src/Ftp/Transfer/Loops.antt =====
-- `DataTransfer::send_file` and `receive_file`.
use net_files.Base.{
  ℕ, zero, suc, ◌+◌, ◌-◌, ◌*◌, ◌^◌, min, Bool, List, [], ◌∷◌, ◌++◌, Bytes, is_empty, length, take,
  drop, if◌then◌else◌, ltb, Outcome, done, thrown, pending,
}
use net_files.Core.Fs.Disk.{node_at}
use net_files.Ftp.Transfer.File.{
  Stream, AsyncFile, open_file, read_chunk, advance, write_chunk, advance_write, seek, content_of,
}
use net_files.Ftp.World.{
  ReadEvent, got, read_failed, WriteEvent, took, write_failed, World, after, M,
}

abbrev pub buffer_size : ℕ
buffer_size = 64 * 1024

-- `std::numeric_limits<std::size_t>::max()`.
abbrev pub max_size : ℕ
max_size = 2 ^ 64 - 1

abbrev pub set_writes : World → List WriteEvent → World
set_writes w ws = record w { net = record w.net { writes = ws } }

abbrev pub set_reads : World → List ReadEvent → World
set_reads w rs = record w { net = record w.net { reads = rs } }

-- `while (bytes_sent < bytes_read)`: what is left of the chunk is offered until all is taken.
unfoldable pub send_all : List WriteEvent → Bytes → World → Outcome (Unit {0}) × World
send_all ws [] w = (done tt, set_writes w ws)
send_all [] (x ∷ left) w = (pending, set_writes w [])
send_all (write_failed m ∷ ws) (x ∷ left) w = (thrown m, set_writes w ws)
send_all (took n ∷ ws) (x ∷ left) w =
    send_all ws (drop n (x ∷ left)) (record w { data_out = w.data_out ++ take n (x ∷ left) })

-- `while (total_sent < max_bytes)`. Every round that goes on reads a byte at least.
unfoldable pub send_loop : Stream → ℕ → ℕ → AsyncFile → ℕ → M ℕ
send_loop st zero max_bytes f total w = (pending, w)
send_loop st (suc fuel) max_bytes f total w =
    let chunk = read_chunk st w.disk f (min buffer_size (max_bytes - total)) in
    if ltb total max_bytes
    then (if is_empty chunk
        then (done total, w)
        else after (send_all w.net.writes chunk w)
            (λ _. send_loop st fuel max_bytes (advance f (length chunk)) (total + length chunk)))
    else (done total, w)

abbrev pub file_bytes : Stream → World → AsyncFile → Bytes
file_bytes st w f = st.get_text (content_of (node_at w.disk f.names))

unfoldable pub send_sought : Stream → ℕ → Outcome AsyncFile → M ℕ
unfolding send_loop
send_sought st max_bytes (thrown m) w = (thrown m, w)
send_sought st max_bytes pending w = (pending, w)
send_sought st max_bytes (done f) w =
    send_loop st (suc (length (file_bytes st w f))) max_bytes f 0 w

unfoldable pub send_opened : Stream → ℕ → ℕ → Outcome AsyncFile → M ℕ
unfolding send_sought
send_opened st offset max_bytes (thrown m) w = (thrown m, w)
send_opened st offset max_bytes pending w = (pending, w)
send_opened st offset max_bytes (done f) w =
    send_sought st max_bytes (if ltb 0 offset then seek f offset else done f) w

unfoldable pub send_file : Stream → Bytes → ℕ → ℕ → M ℕ
unfolding send_opened
send_file st path offset max_bytes w = send_opened st offset max_bytes (open_file w.disk path) w

-- `while (total_received < max_bytes)`: one read of the connection each round. `if (bytes == 0) break`
-- is translated as it stands, although a read of a connection that succeeds brings a byte at least.
unfoldable pub receive_loop : Stream → List ReadEvent → ℕ → AsyncFile → ℕ → M ℕ
receive_loop st [] max_bytes f total w =
    (if ltb total max_bytes then pending else done total, set_reads w [])
receive_loop st (read_failed m ∷ rs) max_bytes f total w =
    if ltb total max_bytes
    then (thrown m, set_reads w rs)
    else (done total, set_reads w (read_failed m ∷ rs))
receive_loop st (got b ∷ rs) max_bytes f total w =
    let w' = record w { disk = write_chunk st w.disk f b } in
    let rest = receive_loop st rs max_bytes (advance_write st f b) (total + length b) w' in
    if ltb total max_bytes
    then (if is_empty b then (done total, set_reads w rs) else rest)
    else (done total, set_reads w (got b ∷ rs))

unfoldable pub receive_sought : Stream → ℕ → Outcome AsyncFile → M ℕ
unfolding receive_loop
receive_sought st max_bytes (thrown m) w = (thrown m, w)
receive_sought st max_bytes pending w = (pending, w)
receive_sought st max_bytes (done f) w = receive_loop st w.net.reads max_bytes f 0 w

unfoldable pub receive_opened : Stream → Bool → ℕ → Outcome AsyncFile → M ℕ
unfolding receive_sought
receive_opened st append max_bytes (thrown m) w = (thrown m, w)
receive_opened st append max_bytes pending w = (pending, w)
receive_opened st append max_bytes (done f) w =
    receive_sought st max_bytes (if append then seek f f.size else done f) w

unfoldable pub receive_file : Stream → Bytes → Bool → ℕ → M ℕ
unfolding receive_opened
receive_file st path append max_bytes w =
    receive_opened st append max_bytes (open_file w.disk path) w
