-- ===== src/Ftp/Transfer/Send.antt =====
-- What `DataTransfer::send_file` of netfiles/src/ftp/data_channel.cpp sends, when the client takes
-- some of what it is offered at every write.
use net_files.Base.{
  ℕ, zero, suc, ◌+◌, ◌-◌, ◌≤◌, ◌<◌, min, Bool, true, false, ◌&&◌, List, [], ◌∷◌, ◌++◌, some, ◌≡◌,
  refl, ap, sym, subst, ◌∙◌, Bytes, length, take, drop, take-append-drop, length-append,
  length-take-drop, drop-drop, length-drop, append_assoc, append-nil, is_empty, leb, ltb,
  Bool-cases, inl, inr, Outcome, done, thrown, pending, arith,
}
use net_files.Core.Fs.Disk.{Components, file, node_at}
use net_files.Core.Fs.Walk.{resolve_names}
use net_files.Ftp.Transfer.File.{
  Stream, AsyncFile, open_file, open_node, read_chunk, advance, content_of,
}
use net_files.Ftp.Transfer.Loops.{
  buffer_size, max_size, send_all, send_loop, send_sought, send_opened, send_file, file_bytes,
}
use net_files.Ftp.World.{World, WriteEvent, took, write_failed, after}

-- At least `n` writes will be taken, each for a byte or more.
unfoldable pub enough : ℕ → List WriteEvent → Bool
enough zero ws = true
enough (suc n) [] = false
enough (suc n) (write_failed m ∷ ws) = false
enough (suc n) (took k ∷ ws) = leb 1 k && enough n ws

enough_less : (m n : ℕ) (ws : List WriteEvent) → m ≤ n → enough n ws ≡ true → enough m ws ≡ true
unfolding enough
enough_less zero n ws h e = refl
enough_less (suc m) zero ws h e = ground arith
enough_less (suc m) (suc n) [] h e = e
enough_less (suc m) (suc n) (write_failed t ∷ ws) h e = e
enough_less (suc m) (suc n) (took k ∷ ws) h e = ground (arith, enough_less m n ws)

enough-nil : (n : ℕ) → enough n [] ≡ true → n ≡ 0
unfolding enough
enough-nil zero e = refl
enough-nil (suc n) e = absurd (ground arith)

enough-write_failed :
    (n : ℕ) (m : Bytes) (ws : List WriteEvent) → enough n (write_failed m ∷ ws) ≡ true → n ≡ 0
unfolding enough
enough-write_failed zero m ws e = refl
enough-write_failed (suc n) m ws e = absurd (ground arith)

enough-took :
    (n k : ℕ) (ws : List WriteEvent)
    → 1 ≤ n
    → enough n (took k ∷ ws) ≡ true
    → (1 ≤ k) × (enough (n - 1) ws ≡ true)
unfolding enough
enough-took zero k ws h e = absurd (omega arith)
enough-took (suc n) k ws h e = (ground arith, simp (sub_suc n) (ground arith))
  where
    sub_suc : (n : ℕ) → suc n - 1 ≡ n
    sub_suc n = omega arith

-- All of `s` was sent, nothing else changed, and `k` writes are still to be taken.
record Sent (k : ℕ) (s : Bytes) (w v : World) : Type 0 where
  disk_same : v.disk ≡ w.disk
  sent : v.data_out ≡ w.data_out ++ s
  left : enough k v.net.writes ≡ true

abbrev AllSent : ℕ → Bytes → World → Outcome (Unit {0}) × World → Type 0
AllSent k s w r = (r.0 ≡ done tt) × Sent k s w r.1

send_all-AllSent :
    (ws : List WriteEvent) (s : Bytes) (k : ℕ) (w : World)
    → enough (length s + k) ws ≡ true
    → AllSent k s w (send_all ws s w)
unfolding send_all
send_all-AllSent ws [] k w e =
    (refl, record { disk_same = refl; sent = sym (append-nil _); left = grind arith })
send_all-AllSent [] (x ∷ s) k w e = absurd (omega (arith, enough-nil _ e))
send_all-AllSent (write_failed m ∷ ws) (x ∷ s) k w e =
    absurd (omega (arith, enough-write_failed _ m ws e))
send_all-AllSent (took n ∷ ws) (x ∷ s) k w e =
    let e' = enough-took (length (x ∷ s) + k) n ws (omega arith) e in
    let e' =
      enough_less (length (drop n (x ∷ s)) + k) (length (x ∷ s) + k - 1) ws
        (omega (arith, length-drop n (x ∷ s), e'.0)) e'.1 in
    let (ok, r) =
      send_all-AllSent ws (drop n (x ∷ s)) k (record w { data_out = w.data_out ++ take n (x ∷ s) })
        e' in
    (
      ok,
      record {
        disk_same = r.disk_same;
        sent =
            r.sent
            ∙ append_assoc w.data_out (take n (x ∷ s)) _
            ∙ ap (λ t. w.data_out ++ t) (take-append-drop n (x ∷ s));
        left = r.left;
      },
    )

-- What is still to be read of an open file.
abbrev rest_of : Stream → World → AsyncFile → Bytes
rest_of st w f = drop f.position (file_bytes st w f)

abbrev SentFile : ℕ → Bytes → World → Outcome ℕ × World → Type 0
SentFile n s w r = (r.0 ≡ done n) × (r.1.data_out ≡ w.data_out ++ s)

after_all-SentFile :
    {w : World} (n : ℕ) (s t : Bytes) (k : ℕ) (go : World → Outcome ℕ × World)
    (r : Outcome (Unit {0}) × World)
    → AllSent k s w r
    → ((v : World) → Sent k s w v → SentFile n t v (go v))
    → SentFile n (s ++ t) w (after r (λ _. go))
unfolding after
after_all-SentFile {w} n s t k go (done u, v) (e, q) h =
    let (ok, out) = h v q in (ok, out ∙ ap (λ x. x ++ t) q.sent ∙ append_assoc w.data_out s t)
after_all-SentFile n s t k go (thrown m, v) (e, q) h = absurd (ground arith)
after_all-SentFile n s t k go (pending, v) (e, q) h = absurd (ground arith)

taken_nil : (n : ℕ) (s : Bytes) → 1 ≤ n → is_empty (take n s) ≡ true → s ≡ []
taken_nil n [] h e = refl
taken_nil zero (x ∷ s) h e = absurd (omega arith)
taken_nil (suc n) (x ∷ s) h e = absurd (ground arith)

length_nil : (s : Bytes) → length s ≡ 0 → s ≡ []
length_nil [] e = refl
length_nil (x ∷ s) e = absurd (omega arith)

length_pos : (s : Bytes) → is_empty s ≡ false → 1 ≤ length s
length_pos [] e = absurd (ground arith)
length_pos (x ∷ s) e = omega arith

over-SentFile :
    (total n : ℕ) (s : Bytes) (w : World)
    → n ≡ total + length s
    → s ≡ []
    → SentFile n s w (done total, w)
over-SentFile total n s w e z =
    rw z (ap done {x = total} {y = n} (omega (arith, e, ap length z)), sym (append-nil _))

length-taken : (n : ℕ) (s : Bytes) → length (take n s) + length (drop n s) ≡ length s
length-taken n s = sym (length-append (take n s) (drop n s)) ∙ ap length (take-append-drop n s)

rest_of-advance :
    (st : Stream) (w v : World) (f : AsyncFile) (n : ℕ) (s : Bytes)
    → rest_of st w f ≡ s
    → v.disk ≡ w.disk
    → rest_of st v (advance f (length (take n s))) ≡ drop n s
unfolding advance
rest_of-advance st w v f n s e q = rw q (
    sym (drop-drop f.position (length (take n s)) _)
    ∙ ap (drop (length (take n s))) e
    ∙ length-take-drop n s)

round-SentFile :
    (k n : ℕ) (s : Bytes) (w : World) (go : World → Outcome ℕ × World)
    → enough (length s) w.net.writes ≡ true
    → ((v : World) → Sent (length (drop k s)) (take k s) w v → SentFile n (drop k s) v (go v))
    → SentFile n s w (after (send_all w.net.writes (take k s) w) (λ _. go))
round-SentFile k n s w go e next =
    subst (λ x. SentFile n x w (after (send_all w.net.writes (take k s) w) (λ _. go)))
      (take-append-drop k s)
      (after_all-SentFile n (take k s) (drop k s) (length (drop k s)) go _
        (send_all-AllSent w.net.writes (take k s) (length (drop k s)) w
          (subst (λ x. enough x w.net.writes ≡ true) (sym (length-taken k s)) e))
        next)

send_loop-SentFile :
    (st : Stream) (fuel m : ℕ) (f : AsyncFile) (total : ℕ) (w : World) (s : Bytes) (n : ℕ)
    → rest_of st w f ≡ s
    → n ≡ total + length s
    → length s < fuel
    → n ≤ m
    → enough (length s) w.net.writes ≡ true
    → SentFile n s w (send_loop st fuel m f total w)
unfolding send_loop read_chunk
send_loop-SentFile st zero m f total w s n r en h b e = absurd (omega arith)
send_loop-SentFile st (suc fuel) m f total w s n r en h b e = elim (Bool-cases (ltb total m)) [
  | inr t ↦ rw t (over-SentFile total n s w en (length_nil s (ground arith)))
  | inl t ↦
      let k = min buffer_size (m - total) in
      let k_pos : 1 ≤ min buffer_size (m - total) = ground arith in
      rw (t, r)
        (elim (Bool-cases (is_empty (take k s))) [
          | inl z ↦ rw z (over-SentFile total n s w en (taken_nil k s k_pos z))
          | inr z ↦ rw z (
              round-SentFile k n s w _ e (λ v q.
                send_loop-SentFile st fuel m _ _ v (drop k s) n
                  (rest_of-advance st w v f k s r q.disk_same) (omega (arith, en, length-taken k s))
                  (omega (arith, h, length-taken k s, length_pos (take k s) z)) b q.left))
        ])
]

send_opened-SentFile :
    (st : Stream) (p : Components) (b : Bytes) (w : World)
    → node_at w.disk p ≡ some (file b)
    → length (st.get_text b) ≤ max_size
    → enough (length (st.get_text b)) w.net.writes ≡ true
    → SentFile
        (length (st.get_text b))
        (st.get_text b)
        w
        (send_opened st 0 max_size (open_node p (node_at w.disk p)) w)
unfolding send_opened send_sought open_node
send_opened-SentFile st p b w at_p h e =
    let f : AsyncFile = record { names = p; size = length b; current_offset = 0; position = 0 } in
    let same : file_bytes st w f ≡ st.get_text b = ap (λ n. st.get_text (content_of n)) at_p in
    rw at_p (
      send_loop-SentFile st (suc (length (file_bytes st w f))) max_size f 0 w (st.get_text b)
        (length (st.get_text b)) same (omega arith) (omega (arith, ap length same)) h e)

-- A download sends all that the stream reads of the file in its mode (in a text mode that may be less
-- than the file holds), and nothing else, and counts what it sent, when the path resolves to a file and the client takes at least one byte at each of as many writes as there
-- are bytes to send.
pub send_file_whole :
    (st : Stream) (path : Bytes) (p : Components) (b : Bytes) (w : World)
    → resolve_names w.disk path ≡ some p
    → node_at w.disk p ≡ some (file b)
    → length (st.get_text b) ≤ max_size
    → enough (length (st.get_text b)) w.net.writes ≡ true
    → ((send_file st path 0 max_size w).0 ≡ done (length (st.get_text b)))
      × ((send_file st path 0 max_size w).1.data_out ≡ w.data_out ++ st.get_text b)
unfolding send_file open_file
send_file_whole st path p b w at_path at_p h e =
    rw (at_path, open_file) (send_opened-SentFile st p b w at_p h e)
