-- ===== src/Webdav/Resource/Streams.antt =====
-- The loops of `DavFile::get` and `DavFile::put` (netfiles/src/webdav/dav_resource.cpp).
use net_files.Base.{
  length-take, ℕ, zero, suc, ◌-◌, ◌≤◌, ◌<◌, true, false, [], ◌∷◌, ◌++◌, some, ◌≡◌, refl, sym, ap,
  ◌∙◌, Bytes, take, drop, length, min, ◌==◌, done, arith, append_assoc, append-nil, length-drop,
  take-append-drop,
}
use net_files.Core.Fs.Disk.{file}
use net_files.Webdav.Resource.{buffer_size, read_stream, get_content, put_loop}

read_stream_whole :
    (f : ℕ) (content output : Bytes)
    → length content < f
    → read_stream f content output ≡ output ++ content
unfolding read_stream
read_stream_whole zero content output h = absurd (omega arith)
read_stream_whole (suc f) [] output h = sym (append-nil output)
read_stream_whole (suc f) (c ∷ s) output h =
    read_stream_whole f (drop buffer_size (c ∷ s)) (output ++ take buffer_size (c ∷ s))
      (omega (arith, length-drop buffer_size (c ∷ s), h))
    ∙ append_assoc output (take buffer_size (c ∷ s)) (drop buffer_size (c ∷ s))
    ∙ ap (λ x. output ++ x) (take-append-drop buffer_size (c ∷ s))

-- Reading a file in buffers gives its whole content, however long it is.
pub get_content_whole : (content : Bytes) → get_content (some (file content)) ≡ done content
unfolding get_content
get_content_whole content =
    ap done (read_stream_whole (suc (length content)) content [] (omega arith))

take-split : (k n : ℕ) (s : Bytes) → k ≤ n → take k s ++ take (n - k) (drop k s) ≡ take n s
take-split zero n s h = ap (λ m. take m s) {x = n - 0} {y = n} (omega arith)
take-split (suc k) zero s h = absurd (omega arith)
take-split (suc k) (suc n) [] h = take_nil (suc n - suc k)
  where
    take_nil : (m : ℕ) → take {A = ℕ} m [] ≡ []
    take_nil zero = refl
    take_nil (suc m) = refl
take-split (suc k) (suc n) (c ∷ s) h =
    ap (λ m. c ∷ (take k s ++ take m (drop k s))) {x = suc n - suc k} {y = n - k} (omega arith)
    ∙ ap (λ r. c ∷ r) (take-split k n s (omega arith))

-- With at least `size` bytes of input the loop ends, and has written the first `size` of them.
pub put_loop_ends :
    (f size : ℕ) (input written : Bytes)
    → size < f
    → size ≤ length input
    → put_loop f input size written ≡ (true, written ++ take size input)
unfolding put_loop
put_loop_ends zero size input written h k = absurd (omega arith)
put_loop_ends (suc f) zero input written h k = rw (append-nil written)
put_loop_ends (suc f) (suc n) input written h k =
    let to_read = min buffer_size (suc n) in
    let taken : length (take to_read input) ≡ to_read = omega (arith, length-take to_read input) in
    let more : (suc n == 0) ≡ false = ground arith in
    rw (more, taken)
      (put_loop_ends f (suc n - to_read) (drop to_read input) (written ++ take to_read input)
          (omega arith) (omega (arith, length-drop to_read input))
        ∙ ap (λ r. (true, r))
            (append_assoc written (take to_read input) (take (suc n - to_read) (drop to_read input))
              ∙ ap (λ r. written ++ r) (take-split to_read (suc n) input (omega arith))))

-- With less input than `size` the loop never ends, whatever the fuel: a read at the end of the input
-- gives no byte, and nothing leaves the loop.
pub put_loop_endless :
    (f size : ℕ) (input written : Bytes)
    → length input < size
    → (put_loop f input size written).0 ≡ false
unfolding put_loop
put_loop_endless zero size input written h = refl
put_loop_endless (suc f) zero input written h = absurd (omega arith)
put_loop_endless (suc f) (suc n) input written h =
    let to_read = min buffer_size (suc n) in
    let more : (suc n == 0) ≡ false = ground arith in
    rw more (
      put_loop_endless f (suc n - length (take to_read input)) (drop to_read input)
        (written ++ take to_read input)
        (omega (arith, length-take to_read input, length-drop to_read input)))
