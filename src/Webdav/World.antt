-- ===== src/Webdav/World.antt =====
-- What the WebDAV server's coroutines (netfiles/src/webdav) read and change, and the monad over it.
use net_files.Base.{
  Bool, ℕ, zero, ◌≤◌, ◌<◌, ◌≡◌, refl, ap, true, false, Bool-cases, inl, inr, arith, suc, ◌+◌, List,
  [], ◌∷◌, ◌++◌, Option, none, some, Bytes, is_empty, take, drop, length, if◌then◌else◌, Outcome,
  done, thrown, pending,
}
use net_files.Core.Fs.Disk.{Disk}
use net_files.Ftp.World.{ReadEvent, got, read_failed}
use net_files.StringUtil.{Win32}
use net_files.Webdav.Http.Types.{HttpVersion}

-- `std::tm`; `year` counts from 1900 and `mon` from 0.
pub record Tm : Type 0 where
  pub sec : ℕ
  pub min : ℕ
  pub hour : ℕ
  pub mday : ℕ
  pub mon : ℕ
  pub year : ℕ
  pub wday : ℕ

-- What stands outside the program. `clock n` is what the reading number `n` of the system clock gives,
-- `modified` a file's time as local calendar time; `bits` is the width of `unsigned long`; `unset` is
-- what the uninitialised version of a new request holds.
pub record DavHost : Type 0 where
  pub win32 : Win32
  pub gb18030_to_utf8 : Bytes → Bytes
  pub clock : ℕ → ℕ
  pub gmtime : ℕ → Tm
  pub modified : Bytes → Tm
  pub bits : ℕ
  pub unset : HttpVersion

-- `buffer` is the readable part of the stream buffer, `sent` what was written to the socket, `ticks` the
-- number of clock readings so far. `writes` says of each write whether it is an exception.
pub record DavWorld : Type 0 where
  pub root : Bytes
  pub disk : Disk
  pub reads : List ReadEvent
  pub writes : List (Option Bytes)
  pub buffer : Bytes
  pub sent : Bytes
  pub ticks : ℕ

abbrev pub M : Type 0 → Type 0
M A = DavWorld → Outcome A × DavWorld

unfoldable pub after : {A B : Type 0} → Outcome A × DavWorld → (A → M B) → Outcome B × DavWorld
after (done a, w) f = f a w
after (thrown e, w) f = (thrown e, w)
after (pending, w) f = (pending, w)

infixl 5 ◌>>=◌ ◌>>◌
abbrev pub ◌>>=◌ : {A B : Type 0} → M A → (A → M B) → M B
◌>>=◌ m f w = after (m w) f

abbrev pub ◌>>◌ : {B : Type 0} → M (Unit {0}) → M B → M B
◌>>◌ m k w = after (m w) (λ _. k)

abbrev pub pure : {A : Type 0} → A → M A
pure a w = (done a, w)

abbrev pub lift : {A : Type 0} → Outcome A → M A
lift o w = (o, w)

-- What did not fit into the buffer offered is read later.
unfoldable pub left_over : ℕ → Bytes → List ReadEvent → List ReadEvent
left_over n b es = if is_empty (drop n b) then es else got (drop n b) ∷ es

unfoldable pub read_from : ℕ → DavWorld → List ReadEvent → Outcome Bytes × DavWorld
unfolding left_over
read_from n w [] = (pending, w)
read_from n w (read_failed m ∷ es) = (thrown m, record w { reads = es })
read_from n w (got b ∷ es) =
    (done (take n b), record w { reads = left_over n b es; buffer = w.buffer ++ take n b })

-- `socket.async_read_some` into `n` bytes prepared in the buffer, and `commit`.
unfoldable pub read_some : ℕ → M Bytes
unfolding read_from
read_some n w = read_from n w w.reads

unfoldable pub write_to : Bytes → DavWorld → List (Option Bytes) → Outcome (Unit {0}) × DavWorld
write_to s w [] = (pending, w)
write_to s w (some m ∷ os) = (thrown m, record w { writes = os })
write_to s w (none ∷ os) = (done tt, record w { writes = os; sent = w.sent ++ s })

-- `boost::asio::async_write`: all of the text, or an exception.
unfoldable pub write_all : Bytes → M (Unit {0})
unfolding write_to
write_all s w = write_to s w w.writes

-- `system_clock::now()`.
unfoldable pub now : DavHost → M ℕ
now h w = (done (h.clock w.ticks), record w { ticks = suc w.ticks })

-- A bound on the reads that are left: a read takes a byte or an event.
unfoldable pub weight : List ReadEvent → ℕ
weight [] = 0
weight (read_failed m ∷ es) = suc (weight es)
weight (got b ∷ es) = suc (length b + weight es)

pub after-cong :
    {A B : Type 0} (o : Outcome A × DavWorld) (f g : A → M B)
    → ((a : A) (v : DavWorld) → o ≡ (done a, v) → f a v ≡ g a v)
    → after o f ≡ after o g
unfolding after
after-cong (done a, w) f g h = h a w refl
after-cong (thrown e, w) f g h = refl
after-cong (pending, w) f g h = refl

-- Both parts of a step that came to a result.
pub after-eq_done :
    {A B : Type 0} (o : Outcome A × DavWorld) (f : A → M B) {b : B} {u : DavWorld}
    → after o f ≡ (done b, u)
    → (a : A) × (v : DavWorld) × (o ≡ (done a, v)) × (f a v ≡ (done b, u))
unfolding after
after-eq_done (done a, w) f h = (a, w, refl, h)
after-eq_done (thrown e, w) f h = absurd (cc)
after-eq_done (pending, w) f h = absurd (cc)

NonEmpty-drop : (n : ℕ) (b : Bytes) → is_empty (drop n b) ≡ false → length (drop n b) + n ≤ length b
NonEmpty-drop zero [] h = cc
NonEmpty-drop zero (c ∷ b) h = omega arith
NonEmpty-drop (suc n) [] h = cc
NonEmpty-drop (suc n) (c ∷ b) h = omega (arith, NonEmpty-drop n b h)

pub weight-left_over :
    (n : ℕ) (b : Bytes) (es : List ReadEvent)
    → 0 < n
    → weight (left_over n b es) < weight (got b ∷ es)
unfolding left_over weight
weight-left_over n b es h = elim (Bool-cases (is_empty (drop n b))) [
  | inl e ↦ rw e (omega arith)
  | inr e ↦ rw e (omega (arith, NonEmpty-drop n b e))
]

read_from-weight :
    (n : ℕ) (w : DavWorld) (es : List ReadEvent) {b : Bytes} {v : DavWorld}
    → 0 < n
    → read_from n w es ≡ (done b, v)
    → weight v.reads < weight es
unfolding read_from
read_from-weight n w [] h e = absurd (cc)
read_from-weight n w (read_failed m ∷ es) h e = absurd (cc)
read_from-weight n w (got c ∷ es) {b} {v} h e =
    let same : left_over n c es ≡ v.reads = ap (λ p. p.1.reads) e in
    rw (← same) (weight-left_over n c es h)

pub read_some-weight :
    (n : ℕ) (w : DavWorld) {b : Bytes} {v : DavWorld}
    → 0 < n
    → read_some n w ≡ (done b, v)
    → weight v.reads < weight w.reads
unfolding read_some
read_some-weight n w h e = read_from-weight n w w.reads h e

-- What holds after a first step holds at the end, if the second keeps it.
pub after-Holds :
    {A B : Type 0} (P Q : DavWorld → Type 0) (o : Outcome A × DavWorld) (f : A → M B)
    → Q o.1
    → ((v : DavWorld) → Q v → P v)
    → ((a : A) (v : DavWorld) → Q v → P (f a v).1)
    → P (after o f).1
unfolding after
after-Holds P Q (done a, v) f q stop go = go a v q
after-Holds P Q (thrown m, v) f q stop go = stop v q
after-Holds P Q (pending, v) f q stop go = stop v q

pub write_all_disk : (s : Bytes) (w : DavWorld) → (write_all s w).1.disk ≡ w.disk
unfolding write_all
write_all_disk s w = by_writes w.writes
  where
    by_writes : (os : List (Option Bytes)) → (write_to s w os).1.disk ≡ w.disk
    by_writes [] = unfold write_to in refl
    by_writes (none ∷ os) = unfold write_to in refl
    by_writes (some m ∷ os) = unfold write_to in refl

pub write_all_reads : (s : Bytes) (w : DavWorld) → (write_all s w).1.reads ≡ w.reads
unfolding write_all
write_all_reads s w = by_writes w.writes
  where
    by_writes : (os : List (Option Bytes)) → (write_to s w os).1.reads ≡ w.reads
    by_writes [] = unfold write_to in refl
    by_writes (none ∷ os) = unfold write_to in refl
    by_writes (some m ∷ os) = unfold write_to in refl

-- Both branches of a test.
pub either-Holds :
    {A : Type 0} (P : DavWorld → Type 0) (b : Bool) (x y : Outcome A × DavWorld)
    → P x.1
    → P y.1
    → P (if b then x else y).1
either-Holds P true x y hx hy = hx
either-Holds P false x y hx hy = hy
