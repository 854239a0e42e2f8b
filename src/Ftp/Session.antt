-- ===== src/Ftp/Session.antt =====
-- `FTPSession` of netfiles/src/ftp/ftp_session.cpp: its start, and how bytes become lines.
use net_files.Base.{
  ℕ, zero, suc, false, List, [], ◌∷◌, ◌++◌, append_assoc, append-nil, Option, none, some, ◌≡◌, ◌≢◌,
  refl, sym, ap, ◌∙◌, Bytes, codes, length, if◌then◌else◌, ◌==◌, Lacks, All-append, arith,
  Bool-cases, ◌⊎◌, inl, inr, equal, Outcome, done, thrown, pending,
}
use net_files.Core.Fs.Canonical.{IsDirectoryAt}
use net_files.Core.Fs.Disk.{Disk, components, names_from}
use net_files.Core.Fs.Ops.{locate, locate_from, last_name, message, not_found}
use net_files.Core.Fs.Walk.{canonical, resolve_names, move_of}
use net_files.Core.Utils.{drop_cr}
use net_files.Ftp.Execute.{Host, send_response}
use net_files.Ftp.Processor.{process_line, go_on}
use net_files.Ftp.Processor.Confined.{IsSane}
use net_files.Ftp.Transfer.Receive.{chunks_then, concat}
use net_files.Ftp.Types.{SessionState, none_granted, image, passive, service_ready}
use net_files.Ftp.World.{World, ReadEvent, got, read_failed}

unfoldable pub session_at : Option Bytes → ℕ → Outcome SessionState
session_at none now = thrown (message not_found)
session_at (some root) now = done (record {
  username = [];
  authenticated = false;
  permission = none_granted;
  current_directory = root;
  root_directory = root;
  transfer_mode = image;
  representation_type = codes "I";
  data_conn_type = passive;
  data_conn_port = 0;
  data_conn_host = [];
  rename_from_path = [];
  login_time = now;
  bytes_transferred = 0;
})

-- The constructor: the root is made canonical, or the constructor throws.
unfoldable pub new_session : Disk → Bytes → ℕ → Outcome SessionState
unfolding session_at
new_session d root_dir now = session_at (canonical d root_dir) now

-- The text in front of the first line feed, and the text behind it.
unfoldable pub cut_line : Bytes → Bytes → Option (Bytes × Bytes)
cut_line line [] = none
cut_line line (c ∷ s) =
    let rest = cut_line (line ++ c ∷ []) s in if c == b'\n' then some (line, s) else rest

-- `read_command`: the line, what is left in the buffer, and the reads to come. It reads before it
-- looks at the buffer.
unfoldable pub read_command : Bytes → List ReadEvent → Outcome (Bytes × Bytes × List ReadEvent)
unfolding cut_line drop_cr
read_command buffer [] = pending
read_command buffer (read_failed m ∷ es) = thrown m
read_command buffer (got b ∷ es) = elim (cut_line [] (buffer ++ b)) [
  | none ↦ read_command (buffer ++ b) es
  | some (line, rest) ↦ done (drop_cr line, rest, es)
]

-- The command loop on what is read. Every round takes a read at least, so their number is enough fuel.
unfoldable pub serve : ℕ → Host → Bytes → List ReadEvent → World → World
unfolding read_command process_line go_on
serve zero h buffer es w = w
serve (suc fuel) h buffer es w = elim (read_command buffer es) [
  | done (line, rest, later) ↦ go_on (serve fuel h rest later) (process_line h line w)
  | thrown m ↦ w
  | pending ↦ w
]

start_serving : Host → List ReadEvent → Outcome (Unit {0}) × World → World
unfolding serve
start_serving h es (done u, w) = if w.active then serve (length es) h [] es w else w
start_serving h es (thrown m, w) = w
start_serving h es (pending, w) = w

unfoldable pub start : Host → List ReadEvent → World → World
unfolding start_serving
start h es w = start_serving h es (send_response h service_ready (codes "FTP Server ready") w)

locate-nil : (d : Disk) → locate d [] ≡ none
unfolding locate locate_from last_name components names_from move_of resolve_names
locate-nil d = unfold equal in refl

source_of : Outcome SessionState → Bytes
source_of (done s) = s.rename_from_path
source_of (thrown m) = []
source_of pending = []

session_at_source : (o : Option Bytes) (now : ℕ) → source_of (session_at o now) ≡ []
unfolding source_of session_at
session_at_source none now = refl
session_at_source (some root) now = refl

-- A new session is sane, when the process's working directory is a directory: its rename source is
-- empty and stands for no path.
pub new_session-IsSane :
    (w : World) (root_dir : Bytes) (now : ℕ)
    → IsDirectoryAt w.disk w.disk.working
    → new_session w.disk root_dir now ≡ done w.session
    → IsSane w
unfolding new_session source_of
new_session-IsSane w root_dir now h e =
    let empty : w.session.rename_from_path ≡ [] =
      sym (ap source_of e) ∙ session_at_source (canonical w.disk root_dir) now in
    record {
      working = h;
      source = λ p base at_p b. absurd (cc (at_p, locate-nil w.disk, ap (locate w.disk) empty));
    }

cut_line_first :
    (line s : Bytes)
    → Lacks b'\n' line
    → (cut_line line s ≡ none)
      ⊎ ((raw : Bytes) × (rest : Bytes) × (cut_line line s ≡ some (raw, rest))
          × Lacks b'\n' raw
          × (line ++ s ≡ raw ++ (b'\n' ∷ rest)))
unfolding cut_line
cut_line_first line [] h = inl refl
cut_line_first line (c ∷ s) h = elim (Bool-cases (c == b'\n')) [
  | inl e ↦ rw e (inr (line, s, refl, h, ground arith))
  | inr e ↦
      rw (e, ← append_assoc line (c ∷ []) s)
        (cut_line_first (line ++ c ∷ []) s
          (All-append (λ x. x ≢ b'\n') line (c ∷ []) h (ground arith, tt)))
]

-- A line that was read: the bytes that came, behind those that were left, begin with it, up to the
-- first line feed; what stands behind is left for the next line, and no read is skipped.
pub record IsRead (buffer : Bytes) (es : List ReadEvent) (line rest : Bytes)
    (later : List ReadEvent) : Type 0 where
  pub raw : Bytes
  pub chunks : List Bytes
  pub reads_are : es ≡ chunks_then chunks later
  pub whole : buffer ++ concat chunks ≡ raw ++ (b'\n' ∷ rest)
  pub first : Lacks b'\n' raw
  pub line_is : line ≡ drop_cr raw

read_command-more :
    (buffer b : Bytes) (es : List ReadEvent)
    → cut_line [] (buffer ++ b) ≡ none
    → read_command buffer (got b ∷ es) ≡ read_command (buffer ++ b) es
unfolding read_command
read_command-more buffer b es n = rw (n, read_command)

read_command-found :
    (buffer b raw rest : Bytes) (es : List ReadEvent)
    → cut_line [] (buffer ++ b) ≡ some (raw, rest)
    → read_command buffer (got b ∷ es) ≡ done (drop_cr raw, rest, es)
unfolding read_command
read_command-found buffer b raw rest es n = rw (n, read_command)

one_more :
    (buffer b : Bytes) (es : List ReadEvent) (line rest : Bytes) (later : List ReadEvent)
    → IsRead (buffer ++ b) es line rest later
    → IsRead buffer (got b ∷ es) line rest later
unfolding chunks_then concat
one_more buffer b es line rest later r = record {
  raw = r.raw;
  chunks = b ∷ r.chunks;
  reads_are = ap (λ x. got b ∷ x) r.reads_are;
  whole = sym (append_assoc buffer b (concat r.chunks)) ∙ r.whole;
  first = r.first;
  line_is = r.line_is;
}

-- What `read_command` returns is the first line of what was left and what came, without the CR and the
-- line feed at its end, and nothing is lost.
pub read_command-IsRead :
    (buffer : Bytes) (es : List ReadEvent) (line rest : Bytes) (later : List ReadEvent)
    → read_command buffer es ≡ done (line, rest, later)
    → IsRead buffer es line rest later
unfolding read_command chunks_then concat
read_command-IsRead buffer [] line rest later e = absurd (cc e)
read_command-IsRead buffer (read_failed m ∷ es) line rest later e = absurd (cc e)
read_command-IsRead buffer (got b ∷ es) line rest later e =
    elim (cut_line_first [] (buffer ++ b) tt) [
      | inl n ↦ one_more buffer b es line rest later (
          read_command-IsRead (buffer ++ b) es line rest later
            (sym (read_command-more buffer b es n) ∙ e))
      | inr (raw, tail, cut, lacks, whole) ↦
          let same : done (line, rest, later) ≡ done (drop_cr raw, tail, es) =
            sym e ∙ read_command-found buffer b raw tail es cut in
          record {
            raw = raw;
            chunks = b ∷ [];
            reads_are = cc same;
            whole =
                ap (λ x. buffer ++ x) (append-nil b)
                ∙ whole
                ∙ ap (λ r. raw ++ (b'\n' ∷ r)) (cc same);
            first = lacks;
            line_is = cc same;
          }
    ]
