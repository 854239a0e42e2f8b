-- ===== src/Ftp/Processor/Session/Opened.antt =====
-- The session's state through the commands that open a data connection (`execute_list`, `execute_retr`
-- and `execute_stor` of netfiles/src/ftp/ftp_session.cpp).
use net_files.Base.{
  ℕ, Bool, true, false, [], ◌∷◌, ◌≡◌, ◌≢◌, refl, sym, ap, ◌∙◌, ◌⊎◌, inl, inr, ◌||◌, not, Bytes,
  is_empty, Option-cases, Outcome, done, thrown, pending,
}
use net_files.Core.Fs.Canonical.{IsDirectoryAt}
use net_files.Core.Fs.Walk.{resolve_names, exists}
use net_files.Ftp.Execute.{
  Host, execute_list, execute_retr, execute_stor, list_path, retr_path, stor_path, resolve_in,
  count_bytes, send_response,
}
use net_files.Ftp.Handlers.Files.{if_logged_in, need_argument}
use net_files.Ftp.PathResolver.{IsInside}
use net_files.Ftp.Processor.Confined.{list_path-Quiet}
use net_files.Ftp.Quiet.{
  after-Holds, branch-Holds, Quiet, Quiet-trans, send_response-Quiet,
  establish_data_connection-Quiet, send_file-Quiet, receive_file-OnlyAt,
}
use net_files.Ftp.Transfer.Channel.{establish_data_connection}
use net_files.Ftp.Transfer.File.{Stream, open_file}
use net_files.Ftp.Transfer.Loops.{max_size, receive_file, receive_opened}
use net_files.Ftp.Types.{Reply, ResponseCode}
use net_files.Ftp.World.{World, M, after, commit}

pub record Bounded (w v : World) : Type 0 where
  pub root_same : v.session.root_directory ≡ w.session.root_directory
  pub stays : w.session.authenticated ≡ true → v.session.authenticated ≡ true
  pub user :
      v.session.authenticated ≡ true → (w.session.authenticated ≡ true) ⊎ (w.session.username ≢ [])
  pub moves :
      IsDirectoryAt w.disk w.disk.working
      → (v.session.current_directory ≡ w.session.current_directory)
        ⊎ IsInside w.disk w.session.root_directory v.session.current_directory

pub Bounded-refl : (w : World) → Bounded w w
Bounded-refl w = record {
  root_same = refl;
  stays = λ e. e;
  user = λ e. inl e;
  moves = λ h. inl refl;
}

pub session_same-Bounded : (w v : World) → v.session ≡ w.session → Bounded w v
session_same-Bounded w v e = record {
  root_same = ap (λ s. s.root_directory) e;
  stays = λ h. ap (λ s. s.authenticated) e ∙ h;
  user = λ h. inl (sym (ap (λ s. s.authenticated) e) ∙ h);
  moves = λ h. inl (ap (λ s. s.current_directory) e);
}

pub kept-Bounded :
    (k : M Reply) → ((w : World) → Bounded w (k w).1) → (w : World) → Bounded w (if_logged_in k w).1
kept-Bounded k go w = branch-Holds (Bounded w) w.session.authenticated _ _ (go w) (Bounded-refl w)

pub need_argument-Bounded :
    (arg text : Bytes) (k : M Reply) (w : World)
    → Bounded w (k w).1
    → Bounded w (need_argument arg text k w).1
need_argument-Bounded [] text k w h = Bounded-refl w
need_argument-Bounded (c ∷ arg) text k w h = h

count_bytes-Bounded : (w v : World) (n : ℕ) → v.session ≡ w.session → Bounded w (count_bytes n v).1
count_bytes-Bounded w v n e =
    let b = session_same-Bounded w v e in
    record { root_same = b.root_same; stays = b.stays; user = b.user; moves = b.moves }

pub commit-Bounded : (w : World) (o : Outcome _) (r : Reply) → Bounded w (commit w o r).1
commit-Bounded w (done d) r = session_same-Bounded w _ refl
commit-Bounded w (thrown m) r = Bounded-refl w
commit-Bounded w pending r = Bounded-refl w

opened-Bounded :
    (h : Host) (code : ResponseCode) (text : Bytes) (k : M Reply) (w : World)
    → ((v : World) → Quiet w v → Bounded w (k v).1)
    → Bounded w
        (after
          (send_response h code text w)
          (λ _ u. after (establish_data_connection h.sockets u) (λ _. k))).1
opened-Bounded h code text k w go =
    after-Holds (Bounded w) (Quiet w) (send_response h code text w) _
      (send_response-Quiet h code text w) (λ v q. session_same-Bounded w v q.session_same)
      (λ a u q.
        after-Holds (Bounded w) (Quiet w) (establish_data_connection h.sockets u) (λ _. k)
          (Quiet-trans q (establish_data_connection-Quiet h.sockets u))
          (λ v r. session_same-Bounded w v r.session_same) (λ b v r. go v r))

receive_file_session :
    (st : Stream) (path : Bytes) (m : ℕ) (w : World)
    → (receive_file st path false m w).1.session ≡ w.session
unfolding receive_file open_file receive_opened
receive_file_session st path m w = elim (Option-cases (resolve_names w.disk path)) [
  | inl e ↦ rw (e, open_file)
  | inr (p, e) ↦ (receive_file-OnlyAt st path m p w e).session_same
]

module _ (h : Host) (arg : Bytes) (w : World) where
  pub list-Bounded : (detailed : Bool) → Bounded w (execute_list h arg detailed w).1
  unfolding execute_list
  list-Bounded detailed =
      opened-Bounded h _ _ (λ v. list_path h (resolve_in v arg) detailed v) w
        (λ v q.
          session_same-Bounded w _
            ((list_path-Quiet h (resolve_in v arg) detailed v).session_same ∙ q.session_same))

  retr_path-Bounded : (p : Bytes) (v : World) → Quiet w v → Bounded w (retr_path h p v).1
  unfolding retr_path
  retr_path-Bounded p v q =
      branch-Holds (Bounded w) (is_empty p || not (exists v.disk p)) _ _
        (session_same-Bounded w v q.session_same)
        (after-Holds (Bounded w) (Quiet w) _ count_bytes
          (Quiet-trans q (send_file-Quiet h.stream p 0 max_size v))
          (λ u r. session_same-Bounded w u r.session_same)
          (λ n u r. count_bytes-Bounded w u n r.session_same))

  pub retr-Bounded : Bounded w (execute_retr h arg w).1
  unfolding execute_retr
  retr-Bounded =
      opened-Bounded h _ _ (λ v. retr_path h (resolve_in v arg) v) w
        (λ v q. retr_path-Bounded (resolve_in v arg) v q)

  abbrev SameSession : World → Type 0
  SameSession v = v.session ≡ w.session

  stor_path-Bounded : (p : Bytes) (v : World) → Quiet w v → Bounded w (stor_path h p v).1
  unfolding stor_path
  stor_path-Bounded p v q =
      branch-Holds (Bounded w) (is_empty p) _ _ (session_same-Bounded w v q.session_same) (
        after-Holds (Bounded w) SameSession _ count_bytes
          (receive_file_session h.stream p max_size v ∙ q.session_same)
          (λ u r. session_same-Bounded w u r) (λ n u r. count_bytes-Bounded w u n r))

  pub stor-Bounded : Bounded w (execute_stor h arg w).1
  unfolding execute_stor
  stor-Bounded =
      opened-Bounded h _ _ (λ v. stor_path h (resolve_in v arg) v) w
        (λ v q. stor_path-Bounded (resolve_in v arg) v q)
