-- ===== src/Webdav/Handler/Enough.antt =====
-- The fuel of the server's loop (`handle_request` of netfiles/src/webdav/dav_handler.cpp) is enough.
use net_files.Base.{ℕ, zero, suc, ◌<◌, ◌≡◌, refl, sym, ◌∙◌, ap, arith}
use net_files.Webdav.Handler.Serve.{dispatch, go_on, answer, serve}
use net_files.Webdav.Handler.Still.{
  process_get-Still, process_head-Still, process_put-SameReads, process_delete-SameReads,
  process_mkcol-SameReads, process_transfer-SameReads, process_propfind-Still,
  process_proppatch-Still, process_lock-Still, process_unlock-Still, process_options-Still,
}
use net_files.Webdav.Handler.Files.{process_copy, process_move}
use net_files.Webdav.Http.Headers.{HttpRequest}
use net_files.Webdav.Http.Request.{Expected, value, unexpected, parse_request}
use net_files.Webdav.Http.Request.Complete.{parse_request_less}
use net_files.Webdav.Http.Response.{generate_response}
use net_files.Webdav.Http.Types.{
  HttpMethod, get, head, put, delete, mkcol, propfind, proppatch, copy, move, lock, unlock, options,
  HttpVersion, http10, http11, unknown,
}
use net_files.Webdav.Resource.{copy_to, move_to}
use net_files.Webdav.World.{DavHost, DavWorld, M, after-cong, write_all, write_all_reads, weight}

-- No method reads from the socket.
dispatch_reads :
    (h : DavHost) (m : HttpMethod) (q : HttpRequest) (w : DavWorld)
    → (dispatch h m q w).1.reads ≡ w.reads
unfolding dispatch process_copy process_move
dispatch_reads h get q w = (process_get-Still q w).reads_same
dispatch_reads h head q w = (process_head-Still q w).reads_same
dispatch_reads h put q w = process_put-SameReads q w
dispatch_reads h delete q w = process_delete-SameReads q w
dispatch_reads h mkcol q w = process_mkcol-SameReads q w
dispatch_reads h propfind q w = (process_propfind-Still q w h).reads_same
dispatch_reads h proppatch q w = (process_proppatch-Still q w).reads_same
dispatch_reads h copy q w = process_transfer-SameReads q w copy_to
dispatch_reads h move q w = process_transfer-SameReads q w move_to
dispatch_reads h lock q w = (process_lock-Still q w h).reads_same
dispatch_reads h unlock q w = (process_unlock-Still q w).reads_same
dispatch_reads h options q w = (process_options-Still q w h).reads_same

go_on-cong :
    (version : HttpVersion) (j k : M (Unit {0})) (w : DavWorld)
    → j w ≡ k w
    → go_on version j w ≡ go_on version k w
unfolding go_on
go_on-cong http10 j k w e = refl
go_on-cong http11 j k w e = e
go_on-cong unknown j k w e = e

answer-cong :
    (h : DavHost) (j k : M (Unit {0})) (q : Expected HttpRequest) (w : DavWorld)
    → ((v : DavWorld) → v.reads ≡ w.reads → j v ≡ k v)
    → answer h j q w ≡ answer h k q w
unfolding answer
answer-cong h j k (unexpected m) w go = refl
answer-cong h j k (value q) w go = after-cong (dispatch h q.method q w) _ _ (λ response v e.
    after-cong (write_all (generate_response response) v) _ _ (λ _ u f.
      let one : u.reads ≡ v.reads =
        sym (ap (λ p. p.1.reads) f) ∙ write_all_reads (generate_response response) v in
      let two : v.reads ≡ w.reads = sym (ap (λ p. p.1.reads) e) ∙ dispatch_reads h q.method q w in
      go_on-cong q.version j k u (go u (one ∙ two))))

-- The loop of a connection gives the same result on any two amounts of fuel above the weight of the
-- reads that are left, and so never ends for want of fuel.
pub serve_dav_enough :
    (f g : ℕ) (h : DavHost) (w : DavWorld)
    → weight w.reads < f
    → weight w.reads < g
    → serve f h w ≡ serve g h w
unfolding serve
serve_dav_enough zero g h w a b = absurd (omega arith)
serve_dav_enough (suc f) zero h w a b = absurd (omega arith)
serve_dav_enough (suc f) (suc g) h w a b = after-cong (parse_request h w) _ _ (λ q v e.
    let less = parse_request_less h w e in
    answer-cong h (serve f h) (serve g h) q v (λ u same.
      let smaller : weight u.reads < weight w.reads = rw same less in
      serve_dav_enough f g h u (omega (arith, smaller, a)) (omega (arith, smaller, b))))
