-- ===== src/Webdav/Handler/Serve.antt =====
-- `DavRequestHandler::handle_request` of netfiles/src/webdav/dav_handler.cpp: the loop over the requests
-- of a connection.
use net_files.Base.{ℕ, zero, suc, Outcome, done, thrown, pending}
use net_files.Webdav.Handler.Files.{
  process_get, process_head, process_put, process_delete, process_mkcol, process_copy, process_move,
}
use net_files.Webdav.Handler.Propfind.{
  process_propfind, process_proppatch, process_lock, process_unlock, process_options,
}
use net_files.Webdav.Http.Headers.{HttpRequest}
use net_files.Webdav.Http.Request.{Expected, value, unexpected, parse_request}
use net_files.Webdav.Http.Response.{HttpResponse, generate_response}
use net_files.Webdav.Http.Types.{
  HttpMethod, get, head, put, delete, mkcol, propfind, proppatch, copy, move, lock, unlock, options,
  HttpVersion, http10, http11, unknown,
}
use net_files.Webdav.World.{DavHost, DavWorld, M, after, ◌>>=◌, ◌>>◌, pure, write_all, weight}

-- The `switch`; its default is not reached, since every method has a case.
unfoldable pub dispatch : DavHost → HttpMethod → HttpRequest → M HttpResponse
unfolding process_get process_head process_put process_delete process_mkcol process_propfind
    process_proppatch process_copy process_move process_lock process_unlock process_options
dispatch h get q = process_get q
dispatch h head q = process_head q
dispatch h put q = process_put q
dispatch h delete q = process_delete q
dispatch h mkcol q = process_mkcol q
dispatch h propfind q = process_propfind h q
dispatch h proppatch q = process_proppatch q
dispatch h copy q = process_copy q
dispatch h move q = process_move q
dispatch h lock q = process_lock h q
dispatch h unlock q = process_unlock q
dispatch h options q = process_options h q

-- The request is answered; a connection of HTTP/1.0 is closed behind it.
unfoldable pub go_on : HttpVersion → M (Unit {0}) → M (Unit {0})
go_on http10 next = pure tt
go_on http11 next = next
go_on unknown next = next

unfoldable pub answer : DavHost → M (Unit {0}) → Expected HttpRequest → M (Unit {0})
unfolding dispatch go_on
answer h next (unexpected m) = pure tt
answer h next (value q) = do
  response ← dispatch h q.method q
  write_all (generate_response response)
  go_on q.version next

unfoldable pub serve : ℕ → DavHost → M (Unit {0})
unfolding answer
serve zero h w = (pending, w)
serve (suc f) h w = after (parse_request h w) (answer h (serve f h))

-- `catch (const std::exception&)`.
unfoldable pub caught : Outcome (Unit {0}) × DavWorld → Outcome (Unit {0}) × DavWorld
caught (thrown m, w) = (done tt, w)
caught (done u, w) = (done u, w)
caught (pending, w) = (pending, w)

-- Every request takes something from the socket, so the fuel is enough.
unfoldable pub handle_request : DavHost → M (Unit {0})
unfolding serve caught
handle_request h w = caught (serve (suc (weight w.reads)) h w)
