-- ===== src/Http/Tests.antt =====
-- Tests of internal/httpserver on concrete requests.
use capo_shell_mcp.Prelude.{ℕ, ◌+◌, pos, String, List, [], ◌∷◌, ok, ◌==◌, if◌then◌else◌}
use capo_shell_mcp.Http.{HttpRequest, HttpHandler, Response, Net}

-- The state counts the requests and the commands.
abbrev mcp : HttpHandler String ℕ
mcp r n = (record { status = 200; content_type = "application/json"; body = r.rest }, n + 1)

abbrev not_found : Response
not_found = record { status = 404; content_type = "text/plain"; body = "404 page not found" }

-- A mux that takes the first pattern.
abbrev mux : List (String × HttpHandler String ℕ) → HttpHandler String ℕ
mux [] r n = (not_found, n)
mux ((path, h) ∷ _) r n = if r.path == path then h r n else (not_found, n)

abbrev net : Net ℕ String String
net = record {
  listen = λ address n. (ok (record { port = pos 40000; addr = "127.0.0.1:40000" }), n);
  streamable = mcp;
  sessions = λ n. [];
  shutdown = λ n. (ok tt, n);
  serve_mux = mux;
}

abbrev request : HttpRequest String
request = record { host = "localhost:40000"; path = "/mcp"; rest = "{}" }
