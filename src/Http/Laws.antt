-- ===== src/Http/Laws.antt =====
-- Which requests reach the MCP handler.
use capo_shell_mcp.Prelude.{ℤ, String, ◌≡◌, ◌≢◌, ◌⊎◌, [], ◌∷◌}
use capo_shell_mcp.Http.{
  HttpRequest, HttpHandler, Response, misdirected, with_port, Net, HttpServer,
}

-- The hosts of a port.
abbrev pub IsLocal : ℤ → String → Type 0
IsLocal port host = (host ≡ "127.0.0.1") ⊎ (host ≡ with_port port)

-- What net/http documents of a ServeMux with one pattern that is a path without a slash at its end: the handler
-- gets the requests of that path; any other request is answered by the mux itself, as not found or
-- with a redirection.
pub record IsServeMux {X S B : Type 0} (net : Net X S B) : Type 0 where
  pub matches :
      (path : String) (h : HttpHandler B X) (r : HttpRequest B) (x : X)
      → r.path ≡ path
      → net.serve_mux ((path, h) ∷ []) r x ≡ h r x
  pub no_match :
      (path : String) (h : HttpHandler B X) (r : HttpRequest B) (x : X)
      → r.path ≢ path
      → (answer : Response) × (net.serve_mux ((path, h) ∷ []) r x ≡ (answer, x))

module _ {X S B : Type 0} (net : Net X S B) where
  -- What becomes of a request: it is handed to the MCP handler, answered with 421, or answered by the mux.
  abbrev pub Handled : HttpServer X B → HttpRequest B → X → Type 0
  Handled server r y =
      ((r.path ≡ "/mcp")
        × IsLocal server.listener.port r.host
        × (server.handler r y ≡ net.streamable r y))
      ⊎ (((r.path ≡ "/mcp")
            × (¬ IsLocal server.listener.port r.host)
            × (server.handler r y ≡ (misdirected, y)))
          ⊎ ((r.path ≢ "/mcp") × ((answer : Response) × (server.handler r y ≡ (answer, y)))))
