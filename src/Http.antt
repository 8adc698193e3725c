-- ===== src/Http.antt =====
-- internal/httpserver: the check of the Host header, the notes to systemd, `Start` and `Close`. The calls of
-- net/http and of the MCP library are parameters; a handler is a function on a state.
pub mod Laws
mod Tests
use capo_shell_mcp.Prelude.{
  ℕ, ℤ, String, ◌⊕◌, decimal, decimal_int, Bool, true, false, not, ◌&&◌, List, [], ◌∷◌, length,
  Result, ok, err, wrap, ◌==◌, if◌then◌else◌,
}
use capo_shell_mcp.Action.{Action, annotate, follow}
use capo_shell_mcp.Shell.{Options, ExecResult, Execer}

-- A request is its Host and the path of its URL, with all else.
pub record HttpRequest (B : Type 0) : Type 0 where
  pub host : String
  pub path : String
  pub rest : B

pub record Response : Type 0 where
  pub status : ℕ
  pub content_type : String
  pub body : String

abbrev pub HttpHandler : Type 0 → Type 0 → Type 0
HttpHandler B X = HttpRequest B → X → Response × X

abbrev pub misdirected : Response
misdirected = record { status = 421; content_type = "text/plain"; body = "Misdirected Request" }

abbrev pub with_port : ℤ → String
with_port port = "127.0.0.1:" ⊕ decimal_int port

unfoldable pub host_check_middleware : {B X : Type 0} → ℤ → HttpHandler B X → HttpHandler B X
host_check_middleware port next r x =
    if not (r.host == "127.0.0.1") && not (r.host == with_port port)
    then (misdirected, x)
    else next r x

module _ {X : Type 0} (execer : Execer X) (notify_socket : String) where
  -- A failure is only logged.
  unfoldable pub notify_systemd : List String → X → X
  notify_systemd args x =
      if notify_socket == ""
      then x
      else (execer "systemd-notify" args (record { env = []; input = ""; max_output_bytes = 0 })
          x).1

-- A listener is its port and its address.
pub record Listener : Type 0 where
  pub port : ℤ
  pub addr : String

pub record Net (X S B : Type 0) : Type 0 where
  pub listen : String → Action X Listener
  pub streamable : HttpHandler B X
  pub sessions : X → List S
  pub shutdown : Action X (Unit {0})
  -- the handler of `http.NewServeMux()` after the calls of `Handle` with these patterns and handlers
  pub serve_mux : List (String × HttpHandler B X) → HttpHandler B X

-- A server that runs: the listener, and the handler of all requests.
pub record HttpServer (X B : Type 0) : Type 0 where
  pub listener : Listener
  pub handler : HttpHandler B X

module _ {X S B : Type 0} (net : Net X S B) where
  -- The handler behind "/mcp" of the mux, with the port of the listener.
  abbrev pub guarded_server : Listener → HttpServer X B
  guarded_server ln = record {
    listener = ln;
    handler = net.serve_mux (("/mcp", host_check_middleware ln.port net.streamable) ∷ []);
  }

module _ {X S B : Type 0} (net : Net X S B) (execer : Execer X) (notify_socket : String) where
  abbrev session_count : X → ℕ
  session_count x = length (net.sessions x)

  abbrev ready_args : Listener → X → List String
  ready_args ln x =
      "--ready"
      ∷ ("--status=listening on " ⊕ (ln.addr ⊕ (", sessions=" ⊕ decimal (session_count x))))
      ∷ []

  abbrev serve : Listener → Action X (HttpServer X B)
  serve ln x = (ok (guarded_server net ln), notify_systemd execer notify_socket (ready_args ln x) x)

  unfoldable pub start : ℤ → Action X (HttpServer X B)
  unfolding notify_systemd host_check_middleware
  start port x =
      follow serve
        (annotate ("httpserver: listening on " ⊕ with_port port) (net.listen (with_port port)) x)

  unfoldable pub close : Action X (Unit {0})
  unfolding notify_systemd
  close x =
      let (r, x') = net.shutdown x in
      (r, notify_systemd execer notify_socket ("--stopping" ∷ "--status=shutting down" ∷ []) x')
