-- ===== src/Daemon.antt =====
-- cmd/capi-shell-mcp/main.go. What the program does with the tunnels is the manager of Proxy/Process; all else
-- outside is `X`. The calls of other parts are a record.
pub mod Laws
mod Tests
use capo_shell_mcp.Prelude.{ℕ, ℤ, pos, String, ◌⊕◌, Result, ok, err, wrap, ◌==◌, if◌then◌else◌}
use capo_shell_mcp.Action.{Action, noted, lift, annotate, follow, ◌>>=◌, ◌>>◌}
use capo_shell_mcp.Config.Load.{AppConfig}
use capo_shell_mcp.Proxy.Process.{Manager, new, kill_all_process_proxies}

-- `V` is a server that runs.
pub record Parts (X V : Type 0) : Type 0 where
  pub load : Action X AppConfig
  pub mount_tools : AppConfig → Action (Manager × X) (Unit {0})
  -- os.Getenv("CAPI_SHELL_MCP_PORT")
  pub port_text : String
  -- strconv.Atoi
  pub atoi : String → Result ℤ
  pub start : ℤ → Action (Manager × X) V
  -- until a signal arrives
  pub serving : Manager × X → Manager × X
  pub close : V → Action (Manager × X) (Unit {0})

abbrev pub default_port : ℤ
default_port = pos 4737

-- The text of the second prefix is quoted by `%q`; here it is as it stands.
abbrev port_of : (String → Result ℤ) → String → Result ℤ
port_of atoi p =
    if p == "" then ok default_port else noted ("invalid CAPI_SHELL_MCP_PORT " ⊕ p) (atoi p)

module _ {X V : Type 0} (parts : Parts X V) where
  abbrev wait_and_close : V → Action (Manager × X) (Unit {0})
  wait_and_close server w = parts.close server (parts.serving w)

  -- From the call of MountTools on.
  unfoldable pub serve : AppConfig → Action (Manager × X) (Unit {0})
  serve cfg = do
    annotate "mounting kubernetes-mcp-server tools" (parts.mount_tools cfg)
    port ← lift (port_of parts.atoi parts.port_text)
    server ← annotate "starting HTTP server" (parts.start port)
    wait_and_close server

  -- The deferred call of KillAllProcessProxies.
  abbrev killing : Result (Unit {0}) × (Manager × X) → Result (Unit {0}) × (Manager × X)
  killing (r, (m, x)) = (r, (kill_all_process_proxies m, x))

  -- There is a manager once the configuration is loaded.
  unfoldable pub run : X → Result (Unit {0}) × (Manager × X)
  unfolding serve
  run x =
      let (cfg, x') = parts.load x in
      elim cfg [
        | ok c ↦ killing (serve c (new, x'))
        | err e ↦ (err (wrap "loading config" e), (new, x'))
      ]

  -- The exit code of the program.
  abbrev exit_code : Result (Unit {0}) → ℕ
  exit_code (ok _) = 0
  exit_code (err _) = 1

  unfoldable pub main : X → ℕ × (Manager × X)
  unfolding run
  main x = let (r, w) = run x in (exit_code r, w)
