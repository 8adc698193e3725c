-- ===== src/Daemon/Tests.antt =====
-- Tests of the command: the HTTP server fails to start while a tunnel is registered.
use capo_shell_mcp.Prelude.{ℕ, ◌+◌, pos, String, refl, none, List, [], ◌∷◌, ok, err, external}
use capo_shell_mcp.Config.Load.{AppConfig}
use capo_shell_mcp.Proxy.Process.{stays_up}
use capo_shell_mcp.Proxy.Process.Calls.{Event, ensure, run}
use capo_shell_mcp.Daemon
use capo_shell_mcp.Daemon.{Parts}
use capo_shell_mcp.Daemon.Laws.{ByEvents, UseEvents, IsClear, run-IsClear}

abbrev config : AppConfig
config = record {
  kubeconfigs = [];
  cache = record { cluster_list_ttl_seconds = pos 60; kubeconfig_ttl_seconds = pos 60 };
  sshuttle_host = "";
  custom_fields = [];
  transforms = none;
}

abbrev tunnel : List Event
tunnel = ensure "10.0.0.1:6443" (pos 60) stays_up ∷ []

-- Mounting the tools starts a tunnel.
abbrev parts : Parts ℕ String
parts = record {
  load = λ n. (ok config, n + 1);
  mount_tools = λ cfg w. (ok tt, (run w.0 tunnel, w.1));
  port_text = "";
  atoi = λ t. err (external "not a number");
  start = λ port w. (err (external "in use"), w);
  serving = λ w. w;
  close = λ server w. (ok tt, w);
}

unchanged : ByEvents {X = ℕ} (λ w. w)
unfolding run
unchanged w = ([], refl)

abbrev events : UseEvents parts
events = record {
  mounting = λ cfg w. (tunnel, refl);
  starting = λ port. unchanged;
  serving = unchanged;
  closing = λ server. unchanged;
}

run-IsClear_example : IsClear (Daemon.run parts 0).1.0
run-IsClear_example = run-IsClear parts events 0
