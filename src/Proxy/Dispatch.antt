-- ===== src/Proxy/Dispatch.antt =====
-- internal/proxy/manager.go: `EnsureProxy`, `IsUnderSystemd` and the command of a tunnel. The state is that of the
-- manager with that of systemd.
pub mod Laws
mod Tests
use capo_shell_mcp.Prelude.{
  ℤ, String, ◌⊕◌, Bool, true, false, Option, none, some, List, [], ◌∷◌, Result, if◌then◌else◌,
}
use capo_shell_mcp.Shell.{Execer}
use capo_shell_mcp.Proxy.Process.{Manager, Startup, Others, ensure_process_proxy_between}
use capo_shell_mcp.Proxy.Systemd.{target_key, ensure_systemd_proxy}

-- os.LookupEnv("INVOCATION_ID")
unfoldable pub is_under_systemd : (String → Option String) → Bool
is_under_systemd env = elim (env "INVOCATION_ID") [ none ↦ false | some _ ↦ true ]

-- The arguments of sshuttle in DefaultSpawnProcess.
unfoldable pub spawn_args : String → String → String → List String
spawn_args sshuttle_host ip port = "-r" ∷ sshuttle_host ∷ (ip ⊕ (":" ⊕ port)) ∷ []

-- `others` is what attempts, timers and exits do with the tunnels in between, without the lock.
module _ {S : Type 0} (execer : Execer S) (others : Others) (under_systemd : Bool) where
  -- `startup` is how a process would start.
  unfoldable pub ensure_proxy :
      String → String → String → ℤ → Startup → Manager × S → Result (Unit {0}) × (Manager × S)
  ensure_proxy ip port sshuttle_host ttl startup (m, s) =
      if under_systemd
      then (let (r, s') = ensure_systemd_proxy execer ip port sshuttle_host ttl s in (r, (m, s')))
      else (let (r, m') = ensure_process_proxy_between others (target_key ip port) ttl startup m in
          (r, (m', s)))
