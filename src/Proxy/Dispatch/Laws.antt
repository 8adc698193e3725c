-- ===== src/Proxy/Dispatch/Laws.antt =====
-- What `EnsureProxy` leaves, in both modes.
use capo_shell_mcp.Prelude.{
  ℤ, String, ◌≡◌, inl, inr, refl, ap, subst, sym, ◌∙◌, true, false, some, lookup, Option-cases, ok,
}
use capo_shell_mcp.Shell.{Execer}
use capo_shell_mcp.Proxy.Process.{
  Manager, Startup, spawn_fails, exits_early, stays_up, Others, start, start_between,
  ensure_process_proxy, ensure_process_proxy_between, refresh, refresh_between, register,
  register_between,
}
use capo_shell_mcp.Proxy.Process.Calls.{HasTunnel, ensure-HasTunnel}
use capo_shell_mcp.Proxy.Systemd.{target_key, unit_name, seconds_text}
use capo_shell_mcp.Proxy.Systemd.Laws.{Documented, ensure_systemd_proxy_lem}
use capo_shell_mcp.Proxy.Dispatch.{ensure_proxy}

-- Nobody else is at work.
abbrev pub alone : Others
alone _ m = m

start_between-alone :
    (how : Startup) (key : String) (ttl : ℤ) (m : Manager)
    → start_between alone how key ttl m ≡ start how key ttl m
unfolding start_between start register register_between
start_between-alone (spawn_fails e) key ttl m = refl
start_between-alone (exits_early code) key ttl m = refl
start_between-alone stays_up key ttl m = refl

-- With nobody else at work there is one step.
ensure_between-alone :
    (key : String) (ttl : ℤ) (how : Startup) (m : Manager)
    → ensure_process_proxy_between alone key ttl how m ≡ ensure_process_proxy key ttl how m
unfolding ensure_process_proxy_between ensure_process_proxy refresh_between refresh
ensure_between-alone key ttl how m = elim (Option-cases (lookup key m.entries)) [
  | inl n ↦
      rw (n, ensure_process_proxy_between, ensure_process_proxy) (start_between-alone how key ttl m)
  | inr (e, i) ↦ rw (i, ensure_process_proxy_between, ensure_process_proxy) refl
]

module _ {S : Type 0} (execer : Execer S) where
  -- When `EnsureProxy` returns no error under systemd, and that does what the commands are documented to do, the
  -- tunnel of the target is an active unit with the new lifetime; the processes are as they were.
  pub ensure_proxy-active :
      (d : Documented execer) (others : Others) (ip port host : String) (ttl : ℤ) (how : Startup)
      (m : Manager) (s : S)
      → (ensure_proxy execer others true ip port host ttl how (m, s)).0 ≡ ok tt
      → (d.runtime_of
            (unit_name ip port)
            (ensure_proxy execer others true ip port host ttl how (m, s)).1.1
          ≡ some (seconds_text ttl))
        × ((ensure_proxy execer others true ip port host ttl how (m, s)).1.0 ≡ m)
  unfolding ensure_proxy
  ensure_proxy-active d others ip port host ttl how m s h =
      ((ensure_systemd_proxy_lem execer d ip port host ttl s h).0, refl)

  -- When it returns no error without systemd, and nobody else was at work on the tunnels meanwhile, the tunnel is a
  -- registered process with a pending kill timer; the machine is as it was.
  pub ensure_proxy-HasTunnel :
      (ip port host : String) (ttl : ℤ) (how : Startup) (m : Manager) (s : S)
      → (ensure_proxy execer alone false ip port host ttl how (m, s)).0 ≡ ok tt
      → HasTunnel
          (target_key ip port)
          ttl
          (ensure_proxy execer alone false ip port host ttl how (m, s)).1.0
        × ((ensure_proxy execer alone false ip port host ttl how (m, s)).1.1 ≡ s)
  unfolding ensure_proxy
  ensure_proxy-HasTunnel ip port host ttl how m s h =
      let same = ensure_between-alone (target_key ip port) ttl how m in
      (
        subst (λ r. HasTunnel (target_key ip port) ttl r.1) (sym same)
            (ensure-HasTunnel (target_key ip port) ttl how m (sym (ap (λ r. r.0) same) ∙ h)),
        refl,
      )
