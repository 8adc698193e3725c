-- ===== src/Proxy/Dispatch/Tests.antt =====
-- Tests of `EnsureProxy` in both modes.
use capo_shell_mcp.Prelude.{pos, ◌≡◌, refl, false, [], ◌∷◌, lookup}
use capo_shell_mcp.Proxy.Process.{new, stays_up, ensure_process_proxy_between, start_between}
use capo_shell_mcp.Proxy.Process.Calls.{HasTunnel}
use capo_shell_mcp.Proxy.Systemd.{target_key}
use capo_shell_mcp.Proxy.Systemd.Fake.{systemd, running}
use capo_shell_mcp.Proxy.Dispatch.{ensure_proxy, spawn_args}
use capo_shell_mcp.Proxy.Dispatch.Laws.{alone, ensure_proxy-HasTunnel}

ensure_proxy-HasTunnel_test :
    HasTunnel "10.0.0.1:6443"
      (pos 60000000000)
      (ensure_proxy systemd alone false "10.0.0.1" "6443" "bastion"
        (pos 60000000000)
        stays_up
        (new, running)).1.0
    × ((ensure_proxy systemd alone false "10.0.0.1" "6443" "bastion"
          (pos 60000000000)
          stays_up
          (new, running)).1.1
        ≡ running)
unfolding ensure_proxy ensure_process_proxy_between new lookup start_between target_key
ensure_proxy-HasTunnel_test =
    ensure_proxy-HasTunnel systemd "10.0.0.1" "6443" "bastion" (pos 60000000000) stays_up new
      running refl

spawned : spawn_args "bastion" "10.0.0.1" "6443" ≡ "-r" ∷ "bastion" ∷ "10.0.0.1:6443" ∷ []
unfolding spawn_args
spawned = refl
