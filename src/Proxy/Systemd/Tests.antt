-- ===== src/Proxy/Systemd/Tests.antt =====
-- Tests of the systemd mode on a concrete systemd.
use capo_shell_mcp.Prelude.{pos, String, ◌≡◌, ◌≢◌, refl, some, lookup, trim_space}
use capo_shell_mcp.Proxy.Systemd.{unit_name, seconds_text, is_unit_active, ensure_systemd_proxy}
use capo_shell_mcp.Proxy.Systemd.Laws.{ensure_systemd_proxy_lem}
use capo_shell_mcp.Proxy.Systemd.Fake.{systemd, documented, running}

ensure_systemd_proxy_lem_test :
    (lookup
        (unit_name "10.0.0.1" "6443")
        (ensure_systemd_proxy systemd "10.0.0.1" "6443" "bastion" (pos 60000000000) running).1
      ≡ some (seconds_text (pos 60000000000)))
    × ((other : String)
        → unit_name "10.0.0.1" "6443" ≢ other
        → lookup other
            (ensure_systemd_proxy systemd "10.0.0.1" "6443" "bastion" (pos 60000000000) running).1
          ≡ lookup other running)
unfolding ensure_systemd_proxy is_unit_active lookup unit_name trim_space
ensure_systemd_proxy_lem_test =
    ensure_systemd_proxy_lem systemd documented "10.0.0.1" "6443" "bastion" (pos 60000000000)
      running refl
