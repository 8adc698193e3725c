-- ===== src/Proxy/Tests.antt =====
-- Tests of the tunnels on concrete events.
use capo_shell_mcp.Prelude.{
  ℕ, pos, ◌≡◌, refl, ◌↔◌, some, none, List, [], ◌∷◌, lookup, insert, In, arith, eq_iff,
}
use capo_shell_mcp.Proxy.Process.{
  new, start, register, stays_up, exits_early, ensure_process_proxy, kill_all_process_proxies,
  timer_fires,
}
use capo_shell_mcp.Proxy.Process.Invariant.{alarm_key, timer_at}
use capo_shell_mcp.Proxy.Process.Calls.{
  Event, ensure, step, run, run-timers, HasTunnel, ensure-HasTunnel, ensure-err, ensure-other,
  run-IsConsistent,
}
use capo_shell_mcp.Proxy.Process.Expiry.{run-expires}
use capo_shell_mcp.Proxy.Process.Shutdown.{kill_all_lem}
use capo_shell_mcp.Proxy.Process.Overlap.Armed.{Reach-armed}
use capo_shell_mcp.Proxy.Process.Overlap.Race.{up, Reach-up}

abbrev events : List Event
events =
    ensure "10.0.0.1:6443" (pos 60) stays_up
    ∷ ensure "10.0.0.2:6443" (pos 60) stays_up
    ∷ ensure "10.0.0.1:6443" (pos 90) stays_up
    ∷ []

refreshed : (run new events).timer_of 0 ≡ 2
unfolding run step new ensure_process_proxy lookup insert
refreshed = refl

run-timers_example :
    (timer_at (run new events) "10.0.0.1:6443" ≡ some 2)
    ↔ (alarm_key ((run new events).pending 2) ≡ some "10.0.0.1:6443")
run-timers_example = run-timers events "10.0.0.1:6443" 2

ensure-HasTunnel_test :
    HasTunnel "10.0.0.1:6443"
      (pos 60)
      (ensure_process_proxy "10.0.0.1:6443" (pos 60) stays_up new).1
unfolding ensure_process_proxy new lookup
ensure-HasTunnel_test = ensure-HasTunnel "10.0.0.1:6443" (pos 60) stays_up new refl

ensure-err_test :
    (lookup "10.0.0.1:6443" new.entries ≡ none)
    × ((ensure_process_proxy "10.0.0.1:6443" (pos 60) (exits_early "255") new).1 ≡ new)
unfolding ensure_process_proxy new lookup
ensure-err_test = ensure-err "10.0.0.1:6443" (pos 60) (exits_early "255") new refl

ensure-other_test :
    lookup "10.0.0.2:6443"
      (ensure_process_proxy "10.0.0.1:6443" (pos 60) stays_up (run new events)).1.entries
    ≡ lookup "10.0.0.2:6443" (run new events).entries
ensure-other_test =
    ensure-other "10.0.0.1:6443" "10.0.0.2:6443" (pos 60) stays_up (run new events)
      (ground (arith, eq_iff "10.0.0.1:6443" "10.0.0.2:6443"))

kill_all_lem_test :
    (lookup "10.0.0.2:6443" (kill_all_process_proxies (run new events)).entries ≡ none)
    × ((kill_all_process_proxies (run new events)).pending 2 ≡ none)
    × In 0 (kill_all_process_proxies (run new events)).signalled
unfolding run step new ensure_process_proxy lookup insert
kill_all_lem_test =
    kill_all_lem (run new events) "10.0.0.2:6443" "10.0.0.1:6443" 2 0 (run-IsConsistent events) refl

Reach-armed_test :
    alarm_key (
      (up "10.0.0.1:6443" (pos 60)).manager.pending
        ((up "10.0.0.1:6443" (pos 60)).manager.timer_of 0))
    ≡ some "10.0.0.1:6443"
unfolding start register new lookup insert
Reach-armed_test = Reach-armed "10.0.0.1:6443" 0 (Reach-up "10.0.0.1:6443" (pos 60)) refl

run-expires_example :
    (t : ℕ) × (timer_at (run new events) "10.0.0.2:6443" ≡ some t)
    × (lookup "10.0.0.2:6443" (timer_fires t (run new events)).entries ≡ none)
    × In 1 (timer_fires t (run new events)).signalled
unfolding run step new ensure_process_proxy lookup insert
run-expires_example = run-expires events "10.0.0.2:6443" 1 refl
