-- ===== src/Proxy/Process/Calls.antt =====
-- What each call on the tunnels does, and any sequence of calls that do not overlap.
use capo_shell_mcp.Prelude.{
  ℕ, ◌≢◌, ◌≡◌, ℤ, String, none, some, List, [], ◌∷◌, lookup, lookup-insert, arith, eq_iff, eq_refl,
  Option-cases, inl, inr, Error, ok, err, ◌↔◌,
}
use capo_shell_mcp.Proxy.Process.{
  Manager, new, Startup, spawn_fails, exits_early, stays_up, start, ensure_process_proxy, register,
  kill_process_entry, process_exited, timer_fires, kill_keys, kill_all_process_proxies,
}
use capo_shell_mcp.Proxy.Process.Invariant.{
  IsConsistent, IsConsistent-new, ensure-IsConsistent, timer_fires-IsConsistent,
  process_exited-IsConsistent, kill_process_entry-IsConsistent, alarm_key, timer_at,
}

-- What can happen to the manager: calls, timers and exits of processes.
pub data Event : Type 0 where
  ensure : String → ℤ → Startup → Event
  fires : ℕ → Event
  exits : ℕ → String → Event
  kill_all : Event

unfoldable pub step : Manager → Event → Manager
step m (ensure key ttl startup) = (ensure_process_proxy key ttl startup m).1
step m (fires t) = timer_fires t m
step m (exits e key) = process_exited e key m
step m kill_all = kill_all_process_proxies m

unfoldable pub run : Manager → List Event → Manager
run m [] = m
run m (e ∷ es) = run (step m e) es

pub kill_keys-IsConsistent :
    (keys : List (String × ℕ)) (m : Manager) → IsConsistent m → IsConsistent (kill_keys keys m)
unfolding kill_keys
kill_keys-IsConsistent [] m v = v
kill_keys-IsConsistent ((key, e) ∷ keys) m v =
    kill_keys-IsConsistent keys (kill_process_entry key m) (kill_process_entry-IsConsistent key m v)

pub step-IsConsistent : (m : Manager) (e : Event) → IsConsistent m → IsConsistent (step m e)
unfolding step kill_all_process_proxies
step-IsConsistent m (ensure key ttl startup) v = ensure-IsConsistent key ttl startup m v
step-IsConsistent m (fires t) v = timer_fires-IsConsistent t m v
step-IsConsistent m (exits e key) v = process_exited-IsConsistent e key m v
step-IsConsistent m kill_all v = kill_keys-IsConsistent m.entries m v

pub run_from : (m : Manager) (es : List Event) → IsConsistent m → IsConsistent (run m es)
unfolding run
run_from m [] v = v
run_from m (e ∷ es) v = run_from (step m e) es (step-IsConsistent m e v)

pub run-IsConsistent : (es : List Event) → IsConsistent (run new es)
run-IsConsistent es = run_from new es IsConsistent-new

-- After any events that do not overlap, from a new manager: a pending timer kills the key `k`
-- exactly if it is the timer of the tunnel registered under `k`.
pub run-timers :
    (es : List Event) (k : String) (t : ℕ)
    → (timer_at (run new es) k ≡ some t) ↔ (alarm_key ((run new es).pending t) ≡ some k)
run-timers es = (run-IsConsistent es).timers

-- A tunnel is registered under the key, and its kill timer is pending with that duration.
abbrev pub HasTunnel : String → ℤ → Manager → Type 0
HasTunnel key ttl m =
    (e : ℕ) × (lookup key m.entries ≡ some e)
    × (m.pending (m.timer_of e) ≡ some (record { key = key; after = ttl }))

start-HasTunnel :
    (startup : Startup) (key : String) (ttl : ℤ) (m : Manager)
    → (start startup key ttl m).0 ≡ ok tt
    → HasTunnel key ttl (start startup key ttl m).1
unfolding start
start-HasTunnel (spawn_fails e) key ttl m h = cc
start-HasTunnel (exits_early c) key ttl m h = cc
start-HasTunnel stays_up key ttl m h =
    unfold register in
    (
      m.next_entry,
      ground (arith, lookup-insert key key m.next_entry m.entries, eq_refl key),
      ground arith,
    )

-- When `ensureProcessProxy` succeeds, a tunnel is registered under the key and its kill timer has
-- the new duration, whether the tunnel was there before or not.
pub ensure-HasTunnel :
    (key : String) (ttl : ℤ) (startup : Startup) (m : Manager)
    → (ensure_process_proxy key ttl startup m).0 ≡ ok tt
    → HasTunnel key ttl (ensure_process_proxy key ttl startup m).1
unfolding ensure_process_proxy
ensure-HasTunnel key ttl startup m h = elim (Option-cases (lookup key m.entries)) [
  | inl n ↦
      rw (n, ensure_process_proxy)
        (start-HasTunnel startup key ttl m (rw (n, ensure_process_proxy) at h))
  | inr (e, i) ↦ rw (i, ensure_process_proxy) (e, i, ground arith)
]

-- When `ensureProcessProxy` fails, no tunnel was registered under the key and nothing has changed.
pub ensure-err :
    (key : String) (ttl : ℤ) (startup : Startup) (m : Manager) {x : Error}
    → (ensure_process_proxy key ttl startup m).0 ≡ err x
    → (lookup key m.entries ≡ none) × ((ensure_process_proxy key ttl startup m).1 ≡ m)
unfolding ensure_process_proxy start
ensure-err key ttl (spawn_fails e) m h = ground arith
ensure-err key ttl (exits_early c) m h = ground arith
ensure-err key ttl stays_up m h = ground arith

-- `ensureProcessProxy` of one key leaves the tunnels of all other keys as they are.
pub ensure-other :
    (key other : String) (ttl : ℤ) (startup : Startup) (m : Manager)
    → other ≢ key
    → lookup other (ensure_process_proxy key ttl startup m).1.entries ≡ lookup other m.entries
unfolding ensure_process_proxy start
ensure-other key other ttl (spawn_fails e) m h = ground arith
ensure-other key other ttl (exits_early c) m h = ground arith
ensure-other key other ttl stays_up m h =
    ground (arith, lookup-insert key other m.next_entry m.entries, eq_iff key other)
