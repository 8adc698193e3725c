-- ===== src/Proxy/Process.antt =====
-- The directly spawned tunnels of internal/proxy/manager.go. An entry's number stands for the
-- pointer `*processEntry` and for its process; a timer's number stands for the `Timer` that
-- `AfterFunc` returned.
pub mod Invariant
pub mod Calls
pub mod Shutdown
pub mod Expiry
pub mod Overlap
pub mod Fine
use capo_shell_mcp.Prelude.{
  ℕ, suc, ◌+◌, ℤ, String, Bool, true, false, Option, none, some, List, [], ◌∷◌, eqb, Map, lookup,
  insert, delete, Result, Error, ok, err, wrap, exited_early, if◌then◌else◌,
}

-- What a pending timer does when it fires: `killProcessEntry(key)`, the duration it was given.
pub record Alarm : Type 0 where
  pub key : String
  pub after : ℤ

pub record Manager : Type 0 where
  -- processEntries
  pub entries : Map ℕ
  -- the field `timer` of each entry
  pub timer_of : ℕ → ℕ
  -- the timers that are neither stopped nor fired
  pub pending : ℕ → Option Alarm
  -- the processes that SIGTERM was sent to, the last one first
  pub signalled : List ℕ
  pub next_entry : ℕ
  pub next_timer : ℕ

abbrev pub update {ℓ} : {A : Type ℓ} → (ℕ → A) → ℕ → A → ℕ → A
update f i a j = if eqb i j then a else f j

-- New
unfoldable pub new : Manager
new = record {
  entries = [];
  timer_of = λ _. 0;
  pending = λ _. none;
  signalled = [];
  next_entry = 0;
  next_timer = 0;
}

-- timer.Stop()
abbrev pub stop : ℕ → Manager → Manager
stop t m = record m { pending = update m.pending t none }

-- e.timer = m.clock.AfterFunc(ttl, func() { m.killProcessEntry(key) })
abbrev pub arm : ℕ → String → ℤ → Manager → Manager
arm e key ttl m = record m {
  timer_of = update m.timer_of e m.next_timer;
  pending = update m.pending m.next_timer (some (record { key = key; after = ttl }));
  next_timer = suc m.next_timer;
}

-- The branch of `ensureProcessProxy` for an entry that is there.
unfoldable pub refresh : ℕ → String → ℤ → Manager → Manager
refresh e key ttl m = arm e key ttl (stop (m.timer_of e) m)

-- The branch for a new process that is still up when the startup window has elapsed.
unfoldable pub register : String → ℤ → Manager → Manager
register key ttl m =
    let e = m.next_entry in
    let m' = arm e key ttl (record m { next_entry = suc e }) in
    record m' { entries = insert key e m'.entries }

-- How the attempt to start a process ends: `spawnProcess` fails, the process exits within the
-- startup window, or the window elapses first.
pub data Startup : Type 0 where
  spawn_fails : Error → Startup
  exits_early : String → Startup
  stays_up : Startup

unfoldable pub start : Startup → String → ℤ → Manager → Result (Unit {0}) × Manager
start (spawn_fails e) key ttl m = (err (wrap "proxy: spawning sshuttle" e), m)
start (exits_early code) key ttl m = (err (exited_early code), m)
start stays_up key ttl m = (ok tt, register key ttl m)

-- `ensureProcessProxy`, with nothing else going on meanwhile.
unfoldable pub ensure_process_proxy : String → ℤ → Startup → Manager → Result (Unit {0}) × Manager
unfolding refresh register start
ensure_process_proxy key ttl startup m = elim (lookup key m.entries) [
  | none ↦ start startup key ttl m
  | some e ↦ (ok tt, refresh e key ttl m)
]

-- What others do with the tunnels, in the first and the second gap of a call.
abbrev pub Others : Type 0
Others = ℕ → Manager → Manager

-- `ensureProcessProxy`, with what others do between its steps: after the section under the lock that looks for
-- the entry, and between the new timer and what comes before it, for an entry that is there, or the
-- section that registers the process, for a new one.
unfoldable pub refresh_between : Others → ℕ → String → ℤ → Manager → Manager
refresh_between others e key ttl m =
    let found = others 0 m in arm e key ttl (others 1 (stop (found.timer_of e) found))

unfoldable pub register_between : Others → String → ℤ → Manager → Manager
register_between others key ttl m =
    let started = others 0 m in
    let e = started.next_entry in
    let armed = others 1 (arm e key ttl (record started { next_entry = suc e })) in
    record armed { entries = insert key e armed.entries }

unfoldable pub start_between : Others → Startup → String → ℤ → Manager → Result (Unit {0}) × Manager
unfolding register_between
start_between others (spawn_fails e) key ttl m =
    (err (wrap "proxy: spawning sshuttle" e), others 0 m)
start_between others (exits_early code) key ttl m = (err (exited_early code), others 0 m)
start_between others stays_up key ttl m = (ok tt, register_between others key ttl m)

unfoldable pub ensure_process_proxy_between :
    Others → String → ℤ → Startup → Manager → Result (Unit {0}) × Manager
unfolding refresh_between start_between
ensure_process_proxy_between others key ttl startup m = elim (lookup key m.entries) [
  | none ↦ start_between others startup key ttl m
  | some e ↦ (ok tt, refresh_between others e key ttl m)
]

-- The part of `killProcessEntry` after the entry is found and taken out of the map.
unfoldable pub terminate : ℕ → String → Manager → Manager
terminate e key m =
    let m' = stop (m.timer_of e) (record m { entries = delete key m.entries }) in
    record m' { signalled = e ∷ m'.signalled }

unfoldable pub kill_process_entry : String → Manager → Manager
unfolding terminate
kill_process_entry key m = elim (lookup key m.entries) [ none ↦ m | some e ↦ terminate e key m ]

-- The goroutine that waits for the exit of a registered process: `cur == e` compares pointers.
unfoldable pub drop_entry : ℕ → String → Manager → Manager
drop_entry e key m = stop (m.timer_of e) (record m { entries = delete key m.entries })

unfoldable pub process_exited : ℕ → String → Manager → Manager
unfolding drop_entry
process_exited e key m = elim (lookup key m.entries) [
  | none ↦ m
  | some cur ↦ if eqb cur e then drop_entry e key m else m
]

-- A pending timer fires: it is no longer pending, and its function runs.
unfoldable pub timer_fires : ℕ → Manager → Manager
unfolding kill_process_entry
timer_fires t m = elim (m.pending t) [
  | none ↦ m
  | some alarm ↦ kill_process_entry alarm.key (stop t m)
]

pub kill_keys : List (String × ℕ) → Manager → Manager
kill_keys [] m = m
kill_keys ((key, _) ∷ keys) m = kill_keys keys (kill_process_entry key m)

-- `KillAllProcessProxies`: the keys are read first, then each entry is killed.
unfoldable pub kill_all_process_proxies : Manager → Manager
unfolding kill_keys
kill_all_process_proxies m = kill_keys m.entries m
