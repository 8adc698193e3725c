-- ===== src/Proxy/Process/Fine.antt =====
-- The manager of internal/proxy/manager.go in steps as fine as its locks and calls: each section that holds
-- the mutex is one step, and so is each call of a timer or of a process outside of it. A thread is a
-- call of ensureProcessProxy, a timer's function, or KillAllProcessProxies.
pub mod Once
pub mod Reached
pub mod Race
mod Tests
use capo_shell_mcp.Prelude.{
  ℕ, suc, ℤ, String, ◌≡◌, some, none, Option, List, [], ◌∷◌, map, Map, keys, lookup, insert, delete,
}
use capo_shell_mcp.Proxy.Process.{Alarm, Manager, new, update, stop, arm, drop_entry}

pub data Thread : Type 0 where
  idle : Thread
  -- ensureProcessProxy has found an entry; it has stopped its timer
  found stopped : String → ℕ → ℤ → Thread
  -- it waits for a new process; it has armed the timer of the new entry
  starting : String → ℤ → Thread
  inserting : String → ℕ → Thread
  -- killProcessEntry is to be called for these keys
  killing : List String → Thread
  -- it has taken an entry out of the map; it has stopped its timer
  taken signalling : ℕ → List String → Thread

-- The key of an attempt; `group.Do` lets a key have one at a time.
abbrev pub attempt_key : Thread → Option String
attempt_key (found key e ttl) = some key
attempt_key (stopped key e ttl) = some key
attempt_key (starting key ttl) = some key
attempt_key (inserting key e) = some key
attempt_key _ = none

pub record ManagerThreads : Type 0 where
  pub manager : Manager
  pub threads : ℕ → Thread

abbrev pub no_threads : ManagerThreads
no_threads = record { manager = new; threads = λ _. idle }

abbrev pub becomes : ManagerThreads → ℕ → Manager → Thread → ManagerThreads
becomes w i m t = record { manager = m; threads = update w.threads i t }

abbrev pub IsFree : String → ManagerThreads → Type 0
IsFree key w = (j : ℕ) → ¬ (attempt_key (w.threads j) ≡ some key)

-- A new entry, with its timer, that is not in the map.
abbrev pub with_entry : String → ℤ → Manager → Manager
with_entry key ttl m = arm m.next_entry key ttl (record m { next_entry = suc m.next_entry })

abbrev pub put_entry : String → ℕ → Manager → Manager
put_entry key e m = record m { entries = insert key e m.entries }

abbrev pub take_entry : String → Manager → Manager
take_entry key m = record m { entries = delete key m.entries }

abbrev pub send_sigterm : ℕ → Manager → Manager
send_sigterm e m = record m { signalled = e ∷ m.signalled }

pub data ThreadStep (w : ManagerThreads) : ManagerThreads → Type 0 where
  finds :
      (i : ℕ) (key : String) (e : ℕ) (ttl : ℤ)
      → w.threads i ≡ idle
      → IsFree key w
      → lookup key w.manager.entries ≡ some e
      → ThreadStep w (becomes w i w.manager (found key e ttl))
  stops_old :
      (i : ℕ) (key : String) (e : ℕ) (ttl : ℤ)
      → w.threads i ≡ found key e ttl
      → ThreadStep w (becomes w i (stop (w.manager.timer_of e) w.manager) (stopped key e ttl))
  -- the attempt returns nil
  rearms :
      (i : ℕ) (key : String) (e : ℕ) (ttl : ℤ)
      → w.threads i ≡ stopped key e ttl
      → ThreadStep w (becomes w i (arm e key ttl w.manager) idle)
  spawns :
      (i : ℕ) (key : String) (ttl : ℤ)
      → w.threads i ≡ idle
      → IsFree key w
      → lookup key w.manager.entries ≡ none
      → ThreadStep w (becomes w i w.manager (starting key ttl))
  -- the process cannot be spawned, or exits within the startup window
  start_fails :
      (i : ℕ) (key : String) (ttl : ℤ)
      → w.threads i ≡ starting key ttl
      → ThreadStep w (becomes w i w.manager idle)
  stays_up :
      (i : ℕ) (key : String) (ttl : ℤ)
      → w.threads i ≡ starting key ttl
      → ThreadStep w
          (becomes w i (with_entry key ttl w.manager) (inserting key w.manager.next_entry))
  inserts :
      (i : ℕ) (key : String) (e : ℕ)
      → w.threads i ≡ inserting key e
      → ThreadStep w (becomes w i (put_entry key e w.manager) idle)
  -- a pending timer fires, in a thread of its own
  fires :
      (i t : ℕ) (alarm : Alarm)
      → w.threads i ≡ idle
      → w.manager.pending t ≡ some alarm
      → ThreadStep w (becomes w i (stop t w.manager) (killing (alarm.key ∷ [])))
  -- KillAllProcessProxies reads the keys
  sweeps :
      (i : ℕ)
      → w.threads i ≡ idle
      → ThreadStep w (becomes w i w.manager (killing (keys w.manager.entries)))
  misses :
      (i : ℕ) (key : String) (rest : List String)
      → w.threads i ≡ killing (key ∷ rest)
      → lookup key w.manager.entries ≡ none
      → ThreadStep w (becomes w i w.manager (killing rest))
  takes :
      (i : ℕ) (key : String) (e : ℕ) (rest : List String)
      → w.threads i ≡ killing (key ∷ rest)
      → lookup key w.manager.entries ≡ some e
      → ThreadStep w (becomes w i (take_entry key w.manager) (taken e rest))
  stops :
      (i e : ℕ) (rest : List String)
      → w.threads i ≡ taken e rest
      → ThreadStep w (becomes w i (stop (w.manager.timer_of e) w.manager) (signalling e rest))
  signals :
      (i e : ℕ) (rest : List String)
      → w.threads i ≡ signalling e rest
      → ThreadStep w (becomes w i (send_sigterm e w.manager) (killing rest))
  rests : (i : ℕ) → w.threads i ≡ killing [] → ThreadStep w (becomes w i w.manager idle)
  -- the goroutine that waits for the exit of a registered process
  exits :
      (key : String) (e : ℕ)
      → lookup key w.manager.entries ≡ some e
      → ThreadStep w (record w { manager = drop_entry e key w.manager })

pub data Reach (w : ManagerThreads) : ManagerThreads → Type 0 where
  here : Reach w w
  next : {u v : ManagerThreads} → Reach w u → ThreadStep u v → Reach w v
