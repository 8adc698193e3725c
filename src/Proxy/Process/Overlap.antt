-- ===== src/Proxy/Process/Overlap.antt =====
-- Calls of `EnsureProxy` that overlap with timers, exits and a shutdown. `ensureProcessProxy` reads
-- the map under the lock and refreshes the entry, or waits for a new process, after it has released
-- it. Calls for one key share one attempt (`group.Do`), so a key has one attempt at a time.
-- `killProcessEntry`, the goroutine of an exit and the end of a start are one step each; Fine has finer
-- steps.
pub mod Armed
pub mod Race
use capo_shell_mcp.Prelude.{
  ℕ, ℤ, String, ◌≡◌, some, none, List, [], ◌∷◌, Map, lookup, insert, delete,
}
use capo_shell_mcp.Proxy.Process.{
  Manager, new, refresh, Startup, start, process_exited, timer_fires, kill_all_process_proxies,
}

-- Where an attempt stands: it holds an entry that it found, or it waits for a new process.
pub data Attempt : Type 0 where
  holds : ℕ → ℤ → Attempt
  starts : ℤ → Attempt

pub record World : Type 0 where
  pub manager : Manager
  pub attempts : Map Attempt

abbrev pub initial : World
initial = record { manager = new; attempts = [] }

pub data Step (w : World) : World → Type 0 where
  finds :
      (key : String) (ttl : ℤ) (e : ℕ)
      → lookup key w.attempts ≡ none
      → lookup key w.manager.entries ≡ some e
      → Step w (record w { attempts = insert key (holds e ttl) w.attempts })
  -- The attempt returns nil.
  refreshes :
      (key : String) (ttl : ℤ) (e : ℕ)
      → lookup key w.attempts ≡ some (holds e ttl)
      → Step w (record { manager = refresh e key ttl w.manager; attempts = delete key w.attempts })
  spawns :
      (key : String) (ttl : ℤ)
      → lookup key w.attempts ≡ none
      → lookup key w.manager.entries ≡ none
      → Step w (record w { attempts = insert key (starts ttl) w.attempts })
  startup_ends :
      (key : String) (ttl : ℤ) (startup : Startup)
      → lookup key w.attempts ≡ some (starts ttl)
      → Step w (record {
        manager = (start startup key ttl w.manager).1;
        attempts = delete key w.attempts;
      })
  fires : (t : ℕ) → Step w (record w { manager = timer_fires t w.manager })
  exits : (e : ℕ) (key : String) → Step w (record w { manager = process_exited e key w.manager })
  shuts_down : Step w (record w { manager = kill_all_process_proxies w.manager })

pub data Reach (w : World) : World → Type 0 where
  here : Reach w w
  next : {u v : World} → Reach w u → Step u v → Reach w v
