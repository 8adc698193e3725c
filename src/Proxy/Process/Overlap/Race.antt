-- ===== src/Proxy/Process/Overlap/Race.antt =====
-- A run in which a timer fires while an attempt holds its entry.
use capo_shell_mcp.Prelude.{
  ℕ, ℤ, String, ◌≡◌, refl, some, [], lookup, insert, delete, eq_refl, arith,
}
use capo_shell_mcp.Proxy.Process.{new, refresh, stays_up, start, timer_fires}
use capo_shell_mcp.Proxy.Process.Overlap.{
  holds, starts, World, initial, spawns, startup_ends, Reach, here, next,
}

-- `v` is what an attempt for the key leaves that returns nil for an entry `e` that it held in `u`.
abbrev pub RefreshOf : String → ℤ → ℕ → World → World → Type 0
RefreshOf key ttl e u v =
    (lookup key u.attempts ≡ some (holds e ttl))
    × (v ≡ record { manager = refresh e key ttl u.manager; attempts = delete key u.attempts })

-- The worlds of one run: an attempt starts a tunnel, the next attempt finds its entry, the timer
-- fires, and the attempt goes on.
module _ (key : String) (ttl : ℤ) where
  abbrev pub starting : World
  starting = record { manager = new; attempts = insert key (starts ttl) [] }

  abbrev pub up : World
  up = record { manager = (start stays_up key ttl new).1; attempts = delete key starting.attempts }

  abbrev found : World
  found = record up { attempts = insert key (holds 0 ttl) up.attempts }

  abbrev fired : World
  fired = record found { manager = timer_fires 0 found.manager }

  abbrev returned : World
  returned = record {
    manager = refresh 0 key ttl fired.manager;
    attempts = delete key fired.attempts;
  }

  pub Reach-up : Reach initial up
  unfolding new lookup insert
  Reach-up =
      next (next here (spawns key ttl refl refl))
        (startup_ends key ttl stays_up (ground (arith, eq_refl key)))
