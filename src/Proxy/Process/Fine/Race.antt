-- ===== src/Proxy/Process/Fine/Race.antt =====
-- A run in which the timer of a new entry fires before the entry is in the map.
use capo_shell_mcp.Prelude.{
  ℕ, ◌≡◌, refl, ℤ, String, some, none, [], ◌∷◌, lookup, insert, eq_refl, arith,
}
use capo_shell_mcp.Proxy.Process.{new, stop}
use capo_shell_mcp.Proxy.Process.Fine.{
  idle, starting, inserting, killing, ManagerThreads, no_threads, becomes, with_entry, put_entry,
  spawns, stays_up, inserts, fires, misses, rests, Reach, here, next,
}

module _ (key : String) (ttl : ℤ) where
  abbrev spawned : ManagerThreads
  spawned = becomes no_threads 0 new (starting key ttl)

  abbrev armed : ManagerThreads
  armed = becomes spawned 0 (with_entry key ttl new) (inserting key 0)

  abbrev fired : ManagerThreads
  fired = becomes armed 1 (stop 0 armed.manager) (killing (key ∷ []))

  abbrev missed : ManagerThreads
  missed = becomes (becomes fired 1 fired.manager (killing [])) 1 fired.manager idle

  abbrev pub registered : ManagerThreads
  registered = becomes missed 0 (put_entry key 0 missed.manager) idle

  Reach-registered : Reach no_threads registered
  unfolding new lookup
  Reach-registered =
      next
        (next
          (next
            (next
              (next (next here (spawns 0 key ttl refl (λ j. cc) refl)) (stays_up 0 key ttl refl))
              (fires 1 0 _ refl refl))
            (misses 1 key [] refl refl))
          (rests 1 refl))
        (inserts 0 key 0 refl)

  -- For every key and duration there is a reachable state in which the tunnel of the key is registered, no
  -- timer is pending at all, and no thread is at work on any tunnel: only a shutdown or the end of
  -- the process itself ends it, unless another attempt renews its timer.
  pub unarmed_race :
      (w : ManagerThreads) × Reach no_threads w
      × (lookup key w.manager.entries ≡ some 0)
      × ((t : ℕ) → w.manager.pending t ≡ none)
      × ((j : ℕ) → w.threads j ≡ idle)
  unfolding new insert lookup
  unarmed_race = (
    registered,
    Reach-registered,
    ground (arith, eq_refl key),
    λ t. ground arith,
    λ j. ground arith,
  )
