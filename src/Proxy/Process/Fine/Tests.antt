-- ===== src/Proxy/Process/Fine/Tests.antt =====
-- Tests of the fine steps: a tunnel is started, its timer fires, and its process is sent SIGTERM.
use capo_shell_mcp.Prelude.{
  ℕ, ◌≡◌, ◌≢◌, refl, pos, String, none, some, [], ◌∷◌, In, lookup, insert, delete,
}
use capo_shell_mcp.Proxy.Process.{new}
use capo_shell_mcp.Proxy.Process.Fine.{
  idle, ManagerThreads, no_threads, spawns, stays_up, inserts, fires, takes, stops, signals, rests,
  Reach, here, next,
}
use capo_shell_mcp.Proxy.Process.Fine.Once.{Once}
use capo_shell_mcp.Proxy.Process.Fine.Reached.{Reach-Once}
use capo_shell_mcp.Proxy.Process.Fine.Race.{unarmed_race}

up : (w : ManagerThreads) × Reach no_threads w
unfolding new lookup insert
up = (
  _,
  next (next (next here (spawns 0 "k" (pos 60) refl (λ j. cc) refl)) (stays_up 0 "k" (pos 60) refl))
      (inserts 0 "k" 0 refl),
)

killed : (w : ManagerThreads) × Reach no_threads w
unfolding new lookup insert delete up
killed = (
  _,
  next
      (next
        (next (next (next up.1 (fires 1 0 _ refl refl)) (takes 1 "k" 0 [] refl refl))
          (stops 1 0 [] refl))
        (signals 1 0 [] refl))
      (rests 1 refl),
)

sent : killed.0.manager.signalled ≡ 0 ∷ []
unfolding killed
sent = refl

Reach-Once_example :
    Once killed.0.manager.signalled
    × ((e : ℕ) (key : String)
        → In e killed.0.manager.signalled
        → lookup key killed.0.manager.entries ≢ some e)
Reach-Once_example = Reach-Once killed.1

unarmed_race_example :
    (w : ManagerThreads) × Reach no_threads w
    × (lookup "k" w.manager.entries ≡ some 0)
    × ((t : ℕ) → w.manager.pending t ≡ none)
    × ((j : ℕ) → w.threads j ≡ idle)
unarmed_race_example = unarmed_race "k" (pos 60)
