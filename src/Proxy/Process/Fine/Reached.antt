-- ===== src/Proxy/Process/Fine/Reached.antt =====
-- Every reachable state of the manager.
use capo_shell_mcp.Prelude.{
  ℕ, ◌≡◌, ◌≢◌, refl, sym, ap, ◌∙◌, subst, inl, inr, String, Option, some, none, [], ◌∷◌, In, lookup,
  eqb, Bool-cases,
}
use capo_shell_mcp.Proxy.Process.{new, update, drop_entry}
use capo_shell_mcp.Proxy.Process.Fine.{
  Thread, idle, found, stopped, starting, inserting, killing, taken, signalling, ManagerThreads,
  no_threads, ThreadStep, finds, stops_old, rearms, spawns, start_fails, stays_up, inserts, fires,
  sweeps, misses, takes, stops, signals, rests, exits, Reach, here, next,
}
use capo_shell_mcp.Proxy.Process.Fine.Once.{
  Once, IsOnce, Sets, IsOnce-empty, drops-IsOnce, keeps-IsOnce, creates-IsOnce, registers-IsOnce,
  takes-IsOnce, signals-IsOnce,
}

-- The entry that a thread carries into the map or out of it.
abbrev pub carried_of : Thread → Option ℕ
carried_of (inserting key e) = some e
carried_of (taken e rest) = some e
carried_of (signalling e rest) = some e
carried_of _ = none

abbrev carried : (ℕ → Thread) → ℕ → Option ℕ
carried threads j = carried_of (threads j)

abbrev pub HasOnce : ManagerThreads → Type 0
HasOnce w = IsOnce w.manager.entries w.manager.next_entry w.manager.signalled (carried w.threads)

carried-update :
    (threads : ℕ → Thread) (i : ℕ) (t : Thread)
    → Sets (carried threads) i (carried_of t) (carried (update threads i t))
carried-update threads i t j = elim (Bool-cases (eqb i j)) [ inl e ↦ rw e refl | inr e ↦ rw e refl ]

-- A thread that carries the same after a step as before.
same :
    (w : ManagerThreads) (i : ℕ) (t u : Thread)
    → w.threads i ≡ u
    → carried_of u ≡ carried_of t
    → HasOnce w
    → IsOnce w.manager.entries w.manager.next_entry w.manager.signalled
        (carried (update w.threads i t))
same w i t u h e o = keeps-IsOnce o i (carried (update w.threads i t)) (
    subst (λ v. Sets (carried w.threads) i v (carried (update w.threads i t)))
      (sym (ap carried_of h ∙ e)) (carried-update w.threads i t))

ThreadStep-HasOnce : {v w : ManagerThreads} → ThreadStep v w → HasOnce v → HasOnce w
unfolding drop_entry
ThreadStep-HasOnce {v} (finds i key e ttl h free l) o = same v i (found key e ttl) _ h refl o
ThreadStep-HasOnce {v} (stops_old i key e ttl h) o = same v i (stopped key e ttl) _ h refl o
ThreadStep-HasOnce {v} (rearms i key e ttl h) o = same v i idle _ h refl o
ThreadStep-HasOnce {v} (spawns i key ttl h free l) o = same v i (starting key ttl) _ h refl o
ThreadStep-HasOnce {v} (start_fails i key ttl h) o = same v i idle _ h refl o
ThreadStep-HasOnce {v} (stays_up i key ttl h) o =
    let t : Thread = inserting key v.manager.next_entry in
    creates-IsOnce o i (carried (update v.threads i t)) (carried-update v.threads i t)
ThreadStep-HasOnce {v} (inserts i key e h) o =
    registers-IsOnce o i (carried (update v.threads i idle)) key e (ap carried_of h)
      (carried-update v.threads i idle)
ThreadStep-HasOnce {v} (fires i t alarm h p) o = same v i (killing (alarm.key ∷ [])) _ h refl o
ThreadStep-HasOnce {v} (sweeps i h) o = same v i (killing _) _ h refl o
ThreadStep-HasOnce {v} (misses i key rest h l) o = same v i (killing rest) _ h refl o
ThreadStep-HasOnce {v} (takes i key e rest h l) o =
    takes-IsOnce o i (carried (update v.threads i (taken e rest))) key e l
      (carried-update v.threads i (taken e rest))
ThreadStep-HasOnce {v} (stops i e rest h) o = same v i (signalling e rest) _ h refl o
ThreadStep-HasOnce {v} (signals i e rest h) o =
    signals-IsOnce o i (carried (update v.threads i (killing rest))) e (ap carried_of h)
      (carried-update v.threads i (killing rest))
ThreadStep-HasOnce {v} (rests i h) o = same v i idle _ h refl o
ThreadStep-HasOnce (exits key e l) o = drops-IsOnce o key

Reach-HasOnce : {w : ManagerThreads} → Reach no_threads w → HasOnce w
unfolding new
Reach-HasOnce here = IsOnce-empty
Reach-HasOnce (next r st) = ThreadStep-HasOnce st (Reach-HasOnce r)

-- However attempts, timers, exits and a shutdown interleave, lock by lock: no process is sent SIGTERM
-- twice, and a process that was sent it is registered under no key.
pub Reach-Once :
    {w : ManagerThreads}
    → Reach no_threads w
    → Once w.manager.signalled
      × ((e : ℕ) (key : String) → In e w.manager.signalled → lookup key w.manager.entries ≢ some e)
Reach-Once r = let o = Reach-HasOnce r in (o.signalled_once, λ e key m. o.signalled_apart e key m)
