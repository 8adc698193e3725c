-- ===== src/Proxy/Process/Expiry.antt =====
-- What the kill timer of a tunnel does when it fires.
use capo_shell_mcp.Prelude.{
  ℕ, String, ◌≡◌, inl, refl, sym, subst, Option, none, some, In, List, lookup, lookup-delete,
  eq_refl, arith,
}
use capo_shell_mcp.Proxy.Process.{
  Manager, new, Alarm, stop, terminate, kill_process_entry, timer_fires,
}
use capo_shell_mcp.Proxy.Process.Invariant.{IsConsistent, timer_at, alarm_key}
use capo_shell_mcp.Proxy.Process.Calls.{Event, run, run-IsConsistent}

-- The alarm that a key stands for.
alarm_of_key :
    (o : Option Alarm) (key : String)
    → alarm_key o ≡ some key
    → (a : Alarm) × (o ≡ some a) × (a.key ≡ key)
alarm_of_key none key h = cc
alarm_of_key (some a) key h = (a, refl, cc)

IsGone : String → ℕ → Manager → Type 0
IsGone key e m = (lookup key m.entries ≡ none) × In e m.signalled

terminate-IsGone : (e : ℕ) (key : String) (m : Manager) → IsGone key e (terminate e key m)
unfolding terminate IsGone
terminate-IsGone e key m = (ground (arith, lookup-delete key key m.entries, eq_refl key), inl refl)

kill-IsGone :
    (key : String) (e : ℕ) (m : Manager)
    → lookup key m.entries ≡ some e
    → IsGone key e (kill_process_entry key m)
unfolding kill_process_entry
kill-IsGone key e m i = rw (i, kill_process_entry) (terminate-IsGone e key m)

module _ (m : Manager) (v : IsConsistent m) where
  timer_fires-IsGone :
      (key : String) (e : ℕ)
      → lookup key m.entries ≡ some e
      → (lookup key (timer_fires (m.timer_of e) m).entries ≡ none)
        × In e (timer_fires (m.timer_of e) m).signalled
  unfolding timer_fires IsGone
  timer_fires-IsGone key e i =
      let at : timer_at m key ≡ some (m.timer_of e) = rw i refl in
      let (a, p, same) =
        alarm_of_key (m.pending (m.timer_of e)) key ((v.timers key (m.timer_of e)).0 at) in
      rw (p, timer_fires)
        (subst (λ k. IsGone key e (kill_process_entry k (stop (m.timer_of e) m))) (sym same)
          (kill-IsGone key e (stop (m.timer_of e) m) i))

-- A tunnel that is registered after any events that do not overlap has a timer, and once that timer
-- fires the tunnel is not registered, and SIGTERM has been sent to its process.
pub run-expires :
    (events : List Event) (key : String) (e : ℕ)
    → lookup key (run new events).entries ≡ some e
    → (t : ℕ) × (timer_at (run new events) key ≡ some t)
      × (lookup key (timer_fires t (run new events)).entries ≡ none)
      × In e (timer_fires t (run new events)).signalled
run-expires events key e i =
    let m = run new events in
    let (gone, sent) = timer_fires-IsGone m (run-IsConsistent events) key e i in
    (m.timer_of e, rw i refl, gone, sent)
