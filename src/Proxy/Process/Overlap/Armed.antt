-- ===== src/Proxy/Process/Overlap/Armed.antt =====
-- The kill timers of the registered tunnels in every world that is reached by the steps of Overlap, where the
-- end of a start, which arms the timer and registers the entry, is one step.
use capo_shell_mcp.Prelude.{
  ℕ, ◌<◌, ◌≤◌, ◌≡◌, ◌≢◌, refl, ℤ, String, some, none, List, [], ◌∷◌, Map, lookup, insert, delete,
  lookup-insert, lookup-delete, arith, eq_iff, Option-cases, Bool-cases, inl, inr, eqb, eqb_iff,
}
use capo_shell_mcp.Proxy.Process.{
  Alarm, Manager, new, refresh, register, Startup, spawn_fails, exits_early, stays_up, start,
  terminate, stop, drop_entry, process_exited, kill_process_entry, timer_fires, kill_keys,
  kill_all_process_proxies,
}
use capo_shell_mcp.Proxy.Process.Invariant.{alarm_key}
use capo_shell_mcp.Proxy.Process.Overlap.{
  Attempt, holds, starts, World, initial, Step, finds, refreshes, spawns, startup_ends, fires,
  exits, shuts_down, Reach, here, next,
}

-- A registered tunnel's timer is pending, and kills its own key. The other fields are what keeps
-- that true: numbers are allocated once, no two entries share a timer, and an attempt holds an
-- entry that is registered under the key of the attempt or under none.
pub record IsArmed (m : Manager) (attempts : Map Attempt) : Type 0 where
  pub entry_below : (k : String) (e : ℕ) → lookup k m.entries ≡ some e → e < m.next_entry
  pub held_below :
      (k : String) (e : ℕ) (ttl : ℤ) → lookup k attempts ≡ some (holds e ttl) → e < m.next_entry
  pub held_key :
      (j k : String) (e : ℕ) (ttl : ℤ)
      → lookup k attempts ≡ some (holds e ttl)
      → lookup j m.entries ≡ some e
      → j ≡ k
  pub timer_below : (e : ℕ) → e < m.next_entry → m.timer_of e < m.next_timer
  pub fresh_timers : (t : ℕ) → m.next_timer ≤ t → m.pending t ≡ none
  pub timers_differ :
      (e f : ℕ) → e < m.next_entry → f < m.next_entry → e ≢ f → m.timer_of e ≢ m.timer_of f
  pub armed :
      (k : String) (e : ℕ)
      → lookup k m.entries ≡ some e
      → alarm_key (m.pending (m.timer_of e)) ≡ some k

IsArmed-new : IsArmed new []
unfolding new lookup
IsArmed-new = record {
  entry_below = λ k e h. cc;
  held_below = λ k e ttl h. cc;
  held_key = λ j k e ttl h. cc;
  timer_below = λ e h. absurd (omega arith);
  fresh_timers = λ t h. refl;
  timers_differ = λ e f h. absurd (omega arith);
  armed = λ k e h. cc;
}

module _ (m : Manager) (attempts : Map Attempt) (v : IsArmed m attempts) where
  finds-IsArmed :
      (key : String) (ttl : ℤ) (e : ℕ)
      → lookup key m.entries ≡ some e
      → IsArmed m (insert key (holds e ttl) attempts)
  finds-IsArmed key ttl e h = record {
    entry_below = v.entry_below;
    held_below = λ k f ttl' i. ground (
      arith,
      lookup-insert key k (holds e ttl) attempts,
      v.held_below k f ttl',
      v.entry_below key e,
    );
    held_key = λ j k f ttl' i l. ground (
      arith,
      lookup-insert key k (holds e ttl) attempts,
      v.held_key j k f ttl',
      v.armed j f,
      v.armed key e,
      eq_iff key k,
    );
    timer_below = v.timer_below;
    fresh_timers = v.fresh_timers;
    timers_differ = v.timers_differ;
    armed = v.armed;
  }

  -- Attempts that hold nothing, or end, change nothing for the others.
  spawns-IsArmed : (key : String) (ttl : ℤ) → IsArmed m (insert key (starts ttl) attempts)
  spawns-IsArmed key ttl = record {
    entry_below = v.entry_below;
    held_below = λ k f ttl' i.
        ground (arith, lookup-insert key k (starts ttl) attempts, v.held_below k f ttl');
    held_key = λ j k f ttl' i l.
        ground (arith, lookup-insert key k (starts ttl) attempts, v.held_key j k f ttl');
    timer_below = v.timer_below;
    fresh_timers = v.fresh_timers;
    timers_differ = v.timers_differ;
    armed = v.armed;
  }

  ends-IsArmed : (key : String) → IsArmed m (delete key attempts)
  ends-IsArmed key = record {
    entry_below = v.entry_below;
    held_below = λ k f ttl' i. ground (arith, lookup-delete key k attempts, v.held_below k f ttl');
    held_key =
        λ j k f ttl' i l. ground (arith, lookup-delete key k attempts, v.held_key j k f ttl');
    timer_below = v.timer_below;
    fresh_timers = v.fresh_timers;
    timers_differ = v.timers_differ;
    armed = v.armed;
  }

  refreshes-IsArmed :
      (key : String) (ttl : ℤ) (e : ℕ)
      → lookup key attempts ≡ some (holds e ttl)
      → IsArmed (refresh e key ttl m) attempts
  unfolding refresh
  refreshes-IsArmed key ttl e h = record {
    entry_below = v.entry_below;
    held_below = v.held_below;
    held_key = v.held_key;
    timer_below = λ f i. ground (arith, v.timer_below f);
    fresh_timers = λ t i. ground (arith, v.fresh_timers t);
    timers_differ =
        λ f g i j n. ground (arith, v.timers_differ f g, v.timer_below f, v.timer_below g);
    armed = λ k f i. ground (
      arith,
      v.armed k f,
      v.held_key k key e ttl,
      v.held_below key e ttl,
      v.entry_below k f,
      v.timers_differ f e,
      v.timer_below f,
    );
  }

  register-IsArmed : (key : String) (ttl : ℤ) → IsArmed (register key ttl m) attempts
  unfolding register
  register-IsArmed key ttl = record {
    entry_below =
        λ k e i. ground (arith, lookup-insert key k m.next_entry m.entries, v.entry_below k e);
    held_below = λ k e ttl' i. ground (arith, v.held_below k e ttl');
    held_key = λ j k e ttl' i l. ground (
      arith,
      lookup-insert key j m.next_entry m.entries,
      v.held_key j k e ttl',
      v.held_below k e ttl',
    );
    timer_below = λ f i. ground (arith, v.timer_below f);
    fresh_timers = λ t i. ground (arith, v.fresh_timers t);
    timers_differ =
        λ f g i j n. ground (arith, v.timers_differ f g, v.timer_below f, v.timer_below g);
    armed = λ k f i. ground (
      arith,
      lookup-insert key k m.next_entry m.entries,
      eq_iff key k,
      v.armed k f,
      v.entry_below k f,
      v.timer_below f,
    );
  }

  drop_entry-IsArmed :
      (key : String) (e : ℕ) → lookup key m.entries ≡ some e → IsArmed (drop_entry e key m) attempts
  unfolding drop_entry
  drop_entry-IsArmed key e h = record {
    entry_below = λ k f i. ground (arith, lookup-delete key k m.entries, v.entry_below k f);
    held_below = v.held_below;
    held_key =
        λ j k f ttl' i l. ground (arith, lookup-delete key j m.entries, v.held_key j k f ttl');
    timer_below = v.timer_below;
    fresh_timers = λ t i. ground (arith, v.fresh_timers t);
    timers_differ = v.timers_differ;
    armed = λ k f i. ground (
      arith,
      lookup-delete key k m.entries,
      eq_iff key k,
      v.armed k f,
      v.armed key e,
      v.entry_below k f,
      v.entry_below key e,
      v.timers_differ f e,
    );
  }

  -- A timer that is pending for a key may be stopped once its key is not registered.
  fired-IsArmed :
      (t : ℕ) (a : Alarm)
      → m.pending t ≡ some a
      → IsArmed (kill_process_entry a.key (stop t m)) attempts
  unfolding kill_process_entry terminate
  fired-IsArmed t a h = elim (Option-cases (lookup a.key m.entries)) [
    | inl n ↦
        rw (n, kill_process_entry)
          (record {
            entry_below = v.entry_below;
            held_below = v.held_below;
            held_key = v.held_key;
            timer_below = v.timer_below;
            fresh_timers = λ u i. ground (arith, v.fresh_timers u);
            timers_differ = v.timers_differ;
            armed = λ k f i. ground (arith, v.armed k f);
          })
    | inr (e, i) ↦
        rw (i, kill_process_entry)
          (record {
            entry_below =
                λ k f x. ground (arith, lookup-delete a.key k m.entries, v.entry_below k f);
            held_below = v.held_below;
            held_key = λ j k f ttl' x l.
                ground (arith, lookup-delete a.key j m.entries, v.held_key j k f ttl');
            timer_below = v.timer_below;
            fresh_timers = λ u x. ground (arith, v.fresh_timers u);
            timers_differ = v.timers_differ;
            armed = λ k f x. ground (
              arith,
              lookup-delete a.key k m.entries,
              eq_iff a.key k,
              v.armed k f,
              v.armed a.key e,
              v.entry_below k f,
              v.entry_below a.key e,
              v.timers_differ f e,
            );
          })
  ]

  terminate-IsArmed :
      (key : String) (e : ℕ) → lookup key m.entries ≡ some e → IsArmed (terminate e key m) attempts
  unfolding terminate drop_entry
  terminate-IsArmed key e h =
      let d = drop_entry-IsArmed key e h in
      record {
        entry_below = d.entry_below;
        held_below = d.held_below;
        held_key = d.held_key;
        timer_below = d.timer_below;
        fresh_timers = d.fresh_timers;
        timers_differ = d.timers_differ;
        armed = d.armed;
      }

  kill-IsArmed : (key : String) → IsArmed (kill_process_entry key m) attempts
  unfolding kill_process_entry
  kill-IsArmed key = elim (Option-cases (lookup key m.entries)) [
    | inl n ↦ rw (n, kill_process_entry) v
    | inr (e, h) ↦ rw (h, kill_process_entry) (terminate-IsArmed key e h)
  ]

  timer_fires-IsArmed : (t : ℕ) → IsArmed (timer_fires t m) attempts
  unfolding timer_fires
  timer_fires-IsArmed t = elim (Option-cases (m.pending t)) [
    | inl n ↦ rw (n, timer_fires) v
    | inr (a, h) ↦ rw (h, timer_fires) (fired-IsArmed t a h)
  ]

  process_exited-IsArmed : (e : ℕ) (key : String) → IsArmed (process_exited e key m) attempts
  unfolding process_exited
  process_exited-IsArmed e key = elim (Option-cases (lookup key m.entries)) [
    | inl n ↦ rw (n, process_exited) v
    | inr (cur, h) ↦ elim (Bool-cases (eqb cur e)) [
      | inl same ↦
          rw (h, process_exited, same) (drop_entry-IsArmed key e (rw (← (eqb_iff cur e).0 same) h))
      | inr other ↦ rw (h, process_exited, other) v
    ]
  ]

  start-IsArmed :
      (startup : Startup) (key : String) (ttl : ℤ) → IsArmed (start startup key ttl m).1 attempts
  unfolding start
  start-IsArmed (spawn_fails e) key ttl = v
  start-IsArmed (exits_early c) key ttl = v
  start-IsArmed stays_up key ttl = register-IsArmed key ttl

kill_keys-IsArmed :
    (keys : List (String × ℕ)) (m : Manager) (attempts : Map Attempt)
    → IsArmed m attempts
    → IsArmed (kill_keys keys m) attempts
unfolding kill_keys
kill_keys-IsArmed [] m attempts v = v
kill_keys-IsArmed ((key, _) ∷ keys) m attempts v =
    kill_keys-IsArmed keys (kill_process_entry key m) attempts (kill-IsArmed m attempts v key)

Step-IsArmed :
    {u w : World} → Step u w → IsArmed u.manager u.attempts → IsArmed w.manager w.attempts
unfolding kill_all_process_proxies
Step-IsArmed {u} (finds key ttl e _ h) v = finds-IsArmed u.manager u.attempts v key ttl e h
Step-IsArmed {u} (refreshes key ttl e h) v =
    ends-IsArmed (refresh e key ttl u.manager) u.attempts
      (refreshes-IsArmed u.manager u.attempts v key ttl e h) key
Step-IsArmed {u} (spawns key ttl _ _) v = spawns-IsArmed u.manager u.attempts v key ttl
Step-IsArmed {u} (startup_ends key ttl startup _) v =
    ends-IsArmed (start startup key ttl u.manager).1 u.attempts
      (start-IsArmed u.manager u.attempts v startup key ttl) key
Step-IsArmed {u} (fires t) v = timer_fires-IsArmed u.manager u.attempts v t
Step-IsArmed {u} (exits e key) v = process_exited-IsArmed u.manager u.attempts v e key
Step-IsArmed {u} shuts_down v = kill_keys-IsArmed u.manager.entries u.manager u.attempts v

Reach-IsArmed : {w : World} → Reach initial w → IsArmed w.manager w.attempts
Reach-IsArmed here = IsArmed-new
Reach-IsArmed (next r s) = Step-IsArmed s (Reach-IsArmed r)

-- In every world that is reached by these steps, the timer of each registered tunnel is pending, and it
-- kills the key of that tunnel.
pub Reach-armed :
    {w : World} (k : String) (e : ℕ)
    → Reach initial w
    → lookup k w.manager.entries ≡ some e
    → alarm_key (w.manager.pending (w.manager.timer_of e)) ≡ some k
Reach-armed k e r h = (Reach-IsArmed r).armed k e h
