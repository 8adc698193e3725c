-- ===== src/Proxy/Process/Invariant.antt =====
-- What holds of the tunnels while calls do not overlap.
use capo_shell_mcp.Prelude.{
  ℕ, ◌<◌, ◌≤◌, ◌↔◌, ◌≡◌, refl, ap, ℤ, String, Option, none, some, eqb, lookup, lookup-insert,
  lookup-delete, arith, eq_iff, Option-cases, Bool-cases, eqb_iff, inl, inr,
}
use capo_shell_mcp.Proxy.Process.{
  Alarm, Manager, new, stop, refresh, register, Startup, spawn_fails, exits_early, stays_up, start,
  ensure_process_proxy, terminate, kill_process_entry, drop_entry, process_exited, timer_fires,
}

abbrev pub alarm_key : Option Alarm → Option String
alarm_key none = none
alarm_key (some a) = some a.key

abbrev pub timer_in : Manager → Option ℕ → Option ℕ
timer_in m none = none
timer_in m (some e) = some (m.timer_of e)

-- The kill timer of the tunnel that is registered under a key.
abbrev pub timer_at : Manager → String → Option ℕ
timer_at m key = timer_in m (lookup key m.entries)

-- A pending timer kills the key `k` exactly if it is the timer of the tunnel registered under `k`.
-- So every registered tunnel has one timer, and no other timer is pending.
pub record IsConsistent (m : Manager) : Type 0 where
  pub entry_below : (k : String) (e : ℕ) → lookup k m.entries ≡ some e → e < m.next_entry
  pub fresh_timers : (t : ℕ) → m.next_timer ≤ t → m.pending t ≡ none
  pub timers : (k : String) (t : ℕ) → (timer_at m k ≡ some t) ↔ (alarm_key (m.pending t) ≡ some k)

pub IsConsistent-new : IsConsistent new
unfolding new lookup
IsConsistent-new = record {
  entry_below = λ k e h. cc;
  fresh_timers = λ t h. refl;
  timers = λ k t. ground arith;
}

timer_at-some :
    (m : Manager) (key : String) (t : ℕ)
    → timer_at m key ≡ some t
    → (e : ℕ) × (lookup key m.entries ≡ some e) × (m.timer_of e ≡ t)
timer_at-some m key t h = elim (Option-cases (lookup key m.entries)) [
  | inl e ↦ cc (ap (timer_in m) e, h)
  | inr (e, i) ↦ (e, i, cc (ap (timer_in m) i, h))
]

module _ (m : Manager) (v : IsConsistent m) where
  refresh-IsConsistent :
      (e : ℕ) (key : String) (ttl : ℤ)
      → lookup key m.entries ≡ some e
      → IsConsistent (refresh e key ttl m)
  unfolding refresh
  refresh-IsConsistent e key ttl here = record {
    entry_below = v.entry_below;
    fresh_timers = λ t h. ground (arith, v.fresh_timers t);
    timers = λ k t. ground (
      arith,
      v.timers k t,
      v.timers key (m.timer_of e),
      v.timers k (m.timer_of e),
      v.timers key t,
      v.fresh_timers m.next_timer,
    );
  }

  register-IsConsistent :
      (key : String) (ttl : ℤ) → lookup key m.entries ≡ none → IsConsistent (register key ttl m)
  unfolding register
  register-IsConsistent key ttl absent = record {
    entry_below =
        λ k e h. ground (arith, v.entry_below k e, lookup-insert key k m.next_entry m.entries);
    fresh_timers = λ t h. ground (arith, v.fresh_timers t);
    timers = λ k t. ground (
      arith,
      v.timers k t,
      v.timers key t,
      v.fresh_timers m.next_timer,
      eq_iff key k,
      lookup-insert key k m.next_entry m.entries,
      v.entry_below k m.next_entry,
    );
  }

  drop_entry-IsConsistent :
      (e : ℕ) (key : String) → lookup key m.entries ≡ some e → IsConsistent (drop_entry e key m)
  unfolding drop_entry
  drop_entry-IsConsistent e key here = record {
    entry_below = λ k f h. ground (arith, v.entry_below k f, lookup-delete key k m.entries);
    fresh_timers = λ t h. ground (arith, v.fresh_timers t);
    timers = λ k t. ground (
      arith,
      v.timers k t,
      v.timers key t,
      v.timers key (m.timer_of e),
      v.timers k (m.timer_of e),
      lookup-delete key k m.entries,
      eq_iff key k,
    );
  }

  terminate-IsConsistent :
      (e : ℕ) (key : String) → lookup key m.entries ≡ some e → IsConsistent (terminate e key m)
  unfolding terminate drop_entry
  terminate-IsConsistent e key here =
      let d = drop_entry-IsConsistent e key here in
      record { entry_below = d.entry_below; fresh_timers = d.fresh_timers; timers = d.timers }

  -- A timer that fires is the timer of the tunnel that it kills.
  fired-IsConsistent :
      (t : ℕ) (a : Alarm)
      → m.pending t ≡ some a
      → IsConsistent (kill_process_entry a.key (stop t m))
  unfolding kill_process_entry terminate
  fired-IsConsistent t a h =
      let (e, here, same) = timer_at-some m a.key t ((v.timers a.key t).1 (ap alarm_key h)) in
      rw (here, kill_process_entry)
        (record {
          entry_below = λ k f i. ground (arith, v.entry_below k f, lookup-delete a.key k m.entries);
          fresh_timers = λ u i. ground (arith, v.fresh_timers u);
          timers = λ k u. ground (
            arith,
            v.timers k u,
            v.timers a.key u,
            v.timers a.key t,
            v.timers k t,
            lookup-delete a.key k m.entries,
            eq_iff a.key k,
          );
        })

pub kill_process_entry-IsConsistent :
    (key : String) (m : Manager) → IsConsistent m → IsConsistent (kill_process_entry key m)
unfolding kill_process_entry
kill_process_entry-IsConsistent key m v = elim (Option-cases (lookup key m.entries)) [
  | inl h ↦ rw (h, kill_process_entry) v
  | inr (e, h) ↦ rw (h, kill_process_entry) (terminate-IsConsistent m v e key h)
]

pub timer_fires-IsConsistent :
    (t : ℕ) (m : Manager) → IsConsistent m → IsConsistent (timer_fires t m)
unfolding timer_fires
timer_fires-IsConsistent t m v = elim (Option-cases (m.pending t)) [
  | inl h ↦ rw (h, timer_fires) v
  | inr (a, h) ↦ rw (h, timer_fires) (fired-IsConsistent m v t a h)
]

pub process_exited-IsConsistent :
    (e : ℕ) (key : String) (m : Manager) → IsConsistent m → IsConsistent (process_exited e key m)
unfolding process_exited
process_exited-IsConsistent e key m v = elim (Option-cases (lookup key m.entries)) [
  | inl h ↦ rw (h, process_exited) v
  | inr (cur, h) ↦ elim (Bool-cases (eqb cur e)) [
    | inl same ↦
        rw (h, process_exited, same)
          (drop_entry-IsConsistent m v e key (rw (← (eqb_iff cur e).0 same) h))
    | inr other ↦ rw (h, process_exited, other) v
  ]
]

pub ensure-IsConsistent :
    (key : String) (ttl : ℤ) (startup : Startup) (m : Manager)
    → IsConsistent m
    → IsConsistent (ensure_process_proxy key ttl startup m).1
unfolding ensure_process_proxy start
ensure-IsConsistent key ttl startup m v = elim (Option-cases (lookup key m.entries)) [
  | inl h ↦ rw (h, ensure_process_proxy) (started startup h)
  | inr (e, h) ↦ rw (h, ensure_process_proxy) (refresh-IsConsistent m v e key ttl h)
]
  where
    started : (s : Startup) → lookup key m.entries ≡ none → IsConsistent (start s key ttl m).1
    started (spawn_fails e) h = v
    started (exits_early c) h = v
    started stays_up h = register-IsConsistent m v key ttl h
