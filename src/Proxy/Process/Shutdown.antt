-- ===== src/Proxy/Process/Shutdown.antt =====
-- Shutting down, from a consistent manager.
use capo_shell_mcp.Prelude.{
  subst, ℕ, ◌≡◌, refl, sym, ap, ◌∙◌, String, Bool, true, false, none, some, List, [], ◌∷◌, Map,
  lookup, lookup-delete, arith, eq_iff, ◌==◌, if◌then◌else◌, Option-cases, Bool-cases, inl, inr, In,
  ◌||◌,
}
use capo_shell_mcp.Proxy.Process.{
  Manager, terminate, kill_process_entry, kill_keys, kill_all_process_proxies,
}
use capo_shell_mcp.Proxy.Process.Invariant.{IsConsistent, alarm_key, timer_in}
use capo_shell_mcp.Proxy.Process.Calls.{kill_keys-IsConsistent}

lookup-kill :
    (key other : String) (m : Manager)
    → lookup other (kill_process_entry key m).entries
      ≡ (if key == other then none else lookup other m.entries)
unfolding kill_process_entry
lookup-kill key other m = ground (arith, lookup-delete key other m.entries, eq_iff key other)

has_key : String → List (String × ℕ) → Bool
has_key k [] = false
has_key k ((j, _) ∷ l) = j == k || has_key k l

lookup-has_key : (k : String) (l : Map ℕ) → has_key k l ≡ false → lookup k l ≡ none
unfolding has_key lookup
lookup-has_key k [] h = refl
lookup-has_key k ((j, e) ∷ l) h = ground (arith, lookup-has_key k l)

lookup-kill_keys :
    (keys : List (String × ℕ)) (k : String) (m : Manager)
    → lookup k (kill_keys keys m).entries ≡ (if has_key k keys then none else lookup k m.entries)
unfolding kill_keys has_key
lookup-kill_keys [] k m = refl
lookup-kill_keys ((j, e) ∷ keys) k m =
    ground (arith, lookup-kill_keys keys k (kill_process_entry j m), lookup-kill j k m)

signalled-kill :
    (key : String) (m : Manager) (e : ℕ)
    → In e m.signalled
    → In e (kill_process_entry key m).signalled
unfolding kill_process_entry
signalled-kill key m e h = ground arith

signalled-kill_keys :
    (keys : List (String × ℕ)) (m : Manager) (e : ℕ)
    → In e m.signalled
    → In e (kill_keys keys m).signalled
unfolding kill_keys
signalled-kill_keys [] m e h = h
signalled-kill_keys ((j, _) ∷ keys) m e h =
    signalled-kill_keys keys (kill_process_entry j m) e (signalled-kill j m e h)

kill-signals :
    (key : String) (m : Manager) (e : ℕ)
    → lookup key m.entries ≡ some e
    → In e (kill_process_entry key m).signalled
unfolding kill_process_entry
kill-signals key m e h = rw (h, kill_process_entry) (unfold terminate in inl refl)

kill_keys-signals :
    (keys : List (String × ℕ)) (k : String) (m : Manager) (e : ℕ)
    → lookup k m.entries ≡ some e
    → has_key k keys ≡ true
    → In e (kill_keys keys m).signalled
unfolding kill_keys has_key
kill_keys-signals [] k m e h i = cc
kill_keys-signals ((j, _) ∷ keys) k m e h i = elim (Bool-cases (j == k)) [
  | inl same ↦ signalled-kill_keys keys (kill_process_entry j m) e (
      subst (λ x. In e (kill_process_entry x m).signalled) (sym ((eq_iff j k).0 same))
        (kill-signals k m e h))
  | inr other ↦
      kill_keys-signals keys k (kill_process_entry j m) e (rw (lookup-kill, other) h) (ground arith)
]

unregistered : (k : String) (m : Manager) → lookup k (kill_all_process_proxies m).entries ≡ none
unfolding kill_all_process_proxies
unregistered k m = elim (Bool-cases (has_key k m.entries)) [
  | inl h ↦ lookup-kill_keys m.entries k m ∙ rw h
  | inr h ↦ lookup-kill_keys m.entries k m ∙ rw (h, lookup-has_key k m.entries h)
]

no_timer :
    (m : Manager) (t : ℕ)
    → IsConsistent m
    → ((k : String) → lookup k m.entries ≡ none)
    → m.pending t ≡ none
no_timer m t v none_left = elim (Option-cases (m.pending t)) [
  | inl h ↦ h
  | inr (a, h) ↦ cc ((v.timers a.key t).1 (ap alarm_key h), ap (timer_in m) (none_left a.key))
]

pub kill_all-clear :
    (m : Manager)
    → IsConsistent m
    → ((key : String) → lookup key (kill_all_process_proxies m).entries ≡ none)
      × ((t : ℕ) → (kill_all_process_proxies m).pending t ≡ none)
kill_all-clear m v = (
  λ k. unregistered k m,
  λ t.
      no_timer (kill_all_process_proxies m) t
        (unfold kill_all_process_proxies in kill_keys-IsConsistent m.entries m v)
        (λ j. unregistered j m),
)

-- After `KillAllProcessProxies` of a consistent manager no tunnel is registered under any key, no
-- timer is pending, and SIGTERM was sent to the process of each tunnel that was registered.
pub kill_all_lem :
    (m : Manager) (k key : String) (t e : ℕ)
    → IsConsistent m
    → lookup key m.entries ≡ some e
    → (lookup k (kill_all_process_proxies m).entries ≡ none)
      × ((kill_all_process_proxies m).pending t ≡ none)
      × In e (kill_all_process_proxies m).signalled
kill_all_lem m k key t e v h = (
  unregistered k m,
  (kill_all-clear m v).1 t,
  elim (Bool-cases (has_key key m.entries)) [
    | inl i ↦ (unfold kill_all_process_proxies in kill_keys-signals m.entries key m e h i)
    | inr i ↦ cc (lookup-has_key key m.entries i, h)
  ],
)
