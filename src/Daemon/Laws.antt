-- ===== src/Daemon/Laws.antt =====
-- What the command leaves when it ends.
use capo_shell_mcp.Prelude.{
  ℕ, ℤ, String, ◌≡◌, inl, inr, refl, sym, subst, none, List, lookup, Result, ok, err, Result-cases,
}
use capo_shell_mcp.Action.{Action, follow, annotate}
use capo_shell_mcp.Config.Load.{AppConfig}
use capo_shell_mcp.Proxy.Process.{Manager, new}
use capo_shell_mcp.Proxy.Process.Invariant.{IsConsistent, IsConsistent-new}
use capo_shell_mcp.Proxy.Process.Calls
use capo_shell_mcp.Proxy.Process.Calls.{Event, run_from}
use capo_shell_mcp.Proxy.Process.Shutdown.{kill_all-clear}
use capo_shell_mcp.Daemon.{Parts, port_of, serve, run}

-- The manager is only changed by its own methods, its timers and the exits of its processes, each as a whole, one
-- after the other: none is at work before or after.
abbrev pub ByEvents : {X : Type 0} → (Manager × X → Manager × X) → Type 0
ByEvents {X} f = (w : Manager × X) → (es : List Event) × ((f w).0 ≡ Calls.run w.0 es)

pub record UseEvents {X V : Type 0} (parts : Parts X V) : Type 0 where
  pub mounting : (cfg : AppConfig) → ByEvents (λ w. (parts.mount_tools cfg w).1)
  pub starting : (port : ℤ) → ByEvents (λ w. (parts.start port w).1)
  pub serving : ByEvents parts.serving
  pub closing : (server : V) → ByEvents (λ w. (parts.close server w).1)

-- No tunnel is registered, and no timer is pending.
abbrev pub IsClear : Manager → Type 0
IsClear m = ((key : String) → lookup key m.entries ≡ none) × ((t : ℕ) → m.pending t ≡ none)

consistent :
    {X : Type 0} (f : Manager × X → Manager × X)
    → ByEvents f
    → (w : Manager × X) → IsConsistent w.0
    → IsConsistent (f w).0
consistent f b w v = let (es, e) = b w in subst IsConsistent (sym e) (run_from w.0 es v)

follow-IsConsistent :
    {X A B : Type 0} (next : A → Action (Manager × X) B) (r : Result A × (Manager × X))
    → IsConsistent r.1.0
    → ((a : A) (w : Manager × X) → IsConsistent w.0 → IsConsistent (next a w).1.0)
    → IsConsistent (follow next r).1.0
follow-IsConsistent next (ok a, w) v h = h a w v
follow-IsConsistent next (err e, w) v h = v

module _ {X V : Type 0} (parts : Parts X V) (u : UseEvents parts) where
  serve-IsConsistent :
      (cfg : AppConfig) (w : Manager × X) → IsConsistent w.0 → IsConsistent (serve parts cfg w).1.0
  unfolding serve
  serve-IsConsistent cfg w v =
      follow-IsConsistent _
        (annotate "mounting kubernetes-mcp-server tools" (parts.mount_tools cfg) w)
        (consistent (λ v0. (parts.mount_tools cfg v0).1) (u.mounting cfg) w v)
        (λ _ w1 v1.
          follow-IsConsistent _ (port_of parts.atoi parts.port_text, w1) v1
            (λ port w2 v2.
              follow-IsConsistent _ (annotate "starting HTTP server" (parts.start port) w2)
                (consistent (λ v0. (parts.start port v0).1) (u.starting port) w2 v2)
                (λ server w3 v3.
                  consistent (λ v0. (parts.close server v0).1) (u.closing server) (parts.serving w3)
                    (consistent parts.serving u.serving w3 v3))))

  -- If until the end all changes of the tunnels are whole calls of EnsureProxy, exits and expired timers, one after the
  -- other, and none is at work any more when the shutdown of the server has returned: when the command
  -- ends, with an error at any step or after a signal, no tunnel is registered and no kill timer is
  -- pending.
  pub run-IsClear : (x : X) → IsClear (run parts x).1.0
  unfolding run
  run-IsClear x = elim (Result-cases (parts.load x).0) [
    | inl (cfg, e) ↦
        rw (e, run)
          (kill_all-clear (serve parts cfg (new, (parts.load x).1)).1.0
            (serve-IsConsistent cfg (new, (parts.load x).1) IsConsistent-new))
    | inr (y, e) ↦ rw (e, run) (unfold new lookup in (λ key. refl, λ t. refl))
  ]
