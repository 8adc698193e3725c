-- ===== src/Proxy/Systemd/Laws.antt =====
-- The systemd mode, for a systemd that does what the commands are documented to do.
use capo_shell_mcp.Prelude.{
  ℤ, String, ◌≡◌, ◌≢◌, inl, inr, sym, ap, ap₂, subst, ◌∙◌, Bool, true, false, Option, none, some,
  Result, ok, Option-cases, if◌then◌else◌, arith,
}
use capo_shell_mcp.Shell.{ExecResult, Execer}
use capo_shell_mcp.Proxy.Systemd.{
  unit_name, seconds_text, no_options, extend_args, run_args, exec_error, checked, is_unit_active,
  ensure_systemd_proxy, extend, start_unit,
}

-- What the commands promise: `is-active` changes nothing and answers whether the unit is active,
-- `set-property` of an active unit sets its runtime, and `systemd-run` starts a unit that is not active.
-- `runtime_of` gives the seconds that an active unit may run, in decimal.
pub record Documented {S : Type 0} (execer : Execer S) : Type 0 where
  pub runtime_of : String → S → Option String
  pub asks : (name : String) (s : S) → (is_unit_active execer name s).1 ≡ s
  pub answers :
      (name : String) (s : S)
      → (is_unit_active execer name s).0
        ≡ (elim (runtime_of name s) [ none ↦ false | some _ ↦ true ])
  pub extends :
      (name : String) (ttl : ℤ) (s : S) {old : String}
      → runtime_of name s ≡ some old
      → exec_error (execer "systemctl" (extend_args name ttl) no_options s).0 ≡ none
      → runtime_of name (execer "systemctl" (extend_args name ttl) no_options s).1
        ≡ some (seconds_text ttl)
  pub starts :
      (name : String) (ttl : ℤ) (ip port host : String) (s : S)
      → runtime_of name s ≡ none
      → exec_error (execer "systemd-run" (run_args name ttl ip port host) no_options s).0 ≡ none
      → runtime_of name (execer "systemd-run" (run_args name ttl ip port host) no_options s).1
        ≡ some (seconds_text ttl)
  pub others_extend :
      (name other : String) (ttl : ℤ) (s : S)
      → name ≢ other
      → runtime_of other (execer "systemctl" (extend_args name ttl) no_options s).1
        ≡ runtime_of other s
  pub others_start :
      (name other : String) (ttl : ℤ) (ip port host : String) (s : S)
      → name ≢ other
      → runtime_of other (execer "systemd-run" (run_args name ttl ip port host) no_options s).1
        ≡ runtime_of other s

checked-ok : (prefix : String) (r : ExecResult) → checked prefix r ≡ ok tt → exec_error r ≡ none
checked-ok prefix r h = ground arith

module _ {S : Type 0} (execer : Execer S) (d : Documented execer) where
  -- The question for the unit, answered for the state of systemd.
  asked :
      (name : String) (s : S) {b : Bool}
      → (elim (d.runtime_of name s) [ none ↦ false | some _ ↦ true ]) ≡ b
      → is_unit_active execer name s ≡ (b, s)
  asked name s h = ap₂ (λ b t. (b, t)) (d.answers name s ∙ h) (d.asks name s)

  module _ (ip port host : String) (ttl : ℤ) (s : S) where
    ensure_inactive :
        d.runtime_of (unit_name ip port) s ≡ none
        → ensure_systemd_proxy execer ip port host ttl s
          ≡ start_unit execer (unit_name ip port) ttl ip port host s
    unfolding ensure_systemd_proxy
    ensure_inactive n =
        ap
          (λ r.
            if r.0
            then extend execer (unit_name ip port) ttl r.1
            else start_unit execer (unit_name ip port) ttl ip port host r.1)
          (asked (unit_name ip port) s {b = false} (rw n))

    ensure_active :
        {old : String}
        → d.runtime_of (unit_name ip port) s ≡ some old
        → ensure_systemd_proxy execer ip port host ttl s ≡ extend execer (unit_name ip port) ttl s
    unfolding ensure_systemd_proxy
    ensure_active a =
        ap
          (λ r.
            if r.0
            then extend execer (unit_name ip port) ttl r.1
            else start_unit execer (unit_name ip port) ttl ip port host r.1)
          (asked (unit_name ip port) s {b = true} (rw a))

    -- The unit has the lifetime, and no other unit has changed.
    abbrev HasLifetime : Result (Unit {0}) × S → Type 0
    HasLifetime o =
        o.0 ≡ ok tt
        → (d.runtime_of (unit_name ip port) o.1 ≡ some (seconds_text ttl))
          × ((other : String)
              → unit_name ip port ≢ other
              → d.runtime_of other o.1 ≡ d.runtime_of other s)

    ensure-HasLifetime : HasLifetime (ensure_systemd_proxy execer ip port host ttl s)
    ensure-HasLifetime = elim (Option-cases (d.runtime_of (unit_name ip port) s)) [
      | inl n ↦ subst HasLifetime (sym (ensure_inactive n)) (λ h. (
        d.starts (unit_name ip port) ttl ip port host s n (checked-ok _ _ h),
        λ other ne. d.others_start (unit_name ip port) other ttl ip port host s ne,
      ))
      | inr (old, a) ↦ subst HasLifetime (sym (ensure_active a)) (λ h. (
        d.extends (unit_name ip port) ttl s a (checked-ok _ _ h),
        λ other ne. d.others_extend (unit_name ip port) other ttl s ne,
      ))
    ]

  -- For a systemd that does what the commands are documented to do: when `ensureSystemdProxy` returns no
  -- error, the unit of the target is active with the new lifetime, whether it was active before or not,
  -- and no other unit has changed.
  pub ensure_systemd_proxy_lem :
      (ip port host : String) (ttl : ℤ) (s : S)
      → (ensure_systemd_proxy execer ip port host ttl s).0 ≡ ok tt
      → (d.runtime_of (unit_name ip port) (ensure_systemd_proxy execer ip port host ttl s).1
          ≡ some (seconds_text ttl))
        × ((other : String)
            → unit_name ip port ≢ other
            → d.runtime_of other (ensure_systemd_proxy execer ip port host ttl s).1
              ≡ d.runtime_of other s)
  ensure_systemd_proxy_lem = ensure-HasLifetime
