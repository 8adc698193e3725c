-- ===== src/Proxy/Systemd.antt =====
-- The systemd mode of internal/proxy/manager.go: `ensureSystemdProxy` and `isUnitActive`, which only run
-- commands, and the names of targets and units.
pub mod Laws
pub mod Fake
mod Tests
use capo_shell_mcp.Prelude.{
  ℕ, ℤ, pos, negsuc, suc, zero, ◌/◌, String, ◌⊕◌, Bool, true, false, Option, none, some, List, [],
  ◌∷◌, trim_space, decimal, decimal_int, Result, ok, err, wrap, external, ◌==◌, if◌then◌else◌,
}
use capo_shell_mcp.Shell.{Options, Output, ExecResult, finished, exit_error, other_error, Execer}

unfoldable pub target_key : String → String → String
target_key ip port = ip ⊕ (":" ⊕ port)

abbrev unit_prefix : String
unit_prefix = "capi-shell-api-endpoint-proxy-sshuttle-"

abbrev unit_suffix : String
unit_suffix = ".service"

unfoldable pub unit_name : String → String → String
unit_name ip port = unit_prefix ⊕ (ip ⊕ (":" ⊕ (port ⊕ unit_suffix)))

-- int(ttl.Seconds()): the whole seconds, towards 0, of a number of nanoseconds.
abbrev negated : ℕ → ℤ
negated zero = pos 0
negated (suc n) = negsuc n

abbrev pub whole_seconds : ℤ → ℤ
whole_seconds (pos n) = pos (n / 1000000000)
whole_seconds (negsuc n) = negated (suc n / 1000000000)

-- strconv.Itoa
abbrev pub seconds_text : ℤ → String
seconds_text ttl = decimal_int (whole_seconds ttl)

-- shell.Options{}
abbrev pub no_options : Options
no_options = record { env = []; input = ""; max_output_bytes = 0 }

abbrev pub is_active_args : String → List String
is_active_args name = "--user" ∷ "is-active" ∷ name ∷ []

abbrev pub extend_args : String → ℤ → List String
extend_args name ttl = "--user" ∷ "set-property" ∷ name ∷ ("RuntimeMaxSec=" ⊕ seconds_text ttl) ∷ []

abbrev pub run_args : String → ℤ → String → String → String → List String
run_args name ttl ip port sshuttle_host =
    "--user"
    ∷ ("--unit=" ⊕ name)
    ∷ ("--property=RuntimeMaxSec=" ⊕ seconds_text ttl)
    ∷ "--property=Restart=on-failure"
    ∷ "--property=RestartSec=2"
    ∷ "--property=StartLimitIntervalSec=60"
    ∷ "--property=StartLimitBurst=3"
    ∷ "--collect"
    ∷ "--slice=capi-shell-api-endpoint-proxy.slice"
    ∷ "--"
    ∷ "sshuttle"
    ∷ "-r"
    ∷ sshuttle_host
    ∷ target_key ip port
    ∷ []

-- An error of the execer, as an error value.
abbrev pub exec_error : ExecResult → Option String
exec_error (finished out) = none
exec_error (exit_error stdout stderr code text) = some text
exec_error (other_error text) = some text

abbrev active_output : ExecResult → Bool
active_output (finished out) = trim_space out.stdout == "active"
active_output _ = false

abbrev pub checked : String → ExecResult → Result (Unit {0})
checked prefix r = elim (exec_error r) [
  | none ↦ ok tt
  | some text ↦ err (wrap prefix (external text))
]

module _ {S : Type 0} (execer : Execer S) where
  unfoldable pub is_unit_active : String → S → Bool × S
  is_unit_active name s =
      let (r, s') = execer "systemctl" (is_active_args name) no_options s in (active_output r, s')

  abbrev extend : String → ℤ → S → Result (Unit {0}) × S
  extend name ttl s =
      let (r, s') = execer "systemctl" (extend_args name ttl) no_options s in
      (checked ("proxy: extending " ⊕ name) r, s')

  abbrev start_unit : String → ℤ → String → String → String → S → Result (Unit {0}) × S
  start_unit name ttl ip port sshuttle_host s =
      let (r, s') = execer "systemd-run" (run_args name ttl ip port sshuttle_host) no_options s in
      (checked "proxy: starting systemd-run tunnel" r, s')

  unfoldable pub ensure_systemd_proxy : String → String → String → ℤ → S → Result (Unit {0}) × S
  ensure_systemd_proxy ip port sshuttle_host ttl s =
      let (active, s') = is_unit_active (unit_name ip port) s in
      if active
      then extend (unit_name ip port) ttl s'
      else start_unit (unit_name ip port) ttl ip port sshuttle_host s'
