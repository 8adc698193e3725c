-- ===== src/Proxy/Systemd/Fake.antt =====
-- A systemd that keeps the lifetime of each active unit, for tests.
use Prim.Native.String.{String}
use text.Mathlib.TextLemmas.{nil-append, cons-append}
use capo_shell_mcp.Prelude.{
  pos, ◌⊕◌, ◌≡◌, ◌≢◌, refl, ap, ◌∙◌, true, false, Option, none, some, [], ◌∷◌, Map, lookup, insert,
  lookup-insert, trim_space, arith, eq_iff, eq_refl,
}
use capo_shell_mcp.Shell.{ExecResult, finished, exit_error, other_error, Execer}
use capo_shell_mcp.Proxy.Systemd.{unit_name, seconds_text, is_unit_active, active_output}
use capo_shell_mcp.Proxy.Systemd.Laws.{Documented}

-- A text without as many characters as another one has.
abbrev pub cut : String → String → String
cut String.[] s = s
cut (String.◌∷◌ c p) String.[] = ""
cut (String.◌∷◌ c p) (String.◌∷◌ d s) = cut p s

pub cut-append : (p s : String) → cut p (p ⊕ s) ≡ s
cut-append String.[] s = nil-append s
cut-append (String.◌∷◌ c p) s = ap (cut (String.◌∷◌ c p)) (cons-append c p s) ∙ cut-append p s

abbrev pub output : String → ExecResult
output t = finished (record { stdout = t; stderr = "" })

abbrev pub status : Option String → ExecResult
status none = exit_error "inactive" "" (pos 3) "exit status 3"
status (some _) = output "active\n"

-- Three arguments ask, four set, more start.
abbrev pub systemd : Execer (Map String)
systemd command (user ∷ verb ∷ name ∷ []) options units = (status (lookup name units), units)
systemd command (user ∷ verb ∷ name ∷ property ∷ []) options units =
    (output "", insert name (cut "RuntimeMaxSec=" property) units)
systemd command (user ∷ unit ∷ runtime ∷ property ∷ more ∷ rest) options units =
    (output "", insert (cut "--unit=" unit) (cut "--property=RuntimeMaxSec=" runtime) units)
systemd command _ options units = (other_error "usage", units)

pub lookup_here : (k v : String) (m : Map String) → lookup k (insert k v m) ≡ some v
lookup_here k v m = ground (arith, lookup-insert k k v m, eq_refl k)

pub lookup_elsewhere :
    (k j v : String) (m : Map String) → k ≢ j → lookup j (insert k v m) ≡ lookup j m
lookup_elsewhere k j v m ne = ground (arith, lookup-insert k j v m, eq_iff k j)

status-active :
    (o : Option String) → active_output (status o) ≡ (elim o [ none ↦ false | some _ ↦ true ])
unfolding trim_space
status-active none = refl
status-active (some t) = refl

pub asks : (name : String) (s : Map String) → (is_unit_active systemd name s).1 ≡ s
unfolding is_unit_active
asks name s = refl

pub answers :
    (name : String) (s : Map String)
    → (is_unit_active systemd name s).0 ≡ (elim (lookup name s) [ none ↦ false | some _ ↦ true ])
unfolding is_unit_active
answers name s = status-active (lookup name s)

abbrev pub documented : Documented systemd
documented = record {
  runtime_of = λ name units. lookup name units;
  asks = asks;
  answers = answers;
  extends = λ name ttl s _ _.
      rw (cut-append "RuntimeMaxSec=" (seconds_text ttl)) (lookup_here name (seconds_text ttl) s);
  starts = λ name ttl ip port host s _ _.
      rw (cut-append "--unit=" name, cut-append "--property=RuntimeMaxSec=" (seconds_text ttl))
        (lookup_here name (seconds_text ttl) s);
  others_extend = λ name other ttl s ne. lookup_elsewhere name other _ s ne;
  others_start = λ name other ttl ip port host s ne.
      rw (cut-append "--unit=" name) (lookup_elsewhere name other _ s ne);
}

abbrev pub running : Map String
running = (unit_name "10.0.0.1" "6443", "30") ∷ (unit_name "10.0.0.2" "6443", "30") ∷ []
