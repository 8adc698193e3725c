-- ===== src/Exec/Laws.antt =====
-- The temporary file, the environment and the errors of `WithKubeconfig`.
use Prim.Native.Char.{code}
use text.Mathlib.TextLemmas.{nil-append, cons-append}
use capo_shell_mcp.Prelude.{
  String, ◌⊕◌, ◌≡◌, ◌⊎◌, inl, inr, refl, sym, ap, ◌∙◌, subst, Bool, ◌&&◌, ◌==◌, Option, some, none,
  List, [], ◌∷◌, ◌++◌, append_assoc, Map, Error, ok, err, eqb, eqb_iff, if◌then◌else◌, arith,
  Result-cases,
}
use capo_shell_mcp.Shell.{Execer, ExecResult}
use capo_shell_mcp.Exec.{
  System, env_entries, exec_options, outcome, temp_path, write_at, write_temp_kubeconfig,
  run_command, with_kubeconfig,
}

-- The value of an entry `name=value`, for a name that is given with its `=`.
abbrev pub strip_prefix : String → String → Option String
strip_prefix String.[] s = some s
strip_prefix (String.◌∷◌ c p) String.[] = none
strip_prefix (String.◌∷◌ c p) (String.◌∷◌ d s) =
    if eqb (code c) (code d) then strip_prefix p s else none

abbrev first_of_two : Option String → Option String → Option String
first_of_two (some v) w = some v
first_of_two none w = w

-- The value of a variable: the last entry for it counts.
pub effective : String → List String → Option String
effective name [] = none
effective name (e ∷ es) = first_of_two (effective name es) (strip_prefix name e)

strip_prefix-append : (p s : String) → strip_prefix p (p ⊕ s) ≡ some s
strip_prefix-append String.[] s = rw nil-append
strip_prefix-append (String.◌∷◌ c p) s =
    rw cons-append (rw ((eqb_iff (code c) (code c)).1 refl) (strip_prefix-append p s))

effective-last :
    (name v : String) (es : List String) → effective name (es ++ (name ⊕ v) ∷ []) ≡ some v
unfolding effective
effective-last name v [] = strip_prefix-append name v
effective-last name v (e ∷ es) = rw (effective-last name v es)

-- What `os` documents: a file that was written holds what was written, Remove takes away the one file that it names, if
-- it can be removed, and nothing else.
pub record IsFiles {S : Type 0} (sys : System S) (file : String → S → Option String)
    (removable : String → S → Bool) : Type 0 where
  pub written :
      (path contents : String) (s : S)
      → (sys.write_file path contents s).0 ≡ ok tt
      → file path (sys.write_file path contents s).1 ≡ some contents
  pub removed :
      (path p : String) (s : S)
      → file p (sys.remove path s) ≡ (if (p == path) && removable path s then none else file p s)

module _ {S : Type 0} (sys : System S) where
  -- The command sees the temporary file in KUBECONFIG, also if the environment of the daemon or
  -- the OpenStack variables have an entry of that name.
  pub exec_options-kubeconfig :
      (path : String) (openstack_env : Map String) (stdin : String)
      → effective "KUBECONFIG=" (exec_options sys path openstack_env stdin).env ≡ some path
  exec_options-kubeconfig path openstack_env stdin =
      ap (effective "KUBECONFIG=") (sym (append_assoc sys.environ (env_entries openstack_env) _))
      ∙ effective-last "KUBECONFIG=" path (sys.environ ++ env_entries openstack_env)

  -- The state in which the command is started, and the result and state it leaves.
  abbrev pub started : String → S → S
  started kubeconfig s = (write_temp_kubeconfig sys kubeconfig s).1

  abbrev pub ended :
      Execer S → String → Map String → String → List String → String → String → S → ExecResult × S
  ended execer kubeconfig openstack_env command args stdin path s =
      execer command args (exec_options sys path openstack_env stdin) (started kubeconfig s)

  module _ {file : String → S → Option String} {removable : String → S → Bool}
      (law : IsFiles sys file removable) where
    write_at-written :
        (p contents : String) (s : S) {path : String}
        → (write_at sys p contents s).0 ≡ ok path
        → file path (write_at sys p contents s).1 ≡ some contents
    unfolding write_at
    write_at-written p contents s {path} h = elim (Result-cases (sys.write_file p contents s).0) [
      | inr (e, j) ↦ absurd (cc (rw (j, write_at) at h))
      | inl (u, j) ↦
          (let same : ok p ≡ ok path = rw (j, write_at) at h in
            let into : p ≡ path = cc same in
            subst (λ q. file q (write_at sys p contents s).1 ≡ some contents) into
              (rw (j, write_at) (law.written p contents s j)))
    ]

    write_temp_kubeconfig-written :
        (kubeconfig : String) (s : S) {path : String}
        → (write_temp_kubeconfig sys kubeconfig s).0 ≡ ok path
        → file path (started kubeconfig s) ≡ some kubeconfig
    unfolding write_temp_kubeconfig
    write_temp_kubeconfig-written kubeconfig s h = elim (Result-cases (sys.read_random s).0) [
      | inr (e, i) ↦ absurd (cc (rw (i, write_temp_kubeconfig) at h))
      | inl (suffix, i) ↦
          rw (i, started, write_temp_kubeconfig)
            (write_at-written (temp_path sys.temp_dir suffix) kubeconfig (sys.read_random s).1
              (rw (i, write_temp_kubeconfig) at h))
    ]

  -- Where files can be written, and a file can be removed or cannot: once the temporary file is written,
  -- WithKubeconfig returns no error but what became of the command; the file holds the kubeconfig when the
  -- command is started, and KUBECONFIG names it; when the call returns, whatever the command did, the
  -- file is gone if it can then be removed, and all other files are as the command left them.
  pub with_kubeconfig-cleanup :
      {file : String → S → Option String} {removable : String → S → Bool}
      → IsFiles sys file removable
      → (execer : Execer S) (kubeconfig : String) (openstack_env : Map String) (command : String)
        (args : List String) (stdin : String) (s : S) {path : String}
      → (write_temp_kubeconfig sys kubeconfig s).0 ≡ ok path
      → let after = ended execer kubeconfig openstack_env command args stdin path s in
        let r = with_kubeconfig sys execer kubeconfig openstack_env (command ∷ args) stdin s in
        (r.0 ≡ ok (outcome after.0))
        × (file path (started kubeconfig s) ≡ some kubeconfig)
        × (effective "KUBECONFIG=" (exec_options sys path openstack_env stdin).env ≡ some path)
        × ((p : String)
            → file p r.1 ≡ (if (p == path) && removable path after.1 then none else file p after.1))
  unfolding with_kubeconfig run_command
  with_kubeconfig-cleanup law execer kubeconfig openstack_env command args stdin s {path} h = (
    rw (h, with_kubeconfig) refl,
    write_temp_kubeconfig-written law kubeconfig s h,
    exec_options-kubeconfig path openstack_env stdin,
    λ p.
        rw (h, with_kubeconfig)
          (law.removed path p (ended execer kubeconfig openstack_env command args stdin path s).1),
  )

  -- An error of `WithKubeconfig` is one of an empty command or of writing the temporary file, and
  -- then no command is run: the result does not depend on the execer.
  pub with_kubeconfig-err :
      (execer other : Execer S) (kubeconfig : String) (openstack_env : Map String)
      (command : List String) (stdin : String) (s : S) {e : Error}
      → (with_kubeconfig sys execer kubeconfig openstack_env command stdin s).0 ≡ err e
      → ((command ≡ []) ⊎ ((x : Error) × ((write_temp_kubeconfig sys kubeconfig s).0 ≡ err x)))
        × (with_kubeconfig sys execer kubeconfig openstack_env command stdin s
            ≡ with_kubeconfig sys other kubeconfig openstack_env command stdin s)
  unfolding with_kubeconfig
  with_kubeconfig-err execer other kubeconfig openstack_env [] stdin s h = (inl refl, refl)
  with_kubeconfig-err execer other kubeconfig openstack_env (c ∷ cs) stdin s h =
      elim (Result-cases (write_temp_kubeconfig sys kubeconfig s).0) [
        | inl (path, i) ↦ cc (rw (i, with_kubeconfig) at h)
        | inr (x, i) ↦ (inr (x, i), ground (arith, i))
      ]
