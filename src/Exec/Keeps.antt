-- ===== src/Exec/Keeps.antt =====
-- What `WithKubeconfig` keeps of the machine, if each of its calls does.
use capo_shell_mcp.Prelude.{String, List, [], ◌∷◌, Result-cases, inl, inr}
use capo_shell_mcp.Shell.{Execer}
use capo_shell_mcp.Exec.{
  System, temp_path, write_at, write_temp_kubeconfig, exec_options, run_command, with_kubeconfig,
}

-- The calls of the machine for this kubeconfig, without OpenStack variables.
pub record KeepingCalls {S : Type 0} (sys : System S) (execer : Execer S) (P : S → Type 0)
    (kubeconfig : String) : Type 0 where
  pub random : (s : S) → P s → P (sys.read_random s).1
  pub write : (path : String) (s : S) → P s → P (sys.write_file path kubeconfig s).1
  pub remove : (path : String) (s : S) → P s → P (sys.remove path s)
  pub execute :
      (command : String) (args : List String) (path stdin : String) (s : S)
      → P s
      → P (execer command args (exec_options sys path [] stdin) s).1

module _ {S : Type 0} (sys : System S) (execer : Execer S) (P : S → Type 0) (kubeconfig : String)
    (calls : KeepingCalls sys execer P kubeconfig) where
  write_at-keeps : (path : String) (s : S) → P s → P (write_at sys path kubeconfig s).1
  unfolding write_at
  write_at-keeps path s p = elim (Result-cases (sys.write_file path kubeconfig s).0) [
    | inl (a, e) ↦ rw (e, write_at) (calls.write path s p)
    | inr (x, e) ↦ rw (e, write_at) (calls.write path s p)
  ]

  write_temp_kubeconfig-keeps : (s : S) → P s → P (write_temp_kubeconfig sys kubeconfig s).1
  unfolding write_temp_kubeconfig
  write_temp_kubeconfig-keeps s p = elim (Result-cases (sys.read_random s).0) [
    | inl (suffix, e) ↦
        rw (e, write_temp_kubeconfig)
          (write_at-keeps (temp_path sys.temp_dir suffix) (sys.read_random s).1 (calls.random s p))
    | inr (x, e) ↦ rw (e, write_temp_kubeconfig) (calls.random s p)
  ]

  pub with_kubeconfig-keeps :
      (command : List String) (stdin : String) (s : S)
      → P s
      → P (with_kubeconfig sys execer kubeconfig [] command stdin s).1
  unfolding with_kubeconfig run_command
  with_kubeconfig-keeps [] stdin s p = p
  with_kubeconfig-keeps (command ∷ args) stdin s p =
      let w = write_temp_kubeconfig sys kubeconfig s in
      elim (Result-cases w.0) [
        | inr (e, failed) ↦ rw (failed, with_kubeconfig) (write_temp_kubeconfig-keeps s p)
        | inl (path, written) ↦
            rw (written, with_kubeconfig)
              (calls.remove path _
                (calls.execute command args path stdin w.1 (write_temp_kubeconfig-keeps s p)))
      ]
