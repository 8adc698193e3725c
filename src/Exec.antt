-- ===== src/Exec.antt =====
-- internal/exec/exec.go. The operating system is a parameter: each of its calls may change a state.
pub mod Laws
pub mod Keeps
mod Tests
use capo_shell_mcp.Prelude.{
  ℕ, ℤ, pos, ◌/◌, ◌%◌, ◌*◌, String, ◌⊕◌, List, [], ◌∷◌, ◌++◌, Map, Result, ok, err, wrap,
  empty_command,
}
use capo_shell_mcp.Shell.{Options, Output, ExecResult, finished, exit_error, other_error, Execer}

abbrev pub max_output_bytes : ℕ
max_output_bytes = 10 * 1024 * 1024

-- The type `Result` of the package.
pub record Outcome : Type 0 where
  pub stdout : String
  pub stderr : String
  pub exit_code : ℤ

-- What `exec.go` calls of `os` and `crypto/rand`. `temp_dir` is a clean path.
pub record System (S : Type 0) : Type 0 where
  pub read_random : S → Result (List ℕ) × S
  pub write_file : String → String → S → Result (Unit {0}) × S
  pub remove : String → S → S
  pub environ : List String
  pub temp_dir : String

hex_digits : List String
hex_digits =
    "0" ∷ "1" ∷ "2" ∷ "3" ∷ "4" ∷ "5" ∷ "6" ∷ "7" ∷ "8" ∷ "9" ∷ "a" ∷ "b" ∷ "c" ∷ "d" ∷ "e" ∷ "f"
    ∷ []

abbrev nth : List String → ℕ → String
nth [] i = ""
nth (x ∷ xs) ℕ.zero = x
nth (x ∷ xs) (ℕ.suc i) = nth xs i

-- hex.EncodeToString
encode_hex : List ℕ → String
unfolding hex_digits
encode_hex [] = ""
encode_hex (b ∷ bs) = nth hex_digits (b / 16) ⊕ (nth hex_digits (b % 16) ⊕ encode_hex bs)

-- filepath.Join(os.TempDir(), fmt.Sprintf("capi-shell-mcp-%s.yaml", …))
unfoldable pub temp_path : String → List ℕ → String
unfolding encode_hex
temp_path dir suffix = dir ⊕ ("/capi-shell-mcp-" ⊕ (encode_hex suffix ⊕ ".yaml"))

-- env = append(env, k+"="+v)
unfoldable pub env_entries : Map String → List String
env_entries [] = []
env_entries ((k, v) ∷ m) = (k ⊕ ("=" ⊕ v)) ∷ env_entries m

unfoldable pub outcome : ExecResult → Outcome
outcome (finished out) = record { stdout = out.stdout; stderr = out.stderr; exit_code = pos 0 }
outcome (exit_error stdout stderr code text) = record {
  stdout = stdout;
  stderr = stderr;
  exit_code = code;
}
outcome (other_error text) = record { stdout = ""; stderr = text; exit_code = pos 1 }

module _ {S : Type 0} (sys : System S) where
  -- os.WriteFile for a path that is chosen, with the path as the result.
  write_at : String → String → S → Result String × S
  write_at path contents s =
      let (written, s') = sys.write_file path contents s in
      elim written [ ok _ ↦ (ok path, s') | err e ↦ (err e, s') ]

  unfoldable pub write_temp_kubeconfig : String → S → Result String × S
  unfolding write_at temp_path
  write_temp_kubeconfig contents s =
      let (random, s') = sys.read_random s in
      elim random [
        | ok suffix ↦ write_at (temp_path sys.temp_dir suffix) contents s'
        | err e ↦ (err e, s')
      ]

  abbrev pub exec_options : String → Map String → String → Options
  exec_options path openstack_env stdin = record {
    env = sys.environ ++ (env_entries openstack_env ++ ("KUBECONFIG=" ⊕ path) ∷ []);
    input = stdin;
    max_output_bytes = max_output_bytes;
  }

  -- The part of `WithKubeconfig` after the file is written; `defer os.Remove` runs last.
  unfoldable pub run_command :
      Execer S → String → Map String → String → List String → String → S → Outcome × S
  unfolding env_entries outcome
  run_command execer path openstack_env command args stdin s =
      let (result, s') = execer command args (exec_options path openstack_env stdin) s in
      (outcome result, sys.remove path s')

  unfoldable pub with_kubeconfig :
      Execer S → String → Map String → List String → String → S → Result Outcome × S
  unfolding run_command
  with_kubeconfig execer kubeconfig openstack_env [] stdin s = (err empty_command, s)
  with_kubeconfig execer kubeconfig openstack_env (command ∷ args) stdin s =
      let (file, s') = write_temp_kubeconfig kubeconfig s in
      elim file [
        | err e ↦ (err (wrap "exec: writing temp kubeconfig" e), s')
        | ok path ↦
            (let (r, s'') = run_command execer path openstack_env command args stdin s' in
              (ok r, s''))
      ]
