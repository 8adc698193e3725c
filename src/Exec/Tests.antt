-- ===== src/Exec/Tests.antt =====
-- Tests of commands on a machine that is a map from file names to contents.
use capo_shell_mcp.Prelude.{
  pos, String, ◌≡◌, ◌⊎◌, refl, Bool, not, ◌&&◌, ◌==◌, if◌then◌else◌, eq_iff, lookup-insert, Option,
  some, none, List, [], ◌∷◌, Map, lookup, insert, delete, lookup-delete, Error, ok, err, arith,
  eq_refl,
}
use capo_shell_mcp.Shell.{finished, exit_error, Execer}
use capo_shell_mcp.Exec.{
  outcome, System, exec_options, write_temp_kubeconfig, write_at, with_kubeconfig, temp_path,
  encode_hex, hex_digits,
}
use capo_shell_mcp.Exec.Laws.{
  IsFiles, started, ended, effective, exec_options-kubeconfig, with_kubeconfig-cleanup,
  with_kubeconfig-err,
}

-- A file of the log cannot be removed.
abbrev removable : String → Map String → Bool
removable path s = not (path == "/tmp/log")

abbrev file : String → Map String → Option String
file path s = lookup path s

abbrev remove : String → Map String → Map String
remove path s = if removable path s then delete path s else s

abbrev machine : System (Map String)
machine = record {
  read_random = λ s. (ok (10 ∷ 255 ∷ []), s);
  write_file = λ path contents s. (ok tt, insert path contents s);
  remove = remove;
  environ = "PATH=/bin" ∷ "KUBECONFIG=/root/.kube/config" ∷ [];
  temp_dir = "/tmp";
}

machine-IsFiles : IsFiles machine file removable
machine-IsFiles = record {
  written = λ path contents s h. ground (arith, lookup-insert path path contents s, eq_refl path);
  removed = λ path p s.
      ground (arith, lookup-delete p path s, lookup-delete path p s, eq_iff p path, eq_iff path p);
}

abbrev cat : Execer (Map String)
cat command args options s =
    (exit_error "out" "" (pos 3) "exit status 3", insert "/tmp/log" command s)

abbrev silent : Execer (Map String)
silent command args options s = (finished (record { stdout = ""; stderr = "" }), s)

temp_path_test : temp_path "/tmp" (10 ∷ 255 ∷ []) ≡ "/tmp/capi-shell-mcp-0aff.yaml"
unfolding temp_path encode_hex hex_digits
temp_path_test = refl

exec_options-kubeconfig_test :
    effective "KUBECONFIG="
      (exec_options machine "/tmp/k.yaml" (("KUBECONFIG", "other") ∷ []) "").env
    ≡ some "/tmp/k.yaml"
exec_options-kubeconfig_test =
    exec_options-kubeconfig machine "/tmp/k.yaml" (("KUBECONFIG", "other") ∷ []) ""

abbrev temp_file : String
temp_file = temp_path "/tmp" (10 ∷ 255 ∷ [])

with_kubeconfig-cleanup_example :
    let after = ended machine cat "apiVersion: v1" [] "cat" [] "" temp_file [] in
    let r = with_kubeconfig machine cat "apiVersion: v1" [] ("cat" ∷ []) "" [] in
    (r.0 ≡ ok (outcome after.0))
    × (file temp_file (started machine "apiVersion: v1" []) ≡ some "apiVersion: v1")
    × (effective "KUBECONFIG=" (exec_options machine temp_file [] "").env ≡ some temp_file)
    × ((p : String)
        → file p r.1
          ≡ (if (p == temp_file) && removable temp_file after.1 then none else file p after.1))
unfolding write_temp_kubeconfig write_at
with_kubeconfig-cleanup_example =
    with_kubeconfig-cleanup machine machine-IsFiles cat "apiVersion: v1" [] "cat" [] "" [] refl

abbrev no_words : List String
no_words = []

with_kubeconfig-err_example :
    ((no_words ≡ [])
      ⊎ ((x : Error) × ((write_temp_kubeconfig machine "apiVersion: v1" []).0 ≡ err x)))
    × (with_kubeconfig machine cat "apiVersion: v1" [] [] "" []
        ≡ with_kubeconfig machine silent "apiVersion: v1" [] [] "" [])
unfolding with_kubeconfig
with_kubeconfig-err_example =
    with_kubeconfig-err machine cat silent "apiVersion: v1" [] [] "" [] refl
