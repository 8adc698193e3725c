-- ===== src/Shell/ExecFile/Tests.antt =====
-- Tests of `ExecFile` with a `Run` that writes what a fixed process writes.
use capo_shell_mcp.Prelude.{
  ℕ, ◌+◌, ◌≤◌, ◌≡◌, refl, inr, ◌↔◌, pos, String, Bool, true, false, List, [], ◌∷◌, length, arith,
}
use capo_shell_mcp.Shell.{Options, Output, finished, exit_error}
use capo_shell_mcp.Shell.Limit.{Stream, to_stdout, to_stderr, Capture, write}
use capo_shell_mcp.Shell.ExecFile.{
  RunResult, success, exit_status, run_error, Writer, Run, command, exec_file, output_of, writer,
}
use capo_shell_mcp.Shell.ExecFile.Copy.{copy, accepts, Fits, accepts-writer}
use capo_shell_mcp.Shell.ExecFile.Laws.{
  Child, IsRun, Shows, all_sent, exec_file-finished_iff, exec_file-le-max, exec_file-uncapped,
}

-- `Run` as it is documented, for a process that is a function.
abbrev ended :
    {S : Type 0}
    → List (Stream × List ℕ) × RunResult × S
    → Writer
    → Capture
    → Bool
    → RunResult × Capture × S
ended (ws, e, s) w c true = (e, copy w ws c, s)
ended (ws, e, s) w c false = (run_error "short write", copy w ws c, s)

abbrev run_child : {S : Type 0} → Child S → Run S
run_child child cmd w c s = ended (child cmd s) w c (accepts w (child cmd s).0 c)

run_child-IsRun : {S : Type 0} (child : Child S) → IsRun child (run_child child)
run_child-IsRun child = record {
  copied = λ cmd max s h. rw ((accepts-writer max (child cmd s).0).1 h) (refl, refl, refl, refl);
  refused = λ cmd max s one h. rw h (λ e. cc e, ((child cmd s).0, refl));
}

-- The text of a list of bytes, here only by its length.
abbrev text : List ℕ → String
text [] = ""
text (_ ∷ []) = "1"
text (_ ∷ _ ∷ []) = "2"
text _ = "many"

-- `ls` writes five bytes and succeeds, anything else complains and exits with 2.
abbrev child : Child ℕ
child cmd s = elim cmd.args [
  | [] ↦ (
    (to_stdout, b'a' ∷ b'b' ∷ []) ∷ (to_stderr, b'w' ∷ []) ∷ (to_stdout, b'c' ∷ b'd' ∷ []) ∷ [],
    success,
    s + 1,
  )
  | _ ∷ _ ↦ ((to_stderr, b'?' ∷ b'!' ∷ []) ∷ [], exit_status (pos 2) "exit status 2", s)
]

abbrev options : ℕ → Options
options max = record { env = []; input = ""; max_output_bytes = max }

too_long :
    exec_file text (run_child child) "ls" [] (options 4) 0
    ≡ (exit_error "2" "1" (pos 1) "short write", 1)
unfolding exec_file writer write
too_long = refl

-- `grep` writes three bytes to one stream.
abbrev grep : Child ℕ
grep cmd s = ((to_stdout, b'a' ∷ []) ∷ (to_stdout, b'b' ∷ b'c' ∷ []) ∷ [], success, s)

exec_file-finished_iff_example :
    ((exec_file text (run_child grep) "grep" [] (options 3) 0).0
      ≡ finished (record { stdout = "many"; stderr = "" }))
    ↔ ((success ≡ success)
        × Fits 3 (grep (command "grep" [] (options 3)) 0).0
        × (◌≡◌ {A = Output}
            (record { stdout = "many"; stderr = "" })
            (output_of text (all_sent (grep (command "grep" [] (options 3)) 0).0))))
exec_file-finished_iff_example =
    exec_file-finished_iff text grep (run_child grep) (run_child-IsRun grep) "grep" [] (options 3) 0
      (inr (to_stdout, (refl, (refl, tt)))) (record { stdout = "many"; stderr = "" })

exec_file-le-max_example :
    (a : List ℕ) × (b : List ℕ) × Shows text
      (exec_file text (run_child grep) "grep" [] (options 2) 0).0
      a
      b
    × (length a + length b ≤ 2)
exec_file-le-max_example =
    exec_file-le-max text grep (run_child grep) (run_child-IsRun grep) "grep" [] (options 2) 0
      (omega arith) (inr (to_stdout, (refl, (refl, tt))))

exec_file-uncapped_example :
    exec_file text (run_child child) "ls" ("x" ∷ []) (options 2) 0
    ≡ exec_file text (run_child child) "ls" ("x" ∷ []) (options 0) 0
exec_file-uncapped_example =
    exec_file-uncapped text child (run_child child) (run_child-IsRun child) "ls" ("x" ∷ [])
      (options 2) 0 (omega arith)
