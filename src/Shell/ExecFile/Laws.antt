-- ===== src/Shell/ExecFile/Laws.antt =====
-- `ExecFile` over what os/exec documents of `Run`: the output of the process is copied to the writers
-- until one of them refuses a chunk, and then `Run` returns an error.
use capo_shell_mcp.Prelude.{
  ℕ, ◌+◌, ◌≤◌, ◌<◌, ◌≡◌, ◌≢◌, refl, ap, ap₂, subst, ◌∙◌, sym, ◌⊎◌, inl, inr, ◌↔◌, [], ◌∷◌, arith,
  String, false, Bool-cases, List, length,
}
use capo_shell_mcp.Shell.{Options, Output, ExecResult, finished, exit_error, other_error}
use capo_shell_mcp.Shell.Limit.{Stream, to_stdout, to_stderr, Capture, fresh, sent_to, total}
use capo_shell_mcp.Shell.ExecFile.{
  Command, RunResult, success, exit_status, run_error, Run, command, writer, output_of,
  exec_file_result, exec_file,
}
use capo_shell_mcp.Shell.ExecFile.Copy.{
  copy, accepts, Fits, accepts-writer, copy-writer, copy-le-max,
}

-- What a process writes, how it ends and what it leaves, if all of its output is taken.
abbrev pub Child : Type 0 → Type 0
Child S = Command → S → List (Stream × List ℕ) × RunResult × S

-- All chunks go to one stream, so that one goroutine does all Writes.
abbrev pub OnlyTo : Stream → List (Stream × List ℕ) → Type 0
OnlyTo t [] = Unit
OnlyTo t ((s, p) ∷ ws) = (s ≡ t) × OnlyTo t ws

-- No two goroutines share a counter: there is none, or the process writes to one stream at most.
abbrev pub IsUnshared : ℕ → List (Stream × List ℕ) → Type 0
IsUnshared max ws = (max ≡ 0) ⊎ ((t : Stream) × OnlyTo t ws)

-- What os/exec documents: `Run` copies the output to the writers, each stream by a goroutine of its own, and gives
-- the end of the process; if a Write fails, it has copied something and returns an error. The writers of a
-- cap share a counter without a lock, so that updates may be lost: if two goroutines write, nothing
-- is said of the counter, and of the buffers only where all output fits into the cap. There no
-- Write can fail, since a lost update only makes the counter smaller.
pub record IsRun {S : Type 0} (child : Child S) (run : Run S) : Type 0 where
  pub copied :
      (cmd : Command) (max : ℕ) (s : S)
      → Fits max (child cmd s).0
      → ((run cmd (writer max) (fresh max) s).0 ≡ (child cmd s).1)
        × ((run cmd (writer max) (fresh max) s).2 ≡ (child cmd s).2)
        × ((run cmd (writer max) (fresh max) s).1.stdout
            ≡ (copy (writer max) (child cmd s).0 (fresh max)).stdout)
        × ((run cmd (writer max) (fresh max) s).1.stderr
            ≡ (copy (writer max) (child cmd s).0 (fresh max)).stderr)
  pub refused :
      (cmd : Command) (max : ℕ) (s : S)
      → IsUnshared max (child cmd s).0
      → accepts (writer max) (child cmd s).0 (fresh max) ≡ false
      → ((run cmd (writer max) (fresh max) s).0 ≢ success)
        × ((ws : List (Stream × List ℕ)) × ((run cmd (writer max) (fresh max) s).1
              ≡ copy (writer max) ws (fresh max)))

buffers-output :
    (text : List ℕ → String) (c d : Capture)
    → (c.stdout ≡ d.stdout) × (c.stderr ≡ d.stderr)
    → (e : RunResult) → exec_file_result text e c ≡ exec_file_result text e d
buffers-output text c d (o, r) success = cc
buffers-output text c d (o, r) (exit_status code e) = cc
buffers-output text c d (o, r) (run_error e) = cc

-- What was sent to the two streams, as if a single buffer had taken it.
abbrev pub all_sent : List (Stream × List ℕ) → Capture
all_sent ws = record {
  max = 0;
  written = 0;
  stdout = sent_to to_stdout ws;
  stderr = sent_to to_stderr ws;
}

success_only :
    (text : List ℕ → String) (e : RunResult) (c : Capture) {o : Output}
    → exec_file_result text e c ≡ finished o
    → (e ≡ success) × (o ≡ output_of text c)
success_only text success c h = (refl, cc)
success_only text (exit_status code e) c h = cc
success_only text (run_error e) c h = cc

-- The output that a result or an error carries.
abbrev pub Shows : (List ℕ → String) → ExecResult → List ℕ → List ℕ → Type 0
Shows text (finished o) a b = (o.stdout ≡ text a) × (o.stderr ≡ text b)
Shows text (exit_error out serr code e) a b = (out ≡ text a) × (serr ≡ text b)
Shows text (other_error e) a b = ⊥

exec_file_result-Shows :
    (text : List ℕ → String) (e : RunResult) (c : Capture)
    → Shows text (exec_file_result text e c) c.stdout c.stderr
exec_file_result-Shows text success c = (refl, refl)
exec_file_result-Shows text (exit_status code e) c = (refl, refl)
exec_file_result-Shows text (run_error e) c = (refl, refl)

module _ (text : List ℕ → String) {S : Type 0} (child : Child S) (run : Run S)
    (law : IsRun child run) (file : String) (args : List String) (opts : Options) (s : S) where
  abbrev pub ending : List (Stream × List ℕ) × RunResult × S
  ending = child (command file args opts) s

  -- If the output of the process fits into the cap, or there is none, ExecFile gives the end of the
  -- process with exactly what it sent to each stream.
  exec_file-Fits :
      Fits opts.max_output_bytes ending.0
      → exec_file text run file args opts s
        ≡ (exec_file_result text ending.1 (all_sent ending.0), ending.2)
  unfolding exec_file
  exec_file-Fits h =
      let max = opts.max_output_bytes in
      let (how, left, out, errors) = law.copied (command file args opts) max s h in
      let (sent_out, sent_err) = copy-writer max ending.0 h in
      ap₂ (λ r s'. (r, s'))
        (ap
            (λ e.
              exec_file_result text e (run (command file args opts) (writer max) (fresh max) s).1)
            how
          ∙ buffers-output text (run (command file args opts) (writer max) (fresh max) s).1
              (all_sent ending.0) (out ∙ sent_out, errors ∙ sent_err) ending.1)
        left

  -- What is in the buffers is no longer than the cap.
  run-le-max :
      0 < opts.max_output_bytes
      → IsUnshared opts.max_output_bytes ending.0
      → length
            (run
              (command file args opts)
              (writer opts.max_output_bytes)
              (fresh opts.max_output_bytes)
              s).1.stdout
          + length
              (run
                (command file args opts)
                (writer opts.max_output_bytes)
                (fresh opts.max_output_bytes)
                s).1.stderr
        ≤ opts.max_output_bytes
  run-le-max h one =
      let max = opts.max_output_bytes in
      elim (Bool-cases (accepts (writer max) ending.0 (fresh max))) [
        | inl e ↦
            (let (_, _, out, errors) =
                law.copied (command file args opts) max s ((accepts-writer max ending.0).0 e) in
              omega (arith, ap length out, ap length errors, copy-le-max max ending.0 h))
        | inr e ↦
            (let (ws, c) = (law.refused (command file args opts) max s one e).1 in
              subst (λ c. length c.stdout + length c.stderr ≤ max) (sym c) (copy-le-max max ws h))
      ]

  finished-Fits :
      IsUnshared opts.max_output_bytes ending.0
      → (o : Output) → (exec_file text run file args opts s).0 ≡ finished o
      → Fits opts.max_output_bytes ending.0
  unfolding exec_file
  finished-Fits one o h =
      let max = opts.max_output_bytes in
      elim (Bool-cases (accepts (writer max) ending.0 (fresh max))) [
        | inl e ↦ (accepts-writer max ending.0).0 e
        | inr e ↦
            absurd
              ((law.refused (command file args opts) max s one e).0 (success_only text _ _ h).0)
      ]

  -- For a process that writes to one of its streams at most, or without a cap: ExecFile gives an output exactly when the
  -- process succeeds and all that it writes fits into the cap, or there is none; and that output is
  -- exactly what the process sent to each stream.
  pub exec_file-finished_iff :
      IsUnshared opts.max_output_bytes ending.0
      → (o : Output)
      → ((exec_file text run file args opts s).0 ≡ finished o) ↔ (
          (ending.1 ≡ success)
          × Fits opts.max_output_bytes ending.0
          × (o ≡ output_of text (all_sent ending.0)))
  exec_file-finished_iff one o = (
    λ h.
        let fits = finished-Fits one o h in
        let (done, same) =
          success_only text ending.1 (all_sent ending.0)
            (sym (ap (λ r. r.0) (exec_file-Fits fits)) ∙ h) in
        (done, fits, same),
    λ (done, fits, same).
        ap (λ r. r.0) (exec_file-Fits fits)
        ∙ ap (λ e. exec_file_result text e (all_sent ending.0)) done
        ∙ ap finished (sym same),
  )

  -- For a process that writes to one of its streams at most, and a cap above 0: whatever it writes, and also if ExecFile
  -- ends with an error, what it gives of the two streams, taken together, is no longer than the cap.
  pub exec_file-le-max :
      0 < opts.max_output_bytes
      → IsUnshared opts.max_output_bytes ending.0
      → (a : List ℕ) × (b : List ℕ) × Shows text (exec_file text run file args opts s).0 a b
        × (length a + length b ≤ opts.max_output_bytes)
  unfolding exec_file
  exec_file-le-max h one =
      let max = opts.max_output_bytes in
      let r = run (command file args opts) (writer max) (fresh max) s in
      (r.1.stdout, r.1.stderr, exec_file_result-Shows text r.0 r.1, run-le-max h one)

-- A cap that the output fits into changes nothing: ExecFile does what it does without one, also for
-- a process that fails.
pub exec_file-uncapped :
    (text : List ℕ → String) {S : Type 0} (child : Child S) (run : Run S)
    → IsRun child run
    → (file : String) (args : List String) (opts : Options) (s : S)
    → total (child (command file args opts) s).0 ≤ opts.max_output_bytes
    → exec_file text run file args opts s
      ≡ exec_file text run file args (record opts { max_output_bytes = 0 }) s
exec_file-uncapped text child run law file args opts s h =
    exec_file-Fits text child run law file args opts s (inr h)
    ∙ sym (
        exec_file-Fits text child run law file args (record opts { max_output_bytes = 0 }) s
          (inl refl))
