-- ===== src/Shell/ExecFile.antt =====
-- internal/shell/shell.go: `OSExecer.ExecFile`. The method `Run` of os/exec is an argument: it is given
-- the writers of the two streams, and tells how the process ended. The text of some bytes is `text`.
pub mod Copy
pub mod Laws
mod Tests
use capo_shell_mcp.Prelude.{
  ℕ, zero, suc, ℤ, pos, String, Bool, Option, none, some, List, length, ◌==◌, if◌then◌else◌,
}
use capo_shell_mcp.Shell.{Options, Output, ExecResult, finished, exit_error, Execer}
use capo_shell_mcp.Shell.Limit.{Stream, Capture, fresh, buffer_write, write}

-- What `exec.CommandContext` is given, with Env and Stdin.
pub record Command : Type 0 where
  pub file : String
  pub args : List String
  pub env : List String
  pub stdin : Option String

-- The error of `Run`: none, an `*exec.ExitError` with its code, or another one; both have a text.
pub data RunResult : Type 0 where
  success : RunResult
  exit_status : ℤ → String → RunResult
  run_error : String → RunResult

abbrev pub Writer : Type 0
Writer = Stream → List ℕ → Capture → Option ℕ × Capture

abbrev pub Run : Type 0 → Type 0
Run S = Command → Writer → Capture → S → RunResult × Capture × S

abbrev pub command : String → List String → Options → Command
command file args opts = record {
  file = file;
  args = args;
  env = opts.env;
  stdin = if opts.input == "" then none else some opts.input;
}

-- bytes.Buffer.Write
abbrev pub buffered : Writer
buffered stream p c = (some (length p), buffer_write stream p c)

unfoldable pub writer : ℕ → Writer
writer zero = buffered
writer (suc n) = write

module _ (text : List ℕ → String) where
  abbrev pub output_of : Capture → Output
  output_of c = record { stdout = text c.stdout; stderr = text c.stderr }

  -- What follows `cmd.Run()`.
  abbrev pub exec_file_result : RunResult → Capture → ExecResult
  exec_file_result success c = finished (output_of c)
  exec_file_result (exit_status code e) c = exit_error (text c.stdout) (text c.stderr) code e
  exec_file_result (run_error e) c = exit_error (text c.stdout) (text c.stderr) (pos 1) e

  unfoldable pub exec_file : {S : Type 0} → Run S → Execer S
  exec_file run file args opts s =
      let max = opts.max_output_bytes in
      let (e, c, s') = run (command file args opts) (writer max) (fresh max) s in
      (exec_file_result e c, s')
