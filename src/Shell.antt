-- ===== src/Shell.antt =====
-- internal/shell/shell.go: the interface by which commands are run, and the cap on their output.
pub mod Limit
pub mod ExecFile
mod Tests
use capo_shell_mcp.Prelude.{ℕ, ℤ, String, List}

pub record Options : Type 0 where
  pub env : List String
  pub input : String
  pub max_output_bytes : ℕ

pub record Output : Type 0 where
  pub stdout : String
  pub stderr : String

-- What `ExecFile` returns: an output, an `*ExitError` (whose `Err` has a text), or another error.
pub data ExecResult : Type 0 where
  finished : Output → ExecResult
  exit_error : String → String → ℤ → String → ExecResult
  other_error : String → ExecResult

-- `Execer`: a command may change the state `S` of the machine.
abbrev pub Execer : Type 0 → Type 0
Execer S = String → List String → Options → S → ExecResult × S
