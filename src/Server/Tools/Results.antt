-- ===== src/Server/Tools/Results.antt =====
-- The results of the tools.
use capo_shell_mcp.Prelude.{
  ℤ, String, Bool, Option, none, some, Result, Error, ok, err, ◌==◌, if◌then◌else◌,
}
use capo_shell_mcp.Capi.Target.{CapiCluster}
use capo_shell_mcp.Exec.{Outcome}

-- The text of a result: an error's, a fixed one, or JSON.
pub data Content : Type 0 where
  error_text : Error → Content
  plain json : String → Content

pub record CallToolResult : Type 0 where
  pub content : Content
  pub is_error : Bool

abbrev pub text_result : Content → Bool → CallToolResult
text_result content is_error = record { content = content; is_error = is_error }

pub record ListClustersEntry : Type 0 where
  pub cluster : CapiCluster
  pub target : String

pub record KubeconfigResult : Type 0 where
  pub cluster : String
  pub kubeconfig : String
  pub error : Option Error

pub record ClusterId : Type 0 where
  pub kubeconfig : String
  pub context : String
  pub namespace : String
  pub name : String

-- A nil pointer is `none`.
pub record ClusterExecResult : Type 0 where
  pub cluster : ClusterId
  pub stdout : Option String
  pub stderr : Option String
  pub exit_code : Option ℤ
  pub error : Option Error

abbrev pub no_cluster : ClusterId
no_cluster = record { kubeconfig = ""; context = ""; namespace = ""; name = "" }

abbrev pub cluster_err_result : ClusterId → Error → ClusterExecResult
cluster_err_result id e = record {
  cluster = id;
  stdout = none;
  stderr = none;
  exit_code = none;
  error = some e;
}

abbrev pub non_empty : String → Option String
non_empty s = if s == "" then none else some s

abbrev pub exec_result : ClusterId → Outcome → ClusterExecResult
exec_result id r = record {
  cluster = id;
  stdout = non_empty r.stdout;
  stderr = non_empty r.stderr;
  exit_code = some r.exit_code;
  error = none;
}

-- An error ends up in the result.
abbrev pub settled : ClusterId → Result Outcome → ClusterExecResult
settled id (ok r) = exec_result id r
settled id (err e) = cluster_err_result id e

abbrev pub given : String → Result String → KubeconfigResult
given target (ok kc) = record { cluster = target; kubeconfig = kc; error = none }
given target (err e) = record { cluster = target; kubeconfig = ""; error = some e }
