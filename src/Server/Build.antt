-- ===== src/Server/Build.antt =====
-- internal/server/build.go, with the methods of internal/server/tools.go that it registers, and
-- internal/server/types.go. The server of the MCP library is an argument.
pub mod Laws
mod Tests
use capo_shell_mcp.Prelude.{ℕ, String, Bool, true, false, List, Result}
use capo_shell_mcp.Action.{Action}
use capo_shell_mcp.Config.Load.{AppConfig}
use capo_shell_mcp.Server.Outside.{Outside, State}
use capo_shell_mcp.Server.Tools.{
  CallToolResult, ListClustersEntry, KubeconfigResult, ClusterExecResult, list_clusters,
  get_cluster_kubeconfig_fan_out, exec_in_cluster_fan_out,
}

pub record ClusterFilterInput : Type 0 where
  pub clusters : List String

pub record ExecInput : Type 0 where
  pub clusters : List String
  pub command : List String
  pub stdin : String

-- The handler of a tool, for one of the two types of input.
pub data ToolHandler (S : Type 0) : Type 0 where
  for_filter : (ClusterFilterInput → Action S CallToolResult) → ToolHandler S
  for_exec : (ExecInput → Action S CallToolResult) → ToolHandler S

-- mcp.NewServer with a name, a version and instructions, and mcp.AddTool with a name and a description.
pub record Mcp (V H : Type 0) : Type 0 where
  pub new_server : String → String → String → V
  pub add_tool : String → String → H → V → V

abbrev instructions : String
instructions =
    "Use list_clusters to discover clusters before calling any other tool — it returns the composite \"kubeconfig/context/namespace/name\" target string every other tool's \"clusters\" parameter accepts.\n\nKubeconfig entries are themselves valid cluster targets. They appear as regular entries in list_clusters results and can be targeted with exec_in_cluster(_readonly) exactly like any workload cluster. Do not assume a kubeconfig entry is unavailable or unreachable as a target.\n\nEvery tool's \"clusters\" parameter takes one or more targets, each \"kubeconfig[/context[/namespace[/name]]]\". list_clusters and get_cluster_kubeconfig(_readonly) accept partial prefixes (e.g. \"prod\" selects every cluster under that kubeconfig) and treat an omitted \"clusters\" as \"every known cluster\" — they can't mutate workload state. exec_in_cluster(_readonly) always requires the full exact path for every entry, with no partial matching and no implicit \"all\", since the command being run is opaque.\n\nDefault to exec_in_cluster_readonly for read/check/status/debug tasks. Only use exec_in_cluster when a write, OpenStack credentials, or a privileged pod (e.g. kubectl debug node) is needed."

module _ {X C : Type 0} (out : Outside X C) (cfg : AppConfig)
    (marshal_entries : List ListClustersEntry → Result String)
    (marshal_kubeconfigs : List KubeconfigResult → Result String)
    (marshal_execs : List ClusterExecResult → Result String)
    (schedule : List String → List (ℕ × String)) where
  -- ListClusters, GetClusterKubeconfig, GetClusterKubeconfigReadonly, ExecInCluster and
  -- ExecInClusterReadonly
  unfoldable pub list_clusters_tool : ClusterFilterInput → Action (State X) CallToolResult
  list_clusters_tool input =
      list_clusters out cfg marshal_entries marshal_kubeconfigs marshal_execs schedule
        input.clusters

  unfoldable pub get_cluster_kubeconfig : ClusterFilterInput → Action (State X) CallToolResult
  get_cluster_kubeconfig input =
      get_cluster_kubeconfig_fan_out out cfg marshal_entries marshal_kubeconfigs marshal_execs
        schedule input.clusters false

  unfoldable pub get_cluster_kubeconfig_readonly :
      ClusterFilterInput → Action (State X) CallToolResult
  get_cluster_kubeconfig_readonly input =
      get_cluster_kubeconfig_fan_out out cfg marshal_entries marshal_kubeconfigs marshal_execs
        schedule input.clusters true

  unfoldable pub exec_in_cluster : ExecInput → Action (State X) CallToolResult
  exec_in_cluster input =
      exec_in_cluster_fan_out out cfg marshal_entries marshal_kubeconfigs marshal_execs schedule
        input.clusters input.command input.stdin false

  unfoldable pub exec_in_cluster_readonly : ExecInput → Action (State X) CallToolResult
  exec_in_cluster_readonly input =
      exec_in_cluster_fan_out out cfg marshal_entries marshal_kubeconfigs marshal_execs schedule
        input.clusters input.command input.stdin true

  unfoldable pub build_server : {V : Type 0} → Mcp V (ToolHandler (State X)) → V
  unfolding list_clusters_tool get_cluster_kubeconfig get_cluster_kubeconfig_readonly
      exec_in_cluster exec_in_cluster_readonly
  build_server mcp =
      let srv = mcp.new_server "capi-shell-mcp" "0.1.0" instructions in
      let with_list =
        mcp.add_tool "list_clusters"
          "List CAPI workload clusters across configured kubeconfigs, optionally filtered by one or more cluster patterns. Results cached per kubeconfig+context."
          (for_filter list_clusters_tool) srv in
      let with_get =
        mcp.add_tool "get_cluster_kubeconfig"
          "Return the (transformed) kubeconfig YAML for one or more CAPI workload clusters, as a JSON array of {cluster, kubeconfig}. Cached per cluster. Starts sshuttle proxy if configured."
          (for_filter get_cluster_kubeconfig) with_list in
      let with_get_readonly =
        mcp.add_tool "get_cluster_kubeconfig_readonly"
          "Return a read-only kubeconfig for one or more CAPI workload clusters, as a JSON array of {cluster, kubeconfig}, using the TokenRequest API. Always applies ServiceAccount capi-shell-mcp-read-only to each workload cluster. Token lifetime matches kubeconfig_ttl."
          (for_filter get_cluster_kubeconfig_readonly) with_get in
      let with_exec =
        mcp.add_tool "exec_in_cluster"
          "Run a command against one or more CAPI workload clusters in parallel, with each cluster's KUBECONFIG and OpenStack credentials set as env vars. Returns a JSON array of per-cluster results. Kubeconfig is cached; OS credentials are fetched fresh per call."
          (for_exec exec_in_cluster) with_get_readonly in
      mcp.add_tool "exec_in_cluster_readonly"
        "Run a command against one or more CAPI workload clusters in parallel, using a read-only kubeconfig for each. Returns a JSON array of per-cluster results. Always applies ServiceAccount capi-shell-mcp-read-only via TokenRequest API. No OpenStack credentials are injected."
        (for_exec exec_in_cluster_readonly) with_exec
