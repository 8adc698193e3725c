-- ===== src/Server/Tests.antt =====
-- Tests of the server against a world that is its clock.
use capo_shell_mcp.Prelude.{
  ℕ, ℤ, pos, ◌+ℤ◌, String, ◌≡◌, ◌↔◌, refl, join, split, contains, true, false, some, none, List, [],
  ◌∷◌, map, In, NoDup, lookup, insert, Result, ok, err, external, bad_cluster_entry, invalid_target,
  arith,
}
use capo_shell_mcp.Cache.{get, set}
use capo_shell_mcp.Capi.Target.{CapiCluster, format_target}
use capo_shell_mcp.Capi.Store.{CachedKubeconfig, ProxyTarget, kubeconfig_key, cluster_list_key}
use capo_shell_mcp.Capi.Pattern.{is_exact, parse_target_pattern, matches, expand_target_pattern}
use capo_shell_mcp.Capi.Resolve.{resolve_cluster_patterns}
use capo_shell_mcp.Capi.Resolve.Select.{SelectedBy}
use capo_shell_mcp.Capi.Resolve.Dedupe.{first_occurrences}
use capo_shell_mcp.Config.Load.{AppConfig, KubeconfigSource}
use capo_shell_mcp.Shell.{finished}
use capo_shell_mcp.Server.Outside.{Outside, State, ResolvedCluster, sorted_kubeconfigs}
use capo_shell_mcp.Server.Listing.{
  list_clusters_cached, list_clusters_anew, all_known_clusters, all_resolved_clusters,
}
use capo_shell_mcp.Server.Listing.Laws.{list_clusters_cached-again}
use capo_shell_mcp.Server.Kubeconfig.{cached_kubeconfig, fetch_and_store, fetch, find_proxy}
use capo_shell_mcp.Server.Kubeconfig.Laws.{
  read, after_read, with_tunnel, cached_kubeconfig-again, cached_kubeconfig-err,
}
use capo_shell_mcp.Server.Tools.{
  list_clusters, list_clusters_entries, ListClustersEntry, KubeconfigResult, ClusterExecResult,
  exec_failed, kubeconfig_failed, answered, filtered, text_result, error_text,
}
use capo_shell_mcp.FanOut.{any_failed}
use capo_shell_mcp.FanOut.{enumerate}
use capo_shell_mcp.FanOut.Laws.{IsSchedule}
use capo_shell_mcp.Server.Tools.FanOut.{target_id}
use capo_shell_mcp.Server.Tools.Exec.{
  exec_in_cluster, exec_in_cluster_results, exec_in_cluster_bad_entry,
}
use capo_shell_mcp.Server.Tools.Get.{
  get_cluster_kubeconfig, get_cluster_kubeconfig_results, no_filter_lem,
}
use capo_shell_mcp.Server.Tools.Listed.{clusters_of, filtered-In}

abbrev workload : CapiCluster
workload = record {
  kubeconfig_name = "prod";
  context = "admin";
  namespace = "ns";
  name = "c1";
  custom_fields = [];
}

abbrev world : Outside ℤ String
world = record {
  now = λ x. x;
  read_file = λ path x. (ok "kubeconfig", x);
  system = record {
    read_random = λ x. (ok (1 ∷ []), x);
    write_file = λ path contents x. (ok tt, x);
    remove = λ path x. x;
    environ = [];
    temp_dir = "/tmp";
  };
  execer = λ command args options x. (finished (record { stdout = "ok"; stderr = "" }), x);
  clients_for_context = λ src context x. (ok src.name, x);
  clients_from_readonly_source = λ kc x. (ok kc, x);
  get_contexts = λ content. ok ("admin" ∷ []);
  list_clusters_for_context = λ clients name context fields x. (ok (workload ∷ []), x);
  fetch_workload_kubeconfig = λ clients namespace name x. (ok "apiVersion: v1", x);
  apply_kubeconfig_transform = λ kc t. ok kc;
  fetch_api_server_info = λ clients namespace name x. (ok (some ("10.0.0.1", "6443")), x);
  fetch_open_stack_env = λ clients namespace name x. (ok [], x);
  create_read_only_kubeconfig = λ clients kc n x. (ok kc, x);
  ensure_proxy = λ ip port host ttl x. (ok tt, x);
}

-- No client can be made.
abbrev offline : Outside ℤ String
offline = record world { clients_for_context = λ src context x. (err (external "refused"), x) }

abbrev prod : KubeconfigSource
prod = record { name = "prod"; path = "/prod"; contexts = "admin" ∷ []; sshuttle_host = "jump" }

abbrev cfg : AppConfig
cfg = record {
  kubeconfigs = ("prod", prod) ∷ [];
  transforms = none;
  custom_fields = [];
  sshuttle_host = "";
  cache = record { cluster_list_ttl_seconds = pos 300; kubeconfig_ttl_seconds = pos 3600 };
}

abbrev start : State ℤ
start = record {
  store = record {
    cluster_list = record { ttl = pos 300; store = [] };
    kubeconfig = record { ttl = pos 3600; store = [] };
  };
  outside = pos 10;
}

abbrev target : ProxyTarget
target = record { sshuttle_host = "jump"; api_server_ip = "10.0.0.1"; api_server_port = "6443" }

abbrev fetched : CachedKubeconfig
fetched = record { kubeconfig = "apiVersion: v1"; proxy_target = some target }

abbrev with_stored : State ℤ
with_stored = record {
  store = record {
    cluster_list = record { ttl = pos 300; store = [] };
    kubeconfig = record {
      ttl = pos 3600;
      store = ("prod:admin:ns:c1", record { value = fetched; expires_at = pos 3610 }) ∷ [];
    };
  };
  outside = pos 10;
}

cached_kubeconfig-again_example :
    (c : CachedKubeconfig) × (c.kubeconfig ≡ "apiVersion: v1")
    × ((fetch world cfg prod "admin" "ns" "c1"
          (after_read world cfg prod "admin" "ns" "c1" start)).0
        ≡ ok c)
    × (cached_kubeconfig world cfg prod "admin" "ns" "c1"
          (record with_stored { outside = pos 3000 })
        ≡ with_tunnel world cfg "apiVersion: v1" c.proxy_target
            (record with_stored { outside = pos 3000 }))
unfolding cached_kubeconfig fetch_and_store fetch find_proxy get set lookup insert kubeconfig_key
    ◌+ℤ◌
cached_kubeconfig-again_example =
    cached_kubeconfig-again world cfg prod "admin" "ns" "c1" start {kc = "apiVersion: v1"}
      {s' = with_stored} refl refl (pos 3000) (omega arith)

cached_kubeconfig-err_example :
    (cached_kubeconfig offline cfg prod "admin" "ns" "c1" start).1.store
    ≡ record start.store { kubeconfig = (read offline cfg prod "admin" "ns" "c1" start).1 }
unfolding cached_kubeconfig fetch_and_store fetch get lookup
cached_kubeconfig-err_example =
    cached_kubeconfig-err offline cfg prod "admin" "ns" "c1" start {e = external "refused"} refl

abbrev with_list : State ℤ
with_list = record {
  store = record {
    cluster_list = record {
      ttl = pos 300;
      store = ("prod:admin", record { value = workload ∷ []; expires_at = pos 310 }) ∷ [];
    };
    kubeconfig = record { ttl = pos 3600; store = [] };
  };
  outside = pos 10;
}

list_clusters_cached-again_test :
    list_clusters_cached world cfg prod "admin" (record with_list { outside = pos 200 })
    ≡ (ok (workload ∷ []), record with_list { outside = pos 200 })
unfolding list_clusters_cached list_clusters_anew get set lookup insert cluster_list_key ◌+ℤ◌
list_clusters_cached-again_test =
    list_clusters_cached-again world cfg prod "admin" start {l = workload ∷ []} {s' = with_list}
      refl refl (pos 200) (omega arith)

abbrev in_order : List String → List (ℕ × String)
in_order = enumerate 0

in_order-IsSchedule : (ts : List String) → IsSchedule (in_order ts) ts
in_order-IsSchedule ts i t = (λ h. h, λ h. h)

abbrev marshal_entries : List ListClustersEntry → Result String
marshal_entries es = ok "[]"

abbrev marshal_kubeconfigs : List KubeconfigResult → Result String
marshal_kubeconfigs rs = ok "[]"

abbrev marshal_execs : List ClusterExecResult → Result String
marshal_execs rs = ok "[]"

exec_in_cluster_results_example :
    (results : List ClusterExecResult) × (map (λ r. r.cluster) results
      ≡ map target_id (first_occurrences ("prod/admin/ns/c1" ∷ "prod/admin/ns/c1" ∷ [])))
    × ((exec_in_cluster world cfg marshal_entries marshal_kubeconfigs marshal_execs in_order
          ("prod/admin/ns/c1" ∷ "prod/admin/ns/c1" ∷ [])
          ("kubectl" ∷ [])
          ""
          false
          start).0
        ≡ answered (any_failed exec_failed results) (marshal_execs results))
exec_in_cluster_results_example =
    exec_in_cluster_results world cfg marshal_entries marshal_kubeconfigs marshal_execs in_order
      "prod/admin/ns/c1" ("prod/admin/ns/c1" ∷ []) "kubectl" [] "" false start in_order-IsSchedule
      (refl, (refl, tt))

exec_in_cluster_bad_entry_test :
    exec_in_cluster world cfg marshal_entries marshal_kubeconfigs marshal_execs in_order
      ("prod/admin/ns/c1" ∷ "prod" ∷ [])
      ("kubectl" ∷ [])
      ""
      false
      start
    ≡ (ok (text_result (error_text (bad_cluster_entry "prod" (invalid_target "prod"))) true), start)
exec_in_cluster_bad_entry_test =
    exec_in_cluster_bad_entry world cfg marshal_entries marshal_kubeconfigs marshal_execs in_order
      ("prod/admin/ns/c1" ∷ []) [] "prod" "kubectl" [] "" false start (refl, tt) (omega arith)

abbrev workload_found : ResolvedCluster
workload_found = record { cluster = workload; source = prod }

filtered-In_test : In workload_found (workload_found ∷ []) ↔ (
    In workload_found (workload_found ∷ [])
    × SelectedBy (clusters_of (workload_found ∷ [])) ("prod/admin" ∷ []) (format_target workload))
unfolding filtered resolve_cluster_patterns parse_target_pattern is_exact expand_target_pattern
    matches format_target join split contains
filtered-In_test =
    filtered-In (workload_found ∷ []) "prod/admin" [] {kept = workload_found ∷ []} refl
      workload_found

listed : (all_known_clusters world cfg start).0 ≡ ok (workload ∷ [])
unfolding all_known_clusters sorted_kubeconfigs list_clusters_cached list_clusters_anew get set
    lookup insert cluster_list_key ◌+ℤ◌
listed = refl

selected :
    (resolve_cluster_patterns (all_known_clusters world cfg) ("prod/admin" ∷ []) false start).0
    ≡ ok ("prod/admin/ns/c1" ∷ [])
unfolding all_known_clusters sorted_kubeconfigs list_clusters_cached list_clusters_anew get set
    lookup insert cluster_list_key ◌+ℤ◌ resolve_cluster_patterns parse_target_pattern is_exact
    expand_target_pattern matches format_target join split contains
selected = refl

no_filter_lem_example :
    ((list_clusters world cfg marshal_entries marshal_kubeconfigs marshal_execs in_order [] start).0
      ≡ answered false (marshal_entries (list_clusters_entries (workload_found ∷ []))))
    × ((get_cluster_kubeconfig world cfg marshal_entries marshal_kubeconfigs marshal_execs in_order
          [] false start).0
        ≡ answered false (marshal_kubeconfigs []))
unfolding all_resolved_clusters sorted_kubeconfigs list_clusters_cached list_clusters_anew get set
    lookup insert cluster_list_key ◌+ℤ◌
no_filter_lem_example =
    no_filter_lem world cfg marshal_entries marshal_kubeconfigs marshal_execs in_order false start
      {resolved = workload_found ∷ []} refl

get_cluster_kubeconfig_results_example :
    (results : List KubeconfigResult) × ((get_cluster_kubeconfig world cfg marshal_entries
        marshal_kubeconfigs marshal_execs in_order
        ("prod/admin" ∷ [])
        true
        start).0
      ≡ answered (any_failed kubeconfig_failed results) (marshal_kubeconfigs results))
    × NoDup (map (λ r. r.cluster) results)
    × (In {A = String} "prod/admin/ns/c1" (map (λ r. r.cluster) results)
        ↔ SelectedBy (workload ∷ []) ("prod/admin" ∷ []) "prod/admin/ns/c1")
get_cluster_kubeconfig_results_example =
    get_cluster_kubeconfig_results world cfg marshal_entries marshal_kubeconfigs marshal_execs
      in_order ("prod/admin" ∷ []) true start "prod/admin/ns/c1" in_order-IsSchedule listed selected
