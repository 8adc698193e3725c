-- ===== src/Capi/Store.antt =====
-- internal/capi/store.go
use capo_shell_mcp.Prelude.{ℤ, String, ◌⊕◌, Option, List}
use capo_shell_mcp.Cache.{TtlCache, new}
use capo_shell_mcp.Capi.Target.{CapiCluster}

pub record ProxyTarget : Type 0 where
  pub sshuttle_host : String
  pub api_server_ip : String
  pub api_server_port : String

pub record CachedKubeconfig : Type 0 where
  pub kubeconfig : String
  pub proxy_target : Option ProxyTarget

pub record Store : Type 0 where
  pub cluster_list : TtlCache (List CapiCluster)
  pub kubeconfig : TtlCache CachedKubeconfig

unfoldable pub new_store : ℤ → ℤ → Store
new_store cluster_list_ttl kubeconfig_ttl = record {
  cluster_list = new cluster_list_ttl;
  kubeconfig = new kubeconfig_ttl;
}

unfoldable pub cluster_list_key : String → String → String
cluster_list_key kubeconfig_name context = kubeconfig_name ⊕ (":" ⊕ context)

unfoldable pub kubeconfig_key : String → String → String → String → String
kubeconfig_key kubeconfig_name context namespace cluster_name =
    kubeconfig_name ⊕ (":" ⊕ (context ⊕ (":" ⊕ (namespace ⊕ (":" ⊕ cluster_name)))))
