-- ===== src/Server/Duration/Tests.antt =====
-- Tests of lifetimes.
use capo_shell_mcp.Prelude.{◌+ℤ◌, ◌≡◌, refl, ℤ, pos, negsuc, none, some, [], arith}
use capo_shell_mcp.Config.Load.{AppConfig}
use capo_shell_mcp.Capi.Store.{CachedKubeconfig}
use capo_shell_mcp.Server.Duration.{seconds}
use capo_shell_mcp.Server.Duration.Laws.{read_after, read_after_lem, read_after-overflow}

wraps : seconds (pos 9223372037) ≡ negsuc 9223372036709551615
unfolding seconds
wraps = refl

abbrev with_lifetime : ℤ → AppConfig
with_lifetime n = record {
  kubeconfigs = [];
  transforms = none;
  custom_fields = [];
  sshuttle_host = "";
  cache = record { cluster_list_ttl_seconds = pos 300; kubeconfig_ttl_seconds = n };
}

abbrev cached : CachedKubeconfig
cached = record { kubeconfig = "apiVersion: v1"; proxy_target = none }

read_after_lem_example :
    read_after (with_lifetime (pos 60)) (pos 10) "k" cached (pos 60000000010) ≡ some cached
unfolding ◌+ℤ◌
read_after_lem_example =
    read_after_lem (with_lifetime (pos 60)) (pos 10) "k" cached (pos 60000000010) (omega arith)

read_after-overflow_example :
    read_after (with_lifetime (pos 9223372037)) (pos 10) "k" cached (pos 10) ≡ none
read_after-overflow_example =
    read_after-overflow (with_lifetime (pos 9223372037)) (pos 10) "k" cached 9223372037 refl
      (omega arith) (omega arith)
