-- ===== src/Server/Kubeconfig.antt =====
-- internal/server/kubeconfig.go, and `ResolveTarget` of internal/server/target.go
pub mod Laws
pub mod Tunnel
use capo_shell_mcp.Prelude.{
  ℤ, String, Option, none, some, lookup, Result, ok, err, unknown_kubeconfig, ◌==◌, if◌then◌else◌,
}
use capo_shell_mcp.Cache.{get, set}
use capo_shell_mcp.Capi.Target.{parse_target}
use capo_shell_mcp.Capi.Store.{Store, ProxyTarget, CachedKubeconfig, kubeconfig_key}
use capo_shell_mcp.Config.Load.{AppConfig, KubeconfigSource, KubeconfigTransforms}
use capo_shell_mcp.Action.{Action, pure, raise, lift, ◌>>=◌, ◌>>◌}
use capo_shell_mcp.Server.Outside.{Outside, State, outer}
use capo_shell_mcp.Server.Duration.{seconds}
use capo_shell_mcp.Proxy.Systemd.{whole_seconds}

module _ {X C : Type 0} (out : Outside X C) (cfg : AppConfig) where
  abbrev pub kubeconfig_ttl : ℤ
  kubeconfig_ttl = seconds cfg.cache.kubeconfig_ttl_seconds

  -- int64(ttl.Seconds()), without the rounding of float64
  abbrev pub token_seconds : ℤ
  token_seconds = whole_seconds kubeconfig_ttl

  abbrev pub sshuttle_host_of : KubeconfigSource → String
  sshuttle_host_of src = if src.sshuttle_host == "" then cfg.sshuttle_host else src.sshuttle_host

  abbrev pub get_kubeconfig : String → Action (State X) (Option CachedKubeconfig)
  get_kubeconfig key s =
      let (found, c) = get (out.now s.outside) key s.store.kubeconfig in
      (ok found, record s { store = record s.store { kubeconfig = c } })

  abbrev pub set_kubeconfig : String → CachedKubeconfig → Action (State X) (Unit {0})
  set_kubeconfig key cached s = (
    ok tt,
    record s {
      store = record s.store { kubeconfig = set (out.now s.outside) key cached s.store.kubeconfig };
    },
  )

  abbrev pub ensure : ProxyTarget → Action (State X) (Unit {0})
  ensure t =
      outer (out.ensure_proxy t.api_server_ip t.api_server_port t.sshuttle_host kubeconfig_ttl)

  -- The branch for a cached entry.
  unfoldable pub reuse : CachedKubeconfig → Action (State X) String
  reuse cached = elim cached.proxy_target [
    | none ↦ pure cached.kubeconfig
    | some t ↦ (do ensure t; pure cached.kubeconfig)
  ]

  abbrev pub transformed : String → Result String
  transformed kc = elim cfg.transforms [
    | none ↦ ok kc
    | some t ↦ out.apply_kubeconfig_transform kc t
  ]

  -- `if hasInfo`
  abbrev pub proxy_for : String → Option (String × String) → Action (State X) (Option ProxyTarget)
  proxy_for host none = pure none
  proxy_for host (some (ip, port)) =
      let t : ProxyTarget = record {
        sshuttle_host = host;
        api_server_ip = ip;
        api_server_port = port;
      } in
      (do ensure t; pure (some t))

  -- `if sshuttleHost != ""`
  unfoldable pub find_proxy : C → String → String → String → Action (State X) (Option ProxyTarget)
  find_proxy clients host namespace cluster_name = if host == "" then pure none else (do
    info ← outer (out.fetch_api_server_info clients namespace cluster_name)
    proxy_for host info)

  -- The calls of a miss, up to the entry for the cache.
  unfoldable pub fetch :
      KubeconfigSource → String → String → String → Action (State X) CachedKubeconfig
  unfolding find_proxy
  fetch src context namespace cluster_name = do
    clients ← outer (out.clients_for_context src context)
    fetched ← outer (out.fetch_workload_kubeconfig clients namespace cluster_name)
    kc ← lift (transformed fetched)
    proxy ← find_proxy clients (sshuttle_host_of src) namespace cluster_name
    pure (record { kubeconfig = kc; proxy_target = proxy })

  -- The rest of `cachedKubeconfig` after a miss.
  unfoldable pub fetch_and_store :
      KubeconfigSource → String → String → String → Action (State X) String
  unfolding fetch
  fetch_and_store src context namespace cluster_name = do
    entry ← fetch src context namespace cluster_name
    set_kubeconfig (kubeconfig_key src.name context namespace cluster_name) entry
    pure entry.kubeconfig

  unfoldable pub cached_kubeconfig :
      KubeconfigSource → String → String → String → Action (State X) String
  unfolding fetch_and_store reuse
  cached_kubeconfig src context namespace cluster_name = do
    found ← get_kubeconfig (kubeconfig_key src.name context namespace cluster_name)
    (elim found [
      | some cached ↦ reuse cached
      | none ↦ fetch_and_store src context namespace cluster_name
    ])

  unfoldable pub read_only_kubeconfig : String → Action (State X) String
  read_only_kubeconfig admin_kc = do
    clients ← outer (out.clients_from_readonly_source admin_kc)
    outer (out.create_read_only_kubeconfig clients admin_kc token_seconds)

  unfoldable pub resolve_target : String → Action (State X) String
  unfolding cached_kubeconfig
  resolve_target target = do
    fields ← lift (parse_target target)
    (elim (lookup fields.0 cfg.kubeconfigs) [
      | none ↦ raise (unknown_kubeconfig fields.0)
      | some src ↦ cached_kubeconfig src fields.1 fields.2 fields.3
    ])
