-- ===== src/Server/ReadOnly/Kubeconfig.antt =====
-- cachedKubeconfig, ResolveTarget and readOnlyKubeconfig keep what the calls of the read-only tools keep.
use capo_shell_mcp.Prelude.{
  ◌≡◌, String, Option, none, some, ok, err, lookup, ◌==◌, unknown_kubeconfig,
}
use capo_shell_mcp.Action.{pure, raise, lift, ◌>>◌}
use capo_shell_mcp.Capi.Target.{parse_target}
use capo_shell_mcp.Capi.Store.{ProxyTarget, CachedKubeconfig, kubeconfig_key}
use capo_shell_mcp.Config.Load.{AppConfig, KubeconfigSource}
use capo_shell_mcp.Server.Outside.{Outside, outer}
use capo_shell_mcp.Server.Kubeconfig.{
  kubeconfig_ttl, token_seconds, get_kubeconfig, set_kubeconfig, ensure, reuse, transformed,
  proxy_for, sshuttle_host_of, find_proxy, fetch, fetch_and_store, cached_kubeconfig,
  read_only_kubeconfig, resolve_target,
}
use capo_shell_mcp.Server.ReadOnly.{
  Keeps, Gives, bind-Gives, then-Keeps, lift-Keeps, outer-Gives, outer-Keeps, if-Keeps,
}
use capo_shell_mcp.Server.ReadOnly.Calls.{Issued, ReadOnlyCalls}

module _ {X C : Type 0} (out : Outside X C) (cfg : AppConfig) (P : X → Type 0)
    (calls : ReadOnlyCalls out P) where
  get_kubeconfig-Keeps : (key : String) → Keeps P (get_kubeconfig out cfg key)
  get_kubeconfig-Keeps key s p = (p, λ a h. tt)

  set_kubeconfig-Keeps :
      (key : String) (c : CachedKubeconfig) → Keeps P (set_kubeconfig out cfg key c)
  set_kubeconfig-Keeps key c s p = (p, λ a h. tt)

  ensure-Keeps : (t : ProxyTarget) → Keeps P (ensure out cfg t)
  ensure-Keeps t =
      outer-Keeps P
        (out.ensure_proxy t.api_server_ip t.api_server_port t.sshuttle_host
          (kubeconfig_ttl out cfg))
        (calls.proxy t.api_server_ip t.api_server_port t.sshuttle_host (kubeconfig_ttl out cfg))

  reuse-Keeps : (cached : CachedKubeconfig) → Keeps P (reuse out cfg cached)
  unfolding reuse
  reuse-Keeps cached =
      elim cached.proxy_target
        as (λ o. Keeps P (elim o [
          | none ↦ pure cached.kubeconfig
          | some t ↦ (do ensure out cfg t; pure cached.kubeconfig)
        ])) [
          | none ↦ lift-Keeps P (ok cached.kubeconfig)
          | some t ↦ then-Keeps P (ensure out cfg t) _ (ensure-Keeps t) (λ u. lift-Keeps P _)
        ]

  proxy_for-Keeps :
      (host : String) (info : Option (String × String)) → Keeps P (proxy_for out cfg host info)
  proxy_for-Keeps host none = lift-Keeps P (ok none)
  proxy_for-Keeps host (some (ip, port)) =
      let t : ProxyTarget = record {
        sshuttle_host = host;
        api_server_ip = ip;
        api_server_port = port;
      } in
      then-Keeps P (ensure out cfg t) _ (ensure-Keeps t) (λ u. lift-Keeps P _)

  find_proxy-Keeps :
      (clients : C) (host namespace name : String)
      → Keeps P (find_proxy out cfg clients host namespace name)
  unfolding find_proxy
  find_proxy-Keeps clients host namespace name =
      if-Keeps P (host == "") (pure none) _ (lift-Keeps P (ok none)) (
        then-Keeps P (outer (out.fetch_api_server_info clients namespace name)) _
          (outer-Keeps P (out.fetch_api_server_info clients namespace name)
            (calls.info clients namespace name))
          (λ info. proxy_for-Keeps host info))

  fetch-Keeps :
      (src : KubeconfigSource) (context namespace name : String)
      → Keeps P (fetch out cfg src context namespace name)
  unfolding fetch
  fetch-Keeps src context namespace name =
      then-Keeps P (outer (out.clients_for_context src context)) _
        (outer-Keeps P (out.clients_for_context src context) (calls.clients src context))
        (λ c.
          then-Keeps P (outer (out.fetch_workload_kubeconfig c namespace name)) _
            (outer-Keeps P (out.fetch_workload_kubeconfig c namespace name)
              (calls.workload c namespace name))
            (λ fetched.
              then-Keeps P (lift (transformed out cfg fetched)) _
                (lift-Keeps P (transformed out cfg fetched))
                (λ kc.
                  then-Keeps P (find_proxy out cfg c (sshuttle_host_of out cfg src) namespace name)
                    _ (find_proxy-Keeps c (sshuttle_host_of out cfg src) namespace name)
                    (λ proxy. lift-Keeps P _))))

  fetch_and_store-Keeps :
      (src : KubeconfigSource) (context namespace name : String)
      → Keeps P (fetch_and_store out cfg src context namespace name)
  unfolding fetch_and_store
  fetch_and_store-Keeps src context namespace name =
      then-Keeps P (fetch out cfg src context namespace name) _
        (fetch-Keeps src context namespace name)
        (λ entry.
          then-Keeps P
            (set_kubeconfig out cfg (kubeconfig_key src.name context namespace name) entry)
            (λ _. pure entry.kubeconfig)
            (set_kubeconfig-Keeps (kubeconfig_key src.name context namespace name) entry)
            (λ u. lift-Keeps P (ok entry.kubeconfig)))

  pub cached_kubeconfig-Keeps :
      (src : KubeconfigSource) (context namespace name : String)
      → Keeps P (cached_kubeconfig out cfg src context namespace name)
  unfolding cached_kubeconfig
  cached_kubeconfig-Keeps src context namespace name =
      then-Keeps P (get_kubeconfig out cfg (kubeconfig_key src.name context namespace name))
        (λ found. elim found [
          | some cached ↦ reuse out cfg cached
          | none ↦ fetch_and_store out cfg src context namespace name
        ])
        (get_kubeconfig-Keeps (kubeconfig_key src.name context namespace name))
        (λ found.
          elim found
            as (λ o. Keeps P (elim o [
              | some cached ↦ reuse out cfg cached
              | none ↦ fetch_and_store out cfg src context namespace name
            ])) [
              | some cached ↦ reuse-Keeps cached
              | none ↦ fetch_and_store-Keeps src context namespace name
            ])

  pub read_only_kubeconfig-Gives :
      (admin_kc : String) → Gives P (Issued out) (read_only_kubeconfig out cfg admin_kc)
  unfolding read_only_kubeconfig
  read_only_kubeconfig-Gives admin_kc =
      let n = token_seconds out cfg in
      bind-Gives P (Issued out) (outer (out.clients_from_readonly_source admin_kc)) _
        (outer-Gives P (λ c. (x : X) × ((out.clients_from_readonly_source admin_kc x).0 ≡ ok c))
          (out.clients_from_readonly_source admin_kc) (calls.readonly_clients admin_kc)
          (λ x c h. (x, h)))
        (λ c from.
          outer-Gives P (Issued out) (out.create_read_only_kubeconfig c admin_kc n)
            (calls.issue c admin_kc n) (λ y kc h. (admin_kc, c, n, from.0, y, from.1, h)))

  pub resolve_target-Keeps : (target : String) → Keeps P (resolve_target out cfg target)
  unfolding resolve_target
  resolve_target-Keeps target =
      then-Keeps P (lift (parse_target target))
        (λ fields. elim (lookup fields.0 cfg.kubeconfigs) [
          | none ↦ raise (unknown_kubeconfig fields.0)
          | some src ↦ cached_kubeconfig out cfg src fields.1 fields.2 fields.3
        ])
        (lift-Keeps P (parse_target target))
        (λ fields.
          elim (lookup fields.0 cfg.kubeconfigs)
            as (λ o. Keeps P (elim o [
              | none ↦ raise (unknown_kubeconfig fields.0)
              | some src ↦ cached_kubeconfig out cfg src fields.1 fields.2 fields.3
            ])) [
              | none ↦ lift-Keeps P (err (unknown_kubeconfig fields.0))
              | some src ↦ cached_kubeconfig-Keeps src fields.1 fields.2 fields.3
            ])
