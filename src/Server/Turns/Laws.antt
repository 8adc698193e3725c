-- ===== src/Server/Turns/Laws.antt =====
-- A goroutine that takes all of its turns at once does what the model of Server/Kubeconfig and
-- Server/Tools does.
use capo_shell_mcp.Prelude.{
  ◌≡◌, refl, sym, ◌∙◌, String, Bool, Option, none, some, List, [], ◌∷◌, Map, Result, ok, err,
  Result-cases, inl, inr, ◌==◌, wrap,
}
use capo_shell_mcp.Action.{follow, pure, lift, noted}
use capo_shell_mcp.Capi.Store.{ProxyTarget, CachedKubeconfig, kubeconfig_key}
use capo_shell_mcp.Config.Load.{AppConfig, KubeconfigSource}
use capo_shell_mcp.Exec.{Outcome, write_temp_kubeconfig, run_command, with_kubeconfig}
use capo_shell_mcp.FanOut.Interleaved.{done, run_whole}
use capo_shell_mcp.FanOut.Interleaved.Calls.{
  turn, and_then, Splits, turn-Splits, done-Splits, and_then-Splits, if-Splits,
}
use capo_shell_mcp.Server.Outside.{Outside, State, outer}
use capo_shell_mcp.Server.Kubeconfig.{
  token_seconds, get_kubeconfig, set_kubeconfig, ensure, transformed, sshuttle_host_of, reuse,
  proxy_for, find_proxy, fetch, fetch_and_store, cached_kubeconfig, read_only_kubeconfig,
}
use capo_shell_mcp.Server.Tools.{ClusterId, exec_in}
use capo_shell_mcp.Server.Turns.{
  reuse_turns, proxy_for_turns, find_proxy_turns, fetch_turns, fetch_and_store_turns,
  cached_kubeconfig_turns, read_only_kubeconfig_turns, executed, removed, with_kubeconfig_turns,
  exec_in_turns,
}

module _ {X C : Type 0} (out : Outside X C) (cfg : AppConfig) where
  reuse-Splits :
      (cached : CachedKubeconfig) → Splits (reuse_turns out cfg cached) (reuse out cfg cached)
  unfolding reuse_turns reuse
  reuse-Splits cached =
      elim cached.proxy_target
        as (λ o.
          Splits
            (elim o [
              | none ↦ done (ok cached.kubeconfig)
              | some t ↦ and_then (turn (ensure out cfg t)) (λ _. done (ok cached.kubeconfig))
            ])
            (elim o [
              | none ↦ pure cached.kubeconfig
              | some t ↦ (λ s. follow (λ _. pure cached.kubeconfig) (ensure out cfg t s))
            ])) [
              | none ↦ done-Splits (ok cached.kubeconfig)
              | some t ↦
                  and_then-Splits (turn (ensure out cfg t)) (ensure out cfg t) _ _
                    (turn-Splits (ensure out cfg t)) (λ u. done-Splits (ok cached.kubeconfig))
            ]

  proxy_for-Splits :
      (host : String) (info : Option (String × String))
      → Splits (proxy_for_turns out cfg host info) (proxy_for out cfg host info)
  proxy_for-Splits host none = done-Splits (ok none)
  proxy_for-Splits host (some (ip, port)) =
      let t : ProxyTarget = record {
        sshuttle_host = host;
        api_server_ip = ip;
        api_server_port = port;
      } in
      and_then-Splits (turn (ensure out cfg t)) (ensure out cfg t) (λ _. done (ok (some t)))
        (λ _. pure (some t)) (turn-Splits (ensure out cfg t)) (λ u. done-Splits (ok (some t)))

  find_proxy-Splits :
      (clients : C) (host namespace name : String)
      → Splits
          (find_proxy_turns out cfg clients host namespace name)
          (find_proxy out cfg clients host namespace name)
  unfolding find_proxy_turns find_proxy
  find_proxy-Splits clients host namespace name =
      let m = outer (out.fetch_api_server_info clients namespace name) in
      if-Splits (host == "") (done (ok none)) _ (pure none) _ (done-Splits (ok none)) (
        and_then-Splits (turn m) m (proxy_for_turns out cfg host)
          (λ info. proxy_for out cfg host info) (turn-Splits m) (proxy_for-Splits host))

  fetch-Splits :
      (src : KubeconfigSource) (context namespace name : String)
      → Splits
          (fetch_turns out cfg src context namespace name)
          (fetch out cfg src context namespace name)
  unfolding fetch_turns fetch
  fetch-Splits src context namespace name =
      let m = outer (out.clients_for_context src context) in
      and_then-Splits (turn m) m _ _ (turn-Splits m) (λ clients.
        let n = outer (out.fetch_workload_kubeconfig clients namespace name) in
        and_then-Splits (turn n) n _ _ (turn-Splits n) (λ fetched.
          and_then-Splits (done (transformed out cfg fetched)) (lift (transformed out cfg fetched))
            _ _ (done-Splits (transformed out cfg fetched))
            (λ kc.
              and_then-Splits
                (find_proxy_turns out cfg clients (sshuttle_host_of out cfg src) namespace name)
                (find_proxy out cfg clients (sshuttle_host_of out cfg src) namespace name)
                (λ proxy. done (ok (record { kubeconfig = kc; proxy_target = proxy })))
                (λ proxy. pure (record { kubeconfig = kc; proxy_target = proxy }))
                (find_proxy-Splits clients (sshuttle_host_of out cfg src) namespace name)
                (λ proxy. done-Splits (ok (record { kubeconfig = kc; proxy_target = proxy }))))))

  fetch_and_store-Splits :
      (src : KubeconfigSource) (context namespace name : String)
      → Splits
          (fetch_and_store_turns out cfg src context namespace name)
          (fetch_and_store out cfg src context namespace name)
  unfolding fetch_and_store_turns fetch_and_store
  fetch_and_store-Splits src context namespace name =
      and_then-Splits (fetch_turns out cfg src context namespace name)
        (fetch out cfg src context namespace name) _ _ (fetch-Splits src context namespace name)
        (λ entry.
          let m = set_kubeconfig out cfg (kubeconfig_key src.name context namespace name) entry in
          and_then-Splits (turn m) m (λ _. done (ok entry.kubeconfig)) (λ _. pure entry.kubeconfig)
            (turn-Splits m) (λ u. done-Splits (ok entry.kubeconfig)))

  pub cached_kubeconfig-Splits :
      (src : KubeconfigSource) (context namespace name : String)
      → Splits
          (cached_kubeconfig_turns out cfg src context namespace name)
          (cached_kubeconfig out cfg src context namespace name)
  unfolding cached_kubeconfig_turns cached_kubeconfig
  cached_kubeconfig-Splits src context namespace name =
      let m = get_kubeconfig out cfg (kubeconfig_key src.name context namespace name) in
      and_then-Splits (turn m) m
        (λ found. elim found [
          | some cached ↦ reuse_turns out cfg cached
          | none ↦ fetch_and_store_turns out cfg src context namespace name
        ])
        (λ found. elim found [
          | some cached ↦ reuse out cfg cached
          | none ↦ fetch_and_store out cfg src context namespace name
        ])
        (turn-Splits m)
        (λ found.
          elim found
            as (λ o.
              Splits
                (elim o [
                  | some cached ↦ reuse_turns out cfg cached
                  | none ↦ fetch_and_store_turns out cfg src context namespace name
                ])
                (elim o [
                  | some cached ↦ reuse out cfg cached
                  | none ↦ fetch_and_store out cfg src context namespace name
                ])) [
                  | some cached ↦ reuse-Splits cached
                  | none ↦ fetch_and_store-Splits src context namespace name
                ])

  read_only_kubeconfig-Splits :
      (admin_kc : String)
      → Splits (read_only_kubeconfig_turns out cfg admin_kc) (read_only_kubeconfig out cfg admin_kc)
  unfolding read_only_kubeconfig_turns read_only_kubeconfig
  read_only_kubeconfig-Splits admin_kc =
      let m = outer (out.clients_from_readonly_source admin_kc) in
      and_then-Splits (turn m) m _ _ (turn-Splits m) (λ clients.
        turn-Splits
          (outer (out.create_read_only_kubeconfig clients admin_kc (token_seconds out cfg))))

  -- What follows the file is written, for the result of that.
  after_write :
      String
      → List String
      → Map String
      → String
      → Result String × State X
      → Result Outcome × State X
  after_write command args os_env stdin (err e, s) =
      (err (wrap "exec: writing temp kubeconfig" e), s)
  after_write command args os_env stdin (ok path, s) =
      follow (removed out cfg path) (executed out cfg command args path os_env stdin s)

  turns_after :
      (kc command stdin : String) (os_env : Map String) (args : List String) (s : State X)
      (r : Result String × State X)
      → run_whole
          (and_then (done (noted "exec: writing temp kubeconfig" r.0)) (λ path.
            and_then
              (turn (executed out cfg command args path os_env stdin))
              (λ o. turn (removed out cfg path o))))
          r.1
        ≡ after_write command args os_env stdin r
  unfolding run_whole after_write
  turns_after kc command stdin os_env args s (ok path, t) = refl
  turns_after kc command stdin os_env args s (err e, t) = refl

  with_after :
      (kc command stdin : String) (os_env : Map String) (args : List String) (s : State X)
      → outer (with_kubeconfig out.system out.execer kc os_env (command ∷ args) stdin) s
        ≡ after_write command args os_env stdin (outer (write_temp_kubeconfig out.system kc) s)
  unfolding with_kubeconfig run_command after_write
  with_after kc command stdin os_env args s =
      elim (Result-cases (write_temp_kubeconfig out.system kc s.outside).0) [
        | inl (path, e) ↦ rw (e, with_kubeconfig, after_write) refl
        | inr (x, e) ↦ rw (e, with_kubeconfig, after_write) refl
      ]

  with_kubeconfig-Splits :
      (kc : String) (os_env : Map String) (command : List String) (stdin : String)
      → Splits
          (with_kubeconfig_turns out cfg kc os_env command stdin)
          (outer (with_kubeconfig out.system out.execer kc os_env command stdin))
  unfolding with_kubeconfig_turns with_kubeconfig run_whole
  with_kubeconfig-Splits kc os_env [] stdin s = refl
  with_kubeconfig-Splits kc os_env (command ∷ args) stdin s =
      turns_after kc command stdin os_env args s (outer (write_temp_kubeconfig out.system kc) s)
      ∙ sym (with_after kc command stdin os_env args s)

  -- The calls of execOneTarget, one turn for each, do what the model does that makes them at once.
  pub exec_in-Splits :
      (src : KubeconfigSource) (id : ClusterId) (command : List String) (stdin : String)
      (readonly : Bool)
      → Splits
          (exec_in_turns out cfg src id command stdin readonly)
          (exec_in out cfg src id command stdin readonly)
  unfolding exec_in_turns exec_in
  exec_in-Splits src id command stdin readonly =
      and_then-Splits (cached_kubeconfig_turns out cfg src id.context id.namespace id.name)
        (cached_kubeconfig out cfg src id.context id.namespace id.name) _ _
        (cached_kubeconfig-Splits src id.context id.namespace id.name)
        (λ kc.
          let m = outer (out.clients_for_context src id.context) in
          if-Splits readonly _ _ _ _
            (and_then-Splits (read_only_kubeconfig_turns out cfg kc)
              (read_only_kubeconfig out cfg kc) _ _ (read_only_kubeconfig-Splits kc)
              (λ ro_kc. with_kubeconfig-Splits ro_kc [] command stdin))
            (and_then-Splits (turn m) m _ _ (turn-Splits m) (λ clients.
              let n = outer (out.fetch_open_stack_env clients id.namespace id.name) in
              and_then-Splits (turn n) n _ _ (turn-Splits n)
                (λ os_env. with_kubeconfig-Splits kc os_env command stdin))))
