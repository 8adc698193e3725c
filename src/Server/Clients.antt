-- ===== src/Server/Clients.antt =====
-- internal/server/clients.go. The dynamic and the typed client of client-go are given by the calls that
-- internal/capi makes of them.
use capo_shell_mcp.Prelude.{String, ◌⊕◌, Result, ok, ◌≡◌, ◌>>=◌, bind-ok}
use capo_shell_mcp.Action.{Action, noted, noted-ok, annotate, follow, lift}
use capo_shell_mcp.Config.Load.{KubeconfigSource}
use capo_shell_mcp.Capi.Clients.{Clients, DynamicClient, TypedClient}
use capo_shell_mcp.Capi.RestConfig.{Clientcmd, rest_config_for_context}

-- dynamic.NewForConfig and kubernetes.NewForConfig
pub record ClientGo (S Rest : Type 0) : Type 0 where
  pub new_dynamic : Rest → Result (DynamicClient S)
  pub new_typed : Rest → Result (TypedClient S)

-- A bundle of both clients.
abbrev pub clients_of : {S : Type 0} → DynamicClient S → TypedClient S → Clients S
clients_of dyn clientset = record {
  list_clusters = dyn.list_clusters;
  list_open_stack_clusters = dyn.list_open_stack_clusters;
  get_secret = clientset.get_secret;
  rbac = clientset.rbac;
  create_token = clientset.create_token;
}

module _ {S Raw Rest : Type 0} (clientcmd : Clientcmd Raw Rest) (client_go : ClientGo S Rest) where
  unfoldable pub clients_from_kubeconfig_bytes : String → String → Result (Clients S)
  unfolding rest_config_for_context
  clients_from_kubeconfig_bytes content context = do
    rest_cfg ←
        noted "server: building rest config" (rest_config_for_context clientcmd content context)
    dyn ← noted "server: building dynamic client" (client_go.new_dynamic rest_cfg)
    clientset ← noted "server: building typed client" (client_go.new_typed rest_cfg)
    ok (clients_of dyn clientset)

  unfoldable pub clients_from_kubeconfig_yaml : String → Result (Clients S)
  unfolding clients_from_kubeconfig_bytes
  clients_from_kubeconfig_yaml kubeconfig_yaml = clients_from_kubeconfig_bytes kubeconfig_yaml ""

  unfoldable pub real_clients_for_context :
      (String → Action S String) → KubeconfigSource → String → Action S (Clients S)
  unfolding clients_from_kubeconfig_bytes
  real_clients_for_context read_file src context s =
      follow (λ content. lift (clients_from_kubeconfig_bytes content context))
        (annotate ("server: reading kubeconfig " ⊕ src.path) (read_file src.path) s)

  -- The clients that are made are those of client-go for one configuration.
  pub clients_from_kubeconfig_bytes-ok :
      (content context : String) {clients : Clients S}
      → clients_from_kubeconfig_bytes content context ≡ ok clients
      → (rest_cfg : Rest) × (dyn : DynamicClient S) × (clientset : TypedClient S)
        × (rest_config_for_context clientcmd content context ≡ ok rest_cfg)
        × (client_go.new_dynamic rest_cfg ≡ ok dyn)
        × (client_go.new_typed rest_cfg ≡ ok clientset)
        × (clients_of dyn clientset ≡ clients)
  unfolding clients_from_kubeconfig_bytes
  clients_from_kubeconfig_bytes-ok content context h =
      let (rest_cfg, r, h2) = bind-ok _ _ h in
      let (dyn, d, h3) = bind-ok _ _ h2 in
      let (clientset, t, h4) = bind-ok _ _ h3 in
      (
        rest_cfg,
        dyn,
        clientset,
        noted-ok "server: building rest config" _ r,
        noted-ok "server: building dynamic client" _ d,
        noted-ok "server: building typed client" _ t,
        cc,
      )
