-- ===== src/Server/Wiring/Laws.antt =====
-- The tool server with internal/capi and internal/proxy behind it.
use capo_shell_mcp.Prelude.{ℤ, String, ◌≡◌, ◌⊎◌, Bool, true, false, some, ok}
use capo_shell_mcp.Capi.Store.{CachedKubeconfig}
use capo_shell_mcp.Config.Load.{AppConfig, KubeconfigSource}
use capo_shell_mcp.Capi.Clients.{TypedClient}
use capo_shell_mcp.Capi.ReadOnly.{
  read_only_sa_name, read_only_namespace, read_only_cluster_role, read_only_cluster_role_binding,
}
use capo_shell_mcp.Capi.ReadOnly.Laws
use capo_shell_mcp.Proxy.Process.{Manager}
use capo_shell_mcp.Proxy.Systemd.Laws.{Documented}
use capo_shell_mcp.Capi.RestConfig.{rest_config_for_context}
use capo_shell_mcp.Proxy.Systemd.{unit_name, seconds_text}
use capo_shell_mcp.Proxy.Dispatch.{spawn_args, ensure_proxy}
use capo_shell_mcp.Proxy.Dispatch.Laws.{ensure_proxy-active}
use capo_shell_mcp.Server.Outside.{State}
use capo_shell_mcp.Server.Kubeconfig.{cached_kubeconfig}
use capo_shell_mcp.Server.Kubeconfig.Laws.{read, stored}
use capo_shell_mcp.Server.Kubeconfig.Tunnel.{Ensures, Tunnelled, cached_kubeconfig-Tunnelled}
use capo_shell_mcp.Server.Wiring.{Machine, wired}

-- `EnsureProxy` with the mode of the machine, systemd.
pub wired-active :
    {S Query Code Raw Rest : Type 0} (machine : Machine S Query Code Raw Rest)
    (d : Documented machine.execer) (b : Bool)
    → b ≡ true
    → (ip port host : String) (ttl : ℤ) (w : Manager × S)
    → (ensure_proxy machine.execer machine.others b ip port host ttl
        (machine.startup_of (spawn_args host ip port) w.1)
        w).0
      ≡ ok tt
    → d.runtime_of
        (unit_name ip port)
        (ensure_proxy machine.execer machine.others b ip port host ttl
          (machine.startup_of (spawn_args host ip port) w.1)
          w).1.1
      ≡ some (seconds_text ttl)
wired-active machine d false e ip port host ttl w h = cc
wired-active machine d true e ip port host ttl w h =
    (ensure_proxy-active machine.execer d machine.others ip port host ttl _ w.0 w.1 h).0

module _ {S Query Code Raw Rest : Type 0} (machine : Machine S Query Code Raw Rest)
    (d : Documented machine.execer) (managed : machine.under_systemd ≡ true) where
  -- The tunnel is an active unit with the lifetime.
  abbrev pub wired-Ensures : Ensures (wired machine)
  unfolding wired
  wired-Ensures = record {
    IsUp = λ ip port ttl w. d.runtime_of (unit_name ip port) w.1 ≡ some (seconds_text ttl);
    ensured = λ ip port host ttl w h.
        wired-active machine d machine.under_systemd managed ip port host ttl w h;
  }

  module _ (cfg : AppConfig) (src : KubeconfigSource) (context namespace name : String) where
    -- For a daemon that runs under systemd, and a systemd that does what the commands are documented to do: a
    -- kubeconfig that `cachedKubeconfig` gives is of an entry that was in the cache or is stored by the call,
    -- and if the entry has a proxy, the tunnel of its API server is an active unit after the call, with
    -- the lifetime of kubeconfigs.
    pub cached_kubeconfig-IsUp :
        (s : State (Manager × S)) {kc : String} {s' : State (Manager × S)}
        → cached_kubeconfig (wired machine) cfg src context namespace name s ≡ (ok kc, s')
        → (c : CachedKubeconfig) × (c.kubeconfig ≡ kc)
          × (((read (wired machine) cfg src context namespace name s).0 ≡ some c)
              ⊎ ((u : State (Manager × S)) × (stored
                      (wired machine)
                      cfg
                      src
                      context
                      namespace
                      name
                      c
                      u
                    ≡ s')))
          × Tunnelled (wired machine) cfg wired-Ensures c.proxy_target s'.outside
    cached_kubeconfig-IsUp s h =
        cached_kubeconfig-Tunnelled (wired machine) cfg wired-Ensures src context namespace name s h

-- A token that was asked for while the account had exactly the read-only rights.
abbrev pub IsReadOnlyToken :
    {S : Type 0} (clientset : TypedClient S)
    → Laws.Documented clientset.rbac
    → ℤ
    → String
    → S
    → S
    → Type 0
IsReadOnlyToken clientset promises n status u u' =
    promises.HasAccount u
    × (promises.role_of u ≡ some read_only_cluster_role)
    × (promises.binding_of u ≡ some read_only_cluster_role_binding)
    × (clientset.create_token read_only_namespace read_only_sa_name n u ≡ (ok status, u'))

module _ {S Query Code Raw Rest : Type 0} (machine : Machine S Query Code Raw Rest)
    (promised : (rest_cfg : Rest) (clientset : TypedClient S)
      → machine.client_go.new_typed rest_cfg ≡ ok clientset
      → Laws.Documented clientset.rbac) where
  -- The typed client that client-go makes for the admin kubeconfig, with what its API promises.
  abbrev pub AdminClient : String → ((c : TypedClient S) → Laws.Documented c.rbac → Type 0) → Type 0
  AdminClient admin_kc P =
      (rest_cfg : Rest) × (clientset : TypedClient S) × (rest_config_for_context machine.clientcmd
          admin_kc ""
        ≡ ok rest_cfg)
      × ((made : machine.client_go.new_typed rest_cfg ≡ ok clientset) × P clientset
            (promised rest_cfg clientset made))
