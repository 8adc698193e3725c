-- ===== src/Server/Kubeconfig/Laws.antt =====
-- The cache of kubeconfigs between two calls, and after a call that fails.
use capo_shell_mcp.Prelude.{
  ℤ, ◌+ℤ◌, ◌≤ℤ◌, String, ◌≡◌, inl, inr, refl, sym, ap, subst, ◌∙◌, Option, none, some,
  lookup-insert, Error, Result, ok, err, Option-cases, eq_refl, arith, ◌==◌,
}
use capo_shell_mcp.Cache.{TtlCache, get, set}
use capo_shell_mcp.Capi.Store.{ProxyTarget, CachedKubeconfig, kubeconfig_key}
use capo_shell_mcp.Config.Load.{AppConfig, KubeconfigSource}
use capo_shell_mcp.Action.{pure, lift, follow, follow-ok, follow-err}
use capo_shell_mcp.Server.Outside.{Outside, State, outer}
use capo_shell_mcp.Server.Duration.{seconds}
use capo_shell_mcp.Server.Keeps.{Keeps, bind-Keeps, if-Keeps}
use capo_shell_mcp.Server.Kubeconfig.{
  cached_kubeconfig, fetch_and_store, fetch, find_proxy, proxy_for, reuse, ensure, transformed,
  sshuttle_host_of,
}

-- An entry that was set can be read until its lifetime has passed, and the read changes nothing.
pub get-set :
    {V : Type 0} (t t' : ℤ) (key : String) (v : V) (c : TtlCache V)
    → t' ≤ℤ t +ℤ c.ttl
    → get t' key (set t key v c) ≡ (some v, set t key v c)
unfolding get set
get-set t t' key v c h = ground (
  arith,
  lookup-insert key key (record { value = v; expires_at = t +ℤ c.ttl }) c.store,
  eq_refl key,
)

module _ {X C : Type 0} (out : Outside X C) (cfg : AppConfig) where
  proxy_for-Keeps :
      (host : String) (info : Option (String × String)) → Keeps (proxy_for out cfg host info)
  proxy_for-Keeps host none = λ s. refl
  proxy_for-Keeps host (some (ip, port)) =
      bind-Keeps (ensure out cfg _) (λ _. pure (some _)) (λ s. refl) (λ _ s. refl)

  find_proxy-Keeps :
      (clients : C) (host namespace name : String)
      → Keeps (find_proxy out cfg clients host namespace name)
  unfolding find_proxy
  find_proxy-Keeps clients host namespace name =
      if-Keeps (host == "") _ _ (λ s. refl)
        (bind-Keeps (outer (out.fetch_api_server_info clients namespace name))
          (proxy_for out cfg host) (λ s. refl) (proxy_for-Keeps host))

  fetch-Keeps :
      (src : KubeconfigSource) (context namespace name : String)
      → Keeps (fetch out cfg src context namespace name)
  unfolding fetch
  fetch-Keeps src context namespace name =
      bind-Keeps (outer (out.clients_for_context src context)) _ (λ s. refl)
        (λ clients.
          bind-Keeps (outer (out.fetch_workload_kubeconfig clients namespace name)) _ (λ s. refl)
            (λ fetched.
              bind-Keeps (lift (transformed out cfg fetched)) _ (λ s. refl)
                (λ kc.
                  bind-Keeps
                    (find_proxy out cfg clients (sshuttle_host_of out cfg src) namespace name) _
                    (find_proxy-Keeps clients (sshuttle_host_of out cfg src) namespace name)
                    (λ proxy s. refl))))

  reuse-Keeps : (c : CachedKubeconfig) → Keeps (reuse out cfg c)
  unfolding reuse
  reuse-Keeps c s = elim (Option-cases c.proxy_target) [
    | inl n ↦ rw (n, reuse) refl
    | inr (t, i) ↦
        rw (i, reuse)
          (bind-Keeps (ensure out cfg t) (λ _. pure c.kubeconfig) (λ s. refl) (λ _ s. refl) s)
  ]

  -- A kubeconfig, or the error of the call before it.
  abbrev pub kubeconfig_or_error : String → Result (Unit {0}) → Result String
  kubeconfig_or_error kc (ok _) = ok kc
  kubeconfig_or_error kc (err e) = err e

  -- A kubeconfig whose tunnel, if it has one, is ensured first, by one call of EnsureProxy for the API
  -- server and the host of the tunnel, with the lifetime of kubeconfigs.
  abbrev pub with_tunnel : String → Option ProxyTarget → State X → Result String × State X
  with_tunnel kc none s = (ok kc, s)
  with_tunnel kc (some t) s =
      let (r, x) =
        out.ensure_proxy t.api_server_ip t.api_server_port t.sshuttle_host
          (seconds cfg.cache.kubeconfig_ttl_seconds) s.outside in
      (kubeconfig_or_error kc r, record s { outside = x })

  follow-kubeconfig_or_error :
      (kc : String) (r : Result (Unit {0})) (s : State X)
      → follow (λ _. pure kc) (r, s) ≡ (kubeconfig_or_error kc r, s)
  follow-kubeconfig_or_error kc (ok _) s = refl
  follow-kubeconfig_or_error kc (err e) s = refl

  reuse-with_tunnel :
      (c : CachedKubeconfig) (s : State X)
      → reuse out cfg c s ≡ with_tunnel c.kubeconfig c.proxy_target s
  unfolding reuse
  reuse-with_tunnel c s = elim (Option-cases c.proxy_target) [
    | inl n ↦ rw (n, reuse) refl
    | inr (t, i) ↦
        (let done = ensure out cfg t s in
          rw (i, reuse) (follow-kubeconfig_or_error c.kubeconfig done.0 done.1))
  ]

  module _ (src : KubeconfigSource) (context namespace name : String) where
    -- The read that the call begins with.
    abbrev pub read : State X → Option CachedKubeconfig × TtlCache CachedKubeconfig
    read s =
        get (out.now s.outside) (kubeconfig_key src.name context namespace name) s.store.kubeconfig

    abbrev pub after_read : State X → State X
    after_read s = record s { store = record s.store { kubeconfig = (read s).1 } }

    abbrev pub stored : CachedKubeconfig → State X → State X
    stored c s = record s {
      store = record s.store {
        kubeconfig =
            set (out.now s.outside) (kubeconfig_key src.name context namespace name) c
              s.store.kubeconfig;
      };
    }

    pub miss :
        (s : State X)
        → (read s).0 ≡ none
        → cached_kubeconfig out cfg src context namespace name s
          ≡ fetch_and_store out cfg src context namespace name (after_read s)
    unfolding cached_kubeconfig
    miss s h = rw (h, cached_kubeconfig) refl

    pub hit :
        (s : State X) (c : CachedKubeconfig)
        → (read s).0 ≡ some c
        → cached_kubeconfig out cfg src context namespace name s ≡ reuse out cfg c (after_read s)
    unfolding cached_kubeconfig
    hit s c h = rw (h, cached_kubeconfig) refl

    hit-stored :
        (c : CachedKubeconfig) (s : State X) (x : X)
        → out.now x ≤ℤ out.now s.outside +ℤ s.store.kubeconfig.ttl
        → cached_kubeconfig out cfg src context namespace name (record (stored c s) { outside = x })
          ≡ reuse out cfg c (record (stored c s) { outside = x })
    hit-stored c s x t =
        let found =
          get-set (out.now s.outside) (out.now x) (kubeconfig_key src.name context namespace name) c
            s.store.kubeconfig t in
        hit (record (stored c s) { outside = x }) c (ap (λ r. r.0) found)
        ∙ ap
            (λ r.
              reuse out cfg c
                (record (stored c s) { outside = x; store = record s.store { kubeconfig = r.1 } }))
            found

    -- A call that finds nothing and succeeds has stored what it gives, with the tunnel that it found, at
    -- the time of the end of the call. Until the lifetime has passed, whatever happened outside since: a
    -- call gives the same kubeconfig without any other call outside, if it has no tunnel; if it has one,
    -- EnsureProxy is called once, for that tunnel, and the call gives its error if there is one, and
    -- otherwise the same kubeconfig. The caches stay as they are.
    pub cached_kubeconfig-again :
        (s : State X) {kc : String} {s' : State X}
        → (read s).0 ≡ none
        → cached_kubeconfig out cfg src context namespace name s ≡ (ok kc, s')
        → (x : X) → out.now x ≤ℤ out.now s'.outside +ℤ s'.store.kubeconfig.ttl
        → (c : CachedKubeconfig) × (c.kubeconfig ≡ kc)
          × ((fetch out cfg src context namespace name (after_read s)).0 ≡ ok c)
          × (cached_kubeconfig out cfg src context namespace name (record s' { outside = x })
              ≡ with_tunnel kc c.proxy_target (record s' { outside = x }))
    unfolding fetch_and_store set
    cached_kubeconfig-again s {kc} {s'} h g x t =
        let (c, first, rest) =
          follow-ok _ (fetch out cfg src context namespace name (after_read s))
            (sym (miss s h) ∙ g) in
        let u : State X = (fetch out cfg src context namespace name (after_read s)).1 in
        let same : stored c u ≡ s' = ap (λ r. r.1) rest in
        let gave : c.kubeconfig ≡ kc = cc (ap (λ r. r.0) rest) in
        (
          c,
          gave,
          first,
          subst
                (λ w.
                  out.now x ≤ℤ out.now w.outside +ℤ w.store.kubeconfig.ttl
                  → cached_kubeconfig out cfg src context namespace name (record w { outside = x })
                    ≡ reuse out cfg c (record w { outside = x }))
                same (hit-stored c u x) t
              ∙ reuse-with_tunnel c (record s' { outside = x })
              ∙ ap (λ k. with_tunnel k c.proxy_target (record s' { outside = x })) gave,
        )

    -- A call that fails has stored nothing: it leaves the list of clusters, and of the kubeconfigs at
    -- most the expired entry of its own key is gone, by the read.
    pub cached_kubeconfig-err :
        (s : State X) {e : Error}
        → (cached_kubeconfig out cfg src context namespace name s).0 ≡ err e
        → (cached_kubeconfig out cfg src context namespace name s).1.store
          ≡ record s.store { kubeconfig = (read s).1 }
    unfolding fetch_and_store
    cached_kubeconfig-err s h = elim (Option-cases (read s).0) [
      | inl n ↦
          (let failed =
              follow-err _ (fetch out cfg src context namespace name (after_read s))
                (sym (ap (λ r. r.0) (miss s n)) ∙ h) in
            elim failed [
              | inl (_, i) ↦
                  ap (λ r. r.1.store) (miss s n)
                  ∙ ap (λ w. w.store) i
                  ∙ fetch-Keeps src context namespace name (after_read s)
              | inr (c, i, _) ↦ absurd (cc i)
            ])
      | inr (c, i) ↦ ap (λ r. r.1.store) (hit s c i) ∙ reuse-Keeps c (after_read s)
    ]
