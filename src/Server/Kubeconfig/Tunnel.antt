-- ===== src/Server/Kubeconfig/Tunnel.antt =====
-- The tunnel of a cluster whose kubeconfig is given.
use capo_shell_mcp.Prelude.{
  ℤ, String, ◌≡◌, ◌⊎◌, inl, inr, refl, sym, ap, subst, ◌∙◌, Bool-cases, Option, none, some, ok, err,
  Option-cases, Result, ◌==◌, if◌then◌else◌,
}
use capo_shell_mcp.Capi.Store.{ProxyTarget, CachedKubeconfig}
use capo_shell_mcp.Config.Load.{AppConfig, KubeconfigSource}
use capo_shell_mcp.Action.{pure, follow, follow-ok, ◌>>=◌}
use capo_shell_mcp.Server.Outside.{Outside, State, outer}
use capo_shell_mcp.Server.Kubeconfig.{
  cached_kubeconfig, fetch_and_store, fetch, find_proxy, proxy_for, reuse, ensure, transformed,
  sshuttle_host_of, kubeconfig_ttl,
}
use capo_shell_mcp.Server.Kubeconfig.Laws.{read, after_read, stored, miss, hit}

-- What the tool server relies on: after a call that returns no error the tunnel is up.
pub record Ensures {X C : Type 0} (out : Outside X C) : Type 1 where
  pub IsUp : String → String → ℤ → X → Type 0
  pub ensured :
      (ip port host : String) (ttl : ℤ) (x : X)
      → (out.ensure_proxy ip port host ttl x).0 ≡ ok tt
      → IsUp ip port ttl (out.ensure_proxy ip port host ttl x).1

module _ {X C : Type 0} (out : Outside X C) (cfg : AppConfig) (e : Ensures out) where
  abbrev pub Tunnelled : Option ProxyTarget → X → Type 0
  Tunnelled none x = Unit
  Tunnelled (some t) x = e.IsUp t.api_server_ip t.api_server_port (kubeconfig_ttl out cfg) x

  -- A chain that ensures a proxy and then gives a value.
  ensure-Tunnelled :
      {A : Type 0} (t : ProxyTarget) (a : A) (s : State X) {b : A} {s' : State X}
      → (ensure out cfg t >>= λ _. pure a) s ≡ (ok b, s')
      → (a ≡ b) × Tunnelled (some t) s'.outside
  ensure-Tunnelled t a s h =
      let (u, i, rest) = follow-ok (λ _. pure a) (ensure out cfg t s) h in
      (
        cc (ap (λ r. r.0) rest),
        subst (λ w. Tunnelled (some t) w.outside) (ap (λ r. r.1) rest)
            (e.ensured _ _ _ _ s.outside i),
      )

  reuse-Tunnelled :
      (c : CachedKubeconfig) (p : Option ProxyTarget) (s : State X) {kc : String} {s' : State X}
      → c.proxy_target ≡ p
      → reuse out cfg c s ≡ (ok kc, s')
      → (c.kubeconfig ≡ kc) × Tunnelled p s'.outside
  unfolding reuse
  reuse-Tunnelled c none s i h = let h' = rw (i, reuse) at h in (cc (ap (λ r. r.0) h'), tt)
  reuse-Tunnelled c (some t) s i h = ensure-Tunnelled t c.kubeconfig s (rw (i, reuse) at h)

  proxy_for-Tunnelled :
      (host : String) (info : Option (String × String)) (s : State X) {p : Option ProxyTarget}
      {s' : State X}
      → proxy_for out cfg host info s ≡ (ok p, s')
      → Tunnelled p s'.outside
  proxy_for-Tunnelled host none s {p} {s'} h =
      subst (λ q. Tunnelled q s'.outside) {x = none} {y = p} (cc (ap (λ r. r.0) h)) tt
  proxy_for-Tunnelled host (some (ip, port)) s {p} {s'} h =
      let t : ProxyTarget = record {
        sshuttle_host = host;
        api_server_ip = ip;
        api_server_port = port;
      } in
      let (same, up) = ensure-Tunnelled t (some t) s h in
      subst (λ q. Tunnelled q s'.outside) same up

  find_proxy-Tunnelled :
      (clients : C) (host namespace name : String) (s : State X) {p : Option ProxyTarget}
      {s' : State X}
      → find_proxy out cfg clients host namespace name s ≡ (ok p, s')
      → Tunnelled p s'.outside
  unfolding find_proxy
  find_proxy-Tunnelled clients host namespace name s {p} {s'} h = elim (Bool-cases (host == "")) [
    | inl none_set ↦
        (let h' = rw (none_set, if◌then◌else◌) at h in
          subst (λ q. Tunnelled q s'.outside) {x = none} {y = p} (cc (ap (λ r. r.0) h')) tt)
    | inr some_set ↦
        (let h' = rw (some_set, if◌then◌else◌) at h in
          let (info, _, rest) =
            follow-ok (proxy_for out cfg host)
              (outer (out.fetch_api_server_info clients namespace name) s) h' in
          proxy_for-Tunnelled host info _ rest)
  ]

  entry-Tunnelled :
      (kc : String) (r : Result (Option ProxyTarget) × State X) {c : CachedKubeconfig}
      {s' : State X}
      → follow (λ proxy. pure (record { kubeconfig = kc; proxy_target = proxy })) r ≡ (ok c, s')
      → ((p : Option ProxyTarget) → r ≡ (ok p, s') → Tunnelled p s'.outside)
      → Tunnelled c.proxy_target s'.outside
  entry-Tunnelled kc (err x, w) h up = absurd (cc (ap (λ r. r.0) h))
  entry-Tunnelled kc (ok p, w) {c} {s'} h up =
      let entry : CachedKubeconfig = record { kubeconfig = kc; proxy_target = p } in
      let same : entry ≡ c = cc (ap (λ r. r.0) h) in
      subst (λ d. Tunnelled d.proxy_target s'.outside) same
        (up p (ap (λ v. (ok p, v)) (ap (λ r. r.1) h)))

  fetch-Tunnelled :
      (src : KubeconfigSource) (context namespace name : String) (s : State X)
      {c : CachedKubeconfig} {s' : State X}
      → fetch out cfg src context namespace name s ≡ (ok c, s')
      → Tunnelled c.proxy_target s'.outside
  unfolding fetch
  fetch-Tunnelled src context namespace name s {c} {s'} h =
      let (clients, _, h1) = follow-ok _ (outer (out.clients_for_context src context) s) h in
      let (fetched, _, h2) =
        follow-ok _ (outer (out.fetch_workload_kubeconfig clients namespace name) _) h1 in
      let (kc, _, h3) = follow-ok _ (transformed out cfg fetched, _) h2 in
      let host = sshuttle_host_of out cfg src in
      entry-Tunnelled kc (find_proxy out cfg clients host namespace name _) h3
        (λ p i. find_proxy-Tunnelled clients host namespace name _ i)

  module _ (src : KubeconfigSource) (context namespace name : String) where
    -- A kubeconfig that `cachedKubeconfig` gives, from the cache or anew, is of an entry that is now in
    -- the cache, and if that entry has a tunnel, the tunnel is up with the lifetime of kubeconfigs.
    pub cached_kubeconfig-Tunnelled :
        (s : State X) {kc : String} {s' : State X}
        → cached_kubeconfig out cfg src context namespace name s ≡ (ok kc, s')
        → (c : CachedKubeconfig) × (c.kubeconfig ≡ kc)
          × (((read out cfg src context namespace name s).0 ≡ some c)
              ⊎ ((u : State X) × (stored out cfg src context namespace name c u ≡ s')))
          × Tunnelled c.proxy_target s'.outside
    unfolding fetch_and_store
    cached_kubeconfig-Tunnelled s {kc} {s'} h =
        elim (Option-cases (read out cfg src context namespace name s).0) [
          | inl n ↦
              (let before = after_read out cfg src context namespace name s in
                let (c, i, rest) =
                  follow-ok _ (fetch out cfg src context namespace name before)
                    (sym (miss out cfg src context namespace name s n) ∙ h) in
                let u : State X = (fetch out cfg src context namespace name before).1 in
                let same : stored out cfg src context namespace name c u ≡ s' =
                  ap (λ r. r.1) rest in
                let up = fetch-Tunnelled src context namespace name before (ap (λ r. (r, u)) i) in
                (
                  c,
                  cc (ap (λ r. r.0) rest),
                  inr (u, same),
                  subst (λ w. Tunnelled c.proxy_target w.outside) same up,
                ))
          | inr (c, i) ↦
              (let (same, up) =
                  reuse-Tunnelled c c.proxy_target (after_read out cfg src context namespace name s)
                    refl (sym (hit out cfg src context namespace name s c i) ∙ h) in
                (c, same, inl i, up))
        ]
