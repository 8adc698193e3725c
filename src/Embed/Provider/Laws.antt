-- ===== src/Embed/Provider/Laws.antt =====
-- The managers that a provider keeps.
use capo_shell_mcp.Prelude.{
  String, ◌≡◌, inl, inr, refl, sym, ap, subst, ◌∙◌, some, lookup, lookup-insert, eq_refl,
  Option-cases, ok, arith,
}
use capo_shell_mcp.Action.{follow-ok, noted, annotate}
use capo_shell_mcp.Embed.Provider.{
  TargetResolver, Managers, Provider, build_manager, manager_for_target, remember, beyond, resolved,
}

module _ {X R M K : Type 0} (resolver : TargetResolver X) (mgrs : Managers X R M K) where
  kept_with :
      (target : String) (others : Provider X M → Provider X M) (p : Provider X M) {mgr : M}
      → lookup target p.managers ≡ some mgr
      → manager_for_target resolver mgrs others target p ≡ (ok mgr, p)
  unfolding manager_for_target
  kept_with target others p h = rw (h, manager_for_target) refl

module _ {X R M K : Type 0} (resolver : TargetResolver X) (mgrs : Managers X R M K)
    (others : Provider X M → Provider X M) where
  remembered :
      (target : String) (m : M) (q : Provider X M) {mgr : M} {p' : Provider X M}
      → remember resolver mgrs others target m q ≡ (ok mgr, p')
      → lookup target p'.managers ≡ some mgr
  remembered target m q {mgr} h =
      let same : ok m ≡ ok mgr = ap (λ r. r.0) h in
      subst (λ w. lookup target w.managers ≡ some mgr) (ap (λ r. r.1) h)
        (ground (arith, lookup-insert target target m q.managers, eq_refl target, same))

  build_manager-stored :
      (target : String) (p : Provider X M) {mgr : M} {p' : Provider X M}
      → build_manager resolver mgrs others target p ≡ (ok mgr, p')
      → lookup target p'.managers ≡ some mgr
  unfolding build_manager
  build_manager-stored target p {mgr} h =
      let (yaml, _, h1) = follow-ok _ (beyond (resolved resolver mgrs others target) p) h in
      let (raw, _, h2) = follow-ok _ (noted _ (mgrs.load yaml), _) h1 in
      let (config, _, h3) = follow-ok _ (noted _ (mgrs.client_config raw), _) h2 in
      let (m, _, h4) = follow-ok _ (annotate _ (beyond (mgrs.new_manager config)) _) h3 in
      remembered target m _ h4

  manager_for_target-stored :
      (target : String) (p : Provider X M) {mgr : M} {p' : Provider X M}
      → manager_for_target resolver mgrs others target p ≡ (ok mgr, p')
      → lookup target p'.managers ≡ some mgr
  unfolding manager_for_target
  manager_for_target-stored target p {mgr} {p'} h = elim (Option-cases (lookup target p.managers)) [
    | inl n ↦ build_manager-stored target p (rw (n, manager_for_target) at h)
    | inr (m, i) ↦
        (let same = sym (kept_with resolver mgrs target others p i) ∙ h in
          let first : ok m ≡ ok mgr = ap (λ r. r.0) same in
          subst (λ w. lookup target w.managers ≡ some mgr) (ap (λ r. r.1) same) (cc))
  ]

  -- A manager that `managerForTarget` gives is stored under the target when it returns, whatever other goroutines
  -- did with the managers meanwhile. In every later state in which none of them has stored another
  -- one under the target, a call gives the same manager and calls nothing, neither ResolveTarget, which
  -- ensures the tunnel and reads the kubeconfig, nor anything else.
  pub manager_for_target-again :
      (target : String) (p : Provider X M) {mgr : M} {p' : Provider X M}
      → manager_for_target resolver mgrs others target p ≡ (ok mgr, p')
      → (later : Provider X M) → lookup target later.managers ≡ lookup target p'.managers
      → (others' : Provider X M → Provider X M)
      → (lookup target p'.managers ≡ some mgr)
        × (manager_for_target resolver mgrs others' target later ≡ (ok mgr, later))
  manager_for_target-again target p h later same others' =
      let stored = manager_for_target-stored target p h in
      (stored, kept_with resolver mgrs target others' later (same ∙ stored))
