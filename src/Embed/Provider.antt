-- ===== src/Embed/Provider.antt =====
-- internal/embed/provider.go. A manager of kubernetes-mcp-server is a value of `M`, a derived client
-- one of `K`, and `R` is what clientcmd makes of a kubeconfig.
pub mod Laws
use capo_shell_mcp.Prelude.{
  String, ◌⊕◌, Bool, true, false, Option, none, some, List, [], ◌∷◌, Map, lookup, insert, Result,
  Error, ok, err, unknown_target,
}
use capo_shell_mcp.Action.{Action, pure, lift, annotate, follow, ◌>>=◌, ◌>>◌}

pub record TargetResolver (X : Type 0) : Type 0 where
  pub resolve_target : String → Action X String
  pub list_targets : Action X (List String)

-- The calls of clientcmd and of kubernetes-mcp-server.
pub record Managers (X R M K : Type 0) : Type 0 where
  pub load : String → Result R
  pub client_config : R → Result R
  pub new_manager : R → Action X M
  pub derived : M → Action X K
  pub close_manager : M → X → X

pub record Provider (X M : Type 0) : Type 0 where
  pub managers : Map M
  pub outside : X

abbrev pub is_multi_target : Bool
is_multi_target = true

abbrev pub default_target : String
default_target = ""

abbrev pub target_parameter_name : String
target_parameter_name = "cluster"

-- No discovery of the kinds that a target has, so all tools stay visible.
abbrev pub is_target_compatibility_tool_filters_enabled : Bool
is_target_compatibility_tool_filters_enabled = false

-- For a list of kinds, here of any type.
abbrev pub any_target_has_gvks : {K : Type 0} → List K → Bool
any_target_has_gvks kinds = true

abbrev pub new_capi_provider : {X M : Type 0} → X → Provider X M
new_capi_provider x = record { managers = []; outside = x }

-- There is nothing to watch.
abbrev pub watch_targets : {X M : Type 0} → Provider X M → Provider X M
watch_targets p = p

abbrev pub beyond : {X M A : Type 0} → Action X A → Action (Provider X M) A
beyond m p = let (r, x) = m p.outside in (r, record p { outside = x })

-- fmt.Errorf("%w: %s: %w", errUnknownTarget, target, err)
abbrev pub as_unknown : {A : Type 0} → String → Result A → Result A
as_unknown target (ok a) = ok a
as_unknown target (err e) = err (unknown_target target e)

-- `others` is what other goroutines do with the managers while this one does not hold the lock: the code
-- releases it between the lookup and the insertion.
module _ {X R M K : Type 0} (resolver : TargetResolver X) (mgrs : Managers X R M K)
    (others : Provider X M → Provider X M) where
  abbrev resolved : String → Action X String
  resolved target x = let (r, x') = resolver.resolve_target target x in (as_unknown target r, x')

  -- The second section under the lock.
  abbrev remember : String → M → Action (Provider X M) M
  remember target mgr p = (ok mgr, record p { managers = insert target mgr p.managers })

  abbrev remember_after : String → M → Action (Provider X M) M
  remember_after target mgr p = remember target mgr (others p)

  -- The calls for a target that has no manager.
  unfoldable pub build_manager : String → Action (Provider X M) M
  build_manager target = do
    kubeconfig_yaml ← beyond (resolved target)
    raw_config ←
        annotate ("embed: parsing kubeconfig for target " ⊕ target)
          (lift (mgrs.load kubeconfig_yaml))
    rest_config ←
        annotate ("embed: building rest config for target " ⊕ target)
          (lift (mgrs.client_config raw_config))
    mgr ←
        annotate ("embed: building manager for target " ⊕ target)
          (beyond (mgrs.new_manager rest_config))
    remember_after target mgr

  unfoldable pub manager_for_target : String → Action (Provider X M) M
  unfolding build_manager
  manager_for_target target p = elim (lookup target p.managers) [
    | some mgr ↦ (ok mgr, p)
    | none ↦ build_manager target p
  ]

  unfoldable pub get_derived_kubernetes : String → Action (Provider X M) K
  unfolding manager_for_target
  get_derived_kubernetes target = do mgr ← manager_for_target target; beyond (mgrs.derived mgr)

  unfoldable pub get_targets : Action (Provider X M) (List String)
  get_targets = beyond resolver.list_targets

  close_all : Map M → X → X
  close_all [] x = x
  close_all ((_, mgr) ∷ rest) x = close_all rest (mgrs.close_manager mgr x)

  unfoldable pub close : Provider X M → Provider X M
  unfolding close_all
  close p = record p { outside = close_all p.managers p.outside }
