-- ===== src/Capi/RestConfig.antt =====
-- internal/capi/kubeconfig.go. What clientcmd makes of a kubeconfig is a `Raw`, and a `*rest.Config` is
-- a `Rest`.
use capo_shell_mcp.Prelude.{String, List, sort_names, Result, ok, ◌>>=◌}

pub record Clientcmd (Raw Rest : Type 0) : Type 0 where
  pub load : String → Result Raw
  -- the keys of Contexts
  pub context_names : Raw → List String
  -- NewNonInteractiveClientConfig for a context, without overrides, and ClientConfig of it
  pub client_config : Raw → String → Result Rest

module _ {Raw Rest : Type 0} (clientcmd : Clientcmd Raw Rest) where
  unfoldable pub get_contexts : String → Result (List String)
  get_contexts kubeconfig_yaml = do
    raw ← clientcmd.load kubeconfig_yaml
    ok (sort_names (clientcmd.context_names raw))

  unfoldable pub rest_config_for_context : String → String → Result Rest
  rest_config_for_context kubeconfig_yaml context = do
    raw ← clientcmd.load kubeconfig_yaml
    clientcmd.client_config raw context
