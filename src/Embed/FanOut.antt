-- ===== src/Embed/FanOut.antt =====
-- internal/embed/fanout.go. An error is a value; its text is taken not to be empty.
pub mod Laws
pub mod Interleaved
use capo_shell_mcp.Prelude.{
  ℕ, String, ◌⊕◌, Bool, true, false, not, ◌||◌, Option, none, some, List, [], ◌∷◌, ◌++◌, contains,
  Map, lookup, insert, delete, Result, Error, ok, err, wrap, ◌==◌, if◌then◌else◌,
}
use capo_shell_mcp.Action.{Action, follow, annotate, lift}
use capo_shell_mcp.FanOut.{fan_out, any_failed}
use capo_shell_mcp.Capi.Target.{CapiCluster, parse_target}
use capo_shell_mcp.Capi.Resolve.{resolve_cluster_patterns}
use capo_shell_mcp.Server.Tools.{CallToolResult, text_result, error_text, plain, json}
use capo_shell_mcp.Embed.Provider.{TargetResolver, target_parameter_name}
use capo_shell_mcp.Embed.Request.{
  Request, HandlerContent, text, other, HandlerResult, Handler, PerClusterToolResult, Json,
}

abbrev pub clusters_parameter_name : String
clusters_parameter_name = "clusters"

-- The part of a schema that the wrapper changes; `P` is the schema of a property.
pub record Schema (P : Type 0) : Type 0 where
  pub properties : Option (Map P)
  pub required : List String

-- make, or delete of the target parameter
abbrev kept_properties : {P : Type 0} → Option (Map P) → Map P
kept_properties none = []
kept_properties (some ps) = delete target_parameter_name ps

abbrev pub clusters_param_description : Bool → String
clusters_param_description true =
    "One or more cluster targets, each \"kubeconfig[/context[/namespace[/name]]]\" (from list_clusters' target field, or a shorter prefix to select every matching cluster). Omit entirely to run against every known cluster; an empty array runs against none."
clusters_param_description false =
    "One or more cluster targets, each the full \"kubeconfig/context/namespace/name\" path (from list_clusters' target field) — no partial/prefix matching for this tool. Required; an empty array runs against none."

-- `array_of_strings` is the schema of such a property, for a description.
unfoldable pub fan_out_schema : {P : Type 0} → (String → P) → Bool → Schema P → Schema P
fan_out_schema array_of_strings read_only schema = record {
  properties = some (
      insert clusters_parameter_name (array_of_strings (clusters_param_description read_only))
        (kept_properties schema.properties));
  required =
      if read_only then schema.required else (schema.required ++ clusters_parameter_name ∷ []);
}

abbrev pub error_result : String → CallToolResult
error_result msg = text_result (plain msg) true

-- Targets that do not parse are skipped.
unfoldable pub clusters_of_targets : List String → List CapiCluster
clusters_of_targets [] = []
clusters_of_targets (t ∷ ts) =
    let rest = clusters_of_targets ts in
    elim (parse_target t) [
      | err _ ↦ rest
      | ok (kubeconfig_name, context, namespace, name) ↦
          record {
            kubeconfig_name = kubeconfig_name;
            context = context;
            namespace = namespace;
            name = name;
            custom_fields = [];
          }
          ∷ rest
    ]

abbrev first_text : List HandlerContent → String
first_text [] = ""
first_text (text t ∷ cs) = t
first_text (other ∷ cs) = ""

abbrev pub tool_failed : PerClusterToolResult → Bool
tool_failed r = (elim r.error [ none ↦ false | some _ ↦ true ]) || r.is_error

abbrev pub zero_tool_result : PerClusterToolResult
zero_tool_result = record { cluster = ""; text = ""; is_error = false; error = none }

-- The result of one target, for what the handler returned.
abbrev per_cluster : String → Result HandlerResult → PerClusterToolResult
per_cluster target (ok r) = record {
  cluster = target;
  text = first_text r.content;
  is_error = r.is_error;
  error = none;
}
per_cluster target (err e) = record {
  cluster = target;
  text = "";
  is_error = false;
  error = some e;
}

abbrev pub answer : Bool → Result String → CallToolResult
answer failed (ok b) = text_result (json b) failed
answer failed (err e) = text_result (error_text e) true

abbrev args_or_none : Result (Map String) → Map String
args_or_none (ok args) = args
args_or_none (err _) = []

unfoldable pub list_known_clusters : {X : Type 0} → TargetResolver X → Action X (List CapiCluster)
unfolding clusters_of_targets
list_known_clusters resolver x =
    follow (λ targets. lift (ok (clusters_of_targets targets))) (resolver.list_targets x)

-- The arguments of the call for one target.
unfoldable pub synth_args : Json → Map String → String → Map String
synth_args js orig target =
    insert target_parameter_name (js.marshal_text target) (delete clusters_parameter_name orig)

module _ {E X : Type 0} (js : Json) (resolver : TargetResolver X) where
  -- `if len(req.Params.Arguments) > 0`
  unfoldable pub arguments_of : Request E → Result (Map String)
  arguments_of req = if req.arguments == "" then ok [] else js.unmarshal_args req.arguments

  unfoldable pub call_one_target :
      Handler E X → Request E → Map String → String → X → PerClusterToolResult × X
  unfolding synth_args
  call_one_target handler req orig target x = elim (js.marshal_args (synth_args js orig target)) [
    | err e ↦ (per_cluster target (err e), x)
    | ok raw ↦
        (let (r, x') = handler (record req { arguments = raw }) x in (per_cluster target r, x'))
  ]

  -- The order in which the goroutines for some targets run.
  module _ (schedule : List String → List (ℕ × String)) where
    -- The results of the fan-out, before they are rendered.
    unfoldable pub run_targets :
        Handler E X → Request E → List String → X → List PerClusterToolResult × X
    unfolding call_one_target fan_out
    run_targets handler req targets =
        fan_out (call_one_target handler req (args_or_none (arguments_of req))) zero_tool_result
          (schedule targets) targets

    unfoldable pub run_fan_out : Handler E X → Request E → List String → X → CallToolResult × X
    unfolding run_targets
    run_fan_out handler req targets x =
        let (results, x') = run_targets handler req targets x in
        (answer (any_failed tool_failed results) (js.marshal_results results), x')

    -- No `clusters`.
    unfoldable pub run_all : Handler E X → Bool → Request E → Action X CallToolResult
    unfolding run_fan_out
    run_all handler true req x =
        follow (λ all x'. let (r, x'') = run_fan_out handler req all x' in (ok r, x''))
          (resolver.list_targets x)
    run_all handler false req x = (ok (error_result "clusters is required"), x)

    unfoldable pub run_patterns :
        Handler E X → Bool → Request E → List String → Action X CallToolResult
    unfolding run_fan_out list_known_clusters
    run_patterns handler read_only req [] x =
        let (r, x') = run_fan_out handler req [] x in (ok r, x')
    run_patterns handler read_only req (p ∷ ps) x =
        if contains "" (p ∷ ps)
        then (ok (error_result "clusters entries must be non-empty strings"), x)
        else (let (resolved, x') =
              resolve_cluster_patterns (list_known_clusters resolver) (p ∷ ps) (not read_only) x in
            elim resolved [
              | err e ↦ (ok (text_result (error_text e) true), x')
              | ok targets ↦ (let (r, x'') = run_fan_out handler req targets x' in (ok r, x''))
            ])

    -- The branches on `args["clusters"]`.
    unfoldable pub run_clusters :
        Handler E X → Bool → Request E → Option String → Action X CallToolResult
    unfolding run_all run_patterns
    run_clusters handler read_only req none x = run_all handler read_only req x
    run_clusters handler read_only req (some raw) x = elim (js.unmarshal_strings raw) [
      | err _ ↦ (ok (error_result "clusters must be an array of strings"), x)
      | ok patterns ↦ run_patterns handler read_only req patterns x
    ]

    -- The handler that `wrapFanOut` returns.
    unfoldable pub wrapped : Handler E X → Bool → Request E → Action X CallToolResult
    unfolding run_clusters
    wrapped handler read_only req x = elim (arguments_of req) [
      | err e ↦ (err (wrap "embed: unmarshaling arguments" e), x)
      | ok args ↦ run_clusters handler read_only req (lookup clusters_parameter_name args) x
    ]
