-- ===== src/Embed/Tests.antt =====
-- Tests of the embedded toolsets on concrete requests.
use capo_shell_mcp.Prelude.{
  ℕ, ◌+◌, String, ◌≡◌, ◌↔◌, refl, subst, true, false, Bool, ◌==◌, if◌then◌else◌, Option, none, some,
  List, [], ◌∷◌, map, In, NoDup, lookup, insert, contains, Result, ok, err, external, split, join,
  arith,
}
use capo_shell_mcp.FanOut.{enumerate, any_failed}
use capo_shell_mcp.FanOut.Laws.{IsSchedule}
use capo_shell_mcp.Capi.Target.{parse_target, format_target}
use capo_shell_mcp.Capi.Target.Laws.{slashes}
use capo_shell_mcp.Capi.Pattern.{parse_target_pattern, is_exact, matches, expand_target_pattern}
use capo_shell_mcp.Capi.Resolve.{resolve_cluster_patterns}
use capo_shell_mcp.Capi.Resolve.Dedupe.{first_occurrences}
use capo_shell_mcp.Capi.Resolve.Select.{SelectedBy}
use capo_shell_mcp.Embed.Provider.{
  TargetResolver, Managers, Provider, manager_for_target, build_manager,
}
use capo_shell_mcp.Embed.Provider.Laws.{manager_for_target-again}
use capo_shell_mcp.Embed.Request.{Request, Handler, PerClusterToolResult, Json}
use capo_shell_mcp.Embed.FanOut.{
  tool_failed, answer, arguments_of, clusters_of_targets, list_known_clusters, synth_args, wrapped,
}
use capo_shell_mcp.Embed.FanOut.Laws.{synth_args-lookup}
use capo_shell_mcp.Embed.FanOut.Laws.Strict.{IsAccepted, wrapped-Idle, wrapped_strict_results}
use capo_shell_mcp.Embed.FanOut.Laws.ReadOnly.{wrapped_omitted, wrapped_patterns}
use capo_shell_mcp.Embed.Mount.{
  ServerTool, Mounted, as_is, fanned, Kmcp, mount_tools, mount_toolsets, mount_toolset,
}
use capo_shell_mcp.Embed.Mount.Laws.{mounted_name, Mounts, OfferedBy, mount_tools_lem}

-- The state counts the calls.
abbrev resolver : TargetResolver ℕ
resolver = record {
  resolve_target = λ target n. (ok target, n + 1);
  list_targets = λ n. (ok ("prod/dev/ns/one" ∷ "prod/live/ns/two" ∷ []), n + 1);
}

abbrev managers : Managers ℕ String String String
managers = record {
  load = λ kc. ok kc;
  client_config = λ raw. ok raw;
  new_manager = λ config n. (ok config, n + 1);
  derived = λ mgr n. (ok mgr, n);
  close_manager = λ mgr n. n + 1;
}

abbrev empty : Provider ℕ String
empty = record { managers = []; outside = 0 }

-- Another goroutine builds the manager of the same target meanwhile, and one of "b".
abbrev meanwhile : Provider ℕ String → Provider ℕ String
meanwhile p = record p { managers = ("b", "b") ∷ ("a", "other") ∷ p.managers }

abbrev later : Provider ℕ String
later = record { managers = ("c", "c") ∷ ("a", "a") ∷ []; outside = 7 }

manager_for_target-again_example :
    (lookup {V = String} "a" (("b", "b") ∷ ("a", "a") ∷ []) ≡ some "a")
    × (manager_for_target resolver managers (λ p. p) "a" later ≡ (ok "a", later))
unfolding manager_for_target build_manager lookup insert
manager_for_target-again_example =
    manager_for_target-again resolver managers meanwhile "a" empty refl later refl (λ p. p)

-- The arguments are `clusters`, as it stands, and `limit`.
abbrev json_of : List String → Json
json_of clusters = record {
  unmarshal_args = λ raw. ok (("clusters", raw) ∷ ("limit", "5") ∷ []);
  unmarshal_strings = λ raw. ok clusters;
  marshal_text = λ t. t;
  marshal_args = λ m. ok "arguments";
  marshal_results = λ rs. ok "results";
}

abbrev handler : Handler String ℕ
handler req n = (ok (record { content = []; is_error = false }), n + 1)

abbrev failing : Handler String ℕ
failing req n = (err (external "refused"), n + 1)

abbrev request : String → Request String
request arguments = record { extra = "session"; name = "pods_list"; arguments = arguments }

in_order : (ts : List String) → IsSchedule (enumerate 0 ts) ts
in_order ts = λ i t. (λ h. h, λ h. h)

synth_args-lookup_test :
    lookup "limit" (synth_args (json_of []) (("clusters", "x") ∷ ("limit", "5") ∷ []) "a/b/c/d")
    ≡ some "5"
unfolding lookup
synth_args-lookup_test =
    synth_args-lookup (json_of []) (("clusters", "x") ∷ ("limit", "5") ∷ []) "a/b/c/d" "limit"

short_refused :
    ¬ IsAccepted (json_of ("prod" ∷ [])) resolver (λ ts. enumerate 0 ts) in_order (request "all") 0
short_refused (p, ps, (args, raw, a, l, u, full)) =
    let e : p ≡ "prod" = cc in
    let three : 0 ≡ 3 = subst (λ t. slashes t ≡ 3) e full.0 in absurd (omega (arith, three))

wrapped-Idle_example :
    (wrapped (json_of ("prod" ∷ [])) resolver (λ ts. enumerate 0 ts) handler false (request "all") 0
      ≡ wrapped
          (json_of ("prod" ∷ []))
          resolver
          (λ ts. enumerate 0 ts)
          failing
          false
          (request "all")
          0)
    × ((wrapped
          (json_of ("prod" ∷ []))
          resolver
          (λ ts. enumerate 0 ts)
          handler
          false
          (request "all")
          0).1
        ≡ 0)
wrapped-Idle_example =
    wrapped-Idle (json_of ("prod" ∷ [])) resolver (λ ts. enumerate 0 ts) in_order (request "all") 0
      handler failing short_refused

abbrev two : List String
two = "a/b/c/d" ∷ "a/b/c/e" ∷ []

wrapped_strict_results_example :
    (results : List PerClusterToolResult) × (map (λ r. r.cluster) results ≡ first_occurrences two)
    × ((wrapped (json_of two) resolver (λ ts. enumerate 0 ts) failing false (request "all") 0).0
        ≡ ok (answer (any_failed tool_failed results) (ok "results")))
unfolding arguments_of lookup
wrapped_strict_results_example =
    wrapped_strict_results (json_of two) resolver (λ ts. enumerate 0 ts) in_order (request "all") 0
      failing "a/b/c/d" ("a/b/c/e" ∷ [])
      (("clusters", "all") ∷ ("limit", "5") ∷ [], "all", refl, refl, refl, (refl, (refl, tt)))

wrapped_omitted_test :
    (results : List PerClusterToolResult) × (map (λ r. r.cluster) results
      ≡ "prod/dev/ns/one" ∷ "prod/live/ns/two" ∷ [])
    × ((wrapped (json_of []) resolver (λ ts. enumerate 0 ts) handler true (request "") 0).0
        ≡ ok (answer (any_failed tool_failed results) (ok "results")))
unfolding arguments_of lookup
wrapped_omitted_test =
    wrapped_omitted (json_of []) resolver (λ ts. enumerate 0 ts) in_order handler (request "") 0
      refl {x' = 1} refl refl

wrapped_patterns_example :
    ((results : List PerClusterToolResult) × (map (λ r. r.cluster) results
        ≡ "prod/live/ns/two" ∷ [])
      × ((wrapped
            (json_of ("prod/live" ∷ []))
            resolver
            (λ ts. enumerate 0 ts)
            handler
            true
            (request "all")
            0).0
          ≡ ok (answer (any_failed tool_failed results) (ok "results"))))
    × NoDup ("prod/live/ns/two" ∷ [])
    × ((t : String)
        → In t ("prod/live/ns/two" ∷ [])
          ↔ SelectedBy
              (clusters_of_targets ("prod/dev/ns/one" ∷ "prod/live/ns/two" ∷ []))
              ("prod/live" ∷ [])
              t)
unfolding arguments_of lookup contains resolve_cluster_patterns list_known_clusters
    parse_target_pattern parse_target is_exact matches expand_target_pattern format_target join
    split
wrapped_patterns_example =
    wrapped_patterns (json_of ("prod/live" ∷ [])) resolver (λ ts. enumerate 0 ts) in_order handler
      (request "all") 0 refl {x' = 1} refl {raw = "all"} refl refl refl
      {out = "prod/live/ns/two" ∷ []} refl

abbrev tool : String → Option Bool → ServerTool
tool name hint = record {
  name = name;
  is_target_list_provider = false;
  is_cluster_aware = true;
  read_only_hint = hint;
}

abbrev by_name : ServerTool → Result String
by_name t = ok t.name

abbrev kmcp : Kmcp String String
kmcp = record {
  new_server = ok "handle";
  with_target_parameter = λ target name multi t. t;
  toolsets = (tool "pods_list" (some true) ∷ tool "pods_delete" none ∷ []) ∷ [];
  server_tool_to_go_sdk_tool = λ handle t. by_name t;
}

-- A server is a list of tools, the last one first.
abbrev Tools : Type 0
Tools = List (Mounted String)

abbrev find : String → Tools → Option (Mounted String)
find n [] = none
find n (m ∷ v) = if n == mounted_name (λ t. t) m then some m else find n v

abbrev add_tool : Mounted String → Tools → Tools
add_tool m v = m ∷ v

abbrev own : Tools
own = as_is "pods_delete" ∷ as_is "list_clusters" ∷ []

abbrev after_mount : Tools
after_mount = fanned "pods_delete" false ∷ fanned "pods_list" true ∷ own

mount_tools_lem_example :
    (handle : String) × (◌≡◌ {A = Result String} (ok "handle") (ok handle))
    × Mounts add_tool
        (λ t. t)
        find
        (λ m v n. refl)
        (λ t. t)
        by_name
        (OfferedBy add_tool (λ t. t) find (λ m v n. refl) (λ t. t) by_name kmcp.toolsets)
        own
        after_mount
unfolding mount_tools mount_toolsets mount_toolset
mount_tools_lem_example =
    mount_tools_lem kmcp add_tool (λ t. t) find (λ m v n. refl) own after_mount refl
