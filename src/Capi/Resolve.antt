-- ===== src/Capi/Resolve.antt =====
-- internal/capi/resolve_patterns.go. `list_known` is the callback: it may fail, and it may change
-- the state `S` (the caches behind it).
pub mod Dedupe
pub mod Select
pub mod Laws
pub mod Strict
pub mod State
use capo_shell_mcp.Prelude.{
  String, Bool, true, false, not, ◌||◌, List, [], ◌∷◌, ◌++◌, contains, Result, ok, err,
  bad_cluster_entry, ◌>>=◌, ◌>>◌, if◌then◌else◌,
}
use capo_shell_mcp.Capi.Target.{CapiCluster, format_target, parse_target}
use capo_shell_mcp.Capi.Pattern.{
  TargetPattern, is_exact, parse_target_pattern, expand_target_pattern,
}

-- The variables `seen` and `out` of both loops.
pub record Collected : Type 0 where
  pub seen : List String
  pub out : List String

-- if !seen[t] { seen[t] = true; out = append(out, t) }
pub add : Collected → String → Collected
add c t = if contains t c.seen then c else record { seen = t ∷ c.seen; out = c.out ++ t ∷ [] }

pub add_all : Collected → List String → Collected
add_all c [] = c
add_all c (t ∷ ts) = add_all (add c t) ts

abbrev pub empty : Collected
empty = record { seen = []; out = [] }

unfoldable pub dedupe_preserve_order : List String → List String
unfolding add_all add contains
dedupe_preserve_order ts = (add_all empty ts).out

-- The loop of the strict case.
pub check_entries : List String → Result (Unit {0})
check_entries [] = ok tt
check_entries (p ∷ ps) = elim (parse_target p) [
  | ok _ ↦ check_entries ps
  | err e ↦ err (bad_cluster_entry p e)
]

-- The first loop of the other case, and its flag.
pub parse_patterns : List String → Result (List TargetPattern)
parse_patterns [] = ok []
parse_patterns (p ∷ ps) = do
  pattern ← parse_target_pattern p
  rest ← parse_patterns ps
  ok (pattern ∷ rest)

pub needs_expansion : List TargetPattern → Bool
needs_expansion [] = false
needs_expansion (p ∷ ps) = not (is_exact p) || needs_expansion ps

abbrev pub cluster_of : TargetPattern → CapiCluster
cluster_of p = record {
  kubeconfig_name = p.kubeconfig_name;
  context = p.context;
  namespace = p.namespace;
  name = p.name;
  custom_fields = [];
}

pub pattern_matches : List CapiCluster → TargetPattern → List String
pattern_matches known p =
    if is_exact p then format_target (cluster_of p) ∷ [] else expand_target_pattern p known

-- The last loop.
pub add_patterns : List CapiCluster → Collected → List TargetPattern → Collected
add_patterns known c [] = c
add_patterns known c (p ∷ ps) = add_patterns known (add_all c (pattern_matches known p)) ps

pub expand : List CapiCluster → List TargetPattern → List String
expand known ps = (add_patterns known empty ps).out

pub resolve_strict : List String → Result (List String)
resolve_strict patterns = do check_entries patterns; ok (dedupe_preserve_order patterns)

module _ {S : Type 0} (list_known : S → Result (List CapiCluster) × S) where
  -- From `if needsExpansion` on.
  pub resolve_parsed : List TargetPattern → S → Result (List String) × S
  resolve_parsed parsed s =
      if needs_expansion parsed
      then (let (known, s') = list_known s in ((known >>= λ k. ok (expand k parsed)), s'))
      else (ok (expand [] parsed), s)

  pub resolve_loose : List String → S → Result (List String) × S
  resolve_loose patterns s = elim (parse_patterns patterns) [
    | ok parsed ↦ resolve_parsed parsed s
    | err e ↦ (err e, s)
  ]

  unfoldable pub resolve_cluster_patterns : List String → Bool → S → Result (List String) × S
  unfolding resolve_strict resolve_loose resolve_parsed expand add_patterns pattern_matches
      needs_expansion parse_patterns check_entries dedupe_preserve_order
  resolve_cluster_patterns patterns strict s =
      if strict then (resolve_strict patterns, s) else resolve_loose patterns s
