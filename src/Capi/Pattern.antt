-- ===== src/Capi/Pattern.antt =====
-- internal/capi/target_pattern.go
pub mod Laws
use capo_shell_mcp.Prelude.{
  ℕ, zero, suc, String, Bool, true, false, not, ◌&&◌, List, [], ◌∷◌, ◌==◌, ltb, length, contains,
  Result, ok, err, empty_target, too_many_segments, empty_segment, split, if◌then◌else◌,
}
use capo_shell_mcp.Capi.Target.{CapiCluster, format_target}

-- An empty field is a wildcard.
pub record TargetPattern : Type 0 where
  pub kubeconfig_name : String
  pub context : String
  pub namespace : String
  pub name : String

unfoldable pub is_exact : TargetPattern → Bool
is_exact p = not (p.context == "") && (not (p.namespace == "") && not (p.name == ""))

-- parts[i] under the test `len(parts) > i`, and the field's zero value otherwise.
abbrev segment : List String → ℕ → String
segment [] i = ""
segment (x ∷ xs) zero = x
segment (x ∷ xs) (suc i) = segment xs i

fill : List String → TargetPattern
fill parts = record {
  kubeconfig_name = segment parts 0;
  context = segment parts 1;
  namespace = segment parts 2;
  name = segment parts 3;
}

-- The tests after the call of `strings.Split`.
check_parts : String → List String → Result TargetPattern
unfolding fill contains
check_parts target parts =
    if ltb 4 (length parts)
    then err (too_many_segments target)
    else if contains "" parts
    then err (empty_segment target)
    else ok (fill parts)

unfoldable pub parse_target_pattern : String → Result TargetPattern
unfolding check_parts
parse_target_pattern target =
    if target == "" then err empty_target else check_parts target (split target)

-- Each `if` of the source returns false; `p.Context != "" && c.Context != p.Context` is a test.
unfoldable pub matches : TargetPattern → CapiCluster → Bool
matches p c =
    if not (c.kubeconfig_name == p.kubeconfig_name)
    then false
    else if not (p.context == "") && not (c.context == p.context)
    then false
    else if not (p.namespace == "") && not (c.namespace == p.namespace)
    then false
    else if not (p.name == "") && not (c.name == p.name)
    then false
    else true

unfoldable pub expand_target_pattern : TargetPattern → List CapiCluster → List String
expand_target_pattern p [] = []
expand_target_pattern p (c ∷ all) =
    let rest = expand_target_pattern p all in if matches p c then format_target c ∷ rest else rest
