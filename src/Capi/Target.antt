-- ===== src/Capi/Target.antt =====
-- internal/capi/target.go, and `CAPICluster` of internal/capi/clusters.go
pub mod Laws
use capo_shell_mcp.Prelude.{
  String, List, [], ◌∷◌, Map, Result, ok, err, Error, invalid_target, join, split,
}

pub record CapiCluster : Type 0 where
  pub kubeconfig_name : String
  pub context : String
  pub namespace : String
  pub name : String
  pub custom_fields : Map String

-- The four fields of a target, in the order of the path.
abbrev pub path_fields : CapiCluster → List String
path_fields c = c.kubeconfig_name ∷ c.context ∷ c.namespace ∷ c.name ∷ []

unfoldable pub format_target : CapiCluster → String
format_target c = join "/" (path_fields c)

-- The `len(parts) != 4` test is the pattern.
four_parts : String → List String → Result (String × String × String × String)
four_parts target (a ∷ b ∷ c ∷ d ∷ []) = ok (a, b, c, d)
four_parts target _ = err (invalid_target target)

unfoldable pub parse_target : String → Result (String × String × String × String)
unfolding four_parts
parse_target target = four_parts target (split target)
