-- ===== src/Capi/Resolve/State.antt =====
-- What ResolveClusterPatterns leaves of the state of its callback.
use capo_shell_mcp.Prelude.{
  String, Bool, true, false, List, Result, Result-cases, Bool-cases, inl, inr,
}
use capo_shell_mcp.Capi.Target.{CapiCluster}
use capo_shell_mcp.Capi.Pattern.{TargetPattern}
use capo_shell_mcp.Capi.Resolve.{
  needs_expansion, parse_patterns, resolve_parsed, resolve_loose, resolve_cluster_patterns,
}

module _ {S : Type 0} (list_known : S → Result (List CapiCluster) × S) (P : S → Type 0)
    (keeps : (s : S) → P s → P (list_known s).1) where
  resolve_parsed-keeps :
      (parsed : List TargetPattern) (s : S) → P s → P (resolve_parsed list_known parsed s).1
  unfolding resolve_parsed
  resolve_parsed-keeps parsed s p = elim (Bool-cases (needs_expansion parsed)) [
    | inl n ↦ rw (n, resolve_parsed) (keeps s p)
    | inr n ↦ rw (n, resolve_parsed) p
  ]

  resolve_loose-keeps :
      (patterns : List String) (s : S) → P s → P (resolve_loose list_known patterns s).1
  unfolding resolve_loose
  resolve_loose-keeps patterns s p = elim (Result-cases (parse_patterns patterns)) [
    | inr (e, i) ↦ rw (i, resolve_loose) p
    | inl (parsed, i) ↦ rw (i, resolve_loose) (resolve_parsed-keeps parsed s p)
  ]

  pub resolve_cluster_patterns-keeps :
      (patterns : List String) (strict : Bool) (s : S)
      → P s
      → P (resolve_cluster_patterns list_known patterns strict s).1
  unfolding resolve_cluster_patterns
  resolve_cluster_patterns-keeps patterns true s p = p
  resolve_cluster_patterns-keeps patterns false s p = resolve_loose-keeps patterns s p
