-- ===== src/Capi/Tests.antt =====
-- Tests of internal/capi's targets and patterns on concrete inputs, and the theorems at them.
use capo_shell_mcp.Prelude.{
  ℕ, ◌+◌, String, true, false, ◌≡◌, ◌≢◌, refl, ap, ◌↔◌, inr, List, [], ◌∷◌, In, NoDup, NoSlash, All,
  arith, Result, ok, err, external, invalid_target, bad_cluster_entry, join, split, contains,
  eq_iff,
}
use capo_shell_mcp.Capi.Target.{CapiCluster, path_fields, format_target, parse_target}
use capo_shell_mcp.Capi.Target.Laws.{
  slashes, parse_target_iff, parse_target_err_iff, format_target_injective,
}
use capo_shell_mcp.Capi.Pattern.{
  TargetPattern, is_exact, parse_target_pattern, matches, expand_target_pattern,
}
use capo_shell_mcp.Capi.Pattern.Laws.{
  IsLeftFilled, IsPrefix, segments, parse_target_pattern_iff, matches_iff,
}
use capo_shell_mcp.Capi.Resolve.{resolve_cluster_patterns, dedupe_preserve_order}
use capo_shell_mcp.Capi.Resolve.Dedupe.{first_occurrences, dedupe-first_occurrences}
use capo_shell_mcp.Capi.Resolve.Select.{SelectedBy}
use capo_shell_mcp.Capi.Resolve.Laws.{
  resolve_loose_lem, resolve_loose_listing_fails, resolve_exact-state, resolve_strict-loose,
}
use capo_shell_mcp.Capi.Resolve.Strict.{resolve_strict_iff, resolve_strict_err}

abbrev cluster : String → String → CapiCluster
cluster context name = record {
  kubeconfig_name = "prod";
  context = context;
  namespace = "ns";
  name = name;
  custom_fields = [];
}

abbrev all : List CapiCluster
all = cluster "dev" "one" ∷ cluster "live" "two" ∷ []

abbrev listing : ℕ → Result (List CapiCluster) × ℕ
listing n = (ok all, n + 1)

abbrev failing : ℕ → Result (List CapiCluster) × ℕ
failing n = (err (external "no route"), n + 1)

abbrev dev_pattern : TargetPattern
dev_pattern = record { kubeconfig_name = "prod"; context = "dev"; namespace = ""; name = "" }

parse_full : parse_target "prod/dev/ns/one" ≡ ok ("prod", "dev", "ns", "one")
unfolding parse_target split
parse_full = refl

parse_short : parse_target "prod/dev" ≡ err (invalid_target "prod/dev")
unfolding parse_target split
parse_short = refl

-- A full path may have empty segments, a pattern may not.
parse_empty_segment : parse_target "prod//ns/one" ≡ ok ("prod", "", "ns", "one")
unfolding parse_target split
parse_empty_segment = refl

resolve_prefix :
    resolve_cluster_patterns listing ("prod/live" ∷ "prod" ∷ []) false 0
    ≡ (ok ("prod/live/ns/two" ∷ "prod/dev/ns/one" ∷ []), 1)
unfolding resolve_cluster_patterns parse_target_pattern matches expand_target_pattern parse_target
    is_exact format_target join split contains
resolve_prefix = refl

resolve_duplicate : dedupe_preserve_order ("b" ∷ "a" ∷ "b" ∷ []) ≡ "b" ∷ "a" ∷ []
unfolding dedupe_preserve_order
resolve_duplicate = refl

parse_target_iff_example : (parse_target "prod/dev/ns/one" ≡ ok ("prod", "dev", "ns", "one")) ↔ (
    (format_target (cluster "dev" "one") ≡ "prod/dev/ns/one")
    × All NoSlash (path_fields (cluster "dev" "one")))
parse_target_iff_example = parse_target_iff "prod/dev/ns/one" (cluster "dev" "one")

parse_target_err_iff_test :
    (parse_target "prod/dev" ≡ err (invalid_target "prod/dev")) ↔ (slashes "prod/dev" ≢ 3)
parse_target_err_iff_test = parse_target_err_iff "prod/dev"

same_target : format_target (cluster "dev" "one") ≡ format_target (cluster "dev" "one")
same_target = refl

format_target_injective_test :
    path_fields (cluster "dev" "one")
    ≡ path_fields (record {
      kubeconfig_name = "prod";
      context = "dev";
      namespace = "ns";
      name = "one";
      custom_fields = ("k", "v") ∷ [];
    })
unfolding format_target
format_target_injective_test =
    format_target_injective (cluster "dev" "one")
      (record {
        kubeconfig_name = "prod";
        context = "dev";
        namespace = "ns";
        name = "one";
        custom_fields = ("k", "v") ∷ [];
      })
      (ground arith) (ground arith) refl

parse_target_pattern_iff_example : (parse_target_pattern "prod/dev" ≡ ok dev_pattern) ↔ (
    IsLeftFilled dev_pattern
    × All NoSlash (segments dev_pattern)
    × (join "/" (segments dev_pattern) ≡ "prod/dev"))
parse_target_pattern_iff_example = parse_target_pattern_iff "prod/dev" dev_pattern

dev_pattern-IsLeftFilled : IsLeftFilled dev_pattern
dev_pattern-IsLeftFilled = ground (arith, eq_iff "prod" "", eq_iff "dev" "")

matches_iff_test :
    (matches dev_pattern (cluster "dev" "one") ≡ true)
    ↔ IsPrefix (segments dev_pattern) (path_fields (cluster "dev" "one"))
matches_iff_test = matches_iff dev_pattern (cluster "dev" "one") dev_pattern-IsLeftFilled

dedupe-first_occurrences_test :
    dedupe_preserve_order ("b" ∷ "a" ∷ "b" ∷ []) ≡ first_occurrences ("b" ∷ "a" ∷ "b" ∷ [])
dedupe-first_occurrences_test = dedupe-first_occurrences ("b" ∷ "a" ∷ "b" ∷ [])

resolve_loose_lem_example :
    NoDup ("prod/live/ns/two" ∷ "prod/dev/ns/one" ∷ [])
    × (In {A = String} "prod/dev/ns/one" ("prod/live/ns/two" ∷ "prod/dev/ns/one" ∷ [])
        ↔ SelectedBy all ("prod/live" ∷ "prod" ∷ []) "prod/dev/ns/one")
resolve_loose_lem_example =
    resolve_loose_lem listing ("prod/live" ∷ "prod" ∷ []) 0 "prod/dev/ns/one" refl
      (ap (λ r. r.0) resolve_prefix)

resolve_loose_listing_fails_test :
    resolve_cluster_patterns failing ("prod" ∷ []) false 0 ≡ (err (external "no route"), 1)
unfolding resolve_cluster_patterns parse_target_pattern is_exact split contains
resolve_loose_listing_fails_test =
    resolve_loose_listing_fails failing ("prod" ∷ []) _ 0 refl refl refl

resolve_exact-state_test : (resolve_cluster_patterns listing ("prod/dev/ns/one" ∷ []) false 0).1 ≡ 0
resolve_exact-state_test =
    resolve_exact-state listing ("prod/dev/ns/one" ∷ []) false 0 (inr (refl, tt))

resolve_strict-loose_test :
    resolve_cluster_patterns listing ("prod/dev/ns/one" ∷ []) true 0
    ≡ resolve_cluster_patterns listing ("prod/dev/ns/one" ∷ []) false 0
unfolding resolve_cluster_patterns parse_target_pattern is_exact format_target join split contains
resolve_strict-loose_test =
    resolve_strict-loose listing ("prod/dev/ns/one" ∷ []) 0 {out = "prod/dev/ns/one" ∷ []}
      (refl, tt) refl

resolve_strict_iff_test :
    ((resolve_cluster_patterns listing ("a/b/c/d" ∷ "a/b/c/d" ∷ []) true 0).0 ≡ ok ("a/b/c/d" ∷ []))
    ↔ (All (λ u. slashes u ≡ 3) ("a/b/c/d" ∷ "a/b/c/d" ∷ [])
        × (first_occurrences ("a/b/c/d" ∷ "a/b/c/d" ∷ []) ≡ "a/b/c/d" ∷ []))
resolve_strict_iff_test = resolve_strict_iff listing ("a/b/c/d" ∷ "a/b/c/d" ∷ []) 0 ("a/b/c/d" ∷ [])

resolve_strict_err_test :
    resolve_cluster_patterns listing ("a/b/c/d" ∷ "prod" ∷ []) true 0
    ≡ (err (bad_cluster_entry "prod" (invalid_target "prod")), 0)
resolve_strict_err_test =
    resolve_strict_err listing ("a/b/c/d" ∷ []) [] "prod" 0 (refl, tt) (omega arith)
