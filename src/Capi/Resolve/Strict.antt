-- ===== src/Capi/Resolve/Strict.antt =====
-- The strict case of `ResolveClusterPatterns`: full paths only.
use capo_shell_mcp.Prelude.{
  String, true, ◌≡◌, ◌≢◌, sym, ap, ◌∙◌, ◌↔◌, List, [], ◌∷◌, ◌++◌, All, length, arith, inl, inr,
  Result, Error, ok, err, bad_cluster_entry, invalid_target, Result-cases,
}
use capo_shell_mcp.Capi.Target.{CapiCluster, parse_target}
use capo_shell_mcp.Capi.Target.Laws.{
  slashes, length-split, parse_target-split, parse_target_err_iff, parse_target_of_slashes,
}
use capo_shell_mcp.Capi.Resolve.{
  resolve_cluster_patterns, resolve_strict, check_entries, dedupe_preserve_order,
}
use capo_shell_mcp.Capi.Resolve.Dedupe.{first_occurrences, dedupe-first_occurrences}
use capo_shell_mcp.Capi.Resolve.Laws.{check_entries_of_exact}

slashes_of_parse :
    (u : String) {a b c d : String} → parse_target u ≡ ok (a, b, c, d) → slashes u ≡ 3
slashes_of_parse u h = omega (arith, length-split u, ap length (parse_target-split u _ _ _ _ h))

check_entries-ok : (us : List String) → check_entries us ≡ ok tt → All (λ u. slashes u ≡ 3) us
unfolding check_entries
check_entries-ok [] h = tt
check_entries-ok (u ∷ us) h = elim (Result-cases (parse_target u)) [
  | inl ((a, b, c, d), e) ↦ (slashes_of_parse u e, check_entries-ok us (rw (e, check_entries) at h))
  | inr (x, e) ↦ (let h' = rw (e, check_entries) at h in cc)
]

-- The error of the first entry that is not a full path.
check_entries-err :
    (us vs : List String) (u : String)
    → All (λ v. slashes v ≡ 3) us
    → slashes u ≢ 3
    → check_entries (us ++ u ∷ vs) ≡ err (bad_cluster_entry u (invalid_target u))
unfolding check_entries
check_entries-err [] vs u h n = rw ((parse_target_err_iff u).1 n, check_entries)
check_entries-err (v ∷ us) vs u h n =
    let (a, b, c, d, e) = parse_target_of_slashes v h.0 in
    rw (e, check_entries) (check_entries-err us vs u h.1 n)

strict_result :
    (us : List String) {u : Unit {0}} {out : List String}
    → check_entries us ≡ ok u
    → resolve_strict us ≡ ok out
    → dedupe_preserve_order us ≡ out
unfolding resolve_strict
strict_result us e h = ground arith

strict_error : (us : List String) {e : Error} → check_entries us ≡ err e → resolve_strict us ≡ err e
unfolding resolve_strict
strict_error us h = rw h

module _ {S : Type 0} (list_known : S → Result (List CapiCluster) × S) where
  -- A strict call succeeds exactly when every entry has three slashes, and then gives the first
  -- occurrences of the entries, in their order.
  pub resolve_strict_iff :
      (us : List String) (s : S) (out : List String)
      → ((resolve_cluster_patterns list_known us true s).0 ≡ ok out)
        ↔ (All (λ u. slashes u ≡ 3) us × (first_occurrences us ≡ out))
  unfolding resolve_cluster_patterns resolve_strict
  resolve_strict_iff us s out = (
    λ h. elim (Result-cases (check_entries us)) [
      | inl (tt', e) ↦
          (check_entries-ok us e, sym (dedupe-first_occurrences us) ∙ strict_result us e h)
      | inr (x, e) ↦ cc (strict_error us e, h)
    ],
    λ h. rw (check_entries_of_exact us h.0) (ap ok (dedupe-first_occurrences us ∙ h.1)),
  )

  -- A strict call fails on the first entry without three slashes, with an error that names it, and
  -- changes no state.
  pub resolve_strict_err :
      (us vs : List String) (u : String) (s : S)
      → All (λ v. slashes v ≡ 3) us
      → slashes u ≢ 3
      → resolve_cluster_patterns list_known (us ++ u ∷ vs) true s
        ≡ (err (bad_cluster_entry u (invalid_target u)), s)
  unfolding resolve_cluster_patterns resolve_strict
  resolve_strict_err us vs u s h n = rw (check_entries-err us vs u h n)
