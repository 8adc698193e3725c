-- ===== src/Capi/Resolve/Laws.antt =====
-- What `ResolveClusterPatterns` returns, on success and on failure.
use capo_shell_mcp.Prelude.{
  String, Bool, true, false, ◌≡◌, refl, sym, ap, ap₂, ◌∙◌, ◌↔◌, ◌⊎◌, inl, inr, List, [], ◌∷◌, ◌++◌,
  In, In-append, In-append_left, In-append_right, NoDup, All, contains, Bool-cases, arith, Result,
  Error, ok, err, bind-ok, Result-cases,
}
use capo_shell_mcp.Capi.Target.{CapiCluster, format_target}
use capo_shell_mcp.Capi.Target.Laws.{slashes, parse_target_of_slashes}
use capo_shell_mcp.Capi.Pattern.{TargetPattern, parse_target_pattern}
use capo_shell_mcp.Capi.Pattern.Laws.{is_exact_of_parse, parse_target_pattern-split}
use capo_shell_mcp.Capi.Resolve.{
  Collected, add, add_all, empty, cluster_of, parse_patterns, needs_expansion, pattern_matches,
  add_patterns, expand, resolve_parsed, resolve_loose, resolve_cluster_patterns, resolve_strict,
  check_entries, dedupe_preserve_order,
}
use capo_shell_mcp.Capi.Resolve.Dedupe.{fresh, add_all-fresh, In-fresh, fresh-NoDup, dedupe-fresh}
use capo_shell_mcp.Capi.Resolve.Select.{
  Selects, SelectedBy, format_target-cluster_of, pattern_matches-Selects,
}

abbrev all_matches : List CapiCluster → List TargetPattern → List String
all_matches known [] = []
all_matches known (p ∷ ps) = pattern_matches known p ++ all_matches known ps

add_all-append :
    (c : Collected) (xs ys : List String) → add_all c (xs ++ ys) ≡ add_all (add_all c xs) ys
unfolding add_all
add_all-append c [] ys = refl
add_all-append c (x ∷ xs) ys = add_all-append (add c x) xs ys

-- The nested loops are one loop over all matches.
add_patterns-add_all :
    (known : List CapiCluster) (c : Collected) (ps : List TargetPattern)
    → add_patterns known c ps ≡ add_all c (all_matches known ps)
unfolding add_patterns
add_patterns-add_all known c [] = unfold add_all in refl
add_patterns-add_all known c (p ∷ ps) =
    add_patterns-add_all known (add_all c (pattern_matches known p)) ps
    ∙ sym (add_all-append c (pattern_matches known p) (all_matches known ps))

expand-fresh :
    (known : List CapiCluster) (ps : List TargetPattern)
    → expand known ps ≡ fresh [] (all_matches known ps)
unfolding expand
expand-fresh known ps =
    ap (λ (c : Collected). c.out) (add_patterns-add_all known empty ps) ∙ add_all-fresh [] [] _

parse_patterns-cons :
    (u : String) (us : List String) (ps : List TargetPattern)
    → parse_patterns (u ∷ us) ≡ ok ps
    → (p : TargetPattern) × (rest : List TargetPattern) × (parse_target_pattern u ≡ ok p)
      × (parse_patterns us ≡ ok rest)
      × (ps ≡ p ∷ rest)
unfolding parse_patterns
parse_patterns-cons u us ps h =
    let (p, e, h') = bind-ok _ (parse_target_pattern u) h in
    let (rest, e', h'') = bind-ok _ (parse_patterns us) h' in (p, rest, e, e', cc)

parse_patterns-nil : (ps : List TargetPattern) → parse_patterns [] ≡ ok ps → ps ≡ []
unfolding parse_patterns
parse_patterns-nil ps h = cc

SelectedBy-cons :
    (known : List CapiCluster) (u : String) (us : List String) (t : String)
    → SelectedBy known (u ∷ us) t
    → Selects known u t ⊎ SelectedBy known us t
SelectedBy-cons known u us t (v, inl e, s) = inl (rw (← e) s)
SelectedBy-cons known u us t (v, inr i, s) = inr (v, i, s)

In-all_matches :
    (known : List CapiCluster) (us : List String) (ps : List TargetPattern) (t : String)
    → parse_patterns us ≡ ok ps
    → In t (all_matches known ps) ↔ SelectedBy known us t
In-all_matches known [] ps t h = rw (parse_patterns-nil ps h) (λ x. absurd x, λ x. absurd (x.1))
In-all_matches known (u ∷ us) ps t h =
    let (p, rest, e, e', z) = parse_patterns-cons u us ps h in
    let (to, from) = In-all_matches known us rest t e' in
    let (here, there) = pattern_matches-Selects known u p t e in
    rw z (
      λ x. elim (In-append t _ _ x) [
        | inl l ↦ (u, inl refl, here l)
        | inr r ↦ (let (v, i, s) = to r in (v, inr i, s))
      ],
      λ x. elim (SelectedBy-cons known u us t x) [
        | inl s ↦ In-append_left t _ _ (there s)
        | inr r ↦ In-append_right t _ _ (from r)
      ],
    )

In-expand-SelectedBy :
    (known : List CapiCluster) (us : List String) (ps : List TargetPattern) (t : String)
    → parse_patterns us ≡ ok ps
    → In t (expand known ps) ↔ SelectedBy known us t
In-expand-SelectedBy known us ps t h =
    let (to, from) = In-all_matches known us ps t h in
    rw (expand-fresh known ps) (
      λ x. to ((In-fresh t [] _).0 x).1,
      λ x. (In-fresh t [] (all_matches known ps)).1 (unfold contains in refl, from x),
    )

expand-NoDup : (known : List CapiCluster) (ps : List TargetPattern) → NoDup (expand known ps)
expand-NoDup known ps = rw (expand-fresh known ps) (fresh-NoDup [] (all_matches known ps))

-- Without a pattern to expand, the known clusters do not matter.
expand_of_exact :
    (known : List CapiCluster) (c : Collected) (ps : List TargetPattern)
    → needs_expansion ps ≡ false
    → add_patterns known c ps ≡ add_patterns [] c ps
unfolding needs_expansion add_patterns pattern_matches
expand_of_exact known c [] h = refl
expand_of_exact known c (p ∷ ps) h =
    ground (arith, expand_of_exact known (add_all c (format_target (cluster_of p) ∷ [])) ps)

needs_expansion_of_exact :
    (us : List String) (ps : List TargetPattern)
    → All (λ u. slashes u ≡ 3) us
    → parse_patterns us ≡ ok ps
    → needs_expansion ps ≡ false
unfolding needs_expansion
needs_expansion_of_exact [] ps h e = rw (parse_patterns-nil ps e)
needs_expansion_of_exact (u ∷ us) ps h e =
    let (p, rest, e0, e1, z) = parse_patterns-cons u us ps e in
    rw (z, (is_exact_of_parse u p e0).1 h.0) (needs_expansion_of_exact us rest h.1 e1)

pub check_entries_of_exact :
    (us : List String) → All (λ u. slashes u ≡ 3) us → check_entries us ≡ ok tt
unfolding check_entries
check_entries_of_exact [] h = refl
check_entries_of_exact (u ∷ us) h =
    let (a, b, c, d, e) = parse_target_of_slashes u h.0 in
    rw (e, check_entries) (check_entries_of_exact us h.1)

all_matches_of_exact :
    (us : List String) (ps : List TargetPattern)
    → All (λ u. slashes u ≡ 3) us
    → parse_patterns us ≡ ok ps
    → all_matches [] ps ≡ us
unfolding pattern_matches
all_matches_of_exact [] ps h e = rw (parse_patterns-nil ps e)
all_matches_of_exact (u ∷ us) ps h e =
    let (p, rest, e0, e1, z) = parse_patterns-cons u us ps e in
    let x = (is_exact_of_parse u p e0).1 h.0 in
    let (filled, same) = parse_target_pattern-split u p e0 in
    rw (z, x) (ap₂ ◌∷◌ (format_target-cluster_of u p same x) (all_matches_of_exact us rest h.1 e1))

expand-dedupe :
    (us : List String) (ps : List TargetPattern)
    → All (λ u. slashes u ≡ 3) us
    → parse_patterns us ≡ ok ps
    → expand [] ps ≡ dedupe_preserve_order us
expand-dedupe us ps h e =
    expand-fresh [] ps ∙ ap (fresh []) (all_matches_of_exact us ps h e) ∙ sym (dedupe-fresh us)

module _ {S : Type 0} (list_known : S → Result (List CapiCluster) × S) where
  resolve_parsed-ok :
      (ps : List TargetPattern) (s : S) {known : List CapiCluster} {out : List String}
      → (list_known s).0 ≡ ok known
      → (resolve_parsed list_known ps s).0 ≡ ok out
      → expand known ps ≡ out
  unfolding resolve_parsed expand
  resolve_parsed-ok ps s {known} l h = elim (Bool-cases (needs_expansion ps)) [
    | inl n ↦ ground (arith)
    | inr n ↦ ground (arith, expand_of_exact known empty ps)
  ]

  -- On success of a call that may expand patterns, with the clusters that listing gives, the result
  -- has no text twice, and holds exactly the targets that some entry stands for.
  pub resolve_loose_lem :
      (us : List String) (s : S) (t : String) {known : List CapiCluster} {out : List String}
      → (list_known s).0 ≡ ok known
      → (resolve_cluster_patterns list_known us false s).0 ≡ ok out
      → NoDup out × (In t out ↔ SelectedBy known us t)
  unfolding resolve_cluster_patterns
  resolve_loose_lem us s t {known} {out} l h = elim (Result-cases (parse_patterns us)) [
    | inl (ps, e) ↦
        let z = resolve_parsed-ok ps s l (rw (e, resolve_loose) at h) in
        rw (← z) (expand-NoDup known ps, In-expand-SelectedBy known us ps t e)
    | inr (x, e) ↦
        (let h' : ◌≡◌ {A = Result (List String)} (err x) (ok out) = rw (e, resolve_loose) at h in
          cc)
  ]

  -- If the patterns parse and one of them is not a full path, a failure of the listing is returned.
  pub resolve_loose_listing_fails :
      (us : List String) (ps : List TargetPattern) (s : S) {e : Error}
      → parse_patterns us ≡ ok ps
      → needs_expansion ps ≡ true
      → (list_known s).0 ≡ err e
      → resolve_cluster_patterns list_known us false s ≡ (err e, (list_known s).1)
  unfolding resolve_cluster_patterns
  resolve_loose_listing_fails us ps s h n l = ground arith

  -- Full paths are never looked up: the known clusters are not listed, and no state is changed.
  pub resolve_exact-state :
      (us : List String) (strict : Bool) (s : S)
      → ((strict ≡ true) ⊎ All (λ u. slashes u ≡ 3) us)
      → (resolve_cluster_patterns list_known us strict s).1 ≡ s
  unfolding resolve_cluster_patterns resolve_loose resolve_parsed
  resolve_exact-state us true s h = refl
  resolve_exact-state us false s (inl h) = cc
  resolve_exact-state us false s (inr h) = elim (Result-cases (parse_patterns us)) [
    | inl (ps, e) ↦ ground (arith, needs_expansion_of_exact us ps h e)
    | inr (x, e) ↦ ground arith
  ]

  -- Where every entry is a full path and the loose resolution succeeds, the strict one agrees.
  pub resolve_strict-loose :
      (us : List String) (s : S) {out : List String}
      → All (λ u. slashes u ≡ 3) us
      → (resolve_cluster_patterns list_known us false s).0 ≡ ok out
      → resolve_cluster_patterns list_known us true s
        ≡ resolve_cluster_patterns list_known us false s
  unfolding resolve_cluster_patterns resolve_loose resolve_parsed resolve_strict
  resolve_strict-loose us s {out} three h = elim (Result-cases (parse_patterns us)) [
    | inl (ps, e) ↦ ground (
      arith,
      needs_expansion_of_exact us ps three e,
      check_entries_of_exact us three,
      expand-dedupe us ps three e,
    )
    | inr (x, e) ↦
        (let h' : ◌≡◌ {A = Result (List String)} (err x) (ok out) = rw (e, resolve_loose) at h in
          cc)
  ]
