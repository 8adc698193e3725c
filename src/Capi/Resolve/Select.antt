-- ===== src/Capi/Resolve/Select.antt =====
-- Which targets a list of patterns resolves to.
use capo_shell_mcp.Prelude.{
  String, true, false, ◌≡◌, ◌≢◌, refl, sym, ap, ◌∙◌, subst, ◌↔◌, ◌⊎◌, inl, inr, List, [], ◌∷◌, In,
  In-if, In-if_here, In-if_there, Bool-cases, arith, ok, split, join, join-split,
}
use capo_shell_mcp.Capi.Target.{CapiCluster, path_fields, format_target}
use capo_shell_mcp.Capi.Target.Laws.{slashes}
use capo_shell_mcp.Capi.Pattern.{
  TargetPattern, is_exact, parse_target_pattern, matches, expand_target_pattern,
}
use capo_shell_mcp.Capi.Pattern.Laws.{
  segments, IsPrefix, matches_iff, parse_target_pattern-split, is_exact_of_parse,
}
use capo_shell_mcp.Capi.Resolve.{cluster_of, pattern_matches}

-- The targets that one pattern stands for: itself, if it is a full path; otherwise the targets of
-- the known clusters whose path begins with its segments.
abbrev pub Selects : List CapiCluster → String → String → Type 0
Selects known p t =
    ((slashes p ≡ 3) × (t ≡ p))
    ⊎ ((slashes p ≢ 3)
        × ((c : CapiCluster) × In c known
            × IsPrefix (split p) (path_fields c)
            × (t ≡ format_target c)))

abbrev pub SelectedBy : List CapiCluster → List String → String → Type 0
SelectedBy known ps t = (p : String) × In p ps × Selects known p t

abbrev Expanded : TargetPattern → List CapiCluster → String → Type 0
Expanded p known t = (c : CapiCluster) × In c known × (matches p c ≡ true) × (t ≡ format_target c)

Expanded-tail :
    (p : TargetPattern) (c : CapiCluster) (known : List CapiCluster) (t : String)
    → Expanded p known t
    → Expanded p (c ∷ known) t
Expanded-tail p c known t (d, i, m, e) = (d, inr i, m, e)

In-expand :
    (p : TargetPattern) (known : List CapiCluster) (t : String)
    → In t (expand_target_pattern p known)
    → Expanded p known t
unfolding expand_target_pattern
In-expand p [] t h = absurd h
In-expand p (c ∷ known) t h = elim (In-if (matches p c) t _ _ h) [
  | inl (m, e) ↦ (c, inl refl, m, e)
  | inr r ↦ Expanded-tail p c known t (In-expand p known t r)
]

expand-In :
    (p : TargetPattern) (known : List CapiCluster) (t : String)
    → Expanded p known t
    → In t (expand_target_pattern p known)
unfolding expand_target_pattern
expand-In p [] t (c, i, m, e) = absurd i
expand-In p (d ∷ known) t (c, inl z, m, e) =
    In-if_here (matches p d) t _ _ (rw (← z) m) (rw (← z) e)
expand-In p (d ∷ known) t (c, inr i, m, e) =
    In-if_there (matches p d) _ _ _ (expand-In p known t (c, i, m, e))

segments_of_exact :
    (p : TargetPattern) → is_exact p ≡ true → segments p ≡ path_fields (cluster_of p)
unfolding is_exact
segments_of_exact p x = ground arith

-- For a full path the cluster that is built has the text itself as its target.
pub format_target-cluster_of :
    (u : String) (p : TargetPattern)
    → segments p ≡ split u
    → is_exact p ≡ true
    → format_target (cluster_of p) ≡ u
unfolding format_target
format_target-cluster_of u p e x = ap (join "/") (sym (segments_of_exact p x) ∙ e) ∙ join-split u

module _ (known : List CapiCluster) (u : String) (p : TargetPattern) (t : String)
    (parsed : parse_target_pattern u ≡ ok p) where
  exact-Selects : is_exact p ≡ true → In t (format_target (cluster_of p) ∷ []) ↔ Selects known u t
  exact-Selects x =
      let three = (is_exact_of_parse u p parsed).0 x in
      let same = format_target-cluster_of u p (parse_target_pattern-split u p parsed).1 x in
      (
        elim [ inl e ↦ inl (three, e ∙ same) | inr h ↦ absurd h ],
        elim [ inl s ↦ inl (s.1 ∙ sym same) | inr s ↦ absurd (s.0 three) ],
      )

  prefix-Selects : is_exact p ≡ false → In t (expand_target_pattern p known) ↔ Selects known u t
  prefix-Selects x =
      let (filled, e) = parse_target_pattern-split u p parsed in
      let other : slashes u ≢ 3 = λ three. cc ((is_exact_of_parse u p parsed).1 three) in
      (
        λ h.
            let (c, i, m, s) = In-expand p known t h in
            inr (other, (c, i, rw (← e) ((matches_iff p c filled).0 m), s)),
        elim [
          | inl s ↦ absurd (other s.0)
          | inr (_, (c, i, m, s)) ↦ expand-In p known t (
            c,
            i,
            (matches_iff p c filled).1 (subst (λ l. IsPrefix l (path_fields c)) (sym e) m),
            s,
          )
        ],
      )

  pub pattern_matches-Selects : In t (pattern_matches known p) ↔ Selects known u t
  unfolding pattern_matches
  pattern_matches-Selects = elim (Bool-cases (is_exact p)) [
    | inl x ↦ rw x (exact-Selects x)
    | inr x ↦ rw x (prefix-Selects x)
  ]
