-- ===== src/Embed/FanOut/Laws/Strict.antt =====
-- Embedded tools that are not read-only.
use capo_shell_mcp.Prelude.{
  ℕ, String, ◌≡◌, ◌⊎◌, inl, inr, refl, sym, ap, subst, ◌∙◌, true, false, Bool-cases, Option, none,
  some, List, [], ◌∷◌, map, contains, contains_iff, In, All, Map, lookup, Result, ok, Result-cases,
  arith, if◌then◌else◌,
}
use capo_shell_mcp.FanOut.{any_failed, fan_out, run_jobs}
use capo_shell_mcp.FanOut.Laws.{IsSchedule, IsSchedule-nil}
use capo_shell_mcp.Capi.Target.Laws.{slashes}
use capo_shell_mcp.Capi.Resolve.{resolve_cluster_patterns}
use capo_shell_mcp.Capi.Resolve.Dedupe.{first_occurrences}
use capo_shell_mcp.Capi.Resolve.Laws.{resolve_exact-state}
use capo_shell_mcp.Capi.Resolve.Strict.{resolve_strict_iff}
use capo_shell_mcp.Server.Tools.{CallToolResult}
use capo_shell_mcp.Embed.Provider.{TargetResolver}
use capo_shell_mcp.Embed.Request.{Request, Handler, PerClusterToolResult, Json}
use capo_shell_mcp.Embed.FanOut.{
  clusters_parameter_name, tool_failed, answer, arguments_of, list_known_clusters, run_targets,
  run_fan_out, run_patterns, run_clusters, wrapped,
}
use capo_shell_mcp.Embed.FanOut.Laws.{run_targets-clusters, wrapped-run_clusters, run_clusters-ok}

All-In : (P : String → Type 0) (us : List String) (u : String) → All P us → In u us → P u
All-In P [] u h i = absurd i
All-In P (v ∷ us) u h (inl e) = subst P (sym e) h.0
All-In P (v ∷ us) u h (inr i) = All-In P us u h.1 i

-- A full path is not empty.
contains_of_full : (us : List String) → All (λ u. slashes u ≡ 3) us → contains "" us ≡ false
contains_of_full us h = elim (Bool-cases (contains "" us)) [
  | inl c ↦
      (let three : 0 ≡ 3 = All-In (λ u. slashes u ≡ 3) us "" h ((contains_iff "" us).0 c) in
        absurd (omega (arith, three)))
  | inr c ↦ c
]

module _ {E X : Type 0} (js : Json) (resolver : TargetResolver X)
    (schedule : List String → List (ℕ × String))
    (sched : (ts : List String) → IsSchedule (schedule ts) ts) (req : Request E) (x : X) where
  -- `clusters` is an array of full paths, at least one.
  abbrev pub Names : String → List String → Type 0
  Names p ps =
      (args : Map String) × (raw : String) × (arguments_of js resolver req ≡ ok args)
      × (lookup clusters_parameter_name args ≡ some raw)
      × (js.unmarshal_strings raw ≡ ok (p ∷ ps))
      × All (λ u. slashes u ≡ 3) (p ∷ ps)

  abbrev pub IsAccepted : Type 0
  IsAccepted = (p : String) × (ps : List String) × Names p ps

  module _ (handler other : Handler E X) where
    -- Neither handler runs.
    abbrev Idle : {A : Type 0} → (Handler E X → A × X) → Type 0
    Idle f = (f handler ≡ f other) × ((f handler).1 ≡ x)

    run_patterns-Idle :
        (us : List String)
        → ((us ≡ []) ⊎ ¬ All (λ u. slashes u ≡ 3) us)
        → Idle (λ h. run_patterns js resolver schedule h false req us x)
    unfolding run_patterns run_fan_out run_targets fan_out run_jobs
    run_patterns-Idle [] n = rw (IsSchedule-nil (schedule []) (sched []), run_jobs) (refl, refl)
    run_patterns-Idle (p ∷ ps) (inl n) = cc
    run_patterns-Idle (p ∷ ps) (inr n) = elim (Bool-cases (contains "" (p ∷ ps))) [
      | inl c ↦ rw (c, if◌then◌else◌) (refl, refl)
      | inr c ↦
          elim (Result-cases
            (resolve_cluster_patterns (list_known_clusters resolver) (p ∷ ps) true x).0) [
              | inl (out, e) ↦
                  absurd
                    (n ((resolve_strict_iff (list_known_clusters resolver) (p ∷ ps) x out).0 e).0)
              | inr (y, e) ↦
                  rw (c, if◌then◌else◌, e)
                    (
                      refl,
                      resolve_exact-state (list_known_clusters resolver) (p ∷ ps) true x (inl refl),
                    )
            ]
    ]

    run_clusters-Idle :
        (c : Option String)
        → ((raw : String) (p : String) (ps : List String)
            → c ≡ some raw
            → js.unmarshal_strings raw ≡ ok (p ∷ ps)
            → ¬ All (λ u. slashes u ≡ 3) (p ∷ ps))
        → Idle (λ h. run_clusters js resolver schedule h false req c x)
    unfolding run_clusters
    run_clusters-Idle none n = (refl, refl)
    run_clusters-Idle (some raw) n = elim (Result-cases (js.unmarshal_strings raw)) [
      | inl ([], e) ↦ rw (e, run_clusters) (run_patterns-Idle [] (inl refl))
      | inl (p ∷ ps, e) ↦
          rw (e, run_clusters) (run_patterns-Idle (p ∷ ps) (inr (n raw p ps refl e)))
      | inr (y, e) ↦ rw (e, run_clusters) (refl, refl)
    ]

    -- A tool that is not read-only runs for no target unless `clusters` is a list of full paths, at
    -- least one: for any other request the answer is the same whatever the handler is, and nothing
    -- has changed, whatever list the targets are scheduled by.
    pub wrapped-Idle : ¬ IsAccepted → Idle (λ h. wrapped js resolver schedule h false req x)
    unfolding wrapped
    wrapped-Idle refused = elim (Result-cases (arguments_of js resolver req)) [
      | inl (args, e) ↦
          rw (e, wrapped)
            (run_clusters-Idle (lookup clusters_parameter_name args)
              (λ raw p ps l u full. refused (p, ps, (args, raw, e, l, u, full))))
      | inr (y, e) ↦ rw (e, wrapped) (refl, refl)
    ]

  module _ (handler : Handler E X) (p : String) (ps : List String) where
    run_patterns_strict :
        (out : List String)
        → All (λ u. slashes u ≡ 3) (p ∷ ps)
        → first_occurrences (p ∷ ps) ≡ out
        → run_patterns js resolver schedule handler false req (p ∷ ps) x ≡ (
          ok (run_fan_out js resolver schedule handler req out x).0,
          (run_fan_out js resolver schedule handler req out x).1,
        )
    unfolding run_patterns
    run_patterns_strict out full e =
        let known = list_known_clusters resolver in
        rw
          (
            contains_of_full (p ∷ ps) full,
            if◌then◌else◌,
            (resolve_strict_iff known (p ∷ ps) x out).1 (full, e),
            resolve_exact-state known (p ∷ ps) true x (inl refl),
          )
          refl

    run_fan_out-answer :
        (out : List String)
        → ◌≡◌ {A = Result CallToolResult}
            (ok (run_fan_out js resolver schedule handler req out x).0)
            (let results = (run_targets js resolver schedule handler req out x).0 in
              ok (answer (any_failed tool_failed results) (js.marshal_results results)))
    unfolding run_fan_out
    run_fan_out-answer out = refl

    -- Of a tool that is not read-only, for a list of full paths, at least one, whatever order the
    -- targets run in: the results name the targets of `clusters`, each once, in their order, and the
    -- answer is an error exactly when one of them has failed or they cannot be encoded.
    pub wrapped_strict_results :
        Names p ps
        → (results : List PerClusterToolResult) × (map (λ r. r.cluster) results
            ≡ first_occurrences (p ∷ ps))
          × ((wrapped js resolver schedule handler false req x).0
              ≡ ok (answer (any_failed tool_failed results) (js.marshal_results results)))
    wrapped_strict_results (args, raw, a, l, u, full) =
        let out = first_occurrences (p ∷ ps) in
        (
          (run_targets js resolver schedule handler req out x).0,
          run_targets-clusters js resolver handler req schedule out x (sched out),
          ap (λ r. r.0)
                (wrapped-run_clusters js resolver schedule handler false req x a
                  ∙ run_clusters-ok js resolver schedule handler false req x l u
                  ∙ run_patterns_strict out full refl)
              ∙ run_fan_out-answer out,
        )
