-- ===== src/Server/Build/Laws.antt =====
-- The tools of the server that BuildServer gives.
use capo_shell_mcp.Prelude.{
  ℕ, ◌≡◌, ◌↔◌, ◌⊎◌, inl, inr, refl, sym, ap, ap₂, subst, ◌∙◌, String, Bool-cases, Option, none,
  some, List, [], ◌∷◌, In, Result, ◌==◌, eq_iff, if◌then◌else◌,
}
use mathlib.Core.Option.{some-injective}
use capo_shell_mcp.Config.Load.{AppConfig}
use capo_shell_mcp.Server.Outside.{Outside, State}
use capo_shell_mcp.Server.Tools.{ListClustersEntry, KubeconfigResult, ClusterExecResult}
use capo_shell_mcp.Server.Build.{
  ClusterFilterInput, ExecInput, ToolHandler, for_filter, for_exec, Mcp, list_clusters_tool,
  get_cluster_kubeconfig, get_cluster_kubeconfig_readonly, exec_in_cluster,
  exec_in_cluster_readonly, build_server,
}
use capo_shell_mcp.Server.ReadOnly.Calls.{ReadOnlyCalls}
use capo_shell_mcp.Server.ReadOnly.Tools.{exec_readonly-keeps, get_readonly-keeps}

-- What the MCP library documents: a new server has no tool, and AddTool adds one, or replaces the one
-- of the same name.
pub record IsMcp {V H : Type 0} (mcp : Mcp V H) (find : String → V → Option H) : Type 0 where
  pub finds_none : (name version text n : String) → find n (mcp.new_server name version text) ≡ none
  pub finds_added :
      (name text : String) (h : H) (v : V) (n : String)
      → find n (mcp.add_tool name text h v) ≡ (if n == name then some h else find n v)

module _ {X : Type 0} (P : X → Type 0) where
  abbrev pub KeepsAll : Option (ToolHandler (State X)) → Type 0
  KeepsAll none = ⊥
  KeepsAll (some (for_filter f)) =
      (input : ClusterFilterInput) (s : State X) → P s.outside → P (f input s).1.outside
  KeepsAll (some (for_exec f)) =
      (input : ExecInput) (s : State X) → P s.outside → P (f input s).1.outside

module _ {X C : Type 0} (out : Outside X C) (cfg : AppConfig)
    (marshal_entries : List ListClustersEntry → Result String)
    (marshal_kubeconfigs : List KubeconfigResult → Result String)
    (marshal_execs : List ClusterExecResult → Result String)
    (schedule : List String → List (ℕ × String)) {V : Type 0} (mcp : Mcp V (ToolHandler (State X)))
    (find : String → V → Option (ToolHandler (State X))) (law : IsMcp mcp find) where
  abbrev pub built : V
  built = build_server out cfg marshal_entries marshal_kubeconfigs marshal_execs schedule mcp

  -- The tools and their handlers, the last one that is registered first.
  abbrev pub registered : List (String × ToolHandler (State X))
  registered =
      (
        "exec_in_cluster_readonly",
        for_exec (
            exec_in_cluster_readonly out cfg marshal_entries marshal_kubeconfigs marshal_execs
              schedule),
      )
      ∷ (
        "exec_in_cluster",
        for_exec
            (exec_in_cluster out cfg marshal_entries marshal_kubeconfigs marshal_execs schedule),
      )
      ∷ (
        "get_cluster_kubeconfig_readonly",
        for_filter (
            get_cluster_kubeconfig_readonly out cfg marshal_entries marshal_kubeconfigs
              marshal_execs schedule),
      )
      ∷ (
        "get_cluster_kubeconfig",
        for_filter (
            get_cluster_kubeconfig out cfg marshal_entries marshal_kubeconfigs marshal_execs
              schedule),
      )
      ∷ (
        "list_clusters",
        for_filter
            (list_clusters_tool out cfg marshal_entries marshal_kubeconfigs marshal_execs schedule),
      )
      ∷ []

  find_in : String → List (String × ToolHandler (State X)) → Option (ToolHandler (State X))
  find_in n [] = none
  find_in n ((m, h) ∷ rest) = if n == m then some h else find_in n rest

  find-built : (n : String) → find n built ≡ find_in n registered
  unfolding build_server find_in
  find-built n = simp (law.finds_added, law.finds_none)

  find_in-In :
      (n : String) (h : ToolHandler (State X)) (l : List (String × ToolHandler (State X)))
      → find_in n l ≡ some h
      → In (n, h) l
  unfolding find_in
  find_in-In n h [] i = cc
  find_in-In n h ((m, g) ∷ l) i = elim (Bool-cases (n == m)) [
    | inl e ↦
        inl (
          ap₂ (λ a b. (a, b)) ((eq_iff n m).0 e)
            (some-injective h g (sym i ∙ rw (e, find_in) refl)))
    | inr e ↦ inr (find_in-In n h l (rw (e, find_in) at i))
  ]

  at_entry :
      (x y : String × ToolHandler (State X))
      → x ≡ y
      → find_in y.0 registered ≡ some y.1
      → find_in x.0 registered ≡ some x.1
  at_entry x y e f = subst (λ z. find_in z.0 registered ≡ some z.1) (sym e) f

  found :
      {n : String} {h : ToolHandler (State X)}
      → In (n, h) registered
      → find_in n registered ≡ some h
  unfolding find_in
  found (inl e) = at_entry _ _ e refl
  found (inr (inl e)) = at_entry _ _ e refl
  found (inr (inr (inl e))) = at_entry _ _ e refl
  found (inr (inr (inr (inl e)))) = at_entry _ _ e refl
  found (inr (inr (inr (inr (inl e))))) = at_entry _ _ e refl
  found (inr (inr (inr (inr (inr x))))) = absurd x

  -- A call of a tool by name reaches a handler exactly if the name is one of the five, and then it
  -- is the method that belongs to it.
  pub build_server-find_iff :
      (n : String) (h : ToolHandler (State X)) → (find n built ≡ some h) ↔ In (n, h) registered
  unfolding find_in
  build_server-find_iff n h =
      (λ i. find_in-In n h registered (sym (find-built n) ∙ i), λ m. find-built n ∙ found m)

  -- A tool that is read-only by its name: any call of it keeps every property of the world that the
  -- calls of the read-only path keep.
  pub build_server-readonly :
      (P : X → Type 0)
      → ReadOnlyCalls out P
      → (n : String) → (n ≡ "get_cluster_kubeconfig_readonly") ⊎ (n ≡ "exec_in_cluster_readonly")
      → KeepsAll P (find n built)
  unfolding find_in get_cluster_kubeconfig_readonly exec_in_cluster_readonly
  build_server-readonly P calls n (inl e) =
      subst (KeepsAll P) (sym (find-built n ∙ ap (λ m. find_in m registered) e)) (λ input s p.
        get_readonly-keeps out cfg P calls marshal_entries marshal_kubeconfigs marshal_execs
          schedule input.clusters s p)
  build_server-readonly P calls n (inr e) =
      subst (KeepsAll P) (sym (find-built n ∙ ap (λ m. find_in m registered) e)) (λ input s p.
        exec_readonly-keeps out cfg P calls marshal_entries marshal_kubeconfigs marshal_execs
          schedule input.clusters input.command input.stdin s p)
