-- ===== src/Embed/Mount/Laws.antt =====
-- Which tools are mounted, and how.
use capo_shell_mcp.Prelude.{
  String, ◌≡◌, ◌≢◌, ◌⊎◌, inl, inr, refl, sym, ap, ◌∙◌, Bool, true, false, Bool-cases, Option, none,
  some, List, [], ◌∷◌, In, Result, ok, err, Result-cases, subst, ◌==◌, eq_iff, arith, if◌then◌else◌,
}
use capo_shell_mcp.Embed.Mount.{
  ServerTool, Mounted, as_is, fanned, is_read_only, mounted, added, visited, mount_toolset,
  mount_toolsets, Kmcp, mutate, mount_tools,
}

-- A step whose result is an error ends the loop.
chain_ok :
    {L : Type 0} (r : Result (Unit {0}) × L) (next : L → Result (Unit {0}) × L) {out : L}
    → (elim r.0 [ ok _ ↦ next r.1 | err e ↦ (err e, r.1) ]) ≡ (ok tt, out)
    → (u : L) × (r ≡ (ok tt, u)) × (next u ≡ (ok tt, out))
chain_ok (ok _, u) next h = (u, refl, h)
chain_ok (err e, u) next h = absurd (cc (ap (λ r. r.0) h))

-- The name of a tool; wrapFanOut keeps it.
abbrev pub mounted_name : {T : Type 0} → (T → String) → Mounted T → String
mounted_name name_of (as_is t) = name_of t
mounted_name name_of (fanned t b) = name_of t

-- What the MCP library documents: AddTool adds a tool, or replaces the one of the same name.
abbrev pub Replaces :
    {T V : Type 0} → (T → String) → (String → V → Option (Mounted T)) → (Mounted T → V → V) → Type 0
Replaces {T} {V} name_of find add_tool =
    (m : Mounted T) (v : V) (n : String)
    → find n (add_tool m v) ≡ (if n == mounted_name name_of m then some m else find n v)

module _ {T V : Type 0} (add_tool : Mounted T → V → V) (name_of : T → String)
    (find : String → V → Option (Mounted T)) (law : Replaces name_of find add_tool)
    (mutate : ServerTool → ServerTool) (convert : ServerTool → Result T) where
  -- What one tool is mounted as: itself, if it takes no cluster; otherwise its fan-out, as
  -- read-only if its hint is there and true.
  abbrev pub Becomes : ServerTool → Mounted T → Type 0
  Becomes tool m =
      (t : T) × (convert tool ≡ ok t)
      × (((tool.is_cluster_aware ≡ false) × (m ≡ as_is t))
          ⊎ ((tool.is_cluster_aware ≡ true)
              × (((tool.read_only_hint ≡ some true) × (m ≡ fanned t true))
                  ⊎ ((tool.read_only_hint ≢ some true) × (m ≡ fanned t false)))))

  abbrev pub Taken : ServerTool → Mounted T → Type 0
  Taken tool m = (tool.is_target_list_provider ≡ false) × Becomes (mutate tool) m

  abbrev pub Offers : List ServerTool → Mounted T → Type 0
  Offers tools m = (tool : ServerTool) × In tool tools × Taken tool m

  abbrev pub OfferedBy : List (List ServerTool) → Mounted T → Type 0
  OfferedBy toolsets m = (tools : List ServerTool) × In tools toolsets × Offers tools m

  -- Under each name there is an offered tool, or, if none of that name is offered, what was there.
  abbrev pub Mounts : (Mounted T → Type 0) → V → V → Type 0
  Mounts P before after =
      (n : String)
      → ((m : Mounted T) × P m × (mounted_name name_of m ≡ n) × (find n after ≡ some m))
        ⊎ (((m : Mounted T) → P m → mounted_name name_of m ≢ n) × (find n after ≡ find n before))

  Mounts-none : (P : Mounted T → Type 0) (v : V) → ((m : Mounted T) → ¬ P m) → Mounts P v v
  Mounts-none P v none_of n = inr (λ m p e. none_of m p, refl)

  -- Two rounds, one after the other.
  Mounts-trans :
      (P Q R : Mounted T → Type 0) (u v w : V)
      → ((m : Mounted T) → P m → R m)
      → ((m : Mounted T) → Q m → R m)
      → ((m : Mounted T) → R m → P m ⊎ Q m)
      → Mounts P u v
      → Mounts Q v w
      → Mounts R u w
  Mounts-trans P Q R u v w p q r first second n = elim (second n) [
    | inl (m, i, name, found) ↦ inl (m, q m i, name, found)
    | inr (unoffered, same) ↦ elim (first n) [
      | inl (m, i, name, found) ↦ inl (m, p m i, name, same ∙ found)
      | inr (unoffered', same') ↦ inr (
        λ m i e. elim (r m i) [ inl j ↦ unoffered' m j e | inr j ↦ unoffered m j e ],
        same ∙ same',
      )
    ]
  ]

  is_read_only_lem :
      (h : Option Bool)
      → ((h ≡ some true) × (is_read_only h ≡ true)) ⊎ ((h ≢ some true) × (is_read_only h ≡ false))
  is_read_only_lem none = inr (λ h. cc, refl)
  is_read_only_lem (some true) = inl (refl, refl)
  is_read_only_lem (some false) = inr (λ h. cc, refl)

  Becomes-mounted :
      (tool : ServerTool) (t : T)
      → convert tool ≡ ok t
      → Becomes tool (mounted add_tool mutate convert tool t)
  Becomes-mounted tool t e = elim (Bool-cases tool.is_cluster_aware) [
    | inl a ↦ elim (is_read_only_lem tool.read_only_hint) [
      | inl (h, r) ↦ (t, e, inr (a, inl (h, rw (a, r) refl)))
      | inr (h, r) ↦ (t, e, inr (a, inr (h, rw (a, r) refl)))
    ]
    | inr a ↦ (t, e, inl (a, rw a refl))
  ]

  Becomes-unique :
      (tool : ServerTool) (t : T) (m : Mounted T)
      → convert tool ≡ ok t
      → Becomes tool m
      → m ≡ mounted add_tool mutate convert tool t
  Becomes-unique tool t m e (u, f, inl (a, i)) = let s : ok t ≡ ok u = sym e ∙ f in rw a (cc)
  Becomes-unique tool t m e (u, f, inr (a, inl (h, i))) =
      let s : ok t ≡ ok u = sym e ∙ f in rw (a, h) (cc)
  Becomes-unique tool t m e (u, f, inr (a, inr (h, i))) =
      elim (is_read_only_lem tool.read_only_hint) [
        | inl (g, _) ↦ absurd (h g)
        | inr (_, r) ↦ (let s : ok t ≡ ok u = sym e ∙ f in rw (a, r) (cc))
      ]

  -- One round of the inner loop.
  added_lem :
      (tool : ServerTool) (r : Result T) (server out : V)
      → convert tool ≡ r
      → added add_tool mutate convert tool r server ≡ (ok tt, out)
      → Mounts (Becomes tool) server out
  added_lem tool (err e) server out c h = absurd (cc (ap (λ r. r.0) h))
  added_lem tool (ok t) server out c h = λ n.
      let m = mounted add_tool mutate convert tool t in
      let put = ap (λ v. find n v) (sym (ap (λ r. r.1) h)) ∙ law m server n in
      elim (Bool-cases (n == mounted_name name_of m)) [
        | inl e ↦ inl (
          m,
          Becomes-mounted tool t c,
          ground (arith, e, eq_iff n (mounted_name name_of m)),
          rw e at put,
        )
        | inr e ↦ inr (
          λ m' b q.
              let only : mounted_name name_of m' ≡ mounted_name name_of m =
                ap (mounted_name name_of) (Becomes-unique tool t m' c b) in
              ground (arith, e, eq_iff n (mounted_name name_of m), only, q),
          rw e at put,
        )
      ]

  visited_lem :
      (tool : ServerTool) (b : Bool) (server out : V)
      → tool.is_target_list_provider ≡ b
      → (if b
          then (ok tt, server)
          else added add_tool mutate convert (mutate tool) (convert (mutate tool)) server)
        ≡ (ok tt, out)
      → Mounts (Taken tool) server out
  visited_lem tool true server out p h =
      subst (λ v. Mounts (Taken tool) server v) (ap (λ r. r.1) h)
        (Mounts-none (Taken tool) server (λ m (f, _). cc))
  visited_lem tool false server out p h = λ n.
      elim (added_lem (mutate tool) (convert (mutate tool)) server out refl h n) [
        | inl (m, b, name, found) ↦ inl (m, (p, b), name, found)
        | inr (unoffered, same) ↦ inr (λ m (_, b). unoffered m b, same)
      ]

  mount_toolset_lem :
      (tools : List ServerTool) (server out : V)
      → mount_toolset add_tool mutate convert tools server ≡ (ok tt, out)
      → Mounts (Offers tools) server out
  unfolding mount_toolset
  mount_toolset_lem [] server out h =
      subst (λ v. Mounts (Offers []) server v) (ap (λ r. r.1) h)
        (Mounts-none (Offers []) server (λ m (_, i, _). i))
  mount_toolset_lem (tool ∷ tools) server out h =
      let (u, first, rest) =
        chain_ok (visited add_tool mutate convert tool server)
          (mount_toolset add_tool mutate convert tools) h in
      Mounts-trans (Taken tool) (Offers tools) (Offers (tool ∷ tools)) server u out
        (λ m t. (tool, inl refl, t)) (λ m (x, i, t). (x, inr i, t))
        (λ m (x, i, t). elim i [ inl e ↦ inl (subst (λ v. Taken v m) e t) | inr j ↦ inr (x, j, t) ])
        (visited_lem tool tool.is_target_list_provider server u refl first)
        (mount_toolset_lem tools u out rest)

  pub mount_toolsets_lem :
      (toolsets : List (List ServerTool)) (server out : V)
      → mount_toolsets add_tool mutate convert toolsets server ≡ (ok tt, out)
      → Mounts (OfferedBy toolsets) server out
  unfolding mount_toolsets
  mount_toolsets_lem [] server out h =
      subst (λ v. Mounts (OfferedBy []) server v) (ap (λ r. r.1) h)
        (Mounts-none (OfferedBy []) server (λ m (_, i, _). i))
  mount_toolsets_lem (ts ∷ toolsets) server out h =
      let (u, first, rest) =
        chain_ok (mount_toolset add_tool mutate convert ts server)
          (mount_toolsets add_tool mutate convert toolsets) h in
      Mounts-trans (Offers ts) (OfferedBy toolsets) (OfferedBy (ts ∷ toolsets)) server u out
        (λ m o. (ts, inl refl, o)) (λ m (us, i, o). (us, inr i, o))
        (λ m (us, i, o). elim i [
          | inl e ↦ inl (subst (λ v. Offers v m) e o)
          | inr j ↦ inr (us, j, o)
        ])
        (mount_toolset_lem ts server u first) (mount_toolsets_lem toolsets u out rest)

-- For a server whose AddTool replaces a tool of the same name: when MountTools succeeds, kubernetes-mcp-server has
-- given a handle, and under each name the server has a tool of the toolsets, or, if they have none of that
-- name, what it had before. The tools that only list targets are left out; a tool that, with the
-- target parameter, takes no cluster is as it was converted; any other is wrapped, as read-only exactly if
-- its hint is there and true.
pub mount_tools_lem :
    {H T V : Type 0} (kmcp : Kmcp H T) (add_tool : Mounted T → V → V) (name_of : T → String)
    (find : String → V → Option (Mounted T)) (law : Replaces name_of find add_tool) (server out : V)
    → mount_tools kmcp add_tool server ≡ (ok tt, out)
    → (handle : H) × (kmcp.new_server ≡ ok handle)
      × Mounts add_tool name_of find law
          (mutate kmcp)
          (kmcp.server_tool_to_go_sdk_tool handle)
          (OfferedBy add_tool name_of find law
            (mutate kmcp)
            (kmcp.server_tool_to_go_sdk_tool handle)
            kmcp.toolsets)
          server
          out
unfolding mount_tools
mount_tools_lem kmcp add_tool name_of find law server out h = elim (Result-cases kmcp.new_server) [
  | inr (e, i) ↦ absurd (cc (ap (λ r. r.0) (rw (i, mount_tools) at h)))
  | inl (handle, i) ↦ (
    handle,
    i,
    mount_toolsets_lem add_tool name_of find law (mutate kmcp)
        (kmcp.server_tool_to_go_sdk_tool handle) kmcp.toolsets server out
        (rw (i, mount_tools) at h),
  )
]
