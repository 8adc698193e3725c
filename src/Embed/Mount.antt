-- ===== src/Embed/Mount.antt =====
-- internal/embed/mount.go. A tool of kubernetes-mcp-server is given by what the loop reads of it, and `T`
-- is the tool and handler that the conversion makes. `mutate` is the mutator that adds the target
-- parameter. The server is a value of `V`, to which `add_tool` adds a tool.
pub mod Laws
use capo_shell_mcp.Prelude.{
  String, ◌⊕◌, Bool, true, false, Option, none, some, List, [], ◌∷◌, ◌++◌, Result, ok, err, wrap,
  if◌then◌else◌,
}
use capo_shell_mcp.Embed.Provider.{default_target, target_parameter_name, is_multi_target}

pub record ServerTool : Type 0 where
  pub name : String
  pub is_target_list_provider : Bool
  pub is_cluster_aware : Bool
  pub read_only_hint : Option Bool

-- What `AddTool` gets: a tool as it is, or wrapped by `wrapFanOut` with the flag.
pub data Mounted (T : Type 0) : Type 0 where
  as_is : T → Mounted T
  fanned : T → Bool → Mounted T

abbrev pub is_read_only : Option Bool → Bool
is_read_only (some true) = true
is_read_only _ = false

module _ {T V : Type 0} (add_tool : Mounted T → V → V) (mutate : ServerTool → ServerTool)
    (convert : ServerTool → Result T) where
  abbrev pub mounted : ServerTool → T → Mounted T
  mounted tool t =
      if tool.is_cluster_aware then fanned t (is_read_only tool.read_only_hint) else as_is t

  -- What the inner loop does with the result of a conversion, before it goes on.
  abbrev pub added : ServerTool → Result T → V → Result (Unit {0}) × V
  added tool (err e) server = (err (wrap ("embed: converting tool " ⊕ tool.name) e), server)
  added tool (ok t) server = (ok tt, add_tool (mounted tool t) server)

  abbrev pub visited : ServerTool → V → Result (Unit {0}) × V
  visited tool server =
      if tool.is_target_list_provider
      then (ok tt, server)
      else added (mutate tool) (convert (mutate tool)) server

  -- The inner loop.
  unfoldable pub mount_toolset : List ServerTool → V → Result (Unit {0}) × V
  mount_toolset [] server = (ok tt, server)
  mount_toolset (tool ∷ tools) server =
      let (r, server') = visited tool server in
      elim r [ ok _ ↦ mount_toolset tools server' | err e ↦ (err e, server') ]

  -- The outer loop.
  unfoldable pub mount_toolsets : List (List ServerTool) → V → Result (Unit {0}) × V
  unfolding mount_toolset
  mount_toolsets [] server = (ok tt, server)
  mount_toolsets (ts ∷ toolsets) server =
      let (r, server') = mount_toolset ts server in
      elim r [ ok _ ↦ mount_toolsets toolsets server' | err e ↦ (err e, server') ]

-- What MountTools calls of kubernetes-mcp-server, with the capiProvider: `H` is a handle.
pub record Kmcp (H T : Type 0) : Type 0 where
  pub new_server : Result H
  pub with_target_parameter : String → String → Bool → ServerTool → ServerTool
  pub toolsets : List (List ServerTool)
  pub server_tool_to_go_sdk_tool : H → ServerTool → Result T

module _ {H T : Type 0} (kmcp : Kmcp H T) where
  abbrev pub mutate : ServerTool → ServerTool
  mutate = kmcp.with_target_parameter default_target target_parameter_name is_multi_target

  unfoldable pub mount_tools : {V : Type 0} → (Mounted T → V → V) → V → Result (Unit {0}) × V
  unfolding mount_toolsets
  mount_tools add_tool server = elim kmcp.new_server [
    | err e ↦ (err (wrap "embed: constructing kubernetes-mcp-server handle" e), server)
    | ok handle ↦
        mount_toolsets add_tool mutate (kmcp.server_tool_to_go_sdk_tool handle) kmcp.toolsets server
  ]
