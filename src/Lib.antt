-- ===== src/Lib.antt =====
-- capo-shell-mcp: a daemon that gives clients access to the workload clusters found through Cluster API.
--
-- The tools (internal/server) list the clusters of the configured kubeconfigs (internal/config), select
-- some of them by patterns (internal/capi), fetch their kubeconfigs through a cache (internal/cache),
-- start a tunnel where one is needed (internal/proxy), and run commands (internal/exec, internal/shell).
-- The tools of kubernetes-mcp-server are mounted beside them, each wrapped in a fan-out over clusters
-- (internal/embed); internal/httpserver serves both, and cmd/capi-shell-mcp puts the parts together.
--
-- Files and the code that they model:
--   Prelude          Go's (T, error) results, maps, texts, integers and lists; their lemmas
--   Action           calls that may fail and change a state, in a chain
--   FanOut           the goroutines of a fan-out, for internal/server/tools.go and internal/embed/fanout.go:
--                    each as a whole, in any order; Interleaved has goroutines that take turns
--   Cache            internal/cache/cache.go: TTLCache, New, Get, Set, Delete, Clear.
--                    Cache/History: a history of calls as the specification of the cache
--   Capi/Target      internal/capi/target.go: FormatTarget, ParseTarget; CAPICluster of clusters.go
--   Capi/Pattern     internal/capi/target_pattern.go
--   Capi/Resolve     internal/capi/resolve_patterns.go: ResolveClusterPatterns in both modes; Dedupe,
--                    has its last step, Select the selection, Laws and Strict the two modes, State
--                    what becomes of the state of the listing
--   Capi/Store       internal/capi/store.go: the two caches and their keys
--   Capi/Clients     the calls of the Kubernetes clients, of `unstructured` and of gojq, as interfaces
--   Capi/RestConfig  internal/capi/kubeconfig.go: GetContexts, RESTConfigForContext
--   Capi/Listing     internal/capi/clusters.go: ListClustersForContext; CustomFields: evalCustomFields
--   Capi/OpenStack   internal/capi/openstack.go: FetchOpenStackEnv, FetchAPIServerInfo
--   Capi/Transform   internal/capi/transform.go, and FetchWorkloadKubeconfig of kubeconfig_fetch.go
--   Capi/ReadOnly    internal/capi/readonly.go: EnsureReadOnlyRBAC over a Kubernetes API that is a
--                    parameter; its documented behaviour is the record Documented of Laws, and
--                    Granting of Success adds that it grants what is asked. Kubeconfig:
--                    CreateReadOnlyKubeconfig
--   Proxy/Process    internal/proxy/manager.go: ensureProcessProxy, killProcessEntry,
--                    KillAllProcessProxies, the goroutine of an exit, a timer that fires. Calls has
--                    sequences of whole events, Expiry and Shutdown the end of tunnels; Overlap has
--                    attempts, timers, exits and a shutdown that interleave, as a step relation, and
--                    Fine the same with a step for each section under the lock
--   Proxy/Systemd    internal/proxy/manager.go: ensureSystemdProxy, isUnitActive, targetKey, unitName; what
--                    systemd is documented to do is the record Documented of Laws
--   Proxy/Dispatch   internal/proxy/manager.go: EnsureProxy, which chooses between the two modes
--   Shell            internal/shell/shell.go: the interface Execer. Shell/Limit: limitedWriter.Write;
--                    Shell/ExecFile: OSExecer.ExecFile
--   Exec             internal/exec/exec.go: WithKubeconfig and writeTempKubeconfig
--   Config/Value     what YAML decodes into, the type assertions, toInt
--   Config/Env       internal/config/config.go: expandEnv, with its regular expression;
--                    Expansion describes that without the matcher
--   Config/Load      internal/config/config.go: Load, LoadConfig, configPath and the parsers of its
--                    parts
--   Server/Outside   internal/server/server.go: ToolServer, sortedKubeconfigs; the calls that leave
--                    the package as an interface
--   Server/Duration  the lifetimes of both caches, of kubeconfig.go and cmd/capi-shell-mcp/main.go
--   Server/Listing   internal/server/resolve.go, and ListTargets and allKnownClusters of target.go
--   Server/Kubeconfig internal/server/kubeconfig.go, and ResolveTarget of target.go; Ensures of Tunnel is
--                    what the package relies on for its tunnels
--   Server/Tools     internal/server/tools.go: the five tools and their fan-outs; Results has the types
--   Server/ReadOnly  what the calls behind the read-only tools are, and what the tools keep if those do
--   Server/Turns     execInClusterFanOut with goroutines that interleave between their calls
--   Server/Build     internal/server/build.go: BuildServer; types.go, and the five methods of tools.go that
--                    it registers
--   Server/Clients   internal/server/clients.go, with client-go as an interface
--   Server/Wiring    the interface of Server/Outside, filled with the models of internal/capi,
--                    internal/proxy and internal/server/clients.go
--   Embed/FanOut     internal/embed/fanout.go: wrapFanOut, runFanOut, callOneTarget, listKnownClusters;
--                    Interleaved has runFanOut with handlers that take turns; Embed/Request has the
--                    types of the handlers and encoding/json as an interface
--   Embed/Provider   internal/embed/provider.go: capiProvider, with kubernetes-mcp-server as an interface
--   Embed/Mount      internal/embed/mount.go: MountTools and its loops
--   Http             internal/httpserver: hostCheckMiddleware, notifySystemd, Start, Close
--   Daemon           cmd/capi-shell-mcp/main.go: run and main, with the other parts as an interface
-- Each Tests file runs definitions on concrete inputs; a Fake file has the concrete systemd or cluster
-- that several of them use.
--
-- How state and errors are modelled. A call that changes state takes the state and gives the new one.
-- An error is a constructor for the place that builds it, with the values that its text shows; errors
-- of other code are `external` texts. Texts are sequences of code points; the code only compares,
-- joins and splits them at ASCII characters. A map is an association list, and where Go iterates over
-- a map the order is the one of the list, which is arbitrary. Times and durations are integers; the
-- lifetimes of the caches are cut to the 64 bits of time.Duration (Server/Duration), other durations
-- have no bound. An environment is a function from names to values, a float64 is given by the
-- integer that int(n) makes of it, ttl.Seconds() is not rounded, and JSON encoders, the YAML decoder
-- and the file system are parameters.
--
-- What is one step. A method of the cache holds its mutex, so it is one step. In Proxy/Process/Overlap
-- an attempt has a step where it reads the map and a later one where it refreshes its entry or ends
-- the start of a process; killProcessEntry and the goroutine of an exit are one step each. In
-- Proxy/Process/Fine each section under the lock is a step, and each call of a timer or a process
-- outside of it. In both, the calls for a key share one attempt (singleflight). EnsureProxy, as
-- the tool server calls it, takes what other goroutines do with the tunnels between its steps as an
-- argument, and so does managerForTarget of Embed/Provider with the managers. A Write of limitedWriter is
-- one step. The code does not synchronise the two goroutines that share the limit, so what is relied
-- on of os/exec says nothing of the counter where both write, and of the buffers only where all
-- output fits into the cap. The goroutines of a fan-out of the tools each run as a whole, in any order; the order is an
-- argument. In Server/Turns, for the tools that run commands, they take turns, one for each call of
-- the cache or of another package, and in Embed/FanOut/Interleaved between the calls of their
-- handlers.
--
-- Fuel. The code replaces the matches of a regular expression; `expand` of Config/Env has fuel, one
-- more than the length of the text, which is enough since the text after a match is shorter. The
-- decimal digits of a number are written with fuel one more than the number, which is more than its
-- digits. All other loops are structural recursion.
--
-- Not modelled: what os/exec, client-go, clientcmd, gojq, the MCP library and kubernetes-mcp-server do,
-- which are parameters, with their documented behaviour as hypotheses where a theorem needs it; the
-- schemas of the inputs, what is logged or printed, and the moment at which a timer fires. A context
-- that ends, and time limits, are not modelled: a call of another part ends with a result or an
-- error.
mod Prelude
pub mod Action
pub mod FanOut
pub mod Cache
pub mod Capi
pub mod Proxy
pub mod Shell
pub mod Exec
pub mod Config
pub mod Server
pub mod Embed
pub mod Http
pub mod Daemon
