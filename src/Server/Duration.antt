-- ===== src/Server/Duration.antt =====
-- The lifetimes of the two caches, as cmd/capi-shell-mcp/main.go and internal/server/kubeconfig.go compute
-- them from the configuration: an int64 of nanoseconds, which wraps around.
pub mod Laws
mod Tests
use capo_shell_mcp.Prelude.{ℕ, ℤ, pos, negsuc, suc, ◌*◌, ◌-◌, ◌%◌, ◌^◌, ltb, if◌then◌else◌}
use capo_shell_mcp.Config.Load.{AppConfig}
use capo_shell_mcp.Capi.Store.{Store, new_store}

-- The number that 64 bits stand for.
abbrev pub signed64 : ℕ → ℤ
signed64 w = if ltb w (2 ^ 63) then pos w else negsuc (2 ^ 64 - w - 1)

-- An integer, cut to 64 bits.
abbrev pub int64 : ℤ → ℤ
int64 (pos n) = signed64 (n % 2 ^ 64)
int64 (negsuc n) = signed64 (2 ^ 64 - 1 - n % 2 ^ 64)

-- time.Duration(n) * time.Second
unfoldable pub seconds : ℤ → ℤ
seconds (pos n) = int64 (pos (n * 1000000000))
seconds (negsuc n) = int64 (negsuc (suc n * 1000000000 - 1))

-- The store that `run` makes.
unfoldable pub initial_store : AppConfig → Store
unfolding seconds new_store
initial_store cfg =
    new_store (seconds cfg.cache.cluster_list_ttl_seconds)
      (seconds cfg.cache.kubeconfig_ttl_seconds)
