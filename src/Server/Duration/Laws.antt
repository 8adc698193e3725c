-- ===== src/Server/Duration/Laws.antt =====
-- Which lifetimes are kept.
use capo_shell_mcp.Prelude.{
  ℕ, ◌*◌, ◌-◌, ◌≤◌, ◌<◌, ◌≡◌, ◌↔◌, ℤ, pos, negsuc, suc, ◌+ℤ◌, ◌≤ℤ◌, ltℤ, String, Option, none, some,
  [], ◌∷◌, eq_refl, true, arith, if◌then◌else◌, ap, ◌∙◌,
}
use capo_shell_mcp.Cache.{get, set}
use capo_shell_mcp.Cache.History
use capo_shell_mcp.Cache.History.{run, get-run}
use capo_shell_mcp.Config.Load.{AppConfig}
use capo_shell_mcp.Capi.Store.{CachedKubeconfig, new_store}
use capo_shell_mcp.Server.Duration.{seconds, initial_store}

abbrev pub nanoseconds : ℤ → ℤ
nanoseconds (pos n) = pos (n * 1000000000)
nanoseconds (negsuc n) = negsuc (suc n * 1000000000 - 1)

-- 9223372036 seconds in either direction are the most that a lifetime can be.
abbrev pub FitsDuration : ℤ → Type 0
FitsDuration (pos n) = n ≤ 9223372036
FitsDuration (negsuc n) = suc n ≤ 9223372036

-- A lifetime is the configured number of seconds exactly if that is at most 9223372036 in either direction.
seconds-nanoseconds_iff : (n : ℤ) → (seconds n ≡ nanoseconds n) ↔ FitsDuration n
unfolding seconds
seconds-nanoseconds_iff (pos n) = ground arith
seconds-nanoseconds_iff (negsuc n) = ground arith

-- A positive lifetime that is too long, up to twice as long, becomes a negative one.
seconds-negative : (n : ℕ) → 9223372036 < n → n ≤ 18446744073 → seconds (pos n) +ℤ pos 1 ≤ℤ pos 0
unfolding seconds ◌+ℤ◌
seconds-negative n h k = ground arith

later_than : (d t : ℤ) → d +ℤ pos 1 ≤ℤ pos 0 → ltℤ (t +ℤ d) t ≡ true
unfolding ◌+ℤ◌
later_than d t h = ground arith

module _ (cfg : AppConfig) (t : ℤ) (key : String) (c : CachedKubeconfig) where
  -- What a read of the store gives after an entry was set at `t`.
  abbrev pub read_after : ℤ → Option CachedKubeconfig
  read_after later = (get later key (set t key c (initial_store cfg).kubeconfig)).0

  read_after-seconds :
      (later : ℤ)
      → read_after later
        ≡ (if ltℤ (t +ℤ seconds cfg.cache.kubeconfig_ttl_seconds) later then none else some c)
  unfolding initial_store new_store run
  read_after-seconds later =
      get-run (seconds cfg.cache.kubeconfig_ttl_seconds) (History.set t key c ∷ []) later key
        (tt, tt)
      ∙ rw (eq_refl key)

  -- In the store that `run` makes, a kubeconfig is there for the configured number of seconds, exactly, if
  -- that is at most 9223372036 in either direction.
  pub read_after_lem :
      (later : ℤ)
      → FitsDuration cfg.cache.kubeconfig_ttl_seconds
      → read_after later
        ≡ (if ltℤ (t +ℤ nanoseconds cfg.cache.kubeconfig_ttl_seconds) later then none else some c)
  read_after_lem later h =
      read_after-seconds later
      ∙ ap (λ d. if ltℤ (t +ℤ d) later then none else some c)
          ((seconds-nanoseconds_iff cfg.cache.kubeconfig_ttl_seconds).1 h)

  -- If the configured number of seconds is above 9223372036, up to twice that, a kubeconfig is
  -- gone at the moment at which it is stored.
  pub read_after-overflow :
      (n : ℕ)
      → cfg.cache.kubeconfig_ttl_seconds ≡ pos n
      → 9223372036 < n
      → n ≤ 18446744073
      → read_after t ≡ none
  read_after-overflow n e h k =
      read_after-seconds t ∙ rw (e, later_than (seconds (pos n)) t (seconds-negative n h k))
