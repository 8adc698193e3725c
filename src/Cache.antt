-- ===== src/Cache.antt =====
-- internal/cache/cache.go. Each method holds the mutex, so it is one step; the clock's reading is
-- an argument, in nanoseconds, and so is a duration. Keys are texts, as in all uses.
pub mod History
mod Tests
use capo_shell_mcp.Prelude.{
  ℤ, ◌+ℤ◌, ltℤ, String, Option, none, some, [], Map, lookup, insert, delete as map_delete,
  if◌then◌else◌,
}

pub record Entry (V : Type 0) : Type 0 where
  pub value : V
  pub expires_at : ℤ

pub record TtlCache (V : Type 0) : Type 0 where
  pub ttl : ℤ
  pub store : Map (Entry V)

module _ {V : Type 0} where
  unfoldable pub new : ℤ → TtlCache V
  new ttl = record { ttl = ttl; store = [] }

  -- An expired entry is dropped when it is read.
  unfoldable pub get : ℤ → String → TtlCache V → Option V × TtlCache V
  get now key c = elim (lookup key c.store) [
    | none ↦ (none, c)
    | some e ↦
        if ltℤ e.expires_at now
        then (none, record c { store = map_delete key c.store })
        else (some e.value, c)
  ]

  unfoldable pub set : ℤ → String → V → TtlCache V → TtlCache V
  set now key value c = record c {
    store = insert key (record { value = value; expires_at = now +ℤ c.ttl }) c.store;
  }

  unfoldable pub delete : String → TtlCache V → TtlCache V
  delete key c = record c { store = map_delete key c.store }

  unfoldable pub clear : TtlCache V → TtlCache V
  clear c = record c { store = [] }
