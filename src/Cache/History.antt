-- ===== src/Cache/History.antt =====
-- The cache against the history of the calls that were made.
use capo_shell_mcp.Prelude.{
  ℤ, ◌+ℤ◌, ◌≤ℤ◌, ltℤ, String, ◌≡◌, refl, Option, none, some, List, [], ◌∷◌, arith, ◌==◌, eq_iff,
  lookup, lookup-insert, lookup-delete, if◌then◌else◌, All, ◌∙◌,
}
use capo_shell_mcp.Cache
use capo_shell_mcp.Cache.{Entry, TtlCache}

module _ {V : Type 0} where
  abbrev live : ℤ → Option (Entry V) → Option V
  live now none = none
  live now (some e) = if ltℤ e.expires_at now then none else some e.value

  -- What a reader at `now` can see under a key.
  pub view : TtlCache V → ℤ → String → Option V
  view c now key = live now (lookup key c.store)

  -- A read gives the view, and the entry that it drops cannot be seen from then on.
  pub get-view :
      (c : TtlCache V) (now later : ℤ) (key other : String)
      → now ≤ℤ later
      → ((Cache.get now key c).0 ≡ view c now key)
        × (view (Cache.get now key c).1 later other ≡ view c later other)
  unfolding Cache.get view
  get-view c now later key other h =
      ground (arith, lookup-delete key other c.store, eq_iff key other)

  -- Right after a write at `now`, and until something else happens to the key, a read at `later`
  -- gives the value exactly while `later` is not after `now` plus the lifetime.
  view-set :
      (c : TtlCache V) (now later : ℤ) (key other : String) (v : V)
      → view (Cache.set now key v c) later other ≡ (
          if key == other
          then (if ltℤ (now +ℤ c.ttl) later then none else some v)
          else view c later other)
  unfolding Cache.set view
  view-set c now later key other v =
      ground
        (arith, lookup-insert key other (record { value = v; expires_at = now +ℤ c.ttl }) c.store)

  view-delete :
      (c : TtlCache V) (later : ℤ) (key other : String)
      → view (Cache.delete key c) later other ≡ (if key == other then none else view c later other)
  unfolding Cache.delete view
  view-delete c later key other = ground (arith, lookup-delete key other c.store)

  view-clear :
      (c : TtlCache V) (later : ℤ) (other : String) → view (Cache.clear c) later other ≡ none
  unfolding Cache.clear view lookup
  view-clear c later other = refl

  view-new : (ttl later : ℤ) (other : String) → view (Cache.new {V = V} ttl) later other ≡ none
  unfolding Cache.new view lookup
  view-new ttl later other = refl

-- The calls that change a cache, with the clock's reading where one is taken.
pub data Call (V : Type 0) : Type 0 where
  get : ℤ → String → Call V
  set : ℤ → String → V → Call V
  delete : String → Call V
  clear : Call V

module _ {V : Type 0} where
  -- A history has its last call first.
  unfoldable pub run : ℤ → List (Call V) → TtlCache V
  run ttl [] = Cache.new ttl
  run ttl (get now key ∷ h) = (Cache.get now key (run ttl h)).1
  run ttl (set now key v ∷ h) = Cache.set now key v (run ttl h)
  run ttl (delete key ∷ h) = Cache.delete key (run ttl h)
  run ttl (clear ∷ h) = Cache.clear (run ttl h)

  -- The specification: the last write of the key, if it is young enough and nothing removed it.
  abbrev pub expected : ℤ → List (Call V) → ℤ → String → Option V
  expected ttl [] now key = none
  expected ttl (get _ _ ∷ h) now key = expected ttl h now key
  expected ttl (set t k v ∷ h) now key =
      if k == key then (if ltℤ (t +ℤ ttl) now then none else some v) else expected ttl h now key
  expected ttl (delete k ∷ h) now key = if k == key then none else expected ttl h now key
  expected ttl (clear ∷ h) now key = none

  -- No read of the history was made after `now`.
  abbrev pub NotAfter : ℤ → Call V → Type 0
  NotAfter now (get t _) = t ≤ℤ now
  NotAfter now _ = Unit

  ttl-run : (ttl : ℤ) (h : List (Call V)) → (run ttl h).ttl ≡ ttl
  unfolding run Cache.get Cache.set Cache.delete Cache.clear Cache.new
  ttl-run ttl [] = refl
  ttl-run ttl (get now key ∷ h) = ground (arith, ttl-run ttl h)
  ttl-run ttl (set now key v ∷ h) = ttl-run ttl h
  ttl-run ttl (delete key ∷ h) = ttl-run ttl h
  ttl-run ttl (clear ∷ h) = ttl-run ttl h

  view-run :
      (ttl : ℤ) (h : List (Call V)) (now : ℤ) (key : String)
      → All (NotAfter now) h
      → view (run ttl h) now key ≡ expected ttl h now key
  unfolding run
  view-run ttl [] now key o = view-new ttl now key
  view-run ttl (get t k ∷ h) now key o =
      (get-view (run ttl h) t now k key o.0).1 ∙ view-run ttl h now key o.1
  view-run ttl (set t k v ∷ h) now key o =
      view-set (run ttl h) t now k key v ∙ rw (view-run ttl h now key o.1, ttl-run ttl h)
  view-run ttl (delete k ∷ h) now key o =
      view-delete (run ttl h) now k key ∙ rw (view-run ttl h now key o.1)
  view-run ttl (clear ∷ h) now key o = view-clear (run ttl h) now key

  -- Whatever calls were made, a read that is not before an earlier read gives the last value set
  -- under the key, unless it was removed since or its lifetime has passed; then it gives nothing.
  pub get-run :
      (ttl : ℤ) (h : List (Call V)) (now : ℤ) (key : String)
      → All (NotAfter now) h
      → (Cache.get now key (run ttl h)).0 ≡ expected ttl h now key
  get-run ttl h now key o =
      (get-view (run ttl h) now now key key (omega arith)).0 ∙ view-run ttl h now key o
