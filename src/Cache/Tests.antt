-- ===== src/Cache/Tests.antt =====
-- Tests of the cache on concrete histories.
use capo_shell_mcp.Prelude.{
  pos, negsuc, ◌+ℤ◌, ◌≡◌, refl, ℕ, some, none, List, [], ◌∷◌, lookup, insert, delete as map_delete,
  arith,
}
use capo_shell_mcp.Cache
use capo_shell_mcp.Cache.History.{Call, get, set, delete, run, view, get-view, get-run}

-- The last call first: "a" is written at 10, read at 12, and "b" is removed.
abbrev history : List (Call ℕ)
history = delete "b" ∷ get (pos 12) "a" ∷ set (pos 10) "a" 7 ∷ set (pos 9) "b" 8 ∷ []

young : (Cache.get (pos 15) "a" (run (pos 5) history)).0 ≡ some 7
unfolding run Cache.get Cache.set Cache.delete Cache.new lookup insert map_delete ◌+ℤ◌
young = refl

old : (Cache.get (pos 16) "a" (run (pos 5) history)).0 ≡ none
unfolding run Cache.get Cache.set Cache.delete Cache.new lookup insert map_delete ◌+ℤ◌
old = refl

-- With a negative lifetime nothing is ever found.
negative : (Cache.get {V = ℕ} (pos 10) "a" (run (negsuc 0) (set (pos 10) "a" 7 ∷ []))).0 ≡ none
unfolding run Cache.get Cache.set Cache.new lookup insert ◌+ℤ◌
negative = refl

get-run_example : (Cache.get (pos 15) "a" (run (pos 5) history)).0 ≡ some 7
unfolding ◌+ℤ◌
get-run_example = get-run (pos 5) history (pos 15) "a" (tt, (omega arith, (tt, (tt, tt))))

get-view_test :
    ((Cache.get (pos 16) "a" (run (pos 5) history)).0 ≡ view (run (pos 5) history) (pos 16) "a")
    × (view (Cache.get (pos 16) "a" (run (pos 5) history)).1 (pos 17) "b"
        ≡ view (run (pos 5) history) (pos 17) "b")
get-view_test = get-view (run (pos 5) history) (pos 16) (pos 17) "a" "b" (omega arith)
