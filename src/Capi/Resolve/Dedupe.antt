-- ===== src/Capi/Resolve/Dedupe.antt =====
-- Deduplication, and first occurrences as its specification.
use capo_shell_mcp.Prelude.{
  String, false, ◌≡◌, refl, sym, ap, ◌∙◌, ◌↔◌, List, [], ◌∷◌, ◌++◌, append_assoc, append-nil,
  contains, contains_iff, In, NoDup, if◌then◌else◌, ◌==◌, eq_iff, eq_refl, arith,
}
use capo_shell_mcp.Capi.Resolve.{add, add_all, dedupe_preserve_order}

-- The texts of a list that `seen` does not hold, each once: what a loop adds to its result.
pub fresh : List String → List String → List String
fresh seen [] = []
fresh seen (t ∷ ts) = if contains t seen then fresh seen ts else t ∷ fresh (t ∷ seen) ts

-- `l` without the occurrences of `t`.
abbrev pub remove : String → List String → List String
remove t [] = []
remove t (x ∷ xs) = if x == t then remove t xs else x ∷ remove t xs

-- The reference definition: the first text, then the first occurrences of the other ones.
abbrev pub first_occurrences : List String → List String
first_occurrences [] = []
first_occurrences (t ∷ ts) = t ∷ remove t (first_occurrences ts)

pub add_all-fresh :
    (seen out ts : List String)
    → (add_all (record { seen = seen; out = out }) ts).out ≡ out ++ fresh seen ts
unfolding add_all add fresh
add_all-fresh seen out [] = sym (append-nil out)
add_all-fresh seen out (t ∷ ts) = ground (
  arith,
  add_all-fresh seen out ts,
  add_all-fresh (t ∷ seen) (out ++ t ∷ []) ts,
  append_assoc out (t ∷ []) (fresh (t ∷ seen) ts),
)

pub dedupe-fresh : (ts : List String) → dedupe_preserve_order ts ≡ fresh [] ts
unfolding dedupe_preserve_order
dedupe-fresh ts = add_all-fresh [] [] ts

pub In-fresh :
    (t : String) (seen ts : List String)
    → In t (fresh seen ts) ↔ ((contains t seen ≡ false) × In t ts)
unfolding fresh contains
In-fresh t seen [] = (λ h. absurd h, λ h. absurd h.1)
In-fresh t seen (x ∷ xs) = ground (arith, In-fresh t seen xs, In-fresh t (x ∷ seen) xs, eq_iff x t)

pub fresh-NoDup : (seen ts : List String) → NoDup (fresh seen ts)
unfolding fresh contains
fresh-NoDup seen [] = tt
fresh-NoDup seen (x ∷ xs) = ground (
  arith,
  fresh-NoDup seen xs,
  fresh-NoDup (x ∷ seen) xs,
  eq_refl x,
  contains_iff x (fresh (x ∷ seen) xs),
  In-fresh x (x ∷ seen) xs,
)

remove_idem : (x : String) (l : List String) → remove x (remove x l) ≡ remove x l
remove_idem x [] = refl
remove_idem x (y ∷ l) = ground (arith, remove_idem x l)

remove_comm : (x y : String) (l : List String) → remove x (remove y l) ≡ remove y (remove x l)
remove_comm x y [] = refl
remove_comm x y (z ∷ l) = ground (arith, remove_comm x y l)

-- One more text in `seen` is one text less in the result.
fresh-cons : (x : String) (seen ts : List String) → fresh (x ∷ seen) ts ≡ remove x (fresh seen ts)
unfolding fresh contains
fresh-cons x seen [] = refl
fresh-cons x seen (y ∷ ys) = ground (
  arith,
  eq_iff x y,
  eq_iff y x,
  fresh-cons x seen ys,
  fresh-cons y seen ys,
  fresh-cons y (x ∷ seen) ys,
  remove_idem x (fresh seen ys),
  remove_comm x y (fresh seen ys),
)

fresh-first_occurrences : (ts : List String) → fresh [] ts ≡ first_occurrences ts
unfolding fresh contains
fresh-first_occurrences [] = refl
fresh-first_occurrences (t ∷ ts) =
    ap (λ l. t ∷ l) (fresh-cons t [] ts ∙ ap (remove t) (fresh-first_occurrences ts))

-- `dedupePreserveOrder` is the reference definition: the first occurrences, in their order.
pub dedupe-first_occurrences : (ts : List String) → dedupe_preserve_order ts ≡ first_occurrences ts
dedupe-first_occurrences ts = dedupe-fresh ts ∙ fresh-first_occurrences ts
