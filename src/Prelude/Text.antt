-- ===== src/Prelude/Text.antt =====
-- What the program uses of Go's `strings`, over code points. `⊕` joins two texts.
use Prim.Native.Char.{Char, code}
use Prim.Native.String.{String}
use mathlib.Core.Path.{◌≡◌, refl, sym, ap, ◌∙◌}
use mathlib.Core.Logic.{inl, inr}
use mathlib.Core.Bool.{true, false}
use mathlib.Core.List.{List, [], ◌∷◌}
use native.Mathlib.Omega.{arith}
use text.Mathlib.TextEquality.{Char-path}
use text.Mathlib.TextLemmas.{nil-append, cons-append}
use capo_shell_mcp.Prelude.Tests.{eqb, eqb_iff, Bool-cases, if◌then◌else◌}
use capo_shell_mcp.Prelude.Lists.{All}

infixr 65 ◌⊕◌
abbrev pub ◌⊕◌ : String → String → String
s ⊕ t = Prim.Native.String.◌++◌ s t

-- strings.Join
unfoldable pub join : String → List String → String
join sep [] = ""
join sep (x ∷ []) = x
join sep (x ∷ y ∷ rest) = x ⊕ (sep ⊕ join sep (y ∷ rest))

abbrev cons_head : Char → List String → List String
cons_head c [] = String.◌∷◌ c "" ∷ []
cons_head c (x ∷ xs) = String.◌∷◌ c x ∷ xs

-- strings.Split(s, "/")
unfoldable pub split : String → List String
split String.[] = "" ∷ []
split (String.◌∷◌ c s) =
    let rest = split s in if eqb (code c) b'/' then "" ∷ rest else cons_head c rest

-- A text that is one segment of a path.
abbrev pub NoSlash : String → Type 0
NoSlash String.[] = Unit
NoSlash (String.◌∷◌ c s) = (eqb (code c) b'/' ≡ false) × NoSlash s

pub split_cons : (s : String) → (x : String) × (xs : List String) × (split s ≡ x ∷ xs)
unfolding split
split_cons String.[] = ("", [], refl)
split_cons (String.◌∷◌ c s) =
    let (x, xs, e) = split_cons s in
    elim (Bool-cases (eqb (code c) b'/')) [
      | inl h ↦ ("", x ∷ xs, ground (arith, e))
      | inr h ↦ (String.◌∷◌ c x, xs, ground (arith, e))
    ]

join-cons_head :
    (c : Char) (x : String) (xs : List String)
    → join "/" (String.◌∷◌ c x ∷ xs) ≡ String.◌∷◌ c (join "/" (x ∷ xs))
unfolding join
join-cons_head c x [] = refl
join-cons_head c x (y ∷ ys) = cons-append c x _

slash_cons : (c : Char) (s : String) → eqb (code c) b'/' ≡ true → "/" ⊕ s ≡ String.◌∷◌ c s
slash_cons c s h =
    cons-append "/" "" s
    ∙ rw nil-append (ap (λ d. String.◌∷◌ d s) (Char-path "/" c (sym ((eqb_iff (code c) b'/').0 h))))

join-nil_head : (y : String) (ys : List String) → join "/" ("" ∷ y ∷ ys) ≡ "/" ⊕ join "/" (y ∷ ys)
unfolding join
join-nil_head y ys = nil-append _

slash-append : (r : String) → "/" ⊕ r ≡ String.◌∷◌ "/" r
slash-append r = slash_cons "/" r refl

-- Splitting a text and joining the parts gives the text back.
pub join-split : (s : String) → join "/" (split s) ≡ s
unfolding split
join-split String.[] = unfold join in refl
join-split (String.◌∷◌ c s) =
    let (x, xs, e) = split_cons s in
    let ih : join "/" (x ∷ xs) ≡ s = rw e at (join-split s) in
    elim (Bool-cases (eqb (code c) b'/')) [
      | inl h ↦ rw (h, e) (join-nil_head x xs ∙ slash_cons c _ h ∙ ap (λ t. String.◌∷◌ c t) ih)
      | inr h ↦ rw (h, e) (join-cons_head c x xs ∙ ap (λ t. String.◌∷◌ c t) ih)
    ]

-- A segment in front of the rest of a path is split off.
pub split-append : (x r : String) → NoSlash x → split (x ⊕ ("/" ⊕ r)) ≡ x ∷ split r
unfolding split
split-append String.[] r h = ap split (nil-append _ ∙ slash-append r)
split-append (String.◌∷◌ c x) r h = ap split (cons-append c x _) ∙ rw (h.0, split-append x r h.1)

pub split_of_NoSlash : (x : String) → NoSlash x → split x ≡ x ∷ []
unfolding split
split_of_NoSlash String.[] h = refl
split_of_NoSlash (String.◌∷◌ c x) h = rw (h.0, split_of_NoSlash x h.1)

pub split-NoSlash : (s : String) → All NoSlash (split s)
unfolding split
split-NoSlash String.[] = (tt, tt)
split-NoSlash (String.◌∷◌ c s) =
    let (x, xs, e) = split_cons s in
    let ih : All NoSlash (x ∷ xs) = rw e at (split-NoSlash s) in
    elim (Bool-cases (eqb (code c) b'/')) [
      | inl h ↦ rw (h, e) (tt, ih)
      | inr h ↦ rw (h, e) ((h, ih.0), ih.1)
    ]

-- Joining segments without a slash and splitting the path gives the segments back.
pub split-join :
    (x : String) (xs : List String) → All NoSlash (x ∷ xs) → split (join "/" (x ∷ xs)) ≡ x ∷ xs
unfolding join
split-join x [] h = split_of_NoSlash x h.0
split-join x (y ∷ ys) h = split-append x _ h.0 ∙ ap (λ l. x ∷ l) (split-join y ys h.1)
