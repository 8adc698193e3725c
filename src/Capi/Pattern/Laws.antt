-- ===== src/Capi/Pattern/Laws.antt =====
-- Parsing patterns, and patterns as prefixes of the path of a cluster.
use capo_shell_mcp.Prelude.{
  suc, String, ◌≡◌, ◌≢◌, ◌≤◌, refl, sym, ap, ◌∙◌, ◌↔◌, List, [], ◌∷◌, arith, true, false, ok, join,
  split, split-join, join-split, split-NoSlash, split_cons, NoSlash, All, length, contains, subst,
  if◌then◌else◌, Bool-cases, inl, inr, ◌==◌, eq_iff,
}
use capo_shell_mcp.Capi.Target.{CapiCluster, path_fields}
use capo_shell_mcp.Capi.Target.Laws.{slashes, length-split}
use capo_shell_mcp.Capi.Pattern.{
  TargetPattern, is_exact, fill, check_parts, parse_target_pattern, matches,
}

-- The fields are filled from the left, and the first one is not empty.
pub record IsLeftFilled (p : TargetPattern) : Type 0 where
  pub first : p.kubeconfig_name ≢ ""
  pub second : p.context ≡ "" → p.namespace ≡ ""
  pub third : p.namespace ≡ "" → p.name ≡ ""

-- The fields up to the first empty one.
abbrev pub segments : TargetPattern → List String
segments p =
    p.kubeconfig_name
    ∷ (if p.context == ""
        then []
        else p.context
          ∷ (if p.namespace == ""
              then []
              else p.namespace ∷ (if p.name == "" then [] else p.name ∷ [])))

abbrev pub IsPrefix : List String → List String → Type 0
IsPrefix [] ys = Unit
IsPrefix (x ∷ xs) [] = ⊥
IsPrefix (x ∷ xs) (y ∷ ys) = (y ≡ x) × IsPrefix xs ys

segments-fill :
    (parts : List String)
    → 1 ≤ length parts
    → length parts ≤ 4
    → contains "" parts ≡ false
    → IsLeftFilled (fill parts) × (segments (fill parts) ≡ parts)
unfolding fill contains
segments-fill [] h1 h4 n = absurd (omega arith)
segments-fill (a ∷ []) h1 h4 n = ground (arith, eq_iff a "")
segments-fill (a ∷ b ∷ []) h1 h4 n = ground (arith, eq_iff a "", eq_iff b "")
segments-fill (a ∷ b ∷ c ∷ []) h1 h4 n = ground (arith, eq_iff a "", eq_iff b "", eq_iff c "")
segments-fill (a ∷ b ∷ c ∷ d ∷ []) h1 h4 n =
    ground (arith, eq_iff a "", eq_iff b "", eq_iff c "", eq_iff d "")
segments-fill (a ∷ b ∷ c ∷ d ∷ e ∷ r) h1 h4 n = absurd (omega arith)

-- Which clusters a pattern selects: those whose path begins with the segments of the pattern.
pub matches_iff :
    (p : TargetPattern) (c : CapiCluster)
    → IsLeftFilled p
    → (matches p c ≡ true) ↔ IsPrefix (segments p) (path_fields c)
unfolding matches
matches_iff p c f = ground (
  arith,
  eq_iff c.kubeconfig_name p.kubeconfig_name,
  eq_iff c.context p.context,
  eq_iff c.namespace p.namespace,
  eq_iff c.name p.name,
  eq_iff p.context "",
  eq_iff p.namespace "",
  eq_iff p.name "",
)

pub is_exact_iff :
    (p : TargetPattern) → IsLeftFilled p → (is_exact p ≡ true) ↔ (length (segments p) ≡ 4)
unfolding is_exact
is_exact_iff p f = ground (arith, eq_iff p.context "", eq_iff p.namespace "", eq_iff p.name "")

fill-segments : (p : TargetPattern) → IsLeftFilled p → fill (segments p) ≡ p
unfolding fill
fill-segments p f = ground (arith, eq_iff p.context "", eq_iff p.namespace "", eq_iff p.name "")

segments_nonempty : (p : TargetPattern) → IsLeftFilled p → contains "" (segments p) ≡ false
unfolding contains
segments_nonempty p f = ground (
  arith,
  eq_iff p.kubeconfig_name "",
  eq_iff p.context "",
  eq_iff p.namespace "",
  eq_iff p.name "",
)

length-segments-le : (p : TargetPattern) → length (segments p) ≤ 4
length-segments-le p = ground arith

check_parts-ok :
    (t : String) (parts : List String) (p : TargetPattern)
    → check_parts t parts ≡ ok p
    → (length parts ≤ 4) × (contains "" parts ≡ false) × (fill parts ≡ p)
unfolding check_parts
check_parts-ok t parts p h = ground arith

-- A parsed pattern is the text that was split, field by field.
pub parse_target_pattern-split :
    (t : String) (p : TargetPattern)
    → parse_target_pattern t ≡ ok p
    → IsLeftFilled p × (segments p ≡ split t)
unfolding parse_target_pattern
parse_target_pattern-split t p h =
    let (x, xs, e) = split_cons t in
    let (short, full, same) = check_parts-ok t (split t) p (ground arith) in
    let long : 1 ≤ length (split t) = rw e (omega arith) in
    subst (λ q. IsLeftFilled q × (segments q ≡ split t)) same
      (segments-fill (split t) long short full)

check_parts_of_segments :
    (t : String) (p : TargetPattern) → IsLeftFilled p → check_parts t (segments p) ≡ ok p
unfolding check_parts
check_parts_of_segments t p f =
    ground (arith, length-segments-le p, segments_nonempty p f, fill-segments p f)

split-nil : split "" ≡ "" ∷ []
unfolding split
split-nil = refl

head_empty :
    (t : String) (p : TargetPattern) → t ≡ "" → split t ≡ segments p → p.kubeconfig_name ≡ ""
head_empty t p z e = cc (sym e ∙ ap split z ∙ split-nil)

parse_of_segments :
    (t : String) (p : TargetPattern)
    → split t ≡ segments p
    → IsLeftFilled p
    → parse_target_pattern t ≡ ok p
unfolding parse_target_pattern
parse_of_segments t p e f = elim (Bool-cases (t == "")) [
  | inl h ↦ absurd (f.first (head_empty t p ((eq_iff t "").0 h) e))
  | inr h ↦ rw h (subst (λ l. check_parts t l ≡ ok p) (sym e) (check_parts_of_segments t p f))
]

-- `parse_target_pattern` gives a pattern exactly when the pattern is filled from the left, none of
-- its segments holds a slash, and joining them gives the text that was parsed.
pub parse_target_pattern_iff :
    (t : String) (p : TargetPattern)
    → (parse_target_pattern t ≡ ok p)
      ↔ (IsLeftFilled p × All NoSlash (segments p) × (join "/" (segments p) ≡ t))
parse_target_pattern_iff t p = (
  λ h.
      let (f, e) = parse_target_pattern-split t p h in
      (f, subst (All NoSlash) (sym e) (split-NoSlash t), ap (join "/") e ∙ join-split t),
  λ h. parse_of_segments t p (ap split (sym (h.2)) ∙ split-join _ _ h.1) h.0,
)

pub is_exact_of_parse :
    (t : String) (p : TargetPattern)
    → parse_target_pattern t ≡ ok p
    → (is_exact p ≡ true) ↔ (slashes t ≡ 3)
is_exact_of_parse t p h =
    let (f, e) = parse_target_pattern-split t p h in
    let n : length (segments p) ≡ suc (slashes t) = ap length e ∙ length-split t in
    let (to, from) = is_exact_iff p f in (λ x. omega (arith, to x), λ x. from (omega arith))
