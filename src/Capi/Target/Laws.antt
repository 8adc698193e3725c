-- ===== src/Capi/Target/Laws.antt =====
-- Composite targets as an encoding of four fields.
use Prim.Native.Char.{code}
use capo_shell_mcp.Prelude.{
  ℕ, suc, String, ◌≡◌, ◌≢◌, refl, sym, ap, ◌∙◌, ◌↔◌, List, [], ◌∷◌, arith, ok, err, invalid_target,
  join, split, split-join, join-split, split-NoSlash, split_cons, NoSlash, All, length, eqb,
  if◌then◌else◌, Bool-cases, inl, inr,
}
use capo_shell_mcp.Capi.Target.{CapiCluster, path_fields, format_target, four_parts, parse_target}

-- Inversion of a successful parse.
four_parts-ok :
    (t : String) (parts : List String) (a b c d : String)
    → four_parts t parts ≡ ok (a, b, c, d)
    → parts ≡ a ∷ b ∷ c ∷ d ∷ []
unfolding four_parts
four_parts-ok t (x ∷ y ∷ z ∷ w ∷ []) a b c d h = ground arith
four_parts-ok t _ a b c d h = cc

pub parse_target-split :
    (t a b c d : String) → parse_target t ≡ ok (a, b, c, d) → split t ≡ a ∷ b ∷ c ∷ d ∷ []
unfolding parse_target
parse_target-split t a b c d h = four_parts-ok t (split t) a b c d h

pub parse_of_split :
    (t a b c d : String) → split t ≡ a ∷ b ∷ c ∷ d ∷ [] → parse_target t ≡ ok (a, b, c, d)
unfolding parse_target
parse_of_split t a b c d h = rw h

-- `parse_target` gives four fields exactly when no field holds a slash and `format_target` of
-- them is the text that was parsed.
pub parse_target_iff :
    (t : String) (c : CapiCluster)
    → (parse_target t ≡ ok (c.kubeconfig_name, c.context, c.namespace, c.name))
      ↔ ((format_target c ≡ t) × All NoSlash (path_fields c))
unfolding format_target
parse_target_iff t c = (
  λ h.
      let e = parse_target-split t _ _ _ _ h in
      (ap (join "/") (sym e) ∙ join-split t, rw e at (split-NoSlash t)),
  λ h. parse_of_split t _ _ _ _ (ap split (sym (h.0)) ∙ split-join _ _ h.1),
)

-- Two clusters with slash-free fields and the same target agree in all four fields.
pub format_target_injective :
    (c d : CapiCluster)
    → All NoSlash (path_fields c)
    → All NoSlash (path_fields d)
    → format_target c ≡ format_target d
    → path_fields c ≡ path_fields d
unfolding format_target
format_target_injective c d hc hd e = sym (split-join _ _ hc) ∙ ap split e ∙ split-join _ _ hd

-- The number of slashes of a text.
abbrev pub slashes : String → ℕ
slashes String.[] = 0
slashes (String.◌∷◌ c s) = if eqb (code c) b'/' then suc (slashes s) else slashes s

pub length-split : (t : String) → length (split t) ≡ suc (slashes t)
unfolding split
length-split String.[] = refl
length-split (String.◌∷◌ c s) =
    let (x, xs, e) = split_cons s in
    let ih : length (x ∷ xs) ≡ suc (slashes s) = rw e at (length-split s) in
    elim (Bool-cases (eqb (code c) b'/')) [ inl h ↦ rw (h, e) (ap suc ih) | inr h ↦ rw (h, e) ih ]

four_parts-err :
    (t : String) (parts : List String)
    → length parts ≢ 4
    → four_parts t parts ≡ err (invalid_target t)
unfolding four_parts
four_parts-err t (x ∷ y ∷ z ∷ w ∷ []) h = absurd (h refl)
four_parts-err t _ h = refl

four_parts-ne-err :
    (t : String) (parts : List String)
    → length parts ≡ 4
    → four_parts t parts ≢ err (invalid_target t)
unfolding four_parts
four_parts-ne-err t (x ∷ y ∷ z ∷ w ∷ []) h e = cc
four_parts-ne-err t _ h e = absurd (omega arith)

-- A text is refused, with the error that names it, exactly when it does not have three slashes.
pub parse_target_err_iff :
    (t : String) → (parse_target t ≡ err (invalid_target t)) ↔ (slashes t ≢ 3)
unfolding parse_target
parse_target_err_iff t = (
  λ h e. four_parts-ne-err t (split t) (omega (arith, length-split t)) h,
  λ h. four_parts-err t (split t) (omega (arith, length-split t)),
)

four_parts_of_length :
    (t : String) (parts : List String)
    → length parts ≡ 4
    → (a b c d : String) × (four_parts t parts ≡ ok (a, b, c, d))
unfolding four_parts
four_parts_of_length t (a ∷ b ∷ c ∷ d ∷ []) h = (a, b, c, d, refl)
four_parts_of_length t _ h = absurd (omega arith)

-- A text with three slashes is parsed.
pub parse_target_of_slashes :
    (t : String) → slashes t ≡ 3 → (a b c d : String) × (parse_target t ≡ ok (a, b, c, d))
unfolding parse_target
parse_target_of_slashes t h = four_parts_of_length t (split t) (omega (arith, length-split t))
