-- ===== src/FanOut/Laws.antt =====
-- The results of a fan-out, for any order in which its goroutines run.
use capo_shell_mcp.Prelude.{
  ℕ, suc, ◌≤◌, ◌≡◌, ◌⊎◌, inl, inr, ◌↔◌, refl, sym, ap, ap₂, ◌∙◌, String, List, [], ◌∷◌, map, All,
  eqb, eqb_iff, Bool-cases, arith,
}
use capo_shell_mcp.FanOut.{enumerate, put, run_jobs, collect, fan_out}

-- The goroutine for the `i`-th target, `t`, is in the list.
abbrev pub Runs : ℕ → String → List (ℕ × String) → Type 0
Runs i t [] = ⊥
Runs i t ((j, u) ∷ order) = ((j ≡ i) × (u ≡ t)) ⊎ Runs i t order

-- An order in which the goroutines for these targets run.
abbrev pub IsSchedule : List (ℕ × String) → List String → Type 0
IsSchedule order targets = (i : ℕ) (t : String) → Runs i t order ↔ Runs i t (enumerate 0 targets)

pub Runs-le : (i k : ℕ) (t : String) (ts : List String) → Runs i t (enumerate k ts) → k ≤ i
Runs-le i k t [] h = absurd h
Runs-le i k t (u ∷ ts) (inl (e, _)) = omega (arith, e)
Runs-le i k t (u ∷ ts) (inr h) = omega (arith, Runs-le i (suc k) t ts h)

pub Runs-unique :
    (i k : ℕ) (t u : String) (ts : List String)
    → Runs i t (enumerate k ts)
    → Runs i u (enumerate k ts)
    → t ≡ u
Runs-unique i k t u [] h g = absurd h
Runs-unique i k t u (x ∷ ts) (inl (_, e)) (inl (_, f)) = sym e ∙ f
Runs-unique i k t u (x ∷ ts) (inl (e, _)) (inr g) =
    absurd (omega (arith, e, Runs-le i (suc k) u ts g))
Runs-unique i k t u (x ∷ ts) (inr h) (inl (e, _)) =
    absurd (omega (arith, e, Runs-le i (suc k) t ts h))
Runs-unique i k t u (x ∷ ts) (inr h) (inr g) = Runs-unique i (suc k) t u ts h g

module _ {R K : Type 0} (f : R → K) (g : String → K) where
  pub collect-map :
      (results : ℕ → R) (k : ℕ) (ts : List String)
      → ((i : ℕ) (t : String) → Runs i t (enumerate k ts) → f (results i) ≡ g t)
      → map f (collect results k ts) ≡ map g ts
  collect-map results k [] h = refl
  collect-map results k (t ∷ ts) h =
      ap₂ (λ x xs. x ∷ xs) (h k t (inl (refl, refl)))
        (collect-map results (suc k) ts (λ i u r. h i u (inr r)))

-- `f` of the result of a goroutine is `g` of its target.
module _ {S R K : Type 0} (job : String → S → R × S) (f : R → K) (g : String → K)
    (same : (t : String) (s : S) → f (job t s).0 ≡ g t) where
  run_jobs-at :
      (order : List (ℕ × String)) (results : ℕ → R) (s : S) (i : ℕ) (c : K)
      → ((t : String) → Runs i t order → g t ≡ c)
      → ((t : String) × Runs i t order) ⊎ (f (results i) ≡ c)
      → f ((run_jobs job order results s).0 i) ≡ c
  unfolding run_jobs
  run_jobs-at [] results s i c h (inl (t, r)) = absurd r
  run_jobs-at [] results s i c h (inr e) = e
  run_jobs-at ((j, u) ∷ order) results s i c h k =
      run_jobs-at order (put results j (job u s).0) (job u s).1 i c (λ t r. h t (inr r))
        (elim (Bool-cases (eqb j i)) [
          | inl e ↦ inr (rw e (same u s ∙ h u (inl ((eqb_iff j i).0 e, refl))))
          | inr e ↦ elim k [
            | inl (t, inl (x, _)) ↦ absurd (cc (e, (eqb_iff j i).1 x))
            | inl (t, inr r) ↦ inl (t, r)
            | inr x ↦ inr (rw e x)
          ]
        ])

  pub fan_out-map :
      (zero_value : R) (order : List (ℕ × String)) (targets : List String) (s : S)
      → IsSchedule order targets
      → map f (fan_out job zero_value order targets s).0 ≡ map g targets
  unfolding fan_out
  fan_out-map zero_value order targets s h =
      collect-map f g (run_jobs job order (λ _. zero_value) s).0 0 targets (λ i t r.
        run_jobs-at order (λ _. zero_value) s i (g t)
          (λ u q. ap g (Runs-unique i 0 u t targets ((h i u).0 q) r)) (inl (t, (h i t).1 r)))

-- Nothing runs for no targets.
pub IsSchedule-nil : (order : List (ℕ × String)) → IsSchedule order [] → order ≡ []
IsSchedule-nil [] h = refl
IsSchedule-nil ((i, t) ∷ order) h = absurd ((h i t).0 (inl (refl, refl)))

pub map_id : {A : Type 0} (ts : List A) → map (λ t. t) ts ≡ ts
map_id [] = refl
map_id (t ∷ ts) = ap (λ us. t ∷ us) (map_id ts)

-- If the result of a goroutine names its target, the results name the targets.
pub fan_out-targets :
    {S R : Type 0} (job : String → S → R × S) (f : R → String)
    → ((t : String) (s : S) → f (job t s).0 ≡ t)
    → (zero_value : R) (order : List (ℕ × String)) (targets : List String) (s : S)
    → IsSchedule order targets
    → map f (fan_out job zero_value order targets s).0 ≡ targets
fan_out-targets job f same zero_value order targets s h =
    fan_out-map job f (λ t. t) same zero_value order targets s h ∙ map_id targets

-- Every goroutine leaves a state that has `P`, if it finds one.
module _ {S R : Type 0} (job : String → S → R × S) (P : S → Type 0)
    (each : (t : String) (s : S) → P s → P (job t s).1) where
  run_jobs-keeps :
      (order : List (ℕ × String)) (results : ℕ → R) (s : S)
      → P s
      → P (run_jobs job order results s).1
  unfolding run_jobs
  run_jobs-keeps [] results s p = p
  run_jobs-keeps ((j, u) ∷ order) results s p =
      run_jobs-keeps order (put results j (job u s).0) (job u s).1 (each u s p)

  pub fan_out-keeps :
      (zero_value : R) (order : List (ℕ × String)) (targets : List String) (s : S)
      → P s
      → P (fan_out job zero_value order targets s).1
  unfolding fan_out
  fan_out-keeps zero_value order targets s p = run_jobs-keeps order (λ _. zero_value) s p

-- What it gives for such a state has `Q`.
module _ {S R : Type 0} (job : String → S → R × S) (P : S → Type 0) (Q : R → Type 0)
    (each : (t : String) (s : S) → P s → Q (job t s).0 × P (job t s).1) where
  run_jobs-has :
      (order : List (ℕ × String)) (results : ℕ → R) (s : S) (i : ℕ)
      → P s
      → ((t : String) × Runs i t order) ⊎ Q (results i)
      → Q ((run_jobs job order results s).0 i)
  unfolding run_jobs
  run_jobs-has [] results s i p (inl (t, r)) = absurd r
  run_jobs-has [] results s i p (inr q) = q
  run_jobs-has ((j, u) ∷ order) results s i p k =
      run_jobs-has order (put results j (job u s).0) (job u s).1 i (each u s p).1
        (elim (Bool-cases (eqb j i)) [
          | inl e ↦ inr (rw e (each u s p).0)
          | inr e ↦ elim k [
            | inl (t, inl (x, _)) ↦ absurd (cc (e, (eqb_iff j i).1 x))
            | inl (t, inr r) ↦ inl (t, r)
            | inr x ↦ inr (rw e x)
          ]
        ])

  collect-has :
      (results : ℕ → R) (k : ℕ) (ts : List String)
      → ((i : ℕ) (t : String) → Runs i t (enumerate k ts) → Q (results i))
      → All Q (collect results k ts)
  collect-has results k [] h = tt
  collect-has results k (t ∷ ts) h =
      (h k t (inl (refl, refl)), collect-has results (suc k) ts (λ i u r. h i u (inr r)))

  pub fan_out-has :
      (zero_value : R) (order : List (ℕ × String)) (targets : List String) (s : S)
      → IsSchedule order targets
      → P s
      → All Q (fan_out job zero_value order targets s).0
  unfolding fan_out
  fan_out-has zero_value order targets s h p =
      collect-has (run_jobs job order (λ _. zero_value) s).0 0 targets
        (λ i t r. run_jobs-has order (λ _. zero_value) s i p (inl (t, (h i t).1 r)))
