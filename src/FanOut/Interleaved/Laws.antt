-- ===== src/FanOut/Interleaved/Laws.antt =====
-- What holds of every interleaving that is complete, and that there is one.
use capo_shell_mcp.Prelude.{
  ℕ, zero, suc, ◌+◌, ◌<◌, ◌≡◌, refl, sym, ap, ◌∙◌, subst, inl, inr, String, List, [], ◌∷◌, ◌++◌,
  map, eqb, eqb_iff, Bool-cases, length, arith,
}
use capo_shell_mcp.FanOut.{enumerate, fan_out}
use capo_shell_mcp.FanOut.Laws.{Runs, Runs-le, IsSchedule, collect-map, fan_out-map, map_id}
use capo_shell_mcp.FanOut.Interleaved.{
  Goroutine, done, call, advance, run_whole, put_back, run_turns, start_goroutines, result_of,
  interleaved, IsDone, DoneFrom, AllDone,
}

module _ {S R : Type 0} where
  -- Whatever the others do meanwhile, the goroutine ends with a result that has `Q`.
  abbrev pub Ends : (R → Type 0) → Goroutine S R → Type 0
  Ends Q (done r) = Q r
  Ends Q (call change next) = (s : S) → Ends Q (next s)

  advance-Ends : (Q : R → Type 0) (g : Goroutine S R) (s : S) → Ends Q g → Ends Q (advance g s).0
  unfolding advance
  advance-Ends Q (done r) s h = h
  advance-Ends Q (call change next) s h = h s

  run_turns-Ends :
      (Q : R → Type 0) (turns : List ℕ) (gs : ℕ → Goroutine S R) (s : S) (i : ℕ)
      → Ends Q (gs i)
      → Ends Q ((run_turns turns gs s).0 i)
  unfolding run_turns
  run_turns-Ends Q [] gs s i h = h
  run_turns-Ends Q (j ∷ turns) gs s i h =
      run_turns-Ends Q turns (put_back gs j (advance (gs j) s).0) (advance (gs j) s).1 i
        (elim (Bool-cases (eqb j i)) [
          | inl e ↦
              rw e
                (advance-Ends Q (gs j) s (subst (λ k. Ends Q (gs k)) (sym ((eqb_iff j i).0 e)) h))
          | inr e ↦ rw e h
        ])

  module _ (zero_value : R) (job : String → Goroutine S R) where
    start_goroutines-at :
        (k i : ℕ) (t : String) (ts : List String)
        → Runs i t (enumerate k ts)
        → start_goroutines zero_value job k ts i ≡ job t
    unfolding start_goroutines
    start_goroutines-at k i t [] h = absurd h
    start_goroutines-at k i t (u ∷ ts) (inl (e, q)) = rw ((eqb_iff k i).1 e) (ap job q)
    start_goroutines-at k i t (u ∷ ts) (inr h) = elim (Bool-cases (eqb k i)) [
      | inl e ↦ absurd (omega (arith, (eqb_iff k i).0 e, Runs-le i (suc k) t ts h))
      | inr e ↦ rw e (start_goroutines-at (suc k) i t ts h)
    ]

    Ends-result :
        (Q : R → Type 0) (g : Goroutine S R)
        → IsDone zero_value g
        → Ends Q g
        → Q (result_of zero_value g)
    Ends-result Q (done r) d h = h
    Ends-result Q (call change next) d h = absurd d

    DoneFrom-at :
        (k i : ℕ) (t : String) (gs : ℕ → Goroutine S R) (ts : List String)
        → DoneFrom zero_value k gs ts
        → Runs i t (enumerate k ts)
        → IsDone zero_value (gs i)
    DoneFrom-at k i t gs [] d h = absurd h
    DoneFrom-at k i t gs (u ∷ ts) d (inl (e, q)) = subst (λ j. IsDone zero_value (gs j)) e d.0
    DoneFrom-at k i t gs (u ∷ ts) d (inr h) = DoneFrom-at (suc k) i t gs ts d.1 h

    -- If what `f` gives of the result of a goroutine is `g` of its target whatever the others do, the
    -- results of a complete interleaving are in the order of the targets.
    pub interleaved-map :
        {K : Type 0} (f : R → K) (g : String → K)
        → ((t : String) → Ends (λ r. f r ≡ g t) (job t))
        → (turns : List ℕ) (targets : List String) (s : S) → AllDone zero_value job turns targets s
        → map f (interleaved zero_value job turns targets s).0 ≡ map g targets
    unfolding interleaved
    interleaved-map f g ends turns targets s all =
        let gs = (run_turns turns (start_goroutines zero_value job 0 targets) s).0 in
        collect-map f g (λ i. result_of zero_value (gs i)) 0 targets
          (λ i t r.
            Ends-result (λ x. f x ≡ g t) (gs i) (DoneFrom-at 0 i t gs targets all r)
              (run_turns-Ends (λ x. f x ≡ g t) turns (start_goroutines zero_value job 0 targets) s i
                (subst (Ends (λ x. f x ≡ g t)) (sym (start_goroutines-at 0 i t targets r))
                  (ends t))))

-- Some turns complete a fan-out.
module _ {S R : Type 0} (zero_value : R) where
  advance-IsDone :
      (g : Goroutine S R) (s : S) → IsDone zero_value g → IsDone zero_value (advance g s).0
  unfolding advance
  advance-IsDone (done r) s h = tt
  advance-IsDone (call change next) s h = absurd h

  run_turns-IsDone :
      (turns : List ℕ) (gs : ℕ → Goroutine S R) (s : S) (i : ℕ)
      → IsDone zero_value (gs i)
      → IsDone zero_value ((run_turns turns gs s).0 i)
  unfolding run_turns
  run_turns-IsDone [] gs s i h = h
  run_turns-IsDone (j ∷ turns) gs s i h =
      run_turns-IsDone turns (put_back gs j (advance (gs j) s).0) (advance (gs j) s).1 i
        (elim (Bool-cases (eqb j i)) [
          | inl e ↦ rw e (
              advance-IsDone (gs j) s
                (subst (λ k. IsDone zero_value (gs k)) (sym ((eqb_iff j i).0 e)) h))
          | inr e ↦ rw e h
        ])

  run_turns-append :
      (first rest : List ℕ) (gs : ℕ → Goroutine S R) (s : S)
      → run_turns (first ++ rest) gs s
        ≡ run_turns rest (run_turns first gs s).0 (run_turns first gs s).1
  unfolding run_turns
  run_turns-append [] rest gs s = refl
  run_turns-append (i ∷ first) rest gs s =
      run_turns-append first rest (put_back gs i (advance (gs i) s).0) (advance (gs i) s).1

  -- A goroutine is done after some turns of its own.
  finish_one :
      (i : ℕ) (g : Goroutine S R) (gs : ℕ → Goroutine S R) (s : S)
      → gs i ≡ g
      → (turns : List ℕ) × IsDone zero_value ((run_turns turns gs s).0 i)
  unfolding run_turns advance
  finish_one i (done r) gs s e = ([], subst (IsDone zero_value) (sym e) tt)
  finish_one i (call change next) gs s e =
      let (turns, d) =
        finish_one i (next s) (put_back gs i (next s)) (change s)
          (rw ((eqb_iff i i).1 refl) refl) in
      (
        i ∷ turns,
        subst
            (λ g.
              IsDone zero_value
                ((run_turns turns (put_back gs i (advance g s).0) (advance g s).1).0 i))
            (sym e) d,
      )

  finish_below :
      (n : ℕ) (gs : ℕ → Goroutine S R) (s : S)
      → (turns : List ℕ) × ((i : ℕ) → i < n → IsDone zero_value ((run_turns turns gs s).0 i))
  finish_below zero gs s = ([], λ i h. absurd (omega arith))
  finish_below (suc n) gs s =
      let (turns, below) = finish_below n gs s in
      let u = run_turns turns gs s in
      let (more, last) = finish_one n (u.0 n) u.0 u.1 refl in
      (
        turns ++ more,
        λ i h. rw (run_turns-append turns more gs s) (elim (Bool-cases (eqb n i)) [
          | inl e ↦
              subst (λ k. IsDone zero_value ((run_turns more u.0 u.1).0 k)) ((eqb_iff n i).0 e) last
          | inr e ↦ run_turns-IsDone more u.0 u.1 i (below i (ground (arith, eqb_iff n i)))
        ]),
      )

  DoneFrom-all :
      (k : ℕ) (gs : ℕ → Goroutine S R) (ts : List String)
      → ((i : ℕ) → i < k + length ts → IsDone zero_value (gs i))
      → DoneFrom zero_value k gs ts
  DoneFrom-all k gs [] h = tt
  DoneFrom-all k gs (t ∷ ts) h =
      (h k (omega arith), DoneFrom-all (suc k) gs ts (λ i l. h i (omega arith)))

  -- However long the goroutines are, some turns complete the fan-out.
  pub complete_turns :
      (job : String → Goroutine S R) (targets : List String) (s : S)
      → (turns : List ℕ) × AllDone zero_value job turns targets s
  complete_turns job targets s =
      let gs = start_goroutines zero_value job 0 targets in
      let (turns, below) = finish_below (length targets) gs s in
      (turns, DoneFrom-all 0 (run_turns turns gs s).0 targets (λ i l. below i (omega arith)))

module _ {S R : Type 0} where
  pub Ends-run_whole : (Q : R → Type 0) (g : Goroutine S R) (s : S) → Ends Q g → Q (run_whole g s).0
  unfolding run_whole
  Ends-run_whole Q (done r) s h = h
  Ends-run_whole Q (call change next) s h = Ends-run_whole Q (next s) (change s) (h s)

  -- If no result depends on what the others do, every complete interleaving gives the results of the
  -- goroutines that run as a whole, in any order.
  pub interleaved-fan_out :
      (zero_value : R) (job : String → Goroutine S R) (g : String → R)
      → ((t : String) → Ends (λ r. r ≡ g t) (job t))
      → (turns : List ℕ) (order : List (ℕ × String)) (targets : List String) (s u : S)
      → AllDone zero_value job turns targets s
      → IsSchedule order targets
      → (interleaved zero_value job turns targets s).0
        ≡ (fan_out (λ t. run_whole (job t)) zero_value order targets u).0
  interleaved-fan_out zero_value job g ends turns order targets s u all sched =
      sym (map_id (interleaved zero_value job turns targets s).0)
      ∙ interleaved-map zero_value job (λ r. r) g ends turns targets s all
      ∙ sym (
          fan_out-map (λ t. run_whole (job t)) (λ r. r) g
            (λ t v. Ends-run_whole (λ r. r ≡ g t) (job t) v (ends t)) zero_value order targets u
            sched)
      ∙ map_id (fan_out (λ t. run_whole (job t)) zero_value order targets u).0
