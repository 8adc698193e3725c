-- ===== src/Shell/ExecFile/Copy.antt =====
-- What the writers of `ExecFile` take of the chunks of a process.
use capo_shell_mcp.Prelude.{
  ℕ, zero, suc, ◌+◌, ◌≤◌, ◌<◌, ◌≡◌, refl, ◌∙◌, sym, ◌⊎◌, inl, inr, ◌↔◌, Bool, true, false, ◌&&◌,
  Option, none, some, List, [], ◌∷◌, ◌++◌, append-nil, append_assoc, length, arith,
}
use capo_shell_mcp.Shell.Limit.{
  Stream, to_stdout, to_stderr, Capture, fresh, write, write_all, sent_to, total, write_all-le-max,
  write_all-sent,
}
use capo_shell_mcp.Shell.ExecFile.{Writer, buffered, writer}

-- The chunks, written in turn, whatever becomes of each.
abbrev pub copy : Writer → List (Stream × List ℕ) → Capture → Capture
copy w [] c = c
copy w ((s, p) ∷ ws) c = copy w ws (w s p c).1

abbrev was_written : Option ℕ × Capture → Bool
was_written (none, c) = false
was_written (some n, c) = true

abbrev pub accepts : Writer → List (Stream × List ℕ) → Capture → Bool
accepts w [] c = true
accepts w ((s, p) ∷ ws) c = was_written (w s p c) && accepts w ws (w s p c).1

accepts-write :
    (ws : List (Stream × List ℕ)) (c : Capture)
    → c.written ≤ c.max
    → (accepts write ws c ≡ true) ↔ (c.written + total ws ≤ c.max)
unfolding write
accepts-write [] c h = ground arith
accepts-write ((to_stdout, p) ∷ ws) c h = ground (arith, accepts-write ws (write to_stdout p c).1)
accepts-write ((to_stderr, p) ∷ ws) c h = ground (arith, accepts-write ws (write to_stderr p c).1)

accepts-buffered : (ws : List (Stream × List ℕ)) (c : Capture) → accepts buffered ws c ≡ true
accepts-buffered [] c = refl
accepts-buffered ((to_stdout, p) ∷ ws) c = accepts-buffered ws (buffered to_stdout p c).1
accepts-buffered ((to_stderr, p) ∷ ws) c = accepts-buffered ws (buffered to_stderr p c).1

copy-write : (ws : List (Stream × List ℕ)) (c : Capture) → copy write ws c ≡ write_all ws c
unfolding write_all
copy-write [] c = refl
copy-write ((s, p) ∷ ws) c = copy-write ws (write s p c).1

copy-buffered :
    (ws : List (Stream × List ℕ)) (c : Capture)
    → ((copy buffered ws c).stdout ≡ c.stdout ++ sent_to to_stdout ws)
      × ((copy buffered ws c).stderr ≡ c.stderr ++ sent_to to_stderr ws)
copy-buffered [] c = (sym (append-nil c.stdout), sym (append-nil c.stderr))
copy-buffered ((to_stdout, p) ∷ ws) c =
    let (o, e) = copy-buffered ws (buffered to_stdout p c).1 in (o ∙ append_assoc c.stdout p _, e)
copy-buffered ((to_stderr, p) ∷ ws) c =
    let (o, e) = copy-buffered ws (buffered to_stderr p c).1 in (o, e ∙ append_assoc c.stderr p _)

-- There is no cap, or it is not exceeded.
abbrev pub Fits : ℕ → List (Stream × List ℕ) → Type 0
Fits max ws = (max ≡ 0) ⊎ (total ws ≤ max)

pub accepts-writer :
    (max : ℕ) (ws : List (Stream × List ℕ))
    → (accepts (writer max) ws (fresh max) ≡ true) ↔ Fits max ws
unfolding writer
accepts-writer zero ws = (λ h. inl refl, λ h. accepts-buffered ws (fresh 0))
accepts-writer (suc n) ws =
    let (to, from) = accepts-write ws (fresh (suc n)) (omega arith) in
    (λ h. inr (omega (arith, to h)), λ h. from (omega (arith, h)))

-- The two buffers after everything was taken.
pub copy-writer :
    (max : ℕ) (ws : List (Stream × List ℕ))
    → Fits max ws
    → ((copy (writer max) ws (fresh max)).stdout ≡ sent_to to_stdout ws)
      × ((copy (writer max) ws (fresh max)).stderr ≡ sent_to to_stderr ws)
unfolding writer
copy-writer zero ws h = copy-buffered ws (fresh 0)
copy-writer (suc n) ws h =
    let sent = write_all-sent ws (suc n) (omega (arith, h)) in
    rw (copy-write ws (fresh (suc n))) sent

pub copy-le-max :
    (max : ℕ) (ws : List (Stream × List ℕ))
    → 0 < max
    → length (copy (writer max) ws (fresh max)).stdout
        + length (copy (writer max) ws (fresh max)).stderr
      ≤ max
unfolding writer
copy-le-max zero ws h = omega (arith, h)
copy-le-max (suc n) ws h = rw (copy-write ws (fresh (suc n))) (write_all-le-max ws (suc n))
