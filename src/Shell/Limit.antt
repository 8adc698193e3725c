-- ===== src/Shell/Limit.antt =====
-- `limitedWriter`: two buffers share one budget. A chunk is a list of bytes.
use capo_shell_mcp.Prelude.{
  ℕ, ◌+◌, ◌≤◌, ◌<◌, ◌≡◌, refl, sym, ◌∙◌, Option, none, some, List, [], ◌∷◌, ◌++◌, append_assoc,
  append-nil, length, length-append, ltb, if◌then◌else◌, arith, ◌↔◌,
}

pub data Stream : Type 0 where
  to_stdout to_stderr : Stream

-- The buffers of both writers, with the limit that they share.
pub record Capture : Type 0 where
  pub max : ℕ
  pub written : ℕ
  pub stdout : List ℕ
  pub stderr : List ℕ

abbrev pub fresh : ℕ → Capture
fresh max = record { max = max; written = 0; stdout = []; stderr = [] }

abbrev pub buffer_write : Stream → List ℕ → Capture → Capture
buffer_write to_stdout p c = record c { stdout = c.stdout ++ p }
buffer_write to_stderr p c = record c { stderr = c.stderr ++ p }

-- Write: the number of bytes, or `none` for the error.
unfoldable pub write : Stream → List ℕ → Capture → Option ℕ × Capture
write stream p c =
    let c' = record c { written = c.written + length p } in
    if ltb c'.max c'.written then (none, c') else (some (length p), buffer_write stream p c')

unfoldable pub write_all : List (Stream × List ℕ) → Capture → Capture
write_all [] c = c
write_all ((stream, p) ∷ ws) c = write_all ws (write stream p c).1

-- The bytes that a sequence of writes sends to a stream.
abbrev pub sent_to : Stream → List (Stream × List ℕ) → List ℕ
sent_to s [] = []
sent_to to_stdout ((to_stdout, p) ∷ ws) = p ++ sent_to to_stdout ws
sent_to to_stderr ((to_stderr, p) ∷ ws) = p ++ sent_to to_stderr ws
sent_to s (_ ∷ ws) = sent_to s ws

abbrev pub total : List (Stream × List ℕ) → ℕ
total [] = 0
total ((_, p) ∷ ws) = length p + total ws

-- What is captured is within the budget, and within what was counted.
abbrev IsWithin : Capture → Type 0
IsWithin c =
    (length c.stdout + length c.stderr ≤ c.max) × (length c.stdout + length c.stderr ≤ c.written)

write-IsWithin : (s : Stream) (p : List ℕ) (c : Capture) → IsWithin c → IsWithin (write s p c).1
unfolding write
write-IsWithin to_stdout p c h = ground (arith, length-append c.stdout p)
write-IsWithin to_stderr p c h = ground (arith, length-append c.stderr p)

write-max : (s : Stream) (p : List ℕ) (c : Capture) → (write s p c).1.max ≡ c.max
unfolding write
write-max to_stdout p c = ground arith
write-max to_stderr p c = ground arith

write_all-max : (ws : List (Stream × List ℕ)) (c : Capture) → (write_all ws c).max ≡ c.max
unfolding write_all
write_all-max [] c = refl
write_all-max ((s, p) ∷ ws) c = write_all-max ws (write s p c).1 ∙ write-max s p c

write_all-IsWithin :
    (ws : List (Stream × List ℕ)) (c : Capture) → IsWithin c → IsWithin (write_all ws c)
unfolding write_all
write_all-IsWithin [] c h = h
write_all-IsWithin ((s, p) ∷ ws) c h =
    write_all-IsWithin ws (write s p c).1 (write-IsWithin s p c h)

-- Whatever is written, in whatever order, both buffers together never hold more than the limit.
pub write_all-le-max :
    (ws : List (Stream × List ℕ)) (max : ℕ)
    → length (write_all ws (fresh max)).stdout + length (write_all ws (fresh max)).stderr ≤ max
write_all-le-max ws max =
    omega (arith, (write_all-IsWithin ws (fresh max) (omega arith)).0, write_all-max ws (fresh max))

write-fits :
    (s : Stream) (p : List ℕ) (c : Capture)
    → c.written + length p ≤ c.max
    → write s p c
      ≡ (some (length p), buffer_write s p (record c { written = c.written + length p }))
unfolding write
write-fits s p c h = ground arith

pub write_all-fits :
    (ws : List (Stream × List ℕ)) (c : Capture)
    → c.written + total ws ≤ c.max
    → ((write_all ws c).stdout ≡ c.stdout ++ sent_to to_stdout ws)
      × ((write_all ws c).stderr ≡ c.stderr ++ sent_to to_stderr ws)
unfolding write_all
write_all-fits [] c h = (sym (append-nil c.stdout), sym (append-nil c.stderr))
write_all-fits ((to_stdout, p) ∷ ws) c h =
    let c' : Capture = record c { stdout = c.stdout ++ p; written = c.written + length p } in
    let (o, e) = write_all-fits ws c' (omega arith) in
    rw (write-fits to_stdout p c (omega arith), write_all) (o ∙ append_assoc c.stdout p _, e)
write_all-fits ((to_stderr, p) ∷ ws) c h =
    let c' : Capture = record c { stderr = c.stderr ++ p; written = c.written + length p } in
    let (o, e) = write_all-fits ws c' (omega arith) in
    rw (write-fits to_stderr p c (omega arith), write_all) (o, e ∙ append_assoc c.stderr p _)

-- If all writes together fit into the limit, each buffer holds exactly what was sent to it.
pub write_all-sent :
    (ws : List (Stream × List ℕ)) (max : ℕ)
    → total ws ≤ max
    → ((write_all ws (fresh max)).stdout ≡ sent_to to_stdout ws)
      × ((write_all ws (fresh max)).stderr ≡ sent_to to_stderr ws)
write_all-sent ws max h = write_all-fits ws (fresh max) (omega arith)

pub write_all-written :
    (ws : List (Stream × List ℕ)) (c : Capture) → (write_all ws c).written ≡ c.written + total ws
unfolding write_all write
write_all-written [] c = omega arith
write_all-written ((to_stdout, p) ∷ ws) c =
    ground (arith, write_all-written ws (write to_stdout p c).1)
write_all-written ((to_stderr, p) ∷ ws) c =
    ground (arith, write_all-written ws (write to_stderr p c).1)

write-none :
    (s : Stream) (p : List ℕ) (c : Capture)
    → ((write s p c).0 ≡ none) ↔ (c.max < c.written + length p)
unfolding write
write-none s p c = ground arith

-- A write fails exactly when it and all writes before it, refused ones too, exceed the limit.
pub write-none_iff :
    (ws : List (Stream × List ℕ)) (max : ℕ) (s : Stream) (p : List ℕ)
    → ((write s p (write_all ws (fresh max))).0 ≡ none) ↔ (max < total ws + length p)
write-none_iff ws max s p =
    let (to, from) = write-none s p (write_all ws (fresh max)) in
    let same = write_all-written ws (fresh max) in
    let limit = write_all-max ws (fresh max) in (λ h. omega (arith, to h), λ h. from (omega arith))
