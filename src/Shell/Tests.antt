-- ===== src/Shell/Tests.antt =====
-- Tests of the output cap on concrete writes.
use capo_shell_mcp.Prelude.{ℕ, ◌+◌, ◌≤◌, ◌<◌, ◌≡◌, refl, ◌↔◌, none, List, [], ◌∷◌, length, arith}
use capo_shell_mcp.Shell.Limit.{
  Stream, to_stdout, to_stderr, fresh, write, write_all, write_all-le-max, write_all-sent,
  write-none_iff,
}

abbrev writes : List (Stream × List ℕ)
writes =
    (to_stdout, b'o' ∷ b'k' ∷ [])
    ∷ (to_stderr, b'e' ∷ b'r' ∷ b'r' ∷ [])
    ∷ (to_stdout, b'!' ∷ [])
    ∷ []

cut : (write_all writes (fresh 4)).stderr ≡ []
unfolding write_all write
cut = refl

write_all-le-max_test :
    length (write_all writes (fresh 4)).stdout + length (write_all writes (fresh 4)).stderr ≤ 4
write_all-le-max_test = write_all-le-max writes 4

write_all-sent_test :
    ((write_all writes (fresh 6)).stdout ≡ b'o' ∷ b'k' ∷ b'!' ∷ [])
    × ((write_all writes (fresh 6)).stderr ≡ b'e' ∷ b'r' ∷ b'r' ∷ [])
write_all-sent_test = write_all-sent writes 6 (omega arith)

write-none_iff_test :
    ((write to_stderr (b'x' ∷ []) (write_all writes (fresh 6))).0 ≡ none) ↔ (6 < 7)
write-none_iff_test = write-none_iff writes 6 to_stderr (b'x' ∷ [])
