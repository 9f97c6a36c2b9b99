-- ===== src/Context/Examples.antt =====
-- Sweeps at concrete entries.
use jmap_bridge.Base.{ℕ, suc, ◌+◌, ◌≡◌, refl, none, List, [], ◌∷◌, map, length, nat_eq, arith}
use jmap_bridge.Context.{
  every, chunks_from, nonempty, flatten, connection_chunks, imap_parallel_map,
}
use jmap_bridge.Context.Shares.{count, count-imap_parallel_map, connection_chunks_take_two}

abbrev five : List ℕ
five = 10 ∷ 11 ∷ 12 ∷ 13 ∷ 14 ∷ []

chunks_run : connection_chunks 4 none five ≡ ((10 ∷ 12 ∷ 14 ∷ []) ∷ (11 ∷ 13 ∷ []) ∷ [])
unfolding connection_chunks chunks_from every nonempty
chunks_run = refl

sweep_runs : imap_parallel_map 4 suc none five ≡ (11 ∷ 13 ∷ 15 ∷ 12 ∷ 14 ∷ [])
unfolding imap_parallel_map flatten connection_chunks chunks_from every nonempty
sweep_runs = refl

count-imap_parallel_map_example :
    count 12 (imap_parallel_map 4 suc none five) ≡ count 12 (map suc five)
count-imap_parallel_map_example = count-imap_parallel_map 4 suc none five 12 (omega arith)

connection_chunks_take_two_example : length (connection_chunks 1 none five) + 1 ≡ 2
connection_chunks_take_two_example =
    connection_chunks_take_two 1 10 (11 ∷ 12 ∷ 13 ∷ 14 ∷ []) (omega arith)
