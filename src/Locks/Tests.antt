-- ===== src/Locks/Tests.antt =====
-- Runs of the shard locks.
use brisedb.Prelude.{ℕ, ◌≡◌, List, [], ◌∷◌, map, Bytes, nat_eq}
use brisedb.Prelude.Assoc.{mem}
use brisedb.Locks.{shard_index, lock_shards, Ascends, lock_shards-Ascends}

abbrev two_keys : List Bytes
two_keys = (b'a' ∷ []) ∷ (b'b' ∷ []) ∷ []

lock_shards-Ascends_example :
    Ascends 0 (lock_shards two_keys)
    × ((i : ℕ) → mem i (lock_shards two_keys) ≡ mem i (map shard_index two_keys))
lock_shards-Ascends_example = lock_shards-Ascends two_keys
