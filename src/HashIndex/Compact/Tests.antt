-- ===== src/HashIndex/Compact/Tests.antt =====
-- Compact of an index with one key.
use brisedb.Prelude.{ℕ, ◌≡◌, refl, Option, some, true, List, [], Bytes, arith, get_or, suc}
use brisedb.Prelude.Assoc.{mem}
use brisedb.HashIndex.Open.{is_live, walk_chain}
use brisedb.Types.{NeedleAddr, ok}
use brisedb.File.{done}
use brisedb.HashIndex.{HashIndex, get, append_entry, hash_slot, head_of}
use brisedb.HashIndex.Append.{append_entry-IsValid}
use brisedb.HashIndex.Chain.{IsValid, push}
use brisedb.HashIndex.Compact.{CompactIo, compact, new_buckets}
use brisedb.HashIndex.Compact.Large.{compact-large, push-Homed}
use brisedb.HashIndex.Compact.Visited.{Homed}
use brisedb.HashIndex.Format.{Entry}
use brisedb.HashIndex.Open.Walk.{visited, unexpired, visits_of, to_list, walk_chain-visits_of}
use brisedb.HashIndex.Reopened.{Persisted}
use brisedb.HashIndex.Tests.{index, index-IsValid, no_chains, key_a, addr, set-Room}
use brisedb.HashIndex.Writes.{set_entry}

-- A counter at which ForEach walks the chains.
abbrev counted : ℕ → ℕ
counted n = 100_000

abbrev entry : Entry
entry = set_entry key_a addr 9

abbrev one_key : HashIndex
one_key = (append_entry done done entry counted index).0

abbrev one_chain : ℕ → List Entry
one_chain = push (hash_slot index key_a) entry no_chains

one_key-IsValid : IsValid one_key one_chain
unfolding get_or hash_slot
one_key-IsValid = append_entry-IsValid index no_chains index-IsValid entry set-Room done counted

one_key-Homed : Homed one_key one_chain
unfolding append_entry hash_slot
one_key-Homed = push-Homed index no_chains entry (λ s. tt)

abbrev works : CompactIo
works = record { writes = λ i. (done, done); synced = true; renamed = true }

compact-large_example :
    (hi' : HashIndex) × (chains' : ℕ → List Entry) × (compact works 5 [] one_key ≡ (hi', ok tt))
    × IsValid hi' chains'
    × Persisted hi'
    × ((k : Bytes)
        → (r : Option (NeedleAddr × ℕ)) × (get one_key k ≡ some r)
          × (get hi' k ≡ some (unexpired 5 r)))
unfolding append_entry hash_slot new_buckets visited mem is_live
compact-large_example =
    compact-large works 5 one_key one_chain one_key-IsValid one_key-Homed (omega arith) (λ i. refl)
      refl refl (omega arith) (omega arith)

walk_chain-visits_of_example :
    (l : List (Bytes × NeedleAddr × ℕ)) × (o : Option (NeedleAddr × ℕ)) × (walk_chain
        (suc one_key.write_pos)
        one_key.file
        5
        []
        (head_of one_key key_a)
      ≡ ok l)
    × (get one_key key_a ≡ some o)
    × (visits_of key_a l ≡ to_list (unexpired 5 o))
walk_chain-visits_of_example = walk_chain-visits_of one_key one_chain 5 key_a one_key-IsValid
