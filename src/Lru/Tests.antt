-- ===== src/Lru/Tests.antt =====
-- Runs of the read cache on a small bound.
use brisedb.Prelude.{ℕ, ◌≡◌, ◌<◌, ◌+◌, ◌⊎◌, ◌++◌, refl, none, some, [], ◌∷◌, Bytes, length, arith}
use brisedb.Prelude.Assoc.{mem}
use brisedb.Types.{NeedleAddr, addr_eq}
use brisedb.Lru.{Cache, find, set}
use brisedb.Lru.Evict.{Entries, total, IsValid}
use brisedb.Lru.Invariant.{set_fresh}

abbrev addr : ℕ → NeedleAddr
addr n = record { volume_id = 1; offset = n; size = 3 }

abbrev three : Bytes
three = 1 ∷ 2 ∷ 3 ∷ []

abbrev two : Cache
two = record {
  max_bytes = 6;
  cur_bytes = 6;
  list = (addr 0, three) ∷ (addr 11, three) ∷ [];
  items = addr 0 ∷ addr 11 ∷ [];
  hits = 0;
  misses = 0;
  evictions = 0;
}

two-IsValid : IsValid two
unfolding total mem
two-IsValid = record {
  counted = refl;
  bounded = omega arith;
  small = omega arith;
  distinct = (refl, (refl, tt));
  indexed = λ k. refl;
}

found : find (addr 0) two.list ≡ some three
unfolding find
found = refl

absent : find (addr 22) two.list ≡ none
unfolding find
absent = refl

set_fresh_example :
    (c' : Cache) × (kept : Entries) × (dropped : Entries) × (set (addr 22) three two ≡ some c')
    × IsValid c'
    × (c'.list ≡ (addr 22, three) ∷ kept)
    × (two.list ≡ kept ++ dropped)
    × ((dropped ≡ [])
        ⊎ ((x : NeedleAddr × Bytes) × (rest : Entries) × (dropped ≡ x ∷ rest)
            × (6 < total (kept ++ x ∷ []) + length three)))
set_fresh_example = set_fresh two (addr 22) three two-IsValid (omega arith) absent
