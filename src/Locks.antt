-- ===== src/Locks.antt =====
-- pkg/brisedb/keyedmu.go: the 64 shard locks, and the order in which operations that need several of
-- them take them.
mod Tests
use brisedb.Prelude.{
  ℕ, zero, suc, ◌+◌, ◌*◌, ◌%◌, ◌^◌, ◌-◌, ◌<◌, ◌≤◌, ◌≡◌, ◌≢◌, refl, sym, ap, ◌∙◌, inl, inr, ◌⊎◌,
  Bool, true, false, ◌||◌, List, [], ◌∷◌, ◌++◌, map, Bytes, length, if◌then◌else◌, ◌==◌, ==_iff,
  ==_refl, nat_eq, leb, ltb, leb→le, not_leb→lt, Bool-cases, arith,
}
use brisedb.Prelude.Assoc.{mem}
use Prim.Native.Nat.{bit_xor}
use native.Mathlib.Nat.{mod-lt}

abbrev pub num_shards : ℕ
num_shards = 64

-- hash/fnv: New32a, Write and Sum32.
unfoldable pub fnv32a : ℕ → Bytes → ℕ
fnv32a h [] = h
fnv32a h (b ∷ bs) = fnv32a ((bit_xor h b * 0x01000193) % 2 ^ 32) bs

-- shardIndex
unfoldable pub shard_index : Bytes → ℕ
unfolding fnv32a
shard_index key = fnv32a 0x811c9dc5 key % num_shards

-- The set `seen` of lockShards.
unfoldable pub note_shards : List Bytes → List ℕ → List ℕ
note_shards [] seen = seen
note_shards (k ∷ ks) seen =
    note_shards ks (if mem (shard_index k) seen then seen else shard_index k ∷ seen)

-- sort.Ints
unfoldable pub insert_sorted : ℕ → List ℕ → List ℕ
insert_sorted n [] = n ∷ []
insert_sorted n (m ∷ ms) = let rest = insert_sorted n ms in if leb n m then n ∷ m ∷ ms else m ∷ rest

unfoldable pub sort_ints : List ℕ → List ℕ
unfolding insert_sorted
sort_ints [] = []
sort_ints (n ∷ ns) = insert_sorted n (sort_ints ns)

-- The shards that lockShards locks, in this order.
unfoldable pub lock_shards : List Bytes → List ℕ
unfolding note_shards sort_ints
lock_shards keys = sort_ints (note_shards keys [])

-- The shards that unlockShards releases, in this order.
unfoldable pub unlock_shards : List ℕ → List ℕ
unlock_shards [] = []
unlock_shards (i ∷ idxs) = unlock_shards idxs ++ i ∷ []

-- The shards that LockAll locks, from i on.
unfoldable pub lock_all_from : ℕ → ℕ → List ℕ
lock_all_from zero i = []
lock_all_from (suc n) i = i ∷ lock_all_from n (suc i)

unfoldable pub lock_all : List ℕ
lock_all = lock_all_from num_shards 0

-- Strictly ascending, from a bound on.
abbrev pub Ascends : ℕ → List ℕ → Type 0
Ascends b [] = Unit {0}
Ascends b (n ∷ ns) = (b ≤ n) × Ascends (suc n) ns

abbrev Distinct : List ℕ → Type 0
Distinct [] = Unit {0}
Distinct (n ∷ ns) = (mem n ns ≡ false) × Distinct ns

note_shards-Distinct :
    (ks : List Bytes) (seen : List ℕ) → Distinct seen → Distinct (note_shards ks seen)
unfolding note_shards
note_shards-Distinct [] seen d = d
note_shards-Distinct (k ∷ ks) seen d = elim (Bool-cases (mem (shard_index k) seen)) [
  | inl old ↦ rw old (note_shards-Distinct ks seen d)
  | inr new ↦ rw new (note_shards-Distinct ks (shard_index k ∷ seen) (new, d))
]

note_shards-mem :
    (ks : List Bytes) (seen : List ℕ) (i : ℕ)
    → mem i (note_shards ks seen) ≡ (mem i seen || mem i (map shard_index ks))
unfolding note_shards mem
note_shards-mem [] seen i = ground arith
note_shards-mem (k ∷ ks) seen i = ground (
  arith,
  note_shards-mem ks seen i,
  note_shards-mem ks (shard_index k ∷ seen) i,
  ==_iff (shard_index k) i,
  ap (λ j. mem j seen),
)

insert_sorted-mem :
    (n : ℕ) (ms : List ℕ) (i : ℕ) → mem i (insert_sorted n ms) ≡ ((n == i) || mem i ms)
unfolding insert_sorted mem
insert_sorted-mem n [] i = refl
insert_sorted-mem n (m ∷ ms) i = ground (arith, insert_sorted-mem n ms i)

sort_ints-mem : (ns : List ℕ) (i : ℕ) → mem i (sort_ints ns) ≡ mem i ns
unfolding sort_ints mem
sort_ints-mem [] i = refl
sort_ints-mem (n ∷ ns) i =
    insert_sorted-mem n (sort_ints ns) i ∙ ap (λ b. (n == i) || b) (sort_ints-mem ns i)

insert_sorted-Ascends :
    (n b : ℕ) (ms : List ℕ)
    → b ≤ n
    → mem n ms ≡ false
    → Ascends b ms
    → Ascends b (insert_sorted n ms)
unfolding insert_sorted mem
insert_sorted-Ascends n b [] h new a = (h, tt)
insert_sorted-Ascends n b (m ∷ ms) h new (l, a) = elim (Bool-cases (leb n m)) [
  | inl le ↦ rw le (h, (omega (arith, leb→le n m le, differs), a))
  | inr gt ↦
      rw gt (l, insert_sorted-Ascends n (suc m) ms (omega (arith, not_leb→lt n m gt)) later a)
]
  where
    differs : m ≢ n
    differs e = ground (arith, new, e, ==_refl n)

    later : mem n ms ≡ false
    later = ground (arith, new)

sort_ints-Ascends : (ns : List ℕ) → Distinct ns → Ascends 0 (sort_ints ns)
unfolding sort_ints
sort_ints-Ascends [] d = tt
sort_ints-Ascends (n ∷ ns) (new, d) =
    insert_sorted-Ascends n 0 (sort_ints ns) (omega arith) (sort_ints-mem ns n ∙ new)
      (sort_ints-Ascends ns d)

-- lockShards takes its locks in strictly ascending order, so that no two operations wait for each
-- other in a circle, and takes exactly the locks of the shards of its keys.
pub lock_shards-Ascends :
    (keys : List Bytes)
    → Ascends 0 (lock_shards keys)
      × ((i : ℕ) → mem i (lock_shards keys) ≡ mem i (map shard_index keys))
unfolding lock_shards mem
lock_shards-Ascends keys = (
  sort_ints-Ascends (note_shards keys []) (note_shards-Distinct keys [] tt),
  λ i. sort_ints-mem (note_shards keys []) i ∙ note_shards-mem keys [] i,
)
