-- ===== src/Lru.antt =====
-- pkg/brisedb/lrucache.go: the read cache, bounded by the bytes that it holds.
-- `list` is the container/list, most recently used first; `items` holds the keys of the map, whose
-- values point at the entries of the list. Byte counts are uint64.
pub mod Evict
pub mod Invariant
mod Tests
use brisedb.Prelude.{
  ℕ, zero, suc, ◌+◌, ◌-◌, ◌%◌, Bool, true, false, not, ◌||◌, Option, none, some, List, [], ◌∷◌,
  Bytes, length, if◌then◌else◌, ◌==◌, nat_eq, ltb, Eq,
}
use brisedb.Prelude.Assoc.{mem, discard}
use brisedb.Types.{NeedleAddr, addr_eq, u64}

module _ {ℓ} {K V : Type ℓ} ⦃e : Eq K⦄ where
  -- The element of the list that the map points at.
  unfoldable pub find : K → List (K × V) → Option V
  find k [] = none
  find k ((j, v) ∷ l) = if j == k then some v else find k l

  -- `list.Remove` of that element.
  unfoldable pub unlink : K → List (K × V) → List (K × V)
  unlink k [] = []
  unlink k ((j, v) ∷ l) = if j == k then l else (j, v) ∷ unlink k l

-- `list.Back` with the elements before it.
unfoldable pub pop_back {ℓ} : {A : Type ℓ} → List A → Option (A × List A)
pop_back [] = none
pop_back (x ∷ xs) = elim (pop_back xs) [ none ↦ some (x, []) | some (y, r) ↦ some (y, x ∷ r) ]

pub record Cache : Type 0 where
  pub max_bytes : ℕ
  pub cur_bytes : ℕ
  pub list : List (NeedleAddr × Bytes)
  pub items : List NeedleAddr
  pub hits : ℕ
  pub misses : ℕ
  pub evictions : ℕ

abbrev pub sub_u64 : ℕ → ℕ → ℕ
sub_u64 a b = (a + u64 - b) % u64

abbrev pub add_u64 : ℕ → ℕ → ℕ
add_u64 a b = (a + b) % u64

-- newLRUCache: no cache for a bound of 0.
unfoldable pub new_cache : ℕ → Option Cache
new_cache max =
    if max == 0
    then none
    else some (record {
      max_bytes = max;
      cur_bytes = 0;
      list = [];
      items = [];
      hits = 0;
      misses = 0;
      evictions = 0;
    })

-- get: a hit moves to the front.
unfoldable pub get : NeedleAddr → Cache → Cache × Option Bytes
get addr c =
    if mem addr c.items
    then elim (find addr c.list) [
      | none ↦ (c, none)
      | some v ↦ (record c { list = (addr, v) ∷ unlink addr c.list; hits = c.hits + 1 }, some v)
    ]
    else (record c { misses = c.misses + 1 }, none)

-- evictLRU
unfoldable pub evict_lru : Cache → Cache
unfolding pop_back discard
evict_lru c = elim (pop_back c.list) [
  | none ↦ c
  | some ((k, v), rest) ↦ record c {
    list = rest;
    items = discard k c.items;
    cur_bytes = sub_u64 c.cur_bytes (length v);
    evictions = c.evictions + 1;
  }
]

-- The loop of set. `none` means that the fuel ran out.
unfoldable pub make_room : ℕ → ℕ → Cache → Option Cache
unfolding evict_lru
make_room zero size c = none
make_room (suc fuel) size c =
    let rest = make_room fuel size (evict_lru c) in
    if ltb c.max_bytes (add_u64 c.cur_bytes size) then rest else some c

-- set: the refresh of an entry that is there.
unfoldable pub refresh : NeedleAddr → Bytes → Bytes → Cache → Cache
refresh addr old blob c = record c {
  list = (addr, blob) ∷ unlink addr c.list;
  cur_bytes = add_u64 (sub_u64 c.cur_bytes (length old)) (length blob);
}

unfoldable pub push_front : NeedleAddr → Bytes → Cache → Cache
push_front addr blob c = record c {
  list = (addr, blob) ∷ c.list;
  items = addr ∷ c.items;
  cur_bytes = add_u64 c.cur_bytes (length blob);
}

unfoldable pub set : NeedleAddr → Bytes → Cache → Option Cache
unfolding refresh push_front
set addr blob c =
    if ltb c.max_bytes (length blob)
    then some c
    else if mem addr c.items
    then elim (find addr c.list) [ none ↦ some c | some old ↦ some (refresh addr old blob c) ]
    else elim (make_room (suc (length c.list)) (length blob) c) [
      | none ↦ none
      | some c' ↦ some (push_front addr blob c')
    ]
