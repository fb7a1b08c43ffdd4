-- ===== src/Lru/Invariant.antt =====
-- get and set of the cache: the invariant, and what is found after them.
use brisedb.Prelude.{
  suc, ◌+◌, ◌≤◌, ◌<◌, ◌≡◌, refl, sym, ap, ◌∙◌, inl, inr, ◌⊎◌, true, false, not, ◌&&◌, none, some,
  List, [], ◌∷◌, ◌++◌, Bytes, length, if◌then◌else◌, ◌==◌, ==_iff, ==_refl, nat_eq, le→ltb,
  Bool-cases, arith,
}
use brisedb.Prelude.Assoc.{mem}
use brisedb.Types.{NeedleAddr, addr_eq}
use brisedb.Lru.{find, unlink, Cache, get, refresh, push_front, set}
use brisedb.Lru.Evict.{Entries, total, keys, Distinct, IsValid, make_room-Evicts, mem-append}

mem-find :
    (k : NeedleAddr) (l : Entries) → mem k (keys l) ≡ true → (v : Bytes) × (find k l ≡ some v)
unfolding mem find
mem-find k [] h = cc
mem-find k ((j, v) ∷ l) h = elim (Bool-cases (j == k)) [
  | inl here ↦ (v, rw here refl)
  | inr there ↦ rw there (mem-find k l (rw there at h))
]

find_absent : (k : NeedleAddr) (l : Entries) → mem k (keys l) ≡ false → find k l ≡ none
unfolding mem find
find_absent k [] h = refl
find_absent k ((j, v) ∷ l) h = ground (arith, find_absent k l)

total-unlink :
    (k : NeedleAddr) (l : Entries) (v : Bytes)
    → find k l ≡ some v
    → total (unlink k l) + length v ≡ total l
unfolding find unlink total
total-unlink k [] v h = cc
total-unlink k ((j, w) ∷ l) v h = ground (arith, total-unlink k l v)

mem-unlink :
    (k i : NeedleAddr) (l : Entries)
    → Distinct l
    → mem i (keys (unlink k l)) ≡ (mem i (keys l) && not (k == i))
unfolding mem unlink
mem-unlink k i [] d = refl
mem-unlink k i ((j, w) ∷ l) (h, d) =
    ground (arith, mem-unlink k i l d, h, ==_iff j k, ==_iff j i, ==_iff k i)

Distinct-unlink : (k : NeedleAddr) (l : Entries) → Distinct l → Distinct (unlink k l)
unfolding unlink
Distinct-unlink k [] d = tt
Distinct-unlink k ((j, w) ∷ l) (h, d) =
    ground (arith, Distinct-unlink k l d, mem-unlink k j l d, h, d)

-- The entry of a key, moved to the front with a value.
touched-Distinct :
    (k : NeedleAddr) (v : Bytes) (l : Entries) → Distinct l → Distinct ((k, v) ∷ unlink k l)
touched-Distinct k v l d = (mem-unlink k k l d ∙ ground (arith, ==_refl k), Distinct-unlink k l d)

present_mem : (k : NeedleAddr) (l : Entries) (w : Bytes) → find k l ≡ some w → mem k (keys l) ≡ true
present_mem k l w h = ground (arith, find_absent k l)

absent_mem : (k : NeedleAddr) (l : Entries) → find k l ≡ none → mem k (keys l) ≡ false
absent_mem k l h = elim (Bool-cases (mem k (keys l))) [
  | inr e ↦ e
  | inl e ↦ let (v, f) = mem-find k l e in cc
]

total-cons : (k : NeedleAddr) (v : Bytes) (l : Entries) → total ((k, v) ∷ l) ≡ length v + total l
unfolding total
total-cons k v l = refl

indexed_cons :
    (k j : NeedleAddr) (a b : List NeedleAddr) → mem j a ≡ mem j b → mem j (k ∷ a) ≡ mem j (k ∷ b)
unfolding mem
indexed_cons k j a b h = rw h refl

touched-mem :
    (k i : NeedleAddr) (v w : Bytes) (l : Entries)
    → Distinct l
    → find k l ≡ some w
    → mem i (keys ((k, v) ∷ unlink k l)) ≡ mem i (keys l)
unfolding mem
touched-mem k i v w l d h = ground (arith, mem-unlink k i l d, ==_iff k i, present_mem k l w h, h)

find-unlink : (k j : NeedleAddr) (l : Entries) → (k == j) ≡ false → find j (unlink k l) ≡ find j l
unfolding find unlink
find-unlink k j [] h = refl
find-unlink k j ((i, w) ∷ l) h =
    ground (arith, find-unlink k j l, ==_iff i k, ==_iff i j, ==_iff k j)

find-touched :
    (k j : NeedleAddr) (v : Bytes) (l : Entries)
    → find j ((k, v) ∷ unlink k l) ≡ (if k == j then some v else find j l)
unfolding find
find-touched k j v l = ground (arith, find-unlink k j l)

same_key : (k j : NeedleAddr) (l : Entries) → (k == j) ≡ true → find k l ≡ find j l
same_key k j l h = ap (λ i. find i l) ((==_iff k j).0 h)

-- On a valid cache a lookup finds exactly what the list holds, keeps the invariant and every entry.
pub get_lem :
    (c : Cache) (k : NeedleAddr)
    → IsValid c
    → ((get k c).1 ≡ find k c.list)
      × IsValid (get k c).0
      × ((j : NeedleAddr) → find j (get k c).0.list ≡ find j c.list)
unfolding get
get_lem c k s = elim (Bool-cases (mem k c.items)) [
  | inr miss ↦ rw miss (
    sym (find_absent k c.list (sym (s.indexed k) ∙ miss)),
    record {
      counted = s.counted;
      bounded = s.bounded;
      small = s.small;
      distinct = s.distinct;
      indexed = s.indexed;
    },
    λ j. refl,
  )
  | inl hit ↦
      let (v, e) = mem-find k c.list (sym (s.indexed k) ∙ hit) in
      rw (hit, e, get)
        (
          refl,
          record {
            counted =
                omega
                  (arith, s.counted, total-unlink k c.list v e, total-cons k v (unlink k c.list));
            bounded = s.bounded;
            small = s.small;
            distinct = touched-Distinct k v c.list s.distinct;
            indexed = λ j. s.indexed j ∙ sym (touched-mem k j v v c.list s.distinct e);
          },
          λ j. find-touched k j v c.list ∙ ground (arith, same_key k j c.list),
        )
]

-- A set of a new key that fits, on a valid cache: the loop ends, the entry goes to the front, the
-- invariant holds, and what is evicted are the least recently used entries, no more of them than needed.
pub set_fresh :
    (c : Cache) (k : NeedleAddr) (b : Bytes)
    → IsValid c
    → length b ≤ c.max_bytes
    → find k c.list ≡ none
    → (c' : Cache) × (kept : Entries) × (dropped : Entries) × (set k b c ≡ some c')
      × IsValid c'
      × (c'.list ≡ (k, b) ∷ kept)
      × (c.list ≡ kept ++ dropped)
      × ((dropped ≡ [])
          ⊎ ((x : NeedleAddr × Bytes) × (rest : Entries) × (dropped ≡ x ∷ rest)
              × (c.max_bytes < total (kept ++ x ∷ []) + length b)))
unfolding set
set_fresh c k b s fits absent =
    let (c', dropped, run, ev) =
      make_room-Evicts (suc (length c.list)) (length b) c s fits (omega arith) in
    let t = ev.valid in
    let missing : mem k (keys c.list) ≡ false = absent_mem k c.list absent in
    let fresh : mem k (keys c'.list) ≡ false = ground (
      arith,
      mem-append k c'.list dropped,
      missing,
      ap (λ (l : Entries). mem k (keys l)) ev.split,
    ) in
    (
      push_front k b c',
      c'.list,
      dropped,
      rw (le→ltb c.max_bytes (length b) fits, s.indexed k, missing, run) refl,
      record {
        counted = omega (arith, t.counted, ev.room, ev.same_max, t.small, total-cons k b c'.list);
        bounded = omega (arith, ev.room, ev.same_max, t.small);
        small = t.small;
        distinct = (fresh, t.distinct);
        indexed = λ j. indexed_cons k j c'.items (keys c'.list) (t.indexed j);
      },
      refl,
      ev.split,
      ev.minimal,
    )

-- A set of a key that is there, to a blob of the same length, keeps the invariant and the size.
pub set_refresh :
    (c : Cache) (k : NeedleAddr) (b old : Bytes)
    → IsValid c
    → length b ≤ c.max_bytes
    → find k c.list ≡ some old
    → length b ≡ length old
    → (c' : Cache) × (set k b c ≡ some c')
      × IsValid c'
      × (c'.cur_bytes ≡ c.cur_bytes)
      × ((j : NeedleAddr) → find j c'.list ≡ (if k == j then some b else find j c.list))
unfolding set
set_refresh c k b old s fits found same =
    let sum = total-unlink k c.list old found in
    (
      refresh k old b c,
      rw (le→ltb c.max_bytes (length b) fits, s.indexed k, present_mem k c.list old found, found)
          refl,
      record {
        counted =
            omega (arith, s.counted, s.bounded, s.small, sum, total-cons k b (unlink k c.list));
        bounded = omega (arith, s.counted, s.bounded, s.small, sum);
        small = s.small;
        distinct = touched-Distinct k b c.list s.distinct;
        indexed = λ j. s.indexed j ∙ sym (touched-mem k j b old c.list s.distinct found);
      },
      omega (arith, s.counted, s.bounded, s.small, sum),
      λ j. find-touched k j b c.list,
    )

-- A refresh never evicts: a longer blob under a key that is there can take the cache over its bound.
pub set_refresh_overflows :
    (c : Cache) (k : NeedleAddr) (b old : Bytes)
    → IsValid c
    → length b ≤ c.max_bytes
    → find k c.list ≡ some old
    → c.max_bytes + length old < c.cur_bytes + length b
    → (c' : Cache) × (set k b c ≡ some c') × (c'.max_bytes < c'.cur_bytes)
unfolding set
set_refresh_overflows c k b old s fits found over = (
  refresh k old b c,
  rw (le→ltb c.max_bytes (length b) fits, s.indexed k, present_mem k c.list old found, found) refl,
  omega (arith, s.counted, s.bounded, s.small, total-unlink k c.list old found),
)
