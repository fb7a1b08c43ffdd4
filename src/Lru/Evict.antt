-- ===== src/Lru/Evict.antt =====
-- What the loop of lruCache.set evicts.
use brisedb.Prelude.{
  ℕ, zero, suc, ◌+◌, ◌^◌, ◌≤◌, ◌<◌, ◌≡◌, refl, sym, ap, ◌∙◌, subst, inl, inr, ◌⊎◌, false, ◌||◌,
  none, some, List, [], ◌∷◌, ◌++◌, append_assoc, append-nil, map, Bytes, length, ◌==◌, ==_iff,
  nat_eq, ltb, ltb→lt, Bool-cases, length-append, arith,
}
use brisedb.Prelude.Assoc.{mem, mem-discard}
use brisedb.Types.{NeedleAddr, addr_eq}
use brisedb.Lru.{pop_back, Cache, add_u64, evict_lru, make_room}

abbrev pub Entries : Type 0
Entries = List (NeedleAddr × Bytes)

-- The bytes that the entries hold.
unfoldable pub total : Entries → ℕ
total [] = 0
total ((k, v) ∷ l) = length v + total l

abbrev pub keys : Entries → List NeedleAddr
keys = map λ e. e.0

-- No key twice.
abbrev pub Distinct : Entries → Type 0
Distinct [] = Unit {0}
Distinct ((k, v) ∷ l) = (mem k (keys l) ≡ false) × Distinct l

-- The list, the map and the byte count agree, within the bound.
pub record IsValid (c : Cache) : Type 0 where
  pub counted : c.cur_bytes ≡ total c.list
  pub bounded : c.cur_bytes ≤ c.max_bytes
  pub small : c.max_bytes < 2 ^ 63
  pub distinct : Distinct c.list
  pub indexed : (k : NeedleAddr) → mem k c.items ≡ mem k (keys c.list)

pop_back_cases {ℓ} :
    {A : Type ℓ} (l : List A)
    → ((l ≡ []) × (pop_back l ≡ none))
      ⊎ ((x : A) × (r : List A) × (l ≡ r ++ x ∷ []) × (pop_back l ≡ some (x, r)))
unfolding pop_back
pop_back_cases [] = inl (refl, refl)
pop_back_cases (x ∷ xs) = elim (pop_back_cases xs) [
  | inl (e, p) ↦ inr (x, [], rw e refl, rw p refl)
  | inr (y, r, e, p) ↦ inr (y, x ∷ r, ap (◌∷◌ x) e, rw p refl)
]

total-append : (a b : Entries) → total (a ++ b) ≡ total a + total b
unfolding total
total-append [] b = omega arith
total-append ((k, v) ∷ a) b = omega (arith, total-append a b)

total-nil : total [] ≡ 0
unfolding total
total-nil = refl

last_total :
    (r : Entries) (k : NeedleAddr) (v : Bytes) → total (r ++ (k, v) ∷ []) ≡ total r + length v
unfolding total
last_total r k v = omega (arith, total-append r ((k, v) ∷ []))

last_mem : (j k : NeedleAddr) (v : Bytes) → mem j (keys ((k, v) ∷ [])) ≡ (k == j)
unfolding mem
last_mem j k v = ground arith

pub mem-append :
    (k : NeedleAddr) (a b : Entries) → mem k (keys (a ++ b)) ≡ (mem k (keys a) || mem k (keys b))
unfolding mem
mem-append k [] b = refl
mem-append k ((j, v) ∷ a) b = ground (arith, mem-append k a b)

Distinct-front :
    (a : Entries) (k : NeedleAddr) (v : Bytes)
    → Distinct (a ++ (k, v) ∷ [])
    → Distinct a × (mem k (keys a) ≡ false)
unfolding mem
Distinct-front [] k v d = (tt, refl)
Distinct-front ((j, w) ∷ a) k v (h, d) =
    let (da, m) = Distinct-front a k v d in
    ground (arith, da, m, mem-append j a ((k, v) ∷ []), ==_iff j k, ==_iff k j)

-- One eviction of a valid cache that holds something.
evict_lru-IsValid :
    (c : Cache) (r : Entries) (k : NeedleAddr) (v : Bytes)
    → IsValid c
    → c.list ≡ r ++ (k, v) ∷ []
    → pop_back c.list ≡ some ((k, v), r)
    → IsValid (evict_lru c) × ((evict_lru c).list ≡ r) × ((evict_lru c).max_bytes ≡ c.max_bytes)
unfolding evict_lru
evict_lru-IsValid c r k v s e p =
    let bytes : total c.list ≡ total r + length v = ap total e ∙ last_total r k v in
    let front = Distinct-front r k v (subst Distinct e s.distinct) in
    rw (p, evict_lru)
      (
        record {
          counted = omega (arith, bytes, s.counted, s.bounded, s.small);
          bounded = omega (arith, bytes, s.counted, s.bounded, s.small);
          small = s.small;
          distinct = front.0;
          indexed = λ j.
              mem-discard j k c.items
              ∙ ground (
                arith,
                s.indexed j,
                ap (λ (l : Entries). mem j (keys l)) e,
                mem-append j r ((k, v) ∷ []),
                last_mem j k v,
                ==_iff k j,
                front.1,
              );
        },
        refl,
        refl,
      )

-- What the loop makes of a valid cache: it keeps the most recently used entries, as many as leave
-- room for `size` bytes. Each entry that it drops had to go.
pub record Evicts (size : ℕ) (c c' : Cache) (dropped : Entries) : Type 0 where
  pub valid : IsValid c'
  pub same_max : c'.max_bytes ≡ c.max_bytes
  pub split : c.list ≡ c'.list ++ dropped
  pub room : c'.cur_bytes + size ≤ c.max_bytes
  pub minimal :
      (dropped ≡ [])
      ⊎ ((x : NeedleAddr × Bytes) × (rest : Entries) × (dropped ≡ x ∷ rest)
          × (c.max_bytes < total (c'.list ++ x ∷ []) + size))

grow_dropped :
    (size max : ℕ) (kept dropped r : Entries) (x : NeedleAddr × Bytes)
    → r ≡ kept ++ dropped
    → max < total (r ++ x ∷ []) + size
    → (dropped ≡ [])
      ⊎ ((y : NeedleAddr × Bytes) × (rest : Entries) × (dropped ≡ y ∷ rest)
          × (max < total (kept ++ y ∷ []) + size))
    → (y : NeedleAddr × Bytes) × (rest : Entries) × (dropped ++ x ∷ [] ≡ y ∷ rest)
      × (max < total (kept ++ y ∷ []) + size)
grow_dropped size max kept dropped r x e h (inl none_dropped) = (
  x,
  [],
  rw none_dropped refl,
  subst (λ l. max < total (l ++ x ∷ []) + size) (e ∙ rw none_dropped (append-nil kept)) h,
)
grow_dropped size max kept dropped r x e h (inr (y, rest, p, q)) = (y, rest ++ x ∷ [], rw p refl, q)

pub make_room-Evicts :
    (fuel size : ℕ) (c : Cache)
    → IsValid c
    → size ≤ c.max_bytes
    → length c.list < fuel
    → (c' : Cache) × (dropped : Entries) × (make_room fuel size c ≡ some c')
      × Evicts size c c' dropped
unfolding make_room
make_room-Evicts zero size c s small h = elim h [ ]
make_room-Evicts (suc fuel) size c s small h =
    let sum : add_u64 c.cur_bytes size ≡ c.cur_bytes + size = omega (arith, s.bounded, s.small) in
    elim (Bool-cases (ltb c.max_bytes (c.cur_bytes + size))) [
      | inr roomy ↦ (
        c,
        [],
        rw (sum, roomy) refl,
        record {
          valid = s;
          same_max = refl;
          split = sym (append-nil c.list);
          room = ground arith;
          minimal = inl refl;
        },
      )
      | inl full ↦ elim (pop_back_cases c.list) [
        | inl (e, p) ↦ absurd (omega (arith, ltb→lt _ _ full, s.counted, ap total e, total-nil))
        | inr ((k, v), r, e, p) ↦
            let (t, list, max) = evict_lru-IsValid c r k v s e p in
            let (c', dropped, run, ev) =
              make_room-Evicts fuel size (evict_lru c) t (rw max small)
                (omega (arith, ap length e, ap length list, length-append r ((k, v) ∷ []))) in
            let split : r ≡ c'.list ++ dropped = sym list ∙ ev.split in
            (
              c',
              dropped ++ (k, v) ∷ [],
              rw (sum, full) run,
              record {
                valid = ev.valid;
                same_max = ev.same_max ∙ max;
                split =
                    e
                    ∙ ap (λ l. l ++ (k, v) ∷ []) split
                    ∙ append_assoc c'.list dropped ((k, v) ∷ []);
                room = omega (arith, ev.room, max);
                minimal = inr (
                    grow_dropped size c.max_bytes c'.list dropped r (k, v) split
                      (omega (arith, ltb→lt _ _ full, s.counted, ap total e))
                      (rw max at ev.minimal));
              },
            )
      ]
    ]
