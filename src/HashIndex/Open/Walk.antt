-- ===== src/HashIndex/Open/Walk.antt =====
-- The walk of a chain by forEachLarge against the lookup of Get.
use brisedb.Prelude.{
  ℕ, zero, suc, ◌<◌, ◌≡◌, refl, ap, false, ◌&&◌, Option, none, some, List, [], ◌∷◌, Bytes,
  if◌then◌else◌, ◌==◌, ==_iff, nat_eq, list_eq, ltb, arith,
}
use brisedb.Prelude.Assoc.{mem}
use brisedb.Types.{NeedleAddr, ok}
use brisedb.HashIndex.Format.{Entry, read-encode}
use brisedb.HashIndex.Chain.{Chained, newest, IsValid, get-newest, hash_slot-lt}
use brisedb.HashIndex.{HashIndex, get, head_of, hash_slot}
use brisedb.HashIndex.Open.{is_live, visit, walk_chain}

-- What the walk visits of a chain, as a list.
unfoldable pub visited : ℕ → List Bytes → List Entry → List (Bytes × NeedleAddr × ℕ)
visited now seen [] = []
visited now seen (e ∷ es) =
    let skip = visited now seen es in
    let rest = visited now (e.key ∷ seen) es in
    if mem e.key seen then skip else if is_live now e then visit e ∷ rest else rest

-- The walk reads the chain to its end.
pub walk_chain-visited :
    (f : Bytes) (lo now : ℕ) (seen : List Bytes) (fuel bound off : ℕ) (es : List Entry)
    → Chained f lo bound off es
    → bound < fuel
    → walk_chain fuel f now seen off ≡ ok (visited now seen es)
unfolding walk_chain visited
walk_chain-visited f lo now seen zero bound off es c h = absurd (omega arith)
walk_chain-visited f lo now seen (suc fuel) bound off [] c h = rw c refl
walk_chain-visited f lo now seen (suc fuel) bound off (e ∷ es) (s, c) h =
    let found = read-encode e f off s.fits s.bytes in
    let skip = walk_chain-visited f lo now seen fuel off e.next es c (omega arith) in
    let rest = walk_chain-visited f lo now (e.key ∷ seen) fuel off e.next es c (omega arith) in
    let nonzero : (off == 0) ≡ false = ground arith in
    rw (nonzero, found, walk_chain) (ground (arith, skip, rest))

-- An entry of Get, unless it is expired.
abbrev pub unexpired : ℕ → Option (NeedleAddr × ℕ) → Option (NeedleAddr × ℕ)
unexpired now none = none
unexpired now (some (a, x)) = if ltb 0 x && ltb x now then none else some (a, x)

-- Every visit of a key among those of a list, in order.
unfoldable pub visits_of : Bytes → List (Bytes × NeedleAddr × ℕ) → List (NeedleAddr × ℕ)
visits_of k [] = []
visits_of k ((j, a, x) ∷ l) = let rest = visits_of k l in if j == k then (a, x) ∷ rest else rest

abbrev pub to_list : Option (NeedleAddr × ℕ) → List (NeedleAddr × ℕ)
to_list none = []
to_list (some r) = r ∷ []

visits_of-visited :
    (now : ℕ) (seen : List Bytes) (es : List Entry) (k : Bytes)
    → visits_of k (visited now seen es)
      ≡ (if mem k seen then [] else to_list (unexpired now (newest k es)))
unfolding visited visits_of newest is_live mem
visits_of-visited now seen [] k = ground arith
visits_of-visited now seen (e ∷ es) k = ground (
  arith,
  visits_of-visited now seen es k,
  visits_of-visited now (e.key ∷ seen) es k,
  ==_iff e.key k,
  ap (λ j. mem j seen),
)

-- On a valid index the walk of forEachLarge over the chain of a key ends, and it visits the key
-- once, with what Get says of it, or not at all where Get misses it or what it has is expired.
pub walk_chain-visits_of :
    (hi : HashIndex) (chains : ℕ → List Entry) (now : ℕ) (k : Bytes)
    → IsValid hi chains
    → (l : List (Bytes × NeedleAddr × ℕ)) × (o : Option (NeedleAddr × ℕ)) × (walk_chain
          (suc hi.write_pos)
          hi.file
          now
          []
          (head_of hi k)
        ≡ ok l)
      × (get hi k ≡ some o)
      × (visits_of k l ≡ to_list (unexpired now o))
unfolding mem
walk_chain-visits_of hi chains now k v =
    let es = chains (hash_slot hi k) in
    (
      visited now [] es,
      newest k es,
      walk_chain-visited hi.file hi.data_base now [] (suc hi.write_pos) hi.write_pos (head_of hi k)
          es (v.chained (hash_slot hi k) (hash_slot-lt hi k v.slots)) (omega arith),
      get-newest hi chains k v,
      visits_of-visited now [] es k,
    )
