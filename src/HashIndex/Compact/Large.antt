-- ===== src/HashIndex/Compact/Large.antt =====
-- Compact of an index that ForEach walks by its chains.
use brisedb.Prelude.{
  ℕ, zero, suc, ◌+◌, ◌*◌, ◌≤◌, ◌<◌, ◌^◌, ◌≡◌, sym, ap, ◌∙◌, Option, some, List, [], ◌∷◌, ◌++◌,
  Bytes, ◌==◌, ==_iff, nat_eq, list_eq, arith, true, false, ltb, Bool-cases, inl, inr,
}
use brisedb.Prelude.Assoc.{mem}
use brisedb.Types.{NeedleAddr, ok}
use brisedb.File.{done}
use brisedb.HashIndex.{HashIndex, get, hash_slot, header_size}
use brisedb.HashIndex.Chain.{IsValid, Chained, get-newest, newest, hash_slot-lt, push}
use brisedb.HashIndex.Compact.{CompactIo, compact, new_buckets}
use brisedb.HashIndex.Compact.Filled.{AllStorable, Storable, total_size}
use brisedb.HashIndex.Compact.Kept.{compact-live}
use brisedb.HashIndex.Compact.Visited.{Homed, all_visited, for_each_large-all, latest-all_visited}
use brisedb.HashIndex.Format.{Entry}
use brisedb.HashIndex.Open.{is_live, visit, for_each}
use brisedb.HashIndex.Open.Walk.{visited, unexpired}
use brisedb.HashIndex.Reopened.{Persisted}

AllStorable-append :
    (a b : List (Bytes × NeedleAddr × ℕ)) → AllStorable a → AllStorable b → AllStorable (a ++ b)
AllStorable-append [] b s t = t
AllStorable-append (e ∷ a) b (h, s) t = (h, AllStorable-append a b s t)

visited-AllStorable :
    (f : Bytes) (lo now bound off : ℕ) (seen : List Bytes) (es : List Entry)
    → Chained f lo bound off es
    → AllStorable (visited now seen es)
unfolding visited
visited-AllStorable f lo now bound off seen [] c = tt
visited-AllStorable f lo now bound off seen (e ∷ es) (s, c) =
    let skip = visited-AllStorable f lo now off e.next seen es c in
    let rest = visited-AllStorable f lo now off e.next (e.key ∷ seen) es c in
    let this : Storable (visit e) = record {
      key = s.fits.key;
      volume_id = s.fits.volume_id;
      offset = s.fits.offset;
      size = s.fits.size;
      expires_at = s.fits.expires_at;
    } in
    elim (Bool-cases (mem e.key seen)) [
      | inl old ↦ rw old skip
      | inr new ↦ elim (Bool-cases (is_live now e)) [
        | inl live ↦ rw (new, live) (this, rest)
        | inr dead ↦ rw (new, dead) rest
      ]
    ]

all_visited-AllStorable :
    (hi : HashIndex) (chains : ℕ → List Entry) (now base n : ℕ)
    → IsValid hi chains
    → base + n ≤ hi.bucket_count
    → AllStorable (all_visited now chains base n)
all_visited-AllStorable hi chains now base zero v h = tt
all_visited-AllStorable hi chains now base (suc n) v h =
    AllStorable-append (visited now [] (chains base)) (all_visited now chains (suc base) n)
      (visited-AllStorable hi.file hi.data_base now hi.write_pos _ [] (chains base)
        (v.chained base (omega arith)))
      (all_visited-AllStorable hi chains now (suc base) n v (omega arith))

-- A new entry stands in the chain of its slot.
pub push-Homed :
    (hi : HashIndex) (chains : ℕ → List Entry) (e : Entry)
    → Homed hi chains
    → Homed hi (push (hash_slot hi e.key) e chains)
push-Homed hi chains e h s = elim (Bool-cases (s == hash_slot hi e.key)) [
  | inl same ↦ rw same (sym ((==_iff s (hash_slot hi e.key)).0 same), h s)
  | inr other ↦ rw other (h s)
]

-- A Compact of a valid index with an entry count of 100,000 or more, each entry in the chain of its
-- slot, with a temporary file that does not exist or is empty, and whose writes, sync and rename
-- succeed, reports success and leaves a valid index with its table in the file, from which every
-- key reads as before, unless what it had is expired: then it is gone. The new table is not empty,
-- and the new file is below 2 ^ 63 bytes.
pub compact-large :
    (o : CompactIo) (now : ℕ) (hi : HashIndex) (chains : ℕ → List Entry)
    → IsValid hi chains
    → Homed hi chains
    → 100_000 ≤ hi.entry_count
    → ((i : ℕ) → o.writes i ≡ (done, done))
    → o.synced ≡ true
    → o.renamed ≡ true
    → 0 < new_buckets hi.entry_count
    → header_size
        + new_buckets hi.entry_count * 8
        + total_size (all_visited now chains 0 hi.bucket_count)
      < 2 ^ 63
    → (hi' : HashIndex) × (chains' : ℕ → List Entry) × (compact o now [] hi ≡ (hi', ok tt))
      × IsValid hi' chains'
      × Persisted hi'
      × ((k : Bytes)
          → (r : Option (NeedleAddr × ℕ)) × (get hi k ≡ some r)
            × (get hi' k ≡ some (unexpired now r)))
unfolding for_each
compact-large o now hi chains v homed many w synced renamed some_buckets room =
    let l = all_visited now chains 0 hi.bucket_count in
    let large : ltb hi.entry_count 100_000 ≡ false = ground (arith, many) in
    let all : for_each now hi ≡ ok l = rw large (for_each_large-all hi chains now v) in
    let (hi', chains', run, v', q', count, reads) =
      compact-live o now hi l all w synced renamed
        (all_visited-AllStorable hi chains now 0 hi.bucket_count v (omega arith)) some_buckets
        room in
    (
      hi',
      chains',
      run,
      v',
      q',
      λ k. (
        newest k (chains (hash_slot hi k)),
        get-newest hi chains k v,
        reads k
            ∙ ap some (
                latest-all_visited (hash_slot hi) now chains k homed 0 hi.bucket_count (omega arith)
                  (omega (arith, hash_slot-lt hi k v.slots))),
      ),
    )
