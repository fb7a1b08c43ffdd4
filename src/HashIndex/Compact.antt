-- ===== src/HashIndex/Compact.antt =====
-- Compact of hashindex.go: the live entries go into a new file, which takes the place of the old.
-- What the system makes of the writes, of the sync and of the rename is an argument, and so is what
-- the temporary file holds before. The file that was just renamed can be opened, and an error of
-- the iteration is what is reported, also behind a failed write.
pub mod Filled
pub mod Kept
pub mod Visited
pub mod Large
mod Tests
use brisedb.Prelude.{
  ℕ, zero, suc, ◌+◌, ◌*◌, ◌-◌, ◌/◌, ◌%◌, ◌^◌, [], ◌∷◌, Bool, true, false, not, ◌||◌, List, Bytes,
  length, if◌then◌else◌, ltb,
}
use brisedb.Types.{NeedleAddr, Result, ok, err, panic, io, u64}
use brisedb.File.{Outcome}
use brisedb.HashIndex.{HashIndex, header_size, set_key}
use brisedb.HashIndex.Open.{close, load_buckets, open_index, for_each, default_bucket_count}
use Prim.Native.Nat.{bit_or}

-- The loop of shifts: every bit below the highest one is set.
unfoldable pub smear : List ℕ → ℕ → ℕ
smear [] v = v
smear (i ∷ shifts) v = smear shifts (bit_or v (v / 2 ^ i))

-- The size of the new table: twice the number of entries, up to the next power of two, and no
-- less than the default.
unfoldable pub new_buckets : ℕ → ℕ
unfolding smear
new_buckets entries =
    let need = entries * 2 % u64 in
    if ltb default_bucket_count need
    then suc (smear (1 ∷ 2 ∷ 4 ∷ 8 ∷ 16 ∷ 32 ∷ []) (need - 1)) % u64
    else default_bucket_count

-- What the system makes of the two writes of each Set, of the sync and of the rename.
pub record CompactIo : Type 0 where
  pub writes : ℕ → Outcome × Outcome
  pub synced : Bool
  pub renamed : Bool

-- The callback stops ForEach at the first Set that fails.
abbrev pub then_fill :
    HashIndex × Result (Unit {0}) → HashIndex × Result (Unit {0}) → HashIndex × Result (Unit {0})
then_fill (new, ok u) rest = rest
then_fill (new, err e) rest = (new, err e)
then_fill (new, panic) rest = (new, panic)

-- The callback of ForEach: a Set for each live entry, up to the first that fails.
unfoldable pub fill :
    (ℕ → Outcome × Outcome)
    → ℕ
    → List (Bytes × NeedleAddr × ℕ)
    → HashIndex
    → HashIndex × Result (Unit {0})
fill w i [] new = (new, ok tt)
fill w i ((k, a, x) ∷ live) new =
    let r = set_key (w i).0 (w i).1 k a x new in
    let rest = fill w (suc i) live r.0 in then_fill r rest

-- The index on the compacted file, before its table is loaded.
abbrev pub moved : ℕ → ℕ → HashIndex → HashIndex → HashIndex
moved n count hi new = record hi {
  file = close new;
  bucket_count = n;
  data_base = header_size + n * 8;
  bucket_base = header_size;
  write_pos = length (close new);
  entry_count = count;
}

abbrev pub reloaded : HashIndex → Result HashIndex → HashIndex × Result (Unit {0})
reloaded hi (ok hi') = (hi', ok tt)
reloaded hi (err e) = (hi, err e)
reloaded hi panic = (hi, panic)

abbrev pub replaced :
    CompactIo → ℕ → ℕ → HashIndex → HashIndex × Result (Unit {0}) → HashIndex × Result (Unit {0})
replaced o n count hi (new, err e) = (hi, err e)
replaced o n count hi (new, panic) = (hi, panic)
replaced o n count hi (new, ok u) =
    let hi' = moved n count hi new in
    if not o.synced || not o.renamed then (hi, err io) else reloaded hi' (load_buckets hi')

abbrev pub streamed :
    CompactIo
    → ℕ
    → HashIndex
    → HashIndex
    → Result (List (Bytes × NeedleAddr × ℕ))
    → HashIndex × Result (Unit {0})
streamed o n hi new (ok live) = replaced o n (length live) hi (fill o.writes 0 live new)
streamed o n hi new (err e) = (hi, err e)
streamed o n hi new panic = (hi, panic)

abbrev pub rebuilt :
    CompactIo → ℕ → ℕ → HashIndex → Result HashIndex → HashIndex × Result (Unit {0})
rebuilt o now n hi (ok new) = streamed o n hi new (for_each now hi)
rebuilt o now n hi (err e) = (hi, err e)
rebuilt o now n hi panic = (hi, panic)

-- Compact
unfoldable pub compact : CompactIo → ℕ → Bytes → HashIndex → HashIndex × Result (Unit {0})
compact o now tmp hi = let n = new_buckets hi.entry_count in rebuilt o now n hi (open_index tmp n)
