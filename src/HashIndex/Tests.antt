-- ===== src/HashIndex/Tests.antt =====
-- Runs of the index on a file of two slots.
use brisedb.Prelude.{
  ℕ, zero, suc, ◌+◌, ◌*◌, ◌^◌, ◌<◌, ◌≡◌, refl, none, some, List, [], ◌∷◌, Bytes, take, drop,
  replicate, get_or, if◌then◌else◌, ◌==◌, nat_eq, list_eq, arith,
}
use brisedb.Types.{NeedleAddr, ok, err, io}
use brisedb.File.{done, fails, read_at}
use brisedb.File.Codec.{put_le}
use brisedb.HashIndex.Open.{close, open_index}
use brisedb.HashIndex.Reopened.{Persisted, get-open_index}
use brisedb.HashIndex.Tables.{append_entry-Persisted}
use brisedb.HashIndex.{HashIndex, get, set_key, delete_key, append_entry}
use brisedb.HashIndex.Chain.{IsValid, newest, get-newest}
use brisedb.HashIndex.Format.{Entry}
use brisedb.HashIndex.Append.{Room}
use brisedb.HashIndex.Writes.{
  set_entry, tombstone, get-set_key, get-delete_key, get-failed_write, set_key-IsValid, ValidAfter,
}

abbrev pub key_a : Bytes
key_a = b'a' ∷ []

abbrev pub addr : NeedleAddr
addr = record { volume_id = 1; offset = 2; size = 3 }

abbrev pub index : HashIndex
index = record {
  file = replicate 80 0;
  bucket_count = 2;
  bucket_base = 64;
  data_base = 80;
  write_pos = 80;
  entry_count = 0;
  buckets = 0 ∷ 0 ∷ [];
}

abbrev pub no_chains : ℕ → List Entry
no_chains s = []

empty_chains : (s : ℕ) → s < 2 → get_or index.buckets s 0 ≡ 0
unfolding get_or
empty_chains zero h = refl
empty_chains (suc zero) h = refl
empty_chains (suc (suc s)) h = absurd (omega arith)

pub index-IsValid : IsValid index no_chains
unfolding replicate
index-IsValid = record {
  slots = omega arith;
  table = omega arith;
  data_positive = omega arith;
  data_start = omega arith;
  data_end = omega arith;
  heads = refl;
  chained = empty_chains;
}

pub set-Room : Room index (set_entry key_a addr 9)
set-Room = record {
  key = omega arith;
  volume_id = omega arith;
  offset = omega arith;
  size = omega arith;
  expires_at = omega arith;
  room = omega arith;
}

delete-Room : Room index (tombstone key_a)
delete-Room = record {
  key = omega arith;
  volume_id = omega arith;
  offset = omega arith;
  size = omega arith;
  expires_at = omega arith;
  room = omega arith;
}

get-newest_example : get index key_a ≡ some (newest key_a [])
get-newest_example = get-newest index no_chains key_a index-IsValid

get-set_key_example :
    get (set_key done (fails 3) key_a addr 9 index).0 key_a
    ≡ (if key_a == key_a then some (some (addr, 9)) else get index key_a)
get-set_key_example =
    get-set_key index no_chains index-IsValid (fails 3) key_a addr 9 key_a set-Room

get-delete_key_example :
    get (delete_key done done key_a index).0 key_a
    ≡ (if key_a == key_a then some none else get index key_a)
get-delete_key_example = get-delete_key index no_chains index-IsValid done key_a key_a delete-Room

get-failed_write_example :
    (get (set_key (fails 5) done key_a addr 9 index).0 key_a ≡ get index key_a)
    × ((set_key (fails 5) done key_a addr 9 index).1 ≡ err io)
    × (get (delete_key (fails 5) done key_a index).0 key_a ≡ get index key_a)
    × ((delete_key (fails 5) done key_a index).1 ≡ err io)
get-failed_write_example = get-failed_write index no_chains index-IsValid 5 done key_a addr 9 key_a

set_key-IsValid_example :
    ValidAfter index no_chains index-IsValid key_a (set_key done done key_a addr 9 index).0
set_key-IsValid_example =
    set_key-IsValid index no_chains index-IsValid key_a done done addr 9 set-Room

unbroken :
    (s : ℕ) → s < 2 → read_at 8 (64 + s * 8) (replicate 80 0) ≡ put_le 8 (get_or index.buckets s 0)
unfolding replicate read_at put_le take drop get_or
unbroken zero h = refl
unbroken (suc zero) h = refl
unbroken (suc (suc s)) h = absurd (omega arith)

small_heads : (s : ℕ) → s < 2 → get_or index.buckets s 0 < 256 ^ 8
small_heads s h = rw (empty_chains s h) (omega arith)

index-Persisted : Persisted index
index-Persisted = record { base = refl; slots = unbroken; heads = small_heads }

get-open_index_example :
    (hi' : HashIndex) × (open_index (close index) 7 ≡ ok hi')
    × IsValid hi' no_chains
    × Persisted hi'
    × ((k : Bytes) → get hi' k ≡ get index k)
get-open_index_example =
    get-open_index index no_chains 7 index-IsValid index-Persisted (omega arith) (omega arith)
      (omega arith)

append_entry-Persisted_example :
    Persisted (append_entry done done (set_entry key_a addr 9) suc index).0
append_entry-Persisted_example =
    append_entry-Persisted index no_chains (set_entry key_a addr 9) suc index-IsValid
      index-Persisted (omega arith)
