-- ===== src/HashIndex/Open.antt =====
-- Opening, closing and walking the index: openHashIndex, ForEach and Close of hashindex.go.
pub mod Header
pub mod Walk
use brisedb.Prelude.{
  ℕ, zero, suc, ◌+◌, ◌*◌, ◌-◌, ◌++◌, [], ◌∷◌, Option, none, some, Bool, true, false, not, ◌&&◌,
  ◌||◌, List, Bytes, length, take, drop, replicate, if◌then◌else◌, ◌==◌, nat_eq, list_eq, ltb, leb,
}
use brisedb.Prelude.Assoc.{Assoc, insert, mem}
use brisedb.Types.{NeedleAddr, Result, ok, err, panic, Error, io, short_read, bad_magic}
use brisedb.File.{read_at, write_at}
use brisedb.File.Codec.{put_le, get_le}
use brisedb.HashIndex.{HashIndex, header_size}
use brisedb.HashIndex.Format.{Entry, read_entry_at, entry_size}

abbrev pub hi_magic : Bytes
hi_magic = b'B' ∷ b'R' ∷ b'I' ∷ b'S' ∷ b'E' ∷ b'H' ∷ b'D' ∷ b'X' ∷ []

abbrev pub hi_version : ℕ
hi_version = 1

abbrev pub default_bucket_count : ℕ
default_bucket_count = 1_048_576

-- encodeHeader
unfoldable pub encode_header : HashIndex → Bytes
encode_header hi =
    hi_magic
    ++ (put_le 4 hi_version
        ++ (replicate 4 0
            ++ (put_le 8 hi.bucket_count
                ++ (put_le 8 hi.data_base ++ (put_le 8 hi.entry_count ++ replicate 24 0)))))

-- readHeader
unfoldable pub read_header : HashIndex → Result HashIndex
read_header hi =
    let hdr = read_at header_size 0 hi.file in
    if not (length hdr == header_size)
    then err short_read
    else if not (take 8 hdr == hi_magic)
    then err bad_magic
    else ok (record hi {
      bucket_count = get_le (take 8 (drop 16 hdr));
      data_base = get_le (take 8 (drop 24 hdr));
      bucket_base = header_size;
      entry_count = get_le (take 8 (drop 32 hdr));
    })

-- initFile
unfoldable pub init_file : HashIndex → HashIndex
init_file hi = record hi {
  file =
      write_at header_size (replicate (hi.bucket_count * 8) 0)
        (write_at 0 (encode_header hi) hi.file);
}

-- Close
unfoldable pub close : HashIndex → Bytes
close hi = write_at 0 (encode_header hi) hi.file

-- loadBuckets
unfoldable pub table_slots : ℕ → Bytes → List ℕ
table_slots zero buf = []
table_slots (suc n) buf = get_le (take 8 buf) ∷ table_slots n (drop 8 buf)

unfoldable pub load_buckets : HashIndex → Result HashIndex
load_buckets hi =
    let size = hi.bucket_count * 8 in
    let buf = read_at size hi.bucket_base hi.file in
    if length buf == size
    then ok (record hi { buckets = table_slots hi.bucket_count buf })
    else err short_read

-- What openHashIndex starts from.
abbrev pub blank : Bytes → ℕ → HashIndex
blank file n = record {
  file = file;
  bucket_count = n;
  bucket_base = header_size;
  data_base = header_size + n * 8;
  write_pos = header_size + n * 8;
  entry_count = 0;
  buckets = [];
}

abbrev pub loaded : Bytes → Result HashIndex → Result HashIndex
loaded file (ok hi) = load_buckets (record hi { write_pos = length file })
loaded file (err e) = err e
loaded file panic = panic

abbrev pub opened : Bytes → ℕ → Result HashIndex
opened file n =
    if length file == 0
    then load_buckets (init_file (blank file n))
    else loaded file (read_header (blank file n))

-- openHashIndex on what the file holds.
unfoldable pub open_index : Bytes → ℕ → Result HashIndex
open_index file n = opened file (if n == 0 then default_bucket_count else n)

-- An entry that ForEach passes on: not deleted, and not expired.
unfoldable pub is_live : ℕ → Entry → Bool
is_live now e = not e.deleted && not (ltb 0 e.expires_at && ltb e.expires_at now)

abbrev pub visit : Entry → Bytes × NeedleAddr × ℕ
visit e = (e.key, e.addr, e.expires_at)

abbrev pub put_first {ℓ} : {A : Type ℓ} → A → Result (List A) → Result (List A)
put_first a (ok l) = ok (a ∷ l)
put_first a (err e) = err e
put_first a panic = panic

-- The walk of one chain by forEachLarge. It panics where the fuel runs out.
unfoldable pub walk_chain : ℕ → Bytes → ℕ → List Bytes → ℕ → Result (List (Bytes × NeedleAddr × ℕ))
walk_chain zero file now seen off = panic
walk_chain (suc fuel) file now seen off =
    if off == 0 then ok [] else elim (read_entry_at file off) [
      | err e ↦ err e
      | panic ↦ panic
      | ok e ↦
          let skip = walk_chain fuel file now seen e.next in
          let rest = walk_chain fuel file now (e.key ∷ seen) e.next in
          if mem e.key seen then skip else if is_live now e then put_first (visit e) rest else rest
    ]

abbrev joined :
    Result (List (Bytes × NeedleAddr × ℕ))
    → Result (List (Bytes × NeedleAddr × ℕ))
    → Result (List (Bytes × NeedleAddr × ℕ))
joined (ok a) (ok b) = ok (a ++ b)
joined (ok a) (err e) = err e
joined (ok a) panic = panic
joined (err e) r = err e
joined panic r = panic

-- forEachLarge, with a callback that never stops it.
unfoldable pub walk_heads : ℕ → Bytes → ℕ → List ℕ → Result (List (Bytes × NeedleAddr × ℕ))
walk_heads fuel file now [] = ok []
walk_heads fuel file now (head ∷ heads) =
    joined (walk_chain fuel file now [] head) (walk_heads fuel file now heads)

unfoldable pub for_each_large : ℕ → HashIndex → Result (List (Bytes × NeedleAddr × ℕ))
for_each_large now hi = walk_heads (suc hi.write_pos) hi.file now hi.buckets

-- The first pass of forEachSmall, from a position on: the newest entry of each key.
unfoldable pub scan_region : ℕ → Bytes → ℕ → ℕ → Assoc Bytes Entry → Result (Assoc Bytes Entry)
scan_region zero file end pos latest = panic
scan_region (suc fuel) file end pos latest =
    if leb end pos then ok latest else elim (read_entry_at file pos) [
      | err e ↦ err e
      | panic ↦ panic
      | ok e ↦ scan_region fuel file end (pos + entry_size (length e.key)) (insert e.key e latest)
    ]

-- Its second pass.
unfoldable pub live_entries : ℕ → Assoc Bytes Entry → List (Bytes × NeedleAddr × ℕ)
live_entries now [] = []
live_entries now ((k, e) ∷ m) =
    let rest = live_entries now m in if is_live now e then visit e ∷ rest else rest

unfoldable pub for_each_small : ℕ → HashIndex → Result (List (Bytes × NeedleAddr × ℕ))
for_each_small now hi = elim (scan_region (suc hi.write_pos) hi.file hi.write_pos hi.data_base []) [
  | ok m ↦ ok (live_entries now m)
  | err e ↦ err e
  | panic ↦ panic
]

-- ForEach
unfoldable pub for_each : ℕ → HashIndex → Result (List (Bytes × NeedleAddr × ℕ))
for_each now hi =
    if ltb hi.entry_count 100_000 then for_each_small now hi else for_each_large now hi
