-- ===== src/HashIndex.antt =====
-- pkg/brisedb/hashindex.go: the persistent hash index, down to the bytes of its file.
-- Offsets and counters are uint64 or int64 numbers: int64 values are not negative here, as offsets
-- of a file and Unix times are not; a negative offset that a damaged file holds reads behind
-- the end of the file in the source and here. What the system makes of each write is an argument.
pub mod Append
pub mod Format
pub mod Chain
pub mod Writes
pub mod Open
pub mod Reopened
pub mod Tables
pub mod Fresh
pub mod Compact
mod Tests
use brisedb.Prelude.{
  ℕ, zero, suc, ◌+◌, ◌*◌, ◌%◌, ◌-◌, ◌<◌, ◌++◌, [], ◌∷◌, Option, none, some, Bool, true, false,
  Bytes, length, take, drop, get_or, set, replicate, if◌then◌else◌, ◌==◌, nat_eq, list_eq, ltb,
  List,
}
use brisedb.Types.{NeedleAddr, no_addr, Result, ok, err, panic, Error, io, short_read, u64}
use brisedb.File.{Outcome, failed, wrote, read_at, write_at}
use brisedb.File.Codec.{put_le, get_le}
use Prim.Native.Nat.{bit_xor}
use Format.{Entry, encode_entry, read_entry_at}

-- hash/fnv: New64a, Write and Sum64.
unfoldable pub fnv64a : ℕ → Bytes → ℕ
fnv64a h [] = h
fnv64a h (b ∷ bs) = fnv64a ((bit_xor h b * 0x100000001b3) % u64) bs

-- hashIndex. `buckets` is the table in memory; the file holds a copy behind the header.
pub record HashIndex : Type 0 where
  pub file : Bytes
  pub bucket_count : ℕ
  pub bucket_base : ℕ
  pub data_base : ℕ
  pub write_pos : ℕ
  pub entry_count : ℕ
  pub buckets : List ℕ

abbrev pub header_size : ℕ
header_size = 64

unfoldable pub hash_slot : HashIndex → Bytes → ℕ
unfolding fnv64a
hash_slot hi key = fnv64a 0xcbf29ce484222325 key % hi.bucket_count

abbrev pub head_of : HashIndex → Bytes → ℕ
head_of hi key = get_or hi.buckets (hash_slot hi key) 0

-- writeBucketFile
unfoldable pub write_bucket_file : Outcome → ℕ → ℕ → HashIndex → HashIndex × Result (Unit {0})
unfolding failed
write_bucket_file o slot off hi = (
  record hi { file = write_at (hi.bucket_base + slot * 8) (wrote o (put_le 8 off)) hi.file },
  (if failed o then err io else ok tt),
)

-- The loop of Get over one chain. `none` means that the fuel ran out.
unfoldable pub get_chain : ℕ → Bytes → Bytes → ℕ → Option (Option (NeedleAddr × ℕ))
get_chain zero file key off = none
get_chain (suc fuel) file key off = if off == 0 then some none else elim (read_entry_at file off) [
  | err e ↦ some none
  | panic ↦ some none
  | ok e ↦
      let rest = get_chain fuel file key e.next in
      if e.key == key
      then (if e.deleted then some none else some (some (e.addr, e.expires_at)))
      else rest
]

-- Get. A chain runs to ever smaller offsets below `write_pos`.
unfoldable pub get : HashIndex → Bytes → Option (Option (NeedleAddr × ℕ))
get hi key = get_chain (suc hi.write_pos) hi.file key (head_of hi key)

-- What Set and Delete share: the entry is appended, and only then published.
unfoldable pub append_entry :
    Outcome → Outcome → Entry → (ℕ → ℕ) → HashIndex → HashIndex × Result (Unit {0})
unfolding failed wrote write_bucket_file
append_entry o₁ o₂ e counted hi =
    let slot = hash_slot hi e.key in
    let bytes = encode_entry (record e { next = head_of hi e.key }) in
    let hi₁ = record hi { file = write_at hi.write_pos (wrote o₁ bytes) hi.file } in
    if failed o₁
    then (hi₁, err io)
    else write_bucket_file o₂ slot hi.write_pos (record hi₁ {
      write_pos = hi.write_pos + length bytes;
      entry_count = counted hi.entry_count;
      buckets = set hi.buckets slot hi.write_pos;
    })

unfoldable pub set_key :
    Outcome → Outcome → Bytes → NeedleAddr → ℕ → HashIndex → HashIndex × Result (Unit {0})
set_key o₁ o₂ key addr expires_at =
    append_entry o₁ o₂
      (record { next = 0; key = key; addr = addr; expires_at = expires_at; deleted = false })
      (λ n. n + 1)

-- Delete: a tombstone. The counter does not fall below 0.
unfoldable pub delete_key : Outcome → Outcome → Bytes → HashIndex → HashIndex × Result (Unit {0})
delete_key o₁ o₂ key =
    append_entry o₁ o₂
      (record { next = 0; key = key; addr = no_addr; expires_at = 0; deleted = true })
      (λ n. if ltb 0 n then n - 1 else n)
