-- ===== src/HashIndex/Open/Header.antt =====
-- The header of the index file.
use brisedb.Prelude.{
  ℕ, ◌+◌, ◌<◌, ◌^◌, ◌≡◌, refl, ap, ◌∙◌, subst, ◌++◌, Bytes, length, take, drop, replicate,
  length-append, length-replicate, take-append, drop-append, drop-add, ==_refl, nat_eq, list_eq,
  arith,
}
use brisedb.Types.{ok}
use brisedb.File.{read_at, write_at, read-write_self}
use brisedb.File.Codec.{put_le, get_le, length-put_le, get-put_le}
use brisedb.HashIndex.{HashIndex, header_size}
use brisedb.HashIndex.Open.{hi_magic, hi_version, encode_header, read_header, close}

pub length-header : (hi : HashIndex) → length (encode_header hi) ≡ 64
unfolding encode_header
length-header hi =
    let e = put_le 8 hi.entry_count ++ replicate 24 0 in
    let d = put_le 8 hi.data_base ++ e in
    let c = put_le 8 hi.bucket_count ++ d in
    let r = replicate 4 0 ++ c in
    omega (
      arith,
      length-append (put_le 4 hi_version) r,
      length-append (replicate 4 0) c,
      length-append (put_le 8 hi.bucket_count) d,
      length-append (put_le 8 hi.data_base) e,
      length-append (put_le 8 hi.entry_count) (replicate 24 0),
      length-put_le 4 hi_version,
      length-put_le 8 hi.bucket_count,
      length-put_le 8 hi.data_base,
      length-put_le 8 hi.entry_count,
      length-replicate {A = ℕ} 4 0,
      length-replicate {A = ℕ} 24 0,
    )

drop-skip : (n m : ℕ) (a b : Bytes) → length a ≡ n → drop (n + m) (a ++ b) ≡ drop m b
drop-skip n m a b h = drop-add n m (a ++ b) ∙ ap (drop m) (drop-append n a b h)

field : (n : ℕ) (b : Bytes) → n < 256 ^ 8 → get_le (take 8 (put_le 8 n ++ b)) ≡ n
field n b h = ap get_le (take-append 8 (put_le 8 n) b (length-put_le 8 n)) ∙ get-put_le 8 n h

-- The parts of the header behind its first 16, 24 and 32 bytes.
abbrev counts : HashIndex → Bytes
counts hi = put_le 8 hi.entry_count ++ replicate 24 0

abbrev bases : HashIndex → Bytes
bases hi = put_le 8 hi.data_base ++ counts hi

drop-header_16 :
    (hi : HashIndex) → drop 16 (encode_header hi) ≡ put_le 8 hi.bucket_count ++ bases hi
unfolding encode_header
drop-header_16 hi =
    let c = put_le 8 hi.bucket_count ++ bases hi in
    drop-skip 8 8 hi_magic (put_le 4 hi_version ++ (replicate 4 0 ++ c)) refl
    ∙ drop-skip 4 4 (put_le 4 hi_version) (replicate 4 0 ++ c) (length-put_le 4 hi_version)
    ∙ drop-append 4 (replicate 4 0) c (length-replicate 4 0)

drop-header_24 : (hi : HashIndex) → drop 24 (encode_header hi) ≡ bases hi
drop-header_24 hi =
    drop-add 16 8 (encode_header hi)
    ∙ ap (drop 8) (drop-header_16 hi)
    ∙ drop-append 8 (put_le 8 hi.bucket_count) (bases hi) (length-put_le 8 hi.bucket_count)

drop-header_32 : (hi : HashIndex) → drop 32 (encode_header hi) ≡ counts hi
drop-header_32 hi =
    drop-add 24 8 (encode_header hi)
    ∙ ap (drop 8) (drop-header_24 hi)
    ∙ drop-append 8 (put_le 8 hi.data_base) (counts hi) (length-put_le 8 hi.data_base)

take-header : (hi : HashIndex) → take 8 (encode_header hi) ≡ hi_magic
unfolding encode_header
take-header hi = take-append 8 hi_magic _ refl

-- Opening a file that was closed reads back the number of buckets, the start of the data and the
-- count of the entries, if they are below 2 ^ 64, whatever the index was opened with.
pub read_header-close :
    (hi start : HashIndex)
    → hi.bucket_count < 256 ^ 8
    → hi.data_base < 256 ^ 8
    → hi.entry_count < 256 ^ 8
    → read_header (record start { file = close hi })
      ≡ ok (record start {
        file = close hi;
        bucket_count = hi.bucket_count;
        data_base = hi.data_base;
        bucket_base = header_size;
        entry_count = hi.entry_count;
      })
unfolding read_header close
read_header-close hi start b d c =
    let h = encode_header hi in
    let whole : read_at header_size 0 (write_at 0 h hi.file) ≡ h =
      subst (λ n. read_at n 0 (write_at 0 h hi.file) ≡ h) (length-header hi)
        (read-write_self h hi.file 0) in
    rw
      (
        whole,
        length-header hi,
        take-header hi,
        drop-header_16 hi,
        drop-header_24 hi,
        drop-header_32 hi,
        field hi.bucket_count (bases hi) b,
        field hi.data_base (counts hi) d,
        field hi.entry_count (replicate 24 0) c,
        ==_refl hi_magic,
      )
      refl
