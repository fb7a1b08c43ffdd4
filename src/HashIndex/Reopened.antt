-- ===== src/HashIndex/Reopened.antt =====
-- What a Close and a new opening make of an index: the table in the file agrees with the one in
-- memory, and every key reads as before.
use brisedb.Prelude.{
  ℕ, zero, suc, ◌+◌, ◌*◌, ◌^◌, ◌≤◌, ◌<◌, ◌≡◌, refl, sym, ap, ◌∙◌, false, some, List, [], ◌∷◌, Bytes,
  length, take, drop, get_or, if◌then◌else◌, ◌==◌, ==_refl, nat_eq, arith, take-take, take-drop,
  drop-add,
}
use brisedb.Types.{ok}
use brisedb.File.{read_at, read-write_after, length-write_at, length-read_at_of_le}
use brisedb.File.Codec.{put_le, get-put_le}
use brisedb.HashIndex.{HashIndex, header_size, hash_slot, get}
use brisedb.HashIndex.Format.{Entry}
use brisedb.HashIndex.Append.{Chained-mono}
use brisedb.HashIndex.Chain.{newest, IsValid, Chained-keep, get-newest}
use brisedb.HashIndex.Open.{
  close, encode_header, load_buckets, open_index, table_slots, blank, default_bucket_count,
}
use brisedb.HashIndex.Open.Header.{length-header, read_header-close}

-- The table in the file is the one in memory.
pub record Persisted (hi : HashIndex) : Type 0 where
  pub base : hi.bucket_base ≡ header_size
  pub slots :
      (s : ℕ)
      → s < hi.bucket_count
      → read_at 8 (hi.bucket_base + s * 8) hi.file ≡ put_le 8 (get_or hi.buckets s 0)
  pub heads : (s : ℕ) → s < hi.bucket_count → get_or hi.buckets s 0 < 256 ^ 8

read-first : (n off : ℕ) (f : Bytes) → take 8 (read_at (suc n * 8) off f) ≡ read_at 8 off f
unfolding read_at
read-first n off f = take-take 8 (suc n * 8) (drop off f) (omega arith)

read-rest :
    (n off : ℕ) (f : Bytes) → drop 8 (read_at (suc n * 8) off f) ≡ read_at (n * 8) (off + 8) f
unfolding read_at
read-rest n off f =
    let e : suc n * 8 ≡ 8 + n * 8 = omega arith in
    rw e (sym (take-drop 8 (n * 8) (drop off f)) ∙ ap (take (n * 8)) (sym (drop-add off 8 f)))

-- The table that is read is the one that was written.
table_slots-read :
    (n off : ℕ) (f : Bytes) (l : List ℕ)
    → length l ≡ n
    → ((s : ℕ) → s < n → read_at 8 (off + s * 8) f ≡ put_le 8 (get_or l s 0))
    → ((s : ℕ) → s < n → get_or l s 0 < 256 ^ 8)
    → table_slots n (read_at (n * 8) off f) ≡ l
unfolding table_slots get_or
table_slots-read zero off f [] h r b = refl
table_slots-read zero off f (x ∷ l) h r b = absurd (omega arith)
table_slots-read (suc n) off f [] h r b = absurd (omega arith)
table_slots-read (suc n) off f (x ∷ l) h r b =
    let first : take 8 (read_at (suc n * 8) off f) ≡ put_le 8 x =
      read-first n off f ∙ ap (λ p. read_at 8 p f) (omega arith) ∙ r 0 (omega arith) in
    let rest : drop 8 (read_at (suc n * 8) off f) ≡ read_at (n * 8) (off + 8) f =
      read-rest n off f in
    let tail =
      table_slots-read n (off + 8) f l (omega arith)
        (λ s k. ap (λ p. read_at 8 p f) (omega arith) ∙ r (suc s) (omega arith))
        (λ s k. b (suc s) (omega arith)) in
    rw (first, rest, tail) (ap (λ y. y ∷ l) (get-put_le 8 x (b 0 (omega arith))))

-- Close touches the header alone.
pub close_after :
    (hi : HashIndex) (n p : ℕ) → header_size ≤ p → read_at n p (close hi) ≡ read_at n p hi.file
unfolding close
close_after hi n p h =
    read-write_after n p (encode_header hi) hi.file 0 (omega (arith, length-header hi, h))

pub length-close :
    (hi : HashIndex) → header_size ≤ length hi.file → length (close hi) ≡ length hi.file
unfolding close
length-close hi h =
    length-write_at 0 (encode_header hi) hi.file ∙ omega (arith, length-header hi, h)

-- The index that is opened on what Close left.
abbrev pub reopened : HashIndex → HashIndex
reopened hi = record hi { file = close hi; bucket_base = header_size; write_pos = length hi.file }

pub load_buckets-read :
    (hi : HashIndex) (l : List ℕ)
    → length l ≡ hi.bucket_count
    → ((s : ℕ)
        → s < hi.bucket_count
        → read_at 8 (hi.bucket_base + s * 8) hi.file ≡ put_le 8 (get_or l s 0))
    → ((s : ℕ) → s < hi.bucket_count → get_or l s 0 < 256 ^ 8)
    → hi.bucket_base + hi.bucket_count * 8 ≤ length hi.file
    → load_buckets hi ≡ ok (record hi { buckets = l })
unfolding load_buckets
load_buckets-read hi l h r b inside =
    let n = hi.bucket_count * 8 in
    let size = length-read_at_of_le n hi.bucket_base hi.file inside in
    let t = table_slots-read hi.bucket_count hi.bucket_base hi.file l h r b in
    rw (size, ==_refl n) (rw t refl)

loaded-read :
    (hi : HashIndex) (chains : ℕ → List Entry)
    → IsValid hi chains
    → Persisted hi
    → load_buckets (record hi {
      file = close hi;
      bucket_base = header_size;
      write_pos = length (close hi);
      buckets = [];
    })
      ≡ ok (record hi { file = close hi; bucket_base = header_size; write_pos = length (close hi) })
loaded-read hi chains v q =
    load_buckets-read
      (record hi {
        file = close hi;
        bucket_base = header_size;
        write_pos = length (close hi);
        buckets = [];
      })
      hi.buckets v.heads
      (λ s k.
        close_after hi 8 (header_size + s * 8) (omega arith)
        ∙ ap (λ p. read_at 8 (p + s * 8) hi.file) (sym q.base)
        ∙ q.slots s k)
      q.heads
      (omega (
        arith,
        v.table,
        v.data_start,
        v.data_end,
        q.base,
        length-close hi (omega (arith, v.table, v.data_start, v.data_end, q.base)),
      ))

open_index-close :
    (hi : HashIndex) (chains : ℕ → List Entry) (n : ℕ)
    → IsValid hi chains
    → Persisted hi
    → hi.bucket_count < 256 ^ 8
    → hi.data_base < 256 ^ 8
    → hi.entry_count < 256 ^ 8
    → open_index (close hi) n ≡ ok (reopened hi)
unfolding open_index
open_index-close hi chains n v q b d c =
    let m = if n == 0 then default_bucket_count else n in
    let start = blank (close hi) m in
    let size = length-close hi (omega (arith, v.table, v.data_start, v.data_end, q.base)) in
    let full : (length (close hi) == 0) ≡ false =
      ground (arith, size, v.table, v.data_start, v.data_end, q.base) in
    let head = read_header-close hi start b d c in
    rw (full, head)
      (loaded-read hi chains v q
        ∙ ap (λ z. ok (record hi { file = close hi; bucket_base = header_size; write_pos = z }))
            size)

pub reopened-IsValid :
    (hi : HashIndex) (chains : ℕ → List Entry)
    → IsValid hi chains
    → Persisted hi
    → IsValid (reopened hi) chains
reopened-IsValid hi chains v q =
    let above = length-close hi (omega (arith, v.table, v.data_start, v.data_end, q.base)) in
    record {
      slots = v.slots;
      table = omega (arith, v.table, q.base);
      data_positive = v.data_positive;
      data_start = omega (arith, v.data_start, v.data_end);
      data_end = omega (arith, above);
      heads = v.heads;
      chained = λ s k.
          Chained-mono (close hi) hi.data_base hi.write_pos (length hi.file) (get_or hi.buckets s 0)
            (chains s) v.data_end
            (Chained-keep hi.file (close hi) hi.data_base hi.write_pos hi.write_pos
              (get_or hi.buckets s 0) (chains s)
              (λ n p lo h. close_after hi n p (omega (arith, lo, v.table, q.base))) (omega arith)
              (v.chained s k));
    }

pub reopened-Persisted :
    (hi : HashIndex) (chains : ℕ → List Entry)
    → IsValid hi chains
    → Persisted hi
    → Persisted (reopened hi)
reopened-Persisted hi chains v q = record {
  base = refl;
  slots = λ s k.
      close_after hi 8 (header_size + s * 8) (omega arith)
      ∙ ap (λ p. read_at 8 (p + s * 8) hi.file) (sym q.base)
      ∙ q.slots s k;
  heads = q.heads;
}

same_slot : (hi : HashIndex) (k : Bytes) → hash_slot (reopened hi) k ≡ hash_slot hi k
unfolding hash_slot
same_slot hi k = refl

pub get-reopened :
    (hi : HashIndex) (chains : ℕ → List Entry) (k : Bytes)
    → IsValid hi chains
    → Persisted hi
    → get (reopened hi) k ≡ get hi k
get-reopened hi chains k v q =
    get-newest (reopened hi) chains k (reopened-IsValid hi chains v q)
    ∙ ap (λ s. some (newest k (chains s))) (same_slot hi k)
    ∙ sym (get-newest hi chains k v)

-- An index whose table in the file is the one in memory, once closed, opens again whatever number of
-- buckets is asked for, and every key reads as before; it is valid again, with its table in the
-- file. The number of buckets, the start of the data and the count of the entries are in 64 bits.
pub get-open_index :
    (hi : HashIndex) (chains : ℕ → List Entry) (n : ℕ)
    → IsValid hi chains
    → Persisted hi
    → hi.bucket_count < 256 ^ 8
    → hi.data_base < 256 ^ 8
    → hi.entry_count < 256 ^ 8
    → (hi' : HashIndex) × (open_index (close hi) n ≡ ok hi')
      × IsValid hi' chains
      × Persisted hi'
      × ((k : Bytes) → get hi' k ≡ get hi k)
get-open_index hi chains n v q b d c = (
  reopened hi,
  open_index-close hi chains n v q b d c,
  reopened-IsValid hi chains v q,
  reopened-Persisted hi chains v q,
  λ k. get-reopened hi chains k v q,
)
