-- ===== src/HashIndex/Chain.antt =====
-- The chains of the hash index, and what Get reads after Set and Delete.
use brisedb.Prelude.{
  ℕ, zero, suc, ◌+◌, ◌*◌, ◌≤◌, ◌<◌, ◌≡◌, refl, ◌∙◌, Option, none, some, false, List, [], ◌∷◌, Bytes,
  length, get_or, if◌then◌else◌, ◌==◌, nat_eq, list_eq, arith,
}
use brisedb.Types.{NeedleAddr}
use brisedb.File.{read_at}
use brisedb.HashIndex.Format.{Entry, Fits, entry_size, encode_entry, read-encode}
use brisedb.HashIndex.{HashIndex, hash_slot, head_of, get_chain, get}

-- An entry stands in the file at `off`, below `bound`.
pub record Stands (f : Bytes) (lo bound off : ℕ) (e : Entry) : Type 0 where
  pub above : lo ≤ off
  pub positive : 0 < off
  pub below : off + entry_size (length e.key) ≤ bound
  pub bytes : read_at (entry_size (length e.key)) off f ≡ encode_entry e
  pub fits : Fits e

-- The entries of a chain, newest first, each behind the next one.
abbrev pub Chained : Bytes → ℕ → ℕ → ℕ → List Entry → Type 0
Chained f lo bound off [] = off ≡ 0
Chained f lo bound off (e ∷ es) = Stands f lo bound off e × Chained f lo off e.next es

-- What a chain says of a key: its newest entry decides.
unfoldable pub newest : Bytes → List Entry → Option (NeedleAddr × ℕ)
newest k [] = none
newest k (e ∷ es) =
    if e.key == k then (if e.deleted then none else some (e.addr, e.expires_at)) else newest k es

-- The loop of Get reads a chain to the end within its fuel.
get_chain-newest :
    (f : Bytes) (lo : ℕ) (k : Bytes) (fuel bound off : ℕ) (es : List Entry)
    → Chained f lo bound off es
    → bound < fuel
    → get_chain fuel f k off ≡ some (newest k es)
unfolding get_chain newest
get_chain-newest f lo k zero bound off es c h = elim h [ ]
get_chain-newest f lo k (suc fuel) bound off [] c h = rw c refl
get_chain-newest f lo k (suc fuel) bound off (e ∷ es) (s, c) h =
    let found = read-encode e f off s.fits s.bytes in
    let rest = get_chain-newest f lo k fuel off e.next es c (omega arith) in
    let nonzero : (off == 0) ≡ false = ground arith in
    rw (nonzero, found, get_chain) (ground (arith, rest))

-- A chain depends on nothing but the bytes from `lo` up to its bound.
pub Chained-keep :
    (f g : Bytes) (lo bound top off : ℕ) (es : List Entry)
    → ((n p : ℕ) → lo ≤ p → p + n ≤ top → read_at n p g ≡ read_at n p f)
    → bound ≤ top
    → Chained f lo bound off es
    → Chained g lo bound off es
Chained-keep f g lo bound top off [] same h c = c
Chained-keep f g lo bound top off (e ∷ es) same h (s, c) = (
  record {
    above = s.above;
    positive = s.positive;
    below = s.below;
    bytes = same (entry_size (length e.key)) off s.above (omega arith) ∙ s.bytes;
    fits = s.fits;
  },
  Chained-keep f g lo off top e.next es same (omega arith) c,
)

-- The index, with the entries of each chain.
pub record IsValid (hi : HashIndex) (chains : ℕ → List Entry) : Type 0 where
  pub slots : 0 < hi.bucket_count
  pub table : hi.bucket_base + hi.bucket_count * 8 ≤ hi.data_base
  pub data_positive : 0 < hi.data_base
  pub data_start : hi.data_base ≤ hi.write_pos
  pub data_end : hi.write_pos ≤ length hi.file
  pub heads : length hi.buckets ≡ hi.bucket_count
  pub chained :
      (s : ℕ)
      → s < hi.bucket_count
      → Chained hi.file hi.data_base hi.write_pos (get_or hi.buckets s 0) (chains s)

pub hash_slot-lt :
    (hi : HashIndex) (k : Bytes) → 0 < hi.bucket_count → hash_slot hi k < hi.bucket_count
unfolding hash_slot
hash_slot-lt hi k h = omega arith

-- Get ends, and gives what the newest entry of the key in its chain says.
pub get-newest :
    (hi : HashIndex) (chains : ℕ → List Entry) (k : Bytes)
    → IsValid hi chains
    → get hi k ≡ some (newest k (chains (hash_slot hi k)))
unfolding get
get-newest hi chains k v =
    get_chain-newest hi.file hi.data_base k (suc hi.write_pos) hi.write_pos (head_of hi k)
      (chains (hash_slot hi k)) (v.chained (hash_slot hi k) (hash_slot-lt hi k v.slots))
      (omega arith)

abbrev pub push : ℕ → Entry → (ℕ → List Entry) → ℕ → List Entry
push slot e chains s = if s == slot then e ∷ chains s else chains s
