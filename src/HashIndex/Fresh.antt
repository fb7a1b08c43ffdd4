-- ===== src/HashIndex/Fresh.antt =====
-- The index that is opened on a new file: valid, with no entry and its table in the file.
use brisedb.Prelude.{
  ℕ, zero, suc, ◌+◌, ◌-◌, ◌*◌, ◌≤◌, ◌<◌, ◌≡◌, refl, sym, ap, ◌∙◌, subst, none, some, List, [], ◌∷◌,
  Bytes, length, take, drop, get_or, replicate, length-replicate, ◌==◌, ==_refl, nat_eq, arith,
  take-take, take-drop, drop-add, false,
}
use brisedb.Types.{ok}
use brisedb.File.{read_at, write_at, read-write_self, length-write_at, length-read_at_of_le}
use brisedb.File.Codec.{put_le, get_le}
use brisedb.HashIndex.{HashIndex, get}
use brisedb.HashIndex.Format.{Entry}
use brisedb.HashIndex.Chain.{newest, IsValid, get-newest}
use brisedb.HashIndex.Open.{encode_header, load_buckets, init_file, open_index, table_slots, blank}
use brisedb.HashIndex.Open.Header.{length-header}
use brisedb.HashIndex.Reopened.{Persisted}

abbrev new_file : ℕ → Bytes
new_file n = (init_file (blank [] n)).file

-- The index of n buckets with no entry.
abbrev pub fresh : ℕ → HashIndex
fresh n = record (blank [] n) { file = new_file n; buckets = replicate n 0 }

abbrev pub no_entries : ℕ → List Entry
no_entries s = []

take-zeros : (m n : ℕ) → m ≤ n → take m (replicate {A = ℕ} n 0) ≡ replicate m 0
unfolding take replicate
take-zeros zero n h = refl
take-zeros (suc m) zero h = absurd (omega arith)
take-zeros (suc m) (suc n) h = ap (λ l. 0 ∷ l) (take-zeros m n (omega arith))

drop-zeros : (m n k : ℕ) → n ≡ m + k → drop m (replicate {A = ℕ} n 0) ≡ replicate k 0
unfolding drop replicate
drop-zeros zero n k h = ap (λ l. replicate l 0) (h ∙ omega arith)
drop-zeros (suc m) zero k h = absurd (omega arith)
drop-zeros (suc m) (suc n) k h = drop-zeros m n k (omega arith)

pub get_or-zeros : (n s : ℕ) → get_or (replicate {A = ℕ} n 0) s 0 ≡ 0
unfolding get_or replicate
get_or-zeros zero s = refl
get_or-zeros (suc n) zero = refl
get_or-zeros (suc n) (suc s) = get_or-zeros n s

table_slots-zeros : (n : ℕ) → table_slots n (replicate (n * 8) 0) ≡ replicate n 0
unfolding table_slots replicate take drop get_le
table_slots-zeros zero = refl
table_slots-zeros (suc n) =
    let first : take 8 (replicate {A = ℕ} (suc n * 8) 0) ≡ replicate 8 0 =
      take-zeros 8 (suc n * 8) (omega arith) in
    let rest : drop 8 (replicate {A = ℕ} (suc n * 8) 0) ≡ replicate (n * 8) 0 =
      drop-zeros 8 (suc n * 8) (n * 8) (omega arith) in
    rw (first, rest) (ap (λ l. 0 ∷ l) (table_slots-zeros n))

length-new_file : (n : ℕ) → length (new_file n) ≡ 64 + n * 8
unfolding init_file
length-new_file n =
    let h = encode_header (blank [] n) in
    let z = replicate {A = ℕ} (n * 8) 0 in
    omega (
      arith,
      length-write_at 64 z (write_at 0 h []),
      length-write_at 0 h [],
      length-header (blank [] n),
      length-replicate {A = ℕ} (n * 8) 0,
    )

read-new_file : (n : ℕ) → read_at (n * 8) 64 (new_file n) ≡ replicate (n * 8) 0
unfolding init_file
read-new_file n =
    let h = encode_header (blank [] n) in
    let z = replicate {A = ℕ} (n * 8) 0 in
    let f = write_at 64 z (write_at 0 h []) in
    subst (λ m. read_at m 64 f ≡ z) (length-replicate {A = ℕ} (n * 8) 0)
      (read-write_self z (write_at 0 h []) 64)

-- A slot within what is read.
read-within :
    (n p q m : ℕ) (f : Bytes) → q + m ≤ n → read_at m (p + q) f ≡ take m (drop q (read_at n p f))
unfolding read_at
read-within n p q m f h =
    ap (take m) (drop-add p q f)
    ∙ take-drop q m (drop p f)
    ∙ ap (drop q) (sym (take-take (q + m) n (drop p f) h))
    ∙ sym (take-drop q m (take n (drop p f)))

fresh_slot : (n s : ℕ) → s < n → read_at 8 (64 + s * 8) (new_file n) ≡ replicate 8 0
fresh_slot n s h =
    let rest = n * 8 - s * 8 in
    let e : n * 8 ≡ s * 8 + rest = omega arith in
    read-within (n * 8) 64 (s * 8) 8 (new_file n) (omega arith)
    ∙ ap (λ b. take 8 (drop (s * 8) b)) (read-new_file n ∙ ap (λ m. replicate m 0) e)
    ∙ ap (take 8) (drop-zeros (s * 8) (s * 8 + rest) rest refl)
    ∙ take-zeros 8 rest (omega arith)

pub open_index-new : (n : ℕ) → 0 < n → open_index [] n ≡ ok (fresh n)
unfolding open_index load_buckets init_file
open_index-new n h =
    let given : (n == 0) ≡ false = ground arith in
    let size = length-read_at_of_le (n * 8) 64 (new_file n) (omega (arith, length-new_file n)) in
    rw (given, size, ==_refl (n * 8)) (rw (read-new_file n, table_slots-zeros n) refl)

pub fresh-IsValid : (n : ℕ) → 0 < n → IsValid (fresh n) no_entries
fresh-IsValid n h = record {
  slots = h;
  table = omega arith;
  data_positive = omega arith;
  data_start = omega arith;
  data_end = omega (arith, length-new_file n);
  heads = length-replicate n 0;
  chained = λ s k. get_or-zeros n s;
}

pub fresh-Persisted : (n : ℕ) → Persisted (fresh n)
unfolding put_le replicate
fresh-Persisted n = record {
  base = refl;
  slots = λ s k. fresh_slot n s k ∙ rw (get_or-zeros n s) refl;
  heads = λ s k. rw (get_or-zeros n s) (omega arith);
}

pub get-fresh : (n : ℕ) (k : Bytes) → 0 < n → get (fresh n) k ≡ some none
unfolding newest
get-fresh n k h = get-newest (fresh n) no_entries k (fresh-IsValid n h)
