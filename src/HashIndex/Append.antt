-- ===== src/HashIndex/Append.antt =====
-- What an appended entry makes of the chains.
use brisedb.Prelude.{
  ℕ, ◌+◌, ◌*◌, ◌≤◌, ◌<◌, ◌^◌, ◌≡◌, ◌≢◌, refl, sym, ap, ◌∙◌, inl, inr, none, some, List, [], ◌∷◌,
  Bytes, length, take, get_or, set, length-set, get_or-set_self, get_or-set_ne,
  length-take-le_length, if◌then◌else◌, ◌==◌, ==_iff, nat_eq, list_eq, Bool-cases, arith,
}
use brisedb.File.{
  Outcome, done, fails, wrote, read_at, write_at, read-write_before, read-write_after,
  read-write_self, length-write_at,
}
use brisedb.File.Codec.{put_le, length-put_le}
use brisedb.HashIndex.Format.{Entry, Fits, entry_size, encode_entry, length-encode_entry}
use brisedb.HashIndex.Chain.{
  Stands, Chained, Chained-keep, newest, IsValid, hash_slot-lt, get-newest, push,
}
use brisedb.HashIndex.{HashIndex, hash_slot, head_of, get, append_entry}

-- What the fields of a new entry must hold, and room in the file for it.
pub record Room (hi : HashIndex) (e : Entry) : Type 0 where
  pub key : length e.key < 65536
  pub volume_id : e.addr.volume_id < 256 ^ 4
  pub offset : e.addr.offset < 256 ^ 8
  pub size : e.addr.size < 256 ^ 8
  pub expires_at : e.expires_at < 256 ^ 8
  pub room : hi.write_pos + entry_size (length e.key) < 2 ^ 63

length-wrote-le : (o : Outcome) (d : Bytes) → length (wrote o d) ≤ length d
unfolding wrote
length-wrote-le done d = omega arith
length-wrote-le (fails n) d = length-take-le_length n d

pub Chained-mono :
    (f : Bytes) (lo bound bound' off : ℕ) (es : List Entry)
    → bound ≤ bound'
    → Chained f lo bound off es
    → Chained f lo bound' off es
Chained-mono f lo b b' off [] h c = c
Chained-mono f lo b b' off (e ∷ es) h (s, c) = (
  record {
    above = s.above;
    positive = s.positive;
    below = omega arith;
    bytes = s.bytes;
    fits = s.fits;
  },
  c,
)

head_below :
    (f : Bytes) (lo bound off : ℕ) (es : List Entry) → Chained f lo bound off es → off ≤ bound
head_below f lo bound off [] c = omega arith
head_below f lo bound off (e ∷ es) (s, c) = omega arith

module _ (hi : HashIndex) (chains : ℕ → List Entry) (v : IsValid hi chains) (e : Entry)
    (m : Room hi e) (o : Outcome) (counted : ℕ → ℕ) where
  abbrev pub slot : ℕ
  slot = hash_slot hi e.key

  abbrev pub placed : Entry
  placed = record e { next = head_of hi e.key }

  abbrev pub after : HashIndex
  after = (append_entry done o e counted hi).0

  slot-lt : slot < hi.bucket_count
  slot-lt = hash_slot-lt hi e.key v.slots

  placed-Fits : Fits placed
  placed-Fits = record {
    next = omega (
      arith,
      head_below hi.file hi.data_base hi.write_pos (head_of hi e.key) (chains slot)
          (v.chained slot slot-lt),
    );
    key = m.key;
    volume_id = m.volume_id;
    offset = m.offset;
    size = m.size;
    expires_at = m.expires_at;
  }

  -- The two writes, one behind the data and one into the table.
  abbrev appended : Bytes
  appended = write_at hi.write_pos (encode_entry placed) hi.file

  abbrev pointer : Bytes
  pointer = wrote o (put_le 8 hi.write_pos)

  behind_table :
      (n p : ℕ)
      → hi.data_base ≤ p
      → read_at n p (write_at (hi.bucket_base + slot * 8) pointer appended) ≡ read_at n p appended
  behind_table n p h = read-write_after n p pointer appended (hi.bucket_base + slot * 8) (
      omega (
        arith,
        slot-lt,
        v.table,
        length-wrote-le o (put_le 8 hi.write_pos),
        length-put_le 8 hi.write_pos,
      ))

  data_kept :
      (n p : ℕ)
      → hi.data_base ≤ p
      → p + n ≤ hi.write_pos
      → read_at n p (write_at (hi.bucket_base + slot * 8) pointer appended) ≡ read_at n p hi.file
  data_kept n p h below =
      behind_table n p h
      ∙ read-write_before n p (encode_entry placed) hi.file hi.write_pos below
          (omega (arith, v.data_end))

  placed-Stands :
      Stands
        (write_at (hi.bucket_base + slot * 8) pointer appended)
        hi.data_base
        (hi.write_pos + length (encode_entry placed))
        hi.write_pos
        placed
  placed-Stands = record {
    above = v.data_start;
    positive = omega (arith, v.data_start, v.data_positive);
    below = omega (arith, length-encode_entry placed);
    bytes =
        behind_table (entry_size (length e.key)) hi.write_pos v.data_start
        ∙ rw (← length-encode_entry placed)
            (read-write_self (encode_entry placed) hi.file hi.write_pos);
    fits = placed-Fits;
  }

  Chained-after :
      (s : ℕ)
      → s < hi.bucket_count
      → Chained
          (write_at (hi.bucket_base + slot * 8) pointer appended)
          hi.data_base
          (hi.write_pos + length (encode_entry placed))
          (get_or (set hi.buckets slot hi.write_pos) s 0)
          (push slot placed chains s)
  Chained-after s below =
      let g = write_at (hi.bucket_base + slot * 8) pointer appended in
      elim (Bool-cases (s == slot)) [
        | inl same ↦
            let p : s ≡ slot = (==_iff s slot).0 same in
            rw same (
              rw
                (
                  p,
                  get_or-set_self hi.buckets slot hi.write_pos 0 (omega (arith, slot-lt, v.heads)),
                )
                (
                  placed-Stands,
                  Chained-keep hi.file g hi.data_base hi.write_pos hi.write_pos (head_of hi e.key)
                      (chains slot) data_kept (omega arith) (v.chained slot slot-lt),
                ))
        | inr other ↦
            let ne : slot ≢ s = λ p. ground (arith, ==_iff s slot, sym p) in
            rw (other, get_or-set_ne hi.buckets slot s hi.write_pos 0 ne)
              (Chained-mono g hi.data_base hi.write_pos _ (get_or hi.buckets s 0) (chains s)
                (omega arith)
                (Chained-keep hi.file g hi.data_base hi.write_pos hi.write_pos
                  (get_or hi.buckets s 0) (chains s) data_kept (omega arith) (v.chained s below)))
      ]

  pub append_entry-IsValid : IsValid after (push slot placed chains)
  unfolding append_entry
  append_entry-IsValid = record {
    slots = v.slots;
    table = v.table;
    data_positive = v.data_positive;
    data_start = omega (arith, v.data_start);
    data_end = omega (
      arith,
      v.data_end,
      length-write_at (hi.bucket_base + slot * 8) pointer appended,
      length-write_at hi.write_pos (encode_entry placed) hi.file,
    );
    heads = length-set hi.buckets slot hi.write_pos ∙ v.heads;
    chained = Chained-after;
  }

-- A write of the entry that fails leaves the index valid, with the chains that it had: what it
-- left in the file lies behind `write_pos`.
pub append_entry-IsValid_failed :
    (hi : HashIndex) (chains : ℕ → List Entry) (e : Entry) (n : ℕ) (o : Outcome) (counted : ℕ → ℕ)
    → IsValid hi chains
    → IsValid (append_entry (fails n) o e counted hi).0 chains
unfolding append_entry
append_entry-IsValid_failed hi chains e n o counted v =
    let d = take n (encode_entry (record e { next = head_of hi e.key })) in
    let g = write_at hi.write_pos d hi.file in
    record {
      slots = v.slots;
      table = v.table;
      data_positive = v.data_positive;
      data_start = v.data_start;
      data_end = omega (arith, v.data_end, length-write_at hi.write_pos d hi.file);
      heads = v.heads;
      chained = λ s below.
          Chained-keep hi.file g hi.data_base hi.write_pos hi.write_pos (get_or hi.buckets s 0)
            (chains s)
            (λ k p lo h. read-write_before k p d hi.file hi.write_pos h (omega (arith, v.data_end)))
            (omega arith) (v.chained s below);
    }

-- What a chain says of a key behind a new entry.
newest-push :
    (k j : Bytes) (slot s : ℕ) (e : Entry) (chains : ℕ → List Entry)
    → e.key ≡ k
    → (j ≡ k → s ≡ slot)
    → newest j (push slot e chains s) ≡ (
        if k == j
        then (if e.deleted then none else some (e.addr, e.expires_at))
        else newest j (chains s))
unfolding newest
newest-push k j slot s e chains p same = ground (arith, ==_iff s slot, ==_iff k j, ==_iff e.key j)

-- After a write of an entry that the system took, whether or not the copy of the bucket reached
-- the file, Get gives that entry for its key and what it gave before for every other one.
pub get-append_entry :
    (hi : HashIndex) (chains : ℕ → List Entry) (e : Entry) (o : Outcome) (counted : ℕ → ℕ)
    (j : Bytes)
    → IsValid hi chains
    → Room hi e
    → get (append_entry done o e counted hi).0 j ≡ (
        if e.key == j
        then some (if e.deleted then none else some (e.addr, e.expires_at))
        else get hi j)
unfolding append_entry hash_slot
get-append_entry hi chains e o counted j v m =
    get-newest (after hi chains v e m o counted) _ j
      (append_entry-IsValid hi chains v e m o counted)
    ∙ ap some (
        newest-push e.key j (hash_slot hi e.key) (hash_slot hi j)
          (record e { next = head_of hi e.key }) chains refl (λ p. ap (hash_slot hi) p))
    ∙ ground (arith, get-newest hi chains j v)

pub get-append_entry_failed :
    (hi : HashIndex) (chains : ℕ → List Entry) (e : Entry) (n : ℕ) (o : Outcome) (counted : ℕ → ℕ)
    (j : Bytes)
    → IsValid hi chains
    → get (append_entry (fails n) o e counted hi).0 j ≡ get hi j
unfolding append_entry hash_slot
get-append_entry_failed hi chains e n o counted j v =
    get-newest (append_entry (fails n) o e counted hi).0 chains j
      (append_entry-IsValid_failed hi chains e n o counted v)
    ∙ sym (get-newest hi chains j v)
