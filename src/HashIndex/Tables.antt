-- ===== src/HashIndex/Tables.antt =====
-- The table of the index in memory and its copy in the file, from a new index on and over its
-- writes, and over a Close and a new opening.
use brisedb.Prelude.{
  ℕ, ◌+◌, ◌*◌, ◌^◌, ◌≤◌, ◌<◌, ◌≡◌, ◌≢◌, sym, ap, ◌∙◌, inl, inr, List, Bytes, length, get_or, set,
  ◌==◌, ==_iff, nat_eq, Bool-cases, ltb, subst, arith, get_or-set_self, get_or-set_ne,
}
use brisedb.File.{
  wrote, done, read_at, write_at, read-write_before, read-write_after, read-write_self,
  length-write_at,
}
use brisedb.File.Codec.{put_le, length-put_le}
use brisedb.HashIndex.{HashIndex, hash_slot, head_of, append_entry, write_bucket_file}
use brisedb.HashIndex.Format.{Entry, encode_entry}
use brisedb.HashIndex.Chain.{hash_slot-lt, IsValid}
use brisedb.HashIndex.Reopened.{Persisted}

-- A pointer that is written to a slot of the table and of its copy.
pointer_kept :
    (base count new : ℕ) (buckets : List ℕ) (f : Bytes) (slot s : ℕ)
    → slot < count
    → length buckets ≡ count
    → s < count
    → read_at 8 (base + s * 8) f ≡ put_le 8 (get_or buckets s 0)
    → base + count * 8 ≤ length f
    → read_at 8 (base + s * 8) (write_at (base + slot * 8) (put_le 8 new) f)
      ≡ put_le 8 (get_or (set buckets slot new) s 0)
pointer_kept base count new buckets f slot s in_table l k h inside =
    let d = put_le 8 new in
    let p = base + slot * 8 in
    let eight = length-put_le 8 new in
    elim (Bool-cases (s == slot)) [
      | inl same ↦ rw ((==_iff s slot).0 same) (
          subst (λ n. read_at n p (write_at p d f) ≡ d) eight (read-write_self d f p)
          ∙ ap (put_le 8) (sym (get_or-set_self buckets slot new 0 (omega (arith, in_table, l)))))
      | inr other ↦
          let ne : slot ≢ s = λ e. ground (arith, ==_iff s slot, sym e, other) in
          let kept = h ∙ ap (put_le 8) (sym (get_or-set_ne buckets slot s new 0 ne)) in
          elim (Bool-cases (ltb s slot)) [
            | inl before ↦
                read-write_before 8 (base + s * 8) d f p (ground (arith, before)) (omega arith)
                ∙ kept
            | inr after ↦
                read-write_after 8 (base + s * 8) d f p (ground (arith, after, ne, eight)) ∙ kept
          ]
    ]

-- A Set or a Delete on a valid index whose two writes succeed leaves the table in the file as the
-- one in memory, if the end of the data is in 64 bits.
pub append_entry-Persisted :
    (hi : HashIndex) (chains : ℕ → List Entry) (e : Entry) (counted : ℕ → ℕ)
    → IsValid hi chains
    → Persisted hi
    → hi.write_pos < 256 ^ 8
    → Persisted (append_entry done done e counted hi).0
unfolding append_entry write_bucket_file wrote
append_entry-Persisted hi chains e counted v q small =
    let slot = hash_slot hi e.key in
    let bytes = encode_entry (record e { next = head_of hi e.key }) in
    let f = write_at hi.write_pos bytes hi.file in
    let lt = hash_slot-lt hi e.key v.slots in
    record {
      base = q.base;
      slots = λ s k.
          pointer_kept hi.bucket_base hi.bucket_count hi.write_pos hi.buckets f slot s lt v.heads k
            (read-write_before 8 (hi.bucket_base + s * 8) bytes hi.file hi.write_pos
                (omega (arith, v.table, v.data_start, k))
                (omega (arith, v.table, v.data_start, v.data_end, k))
              ∙ q.slots s k)
            (omega (
              arith,
              v.table,
              v.data_start,
              v.data_end,
              length-write_at hi.write_pos bytes hi.file,
            ));
      heads = λ s k. elim (Bool-cases (s == slot)) [
        | inl same ↦
            rw
              (
                (==_iff s slot).0 same,
                get_or-set_self hi.buckets slot hi.write_pos 0 (omega (arith, lt, v.heads)),
              )
              small
        | inr other ↦
            let ne : slot ≢ s = λ p. ground (arith, ==_iff s slot, sym p, other) in
            rw (get_or-set_ne hi.buckets slot s hi.write_pos 0 ne) (q.heads s k)
      ];
    }
