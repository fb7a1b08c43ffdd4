-- ===== src/HashIndex/Compact/Kept.antt =====
-- What Get reads from a compacted index.
use brisedb.Prelude.{
  ℕ, ◌+◌, ◌*◌, ◌<◌, ◌^◌, ◌≡◌, sym, ap, ◌∙◌, none, some, List, [], Bytes, length, arith, true,
}
use brisedb.Types.{NeedleAddr, ok}
use brisedb.File.{done, read_at}
use brisedb.HashIndex.{HashIndex, get, header_size}
use brisedb.HashIndex.Chain.{IsValid}
use brisedb.HashIndex.Compact.{
  CompactIo, compact, fill, new_buckets, moved, replaced, reloaded, streamed, rebuilt,
}
use brisedb.HashIndex.Compact.Filled.{AllStorable, total_size, latest, Filled, fill-Filled}
use brisedb.HashIndex.Format.{Entry}
use brisedb.HashIndex.Fresh.{
  fresh, no_entries, open_index-new, fresh-IsValid, fresh-Persisted, get-fresh,
}
use brisedb.HashIndex.Open.{close, for_each, load_buckets}
use brisedb.HashIndex.Reopened.{
  Persisted, reopened, reopened-IsValid, reopened-Persisted, load_buckets-read, close_after,
  length-close, get-reopened,
}

module _ (hi new : HashIndex) (l : List (Bytes × NeedleAddr × ℕ)) (n : ℕ)
    (f : Filled (fresh n) l new) where
  long : length (close new) ≡ length new.file
  long =
      length-close new
        (omega (arith, f.persisted.base, f.valid.table, f.valid.data_start, f.valid.data_end))

  counted : new.entry_count ≡ length l
  counted = f.count ∙ omega arith

  -- The compacted index is the one that was filled, opened again.
  load-moved : load_buckets (moved n (length l) hi new) ≡ ok (reopened new)
  load-moved =
      let v = f.valid in
      let q = f.persisted in
      let mk : ℕ → ℕ → ℕ → ℕ → HashIndex = λ b d w c. record {
        file = close new;
        bucket_count = b;
        bucket_base = header_size;
        data_base = d;
        write_pos = w;
        entry_count = c;
        buckets = new.buckets;
      } in
      load_buckets-read (moved n (length l) hi new) new.buckets (v.heads ∙ f.table)
        (λ s k.
          close_after new 8 (header_size + s * 8) (omega arith)
          ∙ ap (λ p. read_at 8 (p + s * 8) new.file) (sym q.base)
          ∙ q.slots s (omega (arith, k, f.table)))
        (λ s k. q.heads s (omega (arith, k, f.table)))
        (omega (arith, v.table, v.data_start, v.data_end, q.base, f.table, long))
      ∙ ap (λ z. ok (mk z (header_size + n * 8) (length (close new)) (length l))) (sym f.table)
      ∙ ap (λ z. ok (mk new.bucket_count z (length (close new)) (length l))) (sym f.base)
      ∙ ap (λ z. ok (mk new.bucket_count new.data_base z (length l))) long
      ∙ ap (λ z. ok (mk new.bucket_count new.data_base (length new.file) z)) (sym counted)

-- A Compact of an index whose live entries are known, with a temporary file that does not exist or
-- is empty, and whose writes, sync and rename succeed, reports success; the index that it leaves
-- is valid, with its table in the file, counts the live entries, and reads of each key the last
-- live entry that there was of it, and misses the others. The live entries fit their fields, the
-- new table is not empty, and the new file is below 2 ^ 63 bytes.
pub compact-live :
    (o : CompactIo) (now : ℕ) (hi : HashIndex) (l : List (Bytes × NeedleAddr × ℕ))
    → for_each now hi ≡ ok l
    → ((i : ℕ) → o.writes i ≡ (done, done))
    → o.synced ≡ true
    → o.renamed ≡ true
    → AllStorable l
    → 0 < new_buckets hi.entry_count
    → header_size + new_buckets hi.entry_count * 8 + total_size l < 2 ^ 63
    → (hi' : HashIndex) × (chains : ℕ → List Entry) × (compact o now [] hi ≡ (hi', ok tt))
      × IsValid hi' chains
      × Persisted hi'
      × (hi'.entry_count ≡ length l)
      × ((k : Bytes) → get hi' k ≡ some (latest k l none))
unfolding compact
compact-live o now hi l live w synced renamed fits some_buckets room =
    let n = new_buckets hi.entry_count in
    let run =
      fill-Filled o.writes 0 l (fresh n) no_entries w (fresh-IsValid n some_buckets)
        (fresh-Persisted n) fits room in
    let f = run.1 in
    let new = (fill o.writes 0 l (fresh n)).0 in
    let end : replaced o n (length l) hi (new, (fill o.writes 0 l (fresh n)).1)
        ≡ (reopened new, ok tt) =
      ap (λ r. replaced o n (length l) hi (new, r)) run.0
      ∙ rw (synced, renamed)
          (ap (reloaded (moved n (length l) hi new)) (load-moved hi new l n f)) in
    (
      reopened new,
      f.chains,
      ap (rebuilt o now n hi) (open_index-new n some_buckets)
          ∙ ap (streamed o n hi (fresh n)) live
          ∙ end,
      reopened-IsValid new f.chains f.valid f.persisted,
      reopened-Persisted new f.chains f.valid f.persisted,
      counted hi new l n f,
      λ k.
          get-reopened new f.chains k f.valid f.persisted
          ∙ f.reads k none (get-fresh n k some_buckets),
    )
