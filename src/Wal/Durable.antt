-- ===== src/Wal/Durable.antt =====
-- What the answers of the flusher say of the file.
use brisedb.Prelude.{
  ℕ, suc, ◌≡◌, refl, ap, Bool, true, false, not, ◌&&◌, List, [], ◌∷◌, ◌++◌, length, replicate,
  arith, if◌then◌else◌,
}
use brisedb.Types.{Result, ok, err, io}
use brisedb.Wal.{
  always, Msg, line, swap, barrier, Io, Flusher, error, entries_of, flush_and_signal, answers_of,
}

-- The callers that wait for a batch.
unfoldable pub waiters : List Msg → ℕ
waiters [] = 0
waiters (line e true ∷ b) = suc (waiters b)
waiters (line e false ∷ b) = waiters b
waiters (swap ∷ b) = waiters b
waiters (barrier ∷ b) = waiters b

answers_of-replicate :
    (r : Result (Unit {0})) (b : List Msg) → answers_of r b ≡ replicate (waiters b) r
unfolding answers_of replicate waiters
answers_of-replicate r [] = refl
answers_of-replicate r (line e true ∷ b) = ap (◌∷◌ r) (answers_of-replicate r b)
answers_of-replicate r (line e false ∷ b) = answers_of-replicate r b
answers_of-replicate r (swap ∷ b) = answers_of-replicate r b
answers_of-replicate r (barrier ∷ b) = answers_of-replicate r b

-- Whether the system takes the batch of a writer that met no error before.
abbrev pub reaches_disk : Io → Flusher → Bool
reaches_disk i f = i.flushes && i.syncs && not f.broken

-- In the mode that always syncs, every caller that waits for a batch is answered with success where
-- the batch is flushed and synced, and all lines of the file, those of the batch last, are then
-- durable; where not, every one of them is answered with the error, which is also kept for the
-- callers that do not wait, and nothing more counts as durable.
pub flush_and_signal-durable :
    (i : Io) (b : List Msg) (f : Flusher)
    → f.mode ≡ always
    → let f' = flush_and_signal i b f in
      let good = reaches_disk i f in
      (f'.answers ≡ f.answers ++ replicate (waiters b) (if good then ok tt else err io))
      × (f'.lines ≡ (if i.flushes && not f.broken then f.lines ++ entries_of b else f.lines))
      × (f'.synced ≡ (if good then length (f.lines ++ entries_of b) else f.synced))
      × (f'.slot ≡ (if good then f.slot else error io))
unfolding flush_and_signal
flush_and_signal-durable i b f m =
    ground (arith, answers_of-replicate (ok tt) b, answers_of-replicate (err io) b)
