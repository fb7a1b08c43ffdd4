-- ===== src/Wal/Tests.antt =====
-- Runs of the log.
use brisedb.Prelude.{
  ◌≡◌, ◌≢◌, ◌++◌, refl, true, false, List, [], ◌∷◌, length, replicate, arith, if◌then◌else◌, not,
  ◌&&◌,
}
use brisedb.Types.{io, ok, err, panic}
use brisedb.Wal.{
  always, never, sets, deletes, WalEntry, Msg, line, swap, barrier, unset, error, Wal, Flusher,
  write_wal, flush_and_signal, entries_of, run,
}
use brisedb.Wal.Order.{good, run-lines}
use brisedb.Wal.Durable.{waiters, reaches_disk, flush_and_signal-durable}
use brisedb.Wal.Sticky.{write_wal_panics}

abbrev entry_a : WalEntry
entry_a = record {
  type = sets;
  key = b'a' ∷ [];
  value = [];
  volume_id = 1;
  offset = 0;
  size = 2;
  expires_at = 0;
}

abbrev entry_b : WalEntry
entry_b = record {
  type = deletes;
  key = b'b' ∷ [];
  value = [];
  volume_id = 0;
  offset = 0;
  size = 0;
  expires_at = 0;
}

abbrev failed_wal : Wal
failed_wal = record { mode = never; queue = []; slot = error io }

abbrev idle : Flusher
idle = record {
  mode = always;
  lines = [];
  synced = 0;
  pending = false;
  answers = [];
  slot = unset;
  broken = false;
}

abbrev batch : List Msg
batch = line entry_a true ∷ barrier ∷ line entry_b false ∷ swap ∷ []

never_waits : never ≢ always
never_waits e = ground (arith, e)

write_wal_panics_example :
    let w₁ = write_wal (ok tt) entry_a failed_wal in
    let w₂ = write_wal (ok tt) entry_b w₁.0 in
    (w₁.1 ≡ err io) × (w₂.1 ≡ panic) × ((write_wal (ok tt) entry_a w₂.0).1 ≡ panic)
write_wal_panics_example =
    write_wal_panics failed_wal io entry_a entry_b entry_a (ok tt) never_waits refl

run-lines_example :
    let (f', r) = run 4 good batch idle in (f'.lines ≡ idle.lines ++ entries_of batch) × (r ≡ [])
run-lines_example = run-lines 4 batch idle refl (omega arith)

flush_and_signal-durable_example :
    let f' = flush_and_signal good batch idle in
    let reached = reaches_disk good idle in
    (f'.answers ≡ idle.answers ++ replicate (waiters batch) (if reached then ok tt else err io))
    × (f'.lines
        ≡ (if good.flushes && not idle.broken then idle.lines ++ entries_of batch else idle.lines))
    × (f'.synced ≡ (if reached then length (idle.lines ++ entries_of batch) else idle.synced))
    × (f'.slot ≡ (if reached then idle.slot else error io))
flush_and_signal-durable_example = flush_and_signal-durable good batch idle refl
