-- ===== src/Replay.antt =====
-- What pkg/brisedb/brise.go does with entries of the log and of replicas: replayWAL, applyEntry,
-- ApplyReplicationEntry and rebuildExpiry. The log is the list of its entries, and every line can be
-- decoded. That applyEntry also opens the volume of an entry shows in no later read, which opens it
-- where it is needed.
pub mod Index
pub mod Snapshot
pub mod Compacted
mod Tests
use brisedb.Prelude.{
  ℕ, ◌*◌, Bool, true, false, not, ◌&&◌, List, [], ◌∷◌, Bytes, if◌then◌else◌, ltb, ◌==◌, nat_eq,
  list_eq,
}
use brisedb.Prelude.Assoc.{Assoc, insert, delete}
use brisedb.Types.{NeedleAddr, Result, ok, err, panic}
use brisedb.Store.{Store}
use brisedb.Wal.{WalEntry, EntryType, sets, deletes, write_wal}
use brisedb.Session.{Db, Env, set_expiry}

abbrev pub addr_of : WalEntry → NeedleAddr
addr_of op = record { volume_id = op.volume_id; offset = op.offset; size = op.size }

-- `op.Type == "SET" && op.ExpiresAt > 0 && time.Unix(op.ExpiresAt, 0).Before(now)`: the first
-- argument of time.Unix counts seconds.
unfoldable pub skipped : ℕ → WalEntry → Bool
skipped now op = elim op.type [
  | deletes ↦ false
  | sets ↦ ltb 0 op.expires_at && ltb (op.expires_at * 1_000_000_000) now
]

module _ (st : Store) where
  abbrev pub apply_as : EntryType → Env st → WalEntry → Db st → Db st
  apply_as sets e op db = record db {
    state = (st.index_set (e.index op.key) op.key (addr_of op) op.expires_at db.state).0;
    expiry = set_expiry st op.key op.expires_at db.expiry;
  }
  apply_as deletes e op db = record db {
    state = (st.index_delete (e.index op.key) op.key db.state).0;
    expiry = delete op.key db.expiry;
  }

  -- applyEntry: the results of the index are dropped.
  unfoldable pub apply_entry : Env st → WalEntry → Db st → Db st
  apply_entry e op db = apply_as op.type e op db

  -- replayWAL
  unfoldable pub replay : Env st → ℕ → List WalEntry → Db st → Db st
  replay e now [] db = db
  replay e now (op ∷ ops) db = replay e now ops (if skipped now op then db else apply_entry e op db)

  abbrev logged : Env st → WalEntry → Db st → Db st × Result (Unit {0})
  logged e op db = let (w, r) = write_wal (e.flushed op.key) op db.wal in (record db { wal = w }, r)

  abbrev pub store_line :
      Env st → WalEntry → Db st → st.State × Result NeedleAddr → Db st × Result (Unit {0})
  store_line e op db (s, ok a) =
      let op' = record op { volume_id = a.volume_id; offset = a.offset; size = a.size } in
      logged e op' (apply_entry e op' (record db { state = s }))
  store_line e op db (s, err y) = (record db { state = s }, err y)
  store_line e op db (s, panic) = (record db { state = s }, panic)

  abbrev pub replicate_as : EntryType → Env st → WalEntry → Db st → Db st × Result (Unit {0})
  replicate_as deletes e op db = logged e op (apply_entry e op db)
  replicate_as sets e op db = store_line e op db (st.write (e.blob op.key) op.value db.state)

  -- ApplyReplicationEntry on an entry that could be decoded.
  unfoldable pub apply_replication_entry : Env st → WalEntry → Db st → Db st × Result (Unit {0})
  unfolding apply_entry
  apply_replication_entry e op db = replicate_as op.type e op db

-- rebuildExpiry, over the live entries of the index.
unfoldable pub rebuild_expiry : List (Bytes × NeedleAddr × ℕ) → Assoc Bytes ℕ → Assoc Bytes ℕ
rebuild_expiry [] m = m
rebuild_expiry ((k, a, x) ∷ es) m = rebuild_expiry es (if ltb 0 x then insert k x m else m)
