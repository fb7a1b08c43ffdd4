-- ===== src/Replay/Snapshot.antt =====
-- A replica that starts: Snapshot of brise.go, sent by handleReplicate of pkg/server/server.go and
-- received by DialReplica of pkg/client/client.go, whose callback is ApplyReplicationEntry.
pub mod Received
use brisedb.Prelude.{ℕ, List, [], ◌∷◌, Bytes}
use brisedb.Types.{NeedleAddr, Result, ok, err, panic}
use brisedb.Store.{Store}
use brisedb.Wal.{WalEntry, sets}
use brisedb.Session.{Db, Env}
use brisedb.Replay.{apply_replication_entry}

-- What stands for a key in the snapshot.
abbrev pub snapshot_line : Bytes → Bytes → ℕ → WalEntry
snapshot_line k v x = record {
  type = sets;
  key = k;
  value = v;
  volume_id = 0;
  offset = 0;
  size = 0;
  expires_at = x;
}

-- `json` is what encoding/json makes of a value: it keeps valid UTF-8, and replaces other bytes.
-- Keys are valid UTF-8 here.
module _ (st : Store) (json : Bytes → Bytes) where
  abbrev pub with_line : Bytes → ℕ → Result Bytes → List WalEntry → List WalEntry
  with_line k x (ok v) rest = snapshot_line k (json v) x ∷ rest
  with_line k x (err y) rest = rest
  with_line k x panic rest = rest

  -- The values that can be read; a key whose value cannot be is left out.
  unfoldable pub read_lines : st.State → List (Bytes × NeedleAddr × ℕ) → List WalEntry
  read_lines s [] = []
  read_lines s ((k, a, x) ∷ l) = with_line k x (st.read a s) (read_lines s l)

  -- Snapshot
  unfoldable pub snapshot : ℕ → st.State → List WalEntry
  snapshot now s = read_lines s (st.live now s)

module _ (st : Store) where
  abbrev pub then_receive :
      Db st × Result (Unit {0}) → Db st × Result (Unit {0}) → Db st × Result (Unit {0})
  then_receive (db, ok u) rest = rest
  then_receive (db, err y) rest = (db, err y)
  then_receive (db, panic) rest = (db, panic)

  -- The loop of DialReplica up to the end of the snapshot: the first error ends it.
  unfoldable pub receive : Env st → List WalEntry → Db st → Db st × Result (Unit {0})
  receive e [] db = (db, ok tt)
  receive e (m ∷ ms) db =
      let r = apply_replication_entry st e m db in
      let rest = receive e ms r.0 in then_receive r rest
