-- ===== src/Wal/Sticky.antt =====
-- The sticky error of the writers that do not wait.
use brisedb.Prelude.{◌≡◌, ◌≢◌, arith}
use brisedb.Types.{Error, Result, err, panic}
use brisedb.Wal.{always, WalEntry, Wal, error, write_wal}

-- In the modes that do not wait, once a flush error has been reported to a caller, the next write
-- panics, and so does the one behind it.
pub write_wal_panics :
    (w : Wal) (x : Error) (e e' e'' : WalEntry) (a : Result (Unit {0}))
    → w.mode ≢ always
    → w.slot ≡ error x
    → let w₁ = write_wal a e w in
      let w₂ = write_wal a e' w₁.0 in
      (w₁.1 ≡ err x) × (w₂.1 ≡ panic) × ((write_wal a e'' w₂.0).1 ≡ panic)
unfolding write_wal
write_wal_panics w x e e' e'' a m h = ground arith
