-- ===== src/Session/Commit/Tests.antt =====
-- Runs of commits on a small index and volume.
use brisedb.Prelude.{
  ℕ, ◌≡◌, refl, none, some, true, false, List, [], ◌∷◌, Bytes, if◌then◌else◌, nat_eq, list_eq,
  arith, subst,
}
use brisedb.Types.{ok}
use brisedb.File.{done}
use brisedb.Volume.{Volume}
use brisedb.Volume as Vol
use brisedb.HashIndex as Index
use brisedb.HashIndex.{HashIndex}
use brisedb.Store.Disk.{disk, disk_laws, volume_write-IsSynced}
use brisedb.Wal.{write_wal}
use brisedb.Tx.{Transaction, empty}
use brisedb.Session.{Session, get, log_and_send}
use brisedb.Prelude.Assoc.{lookup, mem}
use brisedb.Tx.{merge, pop_transaction}
use brisedb.Tx.Merge.{IsConsistent}
use brisedb.Session.{get_now, expired}
use brisedb.Session.Commit.{
  Pending, buffered_expiry, write_blobs, install_sets, remove_keys, log_sets, log_deletes, publish,
  commit_transaction,
}
use brisedb.Session.Commit.Steps.{SetsRoom, DeletesRoom, BlobsRoom}
use brisedb.Session.Commit.Nested.{commit_nested}
use brisedb.Session.Commit.Published.{CommitRoom, commit_publishes}
use brisedb.Session.Tests.{
  key_a, db, works, volume, value_seven, plain-Valid, seven_space, written, entry-Room,
  index-IsValid, tombstone-Room,
}

abbrev buffered : Transaction
buffered = record { store = (key_a, value_seven) ∷ []; deleted = []; expiry = (key_a, none) ∷ [] }

abbrev open_one : Session disk
open_one = record { db = db; stack = record { top = buffered ∷ []; size = 1 } }

abbrev open_two : Session disk
open_two = record { db = db; stack = record { top = buffered ∷ empty ∷ []; size = 2 } }

buffered-IsConsistent : IsConsistent buffered
unfolding mem lookup
buffered-IsConsistent = record {
  unique = (refl, tt);
  exclusive = λ k h. absurd (ground (arith, h));
}

commit_nested_example :
    let (s', r) = commit_transaction disk works open_two in
    (r ≡ ok tt)
    × (s'.stack.top ≡ merge buffered empty ∷ [])
    × (s'.stack.size ≡ 1)
    × (s'.db ≡ db)
    × ((j : Bytes) (now : ℕ) → get disk j now s' ≡ get disk j now open_two)
commit_nested_example =
    commit_nested disk works open_two buffered empty [] refl buffered-IsConsistent

abbrev seven_pending : Pending
seven_pending = record {
  key = key_a;
  value = value_seven;
  addr = record { volume_id = 1; offset = 0; size = 1 };
  expires_at = 0;
}

pending_of :
    (ps : List Pending)
    → (write_blobs disk works buffered.expiry buffered.store db.state).1 ≡ ok ps
    → seven_pending ∷ [] ≡ ps
unfolding write_blobs buffered_expiry lookup Vol.write Vol.finish
pending_of ps h = ground (arith, h)

seven_room :
    SetsRoom disk disk_laws works
      (seven_pending ∷ [])
      (write_blobs disk works buffered.expiry buffered.store db.state).0
unfolding SetsRoom write_blobs disk_laws Vol.write
seven_room = (
  (
    ((λ s. [], index-IsValid)),
    volume_write-IsSynced (done, done) value_seven volume
        (record { volume_id = 1; offset = 0; size = 1 })
        (record { synced = refl; fits = omega arith }) (omega arith) written,
  ),
  (
    entry-Room (record { volume_id = 1; offset = 0; size = 1 }) 0 (omega arith) (omega arith)
        (omega arith) (omega arith),
    tombstone-Room,
  ),
  tt,
)

commit_room : CommitRoom disk disk_laws works buffered db
unfolding BlobsRoom DeletesRoom
commit_room = record {
  blobs = (plain-Valid, seven_space, tt);
  sets = λ ps h.
      (let e = pending_of ps h in
        subst
          (λ qs.
            SetsRoom disk disk_laws works qs
              (write_blobs disk works buffered.expiry buffered.store db.state).0)
          e seven_room);
  deletes = λ ps h. tt;
}

commit_succeeds : (commit_transaction disk works open_one).1 ≡ ok tt
unfolding commit_transaction publish write_blobs install_sets remove_keys log_sets log_deletes
    log_and_send write_wal Vol.write Index.set_key Index.append_entry Index.write_bucket_file
    pop_transaction
commit_succeeds = refl

commit_publishes_example :
    let s' = (commit_transaction disk works open_one).0 in
    (s'.stack.top ≡ [])
    × ((j v : Bytes) (now : ℕ)
        → lookup j buffered.store ≡ some v
        → get disk j now s'
          ≡ (if expired now (buffered_expiry j buffered.expiry) then none else some v))
    × ((j : Bytes) (now : ℕ) → mem j buffered.deleted ≡ true → get disk j now s' ≡ none)
    × ((j w : Bytes) (now : ℕ)
        → lookup j buffered.store ≡ none
        → mem j buffered.deleted ≡ false
        → get_now disk j now db ≡ some w
        → get disk j now s' ≡ some w)
commit_publishes_example =
    commit_publishes disk disk_laws works open_one buffered refl buffered-IsConsistent commit_room
      commit_succeeds
