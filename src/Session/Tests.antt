-- ===== src/Session/Tests.antt =====
-- Runs of a session on a small index and volume.
use brisedb.Prelude.{
  ℕ, zero, suc, ◌<◌, ◌≡◌, ◌≢◌, refl, none, some, [], ◌∷◌, Bytes, replicate, ltb, if◌then◌else◌,
  ◌==◌, nat_eq, list_eq, arith, get_or,
}
use brisedb.Types.{NeedleAddr, no_addr, ok}
use brisedb.File.{done}
use brisedb.Volume.{Volume}
use brisedb.Volume as Vol
use brisedb.HashIndex as Index
use brisedb.HashIndex.{HashIndex}
use brisedb.HashIndex.Chain.{IsValid}
use brisedb.HashIndex.Append.{Room}
use brisedb.HashIndex.Writes.{set_entry, tombstone}
use brisedb.Store.Disk.{disk, disk_laws}
use brisedb.Wal.{write_wal, never, unset}
use brisedb.Tx.{empty}
use brisedb.Session.{
  Db, Env, Session, get, set, set_now, set_ex, delete_key, delete_now, log_and_send,
  begin_transaction, rollback_transaction,
}
use brisedb.Session.Installs.{Roomy}
use brisedb.Session.Reads.{get-set, get-set_ex, delete_key_hides}
use brisedb.Session.Buffered.{sets, deletes, run_calls, rollback_restores}

abbrev pub key_a : Bytes
key_a = b'a' ∷ []

abbrev pub index : HashIndex
index = record {
  file = replicate 80 0;
  bucket_count = 2;
  bucket_base = 64;
  data_base = 80;
  write_pos = 80;
  entry_count = 0;
  buckets = 0 ∷ 0 ∷ [];
}

abbrev pub volume : Volume
volume = record { id = 1; file = []; end = 0 }

abbrev pub db : Db disk
db = record {
  state = (index, volume);
  expiry = [];
  wal = record { mode = never; queue = []; slot = unset };
  sent = [];
}

abbrev pub works : Env disk
works = record { blob = λ k. (done, done); index = λ k. (done, done); flushed = λ k. ok tt }

abbrev pub plain : Session disk
plain = record { db = db; stack = record { top = []; size = 0 } }

abbrev inside : Session disk
inside = record { db = db; stack = record { top = empty ∷ []; size = 1 } }

empty_chains : (s : ℕ) → s < 2 → get_or index.buckets s 0 ≡ 0
unfolding get_or
empty_chains zero h = refl
empty_chains (suc zero) h = refl
empty_chains (suc (suc s)) h = absurd (omega arith)

pub index-IsValid : IsValid index (λ s. [])
unfolding replicate
index-IsValid = record {
  slots = omega arith;
  table = omega arith;
  data_positive = omega arith;
  data_start = omega arith;
  data_end = omega arith;
  heads = refl;
  chained = empty_chains;
}

pub entry-Room :
    (a : NeedleAddr) (x : ℕ)
    → a.volume_id < 256
    → a.offset < 256
    → a.size < 256
    → x < 256
    → Room index (set_entry key_a a x)
entry-Room a x v o s h = record {
  key = omega arith;
  volume_id = omega arith;
  offset = omega arith;
  size = omega arith;
  expires_at = omega arith;
  room = omega arith;
}

pub tombstone-Room : Room index (tombstone key_a)
tombstone-Room = record {
  key = omega arith;
  volume_id = omega arith;
  offset = omega arith;
  size = omega arith;
  expires_at = omega arith;
  room = omega arith;
}

abbrev pub value_seven : Bytes
value_seven = 7 ∷ []

addr_of :
    (a : NeedleAddr)
    → (disk.write (done, done) value_seven db.state).1 ≡ ok a
    → a ≡ record { volume_id = 1; offset = 0; size = 1 }
unfolding Vol.write Vol.finish
addr_of a h = ground (arith, h)

pub roomy : (x : ℕ) → x < 256 → Roomy disk disk_laws works key_a value_seven x db
unfolding disk_laws
roomy x h = record {
  valid = ((λ s. [], index-IsValid), record { synced = refl; fits = omega arith });
  space = omega arith;
  fits = λ a w. (
    let e = addr_of a w in
        rw e (
          entry-Room (record { volume_id = 1; offset = 0; size = 1 }) x (omega arith) (omega arith)
            (omega arith) h),
    tombstone-Room,
  );
}

set_succeeds : (set disk works key_a value_seven plain).1 ≡ ok tt
unfolding set set_now log_and_send write_wal Vol.write Index.set_key Index.append_entry
    Index.write_bucket_file
set_succeeds = refl

set_ex_succeeds : (set_ex disk works key_a value_seven 100 50 plain).1 ≡ ok tt
unfolding set_ex set_now log_and_send write_wal Vol.write Index.set_key Index.append_entry
    Index.write_bucket_file
set_ex_succeeds = refl

delete_succeeds : (delete_key disk works key_a plain).1 ≡ ok tt
unfolding delete_key delete_now Index.get Index.get_chain Index.hash_slot get_or
delete_succeeds = refl

key_a_not_b : key_a ≢ b'b' ∷ []
key_a_not_b e = ground (arith, e)

pub plain-Valid : disk_laws.Valid db.state
unfolding disk_laws
plain-Valid = ((λ s. [], index-IsValid), record { synced = refl; fits = omega arith })

pub plain-Fits : disk_laws.Fits db.state key_a no_addr 0
unfolding disk_laws
plain-Fits =
    (entry-Room no_addr 0 (omega arith) (omega arith) (omega arith) (omega arith), tombstone-Room)

pub seven_space : disk_laws.Space db.state value_seven
unfolding disk_laws
seven_space = omega arith

pub written :
    (Vol.write done done value_seven volume).1 ≡ ok (record { volume_id = 1; offset = 0; size = 1 })
unfolding Vol.write
written = refl

get-set_example :
    let s' = (set disk works key_a value_seven plain).0 in
    ((now : ℕ) → get disk key_a now s' ≡ some value_seven)
    × ((j w : Bytes) (now : ℕ)
        → key_a ≢ j
        → get disk j now plain ≡ some w
        → get disk j now s' ≡ some w)
get-set_example =
    get-set disk disk_laws works key_a value_seven plain refl (roomy 0 (omega arith)) set_succeeds

get-set_ex_example :
    let s' = (set_ex disk works key_a value_seven 100 50 plain).0 in
    ((now : ℕ) → get disk key_a now s' ≡ (if ltb 150 now then none else some value_seven))
    × ((j w : Bytes) (now : ℕ)
        → key_a ≢ j
        → get disk j now plain ≡ some w
        → get disk j now s' ≡ some w)
get-set_ex_example =
    get-set_ex disk disk_laws works key_a value_seven 100 50 plain refl (omega arith)
      (roomy 150 (omega arith)) set_ex_succeeds

delete_key_hides_example :
    get disk key_a 3 (delete_key disk works key_a plain).0
    ≡ (if key_a == key_a then none else get disk key_a 3 plain)
delete_key_hides_example =
    delete_key_hides disk disk_laws works key_a plain refl plain-Valid plain-Fits delete_succeeds
      key_a 3

rollback_restores_example :
    rollback_transaction disk (
      run_calls disk works
        (sets key_a value_seven ∷ deletes key_a ∷ [])
        (begin_transaction disk plain))
    ≡ (plain, ok tt)
rollback_restores_example =
    rollback_restores disk works (sets key_a value_seven ∷ deletes key_a ∷ []) plain
