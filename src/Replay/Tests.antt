-- ===== src/Replay/Tests.antt =====
-- Runs of the replay.
use brisedb.Prelude.{
  inl, ◌≡◌, refl, sym, ap, ◌∙◌, subst, false, some, none, [], ◌∷◌, Bytes, take, drop, replicate,
  get_or, set, arith, list_beq, List, ℕ,
}
use brisedb.Types.{NeedleAddr, ok}
use brisedb.Volume as Vol
use brisedb.HashIndex.Compact.Filled.{latest}
use brisedb.HashIndex.Compact.Visited.{or_else}
use brisedb.Replay.Compacted.{compact_lines, replay-compact_lines}
use brisedb.Replay.Snapshot.{snapshot, receive, snapshot_line, read_lines, with_line}
use brisedb.Replay.Snapshot.Received.{Takes, AllTaken, receive-snapshot}
use brisedb.Store.Disk.{disk, disk_laws}
use brisedb.Wal.{WalEntry, sets, deletes, write_wal}
use brisedb.File.{done, wrote, failed, read_at, write_at}
use brisedb.HashIndex as Index
use brisedb.Session.Tests.{
  db, works, key_a, value_seven, seven_space, entry-Room, tombstone-Room, plain-Valid, plain-Fits,
}
use brisedb.Replay.{replay, skipped, apply_replication_entry}
use brisedb.HashIndex.Open.{for_each, for_each_small, scan_region, live_entries, is_live}
use brisedb.HashIndex.Format.{read_entry_at, decode_entry, decode_tail, encode_entry, encode_tail}
use brisedb.File.Codec.{get_le, put_le, put_be}
use brisedb.Prelude.Assoc.{insert}
use brisedb.Replay.Index.{last_line, ReplayRoom, Applies, replay-last_line}

abbrev delete_a : WalEntry
delete_a = record {
  type = deletes;
  key = key_a;
  value = [];
  volume_id = 0;
  offset = 0;
  size = 0;
  expires_at = 0;
}

-- A deadline of one second after the epoch, in nanoseconds.
abbrev expired_a : WalEntry
expired_a = record {
  type = sets;
  key = key_a;
  value = [];
  volume_id = 1;
  offset = 0;
  size = 1;
  expires_at = 1_000_000_000;
}

-- The entry is over by one second, and is not skipped.
expired_line_stays : skipped 2_000_000_000 expired_a ≡ false
unfolding skipped
expired_line_stays = refl

delete_succeeds : (disk.index_delete (works.index key_a) key_a db.state).1 ≡ ok tt
unfolding Index.delete_key Index.append_entry Index.write_bucket_file
delete_succeeds = refl

delete_a-ReplayRoom : ReplayRoom disk disk_laws works 5 (delete_a ∷ []) db
unfolding ReplayRoom Applies
delete_a-ReplayRoom = (λ h. (plain-Valid, (plain-Fits, delete_succeeds)), tt)

replay-last_line_example :
    disk.index_get key_a (replay disk works 5 (delete_a ∷ []) db).state
    ≡ last_line 5 key_a (delete_a ∷ []) (disk.index_get key_a db.state)
replay-last_line_example =
    replay-last_line disk disk_laws works 5 (delete_a ∷ []) db key_a delete_a-ReplayRoom

abbrev addr_seven : NeedleAddr
addr_seven = record { volume_id = 1; offset = 0; size = 1 }

-- A string of ASCII stays what it is.
abbrev plain_text : Bytes → Bytes
plain_text s = s

-- A primary that holds one key.
abbrev primary : disk.State
primary =
    let p = disk.write (done, done) value_seven db.state in
    (disk.index_set (done, done) key_a addr_seven 0 p.0).0

primary_live : disk.live 3 primary ≡ (key_a, addr_seven, 0) ∷ []
unfolding for_each for_each_small scan_region live_entries is_live read_entry_at decode_entry
    decode_tail encode_entry encode_tail get_le put_le read_at write_at take drop replicate get_or
    set insert Index.set_key Index.append_entry Index.write_bucket_file Index.hash_slot wrote failed
primary_live = refl

primary_reads : disk.read addr_seven primary ≡ ok value_seven
unfolding Vol.read take drop Vol.write put_be
primary_reads = refl

primary_line : snapshot disk plain_text 3 primary ≡ snapshot_line key_a value_seven 0 ∷ []
unfolding snapshot read_lines
primary_line =
    ap (read_lines disk plain_text primary) primary_live
    ∙ ap (λ r. with_line disk plain_text key_a 0 r []) primary_reads

line-Takes : Takes disk disk_laws works (snapshot_line key_a value_seven 0) db
unfolding disk_laws Vol.write Index.set_key Index.append_entry apply_replication_entry write_wal
line-Takes = record {
  sets_key = refl;
  valid = plain-Valid;
  space = seven_space;
  addr = addr_seven;
  written = refl;
  fits = (
    entry-Room addr_seven 0 (omega arith) (omega arith) (omega arith) (omega arith),
    tombstone-Room,
  );
  stored = refl;
  logged = refl;
}

primary-AllTaken : AllTaken disk disk_laws works (snapshot disk plain_text 3 primary) db
unfolding AllTaken
primary-AllTaken =
    subst (λ l. AllTaken disk disk_laws works l db) (sym primary_line) (line-Takes, tt)

receive-snapshot_example :
    ((receive disk works (snapshot disk plain_text 3 primary) db).1 ≡ ok tt)
    × (b : NeedleAddr) × (disk.index_get key_a
          (receive disk works (snapshot disk plain_text 3 primary) db).0.state
        ≡ some (b, 0))
    × (disk.read b (receive disk works (snapshot disk plain_text 3 primary) db).0.state
        ≡ ok value_seven)
unfolding list_beq
receive-snapshot_example =
    receive-snapshot disk disk_laws plain_text works 3 primary db key_a addr_seven 0 value_seven
      refl primary-AllTaken (ap (λ l. latest key_a l none) primary_live) primary_reads

set_succeeds : (disk.index_set (done, done) key_a addr_seven 0 db.state).1 ≡ ok tt
unfolding Index.set_key Index.append_entry Index.write_bucket_file
set_succeeds = refl

abbrev one_live : List (Bytes × NeedleAddr × ℕ)
one_live = (key_a, addr_seven, 0) ∷ []

one_live-ReplayRoom : ReplayRoom disk disk_laws works 7 (compact_lines one_live) db
unfolding ReplayRoom Applies disk_laws compact_lines
one_live-ReplayRoom = (
  λ h. (
    plain-Valid,
    (
      (
        entry-Room addr_seven 0 (omega arith) (omega arith) (omega arith) (omega arith),
        tombstone-Room,
      ),
      set_succeeds,
    ),
  ),
  tt,
)

replay-compact_lines_example :
    disk.index_get key_a (replay disk works 7 (compact_lines one_live) db).state
    ≡ or_else (latest key_a one_live none) (disk.index_get key_a db.state)
unfolding list_beq
replay-compact_lines_example =
    replay-compact_lines disk disk_laws works 7 one_live db key_a (inl refl) one_live-ReplayRoom
