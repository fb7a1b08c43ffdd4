-- ===== src/Gateway/Tests.antt =====
-- Runs of the gateway on the small database of the session's runs.
use brisedb.Prelude.{
  ℕ, ◌≡◌, ◌⊎◌, refl, arith, true, some, [], ◌∷◌, replicate, length, Bytes, list_beq, take, drop,
  get_or, set,
}
use brisedb.Prelude.Assoc.{mem}
use brisedb.Session.{Db, set_blob_stream, blob_now, log_and_send, read_blob_at, get_blob_meta}
use brisedb.Session.Tests.{db, works, key_a, value_seven, roomy}
use brisedb.Store.Disk.{disk, disk_laws, disk_sized}
use brisedb.Volume as Vol
use brisedb.Volume.{Volume}
use brisedb.HashIndex as Index
use brisedb.HashIndex.Format.{read_entry_at, encode_entry, encode_tail, decode_entry, decode_tail}
use brisedb.File.{write_at}
use brisedb.File.Codec.{put_le, put_be}
use brisedb.Wal.{write_wal}
use brisedb.Decimal.{parse_int, digits, parse_uint}
use brisedb.Gateway.{
  announced, Upload, Headers, created, whole, partial, put_body, put_blob, get_blob, send_blob,
}
use brisedb.Gateway.Ranges.{
  Range, Within, parse_range, suffix_range, parse_range-Within, has_prefix, trim_prefix, split_at,
  range_from, range_to,
}
use brisedb.Gateway.Blobs.{Part, get_blob-Part}
use brisedb.Gateway.Uploads.{Serves, get_blob-put_blob}

-- `bytes=0-`
abbrev all_bytes : Bytes
all_bytes = b'b' ∷ b'y' ∷ b't' ∷ b'e' ∷ b's' ∷ b'=' ∷ b'0' ∷ b'-' ∷ []

-- `bytes=-2`
abbrev last_two : Bytes
last_two = b'b' ∷ b'y' ∷ b't' ∷ b'e' ∷ b's' ∷ b'=' ∷ b'-' ∷ b'2' ∷ []

last_two_of_five : parse_range last_two 5 ≡ some (3, some 2)
unfolding parse_range has_prefix trim_prefix split_at suffix_range parse_int parse_uint digits
    list_beq take drop mem
last_two_of_five = refl

parse_range-Within_example :
    Within 5 (3, some 2) ⊎ ((◌≡◌ {A = ℕ} 5 0) × (◌≡◌ {A = Range} (3, some 2) (0, some 0)))
parse_range-Within_example = parse_range-Within last_two 5 (3, some 2) last_two_of_five

abbrev upload : Upload
upload = record { body = announced value_seven; ttl = some (some 50) }

put_succeeds : (put_blob disk works key_a 100 upload db).1 ≡ created key_a 1 150
unfolding put_blob put_body set_blob_stream blob_now log_and_send write_wal Vol.write Index.set_key
    Index.append_entry Index.write_bucket_file
put_succeeds = refl

get_blob-put_blob_example :
    Serves disk disk_laws key_a value_seven 150 (put_blob disk works key_a 100 upload db).0
get_blob-put_blob_example =
    get_blob-put_blob disk disk_laws works key_a value_seven key_a 100 50 1 150 upload db refl refl
      (roomy 150 (omega arith)) put_succeeds

-- The database after that upload.
abbrev stored : Db disk
stored = (put_blob disk works key_a 100 upload db).0

abbrev left : Headers
left = record { ttl = some 0; size = 1 }

served : get_blob disk key_a all_bytes true 120 stored ≡ partial left 0 value_seven
unfolding get_blob send_blob get_blob_meta read_blob_at Index.get put_blob put_body set_blob_stream
    blob_now log_and_send write_wal Vol.write Vol.read Index.set_key Index.append_entry
    Index.write_bucket_file parse_range has_prefix trim_prefix split_at range_from range_to
    parse_int parse_uint digits list_beq take drop mem Index.get_chain get_or set Index.hash_slot
    read_entry_at write_at replicate put_le encode_entry encode_tail decode_entry decode_tail put_be
served = refl

get_blob-Part_example :
    (d : Bytes) × (get_blob disk key_a [] true 120 stored ≡ whole left d)
    × (left.size ≡ length d)
    × (Part d 0 value_seven ⊎ ((d ≡ []) × (value_seven ≡ [])))
get_blob-Part_example =
    get_blob-Part disk disk_sized key_a all_bytes 120 stored left 0 value_seven served
