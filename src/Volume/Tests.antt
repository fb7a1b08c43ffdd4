-- ===== src/Volume/Tests.antt =====
-- Runs of the volume on small files.
use brisedb.Prelude.{◌≡◌, refl, false, [], ◌∷◌, Bytes, take, drop, arith}
use brisedb.Types.{NeedleAddr, ok, err, size_mismatch}
use brisedb.File.{done}
use brisedb.File.Codec.{put_be}
use brisedb.Volume.{Volume, Reader, write, write_stream, read}
use brisedb.Volume.Reads.{IsSynced, read-write, read-write_stream}
use brisedb.Volume.Desync.{short_stream_loses_next}

abbrev fresh : Volume
fresh = record { id = 1; file = []; end = 0 }

abbrev blob_ab : Bytes
blob_ab = b'a' ∷ b'b' ∷ []

abbrev used : Volume
used = (write done done blob_ab fresh).0

abbrev addr_ab : NeedleAddr
addr_ab = record { volume_id = 1; offset = 0; size = 2 }

abbrev one_byte : Reader
one_byte = record { yields = b'c' ∷ []; breaks = false }

fresh-IsSynced : IsSynced fresh
fresh-IsSynced = record { synced = refl; fits = omega arith }

used-read : read addr_ab used ≡ ok blob_ab
unfolding read write take drop put_be
used-read = refl

read-write_example :
    (a : NeedleAddr) × ((write done done blob_ab fresh).1 ≡ ok a)
    × (read a (write done done blob_ab fresh).0 ≡ ok blob_ab)
read-write_example = read-write blob_ab fresh fresh-IsSynced (omega arith)

read-write_stream_example :
    (a : NeedleAddr) × ((write_stream done done one_byte 1 fresh).1 ≡ ok a)
    × (read a (write_stream done done one_byte 1 fresh).0 ≡ ok (b'c' ∷ []))
read-write_stream_example = read-write_stream one_byte fresh fresh-IsSynced refl (omega arith)

short_stream_loses_next_example :
    (a : NeedleAddr) × ((write done done (b'd' ∷ []) (write_stream done done one_byte 2 fresh).0).1
      ≡ ok a)
    × (read a (write done done (b'd' ∷ []) (write_stream done done one_byte 2 fresh).0).0
        ≡ err size_mismatch)
short_stream_loses_next_example =
    short_stream_loses_next one_byte 2 fresh fresh-IsSynced refl (λ e. omega (arith, e)) (b'd' ∷ [])
      (omega arith) (λ e. omega (arith, e))
