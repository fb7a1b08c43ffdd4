-- ===== src/VolumeServer/Tests.antt =====
-- A run of a client that reads a blob of a volume server.
use brisedb.Prelude.{◌≡◌, ◌↔◌, arith, true, [], ◌∷◌}
use brisedb.Types.{NeedleAddr, ok}
use brisedb.File.{done}
use brisedb.Volumes.{VolumeManager, read}
use brisedb.VolumeServer.{Trip, client_read}
use brisedb.VolumeServer.Client.{client_read-result}

abbrev trip : Trip
trip = record { arrives = true; header = done; body = done; answers = true }

-- The blob `7` behind its header, in volume 1.
abbrev manager : VolumeManager
manager = record {
  drives = 1;
  stored = [];
  volumes = (1, record { id = 1; file = 0 ∷ 0 ∷ 0 ∷ 0 ∷ 0 ∷ 0 ∷ 0 ∷ 1 ∷ 7 ∷ []; end = 9 }) ∷ [];
  drive_current = 1 ∷ [];
  drive_idx = 0;
  next_id = 2;
  max_volume_size = 100;
}

abbrev addr : NeedleAddr
addr = record { volume_id = 1; offset = 0; size = 1 }

client_read-result_example :
    ((client_read trip 1 0 1 manager).1 ≡ ok (7 ∷ []))
    ↔ ((true ≡ true) × (true ≡ true) × ((read addr manager).1 ≡ ok (7 ∷ [])))
client_read-result_example =
    client_read-result trip addr manager (7 ∷ []) (omega arith) (omega arith) (omega arith)
