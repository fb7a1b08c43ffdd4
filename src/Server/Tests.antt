-- ===== src/Server/Tests.antt =====
-- Runs of a read-only server.
use brisedb.Prelude.{◌≡◌, ◌⊎◌, Bool, true, false, List, [], ◌∷◌, Bytes}
use brisedb.Types.{ok, panic}
use brisedb.Store.Disk.{disk}
use brisedb.Session.Tests.{plain, works}
use brisedb.Server.{Reply, Conn, World, serve}
use brisedb.Server.ReadOnly.{serve-Keeps}

abbrev conn : Conn disk
conn = record { session = plain; hub = []; client = 1; channels = [] }

abbrev world : World disk
world = record {
  env = works;
  now = 5;
  full = λ c. false;
  compact = λ db. (db, ok tt);
  volumes = [];
}

abbrev set_request : List Bytes
set_request = (b's' ∷ b'e' ∷ b't' ∷ []) ∷ (b'k' ∷ []) ∷ (b'v' ∷ []) ∷ []

serve-Keeps_example :
    (serve disk true world set_request conn ≡ panic)
    ⊎ ((rs : List Reply) × (b : Bool) × (serve disk true world set_request conn ≡ ok (conn, rs, b)))
serve-Keeps_example = serve-Keeps disk world set_request conn
