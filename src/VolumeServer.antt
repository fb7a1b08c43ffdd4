-- ===== src/VolumeServer.antt =====
-- pkg/volumeserver (server.go, client.go, localbackend.go), as cmd/volume-server/main.go puts it
-- together: a volume manager behind HTTP, and the client of the volume pool. HTTP carries the method,
-- the values of the query and the body as they are; a status code stands for its message. JSON
-- carries numbers exactly. Its handler for /status is in no write or read.
pub mod Client
mod Tests
use brisedb.Prelude.{
  ℕ, Bool, true, false, not, Option, none, some, [], ◌∷◌, Bytes, length, if◌then◌else◌, ◌==◌,
  nat_eq,
}
use brisedb.Types.{NeedleAddr, Result, ok, err, panic, unreachable, bad_status, bad_reply}
use brisedb.File.{Outcome}
use brisedb.Decimal.{print, parse_uint}
use brisedb.Volumes.{VolumeManager, write, write_to_volume, read}

pub data Method : Type 0 where
  get : Method
  post : Method
  other : Method

-- A response: a code that is not 200, the JSON of a WriteResult, or the bytes of a blob. `hung_up`
-- is the end of a connection whose handler panicked.
pub data Response : Type 0 where
  status : ℕ → Response
  written : NeedleAddr → Response
  blob : Bytes → Response
  hung_up : Response

abbrev pub write_reply : VolumeManager × Result NeedleAddr → VolumeManager × Response
write_reply (vm, ok a) = (vm, written a)
write_reply (vm, err e) = (vm, status 500)
write_reply (vm, panic) = (vm, hung_up)

abbrev read_reply : VolumeManager × Result Bytes → VolumeManager × Response
read_reply (vm, ok d) = (vm, blob d)
read_reply (vm, err e) = (vm, status 500)
read_reply (vm, panic) = (vm, hung_up)

-- handleWrite, on the body as it could be read, and on the value of `vol`.
unfoldable pub handle_write :
    Outcome → Outcome → Method → Option Bytes → Bytes → VolumeManager → VolumeManager × Response
handle_write o₁ o₂ get body vol vm = (vm, status 405)
handle_write o₁ o₂ other body vol vm = (vm, status 405)
handle_write o₁ o₂ post none vol vm = (vm, status 400)
handle_write o₁ o₂ post (some d) vol vm =
    if length vol == 0 then write_reply (write o₁ o₂ d vm) else elim (parse_uint 32 vol) [
      | none ↦ (vm, status 400)
      | some id ↦ write_reply (write_to_volume o₁ o₂ id d vm)
    ]

-- handleRead, on the values of `vol`, `off` and `sz`.
unfoldable pub handle_read :
    Method → Bytes → Bytes → Bytes → VolumeManager → VolumeManager × Response
handle_read post vol off sz vm = (vm, status 405)
handle_read other vol off sz vm = (vm, status 405)
handle_read get vol off sz vm = elim (parse_uint 32 vol) [
  | none ↦ (vm, status 400)
  | some id ↦ elim (parse_uint 64 off) [
    | none ↦ (vm, status 400)
    | some offset ↦ elim (parse_uint 64 sz) [
      | none ↦ (vm, status 400)
      | some size ↦ read_reply (read (record { volume_id = id; offset = offset; size = size }) vm)
    ]
  ]
]

-- What becomes of a request: whether it arrives, what the system makes of its writes, and whether
-- the response arrives.
pub record Trip : Type 0 where
  pub arrives : Bool
  pub header : Outcome
  pub body : Outcome
  pub answers : Bool

abbrev pub write_result : Response → Result NeedleAddr
write_result (written a) = ok a
write_result (blob d) = err bad_reply
write_result (status n) = err bad_status
write_result hung_up = err unreachable

-- `io.ReadAll` of a response is the bytes of a blob: no other response to a read has code 200.
abbrev pub read_result : Response → Result Bytes
read_result (blob d) = ok d
read_result (written a) = err bad_reply
read_result (status n) = err bad_status
read_result hung_up = err unreachable

abbrev pub answered {ℓ} :
    {A : Type ℓ}
    → Bool
    → (Response → Result A)
    → VolumeManager × Response
    → VolumeManager × Result A
answered true f (vm, r) = (vm, f r)
answered false f (vm, r) = (vm, err unreachable)

-- Client.WriteToVolume
unfoldable pub client_write_to_volume :
    Trip → ℕ → Bytes → VolumeManager → VolumeManager × Result NeedleAddr
unfolding handle_write
client_write_to_volume t id d vm =
    if t.arrives
    then answered t.answers write_result (handle_write t.header t.body post (some d) (print id) vm)
    else (vm, err unreachable)

-- Client.Write
unfoldable pub client_write : Trip → Bytes → VolumeManager → VolumeManager × Result NeedleAddr
unfolding handle_write
client_write t d vm =
    if t.arrives
    then answered t.answers write_result (handle_write t.header t.body post (some d) [] vm)
    else (vm, err unreachable)

-- Client.Read
unfoldable pub client_read : Trip → ℕ → ℕ → ℕ → VolumeManager → VolumeManager × Result Bytes
unfolding handle_read
client_read t id off sz vm =
    if t.arrives
    then answered t.answers read_result (handle_read get (print id) (print off) (print sz) vm)
    else (vm, err unreachable)
