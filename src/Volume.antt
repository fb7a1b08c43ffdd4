-- ===== src/Volume.antt =====
-- pkg/brisedb/volume.go, type volume: an append-only file of blobs, each behind an 8-byte
-- big-endian length. The file is opened with O_APPEND, so that every write lands at its end,
-- whatever `end` says. What the system makes of each write is an argument. Reads do not fail but
-- at the end of the file. Sizes are below 2 ^ 63, as those of Go's slices are.
pub mod Reads
pub mod Desync
mod Tests
use brisedb.Prelude.{
  ℕ, ◌+◌, ◌%◌, ◌++◌, Bool, true, false, Bytes, length, take, drop, if◌then◌else◌, ◌==◌, nat_eq, not,
  ◌||◌,
}
use brisedb.Types.{
  NeedleAddr, Result, ok, err, Error, io, short_read, size_mismatch, wrong_length, u64,
}
use brisedb.File.{Outcome, failed, wrote, read_at}
use brisedb.File.Codec.{put_be, get_be}

pub record Volume : Type 0 where
  pub id : ℕ
  pub file : Bytes
  pub end : ℕ

-- openVolume, on what the file holds.
unfoldable pub open_volume : ℕ → Bytes → Volume
open_volume id file = record { id = id; file = file; end = length file }

-- The part that write and writeStream share: the length header is appended.
unfoldable pub write_header : Outcome → ℕ → Volume → Volume
unfolding wrote
write_header o n v = record v { file = v.file ++ wrote o (put_be 8 n) }

unfoldable pub finish : ℕ → ℕ → Volume → Volume × Result NeedleAddr
finish offset n v = (
  record v { end = (v.end + (8 + n)) % u64 },
  ok (record { volume_id = v.id; offset = offset; size = n }),
)

-- volume.write: the outcomes are those of the header and of the data.
unfoldable pub write : Outcome → Outcome → Bytes → Volume → Volume × Result NeedleAddr
unfolding write_header finish failed wrote
write o₁ o₂ payload v =
    let v₁ = write_header o₁ (length payload) v in
    if failed o₁
    then (v₁, err io)
    else let v₂ = record v₁ { file = v₁.file ++ wrote o₂ payload } in
      if failed o₂ then (v₂, err io) else finish v.end (length payload) v₂

-- An io.Reader: the bytes that it yields, and whether it fails after them.
pub record Reader : Type 0 where
  pub yields : Bytes
  pub breaks : Bool

-- volume.writeStream
unfoldable pub write_stream : Outcome → Outcome → Reader → ℕ → Volume → Volume × Result NeedleAddr
unfolding write_header finish failed wrote
write_stream o₁ o₂ r size v =
    let v₁ = write_header o₁ size v in
    if failed o₁
    then (v₁, err io)
    else let got = wrote o₂ r.yields in
      let v₂ = record v₁ { file = v₁.file ++ got } in
      if failed o₂ || r.breaks
      then (v₂, err io)
      else if not (length got == size)
      then (v₂, err wrong_length)
      else finish v.end size v₂

-- volume.read
unfoldable pub read : NeedleAddr → Volume → Result Bytes
unfolding read_at get_be
read addr v =
    let buf = read_at (8 + addr.size) addr.offset v.file in
    if not (length buf == (8 + addr.size))
    then err short_read
    else if not (get_be (take 8 buf) == addr.size)
    then err size_mismatch
    else ok (drop 8 buf)
