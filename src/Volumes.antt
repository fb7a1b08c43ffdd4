-- ===== src/Volumes.antt =====
-- pkg/brisedb/volume.go, type VolumeManager: volumes on several drives, written to in turn. A volume
-- that the manager has not opened is a file of its drives. A volume is known by its number, and a
-- drive by its position. What the system makes of the two writes of a blob is an argument; opening
-- a file does not fail.
pub mod Contents
pub mod Rotation
mod Tests
use brisedb.Prelude.{
  ℕ, suc, ◌+◌, ◌%◌, ◌^◌, ◌≤◌, Bool, true, false, Option, none, some, List, [], ◌∷◌, Bytes, length,
  get_or, set, if◌then◌else◌, leb, ltb, ◌==◌, nat_eq,
}
use brisedb.Prelude.Assoc.{Assoc, lookup, insert}
use brisedb.Types.{NeedleAddr, Result, ok, err, no_volume}
use brisedb.File.{Outcome}
use brisedb.Volume.{Volume, Reader, open_volume}
use brisedb.Volume as Vol

pub record VolumeManager : Type 0 where
  pub drives : ℕ
  pub stored : Assoc ℕ Bytes
  pub volumes : Assoc ℕ Volume
  pub drive_current : List ℕ
  pub drive_idx : ℕ
  pub next_id : ℕ
  pub max_volume_size : ℕ

-- The bytes of a file that is opened, none where it is new.
unfoldable pub file_of : ℕ → VolumeManager → Bytes
file_of id vm = elim (lookup id vm.stored) [ none ↦ [] | some f ↦ f ]

-- `if id >= vm.nextID { vm.nextID = id + 1 }`
abbrev pub raised : ℕ → ℕ → ℕ
raised id next = if leb next id then (id + 1) % 2 ^ 32 else next

-- createVolume
unfoldable pub create_volume : ℕ → VolumeManager → VolumeManager
create_volume di vm = record vm {
  next_id = (vm.next_id + 1) % 2 ^ 32;
  volumes = insert vm.next_id (open_volume vm.next_id (file_of vm.next_id vm)) vm.volumes;
  drive_current = set vm.drive_current di vm.next_id;
}

-- EnsureVolume
unfoldable pub ensure_volume : ℕ → VolumeManager → VolumeManager × Result (Unit {0})
ensure_volume id vm = elim (lookup id vm.volumes) [
  | some v ↦ (vm, ok tt)
  | none ↦ elim (lookup id vm.stored) [
    | none ↦ (vm, err no_volume)
    | some f ↦ (
      record vm {
        volumes = insert id (open_volume id f) vm.volumes;
        next_id = raised id vm.next_id;
      },
      ok tt,
    )
  ]
]

abbrev pub put_volume :
    ℕ → VolumeManager → Volume × Result NeedleAddr → VolumeManager × Result NeedleAddr
put_volume id vm (v, r) = (record vm { volumes = insert id v vm.volumes }, r)

-- `v.write(data)` on a volume of the map. The code never gets a volume that is not there.
unfoldable pub write_into :
    Outcome → Outcome → Bytes → ℕ → VolumeManager → VolumeManager × Result NeedleAddr
write_into o₁ o₂ d id vm = elim (lookup id vm.volumes) [
  | none ↦ (vm, err no_volume)
  | some v ↦ put_volume id vm (Vol.write o₁ o₂ d v)
]

-- WriteToVolume
unfoldable pub write_to_volume :
    Outcome → Outcome → ℕ → Bytes → VolumeManager → VolumeManager × Result NeedleAddr
write_to_volume o₁ o₂ id d vm = elim (lookup id vm.volumes) [
  | some v ↦ put_volume id vm (Vol.write o₁ o₂ d v)
  | none ↦ write_into o₁ o₂ d id (record vm {
    volumes = insert id (open_volume id (file_of id vm)) vm.volumes;
    next_id = raised id vm.next_id;
  })
]

abbrev pub end_of : ℕ → VolumeManager → ℕ
end_of id vm = elim (lookup id vm.volumes) [ none ↦ 0 | some v ↦ v.end ]

-- What Write and WriteStream share: the drive whose turn it is, and a new volume where its own is
-- full.
unfoldable pub next_volume : VolumeManager → VolumeManager × ℕ
next_volume vm =
    let di = vm.drive_idx % vm.drives in
    let turned = record vm { drive_idx = vm.drive_idx + 1 } in
    let id = get_or vm.drive_current di 0 in
    if leb vm.max_volume_size (end_of id vm)
    then (create_volume di turned, vm.next_id)
    else (turned, id)

-- Write
unfoldable pub write : Outcome → Outcome → Bytes → VolumeManager → VolumeManager × Result NeedleAddr
write o₁ o₂ d vm = let (vm₁, id) = next_volume vm in write_into o₁ o₂ d id vm₁

-- WriteStream
unfoldable pub write_stream :
    Outcome → Outcome → Reader → ℕ → VolumeManager → VolumeManager × Result NeedleAddr
write_stream o₁ o₂ r n vm =
    let (vm₁, id) = next_volume vm in
    elim (lookup id vm₁.volumes) [
      | none ↦ (vm₁, err no_volume)
      | some v ↦ put_volume id vm₁ (Vol.write_stream o₁ o₂ r n v)
    ]

-- Read
unfoldable pub read : NeedleAddr → VolumeManager → VolumeManager × Result Bytes
read addr vm = elim (lookup addr.volume_id vm.volumes) [
  | some v ↦ (vm, Vol.read addr v)
  | none ↦ elim (lookup addr.volume_id vm.stored) [
    | none ↦ (vm, err no_volume)
    | some f ↦ ((ensure_volume addr.volume_id vm).0, Vol.read addr (open_volume addr.volume_id f))
  ]
]
