-- ===== src/Pool/Transfer.antt =====
-- Writes and reads of the volume pool (pkg/brisedb/volumepool.go): the calls to the members of a
-- group, and what becomes of their errors.
use brisedb.Prelude.{
  Option, ℕ, Bool, false, none, some, List, [], ◌∷◌, Bytes, if◌then◌else◌, ◌==◌, nat_eq, list_eq,
}
use brisedb.Prelude.Assoc.{lookup, insert}
use brisedb.Types.{NeedleAddr, Result, ok, err, panic, no_client, io}
use brisedb.Volume.{Reader}
use brisedb.Volumes.{VolumeManager, raised, write_to_volume}
use brisedb.Volumes as Vm
use brisedb.VolumeServer.{client_write_to_volume, client_read}
use brisedb.Lru.{Cache, new_cache}
use brisedb.Lru as Lru
use brisedb.Pool.{VolumeMember, VolumeGroup, VolumePool, Env, get_or_create_group, register_local}

abbrev pub with_local {ℓ} : {A : Type ℓ} → VolumePool → VolumeManager × A → VolumePool × A
with_local p (vm, r) = (record p { local = vm }, r)

abbrev pub with_remote {ℓ} : {A : Type ℓ} → Bytes → VolumePool → VolumeManager × A → VolumePool × A
with_remote url p (vm, r) = (record p { remotes = insert url vm p.remotes }, r)

-- writeToMember
unfoldable pub write_to_member :
    Env → VolumeMember → ℕ → Bytes → VolumePool → VolumePool × Result NeedleAddr
write_to_member e m id d p =
    let t = e.trip m.server_url in
    if m.server_url == []
    then with_local p (write_to_volume t.header t.body id d p.local)
    else elim (lookup m.server_url p.remotes) [
      | none ↦ (p, err no_client)
      | some vm ↦ with_remote m.server_url p (client_write_to_volume t id d vm)
    ]

-- readFromMember
unfoldable pub read_from_member :
    Env → VolumeMember → NeedleAddr → VolumePool → VolumePool × Result Bytes
read_from_member e m a p =
    if m.server_url == []
    then with_local p (Vm.read a p.local)
    else elim (lookup m.server_url p.remotes) [
      | none ↦ (p, err no_client)
      | some vm ↦
          with_remote m.server_url p
            (client_read (e.trip m.server_url) a.volume_id a.offset a.size vm)
    ]

abbrev pub first_failure : Result NeedleAddr → Result (Unit {0}) → Result (Unit {0})
first_failure (ok a) r = r
first_failure (err e) r = err e
first_failure panic r = panic

-- The replicas of a write: all of them are written to, and then the errors are looked at.
unfoldable pub write_replicas :
    Env → List VolumeMember → ℕ → Bytes → VolumePool → VolumePool × Result (Unit {0})
write_replicas e [] id d p = (p, ok tt)
write_replicas e (m ∷ ms) id d p =
    let (p₁, r) = write_to_member e m id d p in
    let (p₂, rs) = write_replicas e ms id d p₁ in (p₂, first_failure r rs)

-- The part of Write behind the group.
unfoldable pub write_group : Env → VolumeGroup → Bytes → VolumePool → VolumePool × Result NeedleAddr
write_group e g d p = elim g.members [
  | [] ↦ (p, panic)
  | m ∷ ms ↦
      let (p₁, r₁) = write_to_member e m g.id d p in
      elim r₁ [
        | err x ↦ (p₁, err x)
        | panic ↦ (p₁, panic)
        | ok a ↦
            let (p₂, r₂) = write_replicas e ms g.id d p₁ in
            elim r₂ [
              | err x ↦ (p₂, err x)
              | panic ↦ (p₂, panic)
              | ok u ↦ (p₂, ok (record { volume_id = g.id; offset = a.offset; size = a.size }))
            ]
      ]
]

-- Write
unfoldable pub write : Env → Bytes → VolumePool → VolumePool × Result NeedleAddr
unfolding get_or_create_group write_group
write e d p =
    let (p₁, r) = get_or_create_group e.saves p in
    elim r [ err x ↦ (p₁, err x) | panic ↦ (p₁, panic) | ok g ↦ write_group e g d p₁ ]

-- `len(group.Members) == 1 && group.Members[0].ServerURL == ""`
abbrev pub only_local : List VolumeMember → Bool
only_local [] = false
only_local (m ∷ []) = m.server_url == []
only_local (m ∷ n ∷ ms) = false

-- WriteStream: a group of the local manager alone is passed over for the volumes of the manager.
unfoldable pub write_stream : Env → Reader → ℕ → VolumePool → VolumePool × Result NeedleAddr
unfolding get_or_create_group write
write_stream e r n p =
    let (p₁, g) = get_or_create_group e.saves p in
    elim g [
      | err x ↦ (p₁, err x)
      | panic ↦ (p₁, panic)
      | ok group ↦
          let t = e.trip [] in
          if only_local group.members
          then with_local p₁ (Vm.write_stream t.header t.body r n p₁.local)
          else if r.breaks
          then (p₁, err io)
          else write e r.yields p₁
    ]

-- The loop of Read over the members, with the result of the last one.
unfoldable pub read_members :
    Env → List VolumeMember → NeedleAddr → Result Bytes → VolumePool → VolumePool × Result Bytes
read_members e [] a last p = (p, last)
read_members e (m ∷ ms) a last p =
    let (p₁, r) = read_from_member e m a p in
    elim r [ ok d ↦ (p₁, ok d) | panic ↦ (p₁, panic) | err x ↦ read_members e ms a (err x) p₁ ]

-- The part of Read behind the cache. A number that is not registered is one of the local manager.
unfoldable pub fetch : Env → NeedleAddr → VolumePool → VolumePool × Result Bytes
unfolding read_members
fetch e a p = elim (lookup a.volume_id p.registry) [
  | none ↦ with_local p (Vm.read a p.local)
  | some g ↦ read_members e g.members (record a { volume_id = g.id }) (ok []) p
]

-- The end of Read: what was fetched goes to the cache. A `set` that does not return ends the read
-- as a panic does.
abbrev pub put_cached : NeedleAddr → Bytes → Option Cache → VolumePool → VolumePool × Result Bytes
put_cached a d none p = (p, ok d)
put_cached a d (some c) p = elim (Lru.set a d c) [
  | none ↦ (p, panic)
  | some c' ↦ (record p { cache = some c' }, ok d)
]

unfoldable pub remember : NeedleAddr → VolumePool × Result Bytes → VolumePool × Result Bytes
remember a (p, err x) = (p, err x)
remember a (p, panic) = (p, panic)
remember a (p, ok d) = put_cached a d p.cache p

-- Read, behind the lookup in the cache.
unfoldable pub read_hit : Env → NeedleAddr → Option Bytes → VolumePool → VolumePool × Result Bytes
unfolding fetch remember
read_hit e a none p = remember a (fetch e a p)
read_hit e a (some d) p = (p, ok d)

-- Read, with the cache of the pool.
unfoldable pub read_with : Env → NeedleAddr → Option Cache → VolumePool → VolumePool × Result Bytes
unfolding read_hit
read_with e a none p = read_hit e a none p
read_with e a (some c) p =
    let (c', hit) = Lru.get a c in read_hit e a hit (record p { cache = some c' })

unfoldable pub read : Env → NeedleAddr → VolumePool → VolumePool × Result Bytes
unfolding read_with
read e a p = read_with e a p.cache p

-- EnsureVolume
unfoldable pub ensure_volume : ℕ → VolumePool → VolumePool × Result (Unit {0})
unfolding register_local
ensure_volume id p = let p₁ = register_local id p in with_local p₁ (Vm.ensure_volume id p₁.local)
