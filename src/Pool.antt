-- ===== src/Pool.antt =====
-- pkg/brisedb/volumepool.go: the volume pool, which keeps each blob on the members of a group: the
-- local volume manager and volume servers. Each remote client stands with the manager behind its
-- server, under the base URL of the client; two clients of one URL reach the same manager. The
-- calls to the replicas of a group, which run concurrently on different servers, are made in the
-- order of the members, and of several errors the first is returned. The registry file is what
-- JSON decodes of it.
pub mod Transfer
pub mod Groups
pub mod Members
pub mod Replicas
pub mod Failover
pub mod Durability
pub mod Written
pub mod Cached
pub mod Uneven
pub mod Diverged
pub mod Reopened
mod Tests
use brisedb.Prelude.{
  ℕ, zero, suc, ◌+◌, ◌%◌, ◌^◌, Bool, true, false, Option, none, some, List, [], ◌∷◌, ◌++◌, map,
  Bytes, length, take, if◌then◌else◌, ltb, leb, ◌==◌, nat_eq, list_eq,
}
use brisedb.Prelude.Assoc.{Assoc, lookup, insert}
use brisedb.Types.{NeedleAddr, Result, ok, err, panic, Error, no_client, io}
use brisedb.File.{Outcome}
use brisedb.Volume.{Volume, Reader}
use brisedb.Volumes.{VolumeManager, raised, write_to_volume}
use brisedb.Volumes as Vm
use brisedb.VolumeServer.{Trip, client_write_to_volume, client_read}
use brisedb.Lru.{Cache, new_cache}
use brisedb.Lru as Lru

-- volumeMember: the local manager has the empty URL.
pub record VolumeMember : Type 0 where
  pub server_url : Bytes

pub record VolumeGroup : Type 0 where
  pub id : ℕ
  pub members : List VolumeMember

pub data RegistryFile : Type 0 where
  absent : RegistryFile
  unopenable : RegistryFile
  undecodable : RegistryFile
  holds : Assoc ℕ VolumeGroup → RegistryFile

pub record VolumePool : Type 0 where
  pub local : VolumeManager
  pub remotes : Assoc Bytes VolumeManager
  pub registry : Assoc ℕ VolumeGroup
  pub next_id : ℕ
  pub active_group : Option VolumeGroup
  pub replication_factor : ℕ
  pub registry_file : RegistryFile
  pub cache : Option Cache

-- What becomes of a call: whether the registry can be written, and each request, by its URL. The
-- outcomes of the trip to the empty URL are those of the local writes.
pub record Env : Type 0 where
  pub saves : Bool
  pub trip : Bytes → Trip

abbrev pub local_member : VolumeMember
local_member = record { server_url = [] }

-- The part of loadRegistry behind the decoding: each group goes by the number that it stands under.
unfoldable pub load_groups : Assoc ℕ VolumeGroup → VolumePool → VolumePool
load_groups [] p = p
load_groups ((id, g) ∷ reg) p = load_groups reg (record p {
  registry = insert id (record { id = id; members = g.members }) p.registry;
  next_id = raised id p.next_id;
})

-- loadRegistry
unfoldable pub load_registry : VolumePool → VolumePool × Result (Unit {0})
load_registry p = elim p.registry_file [
  | absent ↦ (p, ok tt)
  | unopenable ↦ (p, err io)
  | undecodable ↦ (p, ok tt)
  | holds reg ↦ (load_groups reg p, ok tt)
]

-- A local volume becomes a group of its own, where its number is not registered.
unfoldable pub register_local : ℕ → VolumePool → VolumePool
register_local id p = elim (lookup id p.registry) [
  | some g ↦ p
  | none ↦ record p {
    registry = insert id (record { id = id; members = local_member ∷ [] }) p.registry;
    next_id = raised id p.next_id;
  }
]

unfoldable pub register_locals : List (ℕ × Volume) → VolumePool → VolumePool
register_locals [] p = p
register_locals ((id, v) ∷ vs) p = register_locals vs (register_local id p)

-- newVolumePool
unfoldable pub new_volume_pool :
    VolumeManager → Assoc Bytes VolumeManager → RegistryFile → ℕ → ℕ → Result VolumePool
new_volume_pool local remotes file factor cache_bytes =
    let (p, r) = load_registry (record {
      local = local;
      remotes = remotes;
      registry = [];
      next_id = 0;
      active_group = none;
      replication_factor = if ltb factor 1 then 1 else factor;
      registry_file = file;
      cache = new_cache cache_bytes;
    }) in
    elim r [ err e ↦ err e | panic ↦ panic | ok u ↦ ok (register_locals local.volumes p) ]

-- saveRegistry and saveRegistryLocked: the file is replaced as a whole, or not at all.
unfoldable pub save_registry : Bool → VolumePool → VolumePool × Result (Unit {0})
save_registry saves p =
    if saves then (record p { registry_file = holds p.registry }, ok tt) else (p, err io)

abbrev pub member_of : Bytes × VolumeManager → VolumeMember
member_of r = record { server_url = r.0 }

-- allBackends
unfoldable pub all_backends : VolumePool → List VolumeMember
all_backends p = local_member ∷ map member_of p.remotes

-- The second part of getOrCreateGroup.
unfoldable pub create_group : Bool → VolumePool → VolumePool × Result VolumeGroup
unfolding all_backends save_registry
create_group saves p =
    let backends = all_backends p in
    let factor = p.replication_factor in
    let n = if ltb (length backends) factor then length backends else factor in
    let group : VolumeGroup = record { id = p.next_id; members = take n backends } in
    let (p₁, r) = save_registry saves (record p {
      next_id = (p.next_id + 1) % 2 ^ 32;
      registry = insert p.next_id group p.registry;
      active_group = some group;
    }) in
    elim r [ err e ↦ (p₁, err e) | panic ↦ (p₁, panic) | ok u ↦ (p₁, ok group) ]

-- Whether the active group is used again: a remote primary is, a local one until it is full.
unfoldable pub has_room : VolumeMember → ℕ → VolumePool → Bool
has_room primary id p =
    if primary.server_url == []
    then elim (lookup id p.local.volumes) [
      | none ↦ false
      | some v ↦ ltb v.end p.local.max_volume_size
    ]
    else true

-- getOrCreateGroup, with the members of the active group, and with the active group. A group
-- without members has no primary.
abbrev pub reuse_group :
    Bool → VolumeGroup → List VolumeMember → VolumePool → VolumePool × Result VolumeGroup
reuse_group saves g [] p = (p, panic)
reuse_group saves g (m ∷ ms) p = if has_room m g.id p then (p, ok g) else create_group saves p

abbrev pub choose_group : Bool → Option VolumeGroup → VolumePool → VolumePool × Result VolumeGroup
choose_group saves none p = create_group saves p
choose_group saves (some g) p = reuse_group saves g g.members p

unfoldable pub get_or_create_group : Bool → VolumePool → VolumePool × Result VolumeGroup
get_or_create_group saves p = choose_group saves p.active_group p

-- Close
unfoldable pub close : Bool → VolumePool → VolumePool × Result (Unit {0})
unfolding save_registry
close saves p = save_registry saves p
