-- ===== src/Pool/Tests.antt =====
-- Runs of a pool of the local manager and one volume server, in pairs.
use brisedb.Prelude.{
  ℕ, ◌+◌, ◌<◌, ◌≡◌, ◌≢◌, refl, sym, true, false, none, some, [], ◌∷◌, Bytes, length, ◌==◌, ==_iff,
  Bool-cases, inl, inr, nat_eq, list_eq, list_beq, arith,
}
use brisedb.Prelude.Assoc.{lookup, mem, Unique}
use brisedb.Types.{NeedleAddr, addr_eq, ok, err, unreachable, u64}
use brisedb.File.{done}
use brisedb.Volume.{Volume, open_volume}
use brisedb.Volume.Reads.{IsSynced}
use brisedb.Volumes.{VolumeManager, file_of}
use brisedb.Volumes.Contents.{volume_at}
use brisedb.Lru.{Cache, find}
use brisedb.Lru.Evict.{total}
use brisedb.Pool.{
  VolumeMember, VolumeGroup, VolumePool, Env, absent, all_backends, close, new_volume_pool,
}
use brisedb.Pool.Transfer.{write, read, read_from_member}
use brisedb.Pool.Members.{manager_of, held}
use brisedb.Pool.Replicas.{Works}
use brisedb.Pool.Failover.{Sendable}
use brisedb.Pool.Groups.{Synced}
use brisedb.Pool.Durability.{reached}
use brisedb.Pool.Cached.{CacheOk, read-write_pool}
use brisedb.Pool.Uneven.{pair}
use brisedb.Pool.Diverged.{read-write_missed}
use brisedb.Pool.Reopened.{Below, new_volume_pool-close}

abbrev manager : VolumeManager
manager = record {
  drives = 1;
  stored = [];
  volumes = [];
  drive_current = [];
  drive_idx = 0;
  next_id = 0;
  max_volume_size = 100;
}

abbrev cache : Cache
cache = record {
  max_bytes = 8;
  cur_bytes = 0;
  list = [];
  items = [];
  hits = 0;
  misses = 0;
  evictions = 0;
}

abbrev server : VolumeMember
server = record { server_url = b'r' ∷ [] }

abbrev pool : VolumePool
pool = record {
  local = manager;
  remotes = (b'r' ∷ [], manager) ∷ [];
  registry = [];
  next_id = 0;
  active_group = none;
  replication_factor = 2;
  registry_file = absent;
  cache = some cache;
}

abbrev works : Env
works = record {
  saves = true;
  trip = λ u. record { arrives = true; header = done; body = done; answers = true };
}

-- Requests to the server do not arrive.
abbrev cut : Env
cut = record {
  saves = true;
  trip = λ u. record { arrives = u == []; header = done; body = done; answers = true };
}

each_trip_succeeds : (u : Bytes) → Works (works.trip u)
each_trip_succeeds u = record { arrives = refl; header = refl; body = refl; answers = refl }

abbrev empty : ℕ → Volume
empty id = open_volume id []

pool-held :
    (id : ℕ) → (held [] id pool ≡ some (empty id)) × (held (b'r' ∷ []) id pool ≡ some (empty id))
unfolding manager_of list_beq volume_at lookup file_of
pool-held id = (refl, refl)

empty-IsSynced : (id : ℕ) → IsSynced (empty id)
unfolding open_volume
empty-IsSynced id = record { synced = refl; fits = omega arith }

empty-room : (d : Bytes) → length d < 100 → (id : ℕ) → (empty id).end + (8 + length d) < u64
unfolding open_volume
empty-room d h id = omega (arith, h)

pool-Synced : Synced empty pool
unfolding all_backends list_beq lookup open_volume
pool-Synced = record {
  groups = λ id g h. absurd (ground (arith, h));
  below = λ id g h. absurd (ground (arith, h));
  unregistered = λ id h. (pool-held id).0;
  fresh = λ id h. ((pool-held id).0, ((pool-held id).1, tt));
  active = λ g h. absurd (ground (arith, h));
  whole = empty-IsSynced;
  named = λ id. refl;
  urls = (refl, (refl, tt));
  factor = omega arith;
}

pool-CacheOk : CacheOk empty pool.cache
unfolding total mem find
pool-CacheOk = record {
  valid = record {
    counted = refl;
    bounded = omega arith;
    small = omega arith;
    distinct = tt;
    indexed = λ k. refl;
  };
  blobs = λ a x h. absurd (ground (arith, h));
}

read-write_pool_example :
    let (p', r) = write works (7 ∷ []) pool in
    (a : NeedleAddr) × (r ≡ ok a)
    × ((e' : Env) → reached e' a p' ≡ true → (read e' a p').1 ≡ ok (7 ∷ []))
    × ((e' : Env) (b : NeedleAddr) (x : Bytes)
        → Sendable b
        → (read e' b pool).1 ≡ ok x
        → reached e' b p' ≡ true
        → (read e' b p').1 ≡ ok x)
read-write_pool_example =
    read-write_pool empty works (7 ∷ []) pool pool-Synced pool-CacheOk refl each_trip_succeeds
      (omega arith) (empty-room (7 ∷ []) (omega arith))

server_remote : (server.server_url == []) ≡ false
unfolding list_beq
server_remote = refl

cut_local : Works (cut.trip [])
unfolding list_beq
cut_local = record { arrives = refl; header = refl; body = refl; answers = refl }

cut_server : (cut.trip server.server_url).arrives ≡ false
unfolding list_beq
cut_server = refl

empty_end : (empty 0).end + 8 + 1 + 8 + 1 < u64
unfolding open_volume
empty_end = omega arith

-- A pool that writes to a local volume and to the server.
abbrev in_use : VolumePool
in_use = record pool {
  local = record manager { volumes = (0, empty 0) ∷ [] };
  active_group = some (pair 0 server);
}

in_use-lookup : lookup 0 in_use.local.volumes ≡ some (empty 0)
unfolding lookup
in_use-lookup = refl

in_use-held : held server.server_url 0 in_use ≡ some (empty 0)
unfolding manager_of list_beq volume_at lookup file_of
in_use-held = refl

in_use_below : (empty 0).end + 8 + 1 < 100
unfolding open_volume
in_use_below = omega arith

read-write_missed_example :
    let (p₁, r₁) = write cut (7 ∷ []) in_use in
    let (p₂, r₂) = write works (9 ∷ []) p₁ in
    (r₁ ≡ err unreachable)
    × (p₁.active_group ≡ some (pair 0 server))
    × ((a : NeedleAddr) × (r₂ ≡ ok a)
        × (a.volume_id ≡ 0)
        × ((e : Env) (x : Bytes) → (read_from_member e server a p₂).1 ≢ ok x))
read-write_missed_example =
    read-write_missed 0 server (empty 0) in_use cut works (7 ∷ []) (9 ∷ []) (omega arith)
      server_remote refl in_use-lookup in_use-held in_use_below cut_local cut_server
      each_trip_succeeds (empty-IsSynced 0) empty_end

-- A pool of two groups, one of which is the local volume 1.
abbrev group_one : VolumeGroup
group_one = record { id = 1; members = record { server_url = [] } ∷ [] }

abbrev two_groups : VolumePool
two_groups = record pool { registry = (0, pair 0 server) ∷ (1, group_one) ∷ []; next_id = 2 }

two_groups-Named : (id : ℕ) (g : VolumeGroup) → lookup id two_groups.registry ≡ some g → g.id ≡ id
unfolding lookup
two_groups-Named id g h = elim (Bool-cases (0 == id)) [
  | inl first ↦
      let e : pair 0 server ≡ g = ground (arith, h, first) in rw (sym e) ((==_iff 0 id).0 first)
  | inr rest ↦ elim (Bool-cases (1 == id)) [
    | inl second ↦
        let e : group_one ≡ g = ground (arith, h, rest, second) in
        rw (sym e) ((==_iff 1 id).0 second)
    | inr last ↦ absurd (ground (arith, h, rest, last))
  ]
]

two_groups-Unique : Unique two_groups.registry
unfolding lookup
two_groups-Unique = (refl, (refl, tt))

new_volume_pool-close_example :
    (p' : VolumePool) × (new_volume_pool manager [] (close true two_groups).0.registry_file 2 8
      ≡ ok p')
    × ((id : ℕ) (g : VolumeGroup)
        → lookup id two_groups.registry ≡ some g
        → lookup id p'.registry ≡ some g)
    × ((id : ℕ) (v : Volume)
        → lookup id manager.volumes ≡ some v
        → (g : VolumeGroup) × (lookup id p'.registry ≡ some g))
    × Below p'
new_volume_pool-close_example =
    new_volume_pool-close two_groups manager [] 2 8 two_groups-Unique two_groups-Named
      (omega arith, (omega arith, tt)) tt
