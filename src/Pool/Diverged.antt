-- ===== src/Pool/Diverged.antt =====
-- What a write that a replica misses leaves behind: the group stays in use, although its members no
-- longer hold the same bytes.
use brisedb.Prelude.{
  ℕ, ◌+◌, ◌^◌, ◌<◌, ◌≡◌, ◌≢◌, refl, ap, ◌∙◌, true, false, some, [], Bytes, Bool, length, ltb, ◌==◌,
  ==_refl, nat_eq, list_eq, list_beq, arith,
}
use brisedb.Prelude.Assoc.{lookup, lookup-insert}
use brisedb.Types.{NeedleAddr, Result, ok, err, panic, unreachable, u64}
use brisedb.File.{Outcome, done}
use brisedb.Volume.{Volume}
use brisedb.Volume as Vol
use brisedb.Volume.Reads.{IsSynced}
use brisedb.Volumes.{VolumeManager, write_to_volume}
use brisedb.Volumes.Contents.{volume_at}
use brisedb.Pool.{
  VolumeMember, VolumeGroup, VolumePool, Env, local_member, get_or_create_group, has_room,
  choose_group,
}
use brisedb.Pool.Transfer.{write_to_member, write_group, write, read_from_member}
use brisedb.Pool.Members.{manager_of, held}
use brisedb.Pool.Replicas.{Works}
use brisedb.Pool.Uneven.{pair, missed, uneven, at_end, not_there, write-end}

-- The volume stays open, and what was written stands in it.
lookup-write_to_volume :
    (o₁ o₂ : Outcome) (id : ℕ) (d : Bytes) (v : Volume) (vm : VolumeManager)
    → lookup id vm.volumes ≡ some v
    → (lookup id (write_to_volume o₁ o₂ id d vm).0.volumes ≡ some (Vol.write o₁ o₂ d v).0)
      × ((write_to_volume o₁ o₂ id d vm).0.max_volume_size ≡ vm.max_volume_size)
unfolding write_to_volume
lookup-write_to_volume o₁ o₂ id d v vm h =
    let w = (Vol.write o₁ o₂ d v).0 in
    rw (h, write_to_volume) (ground (arith, lookup-insert id id w vm.volumes, ==_refl id), refl)

-- The group whose local volume is open and not full is taken again.
reused :
    (saves : Bool) (id : ℕ) (m : VolumeMember) (v : Volume) (p : VolumePool)
    → p.active_group ≡ some (pair id m)
    → lookup id p.local.volumes ≡ some v
    → v.end < p.local.max_volume_size
    → get_or_create_group saves p ≡ (p, ok (pair id m))
unfolding get_or_create_group has_room list_beq
reused saves id m v p active open' small =
    let room : ltb v.end p.local.max_volume_size ≡ true = ground (arith, small) in
    ap (λ g. choose_group saves g p) active ∙ rw (open', has_room) (rw room refl)

abbrev then_write : Env → Bytes → VolumePool × Result VolumeGroup → VolumePool × Result NeedleAddr
then_write e d q = elim q.1 [
  | err x ↦ (q.0, err x)
  | panic ↦ (q.0, panic)
  | ok g ↦ write_group e g d q.0
]

write-reused :
    (e : Env) (id : ℕ) (m : VolumeMember) (v : Volume) (d : Bytes) (p : VolumePool)
    → p.active_group ≡ some (pair id m)
    → lookup id p.local.volumes ≡ some v
    → v.end < p.local.max_volume_size
    → write e d p ≡ write_group e (pair id m) d p
unfolding write
write-reused e id m v d p active open' small =
    ap (then_write e d) (reused e.saves id m v p active open' small)

held-local :
    (id : ℕ) (v : Volume) (p : VolumePool)
    → lookup id p.local.volumes ≡ some v
    → held [] id p ≡ some v
unfolding manager_of list_beq volume_at
held-local id v p h = rw (h, volume_at) refl

-- The local manager behind a write that its replica missed.
local_after :
    (e : Env) (id : ℕ) (d : Bytes) (v : Volume) (p : VolumePool)
    → Works (e.trip [])
    → lookup id p.local.volumes ≡ some v
    → let vm = (write_to_member e local_member id d p).0.local in
      (lookup id vm.volumes ≡ some (Vol.write done done d v).0)
      × (vm.max_volume_size ≡ p.local.max_volume_size)
unfolding write_to_member list_beq
local_after e id d v p works h =
    rw (works.header, works.body) (lookup-write_to_volume done done id d v p.local h)

-- A Write to the active group, of the local manager and a server, that does not arrive at the
-- server returns an error, but the group stays the active one. The next Write succeeds in the
-- same group, and the server can never answer a read of the blob that it returned the address of,
-- whatever the trip of the read. The local volume of the group is open and its file is as long as
-- it says, the server held the same volume before, the first blob leaves it below its greatest
-- size, both fit into 64 bits, and no other call of the two writes fails.
pub read-write_missed :
    (id : ℕ) (m : VolumeMember) (v : Volume) (p : VolumePool) (e₁ e₂ : Env) (d₁ d₂ : Bytes)
    → id < 2 ^ 32
    → (m.server_url == []) ≡ false
    → p.active_group ≡ some (pair id m)
    → lookup id p.local.volumes ≡ some v
    → held m.server_url id p ≡ some v
    → v.end + 8 + length d₁ < p.local.max_volume_size
    → Works (e₁.trip [])
    → (e₁.trip m.server_url).arrives ≡ false
    → ((u : Bytes) → Works (e₂.trip u))
    → IsSynced v
    → v.end + 8 + length d₁ + 8 + length d₂ < u64
    → let (p₁, r₁) = write e₁ d₁ p in
      let (p₂, r₂) = write e₂ d₂ p₁ in
      (r₁ ≡ err unreachable)
      × (p₁.active_group ≡ some (pair id m))
      × ((a : NeedleAddr) × (r₂ ≡ ok a)
          × (a.volume_id ≡ id)
          × ((e : Env) (x : Bytes) → (read_from_member e m a p₂).1 ≢ ok x))
read-write_missed id m v p e₁ e₂ d₁ d₂ small remote active open' there below works lost works' whole
      room =
    let (failed, h, k, books, local) =
      missed id m v p small remote e₁ d₁ (held-local id v p open') there works lost in
    let p₁ = (write_group e₁ (pair id m) d₁ p).0 in
    let v' = (Vol.write done done d₁ v).0 in
    let z = write-end d₁ v in
    let stays : p₁.active_group ≡ some (pair id m) = books.active_group ∙ active in
    let (o, max) = local_after e₁ id d₁ v p works open' in
    let first = write-reused e₁ id m v d₁ p active open' (omega (arith, below)) in
    let second =
      write-reused e₂ id m v' d₂ p₁ stays (ap (λ vm. lookup id vm.volumes) local ∙ o) (
        omega
          (arith, z, room, below, max, ap (λ (vm : VolumeManager). vm.max_volume_size) local)) in
    rw first (
      failed,
      stays,
      rw second (
        at_end id m v' v p₁ small remote e₂ d₂ h k works',
        (uneven id m v' v p₁ small remote e₂ d₂ h k works').0,
        refl,
        λ e x.
            not_there id m v' v p₁ small remote e₂ d₂ h k works' (omega (arith, z, room))
              (omega (arith, z, room)) whole (omega (arith, room)) e x,
      ),
    )
