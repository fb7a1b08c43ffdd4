-- ===== src/Volumes/Rotation.antt =====
-- What is read back from several drives.
use brisedb.Prelude.{
  ℕ, ◌+◌, ◌%◌, ◌^◌, ◌<◌, ◌≡◌, ◌≢◌, refl, sym, ap, ◌∙◌, inl, inr, ◌⊎◌, true, false, none, some, [],
  Bytes, length, get_or, if◌then◌else◌, leb, ◌==◌, ==_iff, ==_refl, nat_eq, Bool-cases,
  Option-cases, arith,
}
use brisedb.Prelude.Assoc.{lookup, lookup-insert}
use brisedb.Types.{NeedleAddr, ok, err, no_volume}
use brisedb.File.{done}
use brisedb.Volume.{Volume, open_volume}
use brisedb.Volume as Vol
use brisedb.Volume.Reads as Reads
use brisedb.Volume.Reads.{IsSynced}
use brisedb.Volumes.{
  VolumeManager, file_of, create_volume, end_of, write_into, next_volume, put_volume, write, read,
}

-- Each drive has an open volume, the next number is not in use, and each volume goes by its number
-- and agrees with its file.
pub record IsValid (vm : VolumeManager) : Type 0 where
  pub some_drive : 0 < vm.drives
  pub current :
      (i : ℕ)
      → i < vm.drives
      → (v : Volume) × (lookup (get_or vm.drive_current i 0) vm.volumes ≡ some v)
  pub unused : lookup vm.next_id vm.volumes ≡ none
  pub new_file : lookup vm.next_id vm.stored ≡ none
  pub synced : (id : ℕ) (v : Volume) → lookup id vm.volumes ≡ some v → IsSynced v × (v.id ≡ id)

-- A volume that was there stays, and what was stored stays.
record Grows (vm vm' : VolumeManager) : Type 0 where
  keeps : (id : ℕ) (v : Volume) → lookup id vm.volumes ≡ some v → lookup id vm'.volumes ≡ some v
  stores : vm'.stored ≡ vm.stored
  opens :
      (id : ℕ)
      → lookup id vm.volumes ≡ none
      → lookup id vm.stored ≢ none
      → lookup id vm'.volumes ≡ none

abbrev turned : VolumeManager → VolumeManager
turned vm = record vm { drive_idx = vm.drive_idx + 1 }

next_volume-cases :
    (vm : VolumeManager)
    → let di = vm.drive_idx % vm.drives in
      (next_volume vm ≡ (create_volume di (turned vm), vm.next_id))
      ⊎ (next_volume vm ≡ (turned vm, get_or vm.drive_current di 0))
unfolding next_volume
next_volume-cases vm =
    elim (Bool-cases
      (leb vm.max_volume_size (end_of (get_or vm.drive_current (vm.drive_idx % vm.drives) 0) vm))) [
        | inl full ↦ inl (rw (full, next_volume) refl)
        | inr room ↦ inr (rw (room, next_volume) refl)
      ]

-- The volume that a write goes to.
record Target (vm vm₁ : VolumeManager) (id : ℕ) : Type 0 where
  volume : Volume
  found : lookup id vm₁.volumes ≡ some volume
  synced : IsSynced volume
  named : volume.id ≡ id
  grows : Grows vm vm₁

fresh-IsSynced : (id : ℕ) → IsSynced (open_volume id [])
unfolding open_volume
fresh-IsSynced id = record { synced = refl; fits = omega arith }

create_volume-Target :
    (vm : VolumeManager) (di : ℕ) → IsValid vm → Target vm (create_volume di (turned vm)) vm.next_id
unfolding create_volume file_of open_volume
create_volume-Target vm di s =
    let n = vm.next_id in
    let v = open_volume n (file_of n vm) in
    record {
      volume = open_volume n [];
      found = lookup-insert n n v vm.volumes ∙ ground (arith, ==_refl n, s.new_file);
      synced = fresh-IsSynced n;
      named = refl;
      grows = record {
        keeps = λ id w h.
            lookup-insert n id v vm.volumes
            ∙ ground (arith, h, s.unused, ==_iff n id, ap (λ i. lookup i vm.volumes));
        stores = refl;
        opens = λ id h f.
            lookup-insert n id v vm.volumes
            ∙ ground (arith, h, f, s.new_file, ==_iff n id, ap (λ i. lookup i vm.stored));
      };
    }

next_volume-Target :
    (vm : VolumeManager) → IsValid vm → Target vm (next_volume vm).0 (next_volume vm).1
next_volume-Target vm s = elim (next_volume-cases vm) [
  | inl e ↦ rw e (create_volume-Target vm (vm.drive_idx % vm.drives) s)
  | inr e ↦
      let di = vm.drive_idx % vm.drives in
      let (v, h) = s.current di (omega (arith, s.some_drive)) in
      let (y, n) = s.synced (get_or vm.drive_current di 0) v h in
      rw e (record {
        volume = v;
        found = h;
        synced = y;
        named = n;
        grows = record { keeps = λ id w g. g; stores = refl; opens = λ id g f. g };
      })
]

write-volume_id :
    (d : Bytes) (v : Volume) (a : NeedleAddr)
    → (Vol.write done done d v).1 ≡ ok a
    → a.volume_id ≡ v.id
unfolding Vol.write Vol.finish
write-volume_id d v a h = ground (arith, h)

write-Target :
    (d : Bytes) (vm : VolumeManager) (t : Target vm (next_volume vm).0 (next_volume vm).1)
    → write done done d vm
      ≡ put_volume (next_volume vm).1 (next_volume vm).0 (Vol.write done done d t.volume)
unfolding write write_into
write-Target d vm t = rw (t.found, write_into) refl

-- What the manager reads of an address is what the volume does that has its number.
read-loaded :
    (b : NeedleAddr) (vm : VolumeManager) (v : Volume)
    → lookup b.volume_id vm.volumes ≡ some v
    → (read b vm).1 ≡ Vol.read b v
unfolding read
read-loaded b vm v h = rw (h, read) refl

read-stored :
    (b : NeedleAddr) (vm : VolumeManager) (f : Bytes)
    → lookup b.volume_id vm.volumes ≡ none
    → lookup b.volume_id vm.stored ≡ some f
    → (read b vm).1 ≡ Vol.read b (open_volume b.volume_id f)
unfolding read
read-stored b vm f h g = rw (h, read) (rw (g, read) refl)

read-missing :
    (b : NeedleAddr) (vm : VolumeManager)
    → lookup b.volume_id vm.volumes ≡ none
    → lookup b.volume_id vm.stored ≡ none
    → (read b vm).1 ≡ err no_volume
unfolding read
read-missing b vm h g = rw (h, read) (rw (g, read) refl)

module _ (d : Bytes) (vm : VolumeManager)
    (t : Target vm (next_volume vm).0 (next_volume vm).1) where
  abbrev id : ℕ
  id = (next_volume vm).1

  abbrev after : VolumeManager
  after = (put_volume id (next_volume vm).0 (Vol.write done done d t.volume)).0

  after-lookup :
      (j : ℕ)
      → lookup j after.volumes ≡ (
          if id == j
          then some (Vol.write done done d t.volume).0
          else lookup j (next_volume vm).0.volumes)
  after-lookup j = lookup-insert id j (Vol.write done done d t.volume).0 (next_volume vm).0.volumes

  read-kept : (b : NeedleAddr) (x : Bytes) → (read b vm).1 ≡ ok x → (read b after).1 ≡ ok x
  read-kept b x h = elim (Option-cases (lookup b.volume_id vm.volumes)) [
    | inr (v, g) ↦
        let r : Vol.read b v ≡ ok x = sym (read-loaded b vm v g) ∙ h in
        let g₁ = t.grows.keeps b.volume_id v g in
        elim (Bool-cases (id == b.volume_id)) [
          | inr other ↦ read-loaded b after v (after-lookup b.volume_id ∙ rw other g₁) ∙ r
          | inl same ↦
              let e : t.volume ≡ v = ground (
                arith,
                t.found,
                g₁,
                (==_iff id b.volume_id).0 same,
                ap (λ i. lookup i (next_volume vm).0.volumes),
              ) in
              read-loaded b after (Vol.write done done d t.volume).0
                (after-lookup b.volume_id ∙ rw same refl)
              ∙ Reads.read-write_old done done d t.volume b (rw e r)
        ]
    | inl g ↦ elim (Option-cases (lookup b.volume_id vm.stored)) [
      | inl f ↦ absurd (ground (arith, h, read-missing b vm g f))
      | inr (f, e) ↦
          let g₁ = t.grows.opens b.volume_id g (λ n. ground (arith, n, e)) in
          let other : (id == b.volume_id) ≡ false = ground (
            arith,
            t.found,
            g₁,
            ==_iff id b.volume_id,
            ap (λ i. lookup i (next_volume vm).0.volumes),
          ) in
          read-stored b after f (after-lookup b.volume_id ∙ rw other g₁)
            (ap (lookup b.volume_id) t.grows.stores ∙ e)
          ∙ sym (read-stored b vm f g e)
          ∙ h
    ]
  ]

  read-new :
      length d < 2 ^ 64
      → (a : NeedleAddr) × ((put_volume id (next_volume vm).0 (Vol.write done done d t.volume)).1
          ≡ ok a)
        × ((read a after).1 ≡ ok d)
  read-new small =
      let (a, w, r) = Reads.read-write d t.volume t.synced small in
      let same : (id == a.volume_id) ≡ true =
        ground (arith, ==_iff id a.volume_id, t.named, write-volume_id d t.volume a w) in
      (
        a,
        w,
        read-loaded a after (Vol.write done done d t.volume).0
              (after-lookup a.volume_id ∙ rw same refl)
            ∙ r,
      )

-- A blob that the manager writes, to whatever drive and volume, is read back under the address that
-- it returns, and every address that could be read before is read as before; given a valid manager
-- and a length in 64 bits.
pub read-write_manager :
    (d : Bytes) (vm : VolumeManager)
    → IsValid vm
    → length d < 2 ^ 64
    → let (vm', r) = write done done d vm in
      (a : NeedleAddr) × (r ≡ ok a)
      × ((read a vm').1 ≡ ok d)
      × ((b : NeedleAddr) (x : Bytes) → (read b vm).1 ≡ ok x → (read b vm').1 ≡ ok x)
read-write_manager d vm s small =
    let t = next_volume-Target vm s in
    let (a, w, r) = read-new d vm t small in rw (write-Target d vm t) (a, w, r, read-kept d vm t)
