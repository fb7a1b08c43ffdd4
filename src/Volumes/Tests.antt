-- ===== src/Volumes/Tests.antt =====
-- Runs of the manager on two drives, the first of which has a full volume.
use brisedb.Prelude.{
  ℕ, zero, suc, ◌<◌, ◌≡◌, refl, sym, inl, inr, Bool-cases, some, [], ◌∷◌, Bytes, get_or, arith,
  ==_iff, nat_eq, ◌==◌,
}
use brisedb.Prelude.Assoc.{lookup}
use brisedb.Types.{NeedleAddr, ok}
use brisedb.File.{done}
use brisedb.Volume.{Volume}
use brisedb.Volume.Reads.{IsSynced}
use brisedb.Volumes.{VolumeManager, write, read}
use brisedb.Volumes.Rotation.{IsValid, read-write_manager}

abbrev one : Volume
one = record { id = 1; file = 0 ∷ []; end = 1 }

abbrev two : Volume
two = record { id = 2; file = []; end = 0 }

abbrev manager : VolumeManager
manager = record {
  drives = 2;
  stored = [];
  volumes = (1, one) ∷ (2, two) ∷ [];
  drive_current = 1 ∷ 2 ∷ [];
  drive_idx = 0;
  next_id = 3;
  max_volume_size = 1;
}

manager-current :
    (i : ℕ)
    → i < 2
    → (v : Volume) × (lookup (get_or manager.drive_current i 0) manager.volumes ≡ some v)
unfolding get_or lookup
manager-current zero h = (one, refl)
manager-current (suc zero) h = (two, refl)
manager-current (suc (suc i)) h = absurd (omega arith)

manager-IsSynced :
    (id : ℕ) (v : Volume) → lookup id manager.volumes ≡ some v → IsSynced v × (v.id ≡ id)
unfolding lookup
manager-IsSynced id v h = elim (Bool-cases (one.id == id)) [
  | inl first ↦
      let e : one ≡ v = ground (arith, h, first) in
      rw (sym e) (record { synced = refl; fits = omega arith }, (==_iff one.id id).0 first)
  | inr rest ↦ elim (Bool-cases (two.id == id)) [
    | inl second ↦
        let e : two ≡ v = ground (arith, h, rest, second) in
        rw (sym e) (record { synced = refl; fits = omega arith }, (==_iff two.id id).0 second)
    | inr last ↦ absurd (ground (arith, h, rest, last))
  ]
]

manager-IsValid : IsValid manager
unfolding lookup
manager-IsValid = record {
  some_drive = omega arith;
  current = manager-current;
  unused = refl;
  new_file = refl;
  synced = manager-IsSynced;
}

read-write_manager_example :
    let (vm', r) = write done done (7 ∷ []) manager in
    (a : NeedleAddr) × (r ≡ ok a)
    × ((read a vm').1 ≡ ok (7 ∷ []))
    × ((b : NeedleAddr) (x : Bytes) → (read b manager).1 ≡ ok x → (read b vm').1 ≡ ok x)
read-write_manager_example = read-write_manager (7 ∷ []) manager manager-IsValid (omega arith)
