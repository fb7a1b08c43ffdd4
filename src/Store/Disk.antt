-- ===== src/Store/Disk.antt =====
-- The hash index and a volume fill the interface of the session.
use brisedb.Prelude.{
  ℕ, ◌+◌, ◌<◌, ◌≡◌, refl, sym, ap, ◌∙◌, subst, Option, none, some, Bool, true, false, List, [],
  Bytes, length, if◌then◌else◌, ◌==◌, nat_eq, list_eq, arith,
}
use brisedb.Types.{NeedleAddr, Result, ok, err, panic, u64}
use brisedb.File.{Outcome, done, fails}
use brisedb.Volume.{Volume}
use brisedb.Volume as Vol
use brisedb.Volume.Reads as Reads
use brisedb.Volume.Reads.{IsSynced}
use brisedb.Volume.Desync.{write-IsSynced}
use brisedb.HashIndex.{HashIndex, set_key, delete_key}
use brisedb.HashIndex as Index
use brisedb.HashIndex.Open.{for_each}
use brisedb.HashIndex.Format.{Entry}
use brisedb.HashIndex.Chain.{IsValid}
use brisedb.HashIndex.Append.{Room}
use brisedb.HashIndex.Writes.{set_entry, tombstone, get-set_key, get-delete_key, set_key-IsValid}
use brisedb.Store.{Store, Laws}

-- The index and a volume.
abbrev pub Disk : Type 0
Disk = HashIndex × Volume

abbrev pub found : Option (Option (NeedleAddr × ℕ)) → Option (NeedleAddr × ℕ)
found none = none
found (some x) = x

abbrev pub with_index : Disk → HashIndex × Result (Unit {0}) → Disk × Result (Unit {0})
with_index d r = ((r.0, d.1), r.1)

abbrev pub with_volume : Disk → Volume × Result NeedleAddr → Disk × Result NeedleAddr
with_volume d r = ((d.0, r.0), r.1)

-- What ForEach passes on; here nothing where it fails.
abbrev pub passed_on : Result (List (Bytes × NeedleAddr × ℕ)) → List (Bytes × NeedleAddr × ℕ)
passed_on (ok l) = l
passed_on (err e) = []
passed_on panic = []

abbrev pub disk : Store
disk = record {
  State = Disk;
  Env = Outcome × Outcome;
  index_get = λ k d. found (Index.get d.0 k);
  index_set = λ o k a x d. with_index d (set_key o.0 o.1 k a x d.0);
  index_delete = λ o k d. with_index d (delete_key o.0 o.1 k d.0);
  live = λ now d. passed_on (for_each now d.0);
  write = λ o b d. with_volume d (Vol.write o.0 o.1 b d.1);
  read = λ a d. Vol.read a d.1;
}

set_key-ok :
    (o₁ o₂ : Outcome) (k : Bytes) (a : NeedleAddr) (x : ℕ) (hi : HashIndex)
    → (set_key o₁ o₂ k a x hi).1 ≡ ok tt
    → o₁ ≡ done
unfolding set_key Index.append_entry
set_key-ok done o₂ k a x hi h = refl
set_key-ok (fails n) o₂ k a x hi h = absurd (ground (arith, h))

delete_key-ok :
    (o₁ o₂ : Outcome) (k : Bytes) (hi : HashIndex) → (delete_key o₁ o₂ k hi).1 ≡ ok tt → o₁ ≡ done
unfolding delete_key Index.append_entry
delete_key-ok done o₂ k hi h = refl
delete_key-ok (fails n) o₂ k hi h = absurd (ground (arith, h))

write-ok :
    (o₁ o₂ : Outcome) (b : Bytes) (v : Volume) (a : NeedleAddr)
    → (Vol.write o₁ o₂ b v).1 ≡ ok a
    → (o₁ ≡ done) × (o₂ ≡ done)
unfolding Vol.write
write-ok done done b v a h = (refl, refl)
write-ok (fails n) o₂ b v a h = absurd (ground (arith, h))
write-ok done (fails n) b v a h = absurd (ground (arith, h))

ok_inj : (a b : NeedleAddr) → ok a ≡ ok b → a ≡ b
ok_inj a b h = ground (arith, h)

found-if :
    (b : Bool) (x y : Option (Option (NeedleAddr × ℕ)))
    → found (if b then x else y) ≡ (if b then found x else found y)
found-if true x y = refl
found-if false x y = refl

abbrev pub IndexValid : HashIndex → Type 0
IndexValid hi = (chains : ℕ → List Entry) × IsValid hi chains

abbrev pub DiskValid : Disk → Type 0
DiskValid d = IndexValid d.0 × IsSynced d.1

pub index_get-set :
    (o : Outcome × Outcome) (k : Bytes) (a : NeedleAddr) (x : ℕ) (hi : HashIndex) (j : Bytes)
    → IndexValid hi
    → Room hi (set_entry k a x)
    → (set_key o.0 o.1 k a x hi).1 ≡ ok tt
    → found (Index.get (set_key o.0 o.1 k a x hi).0 j)
      ≡ (if k == j then some (a, x) else found (Index.get hi j))
index_get-set (o₁, o₂) k a x hi j (c, v) m h =
    let e = set_key-ok o₁ o₂ k a x hi h in
    rw e (
      ap found (get-set_key hi c v o₂ k a x j m)
      ∙ found-if (k == j) (some (some (a, x))) (Index.get hi j))

pub index_get-delete :
    (o : Outcome × Outcome) (k : Bytes) (hi : HashIndex) (j : Bytes)
    → IndexValid hi
    → Room hi (tombstone k)
    → (delete_key o.0 o.1 k hi).1 ≡ ok tt
    → found (Index.get (delete_key o.0 o.1 k hi).0 j)
      ≡ (if k == j then none else found (Index.get hi j))
index_get-delete (o₁, o₂) k hi j (c, v) m h =
    let e = delete_key-ok o₁ o₂ k hi h in
    rw e
      (ap found (get-delete_key hi c v o₂ k j m) ∙ found-if (k == j) (some none) (Index.get hi j))

pub volume_read-write :
    (o : Outcome × Outcome) (b : Bytes) (v : Volume) (a : NeedleAddr)
    → IsSynced v
    → v.end + (8 + length b) < u64
    → (Vol.write o.0 o.1 b v).1 ≡ ok a
    → Vol.read a (Vol.write o.0 o.1 b v).0 ≡ ok b
volume_read-write (o₁, o₂) b v a s room h =
    let (e₁, e₂) = write-ok o₁ o₂ b v a h in
    let (a', w, r) = Reads.read-write b v s (omega arith) in
    rw (e₁, e₂)
      (subst (λ c. Vol.read c (Vol.write done done b v).0 ≡ ok b)
        (ok_inj a' a (sym w ∙ rw (e₁, e₂) at h)) r)

pub volume_write-IsSynced :
    (o : Outcome × Outcome) (b : Bytes) (v : Volume) (a : NeedleAddr)
    → IsSynced v
    → v.end + (8 + length b) < u64
    → (Vol.write o.0 o.1 b v).1 ≡ ok a
    → IsSynced (Vol.write o.0 o.1 b v).0
volume_write-IsSynced (o₁, o₂) b v a s room h =
    let (e₁, e₂) = write-ok o₁ o₂ b v a h in rw (e₁, e₂) (write-IsSynced b v s room)

-- The hash index and a volume keep every law of the interface.
unfoldable pub disk_laws : Laws disk
disk_laws = record {
  Valid = DiskValid;
  Fits = λ d k a x. Room d.0 (set_entry k a x) × Room d.0 (tombstone k);
  Space = λ d b. d.1.end + (8 + length b) < u64;
  get-set = λ o k a x d j v f h. index_get-set o k a x d.0 j v.0 f.0 h;
  get-delete = λ o k d j v f h. index_get-delete o k d.0 j v.0 f.1 h;
  get-write = λ o b d j. refl;
  read-set = λ o k a x d b. refl;
  read-delete = λ o k d b. refl;
  read-write = λ o b d a v s h. volume_read-write o b d.1 a v.1 s h;
  read-write_old = λ o b d a x h. Reads.read-write_old o.0 o.1 b d.1 a h;
  write-Valid = λ o b d a v s h. (v.0, volume_write-IsSynced o b d.1 a v.1 s h);
  set-Valid = λ o k a x d v f. (set_key-IsValid d.0 v.0.0 v.0.1 k o.0 o.1 a x f.0, v.1);
}

-- A blob that can be read has the size of its address.
pub disk_sized : (a : NeedleAddr) (d : Disk) (b : Bytes) → disk.read a d ≡ ok b → length b ≡ a.size
disk_sized a d b h = Reads.length-read a d.1 b h
