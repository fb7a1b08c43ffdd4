-- ===== src/Volumes/Contents.antt =====
-- What a manager holds under each number, opened or not, and what its operations on a number make
-- of it.
use brisedb.Prelude.{
  ℕ, ◌≡◌, ◌↔◌, ◌≢◌, refl, ap, ◌∙◌, inl, inr, none, some, [], Bytes, if◌then◌else◌, ◌==◌, ==_iff,
  ==_refl, nat_eq, Option-cases, arith,
}
use brisedb.Prelude.Assoc.{lookup, insert, lookup-insert}
use brisedb.Types.{NeedleAddr, ok, Result}
use brisedb.File.{Outcome}
use brisedb.Volume.{Volume, open_volume}
use brisedb.Volume as Vol
use brisedb.Volume.Reads.{inside}
use brisedb.Volumes.{
  VolumeManager, file_of, raised, ensure_volume, write_into, write_to_volume, put_volume, read,
}

unfoldable pub volume_at : ℕ → VolumeManager → Volume
volume_at id vm = elim (lookup id vm.volumes) [ some v ↦ v | none ↦ open_volume id (file_of id vm) ]

volume_at-loaded :
    (id : ℕ) (v : Volume) (vm : VolumeManager) → lookup id vm.volumes ≡ some v → volume_at id vm ≡ v
unfolding volume_at
volume_at-loaded id v vm h = rw (h, volume_at) refl

volume_at-file :
    (id : ℕ) (vm : VolumeManager)
    → lookup id vm.volumes ≡ none
    → volume_at id vm ≡ open_volume id (file_of id vm)
unfolding volume_at
volume_at-file id vm h = rw (h, volume_at) refl

file_of-stored :
    (id : ℕ) (f : Bytes) (vm : VolumeManager) → lookup id vm.stored ≡ some f → file_of id vm ≡ f
unfolding file_of
file_of-stored id f vm h = rw (h, file_of) refl

file_of-new : (id : ℕ) (vm : VolumeManager) → lookup id vm.stored ≡ none → file_of id vm ≡ []
unfolding file_of
file_of-new id vm h = rw (h, file_of) refl

-- The manager after a volume was put under a number.
abbrev put_at : ℕ → Volume → ℕ → VolumeManager → VolumeManager
put_at id v next vm = record vm { volumes = insert id v vm.volumes; next_id = next }

volume_at-put_at :
    (id j : ℕ) (v : Volume) (next : ℕ) (vm : VolumeManager)
    → volume_at j (put_at id v next vm) ≡ (if id == j then v else volume_at j vm)
unfolding volume_at file_of
volume_at-put_at id j v next vm = ground (arith, lookup-insert id j v vm.volumes)

put_volume-At :
    (id j : ℕ) (vm : VolumeManager) (w : Volume × Result NeedleAddr)
    → volume_at j (put_volume id vm w).0 ≡ (if id == j then w.0 else volume_at j vm)
put_volume-At id j vm (v, r) = volume_at-put_at id j v vm.next_id vm

put_volume-result :
    (id : ℕ) (vm : VolumeManager) (w : Volume × Result NeedleAddr) → (put_volume id vm w).1 ≡ w.1
put_volume-result id vm (v, r) = refl

write_into-put_at :
    (o₁ o₂ : Outcome) (id : ℕ) (d : Bytes) (v : Volume) (next : ℕ) (vm : VolumeManager)
    → write_into o₁ o₂ d id (put_at id v next vm)
      ≡ put_volume id (put_at id v next vm) (Vol.write o₁ o₂ d v)
unfolding write_into
write_into-put_at o₁ o₂ id d v next vm =
    rw (lookup-insert id id v vm.volumes, ==_refl id, write_into) refl

-- A write to a number writes to the volume of that number, and to no other.
pub volume_at-write_to_volume :
    (o₁ o₂ : Outcome) (id : ℕ) (d : Bytes) (vm : VolumeManager)
    → let (w, r) = Vol.write o₁ o₂ d (volume_at id vm) in
      ((write_to_volume o₁ o₂ id d vm).1 ≡ r)
      × ((j : ℕ)
          → volume_at j (write_to_volume o₁ o₂ id d vm).0 ≡ (if id == j then w else volume_at j vm))
unfolding write_to_volume
volume_at-write_to_volume o₁ o₂ id d vm = elim (Option-cases (lookup id vm.volumes)) [
  | inr (v, h) ↦
      rw (h, volume_at-loaded id v vm h, write_to_volume)
        (
          put_volume-result id vm (Vol.write o₁ o₂ d v),
          λ j. put_volume-At id j vm (Vol.write o₁ o₂ d v),
        )
  | inl h ↦
      let v = open_volume id (file_of id vm) in
      let next = raised id vm.next_id in
      rw (h, volume_at-file id vm h, write_to_volume)
        (rw (write_into-put_at o₁ o₂ id d v next vm) (
          put_volume-result id (put_at id v next vm) (Vol.write o₁ o₂ d v),
          λ j.
              put_volume-At id j (put_at id v next vm) (Vol.write o₁ o₂ d v)
              ∙ ground (arith, volume_at-put_at id j v next vm),
        ))
]

-- A read opens a volume at most.
pub volume_at-read :
    (b : NeedleAddr) (j : ℕ) (vm : VolumeManager) → volume_at j (read b vm).0 ≡ volume_at j vm
unfolding read ensure_volume
volume_at-read b j vm = elim (Option-cases (lookup b.volume_id vm.volumes)) [
  | inr (v, h) ↦ rw (h, read) refl
  | inl h ↦ elim (Option-cases (lookup b.volume_id vm.stored)) [
    | inl g ↦ rw (h, read) (rw (g, read) refl)
    | inr (f, g) ↦
        let v = open_volume b.volume_id f in
        rw (h, g, read)
          (rw (h, ensure_volume)
            (rw g (
              volume_at-put_at b.volume_id j v (raised b.volume_id vm.next_id) vm
              ∙ ground (
                arith,
                volume_at-file b.volume_id vm h,
                file_of-stored b.volume_id f vm g,
                ==_iff b.volume_id j,
                ap (λ i. volume_at i vm),
              ))))
  ]
]

pub nothing_read : (b : NeedleAddr) (id : ℕ) (x : Bytes) → Vol.read b (open_volume id []) ≢ ok x
unfolding open_volume
nothing_read b id x e = omega (arith, inside b (open_volume id []) e)

-- A read of a manager is a read of the volume that it holds under that number.
pub read-volume_at :
    (b : NeedleAddr) (vm : VolumeManager) (x : Bytes)
    → ((read b vm).1 ≡ ok x) ↔ (Vol.read b (volume_at b.volume_id vm) ≡ ok x)
unfolding read
read-volume_at b vm x = elim (Option-cases (lookup b.volume_id vm.volumes)) [
  | inr (v, h) ↦ rw (h, volume_at-loaded b.volume_id v vm h, read) (λ e. e, λ e. e)
  | inl h ↦ elim (Option-cases (lookup b.volume_id vm.stored)) [
    | inl g ↦
        rw (h, volume_at-file b.volume_id vm h, file_of-new b.volume_id vm g, read)
          (rw g (λ e. absurd (ground (arith, e)), λ e. absurd (nothing_read b b.volume_id x e)))
    | inr (f, g) ↦
        rw (h, volume_at-file b.volume_id vm h, file_of-stored b.volume_id f vm g, read)
          (rw g (λ e. e, λ e. e))
  ]
]
