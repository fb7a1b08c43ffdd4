-- ===== src/Pool/Written.antt =====
-- What a write makes of a pool that keeps its invariant, where nothing fails.
use brisedb.Prelude.{
  ℕ, ◌+◌, ◌^◌, ◌<◌, ◌≤◌, ◌≡◌, refl, sym, ap, ◌∙◌, inl, inr, Bool, true, false, ◌&&◌, none, some,
  List, [], ◌∷◌, Bytes, length, if◌then◌else◌, ◌==◌, ==_iff, ==_refl, nat_eq, list_eq, Bool-cases,
  arith, subst,
}
use brisedb.Prelude.Assoc.{lookup}
use brisedb.Types.{Result, NeedleAddr, ok, u64}
use brisedb.File.{done}
use brisedb.Volume.{Volume}
use brisedb.Volume as Vol
use brisedb.Volume.Reads as Reads
use brisedb.Volume.Reads.{IsSynced}
use brisedb.Volume.Desync.{write-IsSynced}
use brisedb.Pool.{VolumeMember, VolumeGroup, VolumePool, Env, all_backends, get_or_create_group}
use brisedb.Pool.Transfer.{write, write_group}
use brisedb.Pool.Replicas.{Alike, has_url, Works, Wrote, write_group-Wrote, Alike-Wrote}
use brisedb.Pool.Failover.{Sendable}
use brisedb.Pool.Groups.{Group, Synced, get_or_create_group-Chosen}

-- The volumes after a write to one of them.
abbrev pub updated : (ℕ → Volume) → ℕ → Bytes → ℕ → Volume
updated vols id d j = if id == j then (Vol.write done done d (vols id)).0 else vols j

written_Alike :
    (ms : List VolumeMember) (on : Bytes → Bool) (id : ℕ) (v w : Volume) (p q : VolumePool)
    → Wrote on id w p q
    → ((u : Bytes) → has_url ms u ≡ true → on u ≡ true)
    → Alike ms id v p
    → Alike ms id w q
written_Alike [] on id v w p q t n h = tt
written_Alike (m ∷ ms) on id v w p q t n (h, hs) = (
  t.volumes m.server_url id ∙ ground (arith, n m.server_url, ==_refl m.server_url, ==_refl id),
  written_Alike ms on id v w p q t (λ u k. n u (ground (arith, k))) hs,
)

write-id : (d : Bytes) (v : Volume) → (Vol.write done done d v).0.id ≡ v.id
unfolding Vol.write
write-id d v = refl

module _ (vols : ℕ → Volume) (d : Bytes) (g : VolumeGroup) (p q : VolumePool) (s : Synced vols p)
    (registered : lookup g.id p.registry ≡ some g)
    (t : Wrote (has_url g.members) g.id (Vol.write done done d (vols g.id)).0 p q) where
  abbrev vols' : ℕ → Volume
  vols' = updated vols g.id d

  apart_id : (j : ℕ) (u : Bytes) → (g.id == j) ≡ false → has_url g.members u && (g.id == j) ≡ false
  apart_id j u h = ground (arith, h)

  written_Group : (j : ℕ) (h : VolumeGroup) → lookup j p.registry ≡ some h → Group h j (vols' j) q
  written_Group j h k =
      let b = s.groups j h k in
      record {
        named = b.named;
        alike = elim (Bool-cases (g.id == j)) [
          | inr other ↦ rw other (
              Alike-Wrote h.members (has_url g.members) g.id j (vols j)
                (Vol.write done done d (vols g.id)).0 p q t (λ u l. apart_id j u other) b.alike)
          | inl here ↦
              let w = (Vol.write done done d (vols g.id)).0 in
              let e : j ≡ g.id = sym ((==_iff g.id j).0 here) in
              let same : h ≡ g = ground (arith, k, registered, ap (λ i. lookup i p.registry) e) in
              rw here (
                rw (same, e)
                  (written_Alike g.members (has_url g.members) g.id (vols g.id) w p q t (λ u l. l)
                    (s.groups g.id g registered).alike))
        ];
        distinct = b.distinct;
        some_member = b.some_member;
      }

  other_id : (j : ℕ) → lookup j p.registry ≡ none → (g.id == j) ≡ false
  other_id j k = ground (arith, k, registered, ==_iff g.id j, ap (λ i. lookup i p.registry))

  later_id : (j : ℕ) → p.next_id ≤ j → (g.id == j) ≡ false
  later_id j k = ground (arith, k, s.below g.id g registered, ==_iff g.id j)

  written-Synced : (vols g.id).end + (8 + length d) < u64 → Synced vols' q
  written-Synced room = record {
    groups = λ j h k. written_Group j h (ap (lookup j) (sym t.books.registry) ∙ k);
    below = λ j h k. rw t.books.next_id (s.below j h (ap (lookup j) (sym t.books.registry) ∙ k));
    unregistered = λ j k.
        let n = ap (lookup j) (sym t.books.registry) ∙ k in
        t.volumes [] j ∙ rw (other_id j n) (ground (arith, s.unregistered j n));
    fresh = λ j k.
        let n = rw t.books.next_id at k in
        rw (t.books.backends, later_id j n)
          (Alike-Wrote (all_backends p) (has_url g.members) g.id j (vols j)
            (Vol.write done done d (vols g.id)).0 p q t (λ u l. apart_id j u (later_id j n))
            (s.fresh j n));
    active = λ h k. ap (lookup h.id) t.books.registry ∙ s.active h (sym t.books.active_group ∙ k);
    whole = λ j. elim (Bool-cases (g.id == j)) [
      | inl here ↦ rw here (write-IsSynced d (vols g.id) (s.whole g.id) room)
      | inr other ↦ rw other (s.whole j)
    ];
    named = λ j. elim (Bool-cases (g.id == j)) [
      | inl here ↦ rw here (write-id d (vols g.id) ∙ s.named g.id ∙ (==_iff g.id j).0 here)
      | inr other ↦ rw other (s.named j)
    ];
    urls = rw t.books.backends s.urls;
    factor = rw t.books.replication_factor s.factor;
  }

-- What a write that nothing fails in promises: the invariant, and one volume with the blob at its end.
pub record Stored (vols : ℕ → Volume) (d : Bytes) (p : VolumePool)
    (q : VolumePool × Result NeedleAddr) : Type 0 where
  pub address : NeedleAddr
  pub volumes : ℕ → Volume
  pub result : q.1 ≡ ok address
  pub synced : Synced volumes q.0
  pub sendable : Sendable address
  pub found : Vol.read address (volumes address.volume_id) ≡ ok d
  pub old :
      (b : NeedleAddr) (x : Bytes)
      → Vol.read b (vols b.volume_id) ≡ ok x
      → Vol.read b (volumes b.volume_id) ≡ ok x
  pub kept :
      (id : ℕ) (g : VolumeGroup) → lookup id p.registry ≡ some g → lookup id q.0.registry ≡ some g
  pub cache : q.0.cache ≡ p.cache

pub stored_at :
    (d : Bytes) (v : Volume)
    → (Vol.write done done d v).1
      ≡ ok (record { volume_id = v.id; offset = v.end; size = length d })
unfolding Vol.write
stored_at d v = refl

-- The number of a volume plays no part in a read of it.
stored_read :
    (d : Bytes) (v : Volume) (i : ℕ)
    → IsSynced v
    → length d < 2 ^ 64
    → Vol.read
        (record { volume_id = i; offset = v.end; size = length d })
        (Vol.write done done d v).0
      ≡ ok d
unfolding Vol.write
stored_read d v i s small =
    let w = (Vol.write done done d v).0 in
    subst (λ n. Vol.read (record { volume_id = i; offset = n; size = length d }) w ≡ ok d)
      (sym s.synced) (Reads.read_blob v.file d w i refl small)

write_group-Stored :
    (vols : ℕ → Volume) (e : Env) (d : Bytes) (g : VolumeGroup) (p : VolumePool)
    → Synced vols p
    → lookup g.id p.registry ≡ some g
    → ((u : Bytes) → Works (e.trip u))
    → p.next_id < 2 ^ 32
    → (vols g.id).end + (8 + length d) < u64
    → Stored vols d p (write_group e g d p)
write_group-Stored vols e d g p s registered works small room =
    let b = s.groups g.id g registered in
    let v = vols g.id in
    let a : NeedleAddr = record { volume_id = v.id; offset = v.end; size = length d } in
    let below = s.below g.id g registered in
    let (r, t) =
      write_group-Wrote e works g.id (omega (arith, below, small)) d v a (stored_at d v) g.members p
        b.distinct b.alike b.some_member in
    let q = (write_group e g d p).0 in
    record {
      address = record { volume_id = g.id; offset = a.offset; size = a.size };
      volumes = updated vols g.id d;
      result = r;
      synced = written-Synced vols d g p q s registered t room;
      sendable = record {
        volume_id = omega (arith, below, small);
        offset = omega (arith, (s.whole g.id).fits);
        size = omega (arith, room);
      };
      found = rw (==_refl g.id) (stored_read d v g.id (s.whole g.id) (omega (arith, room)));
      old = λ c x h. elim (Bool-cases (g.id == c.volume_id)) [
        | inr other ↦ rw other h
        | inl here ↦ rw here (
            Reads.read-write_old done done d (vols g.id) c
              (rw ((==_iff g.id c.volume_id).0 here) h))
      ];
      kept = λ id h k. ap (lookup id) t.books.registry ∙ k;
      cache = t.books.cache;
    }

write_chosen :
    (e : Env) (d : Bytes) (p : VolumePool) (g : VolumeGroup)
    → (get_or_create_group e.saves p).1 ≡ ok g
    → write e d p ≡ write_group e g d (get_or_create_group e.saves p).0
unfolding write
write_chosen e d p g h = rw (h, write) refl

-- A write that nothing fails in, to a pool whose members hold the same volumes, succeeds and leaves
-- them so, with the blob in one of them, and every blob that was there.
pub write-Stored :
    (vols : ℕ → Volume) (e : Env) (d : Bytes) (p : VolumePool)
    → Synced vols p
    → e.saves ≡ true
    → ((u : Bytes) → Works (e.trip u))
    → p.next_id + 2 < 2 ^ 32
    → ((id : ℕ) → (vols id).end + (8 + length d) < u64)
    → Stored vols d p (write e d p)
write-Stored vols e d p s saved works small room =
    let c = get_or_create_group-Chosen vols e.saves p s saved (omega (arith, small)) in
    let p₁ = (get_or_create_group e.saves p).0 in
    let k =
      write_group-Stored vols e d c.group p₁ c.synced c.registered works
        (omega (arith, c.next, small)) (room c.group.id) in
    subst (Stored vols d p) (sym (write_chosen e d p c.group c.result)) (record {
      address = k.address;
      volumes = k.volumes;
      result = k.result;
      synced = k.synced;
      sendable = k.sendable;
      found = k.found;
      old = k.old;
      kept = λ id g h. k.kept id g (c.kept id g h);
      cache = k.cache ∙ c.cache;
    })
