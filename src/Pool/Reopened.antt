-- ===== src/Pool/Reopened.antt =====
-- newVolumePool on what Close saved: the groups come back, and new groups get new numbers.
use brisedb.Prelude.{
  ℕ, ◌+◌, ◌^◌, ◌<◌, ◌≡◌, ◌⊎◌, refl, sym, ap, ◌∙◌, inl, inr, true, none, some, [], ◌∷◌, Bytes,
  if◌then◌else◌, ltb, ◌==◌, ==_iff, ==_refl, nat_eq, Bool-cases, Option-cases, arith, subst,
}
use brisedb.Prelude.Assoc.{Assoc, lookup, insert, lookup-insert, Unique}
use brisedb.Types.{ok}
use brisedb.Volume.{Volume}
use brisedb.Lru.{new_cache}
use brisedb.Volumes.{VolumeManager, raised}
use brisedb.Pool.{
  VolumeGroup, VolumePool, load_groups, load_registry, register_local, register_locals,
  new_volume_pool, save_registry, close, local_member,
}

-- Each group goes by its number.
abbrev pub Named : Assoc ℕ VolumeGroup → Type 0
Named reg = (id : ℕ) (g : VolumeGroup) → lookup id reg ≡ some g → g.id ≡ id

-- Numbers whose successors are in 32 bits.
abbrev pub Small : {V : Type 0} → Assoc ℕ V → Type 0
Small [] = Unit
Small ((id, v) ∷ m) = (id + 1 < 2 ^ 32) × Small m

-- Every number in use is below the next one.
abbrev pub Below : VolumePool → Type 0
Below p = (id : ℕ) (g : VolumeGroup) → lookup id p.registry ≡ some g → id < p.next_id

abbrev with_group : ℕ → VolumeGroup → VolumePool → VolumePool
with_group id g p = record p { registry = insert id g p.registry; next_id = raised id p.next_id }

with_group-Below :
    (id : ℕ) (g : VolumeGroup) (p : VolumePool)
    → id + 1 < 2 ^ 32
    → Below p
    → Below (with_group id g p)
with_group-Below id g p small b j h k =
    let e = sym (lookup-insert id j g p.registry) ∙ k in
    elim (Bool-cases (id == j)) [
      | inl here ↦ ground (arith, small, (==_iff id j).0 here)
      | inr other ↦ ground (arith, small, b j h (ground (arith, e, other)))
    ]

load_groups-Below :
    (reg : Assoc ℕ VolumeGroup) (p : VolumePool) → Small reg → Below p → Below (load_groups reg p)
unfolding load_groups
load_groups-Below [] p s b = b
load_groups-Below ((id, g) ∷ reg) p (h, s) b =
    let g' : VolumeGroup = record { id = id; members = g.members } in
    load_groups-Below reg (with_group id g' p) s (with_group-Below id g' p h b)

load_groups-kept :
    (reg : Assoc ℕ VolumeGroup) (p : VolumePool) (id : ℕ) (g : VolumeGroup)
    → lookup id reg ≡ none
    → lookup id p.registry ≡ some g
    → lookup id (load_groups reg p).registry ≡ some g
unfolding load_groups lookup
load_groups-kept [] p id g n h = h
load_groups-kept ((j, k) ∷ reg) p id g n h =
    let k' : VolumeGroup = record { id = j; members = k.members } in
    load_groups-kept reg (with_group j k' p) id g (ground (arith, n))
      (lookup-insert j id k' p.registry ∙ ground (arith, n, h))

load_groups-found :
    (reg : Assoc ℕ VolumeGroup) (p : VolumePool) (id : ℕ) (g : VolumeGroup)
    → Unique reg
    → lookup id reg ≡ some g
    → lookup id (load_groups reg p).registry ≡ some (record { id = id; members = g.members })
unfolding load_groups lookup
load_groups-found [] p id g u h = absurd (ground (arith, h))
load_groups-found ((j, k) ∷ reg) p id g (n, u) h = elim (Bool-cases (j == id)) [
  | inl here ↦
      let e : j ≡ id = (==_iff j id).0 here in
      let f : k ≡ g = ground (arith, h, here) in
      let k' : VolumeGroup = record { id = j; members = k.members } in
      let same : k' ≡ record { id = id; members = g.members } = rw (e, f) refl in
      load_groups-kept reg (with_group j k' p) id (record { id = id; members = g.members })
        (ap (λ i. lookup i reg) (sym e) ∙ n)
        (lookup-insert j id k' p.registry ∙ rw here (ap some same))
  | inr other ↦
      load_groups-found reg (with_group j (record { id = j; members = k.members }) p) id g u
        (rw other at h)
]

abbrev alone : ℕ → VolumeGroup
alone id = record { id = id; members = local_member ∷ [] }

register_local-cases :
    (id : ℕ) (p : VolumePool)
    → (((g : VolumeGroup) × (lookup id p.registry ≡ some g)) × (register_local id p ≡ p))
      ⊎ ((lookup id p.registry ≡ none) × (register_local id p ≡ with_group id (alone id) p))
unfolding register_local
register_local-cases id p = elim (Option-cases (lookup id p.registry)) [
  | inl n ↦ inr (n, rw (n, register_local) refl)
  | inr (g, k) ↦ inl ((g, k), rw (k, register_local) refl)
]

register_local-Below :
    (id : ℕ) (p : VolumePool) → id + 1 < 2 ^ 32 → Below p → Below (register_local id p)
register_local-Below id p small b = elim (register_local-cases id p) [
  | inl (k, e) ↦ subst Below (sym e) b
  | inr (n, e) ↦ subst Below (sym e) (with_group-Below id (alone id) p small b)
]

register_local-kept :
    (j : ℕ) (p : VolumePool) (id : ℕ) (g : VolumeGroup)
    → lookup id p.registry ≡ some g
    → lookup id (register_local j p).registry ≡ some g
register_local-kept j p id g h = elim (register_local-cases j p) [
  | inl (k, e) ↦ ap (λ (q : VolumePool). lookup id q.registry) e ∙ h
  | inr (n, e) ↦
      ap (λ (q : VolumePool). lookup id q.registry) e
      ∙ lookup-insert j id (alone j) p.registry
      ∙ ground (arith, h, n, ==_iff j id, ap (λ i. lookup i p.registry))
]

register_local-there :
    (id : ℕ) (p : VolumePool)
    → (g : VolumeGroup) × (lookup id (register_local id p).registry ≡ some g)
register_local-there id p = elim (register_local-cases id p) [
  | inl ((g, k), e) ↦ (g, ap (λ (q : VolumePool). lookup id q.registry) e ∙ k)
  | inr (n, e) ↦ (
    alone id,
    ap (λ (q : VolumePool). lookup id q.registry) e
        ∙ lookup-insert id id (alone id) p.registry
        ∙ ground (arith, ==_refl id),
  )
]

register_locals-Below :
    (vs : Assoc ℕ Volume) (p : VolumePool) → Small vs → Below p → Below (register_locals vs p)
unfolding register_locals
register_locals-Below [] p s b = b
register_locals-Below ((id, v) ∷ vs) p (h, s) b =
    register_locals-Below vs (register_local id p) s (register_local-Below id p h b)

register_locals-kept :
    (vs : Assoc ℕ Volume) (p : VolumePool) (id : ℕ) (g : VolumeGroup)
    → lookup id p.registry ≡ some g
    → lookup id (register_locals vs p).registry ≡ some g
unfolding register_locals
register_locals-kept [] p id g h = h
register_locals-kept ((j, v) ∷ vs) p id g h =
    register_locals-kept vs (register_local j p) id g (register_local-kept j p id g h)

register_locals-there :
    (vs : Assoc ℕ Volume) (p : VolumePool) (id : ℕ) (v : Volume)
    → lookup id vs ≡ some v
    → (g : VolumeGroup) × (lookup id (register_locals vs p).registry ≡ some g)
unfolding register_locals lookup
register_locals-there [] p id v h = absurd (ground (arith, h))
register_locals-there ((j, w) ∷ vs) p id v h = elim (Bool-cases (j == id)) [
  | inr other ↦ register_locals-there vs (register_local j p) id v (rw other at h)
  | inl here ↦
      let (g, k) = register_local-there j p in
      (
        g,
        register_locals-kept vs (register_local j p) id g
            (ap (λ i. lookup i (register_local j p).registry) (sym ((==_iff j id).0 here)) ∙ k),
      )
]

-- A pool that is opened on the registry that Close saved has each group that was registered, under
-- its number and with its members, and a group for each volume of the local manager; the numbers in
-- use are all below the next one, so that no group is overwritten by a new one. The registry is a map,
-- in which each group goes by its number, and no number is the last of 32 bits.
pub new_volume_pool-close :
    (p : VolumePool) (local : VolumeManager) (remotes : Assoc Bytes VolumeManager)
    (factor bytes : ℕ)
    → Unique p.registry
    → Named p.registry
    → Small p.registry
    → Small local.volumes
    → (p' : VolumePool) × (new_volume_pool local remotes (close true p).0.registry_file factor bytes
        ≡ ok p')
      × ((id : ℕ) (g : VolumeGroup)
          → lookup id p.registry ≡ some g
          → lookup id p'.registry ≡ some g)
      × ((id : ℕ) (v : Volume)
          → lookup id local.volumes ≡ some v
          → (g : VolumeGroup) × (lookup id p'.registry ≡ some g))
      × Below p'
unfolding new_volume_pool close load_registry save_registry lookup
new_volume_pool-close p local remotes factor bytes u n s t =
    let blank : VolumePool = record {
      local = local;
      remotes = remotes;
      registry = [];
      next_id = 0;
      active_group = none;
      replication_factor = if ltb factor 1 then 1 else factor;
      registry_file = (close true p).0.registry_file;
      cache = new_cache bytes;
    } in
    let loaded = load_groups p.registry blank in
    (
      register_locals local.volumes loaded,
      refl,
      λ id g h. register_locals-kept local.volumes loaded id g (
          load_groups-found p.registry blank id g u h
          ∙ ap (λ i. some (record { id = i; members = g.members })) (sym (n id g h))),
      λ id v h. register_locals-there local.volumes loaded id v h,
      register_locals-Below local.volumes loaded t
          (load_groups-Below p.registry blank s (λ id g h. absurd (ground (arith, h)))),
    )
