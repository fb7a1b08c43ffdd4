-- ===== src/Pool/Groups.antt =====
-- The invariant of the pool: every number stands for one volume, which all the members of its group
-- hold. The group that a write goes to.
use brisedb.Prelude.{
  ℕ, zero, suc, ◌+◌, ◌%◌, ◌^◌, ◌<◌, ◌≤◌, ◌≡◌, ◌⊎◌, refl, sym, ap, ◌∙◌, inl, inr, Bool, true, false,
  Option, none, some, List, [], ◌∷◌, Bytes, length, take, if◌then◌else◌, ltb, ◌==◌, ==_iff, ==_refl,
  nat_eq, list_eq, Bool-cases, arith, subst,
}
use brisedb.Prelude.Assoc.{lookup, insert, lookup-insert}
use brisedb.Types.{Result, ok}
use brisedb.Volume.{Volume}
use brisedb.Volume.Reads.{IsSynced}
use brisedb.Pool.{
  reuse_group, choose_group, VolumeMember, VolumeGroup, VolumePool, all_backends, create_group,
  get_or_create_group, has_room, save_registry,
}
use brisedb.Pool.Members.{SameBooks, manager_of, held}
use brisedb.Pool.Replicas.{Alike, DistinctUrls, has_url}

pub record Group (g : VolumeGroup) (id : ℕ) (v : Volume) (p : VolumePool) : Type 0 where
  pub named : g.id ≡ id
  pub alike : Alike g.members id v p
  pub distinct : DistinctUrls g.members
  pub some_member : 1 ≤ length g.members

pub record Synced (vols : ℕ → Volume) (p : VolumePool) : Type 0 where
  pub groups : (id : ℕ) (g : VolumeGroup) → lookup id p.registry ≡ some g → Group g id (vols id) p
  pub below : (id : ℕ) (g : VolumeGroup) → lookup id p.registry ≡ some g → id < p.next_id
  pub unregistered : (id : ℕ) → lookup id p.registry ≡ none → held [] id p ≡ some (vols id)
  pub fresh : (id : ℕ) → p.next_id ≤ id → Alike (all_backends p) id (vols id) p
  pub active : (g : VolumeGroup) → p.active_group ≡ some g → lookup g.id p.registry ≡ some g
  pub whole : (id : ℕ) → IsSynced (vols id)
  pub named : (id : ℕ) → (vols id).id ≡ id
  pub urls : DistinctUrls (all_backends p)
  pub factor : 1 ≤ p.replication_factor

has_url-take :
    (n : ℕ) (ms : List VolumeMember) (u : Bytes)
    → has_url ms u ≡ false
    → has_url (take n ms) u ≡ false
unfolding take
has_url-take zero ms u h = refl
has_url-take (suc n) [] u h = refl
has_url-take (suc n) (m ∷ ms) u h = ground (arith, has_url-take n ms u, h)

DistinctUrls-take : (n : ℕ) (ms : List VolumeMember) → DistinctUrls ms → DistinctUrls (take n ms)
unfolding take
DistinctUrls-take zero ms h = tt
DistinctUrls-take (suc n) [] h = tt
DistinctUrls-take (suc n) (m ∷ ms) (h, hs) =
    (has_url-take n ms m.server_url h, DistinctUrls-take n ms hs)

Alike-take :
    (n : ℕ) (ms : List VolumeMember) (id : ℕ) (v : Volume) (p : VolumePool)
    → Alike ms id v p
    → Alike (take n ms) id v p
unfolding take
Alike-take zero ms id v p h = tt
Alike-take (suc n) [] id v p h = tt
Alike-take (suc n) (m ∷ ms) id v p (h, hs) = (h, Alike-take n ms id v p hs)

length-take-some : (n : ℕ) (ms : List VolumeMember) → 1 ≤ n → 1 ≤ length ms → 1 ≤ length (take n ms)
unfolding take
length-take-some zero ms h k = absurd (omega arith)
length-take-some (suc n) [] h k = k
length-take-some (suc n) (m ∷ ms) h k = omega arith

-- The volumes of the members depend on the managers alone.
pub Alike-same :
    (ms : List VolumeMember) (id : ℕ) (v : Volume) (p q : VolumePool)
    → ((u : Bytes) (j : ℕ) → held u j q ≡ held u j p)
    → Alike ms id v p
    → Alike ms id v q
Alike-same [] id v p q e h = tt
Alike-same (m ∷ ms) id v p q e (h, hs) = (e m.server_url id ∙ h, Alike-same ms id v p q e hs)

-- The group that create_group makes.
abbrev pub new_group : VolumePool → VolumeGroup
new_group p =
    let backends = all_backends p in
    let factor = p.replication_factor in
    record {
      id = p.next_id;
      members = take (if ltb (length backends) factor then length backends else factor) backends;
    }

abbrev pub grown : VolumePool → VolumePool
grown p = record p {
  next_id = (p.next_id + 1) % 2 ^ 32;
  registry = insert p.next_id (new_group p) p.registry;
  active_group = some (new_group p);
}

grown-held : (p : VolumePool) (u : Bytes) (j : ℕ) → held u j (grown p) ≡ held u j p
unfolding manager_of
grown-held p u j = refl

new_group-Group :
    (vols : ℕ → Volume) (p : VolumePool)
    → Synced vols p
    → Group (new_group p) p.next_id (vols p.next_id) p
unfolding all_backends
new_group-Group vols p s =
    let backends = all_backends p in
    let n =
      if ltb (length backends) p.replication_factor
      then length backends
      else p.replication_factor in
    record {
      named = refl;
      alike = Alike-take n backends p.next_id (vols p.next_id) p (s.fresh p.next_id (omega arith));
      distinct = DistinctUrls-take n backends s.urls;
      some_member = length-take-some n backends (ground (arith, s.factor)) (omega arith);
    }

pub Group-same :
    (g : VolumeGroup) (id : ℕ) (v : Volume) (p q : VolumePool)
    → ((u : Bytes) (j : ℕ) → held u j q ≡ held u j p)
    → Group g id v p
    → Group g id v q
Group-same g id v p q e h = record {
  named = h.named;
  alike = Alike-same g.members id v p q e h.alike;
  distinct = h.distinct;
  some_member = h.some_member;
}

-- What the registry of a grown pool holds: the new group, and the ones that were there.
grown-lookup :
    (p : VolumePool) (id : ℕ) (h : VolumeGroup)
    → lookup id (grown p).registry ≡ some h
    → ((p.next_id ≡ id) × (new_group p ≡ h)) ⊎ (lookup id p.registry ≡ some h)
grown-lookup p id h k =
    let e = sym (lookup-insert p.next_id id (new_group p) p.registry) ∙ k in
    elim (Bool-cases (p.next_id == id)) [
      | inl here ↦ inl ((==_iff p.next_id id).0 here, ground (arith, e, here))
      | inr other ↦ inr (ground (arith, e, other))
    ]

grown_new : (p : VolumePool) → lookup p.next_id (grown p).registry ≡ some (new_group p)
grown_new p =
    lookup-insert p.next_id p.next_id (new_group p) p.registry ∙ ground (arith, ==_refl p.next_id)

grown-Synced :
    (vols : ℕ → Volume) (p : VolumePool)
    → Synced vols p
    → p.next_id + 1 < 2 ^ 32
    → Synced vols (grown p)
unfolding all_backends
grown-Synced vols p s small =
    let same : (u : Bytes) (j : ℕ) → held u j (grown p) ≡ held u j p = λ u j. grown-held p u j in
    record {
      groups = λ id h k. elim (grown-lookup p id h k) [
        | inl (n, e) ↦ Group-same h id (vols id) p (grown p) same (
            subst (λ i. Group h i (vols i) p) n
              (subst (λ x. Group x p.next_id (vols p.next_id) p) e (new_group-Group vols p s)))
        | inr old ↦ Group-same h id (vols id) p (grown p) same (s.groups id h old)
      ];
      below = λ id h k. elim (grown-lookup p id h k) [
        | inl (n, e) ↦ omega (arith, n, small)
        | inr old ↦ omega (arith, s.below id h old, small)
      ];
      unregistered = λ id k.
          same [] id
          ∙ s.unregistered id
              (ground (arith, k, lookup-insert p.next_id id (new_group p) p.registry));
      fresh = λ id k.
          Alike-same (all_backends p) id (vols id) p (grown p) same
            (s.fresh id (omega (arith, k, small)));
      active = λ h k.
          let e : new_group p ≡ h = ground (arith, k) in
          subst (λ (x : VolumeGroup). lookup x.id (grown p).registry ≡ some x) e (grown_new p);
      whole = s.whole;
      named = s.named;
      urls = s.urls;
      factor = s.factor;
    }

-- The invariant is one of the books and of the volumes of the members.
pub Synced-same :
    (vols : ℕ → Volume) (p q : VolumePool)
    → Synced vols p
    → ((u : Bytes) (j : ℕ) → held u j q ≡ held u j p)
    → SameBooks p q
    → Synced vols q
Synced-same vols p q s same b = record {
  groups = λ id g k.
      Group-same g id (vols id) p q same (s.groups id g (ap (lookup id) (sym b.registry) ∙ k));
  below = λ id g k. rw b.next_id (s.below id g (ap (lookup id) (sym b.registry) ∙ k));
  unregistered = λ id k. same [] id ∙ s.unregistered id (ap (lookup id) (sym b.registry) ∙ k);
  fresh = λ id k.
      rw b.backends
        (Alike-same (all_backends p) id (vols id) p q same (s.fresh id (rw b.next_id at k)));
  active = λ g k. ap (lookup g.id) b.registry ∙ s.active g (sym b.active_group ∙ k);
  whole = s.whole;
  named = s.named;
  urls = rw b.backends s.urls;
  factor = rw b.replication_factor s.factor;
}

saved-Synced :
    (vols : ℕ → Volume) (p : VolumePool) → Synced vols p → Synced vols (save_registry true p).0
unfolding save_registry manager_of all_backends
saved-Synced vols p s =
    Synced-same vols p (save_registry true p).0 s (λ u j. refl)
      (record {
        registry = refl;
        next_id = refl;
        active_group = refl;
        replication_factor = refl;
        cache = refl;
        backends = refl;
      })

-- The group that a write goes to, and the pool that it goes to it in.
pub record Chosen (vols : ℕ → Volume) (p : VolumePool) (q : VolumePool × Result VolumeGroup)
    : Type 0 where
  pub group : VolumeGroup
  pub result : q.1 ≡ ok group
  pub registered : lookup group.id q.0.registry ≡ some group
  pub synced : Synced vols q.0
  pub volumes : (u : Bytes) (j : ℕ) → held u j q.0 ≡ held u j p
  pub kept :
      (id : ℕ) (g : VolumeGroup) → lookup id p.registry ≡ some g → lookup id q.0.registry ≡ some g
  pub cache : q.0.cache ≡ p.cache
  pub next : q.0.next_id ≤ p.next_id + 1

create_group-Chosen :
    (vols : ℕ → Volume) (p : VolumePool)
    → Synced vols p
    → p.next_id + 1 < 2 ^ 32
    → Chosen vols p (create_group true p)
unfolding create_group save_registry manager_of
create_group-Chosen vols p s small = record {
  group = new_group p;
  result = refl;
  registered = grown_new p;
  synced = saved-Synced vols (grown p) (grown-Synced vols p s small);
  volumes = λ u j. refl;
  kept = λ id g k.
      lookup-insert p.next_id id (new_group p) p.registry ∙ ground (arith, k, s.below id g k);
  cache = refl;
  next = omega arith;
}

reuse_group-cases :
    (saves : Bool) (g : VolumeGroup) (ms : List VolumeMember) (p : VolumePool)
    → 1 ≤ length ms
    → (reuse_group saves g ms p ≡ create_group saves p) ⊎ (reuse_group saves g ms p ≡ (p, ok g))
reuse_group-cases saves g [] p h = absurd (omega arith)
reuse_group-cases saves g (m ∷ ms) p h = elim (Bool-cases (has_room m g.id p)) [
  | inl room ↦ inr (rw room refl)
  | inr full ↦ inl (rw full refl)
]

-- The active group is used again, or a new one is made.
choose_group-cases :
    (saves : Bool) (o : Option VolumeGroup) (p : VolumePool)
    → ((g : VolumeGroup) → o ≡ some g → 1 ≤ length g.members)
    → (choose_group saves o p ≡ create_group saves p)
      ⊎ ((g : VolumeGroup) × (o ≡ some g) × (choose_group saves o p ≡ (p, ok g)))
choose_group-cases saves none p h = inl refl
choose_group-cases saves (some g) p h = elim (reuse_group-cases saves g g.members p (h g refl)) [
  | inl e ↦ inl e
  | inr e ↦ inr (g, refl, e)
]

-- A pool that keeps the invariant finds a group to write to, an old one or a new one.
pub get_or_create_group-Chosen :
    (vols : ℕ → Volume) (saves : Bool) (p : VolumePool)
    → Synced vols p
    → saves ≡ true
    → p.next_id + 1 < 2 ^ 32
    → Chosen vols p (get_or_create_group saves p)
unfolding get_or_create_group
get_or_create_group-Chosen vols saves p s saved small =
    rw saved
      (elim (choose_group-cases true p.active_group p
        (λ g k. (s.groups g.id g (s.active g k)).some_member)) [
          | inl e ↦ subst (Chosen vols p) (sym e) (create_group-Chosen vols p s small)
          | inr (g, k, e) ↦ subst (Chosen vols p) (sym e) (record {
            group = g;
            result = refl;
            registered = s.active g k;
            synced = s;
            volumes = λ u j. refl;
            kept = λ id h l. l;
            cache = refl;
            next = omega arith;
          })
        ])
