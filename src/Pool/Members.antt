-- ===== src/Pool/Members.antt =====
-- One member of a group: the volume that it holds under a number, and what a write or a read of
-- that member makes of it.
use brisedb.Prelude.{
  map, ◌∷◌, ℕ, ◌≡◌, refl, sym, ap, ◌∙◌, inl, inr, true, false, Option, none, some, [], Bytes,
  if◌then◌else◌, ◌==◌, ==_iff, nat_eq, list_eq, Bool-cases, arith,
}
use brisedb.Prelude.Assoc.{Assoc, lookup, insert, lookup-insert}
use brisedb.Types.{NeedleAddr, Result}
use brisedb.Volume.{Volume}
use brisedb.Volumes.{VolumeManager, write_to_volume}
use brisedb.Volumes as Vm
use brisedb.Volumes.Contents.{volume_at}
use brisedb.VolumeServer.{client_write_to_volume, client_read}
use brisedb.Pool.{all_backends, member_of, local_member, VolumeMember, VolumePool, Env}
use brisedb.Pool.Transfer.{with_local, with_remote, write_to_member, read_from_member}

unfoldable pub manager_of : Bytes → VolumePool → Option VolumeManager
manager_of url p = if url == [] then some p.local else lookup url p.remotes

abbrev pub contents : ℕ → Option VolumeManager → Option Volume
contents id none = none
contents id (some vm) = some (volume_at id vm)

-- The volume of a number that a URL leads to.
abbrev pub held : Bytes → ℕ → VolumePool → Option Volume
held url id p = contents id (manager_of url p)

-- What a call may change: the managers.
pub record SameBooks (p p' : VolumePool) : Type 0 where
  pub registry : p'.registry ≡ p.registry
  pub next_id : p'.next_id ≡ p.next_id
  pub active_group : p'.active_group ≡ p.active_group
  pub replication_factor : p'.replication_factor ≡ p.replication_factor
  pub cache : p'.cache ≡ p.cache
  pub backends : all_backends p' ≡ all_backends p

-- A manager that is put under the URL of a remote leaves the URLs as they are.
remote_urls :
    (url : Bytes) (vm vm' : VolumeManager) (rs : Assoc Bytes VolumeManager)
    → lookup url rs ≡ some vm
    → map member_of (insert url vm' rs) ≡ map member_of rs
unfolding lookup insert
remote_urls url vm vm' [] h = absurd (ground (arith, h))
remote_urls url vm vm' ((u, x) ∷ rs) h = elim (Bool-cases (u == url)) [
  | inl here ↦
      rw here
        (ap (λ w. (record { server_url = w }) ∷ map member_of rs) (sym ((==_iff u url).0 here)))
  | inr there ↦
      rw there (ap (◌∷◌ (record { server_url = u })) (remote_urls url vm vm' rs (rw there at h)))
]

backends_remote :
    (url : Bytes) (vm vm' : VolumeManager) (p : VolumePool)
    → lookup url p.remotes ≡ some vm
    → all_backends (record p { remotes = insert url vm' p.remotes }) ≡ all_backends p
unfolding all_backends
backends_remote url vm vm' p h = ap (◌∷◌ local_member) (remote_urls url vm vm' p.remotes h)

manager_of-with_local {ℓ} :
    {A : Type ℓ} (u : Bytes) (p : VolumePool) (r : VolumeManager × A)
    → manager_of u (with_local p r).0 ≡ (if [] == u then some r.0 else manager_of u p)
unfolding manager_of
manager_of-with_local u p (vm, r) = ground (arith, ==_iff u [], ==_iff [] u)

manager_of-with_remote {ℓ} :
    {A : Type ℓ} (url u : Bytes) (p : VolumePool) (r : VolumeManager × A)
    → (url == []) ≡ false
    → manager_of u (with_remote url p r).0 ≡ (if url == u then some r.0 else manager_of u p)
unfolding manager_of
manager_of-with_remote url u p (vm, r) h =
    ground (arith, lookup-insert url u vm p.remotes, ==_iff u [], ==_iff url u, ==_iff url [])

-- What a call makes of one member: its result, the manager it leaves, and nothing else.
pub record Calls {ℓ} {A : Type ℓ} (url : Bytes) (p : VolumePool) (r : VolumeManager × A)
    (q : VolumePool × A) : Type ℓ where
  pub result : q.1 ≡ r.1
  pub managers : (u : Bytes) → manager_of u q.0 ≡ (if url == u then some r.0 else manager_of u p)
  pub books : SameBooks p q.0

pub same_books : (p : VolumePool) → SameBooks p p
same_books p = record {
  registry = refl;
  next_id = refl;
  active_group = refl;
  replication_factor = refl;
  cache = refl;
  backends = refl;
}

pub SameBooks-trans : (p q r : VolumePool) → SameBooks p q → SameBooks q r → SameBooks p r
SameBooks-trans p q r a b = record {
  registry = b.registry ∙ a.registry;
  next_id = b.next_id ∙ a.next_id;
  active_group = b.active_group ∙ a.active_group;
  replication_factor = b.replication_factor ∙ a.replication_factor;
  cache = b.cache ∙ a.cache;
  backends = b.backends ∙ a.backends;
}

pub local-Calls {ℓ} :
    {A : Type ℓ} (url : Bytes) (p : VolumePool) (r : VolumeManager × A)
    → (url == []) ≡ true
    → Calls url p r (with_local p r)
unfolding all_backends
local-Calls url p (vm, r) h = record {
  result = refl;
  managers = λ u. ground (arith, manager_of-with_local u p (vm, r), ==_iff url []);
  books = record {
    registry = refl;
    next_id = refl;
    active_group = refl;
    replication_factor = refl;
    cache = refl;
    backends = refl;
  };
}

remote-Calls {ℓ} :
    {A : Type ℓ} (url : Bytes) (p : VolumePool) (vm : VolumeManager) (r : VolumeManager × A)
    → (url == []) ≡ false
    → lookup url p.remotes ≡ some vm
    → Calls url p r (with_remote url p r)
remote-Calls url p old (vm, r) h k = record {
  result = refl;
  managers = λ u. manager_of-with_remote url u p (vm, r) h;
  books = record {
    registry = refl;
    next_id = refl;
    active_group = refl;
    replication_factor = refl;
    cache = refl;
    backends = backends_remote url old vm p k;
  };
}

manager_of-local :
    (url : Bytes) (p : VolumePool) (vm : VolumeManager)
    → (url == []) ≡ true
    → manager_of url p ≡ some vm
    → vm ≡ p.local
unfolding manager_of
manager_of-local url p vm h e = ground (arith, rw h at e)

manager_of-remote :
    (url : Bytes) (p : VolumePool) (vm : VolumeManager)
    → (url == []) ≡ false
    → manager_of url p ≡ some vm
    → lookup url p.remotes ≡ some vm
unfolding manager_of
manager_of-remote url p vm h e = rw h at e

abbrev pub member_write :
    Env → VolumeMember → ℕ → Bytes → VolumeManager → VolumeManager × Result NeedleAddr
member_write e m id d vm =
    let t = e.trip m.server_url in
    if m.server_url == []
    then write_to_volume t.header t.body id d vm
    else client_write_to_volume t id d vm

abbrev pub member_read :
    Env → VolumeMember → NeedleAddr → VolumeManager → VolumeManager × Result Bytes
member_read e m a vm =
    if m.server_url == []
    then Vm.read a vm
    else client_read (e.trip m.server_url) a.volume_id a.offset a.size vm

pub write_to_member-Calls :
    (e : Env) (m : VolumeMember) (id : ℕ) (d : Bytes) (p : VolumePool) (vm : VolumeManager)
    → manager_of m.server_url p ≡ some vm
    → Calls m.server_url p (member_write e m id d vm) (write_to_member e m id d p)
unfolding write_to_member
write_to_member-Calls e m id d p vm h = elim (Bool-cases (m.server_url == [])) [
  | inl here ↦
      let l = manager_of-local m.server_url p vm here h in
      rw (here, l)
        (local-Calls m.server_url p
          (write_to_volume (e.trip m.server_url).header (e.trip m.server_url).body id d p.local)
          here)
  | inr there ↦
      let k = manager_of-remote m.server_url p vm there h in
      rw (there, k, write_to_member)
        (remote-Calls m.server_url p vm (client_write_to_volume (e.trip m.server_url) id d vm) there
          k)
]

pub read_from_member-Calls :
    (e : Env) (m : VolumeMember) (a : NeedleAddr) (p : VolumePool) (vm : VolumeManager)
    → manager_of m.server_url p ≡ some vm
    → Calls m.server_url p (member_read e m a vm) (read_from_member e m a p)
unfolding read_from_member
read_from_member-Calls e m a p vm h = elim (Bool-cases (m.server_url == [])) [
  | inl here ↦
      let l = manager_of-local m.server_url p vm here h in
      rw (here, l) (local-Calls m.server_url p (Vm.read a p.local) here)
  | inr there ↦
      let k = manager_of-remote m.server_url p vm there h in
      rw (there, k, read_from_member)
        (remote-Calls m.server_url p vm
          (client_read (e.trip m.server_url) a.volume_id a.offset a.size vm) there k)
]
