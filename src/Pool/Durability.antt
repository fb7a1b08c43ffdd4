-- ===== src/Pool/Durability.antt =====
-- What a pool that keeps its invariant promises: a write keeps the invariant, and a read finds the
-- blob wherever one member of the group can be reached.
use brisedb.Prelude.{
  ℕ, ◌≡◌, ◌↔◌, refl, sym, ap, ◌∙◌, inl, inr, Bool, true, none, some, [], Bytes, nat_eq, list_eq,
  list_beq, Option-cases, arith,
}
use brisedb.Prelude.Assoc.{lookup}
use brisedb.Types.{NeedleAddr, ok}
use brisedb.Volume.{Volume}
use brisedb.Volume as Vol
use brisedb.Volumes.Contents.{volume_at, volume_at-read, read-volume_at}
use brisedb.Volumes as Vm
use brisedb.Pool.{VolumePool, Env}
use brisedb.Pool.Transfer.{read_members, fetch, with_local}
use brisedb.Pool.Members.{local-Calls, manager_of, held}
use brisedb.Pool.Failover.{member_Looks, reachable, Sendable, Looks, read_members-Alike}
use brisedb.Pool.Groups.{Synced}

-- Whether a read of an address reaches a member.
unfoldable pub reached : Env → NeedleAddr → VolumePool → Bool
reached e a p = elim (lookup a.volume_id p.registry) [
  | none ↦ true
  | some g ↦ reachable e g.members
]

local_held : (id : ℕ) (p : VolumePool) → held [] id p ≡ some (volume_at id p.local)
unfolding manager_of list_beq
local_held id p = refl

local_Looks : (a : NeedleAddr) (p : VolumePool) → Looks p (with_local p (Vm.read a p.local)).0
unfolding manager_of list_beq
local_Looks a p =
    let r = Vm.read a p.local in
    member_Looks a [] p p.local r (with_local p r) refl (local-Calls [] p r refl)
      (λ j. volume_at-read a j p.local)

local_result :
    (a : NeedleAddr) (p : VolumePool) (x : Bytes)
    → ((with_local p (Vm.read a p.local)).1 ≡ ok x)
      ↔ ((true ≡ true) × (Vol.read a (volume_at a.volume_id p.local) ≡ ok x))
local_result a p x = let q = read-volume_at a p.local x in (λ h. (refl, q.0 h), λ h. q.1 h.1)

-- Behind the cache, a read of the pool is a read of the volume of that number.
pub fetch-Synced :
    (vols : ℕ → Volume) (e : Env) (a : NeedleAddr) (p : VolumePool)
    → Synced vols p
    → Sendable a
    → ((x : Bytes)
        → ((fetch e a p).1 ≡ ok x)
          ↔ ((reached e a p ≡ true) × (Vol.read a (vols a.volume_id) ≡ ok x)))
      × Looks p (fetch e a p).0
unfolding fetch reached
fetch-Synced vols e a p s t = elim (Option-cases (lookup a.volume_id p.registry)) [
  | inl n ↦
      let z : volume_at a.volume_id p.local ≡ vols a.volume_id =
        ground (arith, sym (local_held a.volume_id p) ∙ s.unregistered a.volume_id n) in
      let f : fetch e a p ≡ with_local p (Vm.read a p.local) = rw (n, fetch) refl in
      let r : reached e a p ≡ true = rw (n, reached) refl in
      rw (f, r) (λ x. rw (sym z) (local_result a p x), local_Looks a p)
  | inr (g, k) ↦
      let h = s.groups a.volume_id g k in
      let (r, l) =
        read_members-Alike e g.members a (ok []) (vols a.volume_id) p t h.alike
          (inl h.some_member) in
      let f : fetch e a p ≡ read_members e g.members a (ok []) p =
        rw (k, fetch)
          (ap (λ i. read_members e g.members (record a { volume_id = i }) (ok []) p) h.named) in
      let w : reached e a p ≡ reachable e g.members = rw (k, reached) refl in rw (f, w) (r, l)
]
