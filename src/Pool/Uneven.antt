-- ===== src/Pool/Uneven.antt =====
-- What a failed write to a replica leaves behind: the members of the group no longer hold the same
-- bytes.
use brisedb.Prelude.{
  ℕ, ◌+◌, ◌%◌, ◌^◌, ◌<◌, ◌≡◌, ◌≢◌, refl, sym, ap, ◌∙◌, inl, inr, false, some, [], ◌∷◌, Bytes,
  length, if◌then◌else◌, ◌==◌, ==_iff, ==_refl, nat_eq, list_eq, list_beq, Bool-cases, Option-cases,
  arith,
}
use brisedb.Prelude.Assoc.{lookup}
use brisedb.Types.{NeedleAddr, Result, ok, err, unreachable, u64}
use brisedb.File.{done}
use brisedb.Volume.{Volume}
use brisedb.Volume as Vol
use brisedb.Volume.Reads.{IsSynced, inside}
use brisedb.Volume.Desync.{write-IsSynced}
use brisedb.Volumes.{VolumeManager}
use brisedb.VolumeServer.{client_write_to_volume}
use brisedb.Pool.{VolumeMember, VolumeGroup, VolumePool, Env, local_member}
use brisedb.Pool.Transfer.{write_to_member, write_replicas, write_group, read_from_member}
use brisedb.Pool.Members.{
  manager_of, held, contents, SameBooks, SameBooks-trans, member_write, write_to_member-Calls,
}
use brisedb.Pool.Replicas.{Works, contents-if, write_to_member-Wrote}
use brisedb.Pool.Failover.{Sendable, read_from_member-held}
use brisedb.Pool.Written.{stored_at}

member_write_lost :
    (e : Env) (m : VolumeMember) (id : ℕ) (d : Bytes) (vm : VolumeManager)
    → (m.server_url == []) ≡ false
    → (e.trip m.server_url).arrives ≡ false
    → member_write e m id d vm ≡ (vm, err unreachable)
unfolding client_write_to_volume
member_write_lost e m id d vm h l = rw (h, l) refl

same_member :
    (url u : Bytes) (j : ℕ) (p : VolumePool) (vm : VolumeManager)
    → manager_of url p ≡ some vm
    → (if url == u then contents j (some vm) else held u j p) ≡ held u j p
same_member url u j p vm n = elim (Bool-cases (url == u)) [
  | inr other ↦ rw other refl
  | inl here ↦ rw here (sym (ap (contents j) n) ∙ ap (λ x. held x j p) ((==_iff url u).0 here))
]

-- A write that does not arrive changes no volume.
lost_write :
    (e : Env) (m : VolumeMember) (id : ℕ) (d : Bytes) (v : Volume) (p : VolumePool)
    → (m.server_url == []) ≡ false
    → (e.trip m.server_url).arrives ≡ false
    → held m.server_url id p ≡ some v
    → ((write_to_member e m id d p).1 ≡ err unreachable)
      × ((u : Bytes) (j : ℕ) → held u j (write_to_member e m id d p).0 ≡ held u j p)
      × SameBooks p (write_to_member e m id d p).0
lost_write e m id d v p h l k = elim (Option-cases (manager_of m.server_url p)) [
  | inl n ↦ absurd (ground (arith, k, ap (contents id) n))
  | inr (vm, n) ↦
      let c = write_to_member-Calls e m id d p vm n in
      let w = member_write_lost e m id d vm h l in
      (
        c.result ∙ ap (λ (x : VolumeManager × Result NeedleAddr). x.1) w,
        λ u j.
            ap (contents j) (c.managers u)
            ∙ contents-if (m.server_url == u) j (some (member_write e m id d vm).0) (manager_of u p)
            ∙ rw w (same_member m.server_url u j p vm n),
        c.books,
      )
]

pub write-end :
    (d : Bytes) (v : Volume) → (Vol.write done done d v).0.end ≡ (v.end + (8 + length d)) % u64
unfolding Vol.write Vol.finish
write-end d v = refl

-- A call to a server leaves the local manager as it is.
local_untouched :
    (e : Env) (m : VolumeMember) (id : ℕ) (d : Bytes) (p : VolumePool)
    → (m.server_url == []) ≡ false
    → (write_to_member e m id d p).0.local ≡ p.local
unfolding write_to_member
local_untouched e m id d p h = elim (Option-cases (lookup m.server_url p.remotes)) [
  | inl n ↦ rw (h, n, write_to_member) refl
  | inr (vm, n) ↦ rw (h, n, write_to_member) refl
]

-- The two members of the group after a write that one of them missed.
abbrev pub pair : ℕ → VolumeMember → VolumeGroup
pair id m = record { id = id; members = local_member ∷ m ∷ [] }

module _ (id : ℕ) (m : VolumeMember) (v : Volume) (p : VolumePool) (small : id < 2 ^ 32)
    (remote : (m.server_url == []) ≡ false) (e : Env) (d : Bytes) (first : held [] id p ≡ some v)
    (second : held m.server_url id p ≡ some v) (works : Works (e.trip []))
    (lost : (e.trip m.server_url).arrives ≡ false) where
  pub missed :
      let q = write_group e (pair id m) d p in
      (q.1 ≡ err unreachable)
      × (held [] id q.0 ≡ some (Vol.write done done d v).0)
      × (held m.server_url id q.0 ≡ some v)
      × SameBooks p q.0
      × (q.0.local ≡ (write_to_member e local_member id d p).0.local)
  unfolding write_group write_replicas list_beq
  missed =
      let (r, t) =
        write_to_member-Wrote e local_member id d v p
          (record { volume_id = v.id; offset = v.end; size = length d }) small works first
          (stored_at d v) in
      let p₁ = (write_to_member e local_member id d p).0 in
      let k : held m.server_url id p₁ ≡ some v =
        t.volumes m.server_url id
        ∙ ground (arith, second, remote, ==_iff m.server_url [], ==_iff [] m.server_url) in
      let (s, u, b) = lost_write e m id d v p₁ remote lost k in
      rw (r, write_group)
        (rw s (
          refl,
          u [] id ∙ t.volumes [] id ∙ ground (arith, ==_refl id, ==_refl (local_member.server_url)),
          u m.server_url id ∙ k,
          SameBooks-trans p p₁ _ t.books b,
          local_untouched e m id d p₁ remote,
        ))

-- A write to a group whose two members hold different volumes.
module _ (id : ℕ) (m : VolumeMember) (v w : Volume) (p : VolumePool) (small : id < 2 ^ 32)
    (remote : (m.server_url == []) ≡ false) (e : Env) (d : Bytes) (first : held [] id p ≡ some v)
    (second : held m.server_url id p ≡ some w) (works : (u : Bytes) → Works (e.trip u)) where
  abbrev pub at_end : NeedleAddr
  at_end = record { volume_id = id; offset = v.end; size = length d }

  pub uneven :
      let q = write_group e (pair id m) d p in
      (q.1 ≡ ok at_end) × (held m.server_url id q.0 ≡ some (Vol.write done done d w).0)
  unfolding write_group write_replicas
  uneven =
      let (r, t) =
        write_to_member-Wrote e local_member id d v p
          (record { volume_id = v.id; offset = v.end; size = length d }) small (works []) first
          (stored_at d v) in
      let p₁ = (write_to_member e local_member id d p).0 in
      let k : held m.server_url id p₁ ≡ some w =
        t.volumes m.server_url id
        ∙ ground (arith, second, remote, ==_iff m.server_url [], ==_iff [] m.server_url) in
      let (s, u) =
        write_to_member-Wrote e m id d w p₁
          (record { volume_id = w.id; offset = w.end; size = length d }) small (works m.server_url)
          k (stored_at d w) in
      rw (r, write_group)
        (rw s (refl, u.volumes m.server_url id ∙ ground (arith, ==_refl id, ==_refl m.server_url)))

  -- The replica holds nothing behind the end of what it got.
  pub not_there :
      v.end + 8 + length d < u64
      → w.end < v.end
      → IsSynced w
      → w.end + (8 + length d) < u64
      → (e' : Env) (x : Bytes)
      → (read_from_member e' m at_end (write_group e (pair id m) d p).0).1 ≢ ok x
  not_there fits behind whole room e' x h =
      let t : Sendable at_end = record {
        volume_id = small;
        offset = omega arith;
        size = omega arith;
      } in
      let w' = (Vol.write done done d w).0 in
      let (r, n, l) =
        read_from_member-held e' m at_end (write_group e (pair id m) d p).0 w' t uneven.1 in
      omega (
        arith,
        inside at_end w' ((r x).0 h).1,
        (write-IsSynced d w whole room).synced,
        write-end d w,
      )
