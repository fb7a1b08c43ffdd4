-- ===== src/Pool/Replicas.antt =====
-- A write to the members of a group, which hold the same volume before and after it.
use brisedb.Prelude.{
  ℕ, ◌^◌, ◌<◌, ◌≤◌, ◌≡◌, refl, sym, ap, ◌∙◌, inl, inr, Bool, true, false, ◌&&◌, ◌||◌, Option, some,
  List, [], ◌∷◌, Bytes, length, if◌then◌else◌, ◌==◌, ==_iff, nat_eq, list_eq, Bool-cases,
  Option-cases, arith,
}
use brisedb.Types.{NeedleAddr, Result, ok}
use brisedb.File.{Outcome, done}
use brisedb.Volume.{Volume}
use brisedb.Volume as Vol
use brisedb.Volumes.{VolumeManager, write_to_volume}
use brisedb.Volumes.Contents.{volume_at, volume_at-write_to_volume}
use brisedb.VolumeServer.{Trip}
use brisedb.VolumeServer.Client.{client_write_to_volume-state, client_write_to_volume-result}
use brisedb.Pool.{VolumeMember, VolumePool, Env}
use brisedb.Pool.Transfer.{write_to_member, write_replicas, write_group}
use brisedb.Pool.Members.{
  same_books, SameBooks-trans, manager_of, contents, held, SameBooks, member_write,
  write_to_member-Calls,
}

pub record Works (t : Trip) : Type 0 where
  pub arrives : t.arrives ≡ true
  pub header : t.header ≡ done
  pub body : t.body ≡ done
  pub answers : t.answers ≡ true

member_write-state :
    (e : Env) (m : VolumeMember) (id : ℕ) (d : Bytes) (vm : VolumeManager)
    → id < 2 ^ 32
    → Works (e.trip m.server_url)
    → let t = e.trip m.server_url in
      (member_write e m id d vm).0 ≡ (write_to_volume t.header t.body id d vm).0
member_write-state e m id d vm h w = elim (Bool-cases (m.server_url == [])) [
  | inl here ↦ rw here refl
  | inr there ↦ rw there (client_write_to_volume-state (e.trip m.server_url) id d vm h w.arrives)
]

member_write-result :
    (e : Env) (m : VolumeMember) (id : ℕ) (d : Bytes) (vm : VolumeManager) (a : NeedleAddr)
    → id < 2 ^ 32
    → Works (e.trip m.server_url)
    → let t = e.trip m.server_url in
      (write_to_volume t.header t.body id d vm).1 ≡ ok a → (member_write e m id d vm).1 ≡ ok a
member_write-result e m id d vm a h w k = elim (Bool-cases (m.server_url == [])) [
  | inl here ↦ rw here k
  | inr there ↦
      rw there
        ((client_write_to_volume-result (e.trip m.server_url) id d vm a h w.arrives w.answers).1 k)
]

pub contents-if :
    (b : Bool) (j : ℕ) (x y : Option VolumeManager)
    → contents j (if b then x else y) ≡ (if b then contents j x else contents j y)
contents-if true j x y = refl
contents-if false j x y = refl

-- A write to a number on the members of some URLs.
pub record Wrote (on : Bytes → Bool) (id : ℕ) (w : Volume) (p p' : VolumePool) : Type 0 where
  pub volumes :
      (u : Bytes) (j : ℕ) → held u j p' ≡ (if on u && (id == j) then some w else held u j p)
  pub books : SameBooks p p'

done_write :
    (o₁ o₂ : Outcome) (d : Bytes) (v v' : Volume)
    → o₁ ≡ done
    → o₂ ≡ done
    → v ≡ v'
    → Vol.write o₁ o₂ d v ≡ Vol.write done done d v'
done_write o₁ o₂ d v v' f g h = rw (f, g, h) refl

on_member :
    (url u : Bytes) (id j : ℕ) (p : VolumePool) (vm' : VolumeManager) (w : Volume)
    (vm : VolumeManager)
    → manager_of url p ≡ some vm
    → volume_at j vm' ≡ (if id == j then w else volume_at j vm)
    → (if url == u then some (volume_at j vm') else held u j p)
      ≡ (if (url == u) && (id == j) then some w else held u j p)
on_member url u id j p vm' w vm n e = elim (Bool-cases (url == u)) [
  | inr other ↦ rw other refl
  | inl here ↦
      let k = ap (λ x. held x j p) ((==_iff url u).0 here) in
      let l = ap (contents j) n in rw (here, e, sym k, l) ground arith
]

pub write_to_member-Wrote :
    (e : Env) (m : VolumeMember) (id : ℕ) (d : Bytes) (v : Volume) (p : VolumePool) (a : NeedleAddr)
    → id < 2 ^ 32
    → Works (e.trip m.server_url)
    → held m.server_url id p ≡ some v
    → (Vol.write done done d v).1 ≡ ok a
    → ((write_to_member e m id d p).1 ≡ ok a)
      × Wrote
          (λ u. m.server_url == u)
          id
          (Vol.write done done d v).0
          p
          (write_to_member e m id d p).0
write_to_member-Wrote e m id d v p a h w k ok_a = elim (Option-cases (manager_of m.server_url p)) [
  | inl n ↦ absurd (ground (arith, k, ap (contents id) n))
  | inr (vm, n) ↦
      let t = e.trip m.server_url in
      let c = write_to_member-Calls e m id d p vm n in
      let z : volume_at id vm ≡ v = ground (arith, sym (ap (contents id) n) ∙ k) in
      let full = done_write t.header t.body d (volume_at id vm) v w.header w.body z in
      let q = volume_at-write_to_volume t.header t.body id d vm in
      let s = member_write-state e m id d vm h w in
      (
        c.result
            ∙ member_write-result e m id d vm a h w
                (q.0 ∙ ap (λ (x : Volume × Result NeedleAddr). x.1) full ∙ ok_a),
        record {
          volumes = λ u j.
              ap (contents j) (c.managers u)
              ∙ contents-if (m.server_url == u) j (some (member_write e m id d vm).0)
                  (manager_of u p)
              ∙ on_member m.server_url u id j p (member_write e m id d vm).0
                  (Vol.write done done d v).0 vm n
                  (ap (volume_at j) s
                    ∙ q.1 j
                    ∙ ap
                        (λ (x : Volume × Result NeedleAddr).
                          if id == j then x.0 else volume_at j vm)
                        full);
          books = c.books;
        },
      )
]

abbrev pub has_url : List VolumeMember → Bytes → Bool
has_url [] u = false
has_url (m ∷ ms) u = (m.server_url == u) || has_url ms u

abbrev pub DistinctUrls : List VolumeMember → Type 0
DistinctUrls [] = Unit
DistinctUrls (m ∷ ms) = (has_url ms m.server_url ≡ false) × DistinctUrls ms

-- All the members hold the same volume.
abbrev pub Alike : List VolumeMember → ℕ → Volume → VolumePool → Type 0
Alike [] id v p = Unit
Alike (m ∷ ms) id v p = (held m.server_url id p ≡ some v) × Alike ms id v p

pub Alike-Wrote :
    (ms : List VolumeMember) (on : Bytes → Bool) (id j : ℕ) (v w : Volume) (p p' : VolumePool)
    → Wrote on id w p p'
    → ((u : Bytes) → has_url ms u ≡ true → on u && (id == j) ≡ false)
    → Alike ms j v p
    → Alike ms j v p'
Alike-Wrote [] on id j v w p p' t n h = tt
Alike-Wrote (m ∷ ms) on id j v w p p' t n (h, hs) = (
  t.volumes m.server_url j ∙ ground (arith, n m.server_url, ==_iff m.server_url m.server_url, h),
  Alike-Wrote ms on id j v w p p' t (λ u k. n u (ground (arith, k))) hs,
)

Wrote-trans :
    (on on' : Bytes → Bool) (id : ℕ) (w : Volume) (p q r : VolumePool)
    → Wrote on id w p q
    → Wrote on' id w q r
    → Wrote (λ u. on u || on' u) id w p r
Wrote-trans on on' id w p q r a b = record {
  volumes = λ u j. b.volumes u j ∙ ground (arith, a.volumes u j);
  books = SameBooks-trans p q r a.books b.books;
}

apart :
    (url u : Bytes) (id : ℕ) (ms : List VolumeMember)
    → has_url ms url ≡ false
    → has_url ms u ≡ true
    → (url == u) && (id == id) ≡ false
apart url u id ms n k = elim (Bool-cases (url == u)) [
  | inr other ↦ rw other refl
  | inl here ↦ absurd (ground (arith, k, n, ap (has_url ms) ((==_iff url u).0 here)))
]

module _ (e : Env) (works : (u : Bytes) → Works (e.trip u)) (id : ℕ) (small : id < 2 ^ 32)
    (d : Bytes) (v : Volume) (a : NeedleAddr) (full : (Vol.write done done d v).1 ≡ ok a) where
  abbrev w : Volume
  w = (Vol.write done done d v).0

  write_replicas-Wrote :
      (ms : List VolumeMember) (p : VolumePool)
      → DistinctUrls ms
      → Alike ms id v p
      → ((write_replicas e ms id d p).1 ≡ ok tt)
        × Wrote (has_url ms) id w p (write_replicas e ms id d p).0
  unfolding write_replicas
  write_replicas-Wrote [] p u h = (refl, record { volumes = λ u j. refl; books = same_books p })
  write_replicas-Wrote (m ∷ ms) p (n, u) (h, hs) =
      let (r, t) = write_to_member-Wrote e m id d v p a small (works m.server_url) h full in
      let p₁ = (write_to_member e m id d p).0 in
      let k =
        Alike-Wrote ms (λ u. m.server_url == u) id id v w p p₁ t
          (λ x k. apart m.server_url x id ms n k) hs in
      let (rs, ts) = write_replicas-Wrote ms p₁ u k in
      (
        rw (r, rs) refl,
        Wrote-trans (λ u. m.server_url == u) (has_url ms) id w p p₁ (write_replicas e ms id d p₁).0
            t ts,
      )

  pub write_group-Wrote :
      (ms : List VolumeMember) (p : VolumePool)
      → DistinctUrls ms
      → Alike ms id v p
      → 1 ≤ length ms
      → let q = write_group e (record { id = id; members = ms }) d p in
        (q.1 ≡ ok (record { volume_id = id; offset = a.offset; size = a.size }))
        × Wrote (has_url ms) id w p q.0
  unfolding write_group
  write_group-Wrote [] p u h some_member = absurd (omega arith)
  write_group-Wrote (m ∷ ms) p (n, u) (h, hs) some_member =
      let (r, t) = write_to_member-Wrote e m id d v p a small (works m.server_url) h full in
      let p₁ = (write_to_member e m id d p).0 in
      let k =
        Alike-Wrote ms (λ x. m.server_url == x) id id v w p p₁ t
          (λ x l. apart m.server_url x id ms n l) hs in
      let (rs, ts) = write_replicas-Wrote ms p₁ u k in
      rw (r, write_group)
        (rw rs (
          refl,
          Wrote-trans (λ x. m.server_url == x) (has_url ms) id w p p₁
              (write_replicas e ms id d p₁).0 t ts,
        ))
