-- ===== src/Pool/Failover.antt =====
-- Reads of a group whose members hold the same volume: they find what that volume holds, as long as
-- one member can be reached.
use brisedb.Prelude.{
  ℕ, ◌^◌, ◌<◌, ◌≤◌, ◌≡◌, ◌≢◌, ◌↔◌, ◌⊎◌, refl, sym, ap, ◌∙◌, inl, inr, Bool, true, false, ◌&&◌, ◌||◌,
  some, List, [], ◌∷◌, Bytes, length, ◌==◌, ==_iff, nat_eq, list_eq, Bool-cases, Option-cases,
  arith,
}
use brisedb.Prelude.Assoc.{lookup}
use brisedb.Types.{NeedleAddr, Result, ok, err, panic, Result-cases}
use brisedb.Volume.{Volume}
use brisedb.Volume as Vol
use brisedb.Volumes.{VolumeManager}
use brisedb.Volumes as Vm
use brisedb.Volumes.Contents.{volume_at, volume_at-read, read-volume_at}
use brisedb.Decimal.{print}
use brisedb.VolumeServer.{Method, Trip, Response, client_read, answered, read_result, handle_read}
use brisedb.VolumeServer.Client.{client_read-state, client_read-result}
use brisedb.Pool.{VolumeMember, VolumePool, Env}
use brisedb.Pool.Transfer.{read_from_member, read_members}
use brisedb.Pool.Members.{
  same_books, SameBooks-trans, manager_of, contents, held, SameBooks, Calls, member_read,
  read_from_member-Calls,
}
use brisedb.Pool.Replicas.{Alike}

-- Whether a read of a member comes back.
abbrev pub answers : Env → VolumeMember → Bool
answers e m =
    (m.server_url == []) || ((e.trip m.server_url).arrives && (e.trip m.server_url).answers)

abbrev pub reachable : Env → List VolumeMember → Bool
reachable e [] = false
reachable e (m ∷ ms) = answers e m || reachable e ms

-- An address of the types of its numbers.
pub record Sendable (a : NeedleAddr) : Type 0 where
  pub volume_id : a.volume_id < 2 ^ 32
  pub offset : a.offset < 2 ^ 64
  pub size : a.size < 2 ^ 64

-- A call that leaves every volume as it is.
pub record Looks (p p' : VolumePool) : Type 0 where
  pub volumes : (u : Bytes) (j : ℕ) → held u j p' ≡ held u j p
  pub books : SameBooks p p'

volume_read_returns : (a : NeedleAddr) (v : Volume) → Vol.read a v ≢ panic
unfolding Vol.read
volume_read_returns a v h = ground (arith, h)

manager_read_returns : (a : NeedleAddr) (vm : VolumeManager) → (Vm.read a vm).1 ≢ panic
unfolding Vm.read
manager_read_returns a vm = elim (Option-cases (lookup a.volume_id vm.volumes)) [
  | inr (v, h) ↦ rw (h, Vm.read) (volume_read_returns a v)
  | inl h ↦ elim (Option-cases (lookup a.volume_id vm.stored)) [
    | inl g ↦ rw (h, Vm.read) (rw g (λ e. ground (arith, e)))
    | inr (f, g) ↦ rw (h, Vm.read) (rw g (volume_read_returns a (Vol.open_volume a.volume_id f)))
  ]
]

answered_read_returns :
    (b : Bool) (r : VolumeManager × Response) → (answered b read_result r).1 ≢ panic
answered_read_returns false (vm, r) h = ground (arith, h)
answered_read_returns true (vm, r) h = ground (arith, h)

client_read_returns :
    (t : Trip) (i o s : ℕ) (vm : VolumeManager) → (client_read t i o s vm).1 ≢ panic
unfolding client_read
client_read_returns t i o s vm = elim (Bool-cases t.arrives) [
  | inr lost ↦ rw lost (λ h. ground (arith, h))
  | inl here ↦
      rw here
        (answered_read_returns t.answers (handle_read Method.get (print i) (print o) (print s) vm))
]

member_read_returns :
    (e : Env) (m : VolumeMember) (a : NeedleAddr) (vm : VolumeManager)
    → (member_read e m a vm).1 ≢ panic
member_read_returns e m a vm = elim (Bool-cases (m.server_url == [])) [
  | inl here ↦ rw here (manager_read_returns a vm)
  | inr there ↦ rw there (client_read_returns (e.trip m.server_url) a.volume_id a.offset a.size vm)
]

member_read-result :
    (e : Env) (m : VolumeMember) (a : NeedleAddr) (vm : VolumeManager) (x : Bytes)
    → Sendable a
    → ((member_read e m a vm).1 ≡ ok x)
      ↔ ((answers e m ≡ true) × (Vol.read a (volume_at a.volume_id vm) ≡ ok x))
member_read-result e m a vm x s =
    let q = read-volume_at a vm x in
    let c = client_read-result (e.trip m.server_url) a vm x s.volume_id s.offset s.size in
    elim (Bool-cases (m.server_url == [])) [
      | inl here ↦ rw here (λ h. (refl, q.0 h), λ h. q.1 h.1)
      | inr there ↦ rw there (
        λ h. let k = c.0 h in (ground (arith, k.0, k.1), q.0 k.2),
        λ h. c.1 (ground (arith, h.0), ground (arith, h.0), q.1 h.1),
      )
    ]

member_read-state :
    (e : Env) (m : VolumeMember) (a : NeedleAddr) (vm : VolumeManager) (j : ℕ)
    → Sendable a
    → volume_at j (member_read e m a vm).0 ≡ volume_at j vm
member_read-state e m a vm j s =
    let t = e.trip m.server_url in
    let c = client_read-state t a vm s.volume_id s.offset s.size in
    elim (Bool-cases (m.server_url == [])) [
      | inl here ↦ rw here (volume_at-read a j vm)
      | inr there ↦ rw there (
          ap (volume_at j) c ∙ elim (Bool-cases t.arrives) [
            | inl k ↦ rw k (volume_at-read a j vm)
            | inr k ↦ rw k refl
          ])
    ]

pub member_Looks :
    (a : NeedleAddr) (url : Bytes) (p : VolumePool) (vm : VolumeManager)
    (r : VolumeManager × Result Bytes) (q : VolumePool × Result Bytes)
    → manager_of url p ≡ some vm
    → Calls url p r q
    → ((j : ℕ) → volume_at j r.0 ≡ volume_at j vm)
    → Looks p q.0
member_Looks a url p vm r q n c k = record {
  volumes = λ u j. ap (contents j) (c.managers u) ∙ elim (Bool-cases (url == u)) [
    | inr other ↦ rw other refl
    | inl here ↦
        rw here
          (ap some (k j) ∙ sym (ap (contents j) n) ∙ ap (λ x. held x j p) ((==_iff url u).0 here))
  ];
  books = c.books;
}

pub read_from_member-held :
    (e : Env) (m : VolumeMember) (a : NeedleAddr) (p : VolumePool) (v : Volume)
    → Sendable a
    → held m.server_url a.volume_id p ≡ some v
    → ((x : Bytes)
        → ((read_from_member e m a p).1 ≡ ok x) ↔ ((answers e m ≡ true) × (Vol.read a v ≡ ok x)))
      × ((read_from_member e m a p).1 ≢ panic)
      × Looks p (read_from_member e m a p).0
read_from_member-held e m a p v s h = elim (Option-cases (manager_of m.server_url p)) [
  | inl n ↦ absurd (ground (arith, h, ap (contents a.volume_id) n))
  | inr (vm, n) ↦
      let c = read_from_member-Calls e m a p vm n in
      let z : volume_at a.volume_id vm ≡ v =
        ground (arith, sym (ap (contents a.volume_id) n) ∙ h) in
      (
        λ x. rw (c.result, sym z) (member_read-result e m a vm x s),
        rw c.result (member_read_returns e m a vm),
        member_Looks a m.server_url p vm (member_read e m a vm) (read_from_member e m a p) n c
            (λ j. member_read-state e m a vm j s),
      )
]

Looks-trans : (p q r : VolumePool) → Looks p q → Looks q r → Looks p r
Looks-trans p q r a b = record {
  volumes = λ u j. b.volumes u j ∙ a.volumes u j;
  books = SameBooks-trans p q r a.books b.books;
}

pub Alike-Looks :
    (ms : List VolumeMember) (id : ℕ) (v : Volume) (p q : VolumePool)
    → Looks p q
    → Alike ms id v p
    → Alike ms id v q
Alike-Looks [] id v p q l h = tt
Alike-Looks (m ∷ ms) id v p q l (h, hs) =
    (l.volumes m.server_url id ∙ h, Alike-Looks ms id v p q l hs)

-- The members of a group that hold the same volume are read as that volume, as long as one of them
-- answers.
pub read_members-Alike :
    (e : Env) (ms : List VolumeMember) (a : NeedleAddr) (last : Result Bytes) (v : Volume)
    (p : VolumePool)
    → Sendable a
    → Alike ms a.volume_id v p
    → (1 ≤ length ms) ⊎ ((x : Bytes) → last ≢ ok x)
    → let q = read_members e ms a last p in
      ((x : Bytes) → (q.1 ≡ ok x) ↔ ((reachable e ms ≡ true) × (Vol.read a v ≡ ok x))) × Looks p q.0
unfolding read_members
read_members-Alike e [] a last v p s h (inl n) = absurd (omega arith)
read_members-Alike e [] a last v p s h (inr n) = (
  λ x. (λ g. absurd (n x g), λ g. absurd (ground (arith, g.0))),
  record { volumes = λ u j. refl; books = same_books p },
)
read_members-Alike e (m ∷ ms) a last v p s (h, hs) n =
    let (r, t, l) = read_from_member-held e m a p v s h in
    let p₁ = (read_from_member e m a p).0 in
    elim (Result-cases (read_from_member e m a p).1) [
      | inr (inr stuck) ↦ absurd (t stuck)
      | inl (d, found) ↦ rw (found, read_members) (λ x. ground (arith, (r d).0 found), l)
      | inr (inl (y, failed)) ↦
          let (rs, ls) =
            read_members-Alike e ms a (err y) v p₁ s (Alike-Looks ms a.volume_id v p p₁ l hs)
              (inr (λ x g. ground (arith, g))) in
          rw (failed, read_members)
            (
              λ x. ground (arith, r x, rs x, failed),
              Looks-trans p p₁ (read_members e ms a (err y) p₁).0 l ls,
            )
    ]
