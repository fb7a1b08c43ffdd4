-- ===== src/Session/Installs.antt =====
-- What a write of one key makes of the index and of the blobs.
use brisedb.Prelude.{
  ℕ, ◌≡◌, ◌≢◌, refl, ap, ◌∙◌, inl, inr, false, none, some, List, [], ◌∷◌, Bytes, if◌then◌else◌,
  ◌==◌, ==_iff, ==_refl, nat_eq, list_eq, Option-cases, arith,
}
use brisedb.Types.{NeedleAddr, ok, Result-cases}
use brisedb.Store.{Store, Laws}
use brisedb.Wal.{WalEntry}
use brisedb.Session.{
  Db, Env, expired, set_expiry, log_and_send, set_now, blob_now, get_now, set_line, set_message,
}

module _ (st : Store) where
  open st use {State, index_get, index_set, index_delete, write, read}

  pub log_and_send-state :
      (e : Env st) (l : WalEntry) (ms : List WalEntry) (db : Db st)
      → (log_and_send st e l ms db).0.state ≡ db.state
  unfolding log_and_send
  log_and_send-state e l ms db = ground arith

  -- A write of one key that took effect: the blob, and then the index.
  pub record Installs (e : Env st) (k v : Bytes) (x : ℕ) (db db' : Db st) : Type 0 where
    pub addr : NeedleAddr
    pub written : (write (e.blob k) v db.state).1 ≡ ok addr
    pub indexed : (index_set (e.index k) k addr x (write (e.blob k) v db.state).0).1 ≡ ok tt
    pub final : db'.state ≡ (index_set (e.index k) k addr x (write (e.blob k) v db.state).0).0

  pub set_now-Installs :
      (e : Env st) (k v : Bytes) (x : ℕ) (db : Db st)
      → (set_now st e k v x db).1 ≡ ok tt
      → Installs e k v x db (set_now st e k v x db).0
  unfolding set_now
  set_now-Installs e k v x db h = elim (Result-cases (write (e.blob k) v db.state).1) [
    | inr (inl (b, p)) ↦ absurd (ground (arith, p))
    | inr (inr p) ↦ absurd (ground (arith, p))
    | inl (a, p) ↦
        elim (Result-cases (index_set (e.index k) k a x (write (e.blob k) v db.state).0).1) [
          | inr (inl (b, q)) ↦ absurd (ground (arith, p, q))
          | inr (inr q) ↦ absurd (ground (arith, p, q))
          | inl (u, q) ↦ record {
            addr = a;
            written = p;
            indexed = q;
            final = rw (p, set_now) (rw (q, set_now) (sent_state a (set_message k v x ∷ [])));
          }
        ]
  ]
    where
      sent_state :
          (a : NeedleAddr) (ms : List WalEntry)
          → (log_and_send st e (set_line k a x) ms (record db {
            state = (index_set (e.index k) k a x (write (e.blob k) v db.state).0).0;
            expiry = set_expiry st k x db.expiry;
          })).0.state
            ≡ (index_set (e.index k) k a x (write (e.blob k) v db.state).0).0
      sent_state a ms = log_and_send-state e (set_line k a x) ms _

  pub blob_now-Installs :
      (e : Env st) (k v : Bytes) (x : ℕ) (ms : List WalEntry) (db : Db st)
      → (blob_now st e k v x ms db).1 ≡ ok tt
      → Installs e k v x db (blob_now st e k v x ms db).0
  unfolding blob_now
  blob_now-Installs e k v x ms db h = elim (Result-cases (write (e.blob k) v db.state).1) [
    | inr (inl (b, p)) ↦ absurd (ground (arith, p))
    | inr (inr p) ↦ absurd (ground (arith, p))
    | inl (a, p) ↦
        elim (Result-cases (index_set (e.index k) k a x (write (e.blob k) v db.state).0).1) [
          | inr (inl (b, q)) ↦ absurd (ground (arith, p, q))
          | inr (inr q) ↦ absurd (ground (arith, p, q))
          | inl (u, q) ↦ record {
            addr = a;
            written = p;
            indexed = q;
            final = rw (p, blob_now) (rw (q, blob_now) (sent_state a ms));
          }
        ]
  ]
    where
      sent_state :
          (a : NeedleAddr) (ms : List WalEntry)
          → (log_and_send st e (set_line k a x) ms (record db {
            state = (index_set (e.index k) k a x (write (e.blob k) v db.state).0).0;
            expiry = set_expiry st k x db.expiry;
          })).0.state
            ≡ (index_set (e.index k) k a x (write (e.blob k) v db.state).0).0
      sent_state a ms = log_and_send-state e (set_line k a x) ms _

  pub get_now_of_state :
      (j : Bytes) (now : ℕ) (db db' : Db st)
      → db'.state ≡ db.state
      → get_now st j now db' ≡ get_now st j now db
  unfolding get_now
  get_now_of_state j now db db' h = ap (λ q. get_now st j now (record db { state = q })) h

  pub get_now-some :
      (j : Bytes) (now : ℕ) (db : Db st) (w : Bytes)
      → get_now st j now db ≡ some w
      → (a : NeedleAddr) × (y : ℕ) × (index_get j db.state ≡ some (a, y))
        × (expired now y ≡ false)
        × (read a db.state ≡ ok w)
  unfolding get_now
  get_now-some j now db w h = elim (Option-cases (index_get j db.state)) [
    | inl miss ↦ absurd (ground (arith, miss))
    | inr ((a, y), hit) ↦ elim (Result-cases (read a db.state)) [
      | inl (d, r) ↦ (a, y, hit, ground (arith, hit, r), r ∙ ground (arith, hit, r))
      | inr (inl (b, r)) ↦ absurd (ground (arith, hit, r))
      | inr (inr r) ↦ absurd (ground (arith, hit, r))
    ]
  ]

  pub get_now_of :
      (j : Bytes) (now : ℕ) (db : Db st) (a : NeedleAddr) (y : ℕ) (w : Bytes)
      → index_get j db.state ≡ some (a, y)
      → expired now y ≡ false
      → read a db.state ≡ ok w
      → get_now st j now db ≡ some w
  unfolding get_now
  get_now_of j now db a y w hit fresh r = ground (arith, hit, fresh, r)

-- Room for the blob and for its entry, whatever its address.
pub record Roomy (st : Store) (laws : Laws st) (e : Env st) (k v : Bytes) (x : ℕ) (db : Db st)
    : Type 0 where
  pub valid : laws.Valid db.state
  pub space : laws.Space db.state v
  pub fits :
      (a : NeedleAddr)
      → (st.write (e.blob k) v db.state).1 ≡ ok a
      → laws.Fits (st.write (e.blob k) v db.state).0 k a x

module _ (st : Store) (laws : Laws st) where
  open st use {State, index_get, index_set, index_delete, write, read}
  open laws use {Valid, Fits}

  module _ (e : Env st) (k v : Bytes) (x : ℕ) (db db' : Db st) (i : Installs st e k v x db db')
      (m : Roomy st laws e k v x db) where
    pub index_get-Installs :
        (j : Bytes)
        → index_get j db'.state ≡ (if k == j then some (i.addr, x) else index_get j db.state)
    index_get-Installs j =
        let s₁ = (write (e.blob k) v db.state).0 in
        ap (index_get j) i.final
        ∙ laws.get-set (e.index k) k i.addr x s₁ j
            (laws.write-Valid (e.blob k) v db.state i.addr m.valid m.space i.written)
            (m.fits i.addr i.written) i.indexed
        ∙ ap (λ o. if k == j then some (i.addr, x) else o) (laws.get-write (e.blob k) v db.state j)

    pub read_new : read i.addr db'.state ≡ ok v
    read_new =
        ap (read i.addr) i.final
        ∙ laws.read-set (e.index k) k i.addr x (write (e.blob k) v db.state).0 i.addr
        ∙ laws.read-write (e.blob k) v db.state i.addr m.valid m.space i.written

    read_old : (b : NeedleAddr) (d : Bytes) → read b db.state ≡ ok d → read b db'.state ≡ ok d
    read_old b d h =
        ap (read b) i.final
        ∙ laws.read-set (e.index k) k i.addr x (write (e.blob k) v db.state).0 b
        ∙ laws.read-write_old (e.blob k) v db.state b d h

    -- The key reads as the new value until it expires, and every other key as before.
    pub get_now-Installs_self :
        (now : ℕ) → get_now st k now db' ≡ (if expired now x then none else some v)
    unfolding get_now
    get_now-Installs_self now =
        let hit : index_get k db'.state ≡ some (i.addr, x) =
          index_get-Installs k ∙ rw (==_refl k) refl in
        rw (hit, get_now) (rw (read_new, get_now) refl)

    pub get_now-Installs_other :
        (j w : Bytes) (now : ℕ)
        → k ≢ j
        → get_now st j now db ≡ some w
        → get_now st j now db' ≡ some w
    get_now-Installs_other j w now other h =
        let (a, y, found, fresh, r) = get_now-some st j now db w h in
        get_now_of st j now db' a y w (index_get-Installs j ∙ ground (arith, ==_iff k j, found))
          fresh (read_old a w r)
