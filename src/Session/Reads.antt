-- ===== src/Session/Reads.antt =====
-- What Get reads after Set, SetEX, SetBlob and Delete outside of transactions.
use brisedb.Prelude.{
  ℕ, ◌+◌, ◌<◌, ◌≡◌, ◌≢◌, refl, sym, ap, ◌∙◌, inl, inr, none, some, [], ◌∷◌, Bytes, if◌then◌else◌,
  ltb, ◌==◌, ==_iff, nat_eq, list_eq, Bool-cases, Option-cases, arith,
}
use brisedb.Types.{NeedleAddr, no_addr, ok, Result-cases}
use brisedb.Store.{Store, Laws}
use brisedb.Tx.{effective}
use brisedb.Prelude.Assoc.{delete}
use brisedb.Session.{
  delete_line, Db, Env, Session, log_and_send, set_now, delete_now, get_now, get, set, set_ex,
  delete_key,
}
use brisedb.Session.Installs.{
  log_and_send-state, set_now-Installs, get_now_of_state, Roomy, get_now-Installs_self,
  get_now-Installs_other,
}

-- Without an open transaction the operations are those on the database.
module _ (st : Store) (s : Session st) (none_open : s.stack.top ≡ []) where
  pub get-none_open : (j : Bytes) (now : ℕ) → get st j now s ≡ get_now st j now s.db
  unfolding get effective
  get-none_open j now = ground (arith, none_open)

  set-none_open :
      (e : Env st) (k v : Bytes)
      → set st e k v s
        ≡ (record s { db = (set_now st e k v 0 s.db).0 }, (set_now st e k v 0 s.db).1)
  unfolding set
  set-none_open e k v = ground (arith, none_open)

  set_ex-none_open :
      (e : Env st) (k v : Bytes) (now ttl : ℕ)
      → 0 < ttl
      → set_ex st e k v now ttl s ≡ (
        record s { db = (set_now st e k v (now + ttl) s.db).0 },
        (set_now st e k v (now + ttl) s.db).1,
      )
  unfolding set_ex
  set_ex-none_open e k v now ttl h = ground (arith, none_open)

  delete_key-none_open :
      (e : Env st) (k : Bytes)
      → delete_key st e k s
        ≡ (record s { db = (delete_now st e k s.db).0 }, (delete_now st e k s.db).1)
  unfolding delete_key
  delete_key-none_open e k = ground (arith, none_open)

module _ (st : Store) (laws : Laws st) where
  open st use {index_get, index_delete, read}
  open laws use {Valid, Fits}

  -- After a Set outside of transactions that reports success, Get gives the value at any time, and
  -- every other key that had a value keeps it.
  pub get-set :
      (e : Env st) (k v : Bytes) (s : Session st)
      → s.stack.top ≡ []
      → Roomy st laws e k v 0 s.db
      → (set st e k v s).1 ≡ ok tt
      → let s' = (set st e k v s).0 in
        ((now : ℕ) → get st k now s' ≡ some v)
        × ((j w : Bytes) (now : ℕ) → k ≢ j → get st j now s ≡ some w → get st j now s' ≡ some w)
  get-set e k v s none_open m h = rw (set-none_open st s none_open e k v) (
      let i = set_now-Installs st e k v 0 s.db (rw (set-none_open st s none_open e k v) at h) in
      let s' : Session st = record s { db = (set_now st e k v 0 s.db).0 } in
      (
        λ now.
            get-none_open st s' none_open k now
            ∙ get_now-Installs_self st laws e k v 0 s.db s'.db i m now,
        λ j w now other g.
            get-none_open st s' none_open j now
            ∙ get_now-Installs_other st laws e k v 0 s.db s'.db i m j w now other
                (sym (get-none_open st s none_open j now) ∙ g),
      ))

  -- After a SetEX outside of transactions, with a positive time to live, that reports success, Get
  -- gives the value up to the deadline and nothing after it; every other key keeps its value.
  pub get-set_ex :
      (e : Env st) (k v : Bytes) (start ttl : ℕ) (s : Session st)
      → s.stack.top ≡ []
      → 0 < ttl
      → Roomy st laws e k v (start + ttl) s.db
      → (set_ex st e k v start ttl s).1 ≡ ok tt
      → let s' = (set_ex st e k v start ttl s).0 in
        ((now : ℕ) → get st k now s' ≡ (if ltb (start + ttl) now then none else some v))
        × ((j w : Bytes) (now : ℕ) → k ≢ j → get st j now s ≡ some w → get st j now s' ≡ some w)
  get-set_ex e k v start ttl s none_open positive m h =
      let x = start + ttl in
      rw (set_ex-none_open st s none_open e k v start ttl positive) (
        let i =
          set_now-Installs st e k v x s.db
            (rw (set_ex-none_open st s none_open e k v start ttl positive) at h) in
        let s' : Session st = record s { db = (set_now st e k v x s.db).0 } in
        (
          λ now.
              get-none_open st s' none_open k now
              ∙ get_now-Installs_self st laws e k v x s.db s'.db i m now
              ∙ ground arith,
          λ j w now other g.
              get-none_open st s' none_open j now
              ∙ get_now-Installs_other st laws e k v x s.db s'.db i m j w now other
                  (sym (get-none_open st s none_open j now) ∙ g),
        ))

  get_now_missing :
      (k j : Bytes) (now : ℕ) (db : Db st)
      → index_get k db.state ≡ none
      → get_now st j now db ≡ (if k == j then none else get_now st j now db)
  unfolding get_now
  get_now_missing k j now db miss = elim (Bool-cases (k == j)) [
    | inr other ↦ rw other refl
    | inl same ↦
        rw same
          (rw (ap (λ i. index_get i db.state) (sym ((==_iff k j).0 same)) ∙ miss, get_now) refl)
  ]

  get_now_hidden :
      (k j : Bytes) (now : ℕ) (db db' : Db st)
      → index_get j db'.state ≡ (if k == j then none else index_get j db.state)
      → ((a : NeedleAddr) → read a db'.state ≡ read a db.state)
      → get_now st j now db' ≡ (if k == j then none else get_now st j now db)
  unfolding get_now
  get_now_hidden k j now db db' h r = elim (Bool-cases (k == j)) [
    | inl same ↦ ground (arith, h, same)
    | inr other ↦ elim (Option-cases (index_get j db.state)) [
      | inl miss ↦ ground (arith, h, other, miss)
      | inr ((a, x), hit) ↦ ground (arith, h, other, hit, r a)
    ]
  ]

  get_now-delete_now :
      (e : Env st) (k : Bytes) (db : Db st) (j : Bytes) (now : ℕ)
      → Valid db.state
      → Fits db.state k no_addr 0
      → (delete_now st e k db).1 ≡ ok tt
      → get_now st j now (delete_now st e k db).0 ≡ (if k == j then none else get_now st j now db)
  unfolding delete_now get_now
  get_now-delete_now e k db j now v f h = elim (Option-cases (index_get k db.state)) [
    | inl miss ↦ rw (miss, delete_now) (get_now_missing k j now db miss)
    | inr ((a, x), hit) ↦
        let d = index_delete (e.index k) k db.state in
        let db₁ : Db st = record db { state = d.0; expiry = delete k db.expiry } in
        elim (Result-cases d.1) [
          | inr (inl (b, r)) ↦ absurd (ground (arith, hit, r))
          | inr (inr r) ↦ absurd (ground (arith, hit, r))
          | inl (u, r) ↦
              rw (hit, delete_now)
                (rw (r, delete_now)
                  (get_now_of_state st j now db₁
                      (log_and_send st e (delete_line k) (delete_line k ∷ []) db₁).0
                      (log_and_send-state st e (delete_line k) (delete_line k ∷ []) db₁)
                    ∙ get_now_hidden k j now db db₁ (laws.get-delete (e.index k) k db.state j v f r)
                        (laws.read-delete (e.index k) k db.state)))
        ]
  ]

  -- A Delete outside of transactions that reports success hides the key, and every other key reads
  -- as before.
  pub delete_key_hides :
      (e : Env st) (k : Bytes) (s : Session st)
      → s.stack.top ≡ []
      → Valid s.db.state
      → Fits s.db.state k no_addr 0
      → (delete_key st e k s).1 ≡ ok tt
      → (j : Bytes) (now : ℕ)
      → get st j now (delete_key st e k s).0 ≡ (if k == j then none else get st j now s)
  delete_key_hides e k s none_open v f h j now =
      rw (delete_key-none_open st s none_open e k, get-none_open st s none_open j now)
        (get-none_open st (record s { db = (delete_now st e k s.db).0 }) none_open j now
          ∙ get_now-delete_now e k s.db j now v f
              (rw (delete_key-none_open st s none_open e k) at h))
