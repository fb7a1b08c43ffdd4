-- ===== src/Session/Commit/Published.antt =====
-- The commit of an outermost transaction.
use brisedb.Prelude.{
  ℕ, ◌≡◌, refl, sym, ap, ◌∙◌, subst, inl, inr, true, false, Option, none, some, List, [], ◌∷◌,
  Bytes, if◌then◌else◌, ◌==◌, ==_iff, nat_eq, list_eq, Bool-cases, arith,
}
use brisedb.Prelude.Assoc.{Assoc, lookup, Unique, mem}
use brisedb.Types.{NeedleAddr, ok, Result-cases}
use brisedb.Store.{Store, Laws}
use brisedb.Tx.{Transaction, pop_transaction}
use brisedb.Tx.Merge.{IsConsistent}
use brisedb.Session.{Db, Env, Session, expired, get, get_now}
use brisedb.Session.Installs.{get_now-some, get_now_of}
use brisedb.Session.Reads.{get-none_open}
use brisedb.Session.Commit.{
  Pending, buffered_expiry, then_do, write_blobs, install_sets, remove_keys, log_sets, log_deletes,
  publish, commit_transaction,
}
use brisedb.Session.Commit.Steps.{
  then_do-ok, installed, Pends, BlobsRoom, SetsRoom, DeletesRoom, log_sets-state, log_deletes-state,
  install_sets-index, install_sets-read, remove_keys-index, remove_keys-read, write_blobs-Pends,
}

module _ (st : Store) (xs : Assoc Bytes (Option ℕ)) (s : st.State) (j : Bytes) where
  installed-absent :
      (m : Assoc Bytes Bytes) (ps : List Pending) (o : Option (NeedleAddr × ℕ))
      → Pends st xs s m ps
      → lookup j m ≡ none
      → installed j ps o ≡ o
  unfolding Pends installed lookup
  installed-absent [] [] o p h = refl
  installed-absent [] (q ∷ ps) o p h = absurd p
  installed-absent ((k, v) ∷ m) [] o p h = absurd p
  installed-absent ((k, v) ∷ m) (q ∷ ps) o (e, x, r, p) h =
      let other : (k == j) ≡ false = ground (arith, h) in
      let later : lookup j m ≡ none = ground (arith, h) in
      rw (e, other) (installed-absent m ps o p later)

  installed-present :
      (m : Assoc Bytes Bytes) (ps : List Pending) (o : Option (NeedleAddr × ℕ)) (v : Bytes)
      → Pends st xs s m ps
      → Unique m
      → lookup j m ≡ some v
      → (a : NeedleAddr) × (installed j ps o ≡ some (a, buffered_expiry j xs))
        × (st.read a s ≡ ok v)
  unfolding Pends installed lookup
  installed-present [] ps o v p u h = absurd (ground (arith, h))
  installed-present ((k, w) ∷ m) [] o v p u h = absurd p
  installed-present ((k, w) ∷ m) (q ∷ ps) o v (e, x, r, p) (u, us) h = elim (Bool-cases (k == j)) [
    | inl same ↦
        let here : k ≡ j = (==_iff k j).0 same in
        let value : w ≡ v = ground (arith, h, same) in
        (
          q.addr,
          rw (e, same, installed)
              (installed-absent m ps (some (q.addr, q.expires_at)) p
                  (subst (λ i. lookup i m ≡ none) here u)
                ∙ ap (λ y. some (q.addr, y)) (x ∙ ap (λ i. buffered_expiry i xs) here)),
          r ∙ ap ok value,
        )
    | inr other ↦
        let later : lookup j m ≡ some v = ground (arith, h, other) in
        let (a, i, d) = installed-present m ps o v p us later in (a, rw (e, other, installed) i, d)
  ]

-- Room for the blobs and the entries of a commit.
pub record CommitRoom (st : Store) (laws : Laws st) (e : Env st) (t : Transaction) (db : Db st)
    : Type 0 where
  pub blobs : BlobsRoom st laws e t.store db.state
  pub sets :
      (ps : List Pending)
      → (write_blobs st e t.expiry t.store db.state).1 ≡ ok ps
      → SetsRoom st laws e ps (write_blobs st e t.expiry t.store db.state).0
  pub deletes :
      (ps : List Pending)
      → (write_blobs st e t.expiry t.store db.state).1 ≡ ok ps
      → DeletesRoom st laws e t.deleted
          (install_sets st e ps
            (record db { state = (write_blobs st e t.expiry t.store db.state).0 })).0.state

module _ (st : Store) (e : Env st) (t : Transaction) (db : Db st) where
  abbrev with_blobs : Db st
  with_blobs = record db { state = (write_blobs st e t.expiry t.store db.state).0 }

  publish-parts :
      (publish st e t db).1 ≡ ok tt
      → (ps : List Pending) × ((write_blobs st e t.expiry t.store db.state).1 ≡ ok ps)
        × ((install_sets st e ps with_blobs).1 ≡ ok tt)
        × ((remove_keys st e t.deleted (install_sets st e ps with_blobs).0).1 ≡ ok tt)
        × ((publish st e t db).0.state
            ≡ (remove_keys st e t.deleted (install_sets st e ps with_blobs).0).0.state)
  unfolding publish
  publish-parts h = elim (Result-cases (write_blobs st e t.expiry t.store db.state).1) [
    | inr (inl (b, r)) ↦ absurd (ground (arith, r))
    | inr (inr r) ↦ absurd (ground (arith, r))
    | inl (ps, r) ↦
        let i = install_sets st e ps with_blobs in
        let d = then_do (remove_keys st e t.deleted) i in
        let l = then_do (log_sets st e ps) d in
        let h₁ : (then_do (log_deletes st e t.deleted) l).1 ≡ ok tt = rw (r, publish) at h in
        let (w₃, e₃) = then_do-ok (log_deletes st e t.deleted) l h₁ in
        let (w₂, e₂) = then_do-ok (log_sets st e ps) d w₃ in
        let (w₁, e₁) = then_do-ok (remove_keys st e t.deleted) i w₂ in
        (
          ps,
          r,
          w₁,
          ap (λ q. q.1) (sym e₁) ∙ w₂,
          rw (r, publish)
              (ap (λ q. q.0.state) e₃
                ∙ log_deletes-state st e t.deleted l.0
                ∙ ap (λ q. q.0.state) e₂
                ∙ log_sets-state st e ps d.0
                ∙ ap (λ q. q.0.state) e₁),
        )
  ]

module _ (st : Store) (laws : Laws st) (e : Env st) (t : Transaction) (db db' : Db st)
    (m : CommitRoom st laws e t db) (c : IsConsistent t) (h : (publish st e t db).1 ≡ ok tt)
    (final : db'.state ≡ (publish st e t db).0.state) where
  published :
      (ps : List Pending) × Pends st t.expiry
        (write_blobs st e t.expiry t.store db.state).0
        t.store
        ps
      × ((j : Bytes)
          → st.index_get j db'.state
            ≡ (if mem j t.deleted then none else installed j ps (st.index_get j db.state)))
      × ((a : NeedleAddr) (d : Bytes)
          → st.read a (write_blobs st e t.expiry t.store db.state).0 ≡ ok d
          → st.read a db'.state ≡ ok d)
      × ((a : NeedleAddr) (d : Bytes) → st.read a db.state ≡ ok d → st.read a db'.state ≡ ok d)
  published =
      let (ps, w₁, w₂, w₃, same) = publish-parts st e t db h in
      let i = (install_sets st e ps (with_blobs st e t db)).0 in
      let (gets, reads, pends) =
        write_blobs-Pends st laws e t.expiry t.store db.state ps m.blobs w₁ in
      let keep : (a : NeedleAddr) → st.read a db'.state ≡ st.read a (with_blobs st e t db).state =
        λ a.
          ap (st.read a) (final ∙ same)
          ∙ remove_keys-read st laws e t.deleted i a w₃
          ∙ install_sets-read st laws e ps (with_blobs st e t db) a w₂ in
      (
        ps,
        pends,
        λ j.
            ap (st.index_get j) (final ∙ same)
            ∙ remove_keys-index st laws e t.deleted i j (m.deletes ps w₁) w₃
            ∙ ap (λ o. if mem j t.deleted then none else o)
                (install_sets-index st laws e ps (with_blobs st e t db) j (m.sets ps w₁) w₂
                  ∙ ap (installed j ps) (gets j)),
        λ a d r. keep a ∙ r,
        λ a d r. keep a ∙ reads a d r,
      )

  get_now-stored :
      (j v : Bytes) (now : ℕ)
      → lookup j t.store ≡ some v
      → get_now st j now db' ≡ (if expired now (buffered_expiry j t.expiry) then none else some v)
  unfolding get_now
  get_now-stored j v now g =
      let (ps, pends, index, new, old) = published in
      let kept : mem j t.deleted ≡ false = elim (Bool-cases (mem j t.deleted)) [
        | inl gone ↦ absurd (ground (arith, g, c.exclusive j gone))
        | inr kept ↦ kept
      ] in
      let (a, i, r) =
        installed-present st t.expiry (write_blobs st e t.expiry t.store db.state).0 j t.store ps
          (st.index_get j db.state) v pends c.unique g in
      let hit : st.index_get j db'.state ≡ some (a, buffered_expiry j t.expiry) =
        index j ∙ rw kept i in
      rw (hit, get_now) (rw (new a v r, get_now) refl)

  get_now-deleted : (j : Bytes) (now : ℕ) → mem j t.deleted ≡ true → get_now st j now db' ≡ none
  unfolding get_now
  get_now-deleted j now g =
      let (ps, pends, index, new, old) = published in
      let miss : st.index_get j db'.state ≡ none = index j ∙ rw g refl in rw (miss, get_now) refl

  get_now-other :
      (j w : Bytes) (now : ℕ)
      → lookup j t.store ≡ none
      → mem j t.deleted ≡ false
      → get_now st j now db ≡ some w
      → get_now st j now db' ≡ some w
  get_now-other j w now absent kept g =
      let (ps, pends, index, new, old) = published in
      let (a, y, found, fresh, r) = get_now-some st j now db w g in
      get_now_of st j now db' a y w
        (index j
          ∙ rw kept (
              installed-absent st t.expiry (write_blobs st e t.expiry t.store db.state).0 j t.store
                ps (st.index_get j db.state) pends absent
              ∙ found))
        fresh (old a w r)

module _ (st : Store) (laws : Laws st) where
  commit-open :
      (e : Env st) (s : Session st) (t : Transaction)
      → s.stack.top ≡ t ∷ []
      → (commit_transaction st e s).1 ≡ ok tt
      → ((publish st e t s.db).1 ≡ ok tt)
        × ((commit_transaction st e s).0.db ≡ (publish st e t s.db).0)
        × ((commit_transaction st e s).0.stack.top ≡ [])
  unfolding commit_transaction pop_transaction
  commit-open e s t one h = elim (Result-cases (publish st e t s.db).1) [
    | inl (u, r) ↦ (r, ground (arith, one, r), ground (arith, one, r))
    | inr (inl (b, r)) ↦ absurd (ground (arith, one, r))
    | inr (inr r) ↦ absurd (ground (arith, one, r))
  ]

  -- A commit, with room, of an outermost transaction in which no key is both stored and deleted, that reports success closes it, and what it buffered is
  -- then what Get reads: a stored key has its value until its buffered deadline, a deleted key is
  -- gone, and every other key that had a value keeps it.
  pub commit_publishes :
      (e : Env st) (s : Session st) (t : Transaction)
      → s.stack.top ≡ t ∷ []
      → IsConsistent t
      → CommitRoom st laws e t s.db
      → (commit_transaction st e s).1 ≡ ok tt
      → let s' = (commit_transaction st e s).0 in
        (s'.stack.top ≡ [])
        × ((j v : Bytes) (now : ℕ)
            → lookup j t.store ≡ some v
            → get st j now s' ≡ (if expired now (buffered_expiry j t.expiry) then none else some v))
        × ((j : Bytes) (now : ℕ) → mem j t.deleted ≡ true → get st j now s' ≡ none)
        × ((j w : Bytes) (now : ℕ)
            → lookup j t.store ≡ none
            → mem j t.deleted ≡ false
            → get_now st j now s.db ≡ some w
            → get st j now s' ≡ some w)
  commit_publishes e s t one c m h =
      let s' = (commit_transaction st e s).0 in
      let (w, same, closed) = commit-open e s t one h in
      let final = ap (λ (db : Db st). db.state) same in
      (
        closed,
        λ j v now g.
            get-none_open st s' closed j now
            ∙ get_now-stored st laws e t s.db s'.db m c w final j v now g,
        λ j now g.
            get-none_open st s' closed j now
            ∙ get_now-deleted st laws e t s.db s'.db m c w final j now g,
        λ j v now a k g.
            get-none_open st s' closed j now
            ∙ get_now-other st laws e t s.db s'.db m c w final j v now a k g,
      )
