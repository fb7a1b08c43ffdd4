-- ===== src/Session/Commit/Steps.antt =====
-- The parts of the commit of an outermost transaction, by what they make of the index and the blobs.
use brisedb.Prelude.{
  ℕ, ◌≡◌, refl, sym, ap, ◌∙◌, subst, inl, inr, Option, none, some, List, [], ◌∷◌, Bytes, ◌⊎◌,
  if◌then◌else◌, ◌==◌, ==_iff, nat_eq, list_eq, Option-cases, arith,
}
use brisedb.Prelude.Assoc.{Assoc, delete, mem}
use brisedb.Types.{NeedleAddr, no_addr, Result, ok, err, panic, Result-cases}
use brisedb.Store.{Store, Laws}
use brisedb.Session.{Db, Env, set_line, set_message, delete_line, set_expiry}
use brisedb.Session.Installs.{log_and_send-state}
use brisedb.Session.Commit.{
  Pending, buffered_expiry, then_do, write_blobs, install_sets, remove_keys, log_sets, log_deletes,
}

pub then_do-ok {ℓ} :
    {A : Type ℓ} (f : A → A × Result (Unit {0})) (r : A × Result (Unit {0}))
    → (then_do f r).1 ≡ ok tt
    → (r.1 ≡ ok tt) × (then_do f r ≡ f r.0)
then_do-ok f (a, ok u) h = (refl, refl)
then_do-ok f (a, err x) h = absurd (ground (arith, h))
then_do-ok f (a, panic) h = absurd (ground (arith, h))

-- The index entry of a key behind the pending sets: the last one counts.
unfoldable pub installed : Bytes → List Pending → Option (NeedleAddr × ℕ) → Option (NeedleAddr × ℕ)
installed j [] o = o
installed j (p ∷ ps) o = installed j ps (if p.key == j then some (p.addr, p.expires_at) else o)

module _ (st : Store) where
  open st use {State, index_get, index_set, index_delete, write, read}

  -- The pending sets of a store, whose blobs can be read.
  unfoldable pub Pends : Assoc Bytes (Option ℕ) → State → Assoc Bytes Bytes → List Pending → Type 0
  Pends xs s [] [] = Unit {0}
  Pends xs s [] (p ∷ ps) = ⊥
  Pends xs s ((k, v) ∷ m) [] = ⊥
  Pends xs s ((k, v) ∷ m) (p ∷ ps) =
      (p.key ≡ k) × (p.expires_at ≡ buffered_expiry k xs) × (read p.addr s ≡ ok v) × Pends xs s m ps

  unfoldable pub after_delete : Env st → Bytes → State → State
  after_delete e k s = elim (index_get k s) [
    | none ↦ s
    | some found ↦ (index_delete (e.index k) k s).0
  ]

  then_do-state :
      (f : Db st → Db st × Result (Unit {0})) (r : Db st × Result (Unit {0})) (s : State)
      → ((db : Db st) → (f db).0.state ≡ db.state)
      → r.0.state ≡ s
      → (then_do f r).0.state ≡ s
  then_do-state f (db, ok u) s same h = same db ∙ h
  then_do-state f (db, err x) s same h = h
  then_do-state f (db, panic) s same h = h

  pub log_sets-state :
      (e : Env st) (ps : List Pending) (db : Db st) → (log_sets st e ps db).0.state ≡ db.state
  unfolding log_sets
  log_sets-state e [] db = refl
  log_sets-state e (p ∷ ps) db = then_do-state (log_sets st e ps) _ db.state (log_sets-state e ps) (
      log_and_send-state st e (set_line p.key p.addr p.expires_at)
        (set_message p.key p.value p.expires_at ∷ []) db)

  pub log_deletes-state :
      (e : Env st) (ks : List Bytes) (db : Db st) → (log_deletes st e ks db).0.state ≡ db.state
  unfolding log_deletes
  log_deletes-state e [] db = refl
  log_deletes-state e (k ∷ ks) db =
      then_do-state (log_deletes st e ks) _ db.state (log_deletes-state e ks)
        (log_and_send-state st e (delete_line k) (delete_line k ∷ []) db)

module _ (st : Store) (laws : Laws st) (e : Env st) where
  open st use {State, index_get, index_set, index_delete, write, read}
  open laws use {Valid, Fits, Space}

  -- Room for each of the writes, in the state in which it happens.
  unfoldable pub BlobsRoom : Assoc Bytes Bytes → State → Type 0
  BlobsRoom [] s = Unit {0}
  BlobsRoom ((k, v) ∷ m) s = Valid s × Space s v × BlobsRoom m (write (e.blob k) v s).0

  unfoldable pub SetsRoom : List Pending → State → Type 0
  SetsRoom [] s = Unit {0}
  SetsRoom (p ∷ ps) s =
      Valid s
      × Fits s p.key p.addr p.expires_at
      × SetsRoom ps (index_set (e.index p.key) p.key p.addr p.expires_at s).0

  unfoldable pub DeletesRoom : List Bytes → State → Type 0
  DeletesRoom [] s = Unit {0}
  DeletesRoom (k ∷ ks) s = Valid s × Fits s k no_addr 0 × DeletesRoom ks (after_delete st e k s)

  pub install_sets-index :
      (ps : List Pending) (db : Db st) (j : Bytes)
      → SetsRoom ps db.state
      → (install_sets st e ps db).1 ≡ ok tt
      → index_get j (install_sets st e ps db).0.state ≡ installed j ps (index_get j db.state)
  unfolding install_sets installed SetsRoom
  install_sets-index [] db j m h = refl
  install_sets-index (p ∷ ps) db j (v, f, m) h =
      let r = index_set (e.index p.key) p.key p.addr p.expires_at db.state in
      let db₁ : Db st = record db {
        state = r.0;
        expiry = set_expiry st p.key p.expires_at db.expiry;
      } in
      let (w, same) = then_do-ok (install_sets st e ps) (db₁, r.1) h in
      ap (λ q. index_get j q.0.state) same
      ∙ install_sets-index ps db₁ j m (ap (λ q. q.1) (sym same) ∙ h)
      ∙ ap (installed j ps)
          (laws.get-set (e.index p.key) p.key p.addr p.expires_at db.state j v f w)

  pub install_sets-read :
      (ps : List Pending) (db : Db st) (a : NeedleAddr)
      → (install_sets st e ps db).1 ≡ ok tt
      → read a (install_sets st e ps db).0.state ≡ read a db.state
  unfolding install_sets
  install_sets-read [] db a h = refl
  install_sets-read (p ∷ ps) db a h =
      let r = index_set (e.index p.key) p.key p.addr p.expires_at db.state in
      let db₁ : Db st = record db {
        state = r.0;
        expiry = set_expiry st p.key p.expires_at db.expiry;
      } in
      let (w, same) = then_do-ok (install_sets st e ps) (db₁, r.1) h in
      ap (λ q. read a q.0.state) same
      ∙ install_sets-read ps db₁ a (ap (λ q. q.1) (sym same) ∙ h)
      ∙ laws.read-set (e.index p.key) p.key p.addr p.expires_at db.state a

  -- One deleted key.
  abbrev pub removed : Bytes → Db st → Db st
  removed k db = record db { state = after_delete st e k db.state; expiry = delete k db.expiry }

  remove_keys-step :
      (k : Bytes) (ks : List Bytes) (db : Db st)
      → (remove_keys st e (k ∷ ks) db).1 ≡ ok tt
      → (remove_keys st e (k ∷ ks) db ≡ remove_keys st e ks (removed k db))
        × ((index_get k db.state ≡ none) ⊎ ((index_delete (e.index k) k db.state).1 ≡ ok tt))
  unfolding remove_keys after_delete
  remove_keys-step k ks db h = elim (Option-cases (index_get k db.state)) [
    | inl miss ↦ (rw (miss, remove_keys, after_delete) refl, inl miss)
    | inr (found, hit) ↦ elim (Result-cases (index_delete (e.index k) k db.state).1) [
      | inl (u, r) ↦ (rw (hit, remove_keys, after_delete) (rw (r, remove_keys) refl), inr r)
      | inr (inl (b, r)) ↦ absurd (ground (arith, hit, r))
      | inr (inr r) ↦ absurd (ground (arith, hit, r))
    ]
  ]

  index_get-after_delete :
      (k : Bytes) (s : State) (j : Bytes)
      → Valid s
      → Fits s k no_addr 0
      → (index_get k s ≡ none) ⊎ ((index_delete (e.index k) k s).1 ≡ ok tt)
      → index_get j (after_delete st e k s) ≡ (if k == j then none else index_get j s)
  unfolding after_delete
  index_get-after_delete k s j v f (inl miss) =
      rw (miss, after_delete) (ground (arith, miss, ==_iff k j, ap (λ i. index_get i s)))
  index_get-after_delete k s j v f (inr r) = elim (Option-cases (index_get k s)) [
    | inl miss ↦ rw (miss, after_delete) (ground (arith, miss, ==_iff k j, ap (λ i. index_get i s)))
    | inr (found, hit) ↦ rw (hit, after_delete) (laws.get-delete (e.index k) k s j v f r)
  ]

  read-after_delete :
      (k : Bytes) (s : State) (a : NeedleAddr) → read a (after_delete st e k s) ≡ read a s
  unfolding after_delete
  read-after_delete k s a = elim (Option-cases (index_get k s)) [
    | inl miss ↦ rw (miss, after_delete) refl
    | inr (found, hit) ↦ rw (hit, after_delete) (laws.read-delete (e.index k) k s a)
  ]

  pub remove_keys-index :
      (ks : List Bytes) (db : Db st) (j : Bytes)
      → DeletesRoom ks db.state
      → (remove_keys st e ks db).1 ≡ ok tt
      → index_get j (remove_keys st e ks db).0.state
        ≡ (if mem j ks then none else index_get j db.state)
  unfolding DeletesRoom mem remove_keys
  remove_keys-index [] db j m h = refl
  remove_keys-index (k ∷ ks) db j (v, f, m) h =
      let (same, w) = remove_keys-step k ks db h in
      ap (λ q. index_get j q.0.state) same
      ∙ remove_keys-index ks (removed k db) j m (ap (λ q. q.1) (sym same) ∙ h)
      ∙ ground (arith, index_get-after_delete k db.state j v f w)

  pub remove_keys-read :
      (ks : List Bytes) (db : Db st) (a : NeedleAddr)
      → (remove_keys st e ks db).1 ≡ ok tt
      → read a (remove_keys st e ks db).0.state ≡ read a db.state
  unfolding remove_keys
  remove_keys-read [] db a h = refl
  remove_keys-read (k ∷ ks) db a h =
      let (same, w) = remove_keys-step k ks db h in
      ap (λ q. read a q.0.state) same
      ∙ remove_keys-read ks (removed k db) a (ap (λ q. q.1) (sym same) ∙ h)
      ∙ read-after_delete k db.state a

  -- The blobs.
  abbrev pending : Bytes → Bytes → ℕ → NeedleAddr → Pending
  pending k v x a = record { key = k; value = v; addr = a; expires_at = x }

  write_blobs-step :
      (xs : Assoc Bytes (Option ℕ)) (k v : Bytes) (m : Assoc Bytes Bytes) (s : State)
      (ps : List Pending)
      → (write_blobs st e xs ((k, v) ∷ m) s).1 ≡ ok ps
      → (a : NeedleAddr) × (qs : List Pending) × ((write (e.blob k) v s).1 ≡ ok a)
        × ((write_blobs st e xs m (write (e.blob k) v s).0).1 ≡ ok qs)
        × (ps ≡ pending k v (buffered_expiry k xs) a ∷ qs)
        × ((write_blobs st e xs ((k, v) ∷ m) s).0
            ≡ (write_blobs st e xs m (write (e.blob k) v s).0).0)
  unfolding write_blobs
  write_blobs-step xs k v m s ps h = elim (Result-cases (write (e.blob k) v s).1) [
    | inr (inl (b, r)) ↦ absurd (ground (arith, r))
    | inr (inr r) ↦ absurd (ground (arith, r))
    | inl (a, r) ↦ elim (Result-cases (write_blobs st e xs m (write (e.blob k) v s).0).1) [
      | inr (inl (b, q)) ↦ absurd (ground (arith, r, q))
      | inr (inr q) ↦ absurd (ground (arith, r, q))
      | inl (qs, q) ↦ (a, qs, r, q, ground (arith, r, q), ground (arith, r, q))
    ]
  ]

  pub write_blobs-Pends :
      (xs : Assoc Bytes (Option ℕ)) (m : Assoc Bytes Bytes) (s : State) (ps : List Pending)
      → BlobsRoom m s
      → (write_blobs st e xs m s).1 ≡ ok ps
      → let s' = (write_blobs st e xs m s).0 in
        ((j : Bytes) → index_get j s' ≡ index_get j s)
        × ((a : NeedleAddr) (d : Bytes) → read a s ≡ ok d → read a s' ≡ ok d)
        × Pends st xs s' m ps
  unfolding write_blobs BlobsRoom Pends
  write_blobs-Pends xs [] s ps room h =
      let e₀ : [] ≡ ps = ground (arith, h) in
      (λ j. refl, λ a d r. r, subst (Pends st xs s []) e₀ tt)
  write_blobs-Pends xs ((k, v) ∷ m) s ps (valid, space, room) h =
      let (a, qs, r, q, e₁, e₂) = write_blobs-step xs k v m s ps h in
      let (gets, reads, pends) = write_blobs-Pends xs m (write (e.blob k) v s).0 qs room q in
      (
        λ j. ap (index_get j) e₂ ∙ gets j ∙ laws.get-write (e.blob k) v s j,
        λ b d g. ap (read b) e₂ ∙ reads b d (laws.read-write_old (e.blob k) v s b d g),
        subst (λ s'. Pends st xs s' ((k, v) ∷ m) ps) (sym e₂)
            (subst (Pends st xs (write_blobs st e xs m (write (e.blob k) v s).0).0 ((k, v) ∷ m))
              (sym e₁)
              (refl, refl, reads a v (laws.read-write (e.blob k) v s a valid space r), pends)),
      )
