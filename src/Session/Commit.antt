-- ===== src/Session/Commit.antt =====
-- CommitTransaction of pkg/brisedb/session.go. A map is visited in the order of its association
-- list. The shards of all keys are locked while the index changes, so that this part is one step.
pub mod Nested
pub mod Published
pub mod Steps
mod Tests
use brisedb.Prelude.{
  ℕ, Bool, true, false, Option, none, some, List, [], ◌∷◌, Bytes, if◌then◌else◌, ◌==◌, nat_eq,
  list_eq,
}
use brisedb.Prelude.Assoc.{Assoc, lookup, delete}
use brisedb.Types.{NeedleAddr, Result, ok, err, panic, nothing_to_commit}
use brisedb.Store.{Store}
use brisedb.Tx.{Transaction, merge, pop_transaction}
use brisedb.Session.{Db, Env, Session, set_line, set_message, delete_line, set_expiry, log_and_send}

-- pendingSet
pub record Pending : Type 0 where
  pub key : Bytes
  pub value : Bytes
  pub addr : NeedleAddr
  pub expires_at : ℕ

-- `if exp, ok := active.expiry[key]; ok && !exp.IsZero() { expiresAt = exp.UnixNano() }`
unfoldable pub buffered_expiry : Bytes → Assoc Bytes (Option ℕ) → ℕ
buffered_expiry key m = elim (lookup key m) [ none ↦ 0 | some none ↦ 0 | some (some x) ↦ x ]

abbrev pub then_do {ℓ κ} :
    {A : Type ℓ} {B : Type κ} → (A → A × Result B) → A × Result B → A × Result B
then_do f (a, ok b) = f a
then_do f (a, err x) = (a, err x)
then_do f (a, panic) = (a, panic)

module _ (st : Store) where
  abbrev add_pending :
      Bytes → Bytes → ℕ → NeedleAddr → Result (List Pending) → Result (List Pending)
  add_pending k v x a (ok ps) = ok (record { key = k; value = v; addr = a; expires_at = x } ∷ ps)
  add_pending k v x a (err y) = err y
  add_pending k v x a panic = panic

  -- The blobs, before any lock is taken.
  unfoldable pub write_blobs :
      Env st
      → Assoc Bytes (Option ℕ)
      → Assoc Bytes Bytes
      → st.State
      → st.State × Result (List Pending)
  write_blobs e xs [] s = (s, ok [])
  write_blobs e xs ((k, v) ∷ m) s =
      let (s₁, r₁) = st.write (e.blob k) v s in
      let (s₂, r₂) = write_blobs e xs m s₁ in
      elim r₁ [
        | err y ↦ (s₁, err y)
        | panic ↦ (s₁, panic)
        | ok a ↦ (s₂, add_pending k v (buffered_expiry k xs) a r₂)
      ]

  -- The expiry map and the index, for each blob.
  unfoldable pub install_sets : Env st → List Pending → Db st → Db st × Result (Unit {0})
  install_sets e [] db = (db, ok tt)
  install_sets e (p ∷ ps) db =
      let (s, r) = st.index_set (e.index p.key) p.key p.addr p.expires_at db.state in
      then_do (install_sets e ps)
        (record db { state = s; expiry = set_expiry st p.key p.expires_at db.expiry }, r)

  -- The index and the expiry map, for each deleted key.
  unfoldable pub remove_keys : Env st → List Bytes → Db st → Db st × Result (Unit {0})
  remove_keys e [] db = (db, ok tt)
  remove_keys e (k ∷ ks) db =
      let rest = remove_keys e ks (record db { expiry = delete k db.expiry }) in
      let (s, r) = st.index_delete (e.index k) k db.state in
      let removed = remove_keys e ks (record db { state = s; expiry = delete k db.expiry }) in
      elim (st.index_get k db.state) [
        | none ↦ rest
        | some found ↦ elim r [
          | ok u ↦ removed
          | err y ↦ (record db { state = s }, err y)
          | panic ↦ (record db { state = s }, panic)
        ]
      ]

  -- The log and the replicas, when the locks are released.
  unfoldable pub log_sets : Env st → List Pending → Db st → Db st × Result (Unit {0})
  log_sets e [] db = (db, ok tt)
  log_sets e (p ∷ ps) db = then_do (log_sets e ps) (
      log_and_send st e (set_line p.key p.addr p.expires_at)
        (set_message p.key p.value p.expires_at ∷ []) db)

  unfoldable pub log_deletes : Env st → List Bytes → Db st → Db st × Result (Unit {0})
  log_deletes e [] db = (db, ok tt)
  log_deletes e (k ∷ ks) db =
      then_do (log_deletes e ks) (log_and_send st e (delete_line k) (delete_line k ∷ []) db)

  -- The part of CommitTransaction for the outermost transaction, but for the pop at its end.
  unfoldable pub publish : Env st → Transaction → Db st → Db st × Result (Unit {0})
  publish e t db =
      let (s, r) = write_blobs e t.expiry t.store db.state in
      elim r [
        | err y ↦ (record db { state = s }, err y)
        | panic ↦ (record db { state = s }, panic)
        | ok ps ↦ then_do (log_deletes e t.deleted) (
            then_do (log_sets e ps)
              (then_do (remove_keys e t.deleted) (install_sets e ps (record db { state = s }))))
      ]

  abbrev popped : Session st → Session st × Result (Unit {0})
  popped s = let (stack, r) = pop_transaction s.stack in (record s { stack = stack }, r)

  -- CommitTransaction. A failure leaves the transaction open.
  unfoldable pub commit_transaction : Env st → Session st → Session st × Result (Unit {0})
  commit_transaction e s = elim s.stack.top [
    | [] ↦ (s, err nothing_to_commit)
    | t ∷ [] ↦ then_do popped (let (db, r) = publish e t s.db in (record s { db = db }, r))
    | t ∷ p ∷ ts ↦
        popped (record s { stack = record { top = t ∷ merge t p ∷ ts; size = s.stack.size } })
  ]
