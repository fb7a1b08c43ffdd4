-- ===== src/Tx/Merge.antt =====
-- What the stack says of a key after each operation, and after a nested commit.
use brisedb.Prelude.{
  ℕ, ◌≡◌, refl, ap, inl, inr, true, not, ◌&&◌, ◌||◌, Option, none, some, List, [], ◌∷◌, Bytes,
  if◌then◌else◌, ◌==◌, ==_iff, nat_eq, list_eq, Bool-cases, arith,
}
use brisedb.Prelude.Assoc.{
  Assoc, lookup, insert, delete, mem, discard, lookup-insert, lookup-delete, mem-discard, Unique,
  insert-Unique, delete-Unique,
}
use brisedb.Tx.{
  Transaction, empty, buffer_set, buffer_delete, gone, value, effective, merge_store, merge_deleted,
  merge_expiry, merge, is_some,
}

-- A transaction never holds a key both as deleted and as stored, and no key twice in its store.
pub record IsConsistent (t : Transaction) : Type 0 where
  pub unique : Unique t.store
  pub exclusive : (k : Bytes) → mem k t.deleted ≡ true → lookup k t.store ≡ none

pub empty-IsConsistent : IsConsistent empty
unfolding mem
empty-IsConsistent = record { unique = tt; exclusive = λ k h. cc }

pub buffer_set-IsConsistent :
    (k v : Bytes) (x : Option ℕ) (t : Transaction)
    → IsConsistent t
    → IsConsistent (buffer_set k v x t)
unfolding buffer_set
buffer_set-IsConsistent k v x t c = record {
  unique = insert-Unique k v t.store c.unique;
  exclusive =
      λ j h. ground (arith, lookup-insert k j v t.store, mem-discard j k t.deleted, c.exclusive j);
}

mem_marked :
    (j k : Bytes) (l : List Bytes) → mem j (if mem k l then l else k ∷ l) ≡ (k == j || mem j l)
unfolding mem
mem_marked j k l = elim (Bool-cases (mem k l)) [
  | inl h ↦ rw h (ground (arith, ==_iff k j, h, ap (λ i. mem i l)))
  | inr h ↦ rw h refl
]

pub buffer_delete-IsConsistent :
    (k : Bytes) (t : Transaction) → IsConsistent t → IsConsistent (buffer_delete k t)
unfolding buffer_delete
buffer_delete-IsConsistent k t c = record {
  unique = delete-Unique k t.store c.unique;
  exclusive =
      λ j h. ground (arith, lookup-delete k j t.store, mem_marked j k t.deleted, c.exclusive j);
}

-- A buffered Set gives the value for its key, and leaves every other key as it was.
pub effective-buffer_set :
    (k v : Bytes) (x : Option ℕ) (t : Transaction) (ts : List Transaction) (j : Bytes)
    → effective j (buffer_set k v x t ∷ ts) ≡ (if k == j then value v else effective j (t ∷ ts))
unfolding effective buffer_set
effective-buffer_set k v x t ts j =
    ground (arith, lookup-insert k j v t.store, mem-discard j k t.deleted)

-- A buffered Delete hides its key, and leaves every other key as it was.
pub effective-buffer_delete :
    (k : Bytes) (t : Transaction) (ts : List Transaction) (j : Bytes)
    → effective j (buffer_delete k t ∷ ts) ≡ (if k == j then gone else effective j (t ∷ ts))
unfolding effective buffer_delete
effective-buffer_delete k t ts j =
    ground (arith, lookup-delete k j t.store, mem_marked j k t.deleted)

-- The loops of a nested commit, by what they make of one key.
store-merge_expiry :
    (m : Assoc Bytes (Option ℕ)) (p : Transaction)
    → ((merge_expiry m p).store ≡ p.store) × ((merge_expiry m p).deleted ≡ p.deleted)
unfolding merge_expiry
store-merge_expiry [] p = (refl, refl)
store-merge_expiry ((k, x) ∷ m) p = store-merge_expiry m (record p { expiry = insert k x p.expiry })

abbrev marked : Bytes → Transaction → Transaction
marked k p = record p {
  store = delete k p.store;
  deleted = if mem k p.deleted then p.deleted else k ∷ p.deleted;
}

abbrev stored : Bytes → Bytes → Transaction → Transaction
stored k v p = record p { deleted = discard k p.deleted; store = insert k v p.store }

merge_deleted-keys :
    (ks : List Bytes) (p : Transaction) (j : Bytes)
    → (mem j (merge_deleted ks p).deleted ≡ (mem j ks || mem j p.deleted))
      × (lookup j (merge_deleted ks p).store ≡ (if mem j ks then none else lookup j p.store))
unfolding merge_deleted mem
merge_deleted-keys [] p j = (refl, refl)
merge_deleted-keys (k ∷ ks) p j =
    let (a, b) = merge_deleted-keys ks (marked k p) j in
    ground (arith, a, b, mem_marked j k p.deleted, lookup-delete k j p.store)

abbrev first : Option Bytes → Option Bytes → Option Bytes
first none b = b
first (some v) b = some v

merge_store-keys :
    (m : Assoc Bytes Bytes) (p : Transaction) (j : Bytes)
    → Unique m
    → (lookup j (merge_store m p).store ≡ first (lookup j m) (lookup j p.store))
      × (mem j (merge_store m p).deleted ≡ (not (is_some (lookup j m)) && mem j p.deleted))
unfolding merge_store lookup is_some
merge_store-keys [] p j u = (refl, refl)
merge_store-keys ((k, v) ∷ m) p j (h, u) =
    let (a, b) = merge_store-keys m (stored k v p) j u in
    ground (
      arith,
      a,
      b,
      h,
      lookup-insert k j v p.store,
      mem-discard j k p.deleted,
      ==_iff k j,
      ap (λ i. lookup i m),
    )

pub effective-merge :
    (t p : Transaction) (ts : List Transaction) (j : Bytes)
    → IsConsistent t
    → effective j (merge t p ∷ ts) ≡ effective j (t ∷ p ∷ ts)
unfolding effective merge is_some
effective-merge t p ts j c =
    let (s, d) = store-merge_expiry t.expiry (merge_deleted t.deleted (merge_store t.store p)) in
    let (d₁, s₁) = merge_deleted-keys t.deleted (merge_store t.store p) j in
    let (s₂, d₂) = merge_store-keys t.store p j c.unique in
    ground
      (arith, ap (λ l. mem j l) d, ap (λ (l : Assoc Bytes Bytes). lookup j l) s, d₁, s₁, s₂, d₂)
