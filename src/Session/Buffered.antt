-- ===== src/Session/Buffered.antt =====
-- The operations of a session inside a transaction.
use brisedb.Prelude.{
  ℕ, ◌+◌, ◌≤◌, ◌<◌, ◌≡◌, refl, ap, ◌∙◌, Bool-cases, inl, inr, false, Option, none, some, List, [],
  ◌∷◌, Bytes, if◌then◌else◌, ◌==◌, ==_refl, nat_eq, list_eq, arith,
}
use brisedb.Prelude.Assoc.{mem, lookup, mem-discard, lookup-insert}
use brisedb.Types.{ok, err, no_transaction}
use brisedb.Store.{Store}
use brisedb.Tx.{
  Transaction, effective, buffer_set, buffer_delete, push_transaction, pop_transaction, empty, dead,
}
use brisedb.Tx.Merge.{effective-buffer_set, effective-buffer_delete}
use brisedb.Session.{
  Env, Session, get, set, set_ex, delete_key, begin_transaction, rollback_transaction, ttl, ttl_in,
}

ttl_buffered :
    (k v : Bytes) (x : Option ℕ) (t : Transaction)
    → (mem k (buffer_set k v x t).deleted ≡ false)
      × (lookup k (buffer_set k v x t).store ≡ some v)
      × (lookup k (buffer_set k v x t).expiry ≡ some x)
unfolding buffer_set
ttl_buffered k v x t = ground (
  arith,
  mem-discard k k t.deleted,
  lookup-insert k k v t.store,
  lookup-insert k k x t.expiry,
  ==_refl k,
)

module _ (st : Store) where
  -- The calls that a transaction buffers.
  pub data TxCall : Type 0 where
    sets : Bytes → Bytes → TxCall
    sets_ex : Bytes → Bytes → ℕ → ℕ → TxCall
    deletes : Bytes → TxCall

  unfoldable pub call : Env st → TxCall → Session st → Session st
  call e (sets k v) s = (set st e k v s).0
  call e (sets_ex k v now life) s = (set_ex st e k v now life s).0
  call e (deletes k) s = (delete_key st e k s).0

  unfoldable pub run_calls : Env st → List TxCall → Session st → Session st
  run_calls e [] s = s
  run_calls e (c ∷ cs) s = run_calls e cs (call e c s)

  module _ (e : Env st) (s : Session st) (t : Transaction) (ts : List Transaction)
      (inside : s.stack.top ≡ t ∷ ts) where
    -- Inside a transaction a Set is seen at once under its key, leaves every other key and the
    -- shared database as they were, and cannot fail.
    pub set_buffers :
        (k v j : Bytes) (now : ℕ)
        → let r = set st e k v s in
          (r.1 ≡ ok tt)
          × (r.0.db ≡ s.db)
          × (get st j now r.0 ≡ (if k == j then some v else get st j now s))
    unfolding set get
    set_buffers k v j now = (
      ground (arith, inside),
      ground (arith, inside),
      ground (arith, inside, effective-buffer_set k v none t ts j, ap (effective j) inside),
    )

    -- A Delete hides its key at once, and leaves every other key and the shared database as they
    -- were.
    pub delete_key_buffers :
        (k j : Bytes) (now : ℕ)
        → let r = delete_key st e k s in
          (r.1 ≡ ok tt)
          × (r.0.db ≡ s.db)
          × (get st j now r.0 ≡ (if k == j then none else get st j now s))
    unfolding delete_key get
    delete_key_buffers k j now = (
      ground (arith, inside),
      ground (arith, inside),
      ground (arith, inside, effective-buffer_delete k t ts j, ap (effective j) inside),
    )

    -- A SetEX inside a transaction with a positive time to live: Get goes on to give the value at
    -- every time, also after the deadline, from which on TTL reports that the key is gone.
    pub set_ex_never_expires :
        (k v : Bytes) (start life : ℕ)
        → 0 < life
        → let s' = (set_ex st e k v start life s).0 in
          ((now : ℕ) → get st k now s' ≡ some v)
          × ((now : ℕ) → start + life ≤ now → ttl st k now s' ≡ dead)
    unfolding set_ex get ttl ttl_in
    set_ex_never_expires k v start life positive = (
      λ now.
          ground (arith, inside, effective-buffer_set k v (some (start + life)) t ts k, ==_refl k),
      λ now late. ground (arith, inside, ttl_buffered k v (some (start + life)) t),
    )

  -- A buffered call changes the innermost transaction alone.
  call-top :
      (e : Env st) (c : TxCall) (s : Session st) (t : Transaction) (ts : List Transaction)
      → s.stack.top ≡ t ∷ ts
      → (t' : Transaction) × (call e c s
          ≡ record { db = s.db; stack = record { top = t' ∷ ts; size = s.stack.size } })
  unfolding call set set_ex delete_key
  call-top e (sets k v) s t ts h = (buffer_set k v none t, ground (arith, h))
  call-top e (sets_ex k v now life) s t ts h = elim (Bool-cases (life == 0)) [
    | inl zero_life ↦ (t, ground (arith, h, zero_life))
    | inr positive ↦ (buffer_set k v (some (now + life)) t, ground (arith, h, positive))
  ]
  call-top e (deletes k) s t ts h = (buffer_delete k t, ground (arith, h))

  run_calls-top :
      (e : Env st) (cs : List TxCall) (s : Session st) (t : Transaction) (ts : List Transaction)
      → s.stack.top ≡ t ∷ ts
      → (t' : Transaction) × (run_calls e cs s
          ≡ record { db = s.db; stack = record { top = t' ∷ ts; size = s.stack.size } })
  unfolding run_calls
  run_calls-top e [] s t ts h = (t, ground (arith, h))
  run_calls-top e (c ∷ cs) s t ts h =
      let (t₁, p) = call-top e c s t ts h in
      let (t₂, q) = run_calls-top e cs (call e c s) t₁ ts (ap (λ r. r.stack.top) p) in
      (
        t₂,
        q
            ∙ ap
                (λ (r : Session st). record {
                  db = r.db;
                  stack = record { top = t₂ ∷ ts; size = r.stack.size };
                })
                p,
      )

  -- Beginning a transaction, any buffered calls, and a rollback: the session and the shared
  -- database are what they were.
  pub rollback_restores :
      (e : Env st) (cs : List TxCall) (s : Session st)
      → rollback_transaction st (run_calls e cs (begin_transaction st s)) ≡ (s, ok tt)
  unfolding rollback_transaction begin_transaction push_transaction pop_transaction
  rollback_restores e cs s =
      let (t, p) = run_calls-top e cs (begin_transaction st s) empty s.stack.top refl in
      rw p (ground arith)

  -- A rollback without an open transaction is refused, and changes nothing.
  pub rollback_refused :
      (s : Session st) → s.stack.top ≡ [] → rollback_transaction st s ≡ (s, err no_transaction)
  unfolding rollback_transaction pop_transaction
  rollback_refused s h = ground (arith, h)
