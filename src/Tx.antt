-- ===== src/Tx.antt =====
-- Transactions of pkg/brisedb/brise.go (Transaction, TransactionStack), and the parts of
-- pkg/brisedb/session.go that work on them alone. The linked list is a list, innermost first.
-- A time is a number of nanoseconds; `none` is the zero time, which clears an expiry.
pub mod Merge
pub mod Overrides
mod Tests
use brisedb.Prelude.{
  ℕ, ◌+◌, ◌-◌, Bool, true, false, not, ◌&&◌, ◌||◌, Option, none, some, List, [], ◌∷◌, Bytes,
  if◌then◌else◌, ◌==◌, nat_eq, list_eq,
}
use brisedb.Prelude.Assoc.{Assoc, lookup, insert, delete, mem, discard}
use brisedb.Types.{Result, ok, err, nothing_to_commit, no_transaction}

pub record Transaction : Type 0 where
  pub store : Assoc Bytes Bytes
  pub deleted : List Bytes
  pub expiry : Assoc Bytes (Option ℕ)

abbrev pub empty : Transaction
empty = record { store = []; deleted = []; expiry = [] }

-- TransactionStack
pub record Stack : Type 0 where
  pub top : List Transaction
  pub size : ℕ

unfoldable pub push_transaction : Stack → Stack
push_transaction s = record { top = empty ∷ s.top; size = s.size + 1 }

unfoldable pub pop_transaction : Stack → Stack × Result (Unit {0})
pop_transaction s = elim s.top [
  | [] ↦ (s, err no_transaction)
  | t ∷ rest ↦ (record { top = rest; size = s.size - 1 }, ok tt)
]

-- The buffering parts of Set, SetEX and Delete.
unfoldable pub buffer_set : Bytes → Bytes → Option ℕ → Transaction → Transaction
buffer_set key value exp t = record {
  deleted = discard key t.deleted;
  store = insert key value t.store;
  expiry = insert key exp t.expiry;
}

unfoldable pub buffer_delete : Bytes → Transaction → Transaction
buffer_delete key t = record {
  store = delete key t.store;
  expiry = delete key t.expiry;
  deleted = if mem key t.deleted then t.deleted else key ∷ t.deleted;
}

-- What the stack says of a key: deleted, a value, or nothing.
pub data Found : Type 0 where
  gone : Found
  value : Bytes → Found
  unknown : Found

unfoldable pub or_value : Option Bytes → Found → Found
or_value (some v) f = value v
or_value none f = f

-- The loop of Get and effectiveTransactionValue.
unfoldable pub effective : Bytes → List Transaction → Found
unfolding or_value
effective key [] = unknown
effective key (t ∷ ts) =
    let rest = effective key ts in
    if mem key t.deleted then gone else or_value (lookup key t.store) rest

-- The loops of CommitTransaction over a nested transaction.
unfoldable pub merge_store : Assoc Bytes Bytes → Transaction → Transaction
merge_store [] p = p
merge_store ((k, v) ∷ m) p =
    merge_store m (record p { deleted = discard k p.deleted; store = insert k v p.store })

unfoldable pub merge_deleted : List Bytes → Transaction → Transaction
merge_deleted [] p = p
merge_deleted (k ∷ ks) p = merge_deleted ks (record p {
  store = delete k p.store;
  deleted = if mem k p.deleted then p.deleted else k ∷ p.deleted;
})

unfoldable pub merge_expiry : Assoc Bytes (Option ℕ) → Transaction → Transaction
merge_expiry [] p = p
merge_expiry ((k, x) ∷ m) p = merge_expiry m (record p { expiry = insert k x p.expiry })

unfoldable pub merge : Transaction → Transaction → Transaction
merge t p = merge_expiry t.expiry (merge_deleted t.deleted (merge_store t.store p))

-- TTL inside the stack: the seconds are computed by the caller. `none` is -2, `some none` is -1.
pub data Lifetime : Type 0 where
  dead : Lifetime
  forever : Lifetime
  seconds : ℕ → Lifetime

-- The snapshot of Count: the innermost value of each key, and the keys that are deleted somewhere.
pub record Snapshot : Type 0 where
  pub overrides : Assoc Bytes Bytes
  pub removed : List Bytes

unfoldable pub is_some {ℓ} : {A : Type ℓ} → Option A → Bool
is_some none = false
is_some (some a) = true

unfoldable pub note_values : Assoc Bytes Bytes → Snapshot → Snapshot
unfolding is_some
note_values [] s = s
note_values ((k, v) ∷ m) s = note_values m (
    if not (is_some (lookup k s.overrides)) && not (mem k s.removed)
    then record s { overrides = insert k v s.overrides }
    else s)

unfoldable pub note_deleted : List Bytes → Snapshot → Snapshot
note_deleted [] s = s
note_deleted (k ∷ ks) s =
    note_deleted ks (if mem k s.removed then s else record s { removed = k ∷ s.removed })

unfoldable pub snapshot_from : List Transaction → Snapshot → Snapshot
unfolding note_values note_deleted
snapshot_from [] s = s
snapshot_from (t ∷ ts) s = snapshot_from ts (note_deleted t.deleted (note_values t.store s))

unfoldable pub snapshot : List Transaction → Snapshot
snapshot ts = snapshot_from ts (record { overrides = []; removed = [] })
