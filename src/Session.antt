-- ===== src/Session.antt =====
-- pkg/brisedb/session.go: the operations of a connection on the shared database, over the index and
-- the volumes of `Store`. The operations of one key run under the lock of its shard, so that each
-- is one step here; the 64 expiry maps, of which the key selects one, are one map.
-- Times are Unix nanoseconds. A duration is a number of nanoseconds, 0 for every one that is not
-- positive. Deadlines stay in int64, which ends in the year 2262. An error is reported by its kind.
pub mod Installs
pub mod Commit
pub mod Reads
pub mod Blobs
pub mod Buffered
pub mod Scan
pub mod Tests
use brisedb.Prelude.{
  ℕ, ◌+◌, ◌-◌, ◌/◌, Bool, true, false, not, ◌&&◌, ◌||◌, Option, none, some, List, [], ◌∷◌, ◌++◌,
  Bytes, length, take, drop, if◌then◌else◌, ltb, leb, ◌==◌, nat_eq, list_eq,
}
use brisedb.Prelude.Assoc.{Assoc, lookup, insert, delete, mem}
use brisedb.Types.{NeedleAddr, Result, ok, err, panic, ttl_not_positive, io}
use brisedb.Store.{Store}
use brisedb.Wal.{Wal, WalEntry, EntryType, sets, deletes, write_wal}
use brisedb.Tx.{
  Transaction, Stack, buffer_set, buffer_delete, Found, gone, value, unknown, effective,
  push_transaction, pop_transaction, Lifetime, dead, forever, seconds,
}

-- The entries that go to the log, and to the replicas.
abbrev pub set_line : Bytes → NeedleAddr → ℕ → WalEntry
set_line key a x = record {
  type = sets;
  key = key;
  value = [];
  volume_id = a.volume_id;
  offset = a.offset;
  size = a.size;
  expires_at = x;
}

abbrev pub set_message : Bytes → Bytes → ℕ → WalEntry
set_message key v x = record {
  type = sets;
  key = key;
  value = v;
  volume_id = 0;
  offset = 0;
  size = 0;
  expires_at = x;
}

abbrev pub delete_line : Bytes → WalEntry
delete_line key = record {
  type = deletes;
  key = key;
  value = [];
  volume_id = 0;
  offset = 0;
  size = 0;
  expires_at = 0;
}

-- `expiresAt > 0 && now.After(time.Unix(0, expiresAt))`
abbrev pub expired : ℕ → ℕ → Bool
expired now x = ltb 0 x && ltb x now

module _ (st : Store) where
  -- BriseDB, with what was sent to replicas, oldest first.
  pub record Db : Type 0 where
    pub state : st.State
    pub expiry : Assoc Bytes ℕ
    pub wal : Wal
    pub sent : List WalEntry

  -- What the system makes of the writes of a call, for each key that it writes.
  pub record Env : Type 0 where
    pub blob : Bytes → st.Env
    pub index : Bytes → st.Env
    pub flushed : Bytes → Result (Unit {0})

  -- `expiry[key] = exp`, or `delete(expiry, key)` where there is none.
  unfoldable pub set_expiry : Bytes → ℕ → Assoc Bytes ℕ → Assoc Bytes ℕ
  set_expiry key x m = if x == 0 then delete key m else insert key x m

  -- The end of each write: the log, and then the replicas.
  unfoldable pub log_and_send : Env → WalEntry → List WalEntry → Db → Db × Result (Unit {0})
  log_and_send e l messages db =
      let (w, r) = write_wal (e.flushed l.key) l db.wal in
      elim r [
        | ok u ↦ (record db { wal = w; sent = db.sent ++ messages }, ok tt)
        | err x ↦ (record db { wal = w }, err x)
        | panic ↦ (record db { wal = w }, panic)
      ]

  -- The part of Set and SetEX behind the transaction check: blob, index, expiry, log, replicas.
  unfoldable pub set_now : Env → Bytes → Bytes → ℕ → Db → Db × Result (Unit {0})
  set_now e key v x db =
      let (s₁, r₁) = st.write (e.blob key) v db.state in
      let db₁ = record db { state = s₁ } in
      elim r₁ [
        | err y ↦ (db₁, err y)
        | panic ↦ (db₁, panic)
        | ok a ↦
            let (s₂, r₂) = st.index_set (e.index key) key a x s₁ in
            let db₂ = record db₁ { state = s₂ } in
            elim r₂ [
              | err y ↦ (db₂, err y)
              | panic ↦ (db₂, panic)
              | ok u ↦
                  log_and_send e (set_line key a x) (set_message key v x ∷ [])
                    (record db₂ { expiry = set_expiry key x db.expiry })
            ]
      ]

  -- SetBlob, and SetBlobStream with no message: the expiry is set before the index.
  unfoldable pub blob_now : Env → Bytes → Bytes → ℕ → List WalEntry → Db → Db × Result (Unit {0})
  blob_now e key v x messages db =
      let (s₁, r₁) = st.write (e.blob key) v db.state in
      let db₁ = record db { state = s₁ } in
      elim r₁ [
        | err y ↦ (db₁, err y)
        | panic ↦ (db₁, panic)
        | ok a ↦
            let (s₂, r₂) = st.index_set (e.index key) key a x s₁ in
            let db₂ = record db₁ { state = s₂; expiry = set_expiry key x db.expiry } in
            elim r₂ [
              | err y ↦ (db₂, err y)
              | panic ↦ (db₂, panic)
              | ok u ↦ log_and_send e (set_line key a x) messages db₂
            ]
      ]

  abbrev pub deadline : ℕ → ℕ → ℕ
  deadline now ttl = if ttl == 0 then 0 else now + ttl

  unfoldable pub set_blob : Env → Bytes → Bytes → ℕ → ℕ → Db → Db × Result (Unit {0})
  set_blob e key v now ttl db =
      let x = deadline now ttl in blob_now e key v x (set_message key v x ∷ []) db

  -- The blob as the stream yields it whole: Volume models what becomes of a broken one.
  unfoldable pub set_blob_stream : Env → Bytes → Bytes → ℕ → ℕ → Db → Db × Result (Unit {0})
  set_blob_stream e key v now ttl db = blob_now e key v (deadline now ttl) [] db

  -- The part of Delete behind the transaction check.
  unfoldable pub delete_now : Env → Bytes → Db → Db × Result (Unit {0})
  delete_now e key db = elim (st.index_get key db.state) [
    | none ↦ (db, ok tt)
    | some found ↦
        let (s, r) = st.index_delete (e.index key) key db.state in
        elim r [
          | err y ↦ (record db { state = s }, err y)
          | panic ↦ (record db { state = s }, panic)
          | ok u ↦
              log_and_send e (delete_line key) (delete_line key ∷ [])
                (record db { state = s; expiry = delete key db.expiry })
        ]
  ]

  -- A session: the shared database, and the stack of the connection.
  pub record Session : Type 0 where
    pub db : Db
    pub stack : Stack

  abbrev with_db : Session → Db × Result (Unit {0}) → Session × Result (Unit {0})
  with_db s r = (record s { db = r.0 }, r.1)

  abbrev with_top : Session → Transaction → List Transaction → Session × Result (Unit {0})
  with_top s t ts = (record s { stack = record { top = t ∷ ts; size = s.stack.size } }, ok tt)

  -- Set
  unfoldable pub set : Env → Bytes → Bytes → Session → Session × Result (Unit {0})
  set e key v s = elim s.stack.top [
    | [] ↦ with_db s (set_now e key v 0 s.db)
    | t ∷ ts ↦ with_top s (buffer_set key v none t) ts
  ]

  -- SetEX
  unfoldable pub set_ex : Env → Bytes → Bytes → ℕ → ℕ → Session → Session × Result (Unit {0})
  set_ex e key v now ttl s = if ttl == 0 then (s, err ttl_not_positive) else elim s.stack.top [
    | [] ↦ with_db s (set_now e key v (now + ttl) s.db)
    | t ∷ ts ↦ with_top s (buffer_set key v (some (now + ttl)) t) ts
  ]

  -- Delete
  unfoldable pub delete_key : Env → Bytes → Session → Session × Result (Unit {0})
  delete_key e key s = elim s.stack.top [
    | [] ↦ with_db s (delete_now e key s.db)
    | t ∷ ts ↦ with_top s (buffer_delete key t) ts
  ]

  -- The part of Get behind the transaction stack.
  unfoldable pub get_now : Bytes → ℕ → Db → Option Bytes
  get_now key now db = elim (st.index_get key db.state) [
    | none ↦ none
    | some (a, x) ↦
        if expired now x
        then none
        else elim (st.read a db.state) [ ok d ↦ some d | err y ↦ none | panic ↦ none ]
  ]

  -- Get
  unfoldable pub get : Bytes → ℕ → Session → Option Bytes
  get key now s = elim (effective key s.stack.top) [
    | gone ↦ none
    | value v ↦ some v
    | unknown ↦ get_now key now s.db
  ]

  -- GetBlobMeta
  unfoldable pub get_blob_meta : Bytes → ℕ → Session → Option (NeedleAddr × ℕ)
  get_blob_meta key now s = elim (st.index_get key s.db.state) [
    | none ↦ none
    | some (a, x) ↦ if expired now x then none else some (a, x)
  ]

  -- ReadBlobAt: the length is `none` where it is negative.
  unfoldable pub read_blob_at : NeedleAddr → ℕ → Option ℕ → Session → Result Bytes
  read_blob_at a start len s = elim (st.read a s.db.state) [
    | err y ↦ err y
    | panic ↦ panic
    | ok d ↦ if leb (length d) start then ok [] else elim len [
      | none ↦ ok (drop start d)
      | some n ↦ ok (if ltb (length d) (start + n) then drop start d else take n (drop start d))
    ]
  ]

  -- `time.Until(exp)` in whole seconds, where it is positive.
  abbrev pub remaining : ℕ → ℕ → Lifetime
  remaining now x = if ltb now x then seconds ((x - now) / 1_000_000_000) else dead

  -- The loop of TTL over the stack; `none` means that no transaction knows the key.
  unfoldable pub ttl_in : Bytes → ℕ → List Transaction → Option Lifetime
  ttl_in key now [] = none
  ttl_in key now (t ∷ ts) =
      let rest = ttl_in key now ts in
      if mem key t.deleted then some dead else elim (lookup key t.store) [
        | none ↦ rest
        | some v ↦ elim (lookup key t.expiry) [
          | none ↦ some forever
          | some none ↦ some forever
          | some (some x) ↦ some (remaining now x)
        ]
      ]

  -- TTL
  unfoldable pub ttl : Bytes → ℕ → Session → Lifetime
  ttl key now s = elim (ttl_in key now s.stack.top) [
    | some l ↦ l
    | none ↦ elim (st.index_get key s.db.state) [
      | none ↦ dead
      | some (a, x) ↦ if ltb 0 x then remaining now x else forever
    ]
  ]

  -- The part of Persist behind the transaction check: the result of the index write is dropped.
  unfoldable pub persist_now : Env → Bytes → Db → Db × Bool
  persist_now e key db = elim (st.index_get key db.state) [
    | none ↦ (db, false)
    | some (a, x) ↦ if x == 0 then (db, false) else (
      record db {
        state = (st.index_set (e.index key) key a 0 db.state).0;
        expiry = delete key db.expiry;
      },
      true,
    )
  ]

  abbrev persisted : Session → Db × Bool → Session × Bool
  persisted s r = (record s { db = r.0 }, r.1)

  -- Persist
  unfoldable pub persist : Env → Bytes → Session → Session × Bool
  persist e key s = elim s.stack.top [
    | [] ↦ persisted s (persist_now e key s.db)
    | t ∷ ts ↦ elim (lookup key t.store) [
      | none ↦ persisted s (persist_now e key s.db)
      | some v ↦ (
        record s {
          stack = record {
            top = record t { expiry = insert key none t.expiry } ∷ ts;
            size = s.stack.size;
          };
        },
        true,
      )
    ]
  ]

  -- BeginTransaction and RollbackTransaction
  unfoldable pub begin_transaction : Session → Session
  begin_transaction s = record s { stack = push_transaction s.stack }

  unfoldable pub rollback_transaction : Session → Session × Result (Unit {0})
  rollback_transaction s =
      let (stack, r) = pop_transaction s.stack in (record s { stack = stack }, r)

  -- evictExpired: every key of the expiry map that is over goes from the index and from the map.
  unfoldable pub evict_keys : (Bytes → st.Env) → ℕ → List (Bytes × ℕ) → Db → Db
  evict_keys e now [] db = db
  evict_keys e now ((k, x) ∷ m) db = evict_keys e now m (
      if ltb x now
      then record db { state = (st.index_delete (e k) k db.state).0; expiry = delete k db.expiry }
      else db)

  unfoldable pub evict_expired : (Bytes → st.Env) → ℕ → Db → Db
  evict_expired e now db = evict_keys e now db.expiry db
