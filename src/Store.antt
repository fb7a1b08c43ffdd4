-- ===== src/Store.antt =====
-- What a session uses of the hash index and of the volumes: their operations, and the laws that its
-- theorems take. Reads are functions of the state: what a read changes (the cache, its counters)
-- does not show in later reads.
pub mod Disk
use brisedb.Prelude.{
  ℕ, ◌≡◌, Bool, true, false, Option, some, none, List, Bytes, length, if◌then◌else◌, ◌==◌, nat_eq,
  list_eq,
}
use brisedb.Types.{NeedleAddr, no_addr, Result, ok, err, Error}

pub record Store : Type 1 where
  pub State : Type 0
  -- What the system makes of the writes of one operation.
  pub Env : Type 0
  -- hashIndex.Get, Set, Delete and the live entries that ForEach visits at a time.
  pub index_get : Bytes → State → Option (NeedleAddr × ℕ)
  pub index_set : Env → Bytes → NeedleAddr → ℕ → State → State × Result (Unit {0})
  pub index_delete : Env → Bytes → State → State × Result (Unit {0})
  pub live : ℕ → State → List (Bytes × NeedleAddr × ℕ)
  -- VolumePool.Write and Read.
  pub write : Env → Bytes → State → State × Result NeedleAddr
  pub read : NeedleAddr → State → Result Bytes

module _ (st : Store) where
  open st use {State, Env, index_get, index_set, index_delete, write, read}

  pub record Laws : Type 1 where
    pub Valid : State → Type 0
    -- Room for an entry of the index, and for a blob.
    pub Fits : State → Bytes → NeedleAddr → ℕ → Type 0
    pub Space : State → Bytes → Type 0
    pub get-set :
        (e : Env) (k : Bytes) (a : NeedleAddr) (x : ℕ) (s : State) (j : Bytes)
        → Valid s
        → Fits s k a x
        → (index_set e k a x s).1 ≡ ok tt
        → index_get j (index_set e k a x s).0 ≡ (if k == j then some (a, x) else index_get j s)
    pub get-delete :
        (e : Env) (k : Bytes) (s : State) (j : Bytes)
        → Valid s
        → Fits s k no_addr 0
        → (index_delete e k s).1 ≡ ok tt
        → index_get j (index_delete e k s).0 ≡ (if k == j then none else index_get j s)
    pub get-write :
        (e : Env) (d : Bytes) (s : State) (j : Bytes) → index_get j (write e d s).0 ≡ index_get j s
    pub read-set :
        (e : Env) (k : Bytes) (a : NeedleAddr) (x : ℕ) (s : State) (b : NeedleAddr)
        → read b (index_set e k a x s).0 ≡ read b s
    pub read-delete :
        (e : Env) (k : Bytes) (s : State) (b : NeedleAddr)
        → read b (index_delete e k s).0 ≡ read b s
    pub read-write :
        (e : Env) (d : Bytes) (s : State) (a : NeedleAddr)
        → Valid s
        → Space s d
        → (write e d s).1 ≡ ok a
        → read a (write e d s).0 ≡ ok d
    pub read-write_old :
        (e : Env) (d : Bytes) (s : State) (b : NeedleAddr) (x : Bytes)
        → read b s ≡ ok x
        → read b (write e d s).0 ≡ ok x
    pub write-Valid :
        (e : Env) (d : Bytes) (s : State) (a : NeedleAddr)
        → Valid s
        → Space s d
        → (write e d s).1 ≡ ok a
        → Valid (write e d s).0
    pub set-Valid :
        (e : Env) (k : Bytes) (a : NeedleAddr) (x : ℕ) (s : State)
        → Valid s
        → Fits s k a x
        → Valid (index_set e k a x s).0
