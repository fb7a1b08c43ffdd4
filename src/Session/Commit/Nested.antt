-- ===== src/Session/Commit/Nested.antt =====
-- The commit of a nested transaction, and the refusals.
use brisedb.Prelude.{ℕ, ◌-◌, ◌≡◌, ap, List, ◌∷◌, Bytes, arith}
use brisedb.Types.{ok}
use brisedb.Store.{Store}
use brisedb.Tx.{Transaction, merge, effective, pop_transaction}
use brisedb.Tx.Merge.{IsConsistent, effective-merge}
use brisedb.Session.{Env, Session, get}
use brisedb.Session.Commit.{commit_transaction}

module _ (st : Store) (e : Env st) (s : Session st) where
  -- Committing a nested transaction succeeds, closes it and no other, leaves the shared database
  -- as it was, and changes nothing that Get reads.
  pub commit_nested :
      (t p : Transaction) (ts : List Transaction)
      → s.stack.top ≡ t ∷ p ∷ ts
      → IsConsistent t
      → let (s', r) = commit_transaction st e s in
        (r ≡ ok tt)
        × (s'.stack.top ≡ merge t p ∷ ts)
        × (s'.stack.size ≡ s.stack.size - 1)
        × (s'.db ≡ s.db)
        × ((j : Bytes) (now : ℕ) → get st j now s' ≡ get st j now s)
  unfolding commit_transaction pop_transaction get
  commit_nested t p ts h c = (
    ground (arith, h),
    ground (arith, h),
    ground (arith, h),
    ground (arith, h),
    λ j now. ground (arith, h, effective-merge t p ts j c, ap (effective j) h),
  )
