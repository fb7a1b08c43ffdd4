-- ===== src/Tx/Tests.antt =====
-- Runs of the transaction stack.
use brisedb.Prelude.{◌≡◌, none, [], ◌∷◌, Bytes}
use brisedb.Tx.{Transaction, empty, buffer_set, buffer_delete, effective, snapshot}
use brisedb.Tx.Merge.{
  IsConsistent, empty-IsConsistent, buffer_set-IsConsistent, buffer_delete-IsConsistent,
}
use brisedb.Tx.Overrides.{answer, answer-snapshot}

abbrev key_a : Bytes
key_a = b'a' ∷ []

abbrev key_b : Bytes
key_b = b'b' ∷ []

abbrev inner : Transaction
inner = buffer_delete key_b (buffer_set key_a (1 ∷ []) none empty)

abbrev outer : Transaction
outer = buffer_set key_b (2 ∷ []) none empty

inner-IsConsistent : IsConsistent inner
inner-IsConsistent =
    buffer_delete-IsConsistent key_b (buffer_set key_a (1 ∷ []) none empty)
      (buffer_set-IsConsistent key_a (1 ∷ []) none empty empty-IsConsistent)

answer-snapshot_example :
    answer key_b (snapshot (inner ∷ outer ∷ [])) ≡ effective key_b (inner ∷ outer ∷ [])
answer-snapshot_example =
    answer-snapshot (inner ∷ outer ∷ []) key_b (
      inner-IsConsistent,
      (buffer_set-IsConsistent key_b (2 ∷ []) none empty empty-IsConsistent, tt),
    )
