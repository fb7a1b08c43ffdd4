-- ===== src/Tx/Overrides.antt =====
-- The snapshot of Count against the lookup of Get.
use brisedb.Prelude.{
  ◌≡◌, refl, ap, ◌∙◌, List, [], ◌∷◌, Bytes, if◌then◌else◌, ==_iff, nat_eq, list_eq, arith,
}
use brisedb.Prelude.Assoc.{Assoc, lookup, insert, mem, lookup-insert}
use brisedb.Tx.{
  Transaction, Found, gone, value, unknown, or_value, effective, Snapshot, note_values,
  note_deleted, snapshot_from, snapshot,
}
use brisedb.Tx.Merge.{IsConsistent}

-- What a snapshot says of a key.
unfoldable pub answer : Bytes → Snapshot → Found
unfolding or_value
answer j s = or_value (lookup j s.overrides) (if mem j s.removed then gone else unknown)

abbrev pub or_found : Found → Found → Found
or_found gone f = gone
or_found (value v) f = value v
or_found unknown f = f

answer-note_values :
    (m : Assoc Bytes Bytes) (s : Snapshot) (j : Bytes)
    → answer j (note_values m s) ≡ or_found (answer j s) (or_value (lookup j m) unknown)
unfolding answer note_values lookup
answer-note_values [] s j = ground arith
answer-note_values ((k, v) ∷ m) s j = ground (
  arith,
  answer-note_values m s j,
  answer-note_values m (record s { overrides = insert k v s.overrides }) j,
  lookup-insert k j v s.overrides,
  ==_iff k j,
  ap (λ i. lookup i s.overrides),
  ap (λ i. mem i s.removed),
)

answer-note_deleted :
    (ks : List Bytes) (s : Snapshot) (j : Bytes)
    → answer j (note_deleted ks s) ≡ or_found (answer j s) (if mem j ks then gone else unknown)
unfolding answer note_deleted mem
answer-note_deleted [] s j = ground arith
answer-note_deleted (k ∷ ks) s j = ground (
  arith,
  answer-note_deleted ks s j,
  answer-note_deleted ks (record s { removed = k ∷ s.removed }) j,
  ==_iff k j,
  ap (λ i. mem i s.removed),
)

abbrev pub AllConsistent : List Transaction → Type 0
AllConsistent [] = Unit {0}
AllConsistent (t ∷ ts) = IsConsistent t × AllConsistent ts

answer_empty :
    (j : Bytes) (f : Found) → or_found (answer j (record { overrides = []; removed = [] })) f ≡ f
unfolding answer lookup mem
answer_empty j f = refl

answer-snapshot_from :
    (ts : List Transaction) (s : Snapshot) (j : Bytes)
    → AllConsistent ts
    → answer j (snapshot_from ts s) ≡ or_found (answer j s) (effective j ts)
unfolding snapshot_from effective
answer-snapshot_from [] s j c = ground arith
answer-snapshot_from (t ∷ ts) s j (c, cs) =
    let s' = note_values t.store s in
    answer-snapshot_from ts (note_deleted t.deleted s') j cs
    ∙ ground
        (arith, answer-note_deleted t.deleted s' j, answer-note_values t.store s j, c.exclusive j)

-- The snapshot that Count takes of the open transactions agrees with Get on every key: the
-- innermost transaction that mentions the key decides, and a deletion hides outer values.
pub answer-snapshot :
    (ts : List Transaction) (j : Bytes) → AllConsistent ts → answer j (snapshot ts) ≡ effective j ts
unfolding snapshot
answer-snapshot ts j c =
    answer-snapshot_from ts (record { overrides = []; removed = [] }) j c
    ∙ answer_empty j (effective j ts)
