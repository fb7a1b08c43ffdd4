-- ===== src/Replay/Compacted.antt =====
-- The log that Compact of brise.go writes, and its replay. The new file takes the place of the log
-- by a message to the flusher, which Wal models.
use brisedb.Prelude.{
  ℕ, ◌≤◌, ◌≡◌, refl, ap, ◌∙◌, ◌⊎◌, inl, inr, false, Option, some, List, [], ◌∷◌, Bytes,
  if◌then◌else◌, ◌==◌, nat_eq, list_eq, arith, subst, Bool-cases, ◌≢◌, none, sym,
}
use brisedb.Types.{NeedleAddr}
use brisedb.Store.{Store, Laws}
use brisedb.HashIndex.Compact.Filled.{latest}
use brisedb.HashIndex.Compact.Visited.{or_else}
use brisedb.Wal.{WalEntry, sets}
use brisedb.Session.{Db, Env}
use brisedb.Replay.{skipped, replay}
use brisedb.Replay.Index.{ReplayRoom, last_line, line_says, replay-last_line}

-- The line of a live entry.
abbrev pub compact_line : Bytes × NeedleAddr × ℕ → WalEntry
compact_line (k, a, x) = record {
  type = sets;
  key = k;
  value = [];
  volume_id = a.volume_id;
  offset = a.offset;
  size = a.size;
  expires_at = x;
}

-- The lines of the new log, over what ForEach visits.
unfoldable pub compact_lines : List (Bytes × NeedleAddr × ℕ) → List WalEntry
compact_lines [] = []
compact_lines (e ∷ l) = compact_line e ∷ compact_lines l

-- The line of an entry that has no deadline, or whose deadline is not over, is not skipped.
compact_line_stays :
    (later : ℕ) (k : Bytes) (a : NeedleAddr) (x : ℕ)
    → (x ≡ 0) ⊎ (later ≤ x)
    → skipped later (compact_line (k, a, x)) ≡ false
unfolding skipped
compact_line_stays later k a x (inl e) = ground (arith, e)
compact_line_stays later k a x (inr e) = ground (arith, e)

same_entry :
    (b a : NeedleAddr) (y x : ℕ)
    → ◌≡◌ {A = Option (NeedleAddr × ℕ)} (some (b, y)) (some (a, x))
    → y ≡ x
same_entry b a y x e = cc

module _ (later : ℕ) (j : Bytes) (a : NeedleAddr) (x : ℕ) (alive : (x ≡ 0) ⊎ (later ≤ x)) where
  latest-step :
      (k : Bytes) (b : NeedleAddr) (y : ℕ) (d o : Option (NeedleAddr × ℕ))
      → (d ≡ some (a, x) → o ≡ some (a, x))
      → (if k == j then some (b, y) else d) ≡ some (a, x)
      → (if skipped later (compact_line (k, b, y)) then o else if k == j then some (b, y) else o)
        ≡ some (a, x)
  latest-step k b y d o f e = elim (Bool-cases (k == j)) [
    | inl same ↦
        let e' : ◌≡◌ {A = Option (NeedleAddr × ℕ)} (some (b, y)) (some (a, x)) =
          ground (arith, same, e) in
        let stays =
          compact_line_stays later k b y
            (subst (λ z. (z ≡ 0) ⊎ (later ≤ z)) (sym (same_entry b a y x e')) alive) in
        rw (stays, same) e'
    | inr other ↦ let e' : d ≡ some (a, x) = ground (arith, other, e) in ground (arith, other, f e')
  ]

  -- The last entry of a key counts, whatever became of the others.
  last_line-latest :
      (l : List (Bytes × NeedleAddr × ℕ)) (d o : Option (NeedleAddr × ℕ))
      → (d ≡ some (a, x) → o ≡ some (a, x))
      → latest j l d ≡ some (a, x)
      → last_line later j (compact_lines l) o ≡ some (a, x)
  unfolding last_line compact_lines line_says
  last_line-latest [] d o f h = f h
  last_line-latest ((k, b, y) ∷ l) d o f h =
      last_line-latest l (if k == j then some (b, y) else d)
        (if skipped later (compact_line (k, b, y)) then o else if k == j then some (b, y) else o)
        (latest-step k b y d o f) h

latest-some :
    (j : Bytes) (l : List (Bytes × NeedleAddr × ℕ)) (r : NeedleAddr × ℕ)
    → latest j l (some r) ≢ none
latest-some j [] r h = ground (arith, h)
latest-some j ((k, b, y) ∷ l) r h = elim (Bool-cases (k == j)) [
  | inl same ↦
      latest-some j l (b, y)
        (ap (λ z. latest j l (if z then some (b, y) else some r)) (sym same) ∙ h)
  | inr other ↦
      latest-some j l r (ap (λ z. latest j l (if z then some (b, y) else some r)) (sym other) ∙ h)
]

-- No line is about a key that the list does not have.
last_line-absent :
    (later : ℕ) (j : Bytes) (l : List (Bytes × NeedleAddr × ℕ)) (o : Option (NeedleAddr × ℕ))
    → latest j l none ≡ none
    → last_line later j (compact_lines l) o ≡ o
unfolding last_line compact_lines line_says
last_line-absent later j [] o h = refl
last_line-absent later j ((k, b, y) ∷ l) o h = elim (Bool-cases (k == j)) [
  | inl same ↦ absurd (
      latest-some j l (b, y)
        (ap (λ z. latest j l (if z then some (b, y) else none)) (sym same) ∙ h))
  | inr other ↦
      let kept : (if skipped later (compact_line (k, b, y))
            then o
            else if k == j
            then some (b, y)
            else o)
          ≡ o =
        ground (arith, other) in
      ap (last_line later j (compact_lines l)) kept
      ∙ last_line-absent later j l o
          (ap (λ z. latest j l (if z then some (b, y) else none)) (sym other) ∙ h)
]

-- An entry that has no deadline, or whose deadline is not over.
abbrev pub Current : ℕ → Option (NeedleAddr × ℕ) → Type 0
Current later none = Unit {0}
Current later (some (a, x)) = (x ≡ 0) ⊎ (later ≤ x)

last_line-compact_lines :
    (later : ℕ) (j : Bytes) (l : List (Bytes × NeedleAddr × ℕ)) (o r : Option (NeedleAddr × ℕ))
    → latest j l none ≡ r
    → Current later r
    → last_line later j (compact_lines l) o ≡ or_else r o
last_line-compact_lines later j l o none h c = last_line-absent later j l o h
last_line-compact_lines later j l o (some (a, x)) h c =
    last_line-latest later j a x c l none o (λ n. absurd (ground (arith, n))) h

-- The replay of a compacted log gives the index of a key the address and the deadline of its last
-- live entry, and leaves what the index held where the key has none; given that the deadline of
-- this entry is not over at the time of the replay, whatever became of other entries, and that
-- each line that is not skipped finds a valid index with room and its write succeeds.
pub replay-compact_lines :
    (st : Store) (laws : Laws st) (e : Env st) (later : ℕ) (l : List (Bytes × NeedleAddr × ℕ))
    (db : Db st) (j : Bytes)
    → Current later (latest j l none)
    → ReplayRoom st laws e later (compact_lines l) db
    → st.index_get j (replay st e later (compact_lines l) db).state
      ≡ or_else (latest j l none) (st.index_get j db.state)
replay-compact_lines st laws e later l db j current room =
    replay-last_line st laws e later (compact_lines l) db j room
    ∙ last_line-compact_lines later j l (st.index_get j db.state) (latest j l none) refl current
