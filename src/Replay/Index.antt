-- ===== src/Replay/Index.antt =====
-- What the index holds after the log was replayed.
use brisedb.Prelude.{
  ℕ, ◌≡◌, refl, ap, ◌∙◌, inl, inr, ◌⊎◌, false, Option, none, some, List, [], ◌∷◌, Bytes,
  if◌then◌else◌, ◌==◌, nat_eq, list_eq, Bool-cases,
}
use brisedb.Types.{NeedleAddr, no_addr, ok}
use brisedb.Store.{Store, Laws}
use brisedb.Wal.{WalEntry, EntryType, sets, deletes}
use brisedb.Session.{Db, Env}
use brisedb.Replay.{addr_of, skipped, apply_entry, replay}

-- The index entry of a key by the log: its last line that was not skipped decides.
unfoldable pub line_says : WalEntry → Option (NeedleAddr × ℕ)
line_says op = elim op.type [ sets ↦ some (addr_of op, op.expires_at) | deletes ↦ none ]

unfoldable pub last_line :
    ℕ → Bytes → List WalEntry → Option (NeedleAddr × ℕ) → Option (NeedleAddr × ℕ)
last_line now j [] o = o
last_line now j (op ∷ ops) o =
    last_line now j ops (if skipped now op then o else if op.key == j then line_says op else o)

type-cases : (t : EntryType) → (t ≡ sets) ⊎ (t ≡ deletes)
type-cases sets = inl refl
type-cases deletes = inr refl

module _ (st : Store) (laws : Laws st) (e : Env st) where
  open st use {State, index_get, index_set, index_delete}
  open laws use {Valid, Fits}

  -- Each line that is applied finds room, and its write to the index succeeds.
  unfoldable pub Applies : WalEntry → State → Type 0
  Applies op s = elim op.type [
    | sets ↦
        Fits s op.key (addr_of op) op.expires_at
        × ((index_set (e.index op.key) op.key (addr_of op) op.expires_at s).1 ≡ ok tt)
    | deletes ↦ Fits s op.key no_addr 0 × ((index_delete (e.index op.key) op.key s).1 ≡ ok tt)
  ]

  unfoldable pub ReplayRoom : ℕ → List WalEntry → Db st → Type 0
  ReplayRoom now [] db = Unit {0}
  ReplayRoom now (op ∷ ops) db =
      (skipped now op ≡ false → Valid db.state × Applies op db.state)
      × ReplayRoom now ops (if skipped now op then db else apply_entry st e op db)

  apply_entry-index :
      (op : WalEntry) (db : Db st) (j : Bytes)
      → Valid db.state
      → Applies op db.state
      → index_get j (apply_entry st e op db).state
        ≡ (if op.key == j then line_says op else index_get j db.state)
  unfolding apply_entry Applies line_says
  apply_entry-index op db j valid m = elim (type-cases op.type) [
    | inl h ↦
        let (f, w) = rw (h, Applies) at m in
        rw (h, apply_entry, line_says)
          (laws.get-set (e.index op.key) op.key (addr_of op) op.expires_at db.state j valid f w)
    | inr h ↦
        let (f, w) = rw (h, Applies) at m in
        rw (h, apply_entry, line_says)
          (laws.get-delete (e.index op.key) op.key db.state j valid f w)
  ]

  replay-step :
      (now : ℕ) (op : WalEntry) (db : Db st) (j : Bytes)
      → (skipped now op ≡ false → Valid db.state × Applies op db.state)
      → index_get j (if skipped now op then db else apply_entry st e op db).state ≡ (
          if skipped now op
          then index_get j db.state
          else if op.key == j
          then line_says op
          else index_get j db.state)
  replay-step now op db j here = elim (Bool-cases (skipped now op)) [
    | inl old ↦ rw old refl
    | inr new ↦ let (v, m) = here new in rw new (apply_entry-index op db j v m)
  ]

  -- After the replay the index holds for each key what the last line of the log about it says that
  -- was not skipped, and what it held before where there is none; given that each line that is
  -- applied finds a valid index with room and that its write succeeds.
  pub replay-last_line :
      (now : ℕ) (ops : List WalEntry) (db : Db st) (j : Bytes)
      → ReplayRoom now ops db
      → index_get j (replay st e now ops db).state ≡ last_line now j ops (index_get j db.state)
  unfolding replay last_line ReplayRoom
  replay-last_line now [] db j m = refl
  replay-last_line now (op ∷ ops) db j (here, m) =
      replay-last_line now ops (if skipped now op then db else apply_entry st e op db) j m
      ∙ ap (last_line now j ops) (replay-step now op db j here)
