-- ===== src/Replay/Snapshot/Received.antt =====
-- What a replica reads after the snapshot of its primary.
use brisedb.Prelude.{
  ℕ, ◌≡◌, refl, sym, ap, ◌∙◌, subst, inl, inr, false, Option, none, some, List, [], ◌∷◌, Bytes,
  if◌then◌else◌, ◌==◌, nat_eq, list_eq, Bool-cases, arith,
}
use brisedb.Types.{NeedleAddr, Result, Result-cases, ok, err, panic}
use brisedb.Store.{Store, Laws}
use brisedb.HashIndex.Compact.Filled.{latest}
use brisedb.Wal.{WalEntry, sets}
use brisedb.Session.{Db, Env}
use brisedb.Replay.{apply_as, replicate_as, store_line, apply_entry, apply_replication_entry}
use brisedb.Replay.Snapshot.{with_line, read_lines, snapshot, receive, then_receive}

-- The value and the deadline of a key by the lines: the last line about it decides.
abbrev pub received : Bytes → List WalEntry → Option (Bytes × ℕ) → Option (Bytes × ℕ)
received j [] o = o
received j (m ∷ ms) o = received j ms (if m.key == j then some (m.value, m.expires_at) else o)

module _ (st : Store) (laws : Laws st) (e : Env st) where
  open st use {State, index_get, index_set, write, read}
  open laws use {Valid, Fits, Space}

  -- A line that is applied: its blob is written, and its entry is stored.
  pub record Takes (m : WalEntry) (db : Db st) : Type 0 where
    pub sets_key : m.type ≡ sets
    pub valid : Valid db.state
    pub space : Space db.state m.value
    pub addr : NeedleAddr
    pub written : (write (e.blob m.key) m.value db.state).1 ≡ ok addr
    pub fits : Fits (write (e.blob m.key) m.value db.state).0 m.key addr m.expires_at
    pub stored :
        (index_set
          (e.index m.key)
          m.key
          addr
          m.expires_at
          (write (e.blob m.key) m.value db.state).0).1
        ≡ ok tt
    pub logged : (apply_replication_entry st e m db).1 ≡ ok tt

  unfoldable pub AllTaken : List WalEntry → Db st → Type 0
  AllTaken [] db = Unit {0}
  AllTaken (m ∷ ms) db = Takes m db × AllTaken ms (apply_replication_entry st e m db).0

  -- A key reads as a value with a deadline.
  abbrev pub Reads : Bytes → Option (Bytes × ℕ) → Db st → Type 0
  Reads j none db = Unit {0}
  Reads j (some (v, x)) db =
      (a : NeedleAddr) × (index_get j db.state ≡ some (a, x)) × (read a db.state ≡ ok v)

  state-applied :
      (m : WalEntry) (db : Db st) (t : Takes m db)
      → (apply_replication_entry st e m db).0.state
        ≡ (index_set
            (e.index m.key)
            m.key
            t.addr
            m.expires_at
            (write (e.blob m.key) m.value db.state).0).0
  unfolding apply_replication_entry apply_entry
  state-applied m db t =
      let r = write (e.blob m.key) m.value db.state in
      ap (λ y. (replicate_as st y e m db).0.state) t.sets_key
      ∙ ap (λ y. (store_line st e m db (r.0, y)).0.state) t.written
      ∙ ap
          (λ y.
            (apply_as st y e
              (record m {
                volume_id = t.addr.volume_id;
                offset = t.addr.offset;
                size = t.addr.size;
              })
              (record db { state = r.0 })).state)
          t.sets_key

  read-applied :
      (m : WalEntry) (db : Db st) (t : Takes m db) (b : NeedleAddr)
      → read b (apply_replication_entry st e m db).0.state
        ≡ read b (write (e.blob m.key) m.value db.state).0
  read-applied m db t b =
      ap (read b) (state-applied m db t)
      ∙ laws.read-set (e.index m.key) m.key t.addr m.expires_at
          (write (e.blob m.key) m.value db.state).0 b

  index_get-applied :
      (m : WalEntry) (db : Db st) (t : Takes m db) (j : Bytes)
      → index_get j (apply_replication_entry st e m db).0.state
        ≡ (if m.key == j then some (t.addr, m.expires_at) else index_get j db.state)
  index_get-applied m db t j =
      let s = (write (e.blob m.key) m.value db.state).0 in
      ap (index_get j) (state-applied m db t)
      ∙ laws.get-set (e.index m.key) m.key t.addr m.expires_at s j
          (laws.write-Valid (e.blob m.key) m.value db.state t.addr t.valid t.space t.written) t.fits
          t.stored
      ∙ ap (λ o. if m.key == j then some (t.addr, m.expires_at) else o)
          (laws.get-write (e.blob m.key) m.value db.state j)

  Reads-kept :
      (m : WalEntry) (db : Db st) (j : Bytes) (o : Option (Bytes × ℕ))
      → Takes m db
      → (m.key == j) ≡ false
      → Reads j o db
      → Reads j o (apply_replication_entry st e m db).0
  Reads-kept m db j none t other r = tt
  Reads-kept m db j (some (v, x)) t other (a, g, d) = (
    a,
    index_get-applied m db t j ∙ rw other g,
    read-applied m db t a ∙ laws.read-write_old (e.blob m.key) m.value db.state a v d,
  )

  Reads-applied :
      (m : WalEntry) (db : Db st) (j : Bytes) (o : Option (Bytes × ℕ))
      → Takes m db
      → Reads j o db
      → Reads j
          (if m.key == j then some (m.value, m.expires_at) else o)
          (apply_replication_entry st e m db).0
  Reads-applied m db j o t r = elim (Bool-cases (m.key == j)) [
    | inl same ↦ rw same (
      t.addr,
      index_get-applied m db t j ∙ rw same refl,
      read-applied m db t t.addr
          ∙ laws.read-write (e.blob m.key) m.value db.state t.addr t.valid t.space t.written,
    )
    | inr other ↦ rw other (Reads-kept m db j o t other r)
  ]

  -- Lines that are all taken are received without an error, and each key then reads as the last
  -- line about it says, or as before.
  receive-Reads :
      (ms : List WalEntry) (db : Db st) (j : Bytes) (o : Option (Bytes × ℕ))
      → AllTaken ms db
      → Reads j o db
      → ((receive st e ms db).1 ≡ ok tt) × Reads j (received j ms o) (receive st e ms db).0
  unfolding receive AllTaken
  receive-Reads [] db j o t r = (refl, r)
  receive-Reads (m ∷ ms) db j o (t, ts) r =
      let p = apply_replication_entry st e m db in
      let next =
        receive-Reads ms p.0 j (if m.key == j then some (m.value, m.expires_at) else o) ts
          (Reads-applied m db j o t r) in
      let whole : receive st e (m ∷ ms) db ≡ receive st e ms p.0 =
        ap (λ y. then_receive st (p.0, y) (receive st e ms p.0)) t.logged in
      (
        ap (λ y. y.1) whole ∙ next.0,
        subst (λ y. Reads j (received j (m ∷ ms) o) y.0) (sym whole) next.1,
      )

module _ (st : Store) (json : Bytes → Bytes) (s : st.State) (j : Bytes) (a : NeedleAddr) (x : ℕ)
    (v : Bytes) (text : json v ≡ v) (readable : st.read a s ≡ ok v) where
  same_addr :
      (b : NeedleAddr) (y : ℕ)
      → ◌≡◌ {A = Option (NeedleAddr × ℕ)} (some (b, y)) (some (a, x))
      → (st.read b s ≡ ok v) × (y ≡ x)
  same_addr b y e = let eb : b ≡ a = cc in (ap (λ z. st.read z s) eb ∙ readable, cc)

  line_read :
      (b : NeedleAddr) (y : ℕ) (d : Bytes)
      → st.read b s ≡ ok d
      → ◌≡◌ {A = Option (NeedleAddr × ℕ)} (some (b, y)) (some (a, x))
      → ◌≡◌ {A = Option (Bytes × ℕ)} (some (json d, y)) (some (v, x))
  line_read b y d r e =
      let (q, ey) = same_addr b y e in
      let ed : d ≡ v = cc in
      ap (λ z. some (json z, y)) ed ∙ ap (λ z. some (z, y)) text ∙ ap (λ z. some (v, z)) ey

  received-other :
      (k : Bytes) (y : ℕ) (o : Option (Bytes × ℕ)) (ms : List WalEntry) (r : Result Bytes)
      → (k == j) ≡ false
      → received j (with_line st json k y r ms) o ≡ received j ms o
  received-other k y o ms (ok d) other =
      ap (λ z. received j ms (if z then some (json d, y) else o)) other
  received-other k y o ms (err z) other = refl
  received-other k y o ms panic other = refl

  -- What the snapshot holds of a key that can be read.
  received-read_lines :
      (l : List (Bytes × NeedleAddr × ℕ)) (d : Option (NeedleAddr × ℕ)) (o : Option (Bytes × ℕ))
      → (d ≡ some (a, x) → o ≡ some (v, x))
      → latest j l d ≡ some (a, x)
      → received j (read_lines st json s l) o ≡ some (v, x)
  unfolding read_lines
  received-read_lines [] d o f h = f h
  received-read_lines ((k, b, y) ∷ l) d o f h = elim (Bool-cases (k == j)) [
    | inl same ↦
        let next =
          λ (o' : Option (Bytes × ℕ))
              (f' : ◌≡◌ {A = Option (NeedleAddr × ℕ)} (some (b, y)) (some (a, x))
                → o' ≡ some (v, x)).
            received-read_lines l (some (b, y)) o' f'
              (ap (λ z. latest j l (if z then some (b, y) else d)) (sym same) ∙ h) in
        elim (Result-cases (st.read b s)) [
          | inl (t, r) ↦
              ap (λ z. received j (with_line st json k y z (read_lines st json s l)) o) r
              ∙ ap (λ z. received j (read_lines st json s l) (if z then some (json t, y) else o))
                  same
              ∙ next (some (json t, y)) (line_read b y t r)
          | inr (inl (t, r)) ↦
              ap (λ z. received j (with_line st json k y z (read_lines st json s l)) o) r
              ∙ next o (λ e. absurd (ground (arith, r, (same_addr b y e).0)))
          | inr (inr r) ↦
              ap (λ z. received j (with_line st json k y z (read_lines st json s l)) o) r
              ∙ next o (λ e. absurd (ground (arith, r, (same_addr b y e).0)))
        ]
    | inr other ↦
        received-other k y o (read_lines st json s l) (st.read b s) other
        ∙ received-read_lines l d o f
            (ap (λ z. latest j l (if z then some (b, y) else d)) (sym other) ∙ h)
  ]

-- A replica that takes every line of the snapshot of its primary receives it without an error, and
-- each live key whose value the primary can read, and which JSON keeps, then has this value and
-- its deadline on the replica.
pub receive-snapshot :
    (st : Store) (laws : Laws st) (json : Bytes → Bytes) (e : Env st) (now : ℕ) (s : st.State)
    (db : Db st) (j : Bytes) (a : NeedleAddr) (x : ℕ) (v : Bytes)
    → json v ≡ v
    → AllTaken st laws e (snapshot st json now s) db
    → latest j (st.live now s) none ≡ some (a, x)
    → st.read a s ≡ ok v
    → ((receive st e (snapshot st json now s) db).1 ≡ ok tt)
      × (b : NeedleAddr) × (st.index_get j (receive st e (snapshot st json now s) db).0.state
          ≡ some (b, x))
      × (st.read b (receive st e (snapshot st json now s) db).0.state ≡ ok v)
unfolding snapshot
receive-snapshot st laws json e now s db j a x v text taken here readable =
    let lines = snapshot st json now s in
    let last =
      received-read_lines st json s j a x v text readable (st.live now s) none none
        (λ h. absurd (ground (arith, h))) here in
    let (fine, got) = receive-Reads st laws e lines db j none taken tt in
    let (b, stored, read) = subst (λ o. Reads st laws e j o (receive st e lines db).0) last got in
    (fine, b, stored, read)
