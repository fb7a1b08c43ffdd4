-- ===== src/Session/Blobs.antt =====
-- What Get reads after SetBlob and SetBlobStream.
use brisedb.Prelude.{
  ℕ, ◌≡◌, ◌≢◌, sym, ◌∙◌, none, some, [], ◌∷◌, Bytes, if◌then◌else◌, list_eq, nat_eq,
}
use brisedb.Types.{ok}
use brisedb.Store.{Store, Laws}
use brisedb.Session.{
  Db, Env, Session, expired, deadline, set_blob, set_blob_stream, set_message, get,
}
use brisedb.Session.Installs.{
  Installs, Roomy, blob_now-Installs, get_now-Installs_self, get_now-Installs_other,
}
use brisedb.Session.Reads.{get-none_open}

module _ (st : Store) (laws : Laws st) where
  -- The key reads as the value until the deadline, and every other key that had a value keeps it.
  abbrev pub Reads : Bytes → Bytes → ℕ → Session st → Session st → Type 0
  Reads k v x s s' =
      ((now : ℕ) → get st k now s' ≡ (if expired now x then none else some v))
      × ((j w : Bytes) (now : ℕ) → k ≢ j → get st j now s ≡ some w → get st j now s' ≡ some w)

  Reads-Installs :
      (e : Env st) (k v : Bytes) (x : ℕ) (s : Session st) (db' : Db st)
      → s.stack.top ≡ []
      → Roomy st laws e k v x s.db
      → Installs st e k v x s.db db'
      → Reads k v x s (record s { db = db' })
  Reads-Installs e k v x s db' none_open m i =
      let s' : Session st = record s { db = db' } in
      (
        λ now.
            get-none_open st s' none_open k now
            ∙ get_now-Installs_self st laws e k v x s.db db' i m now,
        λ j w now other g.
            get-none_open st s' none_open j now
            ∙ get_now-Installs_other st laws e k v x s.db db' i m j w now other
                (sym (get-none_open st s none_open j now) ∙ g),
      )

  -- A SetBlob outside of transactions that reports success, given room: Get gives the value up to
  -- the deadline, or at any time where there is no time to live, and every other key that had a
  -- value keeps it.
  pub get-set_blob :
      (e : Env st) (k v : Bytes) (start life : ℕ) (s : Session st)
      → s.stack.top ≡ []
      → Roomy st laws e k v (deadline st start life) s.db
      → (set_blob st e k v start life s.db).1 ≡ ok tt
      → Reads k v
          (deadline st start life)
          s
          (record s { db = (set_blob st e k v start life s.db).0 })
  unfolding set_blob
  get-set_blob e k v start life s none_open m h =
      let x = deadline st start life in
      Reads-Installs e k v x s (set_blob st e k v start life s.db).0 none_open m
        (blob_now-Installs st e k v x (set_message k v x ∷ []) s.db h)

  -- The same of a SetBlobStream whose stream is whole.
  pub get-set_blob_stream :
      (e : Env st) (k v : Bytes) (start life : ℕ) (s : Session st)
      → s.stack.top ≡ []
      → Roomy st laws e k v (deadline st start life) s.db
      → (set_blob_stream st e k v start life s.db).1 ≡ ok tt
      → Reads k v
          (deadline st start life)
          s
          (record s { db = (set_blob_stream st e k v start life s.db).0 })
  unfolding set_blob_stream
  get-set_blob_stream e k v start life s none_open m h =
      let x = deadline st start life in
      Reads-Installs e k v x s (set_blob_stream st e k v start life s.db).0 none_open m
        (blob_now-Installs st e k v x [] s.db h)
