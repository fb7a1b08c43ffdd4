-- ===== src/Gateway/Uploads.antt =====
-- GET after PUT.
use brisedb.Prelude.{
  ℕ, ◌≡◌, sym, ap, ◌∙◌, inl, inr, true, Option, none, some, [], ◌∷◌, Bytes, length, if◌then◌else◌,
  ==_refl, nat_eq, list_eq, refl, subst, Bool-cases, arith,
}
use brisedb.Types.{NeedleAddr, Result, ok, err, panic}
use brisedb.Store.{Store, Laws}
use brisedb.Session.{
  Db, Env, expired, deadline, set_blob, set_blob_stream, set_message, get_blob_meta,
}
use brisedb.Session.Installs.{Installs, Roomy, blob_now-Installs, index_get-Installs, read_new}
use brisedb.Gateway.{
  Body, announced, chunked, Response, Upload, created, status, whole, headers, life_of, new_session,
  put_body, put_blob, get_blob, answer_upload,
}
use brisedb.Gateway.Blobs.{get_blob-whole}

-- What is read of a body.
abbrev pub bytes_of : Body → Option Bytes
bytes_of (announced d) = some d
bytes_of (chunked b) = b

module _ (st : Store) (laws : Laws st) where
  answered_created :
      (key k : Bytes) (n m x y : ℕ) (r : Db st × Result (Unit {0}))
      → (answer_upload st key n x r).1 ≡ created k m y
      → r.1 ≡ ok tt
  answered_created key k n m x y (db, ok u) h = refl
  answered_created key k n m x y (db, err z) h = absurd (ground (arith, h))
  answered_created key k n m x y (db, panic) h = absurd (ground (arith, h))

  answered_state :
      (key : Bytes) (n x : ℕ) (r : Db st × Result (Unit {0})) → (answer_upload st key n x r).0 ≡ r.0
  answered_state key n x (db, ok u) = refl
  answered_state key n x (db, err z) = refl
  answered_state key n x (db, panic) = refl

  -- What GET finds of a key that was installed.
  abbrev pub Serves : Bytes → Bytes → ℕ → Db st → Type 0
  Serves key d x db =
      (a : NeedleAddr) × ((now : ℕ)
        → get_blob st key [] true now db
          ≡ (if expired now x then status 404 else whole (headers st now a x) d))

  meta_of :
      (key : Bytes) (now : ℕ) (db : Db st) (a : NeedleAddr) (x : ℕ)
      → st.index_get key db.state ≡ some (a, x)
      → get_blob_meta st key now (new_session st db) ≡ (if expired now x then none else some (a, x))
  unfolding get_blob_meta
  meta_of key now db a x h = rw (h, get_blob_meta) refl

  not_found :
      (key : Bytes) (now : ℕ) (db : Db st)
      → get_blob_meta st key now (new_session st db) ≡ none
      → get_blob st key [] true now db ≡ status 404
  unfolding get_blob
  not_found key now db h = rw (h, get_blob) refl

  Installs-Serves :
      (e : Env st) (key d : Bytes) (x : ℕ) (db db' : Db st)
      → Installs st e key d x db db'
      → Roomy st laws e key d x db
      → Serves key d x db'
  Installs-Serves e key d x db db' i m = (
    i.addr,
    λ now.
        let hit : st.index_get key db'.state ≡ some (i.addr, x) =
          index_get-Installs st laws e key d x db db' i m key ∙ rw (==_refl key) refl in
        let meta = meta_of key now db' i.addr x hit in
        elim (Bool-cases (expired now x)) [
          | inl over ↦ rw over (not_found key now db' (rw over at meta))
          | inr fresh ↦ rw fresh (
              get_blob-whole st key now db' i.addr x d (rw fresh at meta)
                (read_new st laws e key d x db db' i m))
        ],
  )

  abbrev upload : Env st → Bytes → ℕ → ℕ → Body → Bytes → Db st → Db st × Result (Unit {0})
  upload e key now life (announced b) d db = set_blob_stream st e key d now life db
  upload e key now life (chunked b) d db = set_blob st e key d now life db

  put_body-upload :
      (e : Env st) (key : Bytes) (now life : ℕ) (b : Body) (d : Bytes) (db : Db st)
      → bytes_of b ≡ some d
      → put_body st e key now life b db
        ≡ answer_upload st key (length d) (deadline st now life) (upload e key now life b d db)
  unfolding put_body
  put_body-upload e key now life (announced c) d db h =
      let e' : c ≡ d = ground (arith, h) in rw e' refl
  put_body-upload e key now life (chunked none) d db h = absurd (ground (arith, h))
  put_body-upload e key now life (chunked (some c)) d db h =
      let e' : c ≡ d = ground (arith, h) in rw e' refl

  put_blob-upload :
      (e : Env st) (key : Bytes) (now life : ℕ) (u : Upload) (d : Bytes) (db : Db st)
      → bytes_of u.body ≡ some d
      → life_of u.ttl ≡ some life
      → put_blob st e key now u db
        ≡ answer_upload st key (length d) (deadline st now life) (upload e key now life u.body d db)
  unfolding put_blob
  put_blob-upload e key now life u d db b l =
      rw (l, put_blob) (put_body-upload e key now life u.body d db b)

  upload-Installs :
      (e : Env st) (key : Bytes) (now life : ℕ) (b : Body) (d : Bytes) (db : Db st)
      → (upload e key now life b d db).1 ≡ ok tt
      → Installs st e key d (deadline st now life) db (upload e key now life b d db).0
  unfolding set_blob set_blob_stream
  upload-Installs e key now life (announced b) d db h =
      blob_now-Installs st e key d (deadline st now life) [] db h
  upload-Installs e key now life (chunked b) d db h =
      let x = deadline st now life in blob_now-Installs st e key d x (set_message key d x ∷ []) db h

  -- A PUT that reports success, given room, is served by GET up to the deadline that its `ttl` sets,
  -- or at any time where it sets none, and not found behind it, whether the body comes in chunks or not.
  pub get_blob-put_blob :
      (e : Env st) (key d k : Bytes) (now life n y : ℕ) (u : Upload) (db : Db st)
      → bytes_of u.body ≡ some d
      → life_of u.ttl ≡ some life
      → Roomy st laws e key d (deadline st now life) db
      → (put_blob st e key now u db).1 ≡ created k n y
      → Serves key d (deadline st now life) (put_blob st e key now u db).0
  get_blob-put_blob e key d k now life n y u db b l m h =
      let x = deadline st now life in
      let r = upload e key now life u.body d db in
      let q = put_blob-upload e key now life u d db b l in
      let done =
        answered_created key k (length d) n x y r
          (sym (ap (λ (z : Db st × Response). z.1) q) ∙ h) in
      let same : (put_blob st e key now u db).0 ≡ r.0 =
        ap (λ (z : Db st × Response). z.0) q ∙ answered_state key (length d) x r in
      subst (Serves key d x) (sym same)
        (Installs-Serves e key d x db r.0 (upload-Installs e key now life u.body d db done) m)
