-- ===== src/Gateway/Blobs.antt =====
-- What GET serves of a blob, whole and in parts, and after a PUT.
use brisedb.Prelude.{
  ℕ, ◌+◌, ◌-◌, ◌<◌, ◌≤◌, ◌≡◌, ◌≢◌, ◌⊎◌, refl, sym, ap, ◌∙◌, inl, inr, true, Option, none, some, [],
  ◌∷◌, ◌++◌, Bytes, length, take, drop, if◌then◌else◌, ltb, ◌==◌, nat_eq, list_eq, list_beq,
  Bool-cases, Option-cases, arith, take_all, length-take, length-drop, take-append-drop, drop-add,
  le→ltb, subst,
}
use brisedb.Types.{NeedleAddr, Result, ok, err, panic, Result-cases}
use brisedb.Store.{Store}
use brisedb.Session.{Session, Db, get_blob_meta, read_blob_at}
use brisedb.Gateway.{
  answer_whole, answer_partial, Headers, whole, partial, headers, new_session, get_blob, send_blob,
}
use brisedb.Gateway.Ranges.{Range, Within, parse_range, parse_range-Within}

-- A part of a blob, in its place.
pub record Part (d : Bytes) (start : ℕ) (chunk : Bytes) : Type 0 where
  pub place : d ≡ take start d ++ (chunk ++ drop (start + length chunk) d)
  pub inside : start + length chunk ≤ length d
  pub some_byte : 0 < length chunk

abbrev slice : ℕ → Option ℕ → Bytes → Bytes
slice start none d = drop start d
slice start (some n) d = if ltb (length d) (start + n) then drop start d else take n (drop start d)

take-Part :
    (d : Bytes) (start n : ℕ) → 0 < n → start + n ≤ length d → Part d start (take n (drop start d))
take-Part d start n h k =
    let size : length (take n (drop start d)) ≡ n =
      length-take n (drop start d) (omega (arith, length-drop start d, k)) in
    record {
      place =
          rw (size, drop-add start n d)
            (sym (take-append-drop start d)
              ∙ ap (λ x. take start d ++ x) (sym (take-append-drop n (drop start d))));
      inside = omega (arith, size, k);
      some_byte = omega (arith, size, h);
    }

slice-Part : (d : Bytes) (r : Range) → Within (length d) r → Part d r.0 (slice r.0 r.1 d)
slice-Part d (start, some n) (h, k, l) =
    rw (le→ltb (length d) (start + n) l) (take-Part d start n k l)
slice-Part d (start, none) h =
    let n = length d - start in
    subst (Part d start) (take_all n (drop start d) (omega (arith, length-drop start d)))
      (take-Part d start n (omega (arith, h)) (omega (arith, h)))

no_bytes : (d : Bytes) → length d ≡ 0 → d ≡ []
no_bytes [] h = refl
no_bytes (x ∷ d) h = absurd (omega arith)

module _ (st : Store) where
  -- What ReadBlobAt makes of a range within the blob.
  read_blob_at-slice :
      (a : NeedleAddr) (r : Range) (s : Session st) (d : Bytes)
      → st.read a s.db.state ≡ ok d
      → Within (length d) r
      → read_blob_at st a r.0 r.1 s ≡ ok (slice r.0 r.1 d)
  unfolding read_blob_at
  read_blob_at-slice a (start, none) s d h w = rw (h, read_blob_at) (ground (arith, w))
  read_blob_at-slice a (start, some n) s d h w = rw (h, read_blob_at) (ground (arith, w))

  read_blob_at-whole :
      (a : NeedleAddr) (s : Session st) (d : Bytes)
      → st.read a s.db.state ≡ ok d
      → read_blob_at st a 0 none s ≡ ok d
  unfolding read_blob_at drop
  read_blob_at-whole a s [] h = rw (h, read_blob_at) refl
  read_blob_at-whole a s (x ∷ d) h = rw (h, read_blob_at) (ground arith)

  read_blob_at-nothing :
      (a : NeedleAddr) (s : Session st)
      → st.read a s.db.state ≡ ok []
      → read_blob_at st a 0 (some 0) s ≡ ok []
  unfolding read_blob_at
  read_blob_at-nothing a s h = rw (h, read_blob_at) refl

  -- GET without a range, of a key that is there.
  pub get_blob-whole :
      (key : Bytes) (now : ℕ) (db : Db st) (a : NeedleAddr) (x : ℕ) (d : Bytes)
      → get_blob_meta st key now (new_session st db) ≡ some (a, x)
      → st.read a db.state ≡ ok d
      → get_blob st key [] true now db ≡ whole (headers st now a x) d
  unfolding get_blob send_blob list_beq
  get_blob-whole key now db a x d m h =
      rw (m, get_blob) (rw (read_blob_at-whole a (new_session st db) d h) refl)

  whole_not_partial :
      (h h' : Headers) (r : Result Bytes) (start : ℕ) (chunk : Bytes)
      → answer_whole st h r ≢ partial h' start chunk
  whole_not_partial h h' (ok d) start chunk e = ground (arith, e)
  whole_not_partial h h' (err y) start chunk e = ground (arith, e)
  whole_not_partial h h' panic start chunk e = ground (arith, e)

  answered_partial :
      (h h' : Headers) (i start : ℕ) (r : Result Bytes) (chunk : Bytes)
      → answer_partial st h i r ≡ partial h' start chunk
      → (h ≡ h') × (i ≡ start) × (r ≡ ok chunk)
  answered_partial h h' i start (ok d) chunk e =
      (ground (arith, e), ground (arith, e), ground (arith, e))
  answered_partial h h' i start (err y) chunk e = absurd (ground (arith, e))
  answered_partial h h' i start panic chunk e = absurd (ground (arith, e))

  -- What a range that is served comes from.
  record Ranged (range : Bytes) (now : ℕ) (a : NeedleAddr) (x : ℕ) (s : Session st) (h : Headers)
      (start : ℕ) (chunk : Bytes) : Type 0 where
    same : headers st now a x ≡ h
    len : Option ℕ
    parsed : parse_range range a.size ≡ some (start, len)
    served : read_blob_at st a start len s ≡ ok chunk

  send_blob-Ranged :
      (range : Bytes) (now : ℕ) (a : NeedleAddr) (x : ℕ) (s : Session st) (h : Headers) (start : ℕ)
      (chunk : Bytes)
      → send_blob st range now a x s ≡ partial h start chunk
      → Ranged range now a x s h start chunk
  unfolding send_blob
  send_blob-Ranged range now a x s h start chunk e = elim (Bool-cases (range == [])) [
    | inl n ↦ absurd (
        whole_not_partial (headers st now a x) h (read_blob_at st a 0 none s) start chunk
          (rw n at e))
    | inr n ↦ elim (Option-cases (parse_range range a.size)) [
      | inl m ↦ absurd (ground (arith, e, n, m))
      | inr ((i, l), m) ↦
          let f : answer_partial st (headers st now a x) i (read_blob_at st a i l s)
              ≡ partial h start chunk =
            ground (arith, e, n, m) in
          let (same, j, r) =
            answered_partial (headers st now a x) h i start (read_blob_at st a i l s) chunk f in
          record {
            same = same;
            len = l;
            parsed = m ∙ ap (λ k. some (k, l)) j;
            served = ap (λ k. read_blob_at st a k l s) (sym j) ∙ r;
          }
    ]
  ]

  -- A read that succeeds comes from a blob.
  read_blob_at-found :
      (a : NeedleAddr) (start : ℕ) (len : Option ℕ) (s : Session st) (chunk : Bytes)
      → read_blob_at st a start len s ≡ ok chunk
      → (d : Bytes) × (st.read a s.db.state ≡ ok d)
  unfolding read_blob_at
  read_blob_at-found a start len s chunk e = elim (Result-cases (st.read a s.db.state)) [
    | inl (d, h) ↦ (d, h)
    | inr (inl (y, h)) ↦ absurd (ground (arith, e, h))
    | inr (inr h) ↦ absurd (ground (arith, e, h))
  ]

  ok_inj : (a b : Bytes) → ok a ≡ ok b → a ≡ b
  ok_inj a b h = ground (arith, h)

  ranged-Part :
      (range : Bytes) (a : NeedleAddr) (d : Bytes) (start : ℕ) (len : Option ℕ) (s : Session st)
      (chunk : Bytes)
      → st.read a s.db.state ≡ ok d
      → length d ≡ a.size
      → parse_range range a.size ≡ some (start, len)
      → read_blob_at st a start len s ≡ ok chunk
      → Part d start chunk ⊎ ((d ≡ []) × (chunk ≡ []))
  ranged-Part range a d start len s chunk r size parsed served =
      elim (parse_range-Within range a.size (start, len) parsed) [
        | inl w ↦
            let w' : Within (length d) (start, len) =
              subst (λ n. Within n (start, len)) (sym size) w in
            let e =
              ok_inj (slice start len d) chunk
                (sym (read_blob_at-slice a (start, len) s d r w') ∙ served) in
            inl (subst (Part d start) e (slice-Part d (start, len) w'))
        | inr (z, q) ↦
            let n = no_bytes d (size ∙ z) in
            let i = ap (λ (x : Range). x.0) q in
            let l = ap (λ (x : Range). x.1) q in
            let f = read_blob_at-nothing a s (r ∙ ap ok n) in
            inr (
              n,
              ok_inj chunk [] (
                  sym served
                  ∙ ap (λ k. read_blob_at st a k len s) i
                  ∙ ap (λ k. read_blob_at st a 0 k s) l
                  ∙ f),
            )
      ]

  -- A range that is served is a part of the blob that GET serves without a range, at the start that
  -- the response names, and holds a byte at least, unless the blob is empty; given that a blob that
  -- can be read has the size of its address.
  pub get_blob-Part :
      ((a : NeedleAddr) (s : st.State) (d : Bytes) → st.read a s ≡ ok d → length d ≡ a.size)
      → (key range : Bytes) (now : ℕ) (db : Db st) (h : Headers) (start : ℕ) (chunk : Bytes)
      → get_blob st key range true now db ≡ partial h start chunk
      → (d : Bytes) × (get_blob st key [] true now db ≡ whole h d)
        × (h.size ≡ length d)
        × (Part d start chunk ⊎ ((d ≡ []) × (chunk ≡ [])))
  unfolding get_blob
  get_blob-Part sized key range now db h start chunk e =
      let s = new_session st db in
      elim (Option-cases (get_blob_meta st key now s)) [
        | inl n ↦ absurd (ground (arith, e, n))
        | inr ((a, x), n) ↦
            let g =
              send_blob-Ranged range now a x s h start chunk (sym (rw (n, get_blob) refl) ∙ e) in
            let (d, r) = read_blob_at-found a start g.len s chunk g.served in
            let size = sized a db.state d r in
            (
              d,
              get_blob-whole key now db a x d n r ∙ ap (λ w. whole w d) g.same,
              sym (ap (λ (w : Headers). w.size) g.same) ∙ sym size,
              ranged-Part range a d start g.len s chunk r size g.parsed g.served,
            )
      ]
