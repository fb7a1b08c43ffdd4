-- ===== src/Server/ReadOnly.antt =====
-- What a read-only server does not do.
use brisedb.Prelude.{
  ◌≡◌, ◌⊎◌, refl, inl, inr, Bool, true, Option-cases, Bool-cases, List, [], ◌∷◌, Bytes, length, map,
  arith,
}
use brisedb.Types.{ok, panic, Result-cases}
use brisedb.Store.{Store}
use brisedb.Session as S
use brisedb.Session.Scan.{scan}
use brisedb.Server.{
  Reply, read_only, wrong_arguments, nothing, text, cursor, Conn, World, Step, handle, handle_get,
  handle_count, handle_ttl, handle_keys, handle_scan, scan_count, serve,
}
use brisedb.Server.Commands.{
  Command, get_cmd, count_cmd, ttl_cmd, keys_cmd, scan_cmd, volinfo_cmd, stop_cmd, replicate_cmd,
  set_cmd, delete_cmd, persist_cmd, subscribe_cmd, unsubscribe_cmd, publish_cmd, begin_cmd,
  commit_cmd, rollback_cmd, compact_cmd, unknown_cmd, command, allowed, to_upper, parse_int,
  natural,
}

module _ (st : Store) where
  -- A step that leaves the connection as it was, if it ends.
  abbrev Keeps : Conn st → Step st → Type 0
  Keeps c r = (r ≡ panic) ⊎ ((rs : List Reply) × (b : Bool) × (r ≡ ok (c, rs, b)))

  handle_scan-Keeps :
      (w : World st) (args : List Bytes) (c : Conn st) → Keeps c (handle_scan st w args c)
  unfolding handle_scan
  handle_scan-Keeps w [] c = inr (_, _, refl)
  handle_scan-Keeps w (from ∷ args) c = elim (Option-cases (natural (parse_int from))) [
    | inl p ↦ inr (wrong_arguments ∷ [], true, rw (p, handle_scan) refl)
    | inr (n, p) ↦ elim (Result-cases (scan st n (scan_count st args) w.now c.session)) [
      | inl (q, r) ↦ inr (
        cursor q.0 (length q.1) ∷ map text q.1,
        true,
        rw (p, handle_scan) (rw (r, handle_scan) refl),
      )
      | inr (inl (e, r)) ↦ inl (rw (p, handle_scan) (rw (r, handle_scan) refl))
      | inr (inr r) ↦ inl (rw (p, handle_scan) (rw (r, handle_scan) refl))
    ]
  ]

  handle_get-Keeps :
      (w : World st) (args : List Bytes) (c : Conn st) → Keeps c (handle_get st w args c)
  unfolding handle_get
  handle_get-Keeps w [] c = inr (_, _, refl)
  handle_get-Keeps w (k ∷ args) c = elim (Option-cases (S.get st k w.now c.session)) [
    | inl p ↦ inr (nothing ∷ [], true, rw (p, handle_get) refl)
    | inr (v, p) ↦ inr (text v ∷ [], true, rw (p, handle_get) refl)
  ]

  handle_count-Keeps :
      (w : World st) (args : List Bytes) (c : Conn st) → Keeps c (handle_count st w args c)
  unfolding handle_count
  handle_count-Keeps w [] c = inr (_, _, refl)
  handle_count-Keeps w (v ∷ args) c = inr (_, _, refl)

  handle_ttl-Keeps :
      (w : World st) (args : List Bytes) (c : Conn st) → Keeps c (handle_ttl st w args c)
  unfolding handle_ttl
  handle_ttl-Keeps w [] c = inr (_, _, refl)
  handle_ttl-Keeps w (v ∷ args) c = inr (_, _, refl)

  handle_keys-Keeps :
      (w : World st) (args : List Bytes) (c : Conn st) → Keeps c (handle_keys st w args c)
  unfolding handle_keys
  handle_keys-Keeps w [] c = inr (_, _, refl)
  handle_keys-Keeps w (v ∷ args) c = inr (_, _, refl)

  handle-Keeps :
      (w : World st) (word : Bytes) (cmd : Command) (args : List Bytes) (c : Conn st)
      → allowed cmd ≡ true
      → Keeps c (handle st w word cmd args c)
  unfolding handle allowed
  handle-Keeps w word get_cmd args c h = handle_get-Keeps w args c
  handle-Keeps w word count_cmd args c h = handle_count-Keeps w args c
  handle-Keeps w word ttl_cmd args c h = handle_ttl-Keeps w args c
  handle-Keeps w word keys_cmd args c h = handle_keys-Keeps w args c
  handle-Keeps w word scan_cmd args c h = handle_scan-Keeps w args c
  handle-Keeps w word volinfo_cmd args c h = inr (_, _, refl)
  handle-Keeps w word stop_cmd args c h = inr (_, _, refl)
  handle-Keeps w word replicate_cmd args c h = absurd (ground (arith, h))
  handle-Keeps w word set_cmd args c h = absurd (ground (arith, h))
  handle-Keeps w word delete_cmd args c h = absurd (ground (arith, h))
  handle-Keeps w word persist_cmd args c h = absurd (ground (arith, h))
  handle-Keeps w word subscribe_cmd args c h = absurd (ground (arith, h))
  handle-Keeps w word unsubscribe_cmd args c h = absurd (ground (arith, h))
  handle-Keeps w word publish_cmd args c h = absurd (ground (arith, h))
  handle-Keeps w word begin_cmd args c h = absurd (ground (arith, h))
  handle-Keeps w word commit_cmd args c h = absurd (ground (arith, h))
  handle-Keeps w word rollback_cmd args c h = absurd (ground (arith, h))
  handle-Keeps w word compact_cmd args c h = absurd (ground (arith, h))
  handle-Keeps w word unknown_cmd args c h = absurd (ground (arith, h))

  -- A read-only server never changes anything: whatever line a client sends, its session, the
  -- shared database and the subscriptions are as before, if the server lives on.
  pub serve-Keeps :
      (w : World st) (words : List Bytes) (c : Conn st)
      → (serve st true w words c ≡ panic)
        ⊎ ((rs : List Reply) × (b : Bool) × (serve st true w words c ≡ ok (c, rs, b)))
  unfolding serve
  serve-Keeps w [] c = inr (_, _, refl)
  serve-Keeps w (word ∷ args) c = elim (Bool-cases (allowed (command (to_upper word)))) [
    | inl a ↦ rw a (handle-Keeps w (to_upper word) (command (to_upper word)) args c a)
    | inr r ↦ inr (read_only ∷ [], true, rw r refl)
  ]
