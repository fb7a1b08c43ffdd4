-- ===== src/Server.antt =====
-- pkg/server/server.go: handleConn, one request line at a time. The line is given as its words.
-- What a reply prints is kept as data. The commands hand over to the session and to the channels.
-- What the replication handler, Compact and VolumeStats do is an argument. What is done once the
-- loop has ended, where every channel is left, comes after the lines that are modelled.
pub mod Commands
pub mod ReadOnly
mod Tests
use brisedb.Prelude.{
  ℕ, ◌+◌, ◌-◌, ◌*◌, ◌%◌, ◌^◌, Bool, true, false, not, ◌&&◌, ◌||◌, Option, none, some, List, [], ◌∷◌,
  ◌++◌, map, Bytes, length, if◌then◌else◌, ltb, leb, ◌==◌, nat_eq, list_eq,
}
use brisedb.Prelude.Assoc.{mem, discard}
use brisedb.Types.{Error, Result, ok, err, panic}
use brisedb.Store.{Store}
use brisedb.Tx.{Lifetime}
use brisedb.Pubsub.{PubSub, subscribe, unsubscribe, publish}
use brisedb.Session as S
use brisedb.Session.{Session, Db, Env}
use brisedb.Session.Commit.{commit_transaction}
use brisedb.Session.Scan.{keys, scan, count}
use Commands.{
  Command, replicate_cmd, set_cmd, get_cmd, delete_cmd, count_cmd, ttl_cmd, persist_cmd, keys_cmd,
  scan_cmd, subscribe_cmd, unsubscribe_cmd, publish_cmd, begin_cmd, commit_cmd, rollback_cmd,
  compact_cmd, volinfo_cmd, stop_cmd, unknown_cmd, to_upper, command, allowed, is_word_ex,
  is_word_count, parse_int, positive, natural,
}

pub data Reply : Type 0 where
  done : Reply
  nothing : Reply
  text : Bytes → Reply
  number : ℕ → Reply
  flag : Bool → Reply
  lives : Lifetime → Reply
  cursor : ℕ → ℕ → Reply
  subscribed : Bytes → ℕ → Reply
  unsubscribed : Bytes → ℕ → Reply
  failed : Error → Reply
  wrong_arguments : Reply
  read_only : Reply
  unknown : Bytes → Reply

-- `time.Duration(secs) * time.Second`, in 64 bits; 0 where it is not positive.
unfoldable pub duration : ℕ → ℕ
duration secs = let d = (secs * 1_000_000_000) % 2 ^ 64 in if leb (2 ^ 63) d then 0 else d

module _ (st : Store) where
  -- A connection: its session, its Go channel, and what it is subscribed to; and the channels that
  -- all connections share.
  pub record Conn : Type 0 where
    pub session : Session st
    pub hub : PubSub
    pub client : ℕ
    pub channels : List Bytes

  pub record World : Type 0 where
    pub env : Env st
    pub now : ℕ
    pub full : ℕ → Bool
    pub compact : Db st → Db st × Result (Unit {0})
    pub volumes : List Reply

  -- The connection after a request, the replies, and whether it stays open. A panic ends the
  -- process.
  abbrev pub Step : Type 0
  Step = Result (Conn × List Reply × Bool)

  abbrev pub says : Conn → List Reply → Step
  says c rs = ok (c, rs, true)

  abbrev with_session : Conn → Session st × Result (Unit {0}) → Step
  with_session c (s, ok u) = says (record c { session = s }) (done ∷ [])
  with_session c (s, err e) = says (record c { session = s }) (failed e ∷ [])
  with_session c (s, panic) = panic

  -- SET key value [EX seconds]
  unfoldable pub handle_set : World → List Bytes → Conn → Step
  handle_set w (k ∷ v ∷ ex ∷ secs ∷ args) c =
      if is_word_ex ex
      then elim (positive (parse_int secs)) [
        | none ↦ says c (wrong_arguments ∷ [])
        | some n ↦ with_session c (S.set_ex st w.env k v w.now (duration n) c.session)
      ]
      else with_session c (S.set st w.env k v c.session)
  handle_set w (k ∷ v ∷ ex ∷ []) c = with_session c (S.set st w.env k v c.session)
  handle_set w (k ∷ v ∷ []) c = with_session c (S.set st w.env k v c.session)
  handle_set w (k ∷ []) c = says c (wrong_arguments ∷ [])
  handle_set w [] c = says c (wrong_arguments ∷ [])

  -- The other commands on one key, or on one value.
  unfoldable pub handle_get : World → List Bytes → Conn → Step
  handle_get w [] c = says c (wrong_arguments ∷ [])
  handle_get w (k ∷ args) c = elim (S.get st k w.now c.session) [
    | none ↦ says c (nothing ∷ [])
    | some v ↦ says c (text v ∷ [])
  ]

  unfoldable pub handle_delete : World → List Bytes → Conn → Step
  handle_delete w [] c = says c (wrong_arguments ∷ [])
  handle_delete w (k ∷ args) c = with_session c (S.delete_key st w.env k c.session)

  unfoldable pub handle_persist : World → List Bytes → Conn → Step
  handle_persist w [] c = says c (wrong_arguments ∷ [])
  handle_persist w (k ∷ args) c =
      let (s, b) = S.persist st w.env k c.session in says (record c { session = s }) (flag b ∷ [])

  unfoldable pub handle_count : World → List Bytes → Conn → Step
  handle_count w [] c = says c (wrong_arguments ∷ [])
  handle_count w (v ∷ args) c = says c (number (count st v w.now c.session) ∷ [])

  unfoldable pub handle_ttl : World → List Bytes → Conn → Step
  handle_ttl w [] c = says c (wrong_arguments ∷ [])
  handle_ttl w (k ∷ args) c = says c (lives (S.ttl st k w.now c.session) ∷ [])

  unfoldable pub handle_keys : World → List Bytes → Conn → Step
  handle_keys w [] c = says c (wrong_arguments ∷ [])
  handle_keys w (p ∷ args) c =
      let ks = keys st p w.now c.session in says c (number (length ks) ∷ map text ks)

  -- SCAN cursor [COUNT count]
  unfoldable pub scan_count : List Bytes → ℕ
  scan_count [] = 10
  scan_count (w ∷ []) = 10
  scan_count (w ∷ n ∷ args) =
      if is_word_count w then elim (positive (parse_int n)) [ none ↦ 10 | some k ↦ k ] else 10

  unfoldable pub handle_scan : World → List Bytes → Conn → Step
  handle_scan w [] c = says c (wrong_arguments ∷ [])
  handle_scan w (from ∷ args) c = elim (natural (parse_int from)) [
    | none ↦ says c (wrong_arguments ∷ [])
    | some n ↦ elim (scan st n (scan_count args) w.now c.session) [
      | ok p ↦ says c (cursor p.0 (length p.1) ∷ map text p.1)
      | err e ↦ panic
      | panic ↦ panic
    ]
  ]

  -- SUBSCRIBE and UNSUBSCRIBE, one channel after the other.
  unfoldable pub subscribe_each : List Bytes → Conn → Conn × List Reply
  subscribe_each [] c = (c, [])
  subscribe_each (ch ∷ chs) c =
      let c' =
        if mem ch c.channels
        then c
        else record c { hub = subscribe c.client ch c.hub; channels = ch ∷ c.channels } in
      let (c'', rs) = subscribe_each chs c' in (c'', subscribed ch (length c'.channels) ∷ rs)

  unfoldable pub unsubscribe_each : List Bytes → Conn → Conn × List Reply
  unsubscribe_each [] c = (c, [])
  unsubscribe_each (ch ∷ chs) c =
      let c' =
        if mem ch c.channels
        then record c { hub = unsubscribe c.client ch c.hub; channels = discard ch c.channels }
        else c in
      let (c'', rs) = unsubscribe_each chs c' in (c'', unsubscribed ch (length c'.channels) ∷ rs)

  unfoldable pub handle_subscribe : List Bytes → Conn → Step
  handle_subscribe [] c = says c (wrong_arguments ∷ [])
  handle_subscribe (ch ∷ chs) c = let (c', rs) = subscribe_each (ch ∷ chs) c in says c' rs

  unfoldable pub handle_unsubscribe : List Bytes → Conn → Step
  handle_unsubscribe [] c = let (c', rs) = unsubscribe_each c.channels c in says c' rs
  handle_unsubscribe (ch ∷ chs) c = let (c', rs) = unsubscribe_each (ch ∷ chs) c in says c' rs

  unfoldable pub handle_publish : World → List Bytes → Conn → Step
  handle_publish w (ch ∷ m ∷ args) c = says c (number (publish w.full ch c.hub).1 ∷ [])
  handle_publish w (ch ∷ []) c = says c (wrong_arguments ∷ [])
  handle_publish w [] c = says c (wrong_arguments ∷ [])

  abbrev compacted : Conn → Db st × Result (Unit {0}) → Step
  compacted c (db, r) = with_session c (record c.session { db = db }, r)

  -- The switch of handleConn.
  unfoldable pub handle : World → Bytes → Command → List Bytes → Conn → Step
  handle w word replicate_cmd args c = ok (c, [], false)
  handle w word set_cmd args c = handle_set w args c
  handle w word get_cmd args c = handle_get w args c
  handle w word delete_cmd args c = handle_delete w args c
  handle w word count_cmd args c = handle_count w args c
  handle w word ttl_cmd args c = handle_ttl w args c
  handle w word persist_cmd args c = handle_persist w args c
  handle w word keys_cmd args c = handle_keys w args c
  handle w word scan_cmd args c = handle_scan w args c
  handle w word subscribe_cmd args c = handle_subscribe args c
  handle w word unsubscribe_cmd args c = handle_unsubscribe args c
  handle w word publish_cmd args c = handle_publish w args c
  handle w word begin_cmd args c =
      says (record c { session = S.begin_transaction st c.session }) (done ∷ [])
  handle w word commit_cmd args c = with_session c (commit_transaction st w.env c.session)
  handle w word rollback_cmd args c = with_session c (S.rollback_transaction st c.session)
  handle w word compact_cmd args c = compacted c (w.compact c.session.db)
  handle w word volinfo_cmd args c = says c (number (length w.volumes) ∷ w.volumes)
  handle w word stop_cmd args c = ok (c, done ∷ [], false)
  handle w word unknown_cmd args c = says c (unknown word ∷ [])

  -- One turn of the loop of handleConn.
  unfoldable pub serve : Bool → World → List Bytes → Conn → Step
  serve guard w [] c = says c []
  serve guard w (word ∷ args) c =
      let cmd = command (to_upper word) in
      if guard && not (allowed cmd)
      then says c (read_only ∷ [])
      else handle w (to_upper word) cmd args c
