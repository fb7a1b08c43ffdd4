-- ===== src/Gateway.antt =====
-- pkg/blobserver/server.go: blobs over HTTP, on a database over the index and the volumes of
-- `Store`. A request is taken apart as net/http does: its method, what follows "/v1/blobs/" in its
-- path, the values of its query, its Range header and its body. The value of `ttl` is what
-- time.ParseDuration makes of it, in nanoseconds, 0 where it is not positive. A status code
-- stands for its message, and what JSON says is kept as data. A handler that panics has its
-- connection cut. Sizes of blobs are int64. A known Content-Length is the length of the body: what
-- a stream that breaks leaves in a volume is in Volume. One reading of the clock serves a request.
pub mod Ranges
pub mod Blobs
pub mod Uploads
mod Tests
use brisedb.Prelude.{
  ℕ, ◌+◌, ◌-◌, ◌*◌, ◌/◌, ◌^◌, Bool, true, false, Option, none, some, List, [], ◌∷◌, Bytes, length,
  if◌then◌else◌, ltb, leb, ◌==◌, nat_eq, list_eq,
}
use brisedb.Types.{NeedleAddr, Result, ok, err, panic}
use brisedb.Decimal.{ℤ, pos, negsuc, is_digit}
use brisedb.Store.{Store}
use brisedb.Session.{
  Session, Db, Env, deadline, set_blob, set_blob_stream, delete_key, get_blob_meta, read_blob_at,
}
use brisedb.Session.Scan.{keys, scan}
use Ranges.{parse_range, range_from, suffix_range}

pub data Method : Type 0 where
  get : Method
  put : Method
  head : Method
  remove : Method
  other : Method

-- A blob's headers: the seconds that it has left, `none` for -1, and its size.
pub record Headers : Type 0 where
  pub ttl : Option ℕ
  pub size : ℕ

pub data Response : Type 0 where
  status : ℕ → Response
  created : Bytes → ℕ → ℕ → Response
  no_body : Headers → Response
  whole : Headers → Bytes → Response
  partial : Headers → ℕ → Bytes → Response
  no_content : Response
  listed : List Bytes → Response
  listed_from : ℕ → List Bytes → Response
  hung_up : Response

-- A body of a Content-Length, or one in chunks, which may fail to be read.
pub data Body : Type 0 where
  announced : Bytes → Body
  chunked : Option Bytes → Body

-- The value of `ttl` is what it parses to, if there is one, and if it does.
pub record Upload : Type 0 where
  pub body : Body
  pub ttl : Option (Option ℕ)

-- The time to live that an upload asks for, 0 for none.
abbrev pub life_of : Option (Option ℕ) → Option ℕ
life_of none = some 0
life_of (some o) = o

-- strconv.Atoi, of the digits of a number, where an error does not matter: 0 for what is no number,
-- and the end of the range of int for what is behind it.
unfoldable pub atoi_from : ℕ → Bytes → ℕ
atoi_from acc [] = acc
atoi_from acc (c ∷ cs) =
    let n = acc * 10 + (c - b'0') in
    let rest = atoi_from n cs in if is_digit c then (if leb (2 ^ 64) n then n else rest) else 0

unfoldable pub atoi : Bytes → ℤ
unfolding atoi_from
atoi [] = pos 0
atoi (c ∷ cs) =
    let top = 2 ^ 63 - 1 in
    let below = λ (n : ℕ). if ltb top n then top else n in
    if c == b'-'
    then (let n = atoi_from 0 cs in
        if n == 0 then pos 0 else negsuc (if ltb (2 ^ 63) n then top else n - 1))
    else if c == b'+'
    then pos (below (atoi_from 0 cs))
    else pos (below (atoi_from 0 (c ∷ cs)))

module _ (st : Store) where
  -- Server.db.NewSession()
  abbrev pub new_session : Db st → Session st
  new_session db = record { db = db; stack = record { top = []; size = 0 } }

  abbrev pub answer_upload : Bytes → ℕ → ℕ → Db st × Result (Unit {0}) → Db st × Response
  answer_upload key size expires_at (db, ok u) = (db, created key size expires_at)
  answer_upload key size expires_at (db, err e) = (db, status 500)
  answer_upload key size expires_at (db, panic) = (db, hung_up)

  -- putBlob behind the parsing of `ttl`: a life of 0 is none.
  unfoldable pub put_body : Env st → Bytes → ℕ → ℕ → Body → Db st → Db st × Response
  put_body e key now life (announced d) db =
      answer_upload key (length d) (deadline st now life) (set_blob_stream st e key d now life db)
  put_body e key now life (chunked none) db = (db, status 400)
  put_body e key now life (chunked (some d)) db =
      answer_upload key (length d) (deadline st now life) (set_blob st e key d now life db)

  -- putBlob
  unfoldable pub put_blob : Env st → Bytes → ℕ → Upload → Db st → Db st × Response
  unfolding put_body
  put_blob e key now u db = elim (life_of u.ttl) [
    | none ↦ (db, status 400)
    | some life ↦ put_body e key now life u.body db
  ]

  abbrev pub headers : ℕ → NeedleAddr → ℕ → Headers
  headers now a x = record {
    ttl = if ltb 0 x then some ((x - now) / 1_000_000_000) else none;
    size = a.size;
  }

  abbrev pub answer_whole : Headers → Result Bytes → Response
  answer_whole h (ok d) = whole h d
  answer_whole h (err e) = status 500
  answer_whole h panic = hung_up

  abbrev pub answer_partial : Headers → ℕ → Result Bytes → Response
  answer_partial h start (ok d) = partial h start d
  answer_partial h start (err e) = status 500
  answer_partial h start panic = hung_up

  -- getBlob, of a blob that there is, with a body. The Range header is empty where there is none.
  unfoldable pub send_blob : Bytes → ℕ → NeedleAddr → ℕ → Session st → Response
  send_blob range now a x s =
      let h = headers now a x in
      if range == []
      then answer_whole h (read_blob_at st a 0 none s)
      else elim (parse_range range a.size) [
        | none ↦ status 416
        | some (start, len) ↦ answer_partial h start (read_blob_at st a start len s)
      ]

  -- getBlob
  unfoldable pub get_blob : Bytes → Bytes → Bool → ℕ → Db st → Response
  unfolding send_blob
  get_blob key range body now db =
      let s = new_session db in
      elim (get_blob_meta st key now s) [
        | none ↦ status 404
        | some (a, x) ↦ if body then send_blob range now a x s else no_body (headers now a x)
      ]

  abbrev answer_delete : Session st × Result (Unit {0}) → Db st × Response
  answer_delete (s, ok u) = (s.db, no_content)
  answer_delete (s, err e) = (s.db, status 500)
  answer_delete (s, panic) = (s.db, hung_up)

  -- deleteBlob
  unfoldable pub delete_blob : Env st → Bytes → Db st → Db st × Response
  delete_blob e key db = answer_delete (delete_key st e key (new_session db))

  -- handleBlob, on the key that follows "/v1/blobs/" in the path.
  unfoldable pub handle_blob :
      Env st → Method → Bytes → Bytes → ℕ → Upload → Db st → Db st × Response
  unfolding put_blob get_blob delete_blob
  handle_blob e m key range now u db = if key == [] then (db, status 400) else elim m [
    | put ↦ put_blob e key now u db
    | get ↦ (db, get_blob key range true now db)
    | head ↦ (db, get_blob key range false now db)
    | remove ↦ delete_blob e key db
    | other ↦ (db, status 405)
  ]

  -- handleKeys
  unfoldable pub handle_keys : Method → Bytes → ℕ → Db st → Response
  handle_keys m pattern now db = elim m [
    | get ↦ listed (keys st (if pattern == [] then b'*' ∷ [] else pattern) now (new_session db))
    | _ ↦ status 405
  ]

  abbrev answer_scan : Result (ℕ × List Bytes) → Response
  answer_scan (ok (next, ks)) = listed_from next ks
  answer_scan (err e) = hung_up
  answer_scan panic = hung_up

  -- A count that is not positive is 100.
  abbrev scan_size : ℤ → ℕ
  scan_size (pos n) = if n == 0 then 100 else n
  scan_size (negsuc n) = 100

  -- handleScan. A negative cursor is out of the range of the slice.
  unfoldable pub handle_scan : Method → Bytes → Bytes → ℕ → Db st → Response
  unfolding atoi
  handle_scan m cursor count now db = elim m [
    | get ↦ elim (atoi cursor) [
      | negsuc n ↦ hung_up
      | pos i ↦ answer_scan (scan st i (scan_size (atoi count)) now (new_session db))
    ]
    | _ ↦ status 405
  ]
