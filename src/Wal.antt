-- ===== src/Wal.antt =====
-- The write-ahead log of pkg/brisedb/brise.go: writeWAL, and the flusher goroutine.
-- A line of the file is the entry that it serialises. What the system makes of each flush and each
-- fsync is an argument. Of a failed flush no line counts here; the
-- source may leave some of them.
pub mod Order
pub mod Durable
pub mod Sticky
mod Tests
use brisedb.Prelude.{
  ℕ, zero, suc, ◌+◌, Bool, true, false, not, ◌&&◌, Option, none, some, List, [], ◌∷◌, ◌++◌, map,
  Bytes, length, if◌then◌else◌, ltb,
}
use brisedb.Types.{Error, io, Result, ok, err, panic}

pub data FsyncMode : Type 0 where
  every_sec : FsyncMode
  always : FsyncMode
  never : FsyncMode

pub data EntryType : Type 0 where
  sets : EntryType
  deletes : EntryType

-- walEntry. Value is empty but in what goes to replicas.
pub record WalEntry : Type 0 where
  pub type : EntryType
  pub key : Bytes
  pub value : Bytes
  pub volume_id : ℕ
  pub offset : ℕ
  pub size : ℕ
  pub expires_at : ℕ

-- walMsg: a line, and whether a caller waits for it; a new file; or a barrier.
pub data Msg : Type 0 where
  line : WalEntry → Bool → Msg
  swap : Msg
  barrier : Msg

-- What walErr holds: nothing ever stored, a nil *walError, or an error.
pub data Slot : Type 0 where
  unset : Slot
  nil : Slot
  error : Error → Slot

-- The writers' side: the mode, the channel and the sticky error.
pub record Wal : Type 0 where
  pub mode : FsyncMode
  pub queue : List Msg
  pub slot : Slot

unfoldable pub enqueue : Bool → WalEntry → Wal → Wal
enqueue waits e w = record w { queue = w.queue ++ line (record e { value = [] }) waits ∷ [] }

-- The path of writeWAL that does not wait. The test `v != nil` is about the interface value, which
-- is not nil once anything was stored; behind a nil *walError the field access faults.
unfoldable pub forget_write : Slot → WalEntry → Wal → Wal × Result (Unit {0})
unfolding enqueue
forget_write unset e w = (enqueue false e w, ok tt)
forget_write nil e w = (record w { slot = nil }, panic)
forget_write (error x) e w = (record w { slot = nil }, err x)

-- writeWAL. A waiting caller gets what the flusher answers.
unfoldable pub write_wal : Result (Unit {0}) → WalEntry → Wal → Wal × Result (Unit {0})
unfolding enqueue forget_write
write_wal answer e w = elim w.mode [
  | always ↦ (enqueue true e w, answer)
  | every_sec ↦ forget_write w.slot e w
  | never ↦ forget_write w.slot e w
]

-- What the system makes of a flush, and of the fsync behind it.
pub record Io : Type 0 where
  pub flushes : Bool
  pub syncs : Bool

-- The flusher's side: the lines of the current file, how many of them are known to be durable,
-- whether a sync is due, the answers given so far, newest last, and whether the buffered writer has
-- met an error, after which it takes nothing more.
pub record Flusher : Type 0 where
  pub mode : FsyncMode
  pub lines : List WalEntry
  pub synced : ℕ
  pub pending : Bool
  pub answers : List (Result (Unit {0}))
  pub slot : Slot
  pub broken : Bool

-- doSync
unfoldable pub do_sync : Io → Flusher → Flusher × Result (Unit {0})
do_sync i f =
    if i.syncs
    then (record f { pending = false; synced = length f.lines }, ok tt)
    else (record f { pending = false }, err io)

unfoldable pub entries_of : List Msg → List WalEntry
entries_of [] = []
entries_of (line e waits ∷ ms) = e ∷ entries_of ms
entries_of (swap ∷ ms) = entries_of ms
entries_of (barrier ∷ ms) = entries_of ms

-- flushBatch
unfoldable pub flush_batch : Io → List Msg → Flusher → Flusher × Result (Unit {0})
unfolding do_sync entries_of
flush_batch i batch f =
    if i.flushes && not f.broken
    then (let f' = record f { lines = f.lines ++ entries_of batch } in
        elim f.mode [
          | always ↦ do_sync i f'
          | every_sec ↦ (record f' { pending = true }, ok tt)
          | never ↦ (f', ok tt)
        ])
    else (record f { broken = true }, err io)

-- The answers that signalBatch sends: one for each message with a `done` channel.
unfoldable pub answers_of : Result (Unit {0}) → List Msg → List (Result (Unit {0}))
answers_of r [] = []
answers_of r (line e true ∷ ms) = r ∷ answers_of r ms
answers_of r (line e false ∷ ms) = answers_of r ms
answers_of r (swap ∷ ms) = answers_of r ms
answers_of r (barrier ∷ ms) = answers_of r ms

-- signalBatch: an error is also stored for the callers that do not wait.
unfoldable pub signal_batch : List Msg → Result (Unit {0}) → Flusher → Flusher
unfolding answers_of
signal_batch batch r f = elim r [
  | ok u ↦ record f { answers = f.answers ++ answers_of (ok u) batch }
  | err e ↦ record f { answers = f.answers ++ answers_of (err e) batch; slot = error e }
  | panic ↦ f
]

unfoldable pub flush_and_signal : Io → List Msg → Flusher → Flusher
unfolding flush_batch signal_batch
flush_and_signal i batch f = let (f', r) = flush_batch i batch f in signal_batch batch r f'

unfoldable pub is_never : FsyncMode → Bool
is_never never = true
is_never always = false
is_never every_sec = false

-- The part of handleSpecial that both kinds of message share: the buffer is empty between batches,
-- so that its flush fails only after an earlier error.
unfoldable pub barrier_sync : Io → Flusher → Flusher × Result (Unit {0})
unfolding do_sync is_never
barrier_sync i f =
    if f.broken then (f, err io) else if is_never f.mode then (f, ok tt) else do_sync i f

-- handleSpecial. Compact reopens the path that it truncated, so that the new handle of a swap is
-- one of the same file; the buffered writer behind it is new.
unfoldable pub handle_special : Io → Msg → Flusher → Flusher
unfolding barrier_sync
handle_special i (line e waits) f = f
handle_special i barrier f =
    let (f', r) = barrier_sync i f in record f' { answers = f'.answers ++ r ∷ [] }
handle_special i swap f =
    let (f', r) = barrier_sync i f in record f' { answers = f'.answers ++ r ∷ []; broken = false }

-- The drain loop: what joins the batch, the special message that ended it, and the rest.
unfoldable pub drain : ℕ → List Msg → List Msg × Option Msg × List Msg
drain zero q = ([], none, q)
drain (suc n) [] = ([], none, [])
drain (suc n) (line e waits ∷ q) = let (b, s, r) = drain n q in (line e waits ∷ b, s, r)
drain (suc n) (swap ∷ q) = ([], some swap, q)
drain (suc n) (barrier ∷ q) = ([], some barrier, q)

unfoldable pub after_batch : Io → Option Msg → Flusher → Flusher
after_batch j none f = f
after_batch j (some m) f = handle_special j m f

-- One round of the loop on a channel that holds something, and what is left in it.
unfoldable pub round : Io → Io → List Msg → Flusher → Flusher × List Msg
round i j [] f = (f, [])
round i j (swap ∷ q) f = (handle_special i swap f, q)
round i j (barrier ∷ q) f = (handle_special i barrier f, q)
round i j (line e waits ∷ q) f =
    let (b, s, r) = drain 511 q in
    let f' = flush_and_signal i (line e waits ∷ b) f in (after_batch j s f', r)

-- The rounds of the loop until the channel is empty, with fuel for each.
unfoldable pub run : ℕ → Io → List Msg → Flusher → Flusher × List Msg
run zero i q f = (f, q)
run (suc fuel) i q f = let (f', r) = round i i q f in run fuel i r f'

-- The tick of syncTicker.
unfoldable pub tick : Io → Flusher → Flusher
unfolding do_sync
tick i f = if f.pending then (do_sync i f).0 else f
