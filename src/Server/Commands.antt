-- ===== src/Server/Commands.antt =====
-- The commands of pkg/server/server.go, as words of the request line. Letters are ASCII.
use brisedb.Prelude.{
  ℕ, ◌+◌, ◌-◌, ◌*◌, ◌^◌, Bool, true, false, ◌&&◌, Option, none, some, [], ◌∷◌, Bytes, map,
  if◌then◌else◌, leb, ◌==◌, nat_eq, list_eq,
}

pub data Command : Type 0 where
  replicate_cmd : Command
  set_cmd : Command
  get_cmd : Command
  delete_cmd : Command
  count_cmd : Command
  ttl_cmd : Command
  persist_cmd : Command
  keys_cmd : Command
  scan_cmd : Command
  subscribe_cmd : Command
  unsubscribe_cmd : Command
  publish_cmd : Command
  begin_cmd : Command
  commit_cmd : Command
  rollback_cmd : Command
  compact_cmd : Command
  volinfo_cmd : Command
  stop_cmd : Command
  unknown_cmd : Command

-- strings.ToUpper
abbrev pub upper : ℕ → ℕ
upper c = if leb b'a' c && leb c b'z' then c - 32 else c

unfoldable pub to_upper : Bytes → Bytes
to_upper s = map upper s

-- The cases of the switch.
unfoldable pub command : Bytes → Command
command w =
    if w == (b'R' ∷ b'E' ∷ b'P' ∷ b'L' ∷ b'I' ∷ b'C' ∷ b'A' ∷ b'T' ∷ b'E' ∷ [])
    then replicate_cmd
    else if w == (b'S' ∷ b'E' ∷ b'T' ∷ [])
    then set_cmd
    else if w == (b'G' ∷ b'E' ∷ b'T' ∷ [])
    then get_cmd
    else if w == (b'D' ∷ b'E' ∷ b'L' ∷ b'E' ∷ b'T' ∷ b'E' ∷ [])
    then delete_cmd
    else if w == (b'C' ∷ b'O' ∷ b'U' ∷ b'N' ∷ b'T' ∷ [])
    then count_cmd
    else if w == (b'T' ∷ b'T' ∷ b'L' ∷ [])
    then ttl_cmd
    else if w == (b'P' ∷ b'E' ∷ b'R' ∷ b'S' ∷ b'I' ∷ b'S' ∷ b'T' ∷ [])
    then persist_cmd
    else if w == (b'K' ∷ b'E' ∷ b'Y' ∷ b'S' ∷ [])
    then keys_cmd
    else if w == (b'S' ∷ b'C' ∷ b'A' ∷ b'N' ∷ [])
    then scan_cmd
    else if w == (b'S' ∷ b'U' ∷ b'B' ∷ b'S' ∷ b'C' ∷ b'R' ∷ b'I' ∷ b'B' ∷ b'E' ∷ [])
    then subscribe_cmd
    else if w == (b'U' ∷ b'N' ∷ b'S' ∷ b'U' ∷ b'B' ∷ b'S' ∷ b'C' ∷ b'R' ∷ b'I' ∷ b'B' ∷ b'E' ∷ [])
    then unsubscribe_cmd
    else if w == (b'P' ∷ b'U' ∷ b'B' ∷ b'L' ∷ b'I' ∷ b'S' ∷ b'H' ∷ [])
    then publish_cmd
    else if w == (b'B' ∷ b'E' ∷ b'G' ∷ b'I' ∷ b'N' ∷ [])
    then begin_cmd
    else if w == (b'C' ∷ b'O' ∷ b'M' ∷ b'M' ∷ b'I' ∷ b'T' ∷ [])
    then commit_cmd
    else if w == (b'R' ∷ b'O' ∷ b'L' ∷ b'L' ∷ b'B' ∷ b'A' ∷ b'C' ∷ b'K' ∷ [])
    then rollback_cmd
    else if w == (b'E' ∷ b'N' ∷ b'D' ∷ [])
    then rollback_cmd
    else if w == (b'C' ∷ b'O' ∷ b'M' ∷ b'P' ∷ b'A' ∷ b'C' ∷ b'T' ∷ [])
    then compact_cmd
    else if w == (b'V' ∷ b'O' ∷ b'L' ∷ b'I' ∷ b'N' ∷ b'F' ∷ b'O' ∷ [])
    then volinfo_cmd
    else if w == (b'S' ∷ b'T' ∷ b'O' ∷ b'P' ∷ [])
    then stop_cmd
    else unknown_cmd

-- The commands that a read-only server lets through.
unfoldable pub allowed : Command → Bool
allowed replicate_cmd = false
allowed set_cmd = false
allowed get_cmd = true
allowed delete_cmd = false
allowed count_cmd = true
allowed ttl_cmd = true
allowed persist_cmd = false
allowed keys_cmd = true
allowed scan_cmd = true
allowed subscribe_cmd = false
allowed unsubscribe_cmd = false
allowed publish_cmd = false
allowed begin_cmd = false
allowed commit_cmd = false
allowed rollback_cmd = false
allowed compact_cmd = false
allowed volinfo_cmd = true
allowed stop_cmd = true
allowed unknown_cmd = false

abbrev pub is_word_ex : Bytes → Bool
is_word_ex w = to_upper w == (b'E' ∷ b'X' ∷ [])

abbrev pub is_word_count : Bytes → Bool
is_word_count w = to_upper w == (b'C' ∷ b'O' ∷ b'U' ∷ b'N' ∷ b'T' ∷ [])

-- strconv.ParseInt in base 10, as a sign (true for a minus) and a magnitude.
unfoldable pub digits : ℕ → Bytes → Option ℕ
digits n [] = some n
digits n (c ∷ cs) =
    let rest = digits (n * 10 + (c - b'0')) cs in if leb b'0' c && leb c b'9' then rest else none

abbrev signed : Bool → Option ℕ → Option (Bool × ℕ)
signed neg none = none
signed neg (some n) = if leb n (if neg then 2 ^ 63 else 2 ^ 63 - 1) then some (neg, n) else none

unfoldable pub parse_int : Bytes → Option (Bool × ℕ)
parse_int [] = none
parse_int (c ∷ []) = signed false (digits 0 (c ∷ []))
parse_int (c ∷ d ∷ s) =
    if c == b'-'
    then signed true (digits 0 (d ∷ s))
    else if c == b'+'
    then signed false (digits 0 (d ∷ s))
    else signed false (digits 0 (c ∷ d ∷ s))

-- A positive number.
abbrev pub positive : Option (Bool × ℕ) → Option ℕ
positive none = none
positive (some (true, n)) = none
positive (some (false, n)) = if n == 0 then none else some n

-- A number that is not negative.
abbrev pub natural : Option (Bool × ℕ) → Option ℕ
natural none = none
natural (some (true, n)) = if n == 0 then some 0 else none
natural (some (false, n)) = some n
