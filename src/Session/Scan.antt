-- ===== src/Session/Scan.antt =====
-- Keys, Scan and Count of pkg/brisedb/session.go, over the live entries that ForEach visits.
-- A cursor is not negative; a count that is not positive is 0.
pub mod Pages
mod Tests
use brisedb.Prelude.{
  ℕ, zero, suc, ◌+◌, ◌-◌, ◌^◌, ◌<◌, Bool, true, false, not, ◌&&◌, ◌||◌, Option, none, some, List,
  [], ◌∷◌, ◌++◌, map, Bytes, length, take, drop, if◌then◌else◌, ltb, leb, ◌==◌, nat_eq, list_eq,
}
use brisedb.Prelude.Assoc.{Assoc, lookup, mem}
use brisedb.Types.{NeedleAddr, Result, ok, err, panic}
use brisedb.Store.{Store}
use brisedb.Glob.{match_glob}
use brisedb.Tx.{Snapshot, snapshot, is_some}
use brisedb.Session.{Session}

-- The order of strings.
unfoldable pub bytes_leb : Bytes → Bytes → Bool
bytes_leb [] b = true
bytes_leb (x ∷ a) [] = false
bytes_leb (x ∷ a) (y ∷ b) = ltb x y || ((x == y) && bytes_leb a b)

-- sort.Strings
unfoldable pub insert_string : Bytes → List Bytes → List Bytes
insert_string a [] = a ∷ []
insert_string a (b ∷ bs) =
    let rest = insert_string a bs in if bytes_leb a b then a ∷ b ∷ bs else b ∷ rest

unfoldable pub sort_strings : List Bytes → List Bytes
sort_strings [] = []
sort_strings (a ∷ l) = insert_string a (sort_strings l)

unfoldable pub matching : Bytes → List Bytes → List Bytes
matching pattern [] = []
matching pattern (k ∷ ks) =
    let rest = matching pattern ks in if match_glob pattern k then k ∷ rest else rest

-- The slice of the sorted keys that Scan returns. An end behind the range of int is negative, and
-- the slice expression then panics.
unfoldable pub page : List Bytes → ℕ → ℕ → Result (ℕ × List Bytes)
page all cursor count =
    if leb (length all) cursor
    then ok (0, [])
    else let end = cursor + count in
      if leb (2 ^ 63) end
      then panic
      else if leb (length all) end
      then ok (0, drop cursor all)
      else ok (end, take count (drop cursor all))

-- Values in the index that no transaction overrides or hides, and that are the value.
unfoldable pub count_overrides : Bytes → Assoc Bytes Bytes → ℕ
count_overrides value [] = 0
count_overrides value ((k, v) ∷ m) =
    let rest = count_overrides value m in if v == value then suc rest else rest

module _ (st : Store) where
  abbrev live_keys : ℕ → Session st → List Bytes
  live_keys now s = map (λ e. e.0) (st.live now s.db.state)

  -- Keys
  unfoldable pub keys : Bytes → ℕ → Session st → List Bytes
  keys pattern now s = sort_strings (matching pattern (live_keys now s))

  -- Scan
  unfoldable pub scan : ℕ → ℕ → ℕ → Session st → Result (ℕ × List Bytes)
  scan cursor count now s =
      page (sort_strings (live_keys now s)) cursor (if count == 0 then 10 else count)

  abbrev reads_as : NeedleAddr → Bytes → st.State → Bool
  reads_as a value d = elim (st.read a d) [ ok x ↦ x == value | err y ↦ false | panic ↦ false ]

  unfoldable pub count_live : Bytes → Snapshot → st.State → List (Bytes × NeedleAddr × ℕ) → ℕ
  count_live value t d [] = 0
  count_live value t d ((k, a, x) ∷ es) =
      let rest = count_live value t d es in
      if mem k t.removed || is_some (lookup k t.overrides)
      then rest
      else if reads_as a value d
      then suc rest
      else rest

  -- Count
  unfoldable pub count : Bytes → ℕ → Session st → ℕ
  count value now s =
      let t = snapshot s.stack.top in
      count_live value t s.db.state (st.live now s.db.state) + count_overrides value t.overrides
