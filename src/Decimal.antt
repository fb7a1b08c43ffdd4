-- ===== src/Decimal.antt =====
-- The decimal numbers of fmt and strconv, as the servers and clients use them.
use brisedb.Prelude.{
  ℕ, zero, suc, ◌+◌, ◌-◌, ◌*◌, ◌/◌, ◌%◌, ◌^◌, ◌<◌, ◌≤◌, ◌≡◌, refl, ◌∙◌, inl, inr, Bool, ◌&&◌,
  Option, none, some, [], ◌∷◌, Bytes, if◌then◌else◌, ltb, leb, ◌==◌, nat_eq, Bool-cases, lt→ltb,
  length, arith,
}

pub data ℤ : Type 0 where
  pos : ℕ → ℤ
  negsuc : ℕ → ℤ

-- `%d` of a number of at most `fuel` digits, before what is printed of it.
unfoldable print_from : ℕ → ℕ → Bytes → Bytes
print_from zero n acc = acc
print_from (suc fuel) n acc =
    let rest = print_from fuel (n / 10) ((b'0' + n % 10) ∷ acc) in
    if ltb n 10 then (b'0' + n % 10) ∷ acc else rest

-- `%d` of a uint64, which has at most 20 digits.
unfoldable pub print : ℕ → Bytes
unfolding print_from
print n = print_from 20 n []

abbrev pub is_digit : ℕ → Bool
is_digit c = leb b'0' c && leb c b'9'

unfoldable pub digits : ℕ → Bytes → Option ℕ
digits acc [] = some acc
digits acc (c ∷ cs) =
    let rest = digits (acc * 10 + (c - b'0')) cs in if is_digit c then rest else none

-- strconv.ParseUint(s, 10, bits)
unfoldable pub parse_uint : ℕ → Bytes → Option ℕ
parse_uint bits [] = none
parse_uint bits (c ∷ cs) = elim (digits 0 (c ∷ cs)) [
  | none ↦ none
  | some n ↦ if ltb n (2 ^ bits) then some n else none
]

abbrev pub negative : Option ℕ → Option ℤ
negative none = none
negative (some n) =
    if leb n (2 ^ 63) then (if n == 0 then some (pos 0) else some (negsuc (n - 1))) else none

abbrev pub nonnegative : Option ℕ → Option ℤ
nonnegative none = none
nonnegative (some n) = if ltb n (2 ^ 63) then some (pos n) else none

-- strconv.ParseInt(s, 10, 64)
unfoldable pub parse_int : Bytes → Option ℤ
unfolding parse_uint
parse_int [] = none
parse_int (c ∷ cs) =
    if c == b'-'
    then negative (parse_uint 64 cs)
    else if c == b'+'
    then nonnegative (parse_uint 64 cs)
    else nonnegative (parse_uint 64 (c ∷ cs))

digit_zero : (n : ℕ) → n < 10 ^ 0 → n ≡ 0
digit_zero n h = omega (arith, h)

digits-print_from :
    (fuel n : ℕ) (acc : Bytes) → n < 10 ^ fuel → digits 0 (print_from fuel n acc) ≡ digits n acc
unfolding print_from digits
digits-print_from zero n acc h = rw (digit_zero n h) refl
digits-print_from (suc fuel) n acc h = elim (Bool-cases (ltb n 10)) [
  | inl small ↦ ground (arith, small)
  | inr large ↦
      rw large (
        digits-print_from fuel (n / 10) ((b'0' + n % 10) ∷ acc) (omega (arith, h)) ∙ ground (arith))
]

print_from_grows : (fuel n : ℕ) (acc : Bytes) → length acc ≤ length (print_from fuel n acc)
unfolding print_from
print_from_grows zero n acc = omega arith
print_from_grows (suc fuel) n acc =
    ground (arith, print_from_grows fuel (n / 10) ((b'0' + n % 10) ∷ acc))

pub print_is_some : (n : ℕ) → 1 ≤ length (print n)
unfolding print print_from
print_is_some n = ground (arith, print_from_grows 19 (n / 10) ((b'0' + n % 10) ∷ []))

parses_digits :
    (bits n : ℕ) (s : Bytes)
    → 1 ≤ length s
    → digits 0 s ≡ some n
    → n < 2 ^ bits
    → parse_uint bits s ≡ some n
unfolding parse_uint
parses_digits bits n [] h e b = absurd (omega arith)
parses_digits bits n (c ∷ cs) h e b = rw (e, parse_uint) (rw (lt→ltb n (2 ^ bits) b) refl)

-- A number that is printed, and fits in 64 bits and in those that are asked for, is parsed as itself.
pub parse_uint-print : (bits n : ℕ) → n < 2 ^ bits → n < 2 ^ 64 → parse_uint bits (print n) ≡ some n
unfolding print digits
parse_uint-print bits n h small =
    parses_digits bits n (print n) (print_is_some n) (digits-print_from 20 n [] (omega arith)) h
