-- ===== src/Gateway/Ranges.antt =====
-- parseRange of pkg/blobserver/server.go, on a blob whose size is an int64. An error is `none`: the
-- handler answers all of them alike.
use brisedb.Prelude.{
  ℕ, zero, suc, ◌+◌, ◌-◌, ◌<◌, ◌≤◌, ◌≡◌, ◌⊎◌, refl, inl, inr, Bool, not, Option, none, some, [],
  ◌∷◌, Bytes, length, take, drop, if◌then◌else◌, ltb, leb, ◌==◌, nat_eq, list_eq, Bool-cases,
  Option-cases, arith,
}
use brisedb.Prelude.Assoc.{mem}
use brisedb.Decimal.{pos, negsuc, parse_int}

-- strings.HasPrefix
unfoldable pub has_prefix : Bytes → Bytes → Bool
has_prefix p s = take (length p) s == p

-- strings.TrimPrefix
unfoldable pub trim_prefix : Bytes → Bytes → Bytes
unfolding has_prefix
trim_prefix p s = if has_prefix p s then drop (length p) s else s

-- strings.SplitN into two parts; `none` where there is one part only.
unfoldable pub split_at : ℕ → Bytes → Option (Bytes × Bytes)
split_at c [] = none
split_at c (x ∷ s) =
    let rest = split_at c s in
    if x == c then some ([], s) else elim rest [ none ↦ none | some (a, b) ↦ some (x ∷ a, b) ]

-- The start, and the length, which is `none` where it is -1.
abbrev pub Range : Type 0
Range = ℕ × Option ℕ

-- `bytes=-N`
unfoldable pub suffix_range : Bytes → ℕ → Option Range
suffix_range last total = elim (parse_int last) [
  | none ↦ none
  | some (negsuc n) ↦ none
  | some (pos n) ↦ if n == 0 then none else some (total - n, some (total - (total - n)))
]

-- `bytes=N-M`, from a start that is in the blob.
unfoldable pub range_to : ℕ → Bytes → ℕ → Option Range
range_to start last total = if last == [] then some (start, none) else elim (parse_int last) [
  | none ↦ none
  | some (negsuc n) ↦ none
  | some (pos end) ↦
      if ltb end start
      then none
      else let end' = if leb total end then total - 1 else end in
        some (start, some (end' - start + 1))
]

unfoldable pub range_from : Bytes → Bytes → ℕ → Option Range
unfolding range_to
range_from first last total = elim (parse_int first) [
  | none ↦ none
  | some (negsuc n) ↦ none
  | some (pos start) ↦ if leb total start then none else range_to start last total
]

abbrev pub bytes_unit : Bytes
bytes_unit = b'b' ∷ b'y' ∷ b't' ∷ b'e' ∷ b's' ∷ b'=' ∷ []

-- parseRange
unfoldable pub parse_range : Bytes → ℕ → Option Range
unfolding suffix_range range_from has_prefix trim_prefix split_at
parse_range hdr total =
    if not (has_prefix bytes_unit hdr)
    then none
    else let spec = trim_prefix bytes_unit hdr in
      if mem b',' spec then none else elim (split_at b'-' spec) [
        | none ↦ none
        | some (first, last) ↦
            if first == [] then suffix_range last total else range_from first last total
      ]

-- A range within a blob: it starts in the blob, and what it takes is some of it, and in it.
abbrev pub Within : ℕ → ℕ × Option ℕ → Type 0
Within total (start, none) = start < total
Within total (start, some n) = (start < total) × (0 < n) × (start + n ≤ total)

suffix_range-Within :
    (last : Bytes) (total : ℕ) (r : Range)
    → 0 < total
    → suffix_range last total ≡ some r
    → Within total r
unfolding suffix_range
suffix_range-Within last total (start, none) h e = ground (arith, e, h)
suffix_range-Within last total (start, some n) h e = ground (arith, e, h)

range_to-Within :
    (start : ℕ) (last : Bytes) (total : ℕ) (r : Range)
    → start < total
    → range_to start last total ≡ some r
    → Within total r
unfolding range_to
range_to-Within start last total (s, none) h e = ground (arith, e, h)
range_to-Within start last total (s, some n) h e = ground (arith, e, h)

range_from-Within :
    (first last : Bytes) (total : ℕ) (r : Range)
    → range_from first last total ≡ some r
    → Within total r
unfolding range_from
range_from-Within first last total r e = elim (Option-cases (parse_int first)) [
  | inl n ↦ absurd (ground (arith, e, n))
  | inr (negsuc k, n) ↦ absurd (ground (arith, e, n))
  | inr (pos start, n) ↦ elim (Bool-cases (leb total start)) [
    | inl far ↦ absurd (ground (arith, e, n, far))
    | inr near ↦
        range_to-Within start last total r (ground (arith, near)) (ground (arith, e, n, near))
  ]
]

-- The two forms of a range.
parse_range-cases :
    (hdr : Bytes) (total : ℕ) (r : Range)
    → parse_range hdr total ≡ some r
    → ((last : Bytes) × (suffix_range last total ≡ some r))
      ⊎ ((first : Bytes) × (last : Bytes) × (range_from first last total ≡ some r))
unfolding parse_range
parse_range-cases hdr total r e = elim (Bool-cases (has_prefix bytes_unit hdr)) [
  | inr other ↦ absurd (ground (arith, e, other))
  | inl unit ↦
      let spec = trim_prefix bytes_unit hdr in
      elim (Bool-cases (mem b',' spec)) [
        | inl many ↦ absurd (ground (arith, e, unit, many))
        | inr single ↦ elim (Option-cases (split_at b'-' spec)) [
          | inl n ↦ absurd (ground (arith, e, unit, single, n))
          | inr ((first, last), k) ↦ elim (Bool-cases (first == [])) [
            | inl tail ↦ inl (last, ground (arith, e, unit, single, k, tail))
            | inr front ↦ inr (first, last, ground (arith, e, unit, single, k, front))
          ]
        ]
      ]
]

suffix_range_empty : (last : Bytes) (r : Range) → suffix_range last 0 ≡ some r → r ≡ (0, some 0)
unfolding suffix_range
suffix_range_empty last (start, none) e = absurd (ground (arith, e))
suffix_range_empty last (start, some n) e = ground (arith, e)

suffix_range-range :
    (total : ℕ) (last : Bytes) (r : Range)
    → suffix_range last total ≡ some r
    → Within total r ⊎ ((total ≡ 0) × (r ≡ (0, some 0)))
suffix_range-range zero last r e = inr (refl, suffix_range_empty last r e)
suffix_range-range (suc n) last r e = inl (suffix_range-Within last (suc n) r (omega arith) e)

-- A range that is accepted starts in the blob, takes at least a byte of it, and takes no byte behind
-- it; but for the range of no bytes that a suffix of an empty blob is.
pub parse_range-Within :
    (hdr : Bytes) (total : ℕ) (r : Range)
    → parse_range hdr total ≡ some r
    → Within total r ⊎ ((total ≡ 0) × (r ≡ (0, some 0)))
parse_range-Within hdr total r e = elim (parse_range-cases hdr total r e) [
  | inr (first, last, k) ↦ inl (range_from-Within first last total r k)
  | inl (last, k) ↦ suffix_range-range total last r k
]
