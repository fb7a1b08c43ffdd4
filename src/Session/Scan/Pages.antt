-- ===== src/Session/Scan/Pages.antt =====
-- Paging through the keys by Scan.
use brisedb.Prelude.{
  ℕ, zero, suc, ◌+◌, ◌^◌, ◌<◌, ◌≤◌, ◌≡◌, refl, ap, ◌∙◌, inl, inr, List, [], ◌∷◌, ◌++◌, Bytes,
  length, take, drop, drop-add, if◌then◌else◌, leb, not_leb→lt, ◌==◌, nat_eq, Bool-cases, arith,
}
use brisedb.Types.{Result, ok, err, panic}
use brisedb.Session.Scan.{page}

-- What a page and the pages behind it give.
abbrev with_page : List Bytes → Result (List Bytes) → Result (List Bytes)
with_page l (ok later) = ok (l ++ later)
with_page l (err y) = err y
with_page l panic = panic

-- A client that scans on from the cursor that each page returns, until that is 0. It panics where
-- its fuel runs out.
unfoldable pub pages : ℕ → List Bytes → ℕ → ℕ → Result (List Bytes)
pages zero all cursor n = panic
pages (suc fuel) all cursor n = elim (page all cursor n) [
  | err y ↦ err y
  | panic ↦ panic
  | ok p ↦ if p.0 == 0 then ok p.1 else with_page p.1 (pages fuel all p.0 n)
]

take-drop_append : (n : ℕ) (l : List Bytes) → take n l ++ drop n l ≡ l
unfolding take drop
take-drop_append zero l = refl
take-drop_append (suc n) [] = refl
take-drop_append (suc n) (x ∷ l) = ap (◌∷◌ x) (take-drop_append n l)

pages-from :
    (fuel : ℕ) (all : List Bytes) (cursor n : ℕ)
    → 0 < n
    → cursor < length all
    → length all + n < 2 ^ 63
    → length all < fuel + cursor
    → pages fuel all cursor n ≡ ok (drop cursor all)
unfolding pages page
pages-from zero all cursor n pos inside small h = absurd (omega arith)
pages-from (suc fuel) all cursor n pos inside small h =
    elim (Bool-cases (leb (length all) (cursor + n))) [
      | inl last ↦ ground (arith, last)
      | inr more ↦
          let rest =
            pages-from fuel all (cursor + n) n pos (not_leb→lt (length all) (cursor + n) more) small
              (omega arith) in
          let join : take n (drop cursor all) ++ drop (cursor + n) all ≡ drop cursor all =
            ap (λ l. take n (drop cursor all) ++ l) (drop-add cursor n all)
            ∙ take-drop_append n (drop cursor all) in
          ground (arith, more, rest, join)
    ]

-- A client that scans from 0 with a positive count, and on from the cursor that each page returns
-- until that is 0, reads all of the sorted keys, each once and in order, if there are any and their
-- number and the count together stay in int.
pub pages_complete :
    (all : List Bytes) (n : ℕ)
    → 0 < n
    → 0 < length all
    → length all + n < 2 ^ 63
    → pages (suc (length all)) all 0 n ≡ ok all
unfolding drop
pages_complete all n pos some_key small =
    pages-from (suc (length all)) all 0 n pos some_key small (omega arith)

-- A cursor inside the keys and a count that take their sum out of int make Scan panic.
pub page-panics :
    (all : List Bytes) (cursor n : ℕ)
    → cursor < length all
    → 2 ^ 63 ≤ cursor + n
    → page all cursor n ≡ panic
unfolding page
page-panics all cursor n inside over = ground arith
