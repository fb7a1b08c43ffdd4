-- ===== src/HashIndex/Compact/Visited.antt =====
-- The iteration of forEachLarge over the whole table, and what it passes on of each key.
use brisedb.Prelude.{
  ℕ, zero, suc, ◌+◌, ◌≤◌, ◌<◌, ◌≡◌, ◌≢◌, refl, sym, ap, ◌∙◌, subst, Option, none, some, List, [],
  ◌∷◌, ◌++◌, Bytes, length, get_or, if◌then◌else◌, ◌==◌, ==_iff, nat_eq, list_eq, arith, Bool-cases,
  inl, inr,
}
use brisedb.Prelude.Assoc.{mem}
use brisedb.Types.{NeedleAddr, ok}
use brisedb.HashIndex.{HashIndex, hash_slot}
use brisedb.HashIndex.Chain.{IsValid, Chained, newest}
use brisedb.HashIndex.Compact.Filled.{latest}
use brisedb.HashIndex.Format.{Entry}
use brisedb.HashIndex.Open.{is_live, walk_heads, for_each_large}
use brisedb.HashIndex.Open.Walk.{visited, walk_chain-visited, unexpired}

-- Every entry of a chain hashes to the slot of the chain.
abbrev pub HomedAt : (Bytes → ℕ) → ℕ → List Entry → Type 0
HomedAt slot_of s [] = Unit {0}
HomedAt slot_of s (e ∷ es) = (slot_of e.key ≡ s) × HomedAt slot_of s es

abbrev pub Homed : HashIndex → (ℕ → List Entry) → Type 0
Homed hi chains = (s : ℕ) → HomedAt (hash_slot hi) s (chains s)

abbrev pub or_else : Option (NeedleAddr × ℕ) → Option (NeedleAddr × ℕ) → Option (NeedleAddr × ℕ)
or_else none d = d
or_else (some a) d = some a

-- What the iteration visits of n chains.
abbrev pub all_visited : ℕ → (ℕ → List Entry) → ℕ → ℕ → List (Bytes × NeedleAddr × ℕ)
all_visited now chains base zero = []
all_visited now chains base (suc n) =
    visited now [] (chains base) ++ all_visited now chains (suc base) n

walk_heads-all :
    (f : Bytes) (lo bound fuel now : ℕ) (chains : ℕ → List Entry) (heads : List ℕ) (base : ℕ)
    → bound < fuel
    → ((s : ℕ) → s < length heads → Chained f lo bound (get_or heads s 0) (chains (base + s)))
    → walk_heads fuel f now heads ≡ ok (all_visited now chains base (length heads))
unfolding walk_heads get_or
walk_heads-all f lo bound fuel now chains [] base h c = refl
walk_heads-all f lo bound fuel now chains (head ∷ heads) base h c =
    let first =
      walk_chain-visited f lo now [] fuel bound head (chains base)
        (subst (λ b. Chained f lo bound head (chains b)) (omega arith) (c 0 (omega arith))) h in
    let rest = walk_heads-all f lo bound fuel now chains heads (suc base) h (λ s k.
      subst (λ b. Chained f lo bound (get_or heads s 0) (chains b)) (omega arith)
        (c (suc s) (omega arith))) in
    rw (first, rest) refl

latest-append :
    (k : Bytes) (a b : List (Bytes × NeedleAddr × ℕ)) (d : Option (NeedleAddr × ℕ))
    → latest k (a ++ b) d ≡ latest k b (latest k a d)
latest-append k [] b d = refl
latest-append k ((j, x, y) ∷ a) b d = latest-append k a b (if j == k then some (x, y) else d)

latest-visited :
    (now : ℕ) (seen : List Bytes) (es : List Entry) (k : Bytes) (d : Option (NeedleAddr × ℕ))
    → latest k (visited now seen es) d
      ≡ (if mem k seen then d else or_else (unexpired now (newest k es)) d)
unfolding visited newest is_live mem
latest-visited now seen [] k d = ground arith
latest-visited now seen (e ∷ es) k d = ground (
  arith,
  latest-visited now seen es k d,
  latest-visited now (e.key ∷ seen) es k d,
  latest-visited now (e.key ∷ seen) es k (some (e.addr, e.expires_at)),
  ==_iff e.key k,
  ap (λ j. mem j seen),
)

newest-HomedAt :
    (slot_of : Bytes → ℕ) (s : ℕ) (es : List Entry) (k : Bytes)
    → HomedAt slot_of s es
    → slot_of k ≢ s
    → newest k es ≡ none
unfolding newest
newest-HomedAt slot_of s [] k h ne = refl
newest-HomedAt slot_of s (e ∷ es) k (h, hs) ne = elim (Bool-cases (e.key == k)) [
  | inl same ↦ absurd (ne (ap slot_of (sym ((==_iff e.key k).0 same)) ∙ h))
  | inr other ↦ rw other (newest-HomedAt slot_of s es k hs ne)
]

or_none : (o : Option (NeedleAddr × ℕ)) → or_else o none ≡ o
or_none none = refl
or_none (some a) = refl

-- Chains that are not the key's own pass nothing of it on.
module _ (slot_of : Bytes → ℕ) (now : ℕ) (chains : ℕ → List Entry) (k : Bytes)
    (homed : (s : ℕ) → HomedAt slot_of s (chains s)) where
  latest-chain :
      (s : ℕ) (d : Option (NeedleAddr × ℕ))
      → latest k (visited now [] (chains s)) d ≡ or_else (unexpired now (newest k (chains s))) d
  unfolding mem
  latest-chain s d = latest-visited now [] (chains s) k d

  latest-other :
      (base n : ℕ) (d : Option (NeedleAddr × ℕ))
      → slot_of k < base
      → latest k (all_visited now chains base n) d ≡ d
  latest-other base zero d h = refl
  latest-other base (suc n) d h =
      let ne : slot_of k ≢ base = λ e. omega (arith, e) in
      let none_here = newest-HomedAt slot_of base (chains base) k (homed base) ne in
      latest-append k (visited now [] (chains base)) (all_visited now chains (suc base) n) d
      ∙ latest-other (suc base) n _ (omega arith)
      ∙ latest-chain base d
      ∙ ap (λ o. or_else (unexpired now o) d) none_here

  pub latest-all_visited :
      (base n : ℕ)
      → base ≤ slot_of k
      → slot_of k < base + n
      → latest k (all_visited now chains base n) none
        ≡ unexpired now (newest k (chains (slot_of k)))
  latest-all_visited base zero lo hi = absurd (omega arith)
  latest-all_visited base (suc n) lo hi =
      let split =
        latest-append k (visited now [] (chains base)) (all_visited now chains (suc base) n) none in
      elim (Bool-cases (slot_of k == base)) [
        | inl here ↦
            let e = (==_iff (slot_of k) base).0 here in
            split
            ∙ latest-other (suc base) n _ (omega (arith, e))
            ∙ latest-chain base none
            ∙ or_none (unexpired now (newest k (chains base)))
            ∙ ap (λ s. unexpired now (newest k (chains s))) (sym e)
        | inr other ↦
            let ne : slot_of k ≢ base = λ e. ground (arith, ==_iff (slot_of k) base, e, other) in
            split
            ∙ ap (latest k (all_visited now chains (suc base) n)) (
                latest-chain base none
                ∙ ap (λ o. or_else (unexpired now o) none)
                    (newest-HomedAt slot_of base (chains base) k (homed base) ne))
            ∙ latest-all_visited (suc base) n (ground (arith, ne, lo)) (omega arith)
      ]

-- The iteration over a valid index ends.
pub for_each_large-all :
    (hi : HashIndex) (chains : ℕ → List Entry) (now : ℕ)
    → IsValid hi chains
    → for_each_large now hi ≡ ok (all_visited now chains 0 hi.bucket_count)
unfolding for_each_large
for_each_large-all hi chains now v =
    walk_heads-all hi.file hi.data_base hi.write_pos (suc hi.write_pos) now chains hi.buckets 0
      (omega arith)
      (λ s k.
        subst (λ b. Chained hi.file hi.data_base hi.write_pos (get_or hi.buckets s 0) (chains b))
          (omega arith) (v.chained s (omega (arith, k, v.heads))))
    ∙ ap (λ n. ok (all_visited now chains 0 n)) v.heads
