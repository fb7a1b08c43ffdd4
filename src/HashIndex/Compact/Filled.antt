-- ===== src/HashIndex/Compact/Filled.antt =====
-- The index that a run of Sets fills.
use brisedb.Prelude.{
  ℕ, suc, ◌+◌, ◌<◌, ◌^◌, ◌≡◌, refl, sym, ap, ◌∙◌, subst, Option, some, List, [], ◌∷◌, Bytes, length,
  if◌then◌else◌, ◌==◌, nat_eq, list_eq, arith, Bool-cases, inl, inr,
}
use brisedb.Types.{NeedleAddr, ok}
use brisedb.File.{Outcome, done, failed}
use brisedb.HashIndex.{HashIndex, get, set_key, append_entry, write_bucket_file, head_of}
use brisedb.HashIndex.Append.{Room, append_entry-IsValid}
use brisedb.HashIndex.Chain.{IsValid}
use brisedb.HashIndex.Compact.{fill, then_fill}
use brisedb.HashIndex.Format.{Entry, entry_size, length-encode_entry}
use brisedb.HashIndex.Reopened.{Persisted}
use brisedb.HashIndex.Tables.{append_entry-Persisted}
use brisedb.HashIndex.Writes.{set_entry, get-set_key}

-- What a live entry must hold to be stored.
pub record Storable (e : Bytes × NeedleAddr × ℕ) : Type 0 where
  pub key : length e.0 < 65536
  pub volume_id : e.1.volume_id < 256 ^ 4
  pub offset : e.1.offset < 256 ^ 8
  pub size : e.1.size < 256 ^ 8
  pub expires_at : e.2 < 256 ^ 8

abbrev pub AllStorable : List (Bytes × NeedleAddr × ℕ) → Type 0
AllStorable [] = Unit {0}
AllStorable (e ∷ l) = Storable e × AllStorable l

abbrev pub total_size : List (Bytes × NeedleAddr × ℕ) → ℕ
total_size [] = 0
total_size ((k, a, x) ∷ l) = entry_size (length k) + total_size l

-- The last address and expiry that a list has for a key.
abbrev pub latest :
    Bytes → List (Bytes × NeedleAddr × ℕ) → Option (NeedleAddr × ℕ) → Option (NeedleAddr × ℕ)
latest k [] d = d
latest k ((j, a, x) ∷ l) d = latest k l (if j == k then some (a, x) else d)

-- A valid index with its table in the file, and what it holds after the entries of a list.
pub record Filled (hi : HashIndex) (l : List (Bytes × NeedleAddr × ℕ)) (hi' : HashIndex)
    : Type 0 where
  pub chains : ℕ → List Entry
  pub valid : IsValid hi' chains
  pub persisted : Persisted hi'
  pub table : hi'.bucket_count ≡ hi.bucket_count
  pub base : hi'.data_base ≡ hi.data_base
  pub count : hi'.entry_count ≡ hi.entry_count + length l
  pub reads :
      (k : Bytes) (d : Option (NeedleAddr × ℕ))
      → get hi k ≡ some d
      → get hi' k ≡ some (latest k l d)

-- A Set whose writes succeed.
abbrev stored : Bytes → NeedleAddr → ℕ → HashIndex → HashIndex
stored k a x hi = (set_key done done k a x hi).0

write_pos-stored :
    (k : Bytes) (a : NeedleAddr) (x : ℕ) (hi : HashIndex)
    → (stored k a x hi).write_pos ≡ hi.write_pos + entry_size (length k)
unfolding set_key append_entry write_bucket_file failed
write_pos-stored k a x hi =
    ap (λ n. hi.write_pos + n)
      (length-encode_entry (record (set_entry k a x) { next = head_of hi k }))

fill-stored :
    (w : ℕ → Outcome × Outcome) (i : ℕ) (k : Bytes) (a : NeedleAddr) (x : ℕ)
    (l : List (Bytes × NeedleAddr × ℕ)) (hi : HashIndex)
    → w i ≡ (done, done)
    → fill w i ((k, a, x) ∷ l) hi ≡ fill w (suc i) l (stored k a x hi)
unfolding fill set_key append_entry write_bucket_file failed
fill-stored w i k a x l hi h =
    subst
      (λ p.
        fill w i ((k, a, x) ∷ l) hi
        ≡ then_fill (set_key p.0 p.1 k a x hi) (fill w (suc i) l (set_key p.0 p.1 k a x hi).0))
      h refl

stored-Filled :
    (k : Bytes) (a : NeedleAddr) (x : ℕ) (l : List (Bytes × NeedleAddr × ℕ)) (hi hi' : HashIndex)
    (chains : ℕ → List Entry)
    → IsValid hi chains
    → Room hi (set_entry k a x)
    → Filled (stored k a x hi) l hi'
    → Filled hi ((k, a, x) ∷ l) hi'
unfolding set_key append_entry write_bucket_file failed
stored-Filled k a x l hi hi' chains v m f = record {
  chains = f.chains;
  valid = f.valid;
  persisted = f.persisted;
  table = f.table;
  base = f.base;
  count = f.count ∙ omega arith;
  reads = λ j d h. f.reads j (if k == j then some (a, x) else d) (
      get-set_key hi chains v done k a x j m
      ∙ elim (Bool-cases (k == j)) [ inl e ↦ rw e refl | inr e ↦ rw e h ]);
}

-- A run of Sets whose writes succeed fills the index.
pub fill-Filled :
    (w : ℕ → Outcome × Outcome) (i : ℕ) (l : List (Bytes × NeedleAddr × ℕ)) (hi : HashIndex)
    (chains : ℕ → List Entry)
    → ((n : ℕ) → w n ≡ (done, done))
    → IsValid hi chains
    → Persisted hi
    → AllStorable l
    → hi.write_pos + total_size l < 2 ^ 63
    → ((fill w i l hi).1 ≡ ok tt) × Filled hi l (fill w i l hi).0
unfolding fill set_key
fill-Filled w i [] hi chains g v q s room = (
  refl,
  record {
    chains = chains;
    valid = v;
    persisted = q;
    table = refl;
    base = refl;
    count = omega arith;
    reads = λ k d h. h;
  },
)
fill-Filled w i ((k, a, x) ∷ l) hi chains g v q (e, s) room =
    let m : Room hi (set_entry k a x) = record {
      key = e.key;
      volume_id = e.volume_id;
      offset = e.offset;
      size = e.size;
      expires_at = e.expires_at;
      room = omega arith;
    } in
    let next =
      fill-Filled w (suc i) l (stored k a x hi) _ g
        (append_entry-IsValid hi chains v (set_entry k a x) m done (λ n. n + 1))
        (append_entry-Persisted hi chains (set_entry k a x) (λ n. n + 1) v q (omega arith)) s
        (omega (arith, write_pos-stored k a x hi)) in
    subst (λ r. (r.1 ≡ ok tt) × Filled hi ((k, a, x) ∷ l) r.0)
      (sym (fill-stored w i k a x l hi (g i)))
      (next.0, stored-Filled k a x l hi _ chains v m next.1)
