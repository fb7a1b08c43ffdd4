-- ===== src/HashIndex/Writes.antt =====
-- Set and Delete keep the index valid, and what Get reads after them.
use brisedb.Prelude.{
  ℕ, ◌+◌, ◌-◌, ◌≡◌, refl, none, some, true, false, List, Bytes, if◌then◌else◌, ◌==◌, nat_eq,
  list_eq, ltb,
}
use brisedb.Types.{NeedleAddr, err, io, no_addr}
use brisedb.File.{Outcome, done, fails}
use brisedb.HashIndex.Format.{Entry}
use brisedb.HashIndex.Chain.{IsValid}
use brisedb.HashIndex.{HashIndex, get, append_entry, set_key, delete_key}
use brisedb.HashIndex.Append.{
  Room, append_entry-IsValid, append_entry-IsValid_failed, get-append_entry,
  get-append_entry_failed,
}

abbrev pub set_entry : Bytes → NeedleAddr → ℕ → Entry
set_entry key addr expires_at = record {
  next = 0;
  key = key;
  addr = addr;
  expires_at = expires_at;
  deleted = false;
}

abbrev pub tombstone : Bytes → Entry
tombstone key = record { next = 0; key = key; addr = no_addr; expires_at = 0; deleted = true }

module _ (hi : HashIndex) (chains : ℕ → List Entry) (v : IsValid hi chains) where
  -- After a Set whose entry reached the file, Get gives the new address and expiry for the key
  -- and what it gave before for every other key, also if the bucket could not be saved.
  pub get-set_key :
      (o : Outcome) (k : Bytes) (a : NeedleAddr) (x : ℕ) (j : Bytes)
      → Room hi (set_entry k a x)
      → get (set_key done o k a x hi).0 j ≡ (if k == j then some (some (a, x)) else get hi j)
  unfolding set_key
  get-set_key o k a x j m = get-append_entry hi chains (set_entry k a x) o (λ n. n + 1) j v m

  -- After a Delete whose tombstone reached the file, Get misses the key, and gives what it gave
  -- before for every other key.
  pub get-delete_key :
      (o : Outcome) (k j : Bytes)
      → Room hi (tombstone k)
      → get (delete_key done o k hi).0 j ≡ (if k == j then some none else get hi j)
  unfolding delete_key
  get-delete_key o k j m =
      get-append_entry hi chains (tombstone k) o (λ n. if ltb 0 n then n - 1 else n) j v m

  -- A Set or a Delete whose entry could not be written whole changes nothing that Get reads, and
  -- reports the error.
  pub get-failed_write :
      (n : ℕ) (o : Outcome) (k : Bytes) (a : NeedleAddr) (x : ℕ) (j : Bytes)
      → (get (set_key (fails n) o k a x hi).0 j ≡ get hi j)
        × ((set_key (fails n) o k a x hi).1 ≡ err io)
        × (get (delete_key (fails n) o k hi).0 j ≡ get hi j)
        × ((delete_key (fails n) o k hi).1 ≡ err io)
  unfolding set_key delete_key append_entry
  get-failed_write n o k a x j = (
    get-append_entry_failed hi chains (set_entry k a x) n o (λ n. n + 1) j v,
    refl,
    get-append_entry_failed hi chains (tombstone k) n o (λ n. if ltb 0 n then n - 1 else n) j v,
    refl,
  )

module _ (hi : HashIndex) (chains : ℕ → List Entry) (v : IsValid hi chains) (k : Bytes) where
  abbrev pub ValidAfter : HashIndex → Type 0
  ValidAfter hi' = (chains' : ℕ → List Entry) × IsValid hi' chains'

  -- A Set with room keeps the index valid, whatever the system makes of its two writes.
  pub set_key-IsValid :
      (o₁ o₂ : Outcome) (a : NeedleAddr) (x : ℕ)
      → Room hi (set_entry k a x)
      → ValidAfter (set_key o₁ o₂ k a x hi).0
  unfolding set_key
  set_key-IsValid done o₂ a x m =
      (_, append_entry-IsValid hi chains v (set_entry k a x) m o₂ (λ n. n + 1))
  set_key-IsValid (fails n) o₂ a x m =
      (chains, append_entry-IsValid_failed hi chains (set_entry k a x) n o₂ (λ n. n + 1) v)

  -- A Delete with room keeps the index valid, whatever the system makes of its two writes.
  pub delete_key-IsValid :
      (o₁ o₂ : Outcome) → Room hi (tombstone k) → ValidAfter (delete_key o₁ o₂ k hi).0
  unfolding delete_key
  delete_key-IsValid done o₂ m =
      (_, append_entry-IsValid hi chains v (tombstone k) m o₂ (λ n. if ltb 0 n then n - 1 else n))
  delete_key-IsValid (fails n) o₂ m = (
    chains,
    append_entry-IsValid_failed hi chains (tombstone k) n o₂ (λ n. if ltb 0 n then n - 1 else n) v,
  )
