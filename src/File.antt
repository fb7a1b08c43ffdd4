-- ===== src/File.antt =====
-- Files as the program uses them: a sequence of bytes, read and written at offsets as by
-- `os.File.ReadAt` and `WriteAt`, and appended to as by `Write` on a file opened with O_APPEND.
pub mod Codec
use brisedb.Prelude.{
  ℕ, zero, ◌+◌, ◌-◌, ◌≤◌, ◌≡◌, refl, sym, ◌∙◌, ap, List, [], ◌++◌, append_assoc, append-nil, arith,
  Bool, true, false, Bytes, length, take, drop, replicate, length-append, length-replicate,
  length-take, length-drop, take_all, take-append, take-append_le, drop-append, drop-append_le,
  length-take-le_length, ◌⊎◌, inl, inr, suc, drop-add, take-drop, take-take,
}

-- What the operating system makes of a write: all of it, or a prefix and an error.
pub data Outcome : Type 0 where
  done : Outcome
  fails : ℕ → Outcome

unfoldable pub failed : Outcome → Bool
failed done = false
failed (fails n) = true

unfoldable pub wrote : Outcome → Bytes → Bytes
wrote done d = d
wrote (fails n) d = take n d

-- `ReadAt` of n bytes: fewer only at the end of the file.
unfoldable pub read_at : ℕ → ℕ → Bytes → Bytes
read_at n off f = take n (drop off f)

-- A write behind the end fills the gap with zeros.
unfoldable pub write_at : ℕ → Bytes → Bytes → Bytes
write_at off d f = take off (f ++ replicate (off - length f) 0) ++ (d ++ drop (off + length d) f)

head-length : (off : ℕ) (f : Bytes) → off ≤ length (f ++ replicate (off - length f) 0)
head-length off f = omega (
  arith,
  length-append f (replicate (off - length f) 0),
  length-replicate {A = ℕ} (off - length f) 0,
)

-- The bytes before the write stay.
pub read-write_before :
    (n p : ℕ) (d f : Bytes) (off : ℕ)
    → p + n ≤ off
    → p + n ≤ length f
    → read_at n p (write_at off d f) ≡ read_at n p f
unfolding read_at write_at
read-write_before n p d f off h inside =
    let pad = f ++ replicate (off - length f) 0 in
    let e : take (p + n) (take off pad ++ (d ++ drop (off + length d) f)) ≡ take (p + n) f =
      take-append_le (p + n) (take off pad) (d ++ drop (off + length d) f)
        (omega (arith, length-take off pad (head-length off f)))
      ∙ take-take (p + n) off pad h
      ∙ take-append_le (p + n) f (replicate (off - length f) 0) inside in
    take-drop p n _ ∙ ap (drop p) e ∙ sym (take-drop p n f)

drop-written :
    (d f : Bytes) (off : ℕ) → drop (off + length d) (write_at off d f) ≡ drop (off + length d) f
unfolding write_at
drop-written d f off =
    let pad = f ++ replicate (off - length f) 0 in
    drop-add off (length d) (take off pad ++ (d ++ drop (off + length d) f))
    ∙ ap (drop (length d)) (
        drop-append off (take off pad) (d ++ drop (off + length d) f)
          (length-take off pad (head-length off f)))
    ∙ drop-append (length d) d (drop (off + length d) f) refl

-- So do the bytes behind it.
pub read-write_after :
    (n p : ℕ) (d f : Bytes) (off : ℕ)
    → off + length d ≤ p
    → read_at n p (write_at off d f) ≡ read_at n p f
unfolding read_at write_at
read-write_after n p d f off h =
    let q = p - (off + length d) in
    let e : p ≡ off + length d + q = omega arith in
    rw e (
      ap (take n) (
        drop-add (off + length d) q (write_at off d f)
        ∙ ap (drop q) (drop-written d f off)
        ∙ sym (drop-add (off + length d) q f)))

-- What was written is read back.
pub read-write_self : (d f : Bytes) (off : ℕ) → read_at (length d) off (write_at off d f) ≡ d
unfolding read_at write_at
read-write_self d f off =
    let pad = f ++ replicate (off - length f) 0 in
    ap (take (length d)) (
      drop-append off (take off pad) (d ++ drop (off + length d) f)
        (length-take off pad (head-length off f)))
    ∙ take-append (length d) d (drop (off + length d) f) refl

pub length-write_at :
    (off : ℕ) (d f : Bytes)
    → length (write_at off d f) ≡ off + (length d + (length f - (off + length d)))
unfolding write_at
length-write_at off d f =
    let pad = f ++ replicate (off - length f) 0 in
    omega (
      arith,
      length-append (take off pad) (d ++ drop (off + length d) f),
      length-append d (drop (off + length d) f),
      length-take off pad (head-length off f),
      length-drop (off + length d) f,
    )

-- An append keeps what could be read, and what it adds is read at the old end.
pub read-append_before :
    (n p : ℕ) (f d : Bytes) → p + n ≤ length f → read_at n p (f ++ d) ≡ read_at n p f
unfolding read_at
read-append_before n p f d h =
    take-drop p n (f ++ d) ∙ ap (drop p) (take-append_le (p + n) f d h) ∙ sym (take-drop p n f)

pub read-append_self :
    (n : ℕ) (f d : Bytes) → n ≤ length d → read_at n (length f) (f ++ d) ≡ take n d
unfolding read_at
read-append_self n f d h = ap (take n) (drop-append (length f) f d refl)

-- A read is short only at the end of the file.
pub length-read_at :
    (n p : ℕ) (f : Bytes) → length (read_at n p f) ≡ n → (n ≡ 0) ⊎ (p + n ≤ length f)
unfolding read_at
length-read_at zero p f h = inl refl
length-read_at (suc n) p f h =
    inr (omega (arith, length-take-le_length (suc n) (drop p f), length-drop p f))

pub length-read_at_of_le : (n p : ℕ) (f : Bytes) → p + n ≤ length f → length (read_at n p f) ≡ n
unfolding read_at
length-read_at_of_le n p f h = length-take n (drop p f) (omega (arith, length-drop p f))
