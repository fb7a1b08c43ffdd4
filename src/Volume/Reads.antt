-- ===== src/Volume/Reads.antt =====
-- What volume.read returns after volume.write and volume.writeStream.
use brisedb.Prelude.{
  ℕ, ◌+◌, ◌^◌, ◌≤◌, ◌<◌, ◌≡◌, refl, sym, ap, ◌∙◌, subst, drop, length-drop, false, ◌++◌,
  append_assoc, Bytes, length, length-append, take-append, drop-append, take_all, arith, ==_refl,
  ==_iff, nat_eq,
}
use brisedb.Types.{NeedleAddr, ok, u64}
use brisedb.File.{
  Outcome, done, fails, wrote, read_at, read-append_before, read-append_self, length-read_at,
}
use brisedb.File.Codec.{put_be, length-put_be, get-put_be}
use brisedb.Volume.{Volume, Reader, write, write_stream, read}

-- The counter of the volume agrees with the file.
pub record IsSynced (v : Volume) : Type 0 where
  pub synced : v.end ≡ length v.file
  pub fits : v.end < u64

abbrev pub Extends : Bytes → Bytes → Type 0
Extends f g = (x : Bytes) × (g ≡ f ++ x)

Extends-trans : (f : Bytes) {g h : Bytes} → Extends f g → Extends g h → Extends f h
Extends-trans f (x, p) (y, q) = (x ++ y, rw (q, p) (append_assoc f x y))

-- A blob behind its header, at the end of what was there.
pub blob :
    (f h d : Bytes) → length h ≡ 8 → read_at (8 + length d) (length f) ((f ++ h) ++ d) ≡ h ++ d
blob f h d e = rw (append_assoc f h d) (
    read-append_self (8 + length d) f (h ++ d) (omega (arith, length-append h d))
    ∙ take_all (8 + length d) (h ++ d) (omega (arith, length-append h d)))

pub read_blob :
    (f d : Bytes) (v : Volume) (i : ℕ)
    → v.file ≡ (f ++ put_be 8 (length d)) ++ d
    → length d < 2 ^ 64
    → read (record { volume_id = i; offset = length f; size = length d }) v ≡ ok d
unfolding read
read_blob f d v i e small =
    let h = put_be 8 (length d) in
    let eight : length h ≡ 8 = length-put_be 8 (length d) in
    let size : length (h ++ d) ≡ 8 + length d = omega (arith, length-append h d) in
    rw
      (
        e,
        blob f h d eight,
        size,
        ==_refl (8 + length d),
        take-append 8 h d eight,
        drop-append 8 h d eight,
        get-put_be 8 (length d) small,
        ==_refl (length d),
      )
      refl

-- A blob of a length in 64 bits that is written to a volume whose counter agrees with its file is
-- read back under the address that the write returned.
pub read-write :
    (d : Bytes) (v : Volume)
    → IsSynced v
    → length d < 2 ^ 64
    → (a : NeedleAddr) × ((write done done d v).1 ≡ ok a) × (read a (write done done d v).0 ≡ ok d)
unfolding write
read-write d v s small = (
  record { volume_id = v.id; offset = v.end; size = length d },
  refl,
  subst
      (λ n.
        read (record { volume_id = v.id; offset = n; size = length d }) (write done done d v).0
        ≡ ok d)
      (sym s.synced) (read_blob v.file d (write done done d v).0 v.id refl small),
)

pub inside :
    (a : NeedleAddr) (v : Volume) {d : Bytes}
    → read a v ≡ ok d
    → a.offset + (8 + a.size) ≤ length v.file
unfolding read
inside a v h =
    let n = 8 + a.size in
    ground (arith, ==_iff (length (read_at n a.offset v.file)) n, length-read_at n a.offset v.file)

ok_inj : (a b : Bytes) → ok a ≡ ok b → a ≡ b
ok_inj a b h = ground (arith, h)

kept :
    (a : NeedleAddr) (v : Volume) (d : Bytes)
    → read a v ≡ ok d
    → ok (drop 8 (read_at (8 + a.size) a.offset v.file)) ≡ ok d
unfolding read
kept a v d h = ground (arith, h)

-- What is read has the size of its address.
pub length-read : (a : NeedleAddr) (v : Volume) (d : Bytes) → read a v ≡ ok d → length d ≡ a.size
unfolding read
length-read a v d h =
    let buf = read_at (8 + a.size) a.offset v.file in
    ground (
      arith,
      ==_iff (length buf) (8 + a.size),
      length-drop 8 buf,
      ap length (ok_inj (drop 8 buf) d (kept a v d h)),
    )

pub read_stable :
    (a : NeedleAddr) (v w : Volume) {d : Bytes}
    → Extends v.file w.file
    → read a v ≡ ok d
    → read a w ≡ ok d
unfolding read
read_stable a v w (x, e) h =
    rw (e, read-append_before (8 + a.size) a.offset v.file x (inside a v h)) h

write-Extends : (o₁ o₂ : Outcome) (d : Bytes) (v : Volume) → Extends v.file (write o₁ o₂ d v).0.file
unfolding write
write-Extends (fails n) o₂ d v = (_, refl)
write-Extends done done d v = (_, append_assoc v.file _ d)
write-Extends done (fails n) d v = (_, append_assoc v.file _ _)

write_stream-Extends :
    (o₁ o₂ : Outcome) (r : Reader) (n : ℕ) (v : Volume)
    → Extends v.file (write_stream o₁ o₂ r n v).0.file
unfolding write_stream
write_stream-Extends (fails m) o₂ r n v = (_, refl)
write_stream-Extends done o₂ r n v =
    let got = wrote o₂ r.yields in
    (put_be 8 n ++ got, ground (arith, append_assoc v.file (put_be 8 n) got))

-- Whatever becomes of a write, each address that could be read before is read as before.
pub read-write_old :
    (o₁ o₂ : Outcome) (d : Bytes) (v : Volume) (a : NeedleAddr) {b : Bytes}
    → read a v ≡ ok b
    → read a (write o₁ o₂ d v).0 ≡ ok b
read-write_old o₁ o₂ d v a h = read_stable a v _ (write-Extends o₁ o₂ d v) h

-- Whatever a stream yields and whatever becomes of its writes, each address that could be read
-- before is read as before.
pub read-write_stream_old :
    (o₁ o₂ : Outcome) (r : Reader) (n : ℕ) (v : Volume) (a : NeedleAddr) {b : Bytes}
    → read a v ≡ ok b
    → read a (write_stream o₁ o₂ r n v).0 ≡ ok b
read-write_stream_old o₁ o₂ r n v a h = read_stable a v _ (write_stream-Extends o₁ o₂ r n v) h

-- On a volume whose counter agrees with its file, a stream that does not break and yields exactly
-- the announced size is read back under the address that the write returned.
pub read-write_stream :
    (r : Reader) (v : Volume)
    → IsSynced v
    → r.breaks ≡ false
    → length r.yields < 2 ^ 64
    → let w = write_stream done done r (length r.yields) v in
      (a : NeedleAddr) × (w.1 ≡ ok a) × (read a w.0 ≡ ok r.yields)
unfolding write_stream
read-write_stream r v s whole small =
    let n = length r.yields in
    let w : Volume = (write_stream done done r n v).0 in
    (
      record { volume_id = v.id; offset = v.end; size = n },
      rw (whole, ==_refl n) refl,
      subst (λ k. read (record { volume_id = v.id; offset = k; size = n }) w ≡ ok r.yields)
          (sym s.synced) (read_blob v.file r.yields w v.id (rw (whole, ==_refl n) refl) small),
    )
