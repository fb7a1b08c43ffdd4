-- ===== src/Volume/Desync.antt =====
-- How the counter of a volume and its file come apart.
use brisedb.Prelude.{
  ℕ, ◌+◌, ◌^◌, ◌≤◌, ◌<◌, ◌≡◌, ◌≢◌, refl, sym, ap, ◌∙◌, subst, false, ◌++◌, append_assoc, Bytes,
  length, take, length-append, take-append, take-take, length-take, arith, ==_refl, ==_iff, nat_eq,
}
use brisedb.Types.{NeedleAddr, ok, err, size_mismatch, wrong_length, u64}
use brisedb.File.{done, read_at, read-append_self}
use brisedb.File.Codec.{put_be, get_be, length-put_be, get-put_be}
use brisedb.Volume.{Volume, Reader, write, write_stream, read}
use brisedb.Volume.Reads.{IsSynced}

-- A successful write leaves the counter at the end of the file, as long as it stays in 64 bits.
pub write-IsSynced :
    (d : Bytes) (v : Volume)
    → IsSynced v
    → v.end + (8 + length d) < u64
    → IsSynced (write done done d v).0
unfolding write
write-IsSynced d v s room = record {
  synced = omega (
    arith,
    s.synced,
    length-append (v.file ++ put_be 8 (length d)) d,
    length-append v.file (put_be 8 (length d)),
    length-put_be 8 (length d),
  );
  fits = omega arith;
}

regroup :
    (f : Bytes) {g : Bytes} (h x i d : Bytes)
    → g ≡ (f ++ h) ++ x
    → (g ++ i) ++ d ≡ f ++ (h ++ (x ++ (i ++ d)))
regroup f h x i d e = simp (e, append_assoc)

-- A read behind a header of another size.
read_other_header :
    (f rest : Bytes) (w : Volume) (i m k : ℕ)
    → w.file ≡ f ++ (put_be 8 m ++ rest)
    → m < 2 ^ 64
    → m ≢ k
    → k ≤ length rest
    → read (record { volume_id = i; offset = length f; size = k }) w ≡ err size_mismatch
unfolding read
read_other_header f rest w i m k e small other long =
    let n = 8 + k in
    let h = put_be 8 m in
    let all : n ≤ length (h ++ rest) = omega (arith, length-append h rest, length-put_be 8 m) in
    let buf : read_at n (length f) w.file ≡ take n (h ++ rest) =
      ap (read_at n (length f)) e ∙ read-append_self n f (h ++ rest) all in
    let head : get_be (take 8 (take n (h ++ rest))) ≡ m =
      ap get_be (take-take 8 n (h ++ rest) (omega arith) ∙ take-append 8 h rest (length-put_be 8 m))
      ∙ get-put_be 8 m small in
    rw (buf, length-take n (h ++ rest) all, ==_refl n, head) (ground (arith, ==_iff m k))

-- The volume that a stream leaves which ends before the announced size.
module _ (r : Reader) (size : ℕ) (v : Volume) (s : IsSynced v) (whole : r.breaks ≡ false)
    (short : length r.yields ≢ size) where
  abbrev pub cut : Volume
  cut = (write_stream done done r size v).0

  cut-file : cut.file ≡ (v.file ++ put_be 8 size) ++ r.yields
  unfolding write_stream
  cut-file = ground (arith, ==_iff (length r.yields) size)

  cut-end : cut.end ≡ v.end
  unfolding write_stream
  cut-end = ground (arith, ==_iff (length r.yields) size)

  -- The stream is refused, and the counter of the volume is not at the end of its file.
  pub short_stream_desyncs :
      ((write_stream done done r size v).1 ≡ err wrong_length) × (¬ IsSynced cut)
  unfolding write_stream
  short_stream_desyncs = (
    ground (arith, ==_iff (length r.yields) size),
    λ t. omega (
      arith,
      s.synced,
      t.synced,
      cut-end,
      ap length cut-file,
      length-append (v.file ++ put_be 8 size) r.yields,
      length-append v.file (put_be 8 size),
      length-put_be 8 size,
    ),
  )

  -- A later write then reports success with an address whose header is that of the refused stream:
  -- the blob cannot be read back.
  pub short_stream_loses_next :
      (d : Bytes)
      → size < 2 ^ 64
      → length d ≢ size
      → (a : NeedleAddr) × ((write done done d cut).1 ≡ ok a)
        × (read a (write done done d cut).0 ≡ err size_mismatch)
  unfolding write
  short_stream_loses_next d small other =
      let w : Volume = (write done done d cut).0 in
      let hd = put_be 8 (length d) in
      let n : ℕ = cut.end in
      (
        record { volume_id = cut.id; offset = n; size = length d },
        refl,
        subst
            (λ k.
              read (record { volume_id = cut.id; offset = k; size = length d }) w
              ≡ err size_mismatch)
            (sym (cut-end ∙ s.synced))
            (read_other_header v.file (r.yields ++ (hd ++ d)) w cut.id size (length d)
              (regroup v.file (put_be 8 size) r.yields hd d cut-file) small (λ e. other (sym e))
              (omega (arith, length-append r.yields (hd ++ d), length-append hd d))),
      )
