-- ===== src/HashIndex/Format.antt =====
-- The entries of the index file: encodeIndexEntry and readEntryAt of hashindex.go.
use brisedb.Prelude.{
  ℕ, ◌+◌, ◌%◌, ◌-◌, ◌≤◌, ◌<◌, ◌^◌, ◌≡◌, refl, sym, ap, ◌∙◌, ◌++◌, [], ◌∷◌, Bool, true, false, Bytes,
  length, take, drop, length-append, take-append, drop-append, drop-add, take-take, take-add,
  take-drop, length-take-min, length-take-le_length, leb→le, not_leb→lt, le→ltb, Bool-cases, inl,
  inr, if◌then◌else◌, leb, not, ◌==◌, ==_refl, nat_eq, ltb, arith,
}
use Prim.Native.Nat.{min}
use brisedb.Types.{NeedleAddr, Result, ok, err, short_read}
use brisedb.File.{read_at}
use brisedb.File.Codec.{put_le, get_le, length-put_le, get-put_le, get-put_le_16}

-- idxEntry, without the size.
pub record Entry : Type 0 where
  pub next : ℕ
  pub key : Bytes
  pub addr : NeedleAddr
  pub expires_at : ℕ
  pub deleted : Bool

-- 8 + 2 + len(key) + 4 + 8 + 8 + 8 + 1
abbrev pub entry_size : ℕ → ℕ
entry_size key_len = 8 + 2 + key_len + 4 + 8 + 8 + 8 + 1

abbrev pub flag : Bool → ℕ
flag true = 1
flag false = 0

-- encodeIndexEntry. The length of the key goes into 16 bits.
unfoldable pub encode_tail : Entry → Bytes
encode_tail e =
    put_le 4 e.addr.volume_id
    ++ (put_le 8 e.addr.offset
        ++ (put_le 8 e.addr.size ++ (put_le 8 e.expires_at ++ flag e.deleted ∷ [])))

unfoldable pub encode_entry : Entry → Bytes
encode_entry e = put_le 8 e.next ++ (put_le 2 (length e.key) ++ (e.key ++ encode_tail e))

abbrev pub read_ahead : ℕ
read_ahead = 256

-- The fields of an entry whose bytes are at hand.
unfoldable pub decode_tail : ℕ → Bytes → Bytes → Entry
decode_tail next key tail = record {
  next = next;
  key = key;
  addr = record {
    volume_id = get_le (take 4 tail);
    offset = get_le (take 8 (drop 4 tail));
    size = get_le (take 8 (drop (4 + 8) tail));
  };
  expires_at = get_le (take 8 (drop (4 + 8 + 8) tail));
  deleted = not (get_le (take 1 (drop (4 + 8 + 8 + 8) tail)) == 0);
}

unfoldable pub decode_entry : ℕ → Bytes → Entry
decode_entry key_len full =
    decode_tail (get_le (take 8 full)) (take key_len (drop 10 full)) (drop (10 + key_len) full)

-- readEntryAt: one read of 256 bytes, and a second one for what a longer entry lacks.
unfoldable pub read_entry_at : Bytes → ℕ → Result Entry
unfolding read_at
read_entry_at file pos =
    let b = read_at read_ahead pos file in
    let n = length b in
    let key_len = get_le (take 2 (drop 8 b)) in
    let total = entry_size key_len in
    if ltb n 10
    then err short_read
    else if leb total n
    then ok (decode_entry key_len (take total b))
    else let rest = read_at (total - n) (pos + n) file in
      if length rest == (total - n) then ok (decode_entry key_len (b ++ rest)) else err short_read

-- What fits the fields of an entry.
pub record Fits (e : Entry) : Type 0 where
  pub next : e.next < 256 ^ 8
  pub key : length e.key < 65536
  pub volume_id : e.addr.volume_id < 256 ^ 4
  pub offset : e.addr.offset < 256 ^ 8
  pub size : e.addr.size < 256 ^ 8
  pub expires_at : e.expires_at < 256 ^ 8

-- A field at the front of what follows, and what is left behind it.
get-field : (w n : ℕ) (rest : Bytes) → n < 256 ^ w → get_le (take w (put_le w n ++ rest)) ≡ n
get-field w n rest h =
    ap get_le (take-append w (put_le w n) rest (length-put_le w n)) ∙ get-put_le w n h

drop-field : (w n : ℕ) (rest : Bytes) → drop w (put_le w n ++ rest) ≡ rest
drop-field w n rest = drop-append w (put_le w n) rest (length-put_le w n)

drop-next :
    (m w : ℕ) (t : Bytes) (n : ℕ) (rest : Bytes)
    → drop m t ≡ put_le w n ++ rest
    → drop (m + w) t ≡ rest
drop-next m w t n rest e = drop-add m w t ∙ ap (drop w) e ∙ drop-field w n rest

flag_nonzero : (b : Bool) → not (get_le (take 1 (flag b ∷ [])) == 0) ≡ b
unfolding get_le take
flag_nonzero true = refl
flag_nonzero false = refl

length-field : (w n : ℕ) (rest : Bytes) → length (put_le w n ++ rest) ≡ w + length rest
length-field w n rest = omega (arith, length-append (put_le w n) rest, length-put_le w n)

length-encode_tail : (e : Entry) → length (encode_tail e) ≡ 29
unfolding encode_tail
length-encode_tail e = simp length-field refl

pub length-encode_entry : (e : Entry) → length (encode_entry e) ≡ entry_size (length e.key)
unfolding encode_entry
length-encode_entry e =
    let t = encode_tail e in
    omega (
      arith,
      length-field 8 e.next (put_le 2 (length e.key) ++ (e.key ++ t)),
      length-field 2 (length e.key) (e.key ++ t),
      length-append e.key t,
      length-encode_tail e,
    )

decode-encode_tail :
    (e : Entry) (next : ℕ) (key : Bytes)
    → Fits e
    → decode_tail next key (encode_tail e) ≡ record e { next = next; key = key }
unfolding decode_tail encode_tail
decode-encode_tail e next key f =
    let t₄ : Bytes = flag e.deleted ∷ [] in
    let t₃ = put_le 8 e.expires_at ++ t₄ in
    let t₂ = put_le 8 e.addr.size ++ t₃ in
    let t₁ = put_le 8 e.addr.offset ++ t₂ in
    let t = encode_tail e in
    let d₄ : drop 4 t ≡ t₁ = drop-field 4 e.addr.volume_id t₁ in
    let d₁₂ : drop 12 t ≡ t₂ = drop-next 4 8 t e.addr.offset t₂ d₄ in
    let d₂₀ : drop 20 t ≡ t₃ = drop-next 12 8 t e.addr.size t₃ d₁₂ in
    let d₂₈ : drop 28 t ≡ t₄ = drop-next 20 8 t e.expires_at t₄ d₂₀ in
    λ i. record {
      next = next;
      key = key;
      addr = record {
        volume_id = get-field 4 e.addr.volume_id t₁ f.volume_id i;
        offset = (ap (λ u. get_le (take 8 u)) d₄ ∙ get-field 8 e.addr.offset t₂ f.offset) i;
        size = (ap (λ u. get_le (take 8 u)) d₁₂ ∙ get-field 8 e.addr.size t₃ f.size) i;
      };
      expires_at = (ap (λ u. get_le (take 8 u)) d₂₀ ∙ get-field 8 e.expires_at t₄ f.expires_at) i;
      deleted = (ap (λ u. not (get_le (take 1 u) == 0)) d₂₈ ∙ flag_nonzero e.deleted) i;
    }

-- Decoding what was encoded gives the entry.
pub decode-encode : (e : Entry) → Fits e → decode_entry (length e.key) (encode_entry e) ≡ e
unfolding decode_entry encode_entry
decode-encode e f =
    let t = encode_tail e in
    let k = length e.key in
    let all = encode_entry e in
    let d₈ : drop 8 all ≡ put_le 2 k ++ (e.key ++ t) =
      drop-field 8 e.next (put_le 2 k ++ (e.key ++ t)) in
    let d₁₀ : drop 10 all ≡ e.key ++ t = drop-next 8 2 all k (e.key ++ t) d₈ in
    let key : take k (drop 10 all) ≡ e.key = ap (take k) d₁₀ ∙ take-append k e.key t refl in
    let tail : drop (10 + k) all ≡ t =
      drop-add 10 k all ∙ ap (drop k) d₁₀ ∙ drop-append k e.key t refl in
    rw (get-field 8 e.next (put_le 2 k ++ (e.key ++ t)) f.next, key, tail)
      (decode-encode_tail e e.next e.key f)

-- The length of the key, as the reader sees it.
pub key_len-encode : (e : Entry) → get_le (take 2 (drop 8 (encode_entry e))) ≡ length e.key % 65536
unfolding encode_entry
key_len-encode e =
    let k = length e.key in
    let rest = e.key ++ encode_tail e in
    ap (λ u. get_le (take 2 u)) (drop-field 8 e.next (put_le 2 k ++ rest))
    ∙ ap get_le (take-append 2 (put_le 2 k) rest (length-put_le 2 k))
    ∙ get-put_le_16 k

-- What the first read holds of an entry.
module _ (e : Entry) (d : Bytes) (h : take (entry_size (length e.key)) d ≡ encode_entry e) where
  whole : entry_size (length e.key) ≤ length d
  whole = omega (
    arith,
    ap length h,
    length-encode_entry e,
    length-take-le_length (entry_size (length e.key)) d,
  )

  ahead : length (take read_ahead d) ≡ min 256 (length d)
  ahead = length-take-min 256 d

  key_len-ahead : Fits e → get_le (take 2 (drop 8 (take read_ahead d))) ≡ length e.key
  key_len-ahead f =
      let same : take 10 (take 256 d) ≡ take 10 (encode_entry e) =
        take-take 10 256 d (omega arith)
        ∙ sym (take-take 10 (entry_size (length e.key)) d (omega arith))
        ∙ ap (take 10) h in
      ap get_le
        (take-drop 8 2 (take 256 d) ∙ ap (drop 8) same ∙ sym (take-drop 8 2 (encode_entry e)))
      ∙ key_len-encode e
      ∙ omega (arith, f.key)

-- An entry that stands in the file is read, by one read or by two.
pub read-encode :
    (e : Entry) (file : Bytes) (pos : ℕ)
    → Fits e
    → read_at (entry_size (length e.key)) pos file ≡ encode_entry e
    → read_entry_at file pos ≡ ok e
unfolding read_entry_at
read-encode e file pos f h =
    let d = drop pos file in
    let b = take read_ahead d in
    let total = entry_size (length e.key) in
    let n = length b in
    let size : n ≡ min 256 (length d) = ahead e d h in
    let fits : total ≤ length d = whole e d h in
    let long : ltb n 10 ≡ false = le→ltb n 10 (omega arith) in
    elim (Bool-cases (leb total n)) [
      | inl fast ↦
          let cut : take total b ≡ encode_entry e =
            take-take total read_ahead d (omega (arith, leb→le total n fast)) ∙ h in
          rw (long, key_len-ahead e d h f, fast, cut) (ap ok (decode-encode e f))
      | inr slow ↦
          let more : n < total = not_leb→lt total n slow in
          let rest = take (total - n) (drop (pos + n) file) in
          let joined : b ++ rest ≡ encode_entry e = rw (drop-add pos n file) (
            let e₂₅₆ : n ≡ 256 = omega arith in
            rw e₂₅₆ (
              sym (take-add 256 (total - 256) d)
              ∙ (let t : 256 + (total - 256) ≡ total = omega arith in rw t h))) in
          let filled : length rest ≡ total - n =
            omega (arith, ap length joined, length-append b rest, length-encode_entry e) in
          rw (long, key_len-ahead e d h f, slow, filled, ==_refl (total - n), joined)
            (ap ok (decode-encode e f))
    ]
