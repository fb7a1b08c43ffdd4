-- ===== src/File/Codec.antt =====
-- encoding/binary: unsigned numbers of w bytes, low or high byte first.
use brisedb.Prelude.{
  ℕ, zero, suc, ◌+◌, ◌*◌, ◌/◌, ◌%◌, ◌^◌, ◌<◌, ◌≡◌, refl, ap, ◌∙◌, [], ◌∷◌, reverse, arith, Bytes,
  length, length-reverse,
}
use mathlib.Core.List.{reverse-reverse}
use native.Mathlib.Nat.{pow-suc}

unfoldable pub put_le : ℕ → ℕ → Bytes
put_le zero n = []
put_le (suc w) n = (n % 256) ∷ put_le w (n / 256)

unfoldable pub get_le : Bytes → ℕ
get_le [] = 0
get_le (b ∷ bs) = b + 256 * get_le bs

unfoldable pub put_be : ℕ → ℕ → Bytes
unfolding put_le
put_be w n = reverse (put_le w n)

unfoldable pub get_be : Bytes → ℕ
unfolding get_le
get_be bs = get_le (reverse bs)

pub length-put_le : (w n : ℕ) → length (put_le w n) ≡ w
unfolding put_le
length-put_le zero n = refl
length-put_le (suc w) n = ap suc (length-put_le w (n / 256))

pub length-put_be : (w n : ℕ) → length (put_be w n) ≡ w
unfolding put_be
length-put_be w n = length-reverse (put_le w n) ∙ length-put_le w n

pub get-put_le : (w n : ℕ) → n < 256 ^ w → get_le (put_le w n) ≡ n
unfolding put_le get_le
get-put_le zero n h = omega arith
get-put_le (suc w) n h =
    omega (arith, pow-suc 256 w, get-put_le w (n / 256) (omega (arith, pow-suc 256 w)))

pub get-put_be : (w n : ℕ) → n < 256 ^ w → get_be (put_be w n) ≡ n
unfolding put_be get_be
get-put_be w n h = ap get_le (reverse-reverse (put_le w n)) ∙ get-put_le w n h

-- A 16-bit field keeps the number modulo 2 ^ 16.
pub get-put_le_16 : (n : ℕ) → get_le (put_le 2 n) ≡ n % 65536
unfolding put_le get_le
get-put_le_16 n = omega arith
