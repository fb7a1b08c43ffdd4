-- ===== src/Types.antt =====
-- The data types that the components share: addresses of blobs, errors and results.

use brisedb.Prelude.{
  ℕ, ◌^◌, ◌≡◌, ◌↔◌, ◌⊎◌, inl, inr, refl, Bool, true, ◌&&◌, arith, Eq, ◌==◌, ==_iff, nat_eq,
}

-- NeedleAddr
pub record NeedleAddr : Type 0 where
  pub volume_id : ℕ
  pub offset : ℕ
  pub size : ℕ

abbrev pub no_addr : NeedleAddr
no_addr = record { volume_id = 0; offset = 0; size = 0 }

abbrev pub addr_beq : NeedleAddr → NeedleAddr → Bool
addr_beq a b = (a.volume_id == b.volume_id) && (a.offset == b.offset) && (a.size == b.size)

pub addr_beq_iff : (a b : NeedleAddr) → (addr_beq a b ≡ true) ↔ (a ≡ b)
addr_beq_iff a b =
    ground (arith, ==_iff a.volume_id b.volume_id, ==_iff a.offset b.offset, ==_iff a.size b.size)

instance abbrev pub addr_eq : Eq NeedleAddr
addr_eq = record { same = addr_beq; same_iff = addr_beq_iff }

-- The errors of the program, by what they report; a message carries no more than its kind.
pub data Error : Type 0 where
  io : Error
  short_read : Error
  size_mismatch : Error
  wrong_length : Error
  no_volume : Error
  bad_magic : Error
  nothing_to_commit : Error
  no_transaction : Error
  ttl_not_positive : Error
  unreachable : Error
  bad_status : Error
  bad_reply : Error
  no_client : Error

pub data Result {ℓ} (A : Type ℓ) : Type ℓ where
  ok : A → Result A
  err : Error → Result A
  panic : Result A

-- A fallible step behind another. A panic is not caught.
infixl 5 ◌>>=◌
abbrev pub ◌>>=◌ {ℓ κ} : {A : Type ℓ} {B : Type κ} → Result A → (A → Result B) → Result B
ok a >>= f = f a
err e >>= f = err e
panic >>= f = panic

pub Result-cases {ℓ} :
    {A : Type ℓ} (r : Result A) → ((a : A) × (r ≡ ok a)) ⊎ ((b : Error) × (r ≡ err b)) ⊎ (r ≡ panic)
Result-cases (ok a) = inl (a, refl)
Result-cases (err b) = inr (inl (b, refl))
Result-cases panic = inr (inr refl)

abbrev pub u64 : ℕ
u64 = 2 ^ 64
