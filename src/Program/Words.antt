-- ===== src/Program/Words.antt =====
-- The machine integers: u64 as numbers below 2^64, i64 as integers from -2^63 to 2^63 - 1. The
-- checked operations panic where the true result does not fit; the casts by `as` wrap.
use ithaca_smart_contract_an.Base.{
  ℕ, suc, ◌+◌, ◌-◌, ◌^◌, ◌<◌, ◌≤◌, ◌≡◌, ℤ, pos, negsuc, pos_part, neg_part, ◌+ℤ◌, ◌-ℤ◌, ◌*ℤ◌,
  magnitude, Bool, ◌&&◌, ltb, leb, if◌then◌else◌, arith,
}
use ithaca_smart_contract_an.Program.Errors.{Result, ok, panic}

abbrev pub u64_mod : ℕ
u64_mod = 18446744073709551616

abbrev pub i64_mod : ℕ
i64_mod = 9223372036854775808

abbrev pub IsU64 : ℕ → Type 0
IsU64 n = n < u64_mod

abbrev pub IsI64 : ℤ → Type 0
IsI64 a = (pos_part a < i64_mod) × (neg_part a ≤ i64_mod)

abbrev pub in_i64 : ℤ → Bool
in_i64 a = ltb (pos_part a) i64_mod && leb (neg_part a) i64_mod

-- `a + b` on u64
unfoldable pub add_u64 : ℕ → ℕ → Result ℕ
add_u64 a b = if ltb (a + b) u64_mod then ok (a + b) else panic

-- `a - b` on u64, u8 or usize
unfoldable pub sub_u64 : ℕ → ℕ → Result ℕ
sub_u64 a b = if leb b a then ok (a - b) else panic

-- the result of a checked i64 operation
unfoldable pub checked_i64 : ℤ → Result ℤ
checked_i64 a = if in_i64 a then ok a else panic

unfoldable pub add_i64 : ℤ → ℤ → Result ℤ
unfolding checked_i64
add_i64 a b = checked_i64 (a +ℤ b)

unfoldable pub neg_i64 : ℤ → Result ℤ
unfolding checked_i64
neg_i64 a = checked_i64 (pos 0 -ℤ a)

unfoldable pub mul_i64 : ℤ → ℤ → Result ℤ
unfolding checked_i64
mul_i64 a b = checked_i64 (a *ℤ b)

-- `a.abs() as u64`; `abs` panics at the least value
unfoldable pub abs_i64 : ℤ → Result ℕ
abs_i64 a = if ltb (magnitude a) i64_mod then ok (magnitude a) else panic

-- `10_i64.pow(n)`
unfoldable pub pow10_i64 : ℕ → Result ℤ
unfolding checked_i64
pow10_i64 n = checked_i64 (pos (10 ^ n))

-- `n as i64`
unfoldable pub as_i64 : ℕ → ℤ
as_i64 n = if ltb n i64_mod then pos n else negsuc (u64_mod - n - 1)

-- `a as u64`
unfoldable pub as_u64 : ℤ → ℕ
as_u64 (pos n) = n
as_u64 (negsuc n) = u64_mod - suc n

pub add_u64_ok : (a b : ℕ) → a + b < u64_mod → add_u64 a b ≡ ok (a + b)
unfolding add_u64
add_u64_ok a b h = ground arith

pub add_u64_inv : (a b : ℕ) {c : ℕ} → add_u64 a b ≡ ok c → (c ≡ a + b) × (a + b < u64_mod)
unfolding add_u64
add_u64_inv a b h = ground arith

pub sub_u64_ok : (a b : ℕ) → b ≤ a → sub_u64 a b ≡ ok (a - b)
unfolding sub_u64
sub_u64_ok a b h = ground arith

pub sub_u64_inv : (a b : ℕ) {c : ℕ} → sub_u64 a b ≡ ok c → (c + b ≡ a)
unfolding sub_u64
sub_u64_inv a b h = ground arith

pub checked_i64_ok : (a : ℤ) → IsI64 a → checked_i64 a ≡ ok a
unfolding checked_i64
checked_i64_ok a h = ground arith

pub checked_i64_inv : (a : ℤ) {b : ℤ} → checked_i64 a ≡ ok b → (b ≡ a) × IsI64 a
unfolding checked_i64
checked_i64_inv a h = ground arith

pub abs_i64_ok : (a : ℤ) → magnitude a < i64_mod → abs_i64 a ≡ ok (magnitude a)
unfolding abs_i64
abs_i64_ok a h = ground arith

-- The round trip of a u64 through i64 is the identity.
pub as_u64-as_i64 : (n : ℕ) → IsU64 n → as_u64 (as_i64 n) ≡ n
unfolding as_u64 as_i64
as_u64-as_i64 n h = ground arith
