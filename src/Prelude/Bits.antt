-- ===== src/Prelude/Bits.antt =====
-- The masks and shifts that a CBOR initial byte is built with, as arithmetic. Each is a table
-- over one byte, checked by evaluation.
use Prim.Native.Nat.{ℕ, zero, suc, ◌+◌, ◌*◌, ◌/◌, ◌%◌, ◌<◌, bit_and, bit_or}
use mathlib.Core.Path.{◌≡◌, refl}
use mathlib.Core.Bool.{Bool, true, ◌&&◌}
use native.Mathlib.Omega.{arith}
use cbor_gen.Prelude.Tests.{◌==◌}

module _ (f g : ℕ → ℕ) where
  agree_below : ℕ → Bool
  agree_below zero = true
  agree_below (suc n) = f n == g n && agree_below n

  agree_below_sound : (n i : ℕ) → agree_below n ≡ true → i < n → f i ≡ g i
  unfolding agree_below
  agree_below_sound zero i e h = absurd (omega arith)
  agree_below_sound (suc n) i e h = ground (arith, agree_below_sound n i)

-- `(first & 0xe0) >> 5`
pub major_bits : (b : ℕ) → b < 256 → bit_and b 0xe0 / 32 ≡ b / 32
unfolding agree_below
major_bits b = agree_below_sound (λ x. bit_and x 0xe0 / 32) (λ x. x / 32) 256 b refl

-- `first & 0x1f`
pub low_bits : (b : ℕ) → b < 256 → bit_and b 0x1f ≡ b % 32
unfolding agree_below
low_bits b = agree_below_sound (λ x. bit_and x 0x1f) (λ x. x % 32) 256 b refl

join_table : (b : ℕ) → b < 256 → bit_or (b / 32 * 32) (b % 32) ≡ b
unfolding agree_below
join_table b = agree_below_sound (λ x. bit_or (x / 32 * 32) (x % 32)) (λ x. x) 256 b refl

eq_fields : (t y : ℕ) → y < 32 → ((t * 32 + y) / 32 ≡ t) × ((t * 32 + y) % 32 ≡ y)
eq_fields t y h = omega arith

-- `(t << 5) | y` in a byte.
pub join_bits : (t y : ℕ) → t < 8 → y < 32 → bit_or (t * 32 % 256) y ≡ t * 32 + y
join_bits t y ht hy =
    let (e, f) = eq_fields t y hy in
    let small : t * 32 % 256 ≡ t * 32 = omega arith in
    let table : bit_or ((t * 32 + y) / 32 * 32) ((t * 32 + y) % 32) ≡ t * 32 + y =
      join_table (t * 32 + y) (omega arith) in
    rw small (rw (e, f) at table)
