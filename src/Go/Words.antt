-- ===== src/Go/Words.antt =====
-- `encoding/binary`'s big-endian words.
use cbor_gen.Prelude.{ℕ, ◌+◌, ◌*◌, ◌/◌, ◌%◌, ◌^◌, ◌<◌, ◌≡◌, List, [], ◌∷◌, arith, length, All}

unfoldable pub put_uint16 : ℕ → List ℕ
put_uint16 v = (v / 2 ^ 8 % 256) ∷ (v % 256) ∷ []

unfoldable pub put_uint32 : ℕ → List ℕ
put_uint32 v = (v / 2 ^ 24 % 256) ∷ (v / 2 ^ 16 % 256) ∷ (v / 2 ^ 8 % 256) ∷ (v % 256) ∷ []

unfoldable pub put_uint64 : ℕ → List ℕ
put_uint64 v =
    (v / 2 ^ 56 % 256)
    ∷ (v / 2 ^ 48 % 256)
    ∷ (v / 2 ^ 40 % 256)
    ∷ (v / 2 ^ 32 % 256)
    ∷ (v / 2 ^ 24 % 256)
    ∷ (v / 2 ^ 16 % 256)
    ∷ (v / 2 ^ 8 % 256)
    ∷ (v % 256)
    ∷ []

-- The callers hand over slices of the right length; Go panics on a shorter one.
unfoldable pub uint16 : List ℕ → ℕ
uint16 (a ∷ b ∷ []) = a * 2 ^ 8 + b
uint16 _ = 0

unfoldable pub uint32 : List ℕ → ℕ
uint32 (a ∷ b ∷ c ∷ d ∷ []) = a * 2 ^ 24 + b * 2 ^ 16 + c * 2 ^ 8 + d
uint32 _ = 0

unfoldable pub uint64 : List ℕ → ℕ
uint64 (a ∷ b ∷ c ∷ d ∷ e ∷ f ∷ g ∷ h ∷ []) =
    a * 2 ^ 56 + b * 2 ^ 48 + c * 2 ^ 40 + d * 2 ^ 32 + e * 2 ^ 24 + f * 2 ^ 16 + g * 2 ^ 8 + h
uint64 _ = 0

pub uint16-put_uint16 : (v : ℕ) → v < 2 ^ 16 → uint16 (put_uint16 v) ≡ v
unfolding uint16 put_uint16
uint16-put_uint16 v h = omega arith

pub uint32-put_uint32 : (v : ℕ) → v < 2 ^ 32 → uint32 (put_uint32 v) ≡ v
unfolding uint32 put_uint32
uint32-put_uint32 v h = omega arith

pub uint64-put_uint64 : (v : ℕ) → v < 2 ^ 64 → uint64 (put_uint64 v) ≡ v
unfolding uint64 put_uint64
uint64-put_uint64 v h = omega arith

-- The other way round, on a slice of the right length.
pub put_uint16-uint16 :
    (xs : List ℕ) → length xs ≡ 2 → All (λ x. x < 256) xs → put_uint16 (uint16 xs) ≡ xs
unfolding uint16 put_uint16
put_uint16-uint16 (a ∷ b ∷ []) e h = ground arith
put_uint16-uint16 _ e h = absurd (omega arith)

pub put_uint32-uint32 :
    (xs : List ℕ) → length xs ≡ 4 → All (λ x. x < 256) xs → put_uint32 (uint32 xs) ≡ xs
unfolding uint32 put_uint32
put_uint32-uint32 (a ∷ b ∷ c ∷ d ∷ []) e h = ground arith
put_uint32-uint32 _ e h = absurd (omega arith)

pub put_uint64-uint64 :
    (xs : List ℕ) → length xs ≡ 8 → All (λ x. x < 256) xs → put_uint64 (uint64 xs) ≡ xs
unfolding uint64 put_uint64
put_uint64-uint64 (a ∷ b ∷ c ∷ d ∷ p ∷ q ∷ r ∷ s ∷ []) e h = ground arith
put_uint64-uint64 _ e h = absurd (omega arith)

pub uint16-lt : (xs : List ℕ) → All (λ x. x < 256) xs → uint16 xs < 2 ^ 16
unfolding uint16
uint16-lt (a ∷ b ∷ []) h = omega arith
uint16-lt _ h = omega arith

pub uint32-lt : (xs : List ℕ) → All (λ x. x < 256) xs → uint32 xs < 2 ^ 32
unfolding uint32
uint32-lt (a ∷ b ∷ c ∷ d ∷ []) h = omega arith
uint32-lt _ h = omega arith

pub uint64-lt : (xs : List ℕ) → All (λ x. x < 256) xs → uint64 xs < 2 ^ 64
unfolding uint64
uint64-lt (a ∷ b ∷ c ∷ d ∷ p ∷ q ∷ r ∷ s ∷ []) h = omega arith
uint64-lt _ h = omega arith
