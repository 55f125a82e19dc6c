-- ===== src/Header/Canonical.antt =====
-- What `read_header` accepts, against `encode_major_type`.
use cbor_gen.Prelude.{
  ℕ, ◌*◌, ◌/◌, ◌%◌, ◌≤◌, ◌<◌, ◌≡◌, refl, arith, inl, inr, suc, List, [], ◌∷◌, ◌++◌, length, All,
  bit_or, bit_and, ◌⊎◌, All-append_left,
}
use cbor_gen.Prelude.Bits.{major_bits, low_bits, join_bits}
use cbor_gen.Go.{Error, Result, ok, err, IsByte, IsU64, read_full}
use cbor_gen.Go.Counted.{read_full_ok}
use cbor_gen.Go.Words.{
  put_uint16-uint16, put_uint32-uint32, put_uint64-uint64, uint16-lt, uint32-lt, uint64-lt,
}
use cbor_gen.Header.{
  read_header, read_extra, read_extra8, read_extra16, read_extra32, read_extra64, encode_major_type,
}
use cbor_gen.Header.RoundTrip.{low_of, tail_of, encode-split}

pub Result-cases {ℓ} :
    {A : Type ℓ} (r : Result A)
    → ((a : A) × (n : ℕ) × (bs : List ℕ) × (r ≡ ok a n bs))
      ⊎ ((e : Error) × (n : ℕ) × (bs : List ℕ) × (r ≡ err e n bs))
Result-cases (ok a n bs) = inl (a, n, bs, refl)
Result-cases (err e n bs) = inr (e, n, bs, refl)

-- What an accepted `extra` with its low bits was written as.
abbrev IsTail : ℕ → ℕ → List ℕ → ℕ → ℕ → ℕ → List ℕ → Type 0
IsTail t low bs t' l n rest =
    (t' ≡ t) × (low ≡ low_of l) × (bs ≡ tail_of l ++ rest) × (n ≡ length (tail_of l)) × IsU64 l

read_extra8_ok :
    (t t' l n : ℕ) (bs rest : List ℕ)
    → All IsByte bs
    → read_extra8 t bs ≡ ok (t', l) n rest
    → IsTail t 24 bs t' l n rest
unfolding read_extra8
read_extra8_ok t t' l n [] rest h e = cc
read_extra8_ok t t' l n (b ∷ bs) rest h e = ground arith

read_extra16_ok :
    (t t' l n : ℕ) (bs rest : List ℕ)
    → All IsByte bs
    → read_extra16 t bs ≡ ok (t', l) n rest
    → IsTail t 25 bs t' l n rest
unfolding read_extra16
read_extra16_ok t t' l n bs rest h e = elim (Result-cases (read_full 2 bs)) [
  | inl (xs, m, r, f) ↦
      let (split, len, count) = read_full_ok 2 bs f in
      let bytes : All IsByte xs = All-append_left IsByte xs r (rw split at h) in
      ground (arith, uint16-lt xs bytes, put_uint16-uint16 xs len bytes)
  | inr (x, m, r, f) ↦ ground arith
]

read_extra32_ok :
    (t t' l n : ℕ) (bs rest : List ℕ)
    → All IsByte bs
    → read_extra32 t bs ≡ ok (t', l) n rest
    → IsTail t 26 bs t' l n rest
unfolding read_extra32
read_extra32_ok t t' l n bs rest h e = elim (Result-cases (read_full 4 bs)) [
  | inl (xs, m, r, f) ↦
      let (split, len, count) = read_full_ok 4 bs f in
      let bytes : All IsByte xs = All-append_left IsByte xs r (rw split at h) in
      ground (arith, uint32-lt xs bytes, put_uint32-uint32 xs len bytes)
  | inr (x, m, r, f) ↦ ground arith
]

read_extra64_ok :
    (t t' l n : ℕ) (bs rest : List ℕ)
    → All IsByte bs
    → read_extra64 t bs ≡ ok (t', l) n rest
    → IsTail t 27 bs t' l n rest
unfolding read_extra64
read_extra64_ok t t' l n bs rest h e = elim (Result-cases (read_full 8 bs)) [
  | inl (xs, m, r, f) ↦
      let (split, len, count) = read_full_ok 8 bs f in
      let bytes : All IsByte xs = All-append_left IsByte xs r (rw split at h) in
      ground (arith, uint64-lt xs bytes, put_uint64-uint64 xs len bytes)
  | inr (x, m, r, f) ↦ ground arith
]

read_extra_ok :
    (first t low t' l n : ℕ) (bs rest : List ℕ)
    → All IsByte bs
    → read_extra first t low bs ≡ ok (t', l) n rest
    → IsTail t low bs t' l n rest
unfolding read_extra
read_extra_ok first t low t' l n bs rest h e = ground (
  arith,
  read_extra8_ok t t' l n bs rest h,
  read_extra16_ok t t' l n bs rest h,
  read_extra32_ok t t' l n bs rest h,
  read_extra64_ok t t' l n bs rest h,
)

-- An initial byte is its two fields joined.
join_fields :
    (b t y : ℕ)
    → b < 256
    → t ≡ bit_and b 0xe0 / 32
    → bit_and b 0x1f ≡ y
    → (t < 8) × (bit_or (t * 32 % 256) y ≡ b)
join_fields b t y h et ey =
    let (e, f) : (t ≡ b / 32) × (y ≡ b % 32) = omega (arith, major_bits b h, low_bits b h) in
    (omega arith, omega (arith, join_bits t y (omega arith) (omega arith)))

-- A header that `CborReadHeader` accepts, in an input of bytes, is one that the encoder writes:
-- the input begins with its encoding, the count is its length, and both parts are in range.
pub read_header_canonical :
    (t l n : ℕ) (bs rest : List ℕ)
    → All IsByte bs
    → read_header bs ≡ ok (t, l) n rest
    → (bs ≡ encode_major_type t l ++ rest)
      × (n ≡ length (encode_major_type t l))
      × (t < 8)
      × IsU64 l
unfolding read_header
read_header_canonical t l n [] rest h e = cc
read_header_canonical t l n (b ∷ bs) rest (hb, h) e =
    elim (Result-cases (read_extra b (bit_and b 0xe0 / 32) (bit_and b 0x1f) bs)) [
      | inl ((t', l'), m, r, f) ↦
          let (et, elow, ebs, em, hl) = read_extra_ok b _ _ t' l' m bs r h f in
          let (ht, first) = join_fields b t' (low_of l') hb et elow in
          let (e0, e1) : (t' ≡ t) × (l' ≡ l) = ground arith in
          let (e2, e3) : (suc m ≡ n) × (r ≡ rest) = ground arith in
          rw (← e0, ← e1, ← e2, ← e3, encode-split, first, ebs, em) (refl, refl, ht, hl)
      | inr (x, m, r, f) ↦ ground arith
    ]

pub length-encode_pos : (t l : ℕ) → 1 ≤ length (encode_major_type t l)
length-encode_pos t l = rw (encode-split t l) (omega arith)
