-- ===== src/Header/RoundTrip.antt =====
-- `read_header` on what `encode_major_type` writes.
use cbor_gen.Prelude.{
  ℕ, ◌+◌, ◌*◌, ◌/◌, ◌%◌, ◌^◌, ◌≤◌, ◌<◌, ◌≡◌, refl, ◌∙◌, arith, inl, inr, List, [], ◌∷◌, ◌++◌,
  length, ltb, bit_or, bit_and, Bool-cases, if◌then◌else◌,
}
use cbor_gen.Prelude.Bits.{major_bits, low_bits, join_bits}
use cbor_gen.Go.{ok, advance, IsU64, split_exact, read_full}
use cbor_gen.Go.Words.{
  put_uint16, put_uint32, put_uint64, uint16-put_uint16, uint32-put_uint32, uint64-put_uint64,
}
use cbor_gen.Header.{
  read_header, read_extra, read_extra8, read_extra16, read_extra32, read_extra64, encode_major_type,
}

-- The two fields of an initial byte.
pub initial_byte :
    (t y : ℕ)
    → t < 8
    → y < 32
    → let b = bit_or (t * 32 % 256) y in
      (bit_and b 0xe0 / 32 ≡ t) × (bit_and b 0x1f ≡ y) × (b ≡ t * 32 + y)
initial_byte t y ht hy =
    let e : bit_or (t * 32 % 256) y ≡ t * 32 + y = join_bits t y ht hy in
    rw e (
      omega (arith, major_bits (t * 32 + y) (omega arith)),
      omega (arith, low_bits (t * 32 + y) (omega arith)),
      refl,
    )

read_header_first :
    (t y : ℕ) (bs : List ℕ)
    → t < 8
    → y < 32
    → read_header (bit_or (t * 32 % 256) y ∷ bs) ≡ advance 1 (read_extra (t * 32 + y) t y bs)
unfolding read_header
read_header_first t y bs ht hy = let (e, f, g) = initial_byte t y ht hy in rw (e, f, g)

read_extra8-put :
    (t l : ℕ) (rest : List ℕ) → 24 ≤ l → l < 2 ^ 8 → read_extra8 t (l ∷ rest) ≡ ok (t, l) 1 rest
unfolding read_extra8
read_extra8-put t l rest lo hi = ground arith

read_extra16-put :
    (t l : ℕ) (rest : List ℕ)
    → 2 ^ 8 ≤ l
    → l < 2 ^ 16
    → read_extra16 t (put_uint16 l ++ rest) ≡ ok (t, l) 2 rest
unfolding read_extra16
read_extra16-put t l rest lo hi =
    let bytes : read_full 2 (put_uint16 l ++ rest) ≡ ok (put_uint16 l) 2 rest =
      unfold read_full split_exact put_uint16 in refl in
    rw (bytes, read_extra16, uint16-put_uint16 l hi) (ground arith)

read_extra32-put :
    (t l : ℕ) (rest : List ℕ)
    → 2 ^ 16 ≤ l
    → l < 2 ^ 32
    → read_extra32 t (put_uint32 l ++ rest) ≡ ok (t, l) 4 rest
unfolding read_extra32
read_extra32-put t l rest lo hi =
    let bytes : read_full 4 (put_uint32 l ++ rest) ≡ ok (put_uint32 l) 4 rest =
      unfold read_full split_exact put_uint32 in refl in
    rw (bytes, read_extra32, uint32-put_uint32 l hi) (ground arith)

read_extra64-put :
    (t l : ℕ) (rest : List ℕ)
    → 2 ^ 32 ≤ l
    → l < 2 ^ 64
    → read_extra64 t (put_uint64 l ++ rest) ≡ ok (t, l) 8 rest
unfolding read_extra64
read_extra64-put t l rest lo hi =
    let bytes : read_full 8 (put_uint64 l ++ rest) ≡ ok (put_uint64 l) 8 rest =
      unfold read_full split_exact put_uint64 in refl in
    rw (bytes, read_extra64, uint64-put_uint64 l hi) (ground arith)

-- A header as its initial byte's low bits and the bytes behind it.
abbrev pub low_of : ℕ → ℕ
low_of l =
    if ltb l 24
    then l
    else if ltb l (2 ^ 8)
    then 24
    else if ltb l (2 ^ 16)
    then 25
    else if ltb l (2 ^ 32)
    then 26
    else 27

abbrev pub tail_of : ℕ → List ℕ
tail_of l =
    if ltb l 24
    then []
    else if ltb l (2 ^ 8)
    then l ∷ []
    else if ltb l (2 ^ 16)
    then put_uint16 l
    else if ltb l (2 ^ 32)
    then put_uint32 l
    else put_uint64 l

pub low_of-lt : (l : ℕ) → low_of l < 32
low_of-lt l = ground arith

pub encode-split : (t l : ℕ) → encode_major_type t l ≡ bit_or (t * 32 % 256) (low_of l) ∷ tail_of l
unfolding encode_major_type
encode-split t l = elim (Bool-cases (ltb l 24)) [
  | inl h ↦ let e : l % 256 ≡ l = ground arith in rw (h, e)
  | inr h ↦ elim (Bool-cases (ltb l (2 ^ 8))) [
    | inl h8 ↦ let e : l % 256 ≡ l = ground arith in rw (h, h8, e)
    | inr h8 ↦ elim (Bool-cases (ltb l (2 ^ 16))) [
      | inl h16 ↦ let e : l % 2 ^ 16 ≡ l = ground arith in rw (h, h8, h16, e)
      | inr h16 ↦ elim (Bool-cases (ltb l (2 ^ 32))) [
        | inl h32 ↦ let e : l % 2 ^ 32 ≡ l = ground arith in rw (h, h8, h16, h32, e)
        | inr h32 ↦ rw (h, h8, h16, h32)
      ]
    ]
  ]
]

read_extra-tail :
    (first t l : ℕ) (rest : List ℕ)
    → IsU64 l
    → read_extra first t (low_of l) (tail_of l ++ rest) ≡ ok (t, l) (length (tail_of l)) rest
unfolding read_extra
read_extra-tail first t l rest hl = elim (Bool-cases (ltb l 24)) [
  | inl h ↦ rw (h, h)
  | inr h ↦ elim (Bool-cases (ltb l (2 ^ 8))) [
    | inl h8 ↦ rw (h, h8) (read_extra8-put t l rest (ground arith) (ground arith))
    | inr h8 ↦ elim (Bool-cases (ltb l (2 ^ 16))) [
      | inl h16 ↦
          rw (h, h8, h16)
            (unfold put_uint16 in read_extra16-put t l rest (ground arith) (ground arith))
      | inr h16 ↦ elim (Bool-cases (ltb l (2 ^ 32))) [
        | inl h32 ↦
            rw (h, h8, h16, h32)
              (unfold put_uint32 in read_extra32-put t l rest (ground arith) (ground arith))
        | inr h32 ↦
            rw (h, h8, h16, h32)
              (unfold put_uint64 in read_extra64-put t l rest (ground arith) (ground arith))
      ]
    ]
  ]
]

-- Reading the header that `CborEncodeMajorType` wrote for a major type below 8 and a uint64
-- gives these back, counts its bytes and leaves what follows it.
pub read_header-encode :
    (t l : ℕ) (rest : List ℕ)
    → t < 8
    → IsU64 l
    → read_header (encode_major_type t l ++ rest) ≡ ok (t, l) (length (encode_major_type t l)) rest
read_header-encode t l rest ht hl = rw encode-split (
    read_header_first t (low_of l) (tail_of l ++ rest) ht (low_of-lt l)
    ∙ rw (read_extra-tail (t * 32 + low_of l) t l rest hl) (ground arith))
