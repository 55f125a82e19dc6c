-- ===== src/Header.antt =====
-- The headers of utils.go: `CborReadHeader`, `CborReadHeaderBuf`, `CborEncodeMajorType`.
-- A header is a major type and the number `extra` that comes with it.
pub mod RoundTrip
pub mod Canonical
pub mod Counts
pub mod Calm
pub mod Scratch
pub mod Write
use cbor_gen.Prelude.{
  ℕ, ◌*◌, ◌/◌, ◌%◌, ◌^◌, List, [], ◌∷◌, bit_and, bit_or, ltb, leb, ◌==◌, if◌then◌else◌,
}
use cbor_gen.Go.{
  Reads, ◌>>=◌, ◌>>◌, pure, fail, fail_if, read_byte, read_full, not_canonical, invalid_header,
}
use cbor_gen.Go.Words.{put_uint16, put_uint32, put_uint64, uint16, uint32, uint64}

abbrev pub maj_unsigned_int : ℕ
maj_unsigned_int = 0

abbrev pub maj_negative_int : ℕ
maj_negative_int = 1

abbrev pub maj_byte_string : ℕ
maj_byte_string = 2

abbrev pub maj_text_string : ℕ
maj_text_string = 3

abbrev pub maj_array : ℕ
maj_array = 4

abbrev pub maj_map : ℕ
maj_map = 5

abbrev pub maj_tag : ℕ
maj_tag = 6

abbrev pub maj_other : ℕ
maj_other = 7

-- `math.MaxUint8` and the like.
abbrev pub max_uint8 : ℕ
max_uint8 = 0xff

abbrev pub max_uint16 : ℕ
max_uint16 = 0xffff

abbrev pub max_uint32 : ℕ
max_uint32 = 0xffff_ffff

-- The cases `low == 24` to `low == 27` of the switch.
unfoldable pub read_extra8 : ℕ → Reads (ℕ × ℕ)
unfolding read_byte
read_extra8 maj = do next ← read_byte; fail_if (ltb next 24) (not_canonical 24); pure (maj, next)

unfoldable pub read_extra16 : ℕ → Reads (ℕ × ℕ)
read_extra16 maj = do
  scratch ← read_full 2
  fail_if (leb (uint16 scratch) max_uint8) (not_canonical 25)
  pure (maj, uint16 scratch)

unfoldable pub read_extra32 : ℕ → Reads (ℕ × ℕ)
read_extra32 maj = do
  scratch ← read_full 4
  fail_if (leb (uint32 scratch) max_uint16) (not_canonical 26)
  pure (maj, uint32 scratch)

unfoldable pub read_extra64 : ℕ → Reads (ℕ × ℕ)
read_extra64 maj = do
  scratch ← read_full 8
  fail_if (leb (uint64 scratch) max_uint32) (not_canonical 27)
  pure (maj, uint64 scratch)

-- The switch on `low`.
unfoldable pub read_extra : ℕ → ℕ → ℕ → Reads (ℕ × ℕ)
read_extra first maj low bs =
    if ltb low 24
    then pure (maj, low) bs
    else if low == 24
    then read_extra8 maj bs
    else if low == 25
    then read_extra16 maj bs
    else if low == 26
    then read_extra32 maj bs
    else if low == 27
    then read_extra64 maj bs
    else fail (invalid_header first) bs

-- `CborReadHeader`
unfoldable pub read_header : Reads (ℕ × ℕ)
unfolding read_byte
read_header = do first ← read_byte; read_extra first (bit_and first 0xe0 / 32) (bit_and first 0x1f)

-- `CborEncodeMajorType`, the bytes that `WriteMajorTypeHeader` writes.
unfoldable pub encode_major_type : ℕ → ℕ → List ℕ
unfolding put_uint16 put_uint32 put_uint64
encode_major_type t l =
    if ltb l 24
    then bit_or (t * 32 % 256) (l % 256) ∷ []
    else if ltb l (2 ^ 8)
    then bit_or (t * 32 % 256) 24 ∷ (l % 256) ∷ []
    else if ltb l (2 ^ 16)
    then bit_or (t * 32 % 256) 25 ∷ put_uint16 (l % 2 ^ 16)
    else if ltb l (2 ^ 32)
    then bit_or (t * 32 % 256) 26 ∷ put_uint32 (l % 2 ^ 32)
    else bit_or (t * 32 % 256) 27 ∷ put_uint64 l
