-- ===== src/Header/Scratch.antt =====
-- `CborReadHeaderBuf` of utils.go: a header read through a scratch buffer. The buffer is given by
-- its length `size`; a slice `scratch[:k]` behind its end panics.
use cbor_gen.Prelude.{
  ℕ, ◌/◌, ◌≤◌, ◌≡◌, refl, arith, List, [], ◌∷◌, bit_and, ltb, leb, ◌==◌, if◌then◌else◌, false,
}
use cbor_gen.Go.{
  Reads, ◌>>=◌, ◌>>◌, pure, fail, fail_if, read_byte, read_full, not_canonical, invalid_header,
  panicked,
}
use cbor_gen.Go.Words.{uint16, uint32, uint64}
use cbor_gen.Header.{
  read_header, read_extra, read_extra8, read_extra16, read_extra32, read_extra64, max_uint8,
  max_uint16, max_uint32,
}

-- `readByteBuf`: `ReadByte` of the in-memory readers, which does not use the scratch buffer.
unfoldable pub read_byte_buf : ℕ → Reads ℕ
unfolding read_byte
read_byte_buf size bs = read_byte bs

-- `io.ReadAtLeast(br, scratch[:k], k)`
unfoldable pub read_full_buf : ℕ → ℕ → Reads (List ℕ)
read_full_buf size k bs = if ltb size k then fail panicked bs else read_full k bs

unfoldable pub read_extra8_buf : ℕ → ℕ → Reads (ℕ × ℕ)
unfolding read_byte_buf
read_extra8_buf size maj = do
  next ← read_byte_buf size
  fail_if (ltb next 24) (not_canonical 24)
  pure (maj, next)

unfoldable pub read_extra16_buf : ℕ → ℕ → Reads (ℕ × ℕ)
unfolding read_full_buf
read_extra16_buf size maj = do
  scratch ← read_full_buf size 2
  fail_if (leb (uint16 scratch) max_uint8) (not_canonical 25)
  pure (maj, uint16 scratch)

unfoldable pub read_extra32_buf : ℕ → ℕ → Reads (ℕ × ℕ)
unfolding read_full_buf
read_extra32_buf size maj = do
  scratch ← read_full_buf size 4
  fail_if (leb (uint32 scratch) max_uint16) (not_canonical 26)
  pure (maj, uint32 scratch)

unfoldable pub read_extra64_buf : ℕ → ℕ → Reads (ℕ × ℕ)
unfolding read_full_buf
read_extra64_buf size maj = do
  scratch ← read_full_buf size 8
  fail_if (leb (uint64 scratch) max_uint32) (not_canonical 27)
  pure (maj, uint64 scratch)

unfoldable pub read_extra_buf : ℕ → ℕ → ℕ → ℕ → Reads (ℕ × ℕ)
read_extra_buf size first maj low bs =
    if ltb low 24
    then pure (maj, low) bs
    else if low == 24
    then read_extra8_buf size maj bs
    else if low == 25
    then read_extra16_buf size maj bs
    else if low == 26
    then read_extra32_buf size maj bs
    else if low == 27
    then read_extra64_buf size maj bs
    else fail (invalid_header first) bs

-- `CborReadHeaderBuf`
unfoldable pub read_header_buf : ℕ → Reads (ℕ × ℕ)
unfolding read_byte_buf read_extra_buf
read_header_buf size = do
  first ← read_byte_buf size
  read_extra_buf size first (bit_and first 0xe0 / 32) (bit_and first 0x1f)

read_full_buf_fits :
    (size k : ℕ) (bs : List ℕ) → k ≤ size → read_full_buf size k bs ≡ read_full k bs
unfolding read_full_buf
read_full_buf_fits size k bs h = ground arith

read_extra_buf_fits :
    (size first maj low : ℕ) (bs : List ℕ)
    → 8 ≤ size
    → read_extra_buf size first maj low bs ≡ read_extra first maj low bs
unfolding read_extra_buf read_extra read_extra8_buf read_extra8 read_extra16_buf read_extra16
    read_extra32_buf read_extra32 read_extra64_buf read_extra64
read_extra_buf_fits size first maj low bs h =
    let no2 : ltb size 2 ≡ false = ground arith in
    let no4 : ltb size 4 ≡ false = ground arith in
    let no8 : ltb size 8 ≡ false = ground arith in rw (no2, no4, no8)

-- With a scratch buffer of eight bytes or more, reading a header through it is the same, on
-- every input and with the same errors, as reading it without.
pub read_header_buf-read_header :
    (size : ℕ) (bs : List ℕ) → 8 ≤ size → read_header_buf size bs ≡ read_header bs
unfolding read_header_buf read_header
read_header_buf-read_header size [] h = refl
read_header_buf-read_header size (b ∷ bs) h =
    rw (read_extra_buf_fits size b (bit_and b 0xe0 / 32) (bit_and b 0x1f) bs h)
