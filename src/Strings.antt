-- ===== src/Strings.antt =====
-- Byte and text strings of utils.go: `ReadByteArray`, `ReadTaggedByteArray`, `ReadString`,
-- `ReadStringBuf`. A Go string is the list of its bytes.
pub mod RoundTrip
pub mod Accepts
use cbor_gen.Prelude.{ℕ, ◌^◌, List, ltb, ◌==◌, not}
use cbor_gen.Go.{
  Reads, ◌>>=◌, ◌>>◌, fail_if, read_full, panicked, expected_byte_string, byte_string_too_long,
  expected_text_string, text_string_too_long, expected_tag_type, expected_tag,
}
use cbor_gen.Header.{read_header, maj_byte_string, maj_text_string, maj_tag}
use cbor_gen.Header.Scratch.{read_header_buf}

-- gen.go
abbrev pub max_length : ℕ
max_length = 8192

abbrev pub byte_array_max_len : ℕ
byte_array_max_len = 2097152

-- `make([]byte, n)` panics where `n` is above the largest allocation of a 64-bit machine.
abbrev pub max_alloc : ℕ
max_alloc = 2 ^ 48

-- `buf := make([]byte, n); io.ReadAtLeast(br, buf, int(n))`
unfoldable pub read_new : ℕ → Reads (List ℕ)
read_new n = do fail_if (ltb max_alloc n) panicked; read_full n

unfoldable pub read_byte_array : ℕ → Reads (List ℕ)
unfolding read_new
read_byte_array maxlen = do
  (maj, extra) ← read_header
  fail_if (not (maj == maj_byte_string)) expected_byte_string
  fail_if (ltb maxlen extra) byte_string_too_long
  read_new extra

unfoldable pub read_tagged_byte_array : ℕ → ℕ → Reads (List ℕ)
unfolding read_byte_array
read_tagged_byte_array exptag maxlen = do
  (maj, extra) ← read_header
  fail_if (not (maj == maj_tag)) expected_tag_type
  fail_if (not (extra == exptag)) (expected_tag exptag)
  read_byte_array maxlen

unfoldable pub read_string : Reads (List ℕ)
unfolding read_new
read_string = do
  (maj, l) ← read_header
  fail_if (not (maj == maj_text_string)) (expected_text_string maj)
  fail_if (ltb max_length l) text_string_too_long
  read_new l

-- Through a scratch buffer of `size` bytes.
unfoldable pub read_string_buf : ℕ → Reads (List ℕ)
unfolding read_new read_header_buf
read_string_buf size = do
  (maj, l) ← read_header_buf size
  fail_if (not (maj == maj_text_string)) (expected_text_string maj)
  fail_if (ltb max_length l) text_string_too_long
  read_new l
