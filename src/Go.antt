-- ===== src/Go.antt =====
-- What the library uses of Go: byte slices, uint64 and int64 words, errors, and the pair of an
-- `io.Reader` over bytes in memory with the idiom `x, read, err := f(br)`.
-- A reader is the list of the bytes that it has not yet handed out (`*bytes.Buffer`,
-- `*bytes.Reader`, or a `*bufio.Reader` over such).
pub mod Counted
pub mod Words
pub mod Decodes
pub mod Counts
pub mod Calm
pub mod Writer
use cbor_gen.Prelude.{
  ℕ, zero, suc, ◌+◌, ◌^◌, ◌<◌, List, [], ◌∷◌, Bool, true, false, Option, none, some,
}

abbrev pub IsByte : ℕ → Type 0
IsByte b = b < 256

abbrev pub IsU64 : ℕ → Type 0
IsU64 v = v < 2 ^ 64

-- The errors of utils.go, validate.go and the generated files, one for each message, with those
-- of `io` that they pass on. `panicked` is a run-time panic and
-- `endless` the model out of fuel: they are no Go errors.
pub data Error : Type 0 where
  eof unexpected_eof : Error
  not_canonical : ℕ → Error
  invalid_header : ℕ → Error
  max_length_error : Error
  unhandled_type : ℕ → Error
  unread_bytes : ℕ → Error
  expected_tag_type : Error
  expected_tag : ℕ → Error
  expected_byte_string : Error
  byte_string_too_long : Error
  expected_text_string : ℕ → Error
  text_string_too_long : Error
  expected_bool : Error
  bad_bool : ℕ → Error
  int_overflow : Error
  expected_int : ℕ → Error
  undefined_cid short_cid bad_multibase : Error
  cid_cast : Error
  nil_deferred : Error
  wrong_uint_type uint_too_large : Error
  expected_array wrong_field_count expected_cbor_array array_too_large : Error
  wrong_array_length byte_array_too_large expected_byte_array slice_too_long : Error
  not_uint : ℕ → Error
  negative_position negative_count : Error
  write_failed : ℕ → Error
  map_too_large expected_map expected_map_struct map_struct_too_large : Error
  value_too_long : Error
  panicked : Error
  endless : Error

-- What `x, read, err := f(br)` leaves: the value or the error, the count `read`, and the bytes
-- that are still in the reader.
pub data Result {ℓ} (A : Type ℓ) : Type ℓ where
  ok : A → ℕ → List ℕ → Result A
  err : Error → ℕ → List ℕ → Result A

abbrev pub Reads {ℓ} : Type ℓ → Type ℓ
Reads A = List ℕ → Result A

-- `bytesRead += n`
abbrev pub advance {ℓ} : {A : Type ℓ} → ℕ → Result A → Result A
advance n (ok a m bs) = ok a (n + m) bs
advance n (err e m bs) = err e (n + m) bs

abbrev pub bind_result {ℓ κ} : {A : Type ℓ} {B : Type κ} → Result A → (A → Reads B) → Result B
bind_result (ok a n bs) f = advance n (f a bs)
bind_result (err e n bs) f = err e 0 bs

-- `x, read, err := m; if err != nil { return bytesRead, err }; bytesRead += read; f(x)`: the
-- count of a step that fails is dropped, those of the steps before it are kept.
infixl 5 ◌>>=◌ ◌>>◌
abbrev pub ◌>>=◌ {ℓ κ} : {A : Type ℓ} {B : Type κ} → Reads A → (A → Reads B) → Reads B
◌>>=◌ m f bs = bind_result (m bs) f

abbrev pub ◌>>◌ {ℓ} : {B : Type ℓ} → Reads (Unit {0}) → Reads B → Reads B
◌>>◌ m k bs = bind_result (m bs) (λ _. k)

abbrev pub pure {ℓ} : {A : Type ℓ} → A → Reads A
pure a bs = ok a 0 bs

abbrev pub fail {ℓ} : {A : Type ℓ} → Error → Reads A
fail e bs = err e 0 bs

-- `if c { return bytesRead, e }`
abbrev pub fail_if : Bool → Error → Reads (Unit {0})
fail_if true e = fail e
fail_if false e = pure tt

-- `ReadByte` of an in-memory reader.
unfoldable pub read_byte : Reads ℕ
read_byte [] = err eof 0 []
read_byte (b ∷ bs) = ok b 1 bs

abbrev pub cons_fst : ℕ → Option (List ℕ × List ℕ) → Option (List ℕ × List ℕ)
cons_fst b none = none
cons_fst b (some (xs, rest)) = some (b ∷ xs, rest)

-- The first `n` bytes and those behind them.
unfoldable pub split_exact : ℕ → List ℕ → Option (List ℕ × List ℕ)
split_exact zero bs = some ([], bs)
split_exact (suc n) [] = none
split_exact (suc n) (b ∷ bs) = cons_fst b (split_exact n bs)

-- The error of `io.ReadAtLeast` on too few bytes.
abbrev pub short_error : List ℕ → Error
short_error [] = eof
short_error (b ∷ bs) = unexpected_eof

-- `io.ReadAtLeast(br, buf[:n], n)`: all `n` bytes, or an error with the reader used up.
unfoldable pub read_full : ℕ → Reads (List ℕ)
unfolding split_exact
read_full n bs = elim (split_exact n bs) [
  | some (xs, rest) ↦ ok xs n rest
  | none ↦ err (short_error bs) 0 []
]
