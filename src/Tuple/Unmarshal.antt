-- ===== src/Tuple/Unmarshal.antt =====
-- The unmarshalling half: `emitCborUnmarshalStringField` and its kin, `emitCborUnmarshalStructTuple`.
use cbor_gen.Prelude.{
  ℕ, zero, suc, ◌+◌, ◌-◌, ◌%◌, List, [], ◌∷◌, Bool, Option, none, some, length, if◌then◌else◌, leb,
  ltb, ◌==◌, not, false,
}
use cbor_gen.Go.{
  Reads, Result, ok, err, ◌>>=◌, ◌>>◌, pure, fail, fail_if, eof, wrong_uint_type, uint_too_large,
  int_overflow, expected_int, expected_bool, expected_array, wrong_field_count, expected_cbor_array,
  array_too_large, wrong_array_length, byte_array_too_large, expected_byte_array, not_uint,
  read_full, expected_map, map_too_large,
}
use cbor_gen.Header.{
  maj_unsigned_int, maj_negative_int, maj_byte_string, maj_array, maj_other, maj_map,
}
use cbor_gen.Keys.{put}
use cbor_gen.Header.Scratch.{read_header_buf}
use cbor_gen.Strings.{max_length, byte_array_max_len, read_string_buf, read_new}
use cbor_gen.Scalars.{bool_of}
use cbor_gen.Tuple.{
  Width, w64, modulus, half, Kind, string, uint64, uint64_pointer, uint, int, bool, byte_slice,
  byte_array, uint_slice, uint_array, Value, Values, nested, nested_pointer, deferred_pointer,
  pointer_slice, slice, array, nested_map, pointer_map, Entries, max_map_length, initial,
}

-- The template function `ReadHeader`, with `scratch := make([]byte, 8)`.
abbrev pub next_header : Reads (ℕ × ℕ)
next_header = read_header_buf 8

unfoldable pub unmarshal_uint64 : Reads ℕ
unmarshal_uint64 = do
  (maj, extra) ← next_header
  fail_if (not (maj == maj_unsigned_int)) wrong_uint_type
  pure extra

abbrev pub some_value : {A : Type 0} → Result A → Result (Option A)
some_value (ok v n br) = ok (some v) n br
some_value (err e n br) = err e n br

-- A pointer: null leaves it as it was, `old`; a byte that is not null is put back, by `UnreadByte`.
unfoldable pub unmarshal_pointer : {A : Type 0} → Reads A → Option A → Reads (Option A)
unmarshal_pointer read old [] = err eof 0 []
unmarshal_pointer read old (b ∷ br) = if b == 0xf6 then ok old 1 br else some_value (read (b ∷ br))

-- A pointer that is set to a new value first.
unfoldable pub unmarshal_new : {A : Type 0} → Reads A → Reads (Option A)
unmarshal_new read br = some_value (read br)

-- `len` is the width that is tested, `w` that of the field.
unfoldable pub unmarshal_uint : Width → Width → Reads ℕ
unmarshal_uint len w = do
  (maj, extra) ← next_header
  fail_if (not (maj == maj_unsigned_int)) wrong_uint_type
  fail_if (ltb (modulus len - 1) extra) uint_too_large
  pure (extra % modulus w)

-- The conversion of a signed integer of width `len` to width `w`, on patterns.
abbrev pub convert : Width → Width → ℕ → ℕ
convert len w x = (if leb (half len) x then x + (modulus w64 - modulus len) else x) % modulus w

-- The switch on `maj`, where `extraI` is `extra` cut to width `len`.
unfoldable pub int_field : Width → Width → ℕ → ℕ → Reads ℕ
int_field len w maj extra br =
    let x = extra % modulus len in
    if maj == maj_unsigned_int
    then (if leb (half len) x then fail int_overflow br else pure (convert len w x) br)
    else if maj == maj_negative_int
    then (if leb (half len) x
        then fail int_overflow br
        else pure (convert len w (modulus len - 1 - x)) br)
    else fail (expected_int maj) br

unfoldable pub unmarshal_int_field : Width → Width → Reads ℕ
unfolding int_field
unmarshal_int_field len w = do (maj, extra) ← next_header; int_field len w maj extra

unfoldable pub unmarshal_bool_field : Reads Bool
unfolding bool_of
unmarshal_bool_field = do
  (maj, extra) ← next_header
  fail_if (not (maj == maj_other)) expected_bool
  bool_of extra

-- A byte slice, or with `some n` a byte array of length `n`.
abbrev pub other_length : Option ℕ → ℕ → Bool
other_length none extra = false
other_length (some n) extra = not (extra == n)

-- A slice is made only if there is something to read; an empty one reads into what was there.
abbrev pub bytes_into : Option ℕ → ℕ → List ℕ → Reads (List ℕ)
bytes_into none extra old = if extra == 0 then read_full (length old) else read_new extra
bytes_into (some n) extra old = read_new extra

unfoldable pub unmarshal_bytes : Option ℕ → List ℕ → Reads (List ℕ)
unfolding read_new read_full
unmarshal_bytes size old = do
  (maj, extra) ← next_header
  fail_if (ltb byte_array_max_len extra) byte_array_too_large
  fail_if (not (maj == maj_byte_string)) expected_byte_array
  fail_if (other_length size extra) wrong_array_length
  bytes_into size extra old

-- `for i := 0; i < int(extra); i++`
unfoldable pub unmarshal_each : {A : Type 0} → ℕ → Reads A → Reads (List A)
unmarshal_each zero read = pure []
unmarshal_each (suc n) read = do v ← read; vs ← unmarshal_each n read; pure (v ∷ vs)

-- An unsigned element is converted with no test of its size.
unfoldable pub unmarshal_element : Width → Reads ℕ
unmarshal_element w = do
  (maj, val) ← next_header
  fail_if (not (maj == maj_unsigned_int)) (not_uint maj)
  pure (val % modulus w)

-- An empty slice stays as it was.
abbrev pub elements_into : {A : Type 0} → Option ℕ → ℕ → Reads A → List A → Reads (List A)
elements_into none extra read old =
    let rest = unmarshal_each extra read in if extra == 0 then pure old else rest
elements_into (some n) extra read old = unmarshal_each extra read

unfoldable pub unmarshal_slice : {A : Type 0} → Option ℕ → Reads A → List A → Reads (List A)
unfolding unmarshal_each
unmarshal_slice size read old = do
  (maj, extra) ← next_header
  fail_if (ltb max_length extra) array_too_large
  fail_if (not (maj == maj_array)) expected_cbor_array
  fail_if (other_length size extra) wrong_array_length
  elements_into size extra read old

-- `for i, l := 0, int(extra); i < l; i++`, into the map `es`.
unfoldable pub unmarshal_entries : {V : Type 0} → ℕ → Reads V → Entries V → Reads (Entries V)
unfolding read_string_buf
unmarshal_entries zero read es = pure es
unmarshal_entries (suc n) read es = do
  k ← read_string_buf 8
  v ← read
  unmarshal_entries n read (put k v es)

unfoldable pub unmarshal_map : {V : Type 0} → Reads V → Reads (Entries V)
unfolding unmarshal_entries
unmarshal_map read = do
  (maj, extra) ← next_header
  fail_if (not (maj == maj_map)) expected_map
  fail_if (ltb max_map_length extra) map_too_large
  unmarshal_entries extra read []

-- An integer's own width, which an element of a slice is tested with.
abbrev pub own_width : Kind → Width
own_width (uint w _) = w
own_width (int w) = w
own_width k = w64

-- A field that held `old`.
unfoldable pub unmarshal_field : (k : Kind) → Width → Value k → Reads (Value k)
unfolding unmarshal_uint64
unmarshal_field string len old = read_string_buf 8
unmarshal_field uint64 len old = unmarshal_uint64
unmarshal_field uint64_pointer len old = unmarshal_pointer unmarshal_uint64 old
unmarshal_field (uint w _) len old = unmarshal_uint len w
unmarshal_field (int w) len old = unmarshal_int_field len w
unmarshal_field bool len old = unmarshal_bool_field
unmarshal_field byte_slice len old = unmarshal_bytes none old
unmarshal_field (byte_array n) len old = unmarshal_bytes (some n) old
unmarshal_field (uint_slice w) len old = unmarshal_slice none (unmarshal_element w) old
unmarshal_field (uint_array n w) len old = unmarshal_slice (some n) (unmarshal_element w) old
unmarshal_field (nested m) len old = m.unmarshal
unmarshal_field (nested_pointer m) len old = unmarshal_pointer m.unmarshal old
unmarshal_field (deferred_pointer m) len old = unmarshal_new m.unmarshal
unmarshal_field (pointer_slice m) len old = unmarshal_slice none (unmarshal_new m.unmarshal) old
unmarshal_field (slice k) len old =
    unmarshal_slice none (unmarshal_field k (own_width k) (initial k)) old
unmarshal_field (array n k) len old =
    unmarshal_slice (some n) (unmarshal_field k (own_width k) (initial k)) old
unmarshal_field (nested_map m) len old = unmarshal_map m.unmarshal
unmarshal_field (pointer_map m) len old = unmarshal_map (unmarshal_pointer m.unmarshal none)

-- The generator's variable `len`: 0, which is `none` here, until the first integer kind sets it.
abbrev pub set_len : Option Width → Width → Width
set_len none w = w
set_len (some len) w = len

-- `len` behind a field, and the width that the field is tested with.
abbrev pub next_len : Option Width → Kind → Option Width
next_len len (uint w _) = some (set_len len w)
next_len len (int w) = some (set_len len w)
next_len len k = len

abbrev pub field_len : Option Width → Kind → Width
field_len len (uint w _) = set_len len w
field_len len (int w) = set_len len w
field_len len k = w64

unfoldable pub unmarshal_fields : Option Width → (ks : List Kind) → Reads (Values ks)
unmarshal_fields len [] = pure tt
unmarshal_fields len (k ∷ ks) = do
  v ← unmarshal_field k (field_len len k) (initial k)
  vs ← unmarshal_fields (next_len len k) ks
  pure (v, vs)

-- The method itself.
unfoldable pub unmarshal_tuple : (ks : List Kind) → Reads (Values ks)
unfolding unmarshal_fields
unmarshal_tuple ks = do
  (maj, extra) ← next_header
  fail_if (not (maj == maj_array)) expected_array
  fail_if (not (extra == length ks)) wrong_field_count
  unmarshal_fields none ks
