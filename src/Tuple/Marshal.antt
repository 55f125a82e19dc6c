-- ===== src/Tuple/Marshal.antt =====
-- The marshalling half: `emitCborMarshalStringField` and its kin, `emitCborMarshalStructTuple`.
use cbor_gen.Prelude.{ℕ, List, [], ◌∷◌, Option, none, some, length, if◌then◌else◌, leb, ltb}
use cbor_gen.Keys.{map_key_sort, keys, lookup}
use cbor_gen.Header.{
  maj_map, encode_major_type, maj_text_string, maj_unsigned_int, maj_negative_int, maj_byte_string,
  maj_array,
}
use cbor_gen.Go.{map_too_large, slice_too_long, value_too_long, byte_array_too_large}
use cbor_gen.Go.Writer.{Writer, Writes, write, done, abort_if, ◌>>◌}
use cbor_gen.Header.Write.{write_major_type_header_buf, cbor_write_header}
use cbor_gen.Strings.{max_length, byte_array_max_len}
use cbor_gen.Scalars.{cbor_null, write_bool}
use cbor_gen.Tuple.{
  Width, half, Kind, string, uint64, uint64_pointer, uint, int, bool, byte_slice, byte_array,
  uint_slice, uint_array, Value, Values, complement, nested, nested_pointer, deferred_pointer,
  pointer_slice, slice, array, nested_map, pointer_map, Entries, max_map_length,
}

-- `scratch := make([]byte, 9)`
abbrev pub scratch : List ℕ
scratch = 0 ∷ 0 ∷ 0 ∷ 0 ∷ 0 ∷ 0 ∷ 0 ∷ 0 ∷ 0 ∷ []

abbrev pub or_else : {V : Type 0} → V → Option V → V
or_else v none = v
or_else v (some u) = u

module _ {W : Type 0} ⦃io : Writer W⦄ where
  -- The template function `MajorType`.
  abbrev pub major_type : ℕ → ℕ → Writes W
  major_type = write_major_type_header_buf scratch

  unfoldable pub marshal_string : List ℕ → Writes W
  marshal_string s = do
    abort_if (ltb max_length (length s)) value_too_long
    major_type maj_text_string (length s)
    write s

  unfoldable pub marshal_uint64_pointer : Option ℕ → Writes W
  marshal_uint64_pointer none = write cbor_null
  marshal_uint64_pointer (some v) = major_type maj_unsigned_int v

  -- `if v >= 0`, on a pattern of width `w`.
  unfoldable pub marshal_int_field : Width → ℕ → Writes W
  marshal_int_field w v s =
      if leb (half w) v
      then major_type maj_negative_int (complement w v) s
      else major_type maj_unsigned_int v s

  unfoldable pub marshal_bytes : List ℕ → Writes W
  marshal_bytes s = do
    abort_if (ltb byte_array_max_len (length s)) byte_array_too_large
    major_type maj_byte_string (length s)
    write s

  -- `for _, v := range xs`
  unfoldable pub marshal_each : {A : Type 0} → (A → Writes W) → List A → Writes W
  marshal_each f [] = done
  marshal_each f (v ∷ vs) = f v >> marshal_each f vs

  unfoldable pub marshal_slice : {A : Type 0} → (A → Writes W) → List A → Writes W
  unfolding marshal_each
  marshal_slice f xs = do
    abort_if (ltb max_length (length xs)) slice_too_long
    major_type maj_array (length xs)
    marshal_each f xs

  -- `for _, k := range keys { v := m[k]; … }`, where `initial` is the zero value of a missing key.
  unfoldable pub marshal_keys :
      {V : Type 0} → V → (V → Writes W) → Entries V → List (List ℕ) → Writes W
  unfolding marshal_string
  marshal_keys initial f es [] = done
  marshal_keys initial f es (k ∷ ks) =
      marshal_string k >> (f (or_else initial (lookup k es)) >> marshal_keys initial f es ks)

  unfoldable pub marshal_map : {V : Type 0} → V → (V → Writes W) → Entries V → Writes W
  unfolding marshal_keys
  marshal_map initial f es = do
    abort_if (ltb max_map_length (length es)) map_too_large
    major_type maj_map (length es)
    marshal_keys initial f es (map_key_sort (keys es))

  unfoldable pub marshal_field : (k : Kind) → Value k → Writes W
  marshal_field string s = marshal_string s
  marshal_field uint64 v = major_type maj_unsigned_int v
  marshal_field uint64_pointer p = marshal_uint64_pointer p
  marshal_field (uint w _) v = major_type maj_unsigned_int v
  marshal_field (int w) v = marshal_int_field w v
  marshal_field bool b = write_bool b
  marshal_field byte_slice s = marshal_bytes s
  marshal_field (byte_array n) s = marshal_bytes s
  marshal_field (uint_slice w) xs = marshal_slice (cbor_write_header maj_unsigned_int) xs
  marshal_field (uint_array n w) xs = marshal_slice (cbor_write_header maj_unsigned_int) xs
  marshal_field (nested m) c = m.marshal (some c)
  marshal_field (nested_pointer m) p = m.marshal p
  marshal_field (deferred_pointer m) p = m.marshal p
  marshal_field (pointer_slice m) xs = marshal_slice m.marshal xs
  marshal_field (slice k) xs = marshal_slice (marshal_field k) xs
  marshal_field (array n k) xs = marshal_slice (marshal_field k) xs
  marshal_field (nested_map m) es = marshal_map m.initial (λ c. m.marshal (some c)) es
  marshal_field (pointer_map m) es = marshal_map none m.marshal es

  unfoldable pub marshal_fields : (ks : List Kind) → Values ks → Writes W
  marshal_fields [] vs = done
  marshal_fields (k ∷ ks) (v, vs) = marshal_field k v >> marshal_fields ks vs

  -- The method itself; `none` is a nil receiver.
  unfoldable pub marshal_tuple : (ks : List Kind) → Option (Values ks) → Writes W
  unfolding marshal_fields
  marshal_tuple ks none = write cbor_null
  marshal_tuple ks (some vs) =
      write (encode_major_type maj_array (length ks)) >> marshal_fields ks vs
