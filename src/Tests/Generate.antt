-- ===== src/Tests/Generate.antt =====
-- The generator on concrete types.
use cbor_gen.Prelude.{ℕ, ◌≡◌, ◌-◌, ◌^◌, refl, arith, List, [], ◌∷◌, ◌||◌, true, false, none, some}
use cbor_gen.Go.Decodes.{Decodes}
use cbor_gen.Go.Writer.Buffer.{Buffer, buffer_writer}
use cbor_gen.Go.Writer.Emits.{Emits}
use cbor_gen.Tuple.{Codec, Kind, Values, FitsAll, w8, w16, w64, string, int, slice, uint_slice}
use cbor_gen.Tuple.Codecs.{time_codec}
use cbor_gen.Tuple.Encode.{encode_tuple}
use cbor_gen.Tuple.Marshal.{marshal_tuple}
use cbor_gen.Tuple.RoundTrip.{AllWideEnough}
use cbor_gen.Tuple.Unmarshal.{unmarshal_tuple}
use cbor_gen.Generate.{
  GenField, GoKind, struct_kind, bool_kind, with_methods, big_int, string_kind, uint_kind, int_kind,
  slice_kind, array_kind, gen_tuple_encoders, gen_map_encoders, marshal_field_error, fields_error,
  unsupported_slice, pointer_to_string,
}
use cbor_gen.Generate.Scratch.{needs_scratch, uses_scratch, has_big_int, needs_scratch-uses}
use cbor_gen.Generate.Accepts.{gen_encoders-marshal}
use cbor_gen.Generate.Kinds.{kinds_of}
use cbor_gen.Generate.Composed.{gen_tuple_encoders-RoundTrips}

abbrev field_of : GoKind → GenField
field_of t = record { pointer = false; kind = t }

-- struct { int64; string; []uint64; [][]int16 }
abbrev go_fields : List GenField
go_fields =
    field_of (int_kind w64)
    ∷ field_of string_kind
    ∷ field_of (slice_kind (uint_kind w64))
    ∷ field_of (slice_kind (slice_kind (int_kind w16)))
    ∷ []

abbrev go_kinds : List Kind
go_kinds = int w64 ∷ string ∷ uint_slice w64 ∷ slice (slice (int w16)) ∷ []

abbrev any_codec : ℕ → Codec
any_codec id = time_codec

go_kinds_of : kinds_of time_codec any_codec go_fields ≡ some go_kinds
unfolding kinds_of
go_kinds_of = refl

-- A pointer to a string, and slices of arrays and of strings.
refused_pointer :
    gen_map_encoders (record { pointer = true; kind = string_kind } ∷ []) ≡ some pointer_to_string
unfolding gen_map_encoders marshal_field_error
refused_pointer = refl

refused_arrays :
    gen_tuple_encoders (field_of (slice_kind (array_kind 2 (uint_kind w8))) ∷ [])
    ≡ some unsupported_slice
unfolding gen_tuple_encoders marshal_field_error
refused_arrays = refl

gen_encoders-marshal_example :
    (gen_tuple_encoders (field_of (slice_kind string_kind) ∷ go_fields)
      ≡ fields_error marshal_field_error (field_of (slice_kind string_kind) ∷ go_fields))
    × (gen_map_encoders (field_of (slice_kind string_kind) ∷ go_fields)
        ≡ fields_error marshal_field_error (field_of (slice_kind string_kind) ∷ go_fields))
gen_encoders-marshal_example = gen_encoders-marshal (field_of (slice_kind string_kind) ∷ go_fields)

-- -1, "x", [1, 2 ^ 40] and [[-1], []].
abbrev go_values : Values go_kinds
go_values = (2 ^ 64 - 1, (b'x' ∷ [], (1 ∷ 2 ^ 40 ∷ [], ((0xffff ∷ []) ∷ [] ∷ [], tt))))

go_values-Fits : FitsAll go_kinds go_values
go_values-Fits = (
  omega arith,
  (
    omega arith,
    (
      (omega arith, (omega arith, (omega arith, tt))),
      ((tt, omega arith, ((tt, omega arith, (omega arith, tt)), ((tt, omega arith, tt), tt))), tt),
    ),
  ),
)

go_kinds_wide : AllWideEnough none go_kinds
go_kinds_wide = (omega arith, (tt, (tt, (tt, tt))))

gen_tuple_encoders-RoundTrips_example :
    (gen_tuple_encoders go_fields ≡ none)
    × Emits {W = Buffer}
        (encode_tuple go_kinds go_values)
        none
        (marshal_tuple go_kinds (some go_values))
    × Decodes (unmarshal_tuple go_kinds) go_values (encode_tuple go_kinds go_values)
gen_tuple_encoders-RoundTrips_example =
    gen_tuple_encoders-RoundTrips time_codec any_codec {W = Buffer} go_fields go_kinds go_values
      go_kinds_of go_kinds_wide (omega arith) go_values-Fits

-- struct { bool; struct } and struct { big.Int }
plain_scratch :
    needs_scratch (field_of bool_kind ∷ field_of (struct_kind with_methods 0) ∷ []) ≡ false
unfolding needs_scratch
plain_scratch = refl

unused_scratch : uses_scratch (field_of (struct_kind big_int 0) ∷ []) ≡ false
unfolding uses_scratch
unused_scratch = refl

needs_scratch-uses_example : needs_scratch (field_of (struct_kind big_int 0) ∷ go_fields) ≡ (
    uses_scratch (field_of (struct_kind big_int 0) ∷ go_fields)
    || has_big_int (field_of (struct_kind big_int 0) ∷ go_fields))
needs_scratch-uses_example = needs_scratch-uses (field_of (struct_kind big_int 0) ∷ go_fields)
