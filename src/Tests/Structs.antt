-- ===== src/Tests/Structs.antt =====
-- Structs in tuple form on concrete values.
use cbor_gen.Prelude.{ℕ, ◌≢◌, List, [], ◌∷◌, ◌++◌, arith, none, some, Option, refl, inl}
use cbor_gen.Go.{ok}
use cbor_gen.Go.Decodes.{Decodes}
use cbor_gen.Go.Writer.Buffer.{Buffer, buffer_writer}
use cbor_gen.Go.Writer.Emits.{Emits}
use cbor_gen.Header.{encode_major_type}
use cbor_gen.Item.{unsigned, encode, Fits as ItemFits}
use cbor_gen.Scalars.Time.{Time, InRange, unix_nano}
use cbor_gen.Tuple.Codecs.{tuple_codec, time_codec, deferred_codec, IsRaw}
use cbor_gen.Tuple.{
  Codec, nested, nested_pointer, nested_map, slice, FitsAll, Entries, w8, w16, w64, uint, int,
  uint64_pointer, Kind, Values, NotNull,
}
use cbor_gen.Tuple.Marshal.{marshal_tuple}
use cbor_gen.Tuple.Unmarshal.{
  unmarshal_tuple, unmarshal_field, unmarshal_int_field, field_len, next_len,
}
use cbor_gen.Tuple.Encode.{encode_tuple}
use cbor_gen.Tuple.Sends.{marshal_tuple-Emits}
use cbor_gen.Scalars.Laws.{encode_int}
use cbor_gen.Tuple.RoundTrip.{AllWideEnough, unmarshal_tuple-encode_tuple}
use cbor_gen.Tuple.Counts.{AllCount, Counts-unmarshal_tuple}
use cbor_gen.Go.Counts.{Counts}
use cbor_gen.Tuple.Widths.{uint_behind_int, Stored, int64_behind_int8}

abbrev second : Time
second = record { sec = 1; nsec = 1 }

abbrev fields : List Kind
fields =
    uint64_pointer
    ∷ int w8
    ∷ slice (slice (int w16))
    ∷ nested time_codec
    ∷ nested_pointer time_codec
    ∷ nested_map deferred_codec
    ∷ []

-- The map {"k": 1}, of a Deferred.
abbrev raw_one : Entries (Option (List ℕ))
raw_one = (b'k' ∷ [], some (1 ∷ [])) ∷ []

-- A null pointer, -3, [[-1], [1, 2]], a second and a nanosecond, and pointer and map.
abbrev values : Values fields
values = (none, (253, ((0xffff ∷ []) ∷ (1 ∷ 2 ∷ []) ∷ [], (second, (some second, (raw_one, tt))))))

kept_one-IsRaw : IsRaw (some (1 ∷ []))
unfolding encode ItemFits encode_major_type
kept_one-IsRaw = (unsigned 1, omega arith, omega arith, refl)

second-InRange : InRange second
second-InRange = record { normal = omega arith; fits = inl (omega arith) }

second-NotNull : NotNull (encode_int (unix_nano second))
unfolding unix_nano encode_major_type
second-NotNull = omega arith

values-Fits : FitsAll fields values
values-Fits = (
  tt,
  (
    omega arith,
    (
      (
        tt,
        omega arith,
        (
          (tt, omega arith, (omega arith, tt)),
          ((tt, omega arith, (omega arith, (omega arith, tt))), tt),
        ),
      ),
      (
        second-InRange,
        (
          (second-InRange, second-NotNull),
          ((omega arith, (omega arith, tt, tt), (kept_one-IsRaw, tt)), tt),
        ),
      ),
    ),
  ),
)

fields_wide : AllWideEnough none fields
fields_wide = (tt, (omega arith, (tt, (tt, (tt, (tt, tt))))))

unmarshal_tuple-encode_tuple_example :
    Decodes (unmarshal_tuple fields) values (encode_tuple fields values)
unmarshal_tuple-encode_tuple_example =
    unmarshal_tuple-encode_tuple fields values fields_wide (omega arith) values-Fits

marshal_tuple-Emits_example :
    Emits {W = Buffer} (encode_tuple fields values) none (marshal_tuple fields (some values))
marshal_tuple-Emits_example = marshal_tuple-Emits fields values values-Fits

-- The field U8 of SimpleTypeOne, which stands behind an int64, takes 300 for 44.
uint_behind_int_example : Stored w64 w8 300 [] (
    unmarshal_field
      (uint w8 tt)
      (field_len (next_len none (int w64)) (uint w8 tt))
      0
      (encode_major_type 0 300 ++ []))
uint_behind_int_example = uint_behind_int w64 w8 tt 300 [] (omega arith)

int64_behind_int8_example :
    unmarshal_int_field
      (field_len (next_len none (int w8)) (int w64))
      w64
      (encode_major_type 0 300 ++ [])
    ≢ ok 300 3 []
int64_behind_int8_example = int64_behind_int8 300 3 [] (omega arith) (omega arith)

-- A struct with an int64 and a field of another struct, whose method is the emitted one.
abbrev inner_codec : Codec
inner_codec = tuple_codec (int w64 ∷ []) (omega arith, tt) (omega arith)

abbrev counted_fields : List Kind
counted_fields = int w64 ∷ slice (slice (int w16)) ∷ nested inner_codec ∷ []

counted_fields-AllCount : AllCount counted_fields
unfolding tuple_codec
counted_fields-AllCount = (tt, (tt, (Counts-unmarshal_tuple (int w64 ∷ []) (tt, tt), tt)))

Counts-unmarshal_tuple_example : Counts (unmarshal_tuple counted_fields)
Counts-unmarshal_tuple_example = Counts-unmarshal_tuple counted_fields counted_fields-AllCount
