-- ===== src/MapForm/Marshal.antt =====
-- The marshalling half: `emitCborMarshalStructMap`, the encoding of a struct as a map.
use cbor_gen.Prelude.{ℕ, List, [], ◌∷◌, ◌++◌, Option, none, some, length}
use cbor_gen.Go.{value_too_long}
use cbor_gen.Go.Writer.{Writer, Writes, write, done, ◌>>◌}
use cbor_gen.Go.Writer.Emits.{Emits, Emits-write, Emits-done, Emits-seq}
use cbor_gen.Header.{encode_major_type, maj_map}
use cbor_gen.Scalars.{cbor_null}
use cbor_gen.Strings.{max_length}
use cbor_gen.Strings.RoundTrip.{encode_string}
use cbor_gen.Tuple.{Values, FitsAll}
use cbor_gen.Tuple.Marshal.{marshal_string, marshal_field}
use cbor_gen.Tuple.Encode.{encode_field}
use cbor_gen.Tuple.Sends.{Emits-string, Emits-field}
use cbor_gen.MapForm.{MapField, kinds, NamesFit}

abbrev pub encode_named : (fs : List MapField) → Values (kinds fs) → List ℕ
encode_named [] vs = []
encode_named (f ∷ fs) (v, vs) =
    encode_string 3 f.map_key ++ (encode_field f.kind v ++ encode_named fs vs)

-- A struct is a map from the keys of its fields.
abbrev pub encode_struct_map : (fs : List MapField) → Values (kinds fs) → List ℕ
encode_struct_map fs vs = encode_major_type 5 (length fs) ++ encode_named fs vs

module _ {W : Type 0} ⦃io : Writer W⦄ where
  unfoldable pub marshal_named : (fs : List MapField) → Values (kinds fs) → Writes W
  unfolding marshal_string marshal_field
  marshal_named [] vs = done
  marshal_named (f ∷ fs) (v, vs) =
      marshal_string f.map_key >> (marshal_field f.kind v >> marshal_named fs vs)

  -- The method itself; `none` is a nil receiver.
  unfoldable pub marshal_struct_map : (fs : List MapField) → Option (Values (kinds fs)) → Writes W
  unfolding marshal_named
  marshal_struct_map fs none = write cbor_null
  marshal_struct_map fs (some vs) =
      write (encode_major_type maj_map (length fs)) >> marshal_named fs vs

  Emits-named :
      (fs : List MapField) (vs : Values (kinds fs))
      → NamesFit fs
      → FitsAll (kinds fs) vs
      → Emits {W = W} (encode_named fs vs) none (marshal_named fs vs)
  unfolding marshal_named marshal_string
  Emits-named [] vs n h = Emits-done
  Emits-named (f ∷ fs) (v, vs) (n, _, ns) (h, hs) =
      Emits-seq (encode_string 3 f.map_key) (encode_field f.kind v ++ encode_named fs vs) none
        (marshal_string f.map_key) (marshal_field f.kind v >> marshal_named fs vs)
        (Emits-string 3 max_length value_too_long f.map_key n)
        (Emits-seq (encode_field f.kind v) (encode_named fs vs) none (marshal_field f.kind v)
          (marshal_named fs vs) (Emits-field f.kind v h) (Emits-named fs vs ns hs))

  -- On every writer, a struct in map form, with keys and values within the limits, is sent as the map
  -- of its fields, or up to an error of the writer.
  pub marshal_struct_map-Emits :
      (fs : List MapField) (vs : Values (kinds fs))
      → NamesFit fs
      → FitsAll (kinds fs) vs
      → Emits {W = W} (encode_struct_map fs vs) none (marshal_struct_map fs (some vs))
  unfolding marshal_struct_map
  marshal_struct_map-Emits fs vs n h =
      Emits-seq (encode_major_type 5 (length fs)) (encode_named fs vs) none
        (write (encode_major_type 5 (length fs))) (marshal_named fs vs)
        (Emits-write (encode_major_type 5 (length fs))) (Emits-named fs vs n h)

  pub struct_map_nil :
      (fs : List MapField) → Emits {W = W} cbor_null none (marshal_struct_map fs none)
  unfolding marshal_struct_map
  struct_map_nil fs = Emits-write cbor_null
