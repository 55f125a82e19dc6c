-- ===== src/Generate.antt =====
-- Which types gen.go emits methods for: the errors of `GenTupleEncodersForType` and
-- `GenMapEncodersForType`, with the functions that they call for each field. The text that is
-- emitted is not modelled here; what it does is in Tuple and MapForm.
pub mod Accepts
pub mod Kinds
pub mod Composed
pub mod Scratch
use cbor_gen.Prelude.{ℕ, List, [], ◌∷◌, Bool, true, false, Option, none, some}
use cbor_gen.Tuple.{Width, w8, w64}

-- The structs that `switch f.Type` tells apart.
pub data StructKind : Type 0 where
  big_int cid deferred with_methods : StructKind

-- A `reflect.Type` by its `Kind`. The kinds that no case names are `other_kind`.
pub data GoKind : Type 0 where
  string_kind bool_kind other_kind : GoKind
  uint_kind int_kind : Width → GoKind
  struct_kind : StructKind → ℕ → GoKind
  pointer_kind slice_kind chan_kind : GoKind → GoKind
  array_kind : ℕ → GoKind → GoKind
  map_kind : GoKind → GoKind → GoKind

-- What stops the generator: an error, or the panic of `Elem` on a type that has no element.
pub data GenError : Type 0 where
  pointer_to_string pointer_to_integer pointer_to_slice : GenError
  unsupported_slice unsupported_map_pointer unsupported_map_elem non_string_keys : GenError
  unsupported_kind : GenError
  elem_panics : GenError

abbrev pub GenResult : Type 0
GenResult = Option GenError

abbrev pub refuse : Bool → GenError → GenResult
refuse true e = some e
refuse false e = none

-- `if err := emit…; err != nil { return err }`
abbrev pub and_then : GenResult → GenResult → GenResult
and_then none next = next
and_then (some e) next = some e

abbrev pub marshal_string_error : Bool → GenResult
marshal_string_error pointer = refuse pointer pointer_to_string

abbrev pub marshal_int_error : Bool → GenResult
marshal_int_error pointer = refuse pointer pointer_to_integer

-- `emitCborMarshalSliceField` for an element of that type, in a field that is no pointer; the second
-- function is its switch on the type behind a pointer.
unfoldable mutual
  pub marshal_slice_error : GoKind → GenResult
  marshal_slice_error (uint_kind w8) = none
  marshal_slice_error (int_kind w8) = none
  marshal_slice_error (pointer_kind t) = marshal_elem_error t
  marshal_slice_error (slice_kind t) = marshal_slice_error t
  marshal_slice_error (struct_kind s id) = none
  marshal_slice_error (uint_kind w) = none
  marshal_slice_error (int_kind w) = none
  marshal_slice_error t = some unsupported_slice

  pub marshal_elem_error : GoKind → GenResult
  marshal_elem_error (struct_kind s id) = none
  marshal_elem_error (uint_kind w) = none
  marshal_elem_error (int_kind w) = marshal_int_error false
  marshal_elem_error (slice_kind t) = marshal_slice_error t
  marshal_elem_error t = some unsupported_slice

-- The value of a map, in either half.
abbrev pub map_elem_error : GoKind → GenResult
map_elem_error (pointer_kind (struct_kind s id)) = none
map_elem_error (pointer_kind t) = some unsupported_map_pointer
map_elem_error (struct_kind s id) = none
map_elem_error t = some unsupported_map_elem

abbrev pub marshal_map_error : GoKind → GoKind → GenResult
marshal_map_error string_kind elem = and_then (marshal_string_error false) (map_elem_error elem)
marshal_map_error key elem = some non_string_keys

-- The switch of `emitCborMarshalStructTuple` and of `emitCborMarshalStructMap` on a field's kind.
unfoldable pub marshal_field_error : Bool → GoKind → GenResult
unfolding marshal_slice_error
marshal_field_error pointer string_kind = marshal_string_error pointer
marshal_field_error pointer (struct_kind s id) = none
marshal_field_error pointer (uint_kind w64) = none
marshal_field_error pointer (uint_kind w) = refuse pointer pointer_to_integer
marshal_field_error pointer (int_kind w) = marshal_int_error pointer
marshal_field_error pointer (array_kind n t) =
    and_then (refuse pointer pointer_to_slice) (marshal_slice_error t)
marshal_field_error pointer (slice_kind t) =
    and_then (refuse pointer pointer_to_slice) (marshal_slice_error t)
marshal_field_error pointer bool_kind = none
marshal_field_error pointer (map_kind key elem) = marshal_map_error key elem
marshal_field_error pointer t = some unsupported_kind

abbrev pub unmarshal_string_error : Bool → GenResult
unmarshal_string_error pointer = refuse pointer pointer_to_string

-- `emitCborUnmarshalSliceField` for an element of that type. Its default case calls `Elem` on the
-- type of the element, for the text of the error.
unfoldable mutual
  pub unmarshal_slice_error : GoKind → GenResult
  unmarshal_slice_error (pointer_kind t) = unmarshal_elem_error t
  unmarshal_slice_error (struct_kind s id) = none
  unmarshal_slice_error (uint_kind w) = none
  unmarshal_slice_error (int_kind w) = none
  unmarshal_slice_error (array_kind n t) = unmarshal_slice_error t
  unmarshal_slice_error (slice_kind t) = unmarshal_slice_error t
  unmarshal_slice_error (map_kind key t) = some unsupported_slice
  unmarshal_slice_error (chan_kind t) = some unsupported_slice
  unmarshal_slice_error t = some elem_panics

  pub unmarshal_elem_error : GoKind → GenResult
  unmarshal_elem_error (struct_kind s id) = none
  unmarshal_elem_error (uint_kind w) = none
  unmarshal_elem_error (int_kind w) = none
  unmarshal_elem_error (array_kind n t) = unmarshal_slice_error t
  unmarshal_elem_error (slice_kind t) = unmarshal_slice_error t
  unmarshal_elem_error (map_kind key t) = some unsupported_slice
  unmarshal_elem_error (chan_kind t) = some unsupported_slice
  unmarshal_elem_error (pointer_kind t) = some unsupported_slice
  unmarshal_elem_error t = some elem_panics

abbrev pub unmarshal_map_error : GoKind → GoKind → GenResult
unmarshal_map_error string_kind elem = and_then (unmarshal_string_error false) (map_elem_error elem)
unmarshal_map_error key elem = some non_string_keys

-- The switch of `emitCborUnmarshalStructTuple` and of `emitCborUnmarshalStructMap`.
unfoldable pub unmarshal_field_error : Bool → GoKind → GenResult
unfolding unmarshal_slice_error
unmarshal_field_error pointer string_kind = unmarshal_string_error pointer
unmarshal_field_error pointer (struct_kind s id) = none
unmarshal_field_error pointer (uint_kind w) = none
unmarshal_field_error pointer (int_kind w) = none
unmarshal_field_error pointer (array_kind n t) = unmarshal_slice_error t
unmarshal_field_error pointer (slice_kind t) = unmarshal_slice_error t
unmarshal_field_error pointer bool_kind = none
unmarshal_field_error pointer (map_kind key elem) = unmarshal_map_error key elem
unmarshal_field_error pointer t = some unsupported_kind

-- A `Field`: its `Pointer` and its `Type`.
pub record GenField : Type 0 where
  pub pointer : Bool
  pub kind : GoKind

-- The loop over the fields.
unfoldable pub fields_error : (Bool → GoKind → GenResult) → List GenField → GenResult
fields_error emit [] = none
fields_error emit (f ∷ fs) = and_then (emit f.pointer f.kind) (fields_error emit fs)

-- `GenTupleEncodersForType`
unfoldable pub gen_tuple_encoders : List GenField → GenResult
unfolding fields_error marshal_field_error unmarshal_field_error
gen_tuple_encoders fs =
    and_then (fields_error marshal_field_error fs) (fields_error unmarshal_field_error fs)

-- The loop of `emitCborMarshalStructMap`, where the key of a field is sent first.
unfoldable pub named_error : List GenField → GenResult
unfolding marshal_field_error
named_error [] = none
named_error (f ∷ fs) =
    and_then (marshal_string_error false)
      (and_then (marshal_field_error f.pointer f.kind) (named_error fs))

-- `GenMapEncodersForType`, where `name` is read first.
unfoldable pub gen_map_encoders : List GenField → GenResult
unfolding named_error unmarshal_field_error fields_error
gen_map_encoders fs =
    and_then (named_error fs)
      (and_then (unmarshal_string_error false) (fields_error unmarshal_field_error fs))
