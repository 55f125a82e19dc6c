-- ===== src/Generate/Kinds.antt =====
-- The kinds of Tuple that the emitted code for a type is modelled by. The types with methods are a
-- parameter, by their numbers, as is that of go-cid. A type that the generator accepts has no kind
-- where what it emits does not compile, as for slices of int8 or of CIDs and for big integers, nor has
-- a map to pointers to a Deferred.
use cbor_gen.Prelude.{ℕ, List, [], ◌∷◌, Bool, true, false, Option, none, some}
use cbor_gen.Tuple.{
  w8, w16, w32, w64, Codec, Kind, string, uint64, uint64_pointer, uint, int, bool, byte_slice,
  byte_array, uint_slice, uint_array, nested, nested_pointer, deferred_pointer, pointer_slice,
  slice, array, nested_map, pointer_map,
}
use cbor_gen.Tuple.Codecs.{deferred_codec}
use cbor_gen.Generate.{
  StructKind, big_int, cid, deferred, with_methods, GoKind, string_kind, bool_kind, uint_kind,
  int_kind, struct_kind, pointer_kind, slice_kind, array_kind, map_kind, GenField,
}

abbrev pub map_kinds : (Kind → Kind) → Option Kind → Option Kind
map_kinds f none = none
map_kinds f (some k) = some (f k)

abbrev pub with_codec : (Codec → Kind) → Option Codec → Option Kind
with_codec f none = none
with_codec f (some m) = some (f m)

abbrev pub cons_kind : Option Kind → Option (List Kind) → Option (List Kind)
cons_kind (some k) (some ks) = some (k ∷ ks)
cons_kind k ks = none

module _ (cids : Codec) (codec_of : ℕ → Codec) where
  -- A struct in a field, where a big integer has no kind.
  abbrev pub struct_codec : StructKind → ℕ → Option Codec
  struct_codec big_int id = none
  struct_codec cid id = some cids
  struct_codec deferred id = some deferred_codec
  struct_codec with_methods id = some (codec_of id)

  -- A struct as an element of a slice, where a CID has no kind either.
  abbrev pub elem_codec : StructKind → ℕ → Option Codec
  elem_codec cid id = none
  elem_codec s id = struct_codec s id

  -- A slice of elements of that type.
  unfoldable pub slice_of : GoKind → Option Kind
  slice_of (uint_kind w8) = some byte_slice
  slice_of (uint_kind w) = some (uint_slice w)
  slice_of (int_kind w8) = none
  slice_of (int_kind w) = some (slice (int w))
  slice_of (struct_kind s id) = with_codec (λ m. slice (nested m)) (elem_codec s id)
  slice_of (pointer_kind (struct_kind s id)) = with_codec pointer_slice (elem_codec s id)
  slice_of (slice_kind t) = map_kinds slice (slice_of t)
  slice_of t = none

  unfoldable pub array_of : ℕ → GoKind → Option Kind
  unfolding slice_of
  array_of n (uint_kind w8) = some (byte_array n)
  array_of n (uint_kind w) = some (uint_array n w)
  array_of n (int_kind w8) = none
  array_of n (int_kind w) = some (array n (int w))
  array_of n (struct_kind s id) = with_codec (λ m. array n (nested m)) (elem_codec s id)
  array_of n (slice_kind t) = map_kinds (array n) (slice_of t)
  array_of n t = none

  -- A field of that type.
  unfoldable pub kind_of : Bool → GoKind → Option Kind
  unfolding slice_of array_of
  kind_of false string_kind = some string
  kind_of false bool_kind = some bool
  kind_of false (uint_kind w64) = some uint64
  kind_of true (uint_kind w64) = some uint64_pointer
  kind_of false (uint_kind w8) = some (uint w8 tt)
  kind_of false (uint_kind w16) = some (uint w16 tt)
  kind_of false (uint_kind w32) = some (uint w32 tt)
  kind_of false (int_kind w) = some (int w)
  kind_of false (struct_kind s id) = with_codec nested (struct_codec s id)
  kind_of true (struct_kind deferred id) = some (deferred_pointer deferred_codec)
  kind_of true (struct_kind s id) = with_codec nested_pointer (struct_codec s id)
  kind_of false (slice_kind t) = slice_of t
  kind_of false (array_kind n t) = array_of n t
  kind_of false (map_kind string_kind (struct_kind s id)) =
      with_codec nested_map (struct_codec s id)
  kind_of false (map_kind string_kind (pointer_kind (struct_kind with_methods id))) =
      some (pointer_map (codec_of id))
  kind_of pointer t = none

  unfoldable pub kinds_of : List GenField → Option (List Kind)
  unfolding kind_of
  kinds_of [] = some []
  kinds_of (f ∷ fs) = cons_kind (kind_of f.pointer f.kind) (kinds_of fs)
