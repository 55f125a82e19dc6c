-- ===== src/Generate/Composed.antt =====
-- The types whose emitted methods are modelled, end to end: what the generator says of them, what the
-- methods send and what they read back.
use cbor_gen.Prelude.{
  ℕ, ◌≡◌, ◌<◌, ◌^◌, refl, ◌∙◌, List, [], ◌∷◌, length, Bool, false, Option, none, some,
}
use cbor_gen.Go.Decodes.{Decodes}
use cbor_gen.Go.Writer.{Writer}
use cbor_gen.Go.Writer.Emits.{Emits}
use cbor_gen.Tuple.{w8, w16, w32, w64, Codec, Kind, slice, array, Values, FitsAll}
use cbor_gen.Tuple.Encode.{encode_tuple}
use cbor_gen.Tuple.Marshal.{marshal_tuple}
use cbor_gen.Tuple.Sends.{marshal_tuple-Emits}
use cbor_gen.Tuple.RoundTrip.{AllWideEnough, unmarshal_tuple-encode_tuple}
use cbor_gen.Tuple.Unmarshal.{unmarshal_tuple}
use cbor_gen.Generate.{
  GoKind, string_kind, bool_kind, other_kind, uint_kind, int_kind, struct_kind, pointer_kind,
  slice_kind, chan_kind, array_kind, map_kind, marshal_slice_error, marshal_field_error, GenField,
  fields_error, gen_tuple_encoders,
}
use cbor_gen.Generate.Accepts.{gen_encoders-marshal}
use cbor_gen.Generate.Kinds.{map_kinds, cons_kind, slice_of, array_of, kind_of, kinds_of}

pub mapped :
    (f : Kind → Kind) (o : Option Kind) (k : Kind)
    → map_kinds f o ≡ some k
    → (j : Kind) × (o ≡ some j)
mapped f none k e = cc
mapped f (some j) k e = (j, refl)

pub consed :
    (o : Option Kind) (p : Option (List Kind)) (ks : List Kind)
    → cons_kind o p ≡ some ks
    → (k : Kind) × (js : List Kind) × (o ≡ some k) × (p ≡ some js)
consed none p ks e = cc
consed (some k) none ks e = cc
consed (some k) (some js) ks e = (k, js, refl, refl)

module _ (cids : Codec) (codec_of : ℕ → Codec) where
  slice_of-accepted :
      (t : GoKind) (k : Kind) → slice_of cids codec_of t ≡ some k → marshal_slice_error t ≡ none
  unfolding slice_of marshal_slice_error
  slice_of-accepted (uint_kind w8) k e = refl
  slice_of-accepted (uint_kind w16) k e = refl
  slice_of-accepted (uint_kind w32) k e = refl
  slice_of-accepted (uint_kind w64) k e = refl
  slice_of-accepted (int_kind w8) k e = refl
  slice_of-accepted (int_kind w16) k e = refl
  slice_of-accepted (int_kind w32) k e = refl
  slice_of-accepted (int_kind w64) k e = refl
  slice_of-accepted (struct_kind s id) k e = refl
  slice_of-accepted (pointer_kind (struct_kind s id)) k e = refl
  slice_of-accepted (pointer_kind t) k e = cc
  slice_of-accepted (slice_kind t) k e =
      let (j, q) = mapped slice (slice_of cids codec_of t) k e in slice_of-accepted t j q
  slice_of-accepted string_kind k e = cc
  slice_of-accepted bool_kind k e = cc
  slice_of-accepted other_kind k e = cc
  slice_of-accepted (chan_kind t) k e = cc
  slice_of-accepted (array_kind n t) k e = cc
  slice_of-accepted (map_kind j t) k e = cc

  array_of-accepted :
      (n : ℕ) (t : GoKind) (k : Kind)
      → array_of cids codec_of n t ≡ some k
      → marshal_slice_error t ≡ none
  unfolding array_of marshal_slice_error
  array_of-accepted n (uint_kind w8) k e = refl
  array_of-accepted n (uint_kind w16) k e = refl
  array_of-accepted n (uint_kind w32) k e = refl
  array_of-accepted n (uint_kind w64) k e = refl
  array_of-accepted n (int_kind w8) k e = refl
  array_of-accepted n (int_kind w16) k e = refl
  array_of-accepted n (int_kind w32) k e = refl
  array_of-accepted n (int_kind w64) k e = refl
  array_of-accepted n (struct_kind s id) k e = refl
  array_of-accepted n (slice_kind t) k e =
      let (j, q) = mapped (array n) (slice_of cids codec_of t) k e in slice_of-accepted t j q
  array_of-accepted n (pointer_kind t) k e = cc
  array_of-accepted n string_kind k e = cc
  array_of-accepted n bool_kind k e = cc
  array_of-accepted n other_kind k e = cc
  array_of-accepted n (chan_kind t) k e = cc
  array_of-accepted n (array_kind m t) k e = cc
  array_of-accepted n (map_kind j t) k e = cc

  kind_of-accepted :
      (pointer : Bool) (t : GoKind) (k : Kind)
      → kind_of cids codec_of pointer t ≡ some k
      → marshal_field_error pointer t ≡ none
  unfolding kind_of marshal_field_error
  kind_of-accepted false string_kind k e = refl
  kind_of-accepted pointer bool_kind k e = refl
  kind_of-accepted pointer (uint_kind w64) k e = refl
  kind_of-accepted false (uint_kind w8) k e = refl
  kind_of-accepted false (uint_kind w16) k e = refl
  kind_of-accepted false (uint_kind w32) k e = refl
  kind_of-accepted false (int_kind w) k e = refl
  kind_of-accepted pointer (struct_kind s id) k e = refl
  kind_of-accepted false (slice_kind t) k e = slice_of-accepted t k e
  kind_of-accepted false (array_kind n t) k e = array_of-accepted n t k e
  kind_of-accepted false (map_kind string_kind (struct_kind s id)) k e = refl
  kind_of-accepted false (map_kind string_kind (pointer_kind (struct_kind s id))) k e = refl
  kind_of-accepted false (map_kind string_kind (pointer_kind t)) k e = cc
  kind_of-accepted pointer t k e = cc

  kinds_of-accepted :
      (fs : List GenField) (ks : List Kind)
      → kinds_of cids codec_of fs ≡ some ks
      → fields_error marshal_field_error fs ≡ none
  unfolding kinds_of fields_error
  kinds_of-accepted [] ks e = refl
  kinds_of-accepted (f ∷ fs) ks e =
      let (k, js, p, q) =
        consed (kind_of cids codec_of f.pointer f.kind) (kinds_of cids codec_of fs) ks e in
      rw (kind_of-accepted f.pointer f.kind k p) (kinds_of-accepted fs js q)

  -- A struct whose fields all have types that the model has the emitted code of, with no integer
  -- field tested with a width below its own and fewer than 2 ^ 64 fields, is accepted by
  -- `GenTupleEncodersForType`; its emitted `MarshalCBOR`, on every writer, sends values within
  -- the limits as the array of its fields or stops within it at an error of the writer, and its
  -- `UnmarshalCBOR` reads them back.
  pub gen_tuple_encoders-RoundTrips :
      {W : Type 0} ⦃io : Writer W⦄ (fs : List GenField) (ks : List Kind) (vs : Values ks)
      → kinds_of cids codec_of fs ≡ some ks
      → AllWideEnough none ks
      → length ks < 2 ^ 64
      → FitsAll ks vs
      → (gen_tuple_encoders fs ≡ none)
        × Emits {W = W} (encode_tuple ks vs) none (marshal_tuple ks (some vs))
        × Decodes (unmarshal_tuple ks) vs (encode_tuple ks vs)
  gen_tuple_encoders-RoundTrips fs ks vs e wide few fit = (
    (gen_encoders-marshal fs).0 ∙ kinds_of-accepted fs ks e,
    marshal_tuple-Emits ks vs fit,
    unmarshal_tuple-encode_tuple ks vs wide few fit,
  )
