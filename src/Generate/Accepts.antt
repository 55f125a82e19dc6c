-- ===== src/Generate/Accepts.antt =====
-- The halves of the generator against each other.
use cbor_gen.Prelude.{◌≡◌, refl, List, [], ◌∷◌, Bool, true, false, none, some}
use cbor_gen.Generate.{
  GoKind, string_kind, bool_kind, other_kind, uint_kind, int_kind, struct_kind, pointer_kind,
  slice_kind, chan_kind, array_kind, map_kind, GenResult, refuse, and_then, marshal_slice_error,
  marshal_elem_error, marshal_field_error, unmarshal_slice_error, unmarshal_elem_error,
  unmarshal_field_error, GenField, fields_error, gen_tuple_encoders, named_error, gen_map_encoders,
  pointer_to_slice,
}

mutual
  unfolding marshal_slice_error unmarshal_slice_error

  slice_accepts : (t : GoKind) → marshal_slice_error t ≡ none → unmarshal_slice_error t ≡ none
  slice_accepts (pointer_kind t) h = elem_accepts t h
  slice_accepts (struct_kind s id) h = refl
  slice_accepts (uint_kind w) h = refl
  slice_accepts (int_kind w) h = refl
  slice_accepts (slice_kind t) h = slice_accepts t h
  slice_accepts (array_kind n t) h = cc
  slice_accepts (map_kind k t) h = cc
  slice_accepts string_kind h = cc
  slice_accepts bool_kind h = cc
  slice_accepts other_kind h = cc
  slice_accepts (chan_kind t) h = cc

  elem_accepts : (t : GoKind) → marshal_elem_error t ≡ none → unmarshal_elem_error t ≡ none
  elem_accepts (struct_kind s id) h = refl
  elem_accepts (uint_kind w) h = refl
  elem_accepts (int_kind w) h = refl
  elem_accepts (slice_kind t) h = slice_accepts t h
  elem_accepts (pointer_kind t) h = cc
  elem_accepts (array_kind n t) h = cc
  elem_accepts (map_kind k t) h = cc
  elem_accepts string_kind h = cc
  elem_accepts bool_kind h = cc
  elem_accepts other_kind h = cc
  elem_accepts (chan_kind t) h = cc

list_accepts :
    (pointer : Bool) (t : GoKind)
    → and_then (refuse pointer pointer_to_slice) (marshal_slice_error t) ≡ none
    → unmarshal_slice_error t ≡ none
list_accepts true t h = cc
list_accepts false t h = slice_accepts t h

field_accepts :
    (pointer : Bool) (t : GoKind)
    → marshal_field_error pointer t ≡ none
    → unmarshal_field_error pointer t ≡ none
unfolding marshal_field_error unmarshal_field_error
field_accepts pointer string_kind h = h
field_accepts pointer (struct_kind s id) h = refl
field_accepts pointer (uint_kind w) h = refl
field_accepts pointer (int_kind w) h = refl
field_accepts pointer (array_kind n t) h = list_accepts pointer t h
field_accepts pointer (slice_kind t) h = list_accepts pointer t h
field_accepts pointer bool_kind h = refl
field_accepts pointer (map_kind string_kind t) h = h
field_accepts pointer (map_kind k t) h = cc
field_accepts pointer (pointer_kind t) h = cc
field_accepts pointer other_kind h = cc
field_accepts pointer (chan_kind t) h = cc

and_then-none : (p q : GenResult) → and_then p q ≡ none → (p ≡ none) × (q ≡ none)
and_then-none none q h = (refl, h)
and_then-none (some e) q h = cc

fields_accept :
    (fs : List GenField)
    → fields_error marshal_field_error fs ≡ none
    → fields_error unmarshal_field_error fs ≡ none
unfolding fields_error
fields_accept [] h = refl
fields_accept (f ∷ fs) h =
    let (first, rest) = and_then-none _ _ h in
    rw (field_accepts f.pointer f.kind first) (fields_accept fs rest)

same_when_accepted : (p q : GenResult) → (p ≡ none → q ≡ none) → and_then p q ≡ p
same_when_accepted none q h = h refl
same_when_accepted (some e) q h = refl

named-fields : (fs : List GenField) → named_error fs ≡ fields_error marshal_field_error fs
unfolding named_error fields_error
named-fields [] = refl
named-fields (f ∷ fs) = rw (named-fields fs) refl

-- For every list of fields, both generators refuse it exactly where, and with the error that,
-- the marshal half of a tuple does: what that half accepts, the unmarshal half does too, in
-- tuple and in map form, and the call of `Elem` in its error text, which would panic, is not
-- reached.
pub gen_encoders-marshal :
    (fs : List GenField)
    → (gen_tuple_encoders fs ≡ fields_error marshal_field_error fs)
      × (gen_map_encoders fs ≡ fields_error marshal_field_error fs)
unfolding gen_tuple_encoders gen_map_encoders
gen_encoders-marshal fs = (
  same_when_accepted _ _ (fields_accept fs),
  rw (named-fields fs) (same_when_accepted _ _ (fields_accept fs)),
)
