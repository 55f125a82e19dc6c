-- ===== src/Tuple/RoundTrip.antt =====
-- The unmarshaller of Tuple/Unmarshal on the encoding of a struct in tuple form.
use cbor_gen.Prelude.{
  ℕ, ◌+◌, ◌^◌, ◌≤◌, ◌<◌, ◌≡◌, refl, arith, List, [], ◌∷◌, ◌++◌, Option, none, some, length, ◌==◌,
  true, append_assoc, length-append, All-map, replicate,
}
use cbor_gen.Go.Decodes.{Decodes}
use cbor_gen.Header.{encode_major_type}
use cbor_gen.Strings.RoundTrip.{read_strings-encode}
use cbor_gen.Tuple.{
  Width, modulus, Kind, string, uint64, uint64_pointer, uint, int, bool, byte_slice, byte_array,
  uint_slice, uint_array, Value, Values, Fits, FitsAll, nested, nested_pointer, deferred_pointer,
  pointer_slice, slice, array, nested_map, pointer_map, initial,
}
use cbor_gen.Tuple.Elements.{
  Decodes-bytes, Decodes-slice, Decodes-element, Decodes-nested, Decodes-present,
  Decodes-entries_of, Decodes-uint64_pointer,
}
use cbor_gen.Tuple.Encode.{encode_nullable, encode_field, encode_fields, encode_tuple}
use cbor_gen.Tuple.Unmarshal.{
  unmarshal_field, unmarshal_fields, unmarshal_tuple, next_len, field_len, own_width,
  unmarshal_element, unmarshal_new, unmarshal_pointer,
}
use cbor_gen.Tuple.Fields.{Decodes-header, Decodes-uint64, Decodes-uint, Decodes-int, Decodes-bool}

-- The width that an integer field is tested with is no less than its own.
abbrev pub WideEnough : Kind → Width → Type 0
WideEnough (uint w _) len = modulus w ≤ modulus len
WideEnough (int w) len = modulus w ≤ modulus len
WideEnough k len = Unit {0}

-- That of the fields of a struct, where `len` is what the generator's variable holds before them.
abbrev pub AllWideEnough : Option Width → List Kind → Type 0
AllWideEnough len [] = Unit {0}
AllWideEnough len (k ∷ ks) = WideEnough k (field_len len k) × AllWideEnough (next_len len k) ks

-- A kind's own width is wide enough.
pub own_width_wide : (k : Kind) → WideEnough k (own_width k)
own_width_wide string = tt
own_width_wide uint64 = tt
own_width_wide uint64_pointer = tt
own_width_wide (uint w _) = omega arith
own_width_wide (int w) = omega arith
own_width_wide bool = tt
own_width_wide byte_slice = tt
own_width_wide (byte_array n) = tt
own_width_wide (uint_slice w) = tt
own_width_wide (uint_array n w) = tt
own_width_wide (nested m) = tt
own_width_wide (nested_pointer m) = tt
own_width_wide (deferred_pointer m) = tt
own_width_wide (pointer_slice m) = tt
own_width_wide (slice k) = tt
own_width_wide (array n k) = tt
own_width_wide (nested_map m) = tt
own_width_wide (pointer_map m) = tt

pub Decodes-field :
    (k : Kind) (len : Width) (v : Value k)
    → WideEnough k len
    → Fits k v
    → Decodes (unmarshal_field k len (initial k)) v (encode_field k v)
unfolding unmarshal_field
Decodes-field string len s o h = (read_strings-encode 8 s (omega arith) h).1
Decodes-field uint64 len v o h = Decodes-uint64 v h
Decodes-field uint64_pointer len p o h = Decodes-uint64_pointer p h
Decodes-field (uint w _) len v o h = Decodes-uint len w v o h
Decodes-field (int w) len v o h = Decodes-int len w v o h
Decodes-field bool len b o h = Decodes-bool b
Decodes-field byte_slice len s o h = Decodes-bytes none s [] h refl (λ e. refl)
Decodes-field (byte_array n) len s o h =
    Decodes-bytes (some n) s (replicate n 0) (omega arith) (ground arith) (λ e. cc)
Decodes-field (uint_slice w) len xs o h =
    Decodes-slice none (unmarshal_element w) (encode_major_type 0) xs [] h.0 refl (λ e. refl)
      (All-map (Decodes-element w) xs h.1)
Decodes-field (uint_array n w) len xs o h =
    Decodes-slice (some n) (unmarshal_element w) (encode_major_type 0) xs (replicate n 0)
      (omega arith) (ground arith) (λ e. cc) (All-map (Decodes-element w) xs h.2)
Decodes-field (nested m) len c o h = m.decodes c h
Decodes-field (nested_pointer m) len p o h = Decodes-nested m p h
Decodes-field (deferred_pointer m) len p o h = Decodes-present m p h
Decodes-field (pointer_slice m) len xs o h =
    Decodes-slice none (unmarshal_new m.unmarshal) (encode_nullable m) xs [] h.0 refl (λ e. refl)
      (All-map (Decodes-present m) xs h.1)
Decodes-field (slice k) len xs o h =
    Decodes-slice none (unmarshal_field k (own_width k) (initial k)) (encode_field k) xs [] h.1 refl
      (λ e. refl) (All-map (λ x. Decodes-field k (own_width k) x (own_width_wide k)) xs h.2)
Decodes-field (array n k) len xs o h =
    Decodes-slice (some n) (unmarshal_field k (own_width k) (initial k)) (encode_field k) xs
      (replicate n (initial k)) (omega arith) (ground arith) (λ e. cc)
      (All-map (λ x. Decodes-field k (own_width k) x (own_width_wide k)) xs h.3)
Decodes-field (nested_map m) len es o h =
    Decodes-entries_of m.unmarshal m.encode es h.0 h.1 (All-map (λ e. m.decodes e.1) es h.2)
Decodes-field (pointer_map m) len es o h =
    Decodes-entries_of (unmarshal_pointer m.unmarshal none) (encode_nullable m) es h.0 h.1
      (All-map (λ e. Decodes-nested m e.1) es h.2)

Decodes-fields :
    (len : Option Width) (ks : List Kind) (vs : Values ks)
    → AllWideEnough len ks
    → FitsAll ks vs
    → Decodes (unmarshal_fields len ks) vs (encode_fields ks vs)
unfolding unmarshal_fields
Decodes-fields len [] vs o h rest = refl
Decodes-fields len (k ∷ ks) (v, vs) (o, os) (h, hs) rest =
    let size = length-append (encode_field k v) (encode_fields ks vs) in
    let add : length (encode_field k v) + (length (encode_fields ks vs) + 0)
        ≡ length (encode_field k v) + length (encode_fields ks vs) =
      omega arith in
    rw (
      append_assoc (encode_field k v) (encode_fields ks vs) rest,
      Decodes-field k (field_len len k) v o h (encode_fields ks vs ++ rest),
      Decodes-fields (next_len len k) ks vs os hs rest,
      size,
      add,
    )

-- Every struct in tuple form, none of whose integer fields is tested with a width below its own,
-- comes back from the array of its fields, whatever follows, if its values are within the limits
-- and its fields fewer than 2 ^ 64. Fields may be structs, slices, arrays, pointers and maps of
-- types whose own methods read back what they sent.
pub unmarshal_tuple-encode_tuple :
    (ks : List Kind) (vs : Values ks)
    → AllWideEnough none ks
    → length ks < 2 ^ 64
    → FitsAll ks vs
    → Decodes (unmarshal_tuple ks) vs (encode_tuple ks vs)
unfolding unmarshal_tuple
unmarshal_tuple-encode_tuple ks vs o few h rest =
    let n : ℕ = length ks in
    let same : (n == n) ≡ true = ground arith in
    let size = length-append (encode_major_type 4 n) (encode_fields ks vs) in
    let skip : length (encode_major_type 4 n) + (0 + (0 + length (encode_fields ks vs)))
        ≡ length (encode_major_type 4 n) + length (encode_fields ks vs) =
      omega arith in
    rw (
      append_assoc (encode_major_type 4 n) (encode_fields ks vs) rest,
      Decodes-header 4 n (omega arith) few (encode_fields ks vs ++ rest),
      same,
      Decodes-fields none ks vs o h rest,
      size,
      skip,
    )
