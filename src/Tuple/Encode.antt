-- ===== src/Tuple/Encode.antt =====
-- The bytes of a struct in tuple form, field by field.
use cbor_gen.Prelude.{ℕ, ◌-◌, List, [], ◌∷◌, ◌++◌, Option, none, some, length, if◌then◌else◌, leb}
use cbor_gen.Header.{encode_major_type}
use cbor_gen.Strings.RoundTrip.{encode_string}
use cbor_gen.Scalars.{cbor_null, encode_bool}
use cbor_gen.Tuple.{
  Width, modulus, half, Kind, string, uint64, uint64_pointer, uint, int, bool, byte_slice,
  byte_array, uint_slice, uint_array, Value, Values, Codec, nested, nested_pointer,
  deferred_pointer, pointer_slice, slice, array, nested_map, pointer_map, Entries,
}

abbrev pub encode_pointer : Option ℕ → List ℕ
encode_pointer none = cbor_null
encode_pointer (some v) = encode_major_type 0 v

abbrev pub encode_signed : Width → ℕ → List ℕ
encode_signed w v =
    if leb (half w) v then encode_major_type 1 (modulus w - 1 - v) else encode_major_type 0 v

abbrev pub encode_each : {A : Type 0} → (A → List ℕ) → List A → List ℕ
encode_each enc [] = []
encode_each enc (v ∷ vs) = enc v ++ encode_each enc vs

abbrev pub encode_slice : {A : Type 0} → (A → List ℕ) → List A → List ℕ
encode_slice enc xs = encode_major_type 4 (length xs) ++ encode_each enc xs

abbrev pub encode_nullable : (m : Codec) → Option m.Carrier → List ℕ
encode_nullable m none = cbor_null
encode_nullable m (some c) = m.encode c

-- The names and the values of a map.
abbrev pub encode_entries : {V : Type 0} → (V → List ℕ) → Entries V → List ℕ
encode_entries enc [] = []
encode_entries enc (e ∷ es) = encode_string 3 e.0 ++ (enc e.1 ++ encode_entries enc es)

abbrev pub encode_map : {V : Type 0} → (V → List ℕ) → Entries V → List ℕ
encode_map enc es = encode_major_type 5 (length es) ++ encode_entries enc es

abbrev pub encode_field : (k : Kind) → Value k → List ℕ
encode_field string s = encode_string 3 s
encode_field uint64 v = encode_major_type 0 v
encode_field uint64_pointer p = encode_pointer p
encode_field (uint w _) v = encode_major_type 0 v
encode_field (int w) v = encode_signed w v
encode_field bool b = encode_bool b
encode_field byte_slice s = encode_string 2 s
encode_field (byte_array n) s = encode_string 2 s
encode_field (uint_slice w) xs = encode_slice (encode_major_type 0) xs
encode_field (uint_array n w) xs = encode_slice (encode_major_type 0) xs
encode_field (nested m) c = m.encode c
encode_field (nested_pointer m) p = encode_nullable m p
encode_field (deferred_pointer m) p = encode_nullable m p
encode_field (pointer_slice m) xs = encode_slice (encode_nullable m) xs
encode_field (slice k) xs = encode_slice (encode_field k) xs
encode_field (array n k) xs = encode_slice (encode_field k) xs
encode_field (nested_map m) es = encode_map m.encode es
encode_field (pointer_map m) es = encode_map (encode_nullable m) es

abbrev pub encode_fields : (ks : List Kind) → Values ks → List ℕ
encode_fields [] vs = []
encode_fields (k ∷ ks) (v, vs) = encode_field k v ++ encode_fields ks vs

-- A struct is an array of its fields.
abbrev pub encode_tuple : (ks : List Kind) → Values ks → List ℕ
encode_tuple ks vs = encode_major_type 4 (length ks) ++ encode_fields ks vs
