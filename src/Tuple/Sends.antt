-- ===== src/Tuple/Sends.antt =====
-- What the marshalling half sends: the encodings of the fields, on every writer.
use cbor_gen.Prelude.{
  ℕ, ◌-◌, ◌≤◌, ◌<◌, ◌≡◌, arith, List, [], ◌∷◌, ◌++◌, Option, none, some, length, leb, ltb, inl, inr,
  Bool-cases, All, All-map, All-every,
}
use cbor_gen.Go.Writer.{Writes, Writer, write, abort_if, ◌>>◌}
use cbor_gen.Keys.{keys, map_key_sort}
use cbor_gen.Keys.Entries.{Found, Found-all, sort-keys}
use cbor_gen.Go.{map_too_large, slice_too_long, value_too_long, byte_array_too_large, Error}
use cbor_gen.Go.Writer.Emits.{Emits, Emits-write, Emits-seq, Emits-guard, Emits-done}
use cbor_gen.Header.{encode_major_type}
use cbor_gen.Header.Write.{
  write_major_type_header_buf-Emits, write_major_type_header_buf, cbor_write_header,
  cbor_write_header-Emits,
}
use cbor_gen.Strings.{max_length, byte_array_max_len}
use cbor_gen.Strings.RoundTrip.{encode_string}
use cbor_gen.Scalars.{cbor_null}
use cbor_gen.Scalars.Laws.{write_bool-Emits}
use cbor_gen.Tuple.{
  Width, w8, w16, w32, w64, modulus, half, Kind, string, uint64, uint64_pointer, uint, int, bool,
  byte_slice, byte_array, uint_slice, uint_array, Value, Values, Fits, FitsAll, complement, Codec,
  nested, nested_pointer, deferred_pointer, pointer_slice, slice, array, nested_map, pointer_map,
  Entries, max_map_length, NestedFits, PresentFits, KeysFit, KeysFit-IsOrdered,
}
use cbor_gen.Tuple.Marshal.{
  scratch, marshal_field, marshal_fields, marshal_tuple, marshal_string, marshal_uint64_pointer,
  marshal_int_field, marshal_bytes, marshal_each, marshal_slice, marshal_keys, marshal_map,
}
use cbor_gen.Tuple.Encode.{
  encode_pointer, encode_signed, encode_each, encode_slice, encode_nullable, encode_entries,
  encode_map, encode_field, encode_fields, encode_tuple,
}

complement_lem :
    (w : Width) (v : ℕ) → v < modulus w → half w ≤ v → complement w v ≡ modulus w - 1 - v
complement_lem w8 v h n = omega arith
complement_lem w16 v h n = omega arith
complement_lem w32 v h n = omega arith
complement_lem w64 v h n = omega arith

module _ {W : Type 0} ⦃io : Writer W⦄ where
  Emits-major_type :
      (t l : ℕ)
      → Emits {W = W} (encode_major_type t l) none (write_major_type_header_buf scratch t l)
  Emits-major_type t l = write_major_type_header_buf-Emits scratch t l (omega arith)

  -- A header and the bytes that it announces, behind a test of their number.
  pub Emits-string :
      (t max : ℕ) (x : Error) (s : List ℕ)
      → length s ≤ max
      → Emits {W = W} (encode_string t s) none (
          abort_if (ltb max (length s)) x
          >> (write_major_type_header_buf scratch t (length s) >> write s))
  Emits-string t max x s h =
      Emits-guard (encode_string t s) (ltb max (length s)) x
        (write_major_type_header_buf scratch t (length s) >> write s) (ground arith)
        (Emits-seq (encode_major_type t (length s)) s none
          (write_major_type_header_buf scratch t (length s)) (write s)
          (Emits-major_type t (length s)) (Emits-write s))

  Emits-each :
      {A : Type 0} (f : A → Writes W) (enc : A → List ℕ) (xs : List A)
      → All (λ x. Emits {W = W} (enc x) none (f x)) xs
      → Emits {W = W} (encode_each enc xs) none (marshal_each f xs)
  unfolding marshal_each
  Emits-each f enc [] h = Emits-done
  Emits-each f enc (v ∷ vs) (h, hs) =
      Emits-seq (enc v) (encode_each enc vs) none (f v) (marshal_each f vs) h
        (Emits-each f enc vs hs)

  Emits-slice :
      {A : Type 0} (f : A → Writes W) (enc : A → List ℕ) (xs : List A)
      → length xs ≤ max_length
      → All (λ x. Emits {W = W} (enc x) none (f x)) xs
      → Emits {W = W} (encode_slice enc xs) none (marshal_slice f xs)
  unfolding marshal_slice
  Emits-slice f enc xs h hs =
      Emits-guard (encode_slice enc xs) (ltb max_length (length xs)) slice_too_long
        (write_major_type_header_buf scratch 4 (length xs) >> marshal_each f xs) (ground arith)
        (Emits-seq (encode_major_type 4 (length xs)) (encode_each enc xs) none
          (write_major_type_header_buf scratch 4 (length xs)) (marshal_each f xs)
          (Emits-major_type 4 (length xs)) (Emits-each f enc xs hs))

  Emits-uints :
      (xs : List ℕ)
      → length xs ≤ max_length
      → Emits {W = W}
          (encode_slice (encode_major_type 0) xs)
          none
          (marshal_slice (cbor_write_header 0) xs)
  Emits-uints xs h =
      Emits-slice (cbor_write_header 0) (encode_major_type 0) xs h
        (All-every (λ v. cbor_write_header-Emits 0 v) xs)

  Emits-keys :
      {V : Type 0} (initial : V) (f : V → Writes W) (enc : V → List ℕ) (es fs : Entries V)
      → Found es fs
      → KeysFit fs
      → All (λ e. Emits {W = W} (enc e.1) none (f e.1)) fs
      → Emits {W = W} (encode_entries enc fs) none (marshal_keys initial f es (keys fs))
  unfolding marshal_keys marshal_string
  Emits-keys initial f enc es [] p k h = Emits-done
  Emits-keys initial f enc es ((x, v) ∷ fs) (p, ps) (kh, _, ks) (h, hs) =
      let rest = marshal_keys initial f es (keys fs) in
      rw p (
        Emits-seq (encode_string 3 x) (enc v ++ encode_entries enc fs) none (marshal_string x)
          (f v >> rest) (Emits-string 3 max_length value_too_long x kh)
          (Emits-seq (enc v) (encode_entries enc fs) none (f v) rest h
            (Emits-keys initial f enc es fs ps ks hs)))

  Emits-map :
      {V : Type 0} (initial : V) (f : V → Writes W) (enc : V → List ℕ) (es : Entries V)
      → length es ≤ max_map_length
      → KeysFit es
      → All (λ e. Emits {W = W} (enc e.1) none (f e.1)) es
      → Emits {W = W} (encode_map enc es) none (marshal_map initial f es)
  unfolding marshal_map
  Emits-map initial f enc es h k hs =
      let ordered = KeysFit-IsOrdered es k in
      let sent = marshal_keys initial f es (map_key_sort (keys es)) in
      Emits-guard (encode_map enc es) (ltb max_map_length (length es)) map_too_large
        (write_major_type_header_buf scratch 5 (length es) >> sent) (ground arith)
        (Emits-seq (encode_major_type 5 (length es)) (encode_entries enc es) none
          (write_major_type_header_buf scratch 5 (length es)) sent (Emits-major_type 5 (length es))
          (rw (sort-keys es ordered) (Emits-keys initial f enc es es (Found-all es ordered) k hs)))

  Emits-nested :
      (m : Codec) (p : Option m.Carrier)
      → NestedFits m p
      → Emits {W = W} (encode_nullable m p) none (m.marshal p)
  Emits-nested m none h = m.sends_nil h
  Emits-nested m (some c) h = m.sends c h.0

  Emits-present :
      (m : Codec) (p : Option m.Carrier)
      → PresentFits m p
      → Emits {W = W} (encode_nullable m p) none (m.marshal p)
  Emits-present m none h = absurd h
  Emits-present m (some c) h = m.sends c h

  Emits-signed :
      (w : Width) (v : ℕ)
      → v < modulus w
      → Emits {W = W} (encode_signed w v) none (marshal_int_field w v)
  unfolding marshal_int_field
  Emits-signed w v h s = elim (Bool-cases (leb (half w) v)) [
    | inl e ↦ rw (e, complement_lem w v h (ground arith)) (Emits-major_type 1 (modulus w - 1 - v) s)
    | inr e ↦ rw e (Emits-major_type 0 v s)
  ]

  Emits-pointer : (p : Option ℕ) → Emits {W = W} (encode_pointer p) none (marshal_uint64_pointer p)
  unfolding marshal_uint64_pointer
  Emits-pointer none = Emits-write cbor_null
  Emits-pointer (some v) = Emits-major_type 0 v

  pub Emits-field :
      (k : Kind) (v : Value k)
      → Fits k v
      → Emits {W = W} (encode_field k v) none (marshal_field k v)
  unfolding marshal_field marshal_string marshal_bytes
  Emits-field string s h = Emits-string 3 max_length value_too_long s h
  Emits-field uint64 v h = Emits-major_type 0 v
  Emits-field uint64_pointer p h = Emits-pointer p
  Emits-field (uint w _) v h = Emits-major_type 0 v
  Emits-field (int w) v h = Emits-signed w v h
  Emits-field bool b h = write_bool-Emits b
  Emits-field byte_slice s h = Emits-string 2 byte_array_max_len byte_array_too_large s h
  Emits-field (byte_array n) s h =
      Emits-string 2 byte_array_max_len byte_array_too_large s (omega arith)
  Emits-field (uint_slice w) xs h = Emits-uints xs h.0
  Emits-field (uint_array n w) xs h = Emits-uints xs (omega arith)
  Emits-field (nested m) c h = m.sends c h
  Emits-field (nested_pointer m) p h = Emits-nested m p h
  Emits-field (deferred_pointer m) p h = Emits-present m p h
  Emits-field (pointer_slice m) xs h =
      Emits-slice m.marshal (encode_nullable m) xs h.0 (All-map (Emits-present m) xs h.1)
  Emits-field (slice k) xs h =
      Emits-slice (marshal_field k) (encode_field k) xs h.1 (All-map (Emits-field k) xs h.2)
  Emits-field (array n k) xs h =
      Emits-slice (marshal_field k) (encode_field k) xs (omega arith)
        (All-map (Emits-field k) xs h.3)
  Emits-field (nested_map m) es h =
      Emits-map m.initial (λ c. m.marshal (some c)) m.encode es h.0 h.1
        (All-map (λ e. m.sends e.1) es h.2)
  Emits-field (pointer_map m) es h =
      Emits-map none m.marshal (encode_nullable m) es h.0 h.1
        (All-map (λ e. Emits-nested m e.1) es h.2)

  Emits-fields :
      (ks : List Kind) (vs : Values ks)
      → FitsAll ks vs
      → Emits {W = W} (encode_fields ks vs) none (marshal_fields ks vs)
  unfolding marshal_fields
  Emits-fields [] vs h = Emits-done
  Emits-fields (k ∷ ks) (v, vs) (h, hs) =
      Emits-seq (encode_field k v) (encode_fields ks vs) none (marshal_field k v)
        (marshal_fields ks vs) (Emits-field k v h) (Emits-fields ks vs hs)

  -- On every writer, the method `MarshalCBOR` emitted for a struct, whose values are within the
  -- limits, sends the array of its fields, or stops within these bytes at an error of the
  -- writer; in both cases it counts what was sent.
  pub marshal_tuple-Emits :
      (ks : List Kind) (vs : Values ks)
      → FitsAll ks vs
      → Emits {W = W} (encode_tuple ks vs) none (marshal_tuple ks (some vs))
  unfolding marshal_tuple
  marshal_tuple-Emits ks vs h =
      Emits-seq (encode_major_type 4 (length ks)) (encode_fields ks vs) none
        (write (encode_major_type 4 (length ks))) (marshal_fields ks vs)
        (Emits-write (encode_major_type 4 (length ks))) (Emits-fields ks vs h)
