-- ===== src/Tuple/Elements.antt =====
-- The readers of byte strings, slices, maps and pointers, for any reader of their elements.
use cbor_gen.Prelude.{
  ℕ, ◌*◌, ◌%◌, ◌≤◌, ◌<◌, ◌≡◌, ◌≢◌, refl, subst, arith, List, [], ◌∷◌, ◌++◌, Option, none, some,
  length, All, bit_or, true, false, append_assoc, append-nil, length-append, All-append, ◌==◌,
  All-every,
}
use cbor_gen.Go.{Reads}
use cbor_gen.Go.Decodes.{Decodes, Decodes-bind, Decodes-map, Decodes-pure}
use cbor_gen.Go.Counted.{read_full-append}
use cbor_gen.Header.{encode_major_type}
use cbor_gen.Header.RoundTrip.{encode-split, initial_byte, low_of, low_of-lt}
use cbor_gen.Keys.{map_key_less}
use cbor_gen.Keys.Entries.{put_last}
use cbor_gen.Scalars.{cbor_null}
use cbor_gen.Strings.{max_length, byte_array_max_len, read_string_buf}
use cbor_gen.Strings.RoundTrip.{encode_string, read_new-append, read_strings-encode}
use cbor_gen.Tuple.{
  Width, modulus, Codec, NotNull, NestedFits, PresentFits, Entries, KeysFit, max_map_length,
  PointerFits,
}
use cbor_gen.Tuple.Encode.{
  encode_pointer, encode_each, encode_slice, encode_nullable, encode_entries, encode_map,
}
use cbor_gen.Tuple.Unmarshal.{
  unmarshal_uint64, unmarshal_bytes, bytes_into, other_length, unmarshal_each, unmarshal_element,
  elements_into, unmarshal_slice, unmarshal_pointer, unmarshal_new, unmarshal_entries,
  unmarshal_map,
}
use cbor_gen.Tuple.Fields.{Decodes-header, Decodes-uint64, modulus-le}

Decodes-bytes_into :
    (size : Option ℕ) (s : List ℕ) (old : List ℕ)
    → length s ≤ byte_array_max_len
    → (size ≡ none → old ≡ [])
    → Decodes (bytes_into size (length s) old) s s
Decodes-bytes_into none [] old h o rest = rw (o refl) (read_full-append [] rest)
Decodes-bytes_into none (b ∷ s) old h o rest =
    let full : (length (b ∷ s) == 0) ≡ false = ground arith in
    rw full (read_new-append (b ∷ s) rest (omega arith))
Decodes-bytes_into (some n) s old h o rest = read_new-append s rest (omega arith)

pub Decodes-bytes :
    (size : Option ℕ) (s old : List ℕ)
    → length s ≤ byte_array_max_len
    → other_length size (length s) ≡ false
    → (size ≡ none → old ≡ [])
    → Decodes (unmarshal_bytes size old) s (encode_string 2 s)
unfolding unmarshal_bytes
Decodes-bytes size s old h e o rest = rw append_assoc (
    ground (
      arith,
      Decodes-header 2 (length s) (omega arith) (omega arith) (s ++ rest),
      Decodes-bytes_into size s old h o rest,
      length-append (encode_major_type 2 (length s)) s,
    ))

pub NotNull-header : (t l : ℕ) (bs : List ℕ) → t < 7 → NotNull (encode_major_type t l ++ bs)
NotNull-header t l bs h =
    let low = low_of-lt l in
    let (a, b, c) = initial_byte t (low_of l) (omega arith) low in
    let first : ℕ = bit_or (t * 32 % 256) (low_of l) in
    let less : first ≢ 0xf6 = λ e. omega (arith, c) in rw (encode-split t l) less

module _ {A : Type 0} where
  Decodes-each :
      (read : Reads A) (enc : A → List ℕ) (xs : List A)
      → All (λ x. Decodes read x (enc x)) xs
      → Decodes (unmarshal_each (length xs) read) xs (encode_each enc xs)
  unfolding unmarshal_each
  Decodes-each read enc [] h rest = refl
  Decodes-each read enc (v ∷ vs) (h, hs) rest =
      Decodes-bind read _ v (v ∷ vs) (enc v) (encode_each enc vs) h
        (Decodes-map (unmarshal_each (length vs) read) _ vs (v ∷ vs) (encode_each enc vs)
          (Decodes-each read enc vs hs) (Decodes-pure (v ∷ vs)))
        rest

  Decodes-elements_into :
      (size : Option ℕ) (read : Reads A) (enc : A → List ℕ) (xs old : List A)
      → (size ≡ none → old ≡ [])
      → All (λ x. Decodes read x (enc x)) xs
      → Decodes (elements_into size (length xs) read old) xs (encode_each enc xs)
  Decodes-elements_into none read enc [] old o h rest = rw (o refl) refl
  Decodes-elements_into none read enc (x ∷ xs) old o h rest =
      let full : (length (x ∷ xs) == 0) ≡ false = ground arith in
      rw full (Decodes-each read enc (x ∷ xs) h rest)
  Decodes-elements_into (some n) read enc xs old o h rest = Decodes-each read enc xs h rest

  pub Decodes-slice :
      (size : Option ℕ) (read : Reads A) (enc : A → List ℕ) (xs old : List A)
      → length xs ≤ max_length
      → other_length size (length xs) ≡ false
      → (size ≡ none → old ≡ [])
      → All (λ x. Decodes read x (enc x)) xs
      → Decodes (unmarshal_slice size read old) xs (encode_slice enc xs)
  unfolding unmarshal_slice
  Decodes-slice size read enc xs old h e o hs rest = rw append_assoc (
      ground (
        arith,
        Decodes-header 4 (length xs) (omega arith) (omega arith) (encode_each enc xs ++ rest),
        Decodes-elements_into size read enc xs old o hs rest,
        length-append (encode_major_type 4 (length xs)) (encode_each enc xs),
      ))

  -- A pointer that was nil.
  Decodes-some :
      (read : Reads A) (v : A) (enc : List ℕ) (old : Option A)
      → NotNull enc
      → Decodes read v enc
      → Decodes (unmarshal_pointer read old) (some v) enc
  unfolding unmarshal_pointer
  Decodes-some read v [] old h d rest = absurd h
  Decodes-some read v (b ∷ bs) old h d rest = ground (arith, d rest)

  pub Decodes-null : (read : Reads A) → Decodes (unmarshal_pointer read none) none cbor_null
  unfolding unmarshal_pointer
  Decodes-null read rest = refl

  -- The keys of `acc` are before those of `es`.
  abbrev Before : Entries A → Entries A → Type 0
  Before acc es = All (λ e. All (λ f. map_key_less f.0 e.0 ≡ true) acc) es

  Before-next :
      (k : List ℕ) (v : A) (acc es : Entries A)
      → All (λ f. map_key_less k f.0 ≡ true) es
      → Before acc es
      → Before (acc ++ ((k, v) ∷ [])) es
  Before-next k v acc [] h b = tt
  Before-next k v acc (e ∷ es) (h, hs) (b, bs) = (
    All-append (λ f. map_key_less f.0 e.0 ≡ true) acc ((k, v) ∷ []) b (h, tt),
    Before-next k v acc es hs bs,
  )

  Decodes-entries :
      (read : Reads A) (enc : A → List ℕ) (acc es : Entries A)
      → Before acc es
      → KeysFit es
      → All (λ e. Decodes read e.1 (enc e.1)) es
      → Decodes (unmarshal_entries (length es) read acc) (acc ++ es) (encode_entries enc es)
  unfolding unmarshal_entries
  Decodes-entries read enc acc [] b k h rest = rw (append-nil acc)
  Decodes-entries read enc acc ((x, v) ∷ es) (b, bs) (kh, after, ks) (h, hs) rest =
      let next : Entries A = acc ++ ((x, v) ∷ []) in
      let all : next ++ es ≡ acc ++ ((x, v) ∷ es) = append_assoc acc ((x, v) ∷ []) es in
      let last = put_last x v acc b in
      Decodes-bind (read_string_buf 8) _ x (acc ++ ((x, v) ∷ es)) (encode_string 3 x)
        (enc v ++ encode_entries enc es) ((read_strings-encode 8 x (omega arith) kh).1)
        (Decodes-bind read _ v (acc ++ ((x, v) ∷ es)) (enc v) (encode_entries enc es) h (
          rw last (
            subst
              (λ fs. Decodes (unmarshal_entries (length es) read next) fs (encode_entries enc es))
              all (Decodes-entries read enc next es (Before-next x v acc es after bs) ks hs))))
        rest

  pub Decodes-entries_of :
      (read : Reads A) (enc : A → List ℕ) (es : Entries A)
      → length es ≤ max_map_length
      → KeysFit es
      → All (λ e. Decodes read e.1 (enc e.1)) es
      → Decodes (unmarshal_map read) es (encode_map enc es)
  unfolding unmarshal_map
  Decodes-entries_of read enc es h k hs rest = rw append_assoc (
      ground (
        arith,
        Decodes-header 5 (length es) (omega arith) (omega arith) (encode_entries enc es ++ rest),
        Decodes-entries read enc [] es (All-every (λ e. tt) es) k hs rest,
        length-append (encode_major_type 5 (length es)) (encode_entries enc es),
      ))

pub Decodes-element :
    (w : Width) (v : ℕ) → v < modulus w → Decodes (unmarshal_element w) v (encode_major_type 0 v)
unfolding unmarshal_element
Decodes-element w v h rest =
    let small : v % modulus w ≡ v = grind arith in
    ground (arith, Decodes-header 0 v (omega arith) (omega (arith, modulus-le w)) rest)

-- The pointers to nested types.
pub Decodes-nested :
    (m : Codec) (p : Option m.Carrier)
    → NestedFits m p
    → Decodes (unmarshal_pointer m.unmarshal none) p (encode_nullable m p)
Decodes-nested m none h = Decodes-null m.unmarshal
Decodes-nested m (some c) h = Decodes-some m.unmarshal c (m.encode c) none h.1 (m.decodes c h.0)

pub Decodes-present :
    (m : Codec) (p : Option m.Carrier)
    → PresentFits m p
    → Decodes (unmarshal_new m.unmarshal) p (encode_nullable m p)
unfolding unmarshal_new
Decodes-present m none h rest = absurd h
Decodes-present m (some c) h rest = rw (m.decodes c h rest)

pub Decodes-uint64_pointer :
    (p : Option ℕ)
    → PointerFits p
    → Decodes (unmarshal_pointer unmarshal_uint64 none) p (encode_pointer p)
Decodes-uint64_pointer none h = Decodes-null unmarshal_uint64
Decodes-uint64_pointer (some v) h =
    Decodes-some unmarshal_uint64 v (encode_major_type 0 v) none
      (rw (append-nil (encode_major_type 0 v)) at (NotNull-header 0 v [] (omega arith)))
      (Decodes-uint64 v h)
