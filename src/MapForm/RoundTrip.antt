-- ===== src/MapForm/RoundTrip.antt =====
-- A struct in map form written and read back; as a `Codec` for the fields of others.
use cbor_gen.Prelude.{
  ℕ, ◌≤◌, ◌≡◌, refl, arith, inl, inr, List, [], ◌∷◌, ◌++◌, none, some, true, false, length, All,
  append_assoc,
}
use cbor_gen.Go.Decodes.{Decodes}
use cbor_gen.Go.Writer.{Writer}
use cbor_gen.Go.Writer.Emits.{Emits}
use cbor_gen.Strings.{max_length}
use cbor_gen.Cid.{Caster}
use cbor_gen.Keys.{same_bytes}
use cbor_gen.Keys.Entries.{same_bytes_refl}
use cbor_gen.Scan.{Source}
use cbor_gen.Tuple.{Codec, Value, Values, initials, FitsAll}
use cbor_gen.Tuple.Encode.{encode_field}
use cbor_gen.MapForm.{MapField, kinds, NamesFit, unmarshal_struct_map}
use cbor_gen.MapForm.Marshal.{
  encode_named, encode_struct_map, marshal_struct_map, marshal_struct_map-Emits, struct_map_nil,
}
use cbor_gen.MapForm.Document.{
  Entry, known, unknown, encode_document, Fills, unmarshal_struct_map_reads,
}

-- The document that the marshaller writes.
abbrev named : (fs : List MapField) → Values (kinds fs) → List Entry
named [] vs = []
named (f ∷ fs) (v, vs) = known f.map_key (encode_field f.kind v) ∷ named fs vs

length-named : (fs : List MapField) (vs : Values (kinds fs)) → length (named fs vs) ≡ length fs
length-named [] vs = refl
length-named (f ∷ fs) (v, vs) = rw (length-named fs vs)

encode-named :
    (fs : List MapField) (vs : Values (kinds fs))
    → encode_document (named fs vs) ≡ encode_named fs vs
encode-named [] vs = refl
encode-named (f ∷ fs) (v, vs) = rw (encode-named fs vs, append_assoc)

-- The entry has another name than the field.
abbrev Apart : MapField → Entry → Type 0
Apart f (known name enc) = same_bytes name f.map_key ≡ false
Apart f (unknown name x) = same_bytes name f.map_key ≡ false

Apart-named :
    (f : MapField) (fs : List MapField) (vs : Values (kinds fs))
    → All (λ g. same_bytes g.map_key f.map_key ≡ false) fs
    → All (Apart f) (named fs vs)
Apart-named f [] vs h = tt
Apart-named f (g ∷ fs) (v, vs) (h, hs) = (h, Apart-named f fs vs hs)

module _ {C : Type 0} (lib : Caster C) where
  Fills-cons :
      (f : MapField) (fs : List MapField) (es : List Entry) (u : Value f.kind)
      (vs ws : Values (kinds fs))
      → All (Apart f) es
      → Fills lib fs es vs ws
      → Fills lib (f ∷ fs) es (u, vs) (u, ws)
  Fills-cons f fs [] u vs ws a h = rw h refl
  Fills-cons f fs (known name enc ∷ es) u vs ws (a, aps) (n, (us, h, hs)) =
      (n, ((u, us), inr (a, refl, h), Fills-cons f fs es u us ws aps hs))
  Fills-cons f fs (unknown name x ∷ es) u vs ws (a, aps) (n, h, skip, hs) =
      (n, (a, h), skip, Fills-cons f fs es u vs ws aps hs)

  Fills-named :
      (fs : List MapField) (vs : Values (kinds fs))
      → NamesFit fs
      → FitsAll (kinds fs) vs
      → Fills lib fs (named fs vs) (initials (kinds fs)) vs
  Fills-named [] vs n h = refl
  Fills-named (f ∷ fs) (v, vs) (n, apart, ns) (h, hs) = (
    n,
    (
      (v, initials (kinds fs)),
      inl (same_bytes_refl f.map_key, refl, h, refl, refl),
      Fills-cons f fs (named fs vs) v (initials (kinds fs)) vs (Apart-named f fs vs apart)
          (Fills-named fs vs ns hs),
    ),
  )

  pub unmarshal_struct_map-encode :
      (source : Source) (whole : List ℕ) (spare : ℕ) (fs : List MapField) (vs : Values (kinds fs))
      → NamesFit fs
      → length fs ≤ max_length
      → FitsAll (kinds fs) vs
      → Decodes (unmarshal_struct_map lib source whole spare fs) vs (encode_struct_map fs vs)
  unmarshal_struct_map-encode source whole spare fs vs n few h =
      let size = length-named fs vs in
      let read =
        unmarshal_struct_map_reads lib source whole spare fs (named fs vs) vs (omega (arith, size))
          (Fills-named fs vs n h) in
      rw (size, encode-named fs vs) at read

  -- Every struct in map form with at most 8192 fields, whose keys are distinct and within the
  -- limit, and with values within the limits, is sent on every writer as the map of its fields,
  -- or up to an error of the writer, and read back from it.
  pub struct_map-RoundTrips :
      {W : Type 0} ⦃io : Writer W⦄ (source : Source) (whole : List ℕ) (spare : ℕ)
      (fs : List MapField) (vs : Values (kinds fs))
      → NamesFit fs
      → length fs ≤ max_length
      → FitsAll (kinds fs) vs
      → Emits {W = W} (encode_struct_map fs vs) none (marshal_struct_map fs (some vs))
        × Decodes (unmarshal_struct_map lib source whole spare fs) vs (encode_struct_map fs vs)
  struct_map-RoundTrips source whole spare fs vs n few h = (
    marshal_struct_map-Emits fs vs n h,
    unmarshal_struct_map-encode source whole spare fs vs n few h,
  )

  -- A struct in map form as a field of another: the bytes in front of it are not in `whole`.
  unfoldable pub struct_map_codec :
      Source → ℕ → (fs : List MapField) → NamesFit fs → length fs ≤ max_length → Codec
  struct_map_codec source spare fs n few = record {
    Carrier = Values (kinds fs);
    initial = initials (kinds fs);
    marshal = marshal_struct_map fs;
    unmarshal = λ br. unmarshal_struct_map lib source br spare fs br;
    IsValid = FitsAll (kinds fs);
    encode = encode_struct_map fs;
    has_nil = true;
    sends_nil = λ _. struct_map_nil fs;
    sends = λ vs. marshal_struct_map-Emits fs vs n;
    decodes = λ vs h rest.
        unmarshal_struct_map-encode source (encode_struct_map fs vs ++ rest) spare fs vs n few h
          rest;
  }
