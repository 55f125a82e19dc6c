-- ===== src/MapForm/Document.antt =====
-- Maps that a struct is read from: fields by their names in any order, and names it does not have.
use cbor_gen.Prelude.{
  ◌+◌, ℕ, suc, ◌^◌, ◌≤◌, ◌<◌, ◌≡◌, refl, arith, ◌⊎◌, inl, inr, List, [], ◌∷◌, ◌++◌, none, some,
  length, All, true, false, append_assoc, length-append,
}
use cbor_gen.Go.{Reads}
use cbor_gen.Go.Decodes.{Decodes, Decodes-bind, Decodes-map, Decodes-pure}
use cbor_gen.Header.{encode_major_type}
use cbor_gen.Strings.{max_length, read_string_buf}
use cbor_gen.Strings.RoundTrip.{encode_string, read_strings-encode}
use cbor_gen.Cid.{Caster}
use cbor_gen.Item.{Item, encode, Fits as ItemFits}
use cbor_gen.Keys.{same_bytes}
use cbor_gen.Scan.{Source}
use cbor_gen.Scan.Links.{find_links}
use cbor_gen.Scan.Complete.{scan_loop_one}
use cbor_gen.Tuple.{Values, initial, initials, Fits}
use cbor_gen.Tuple.Encode.{encode_field}
use cbor_gen.Tuple.Unmarshal.{unmarshal_field, own_width}
use cbor_gen.Tuple.Fields.{Decodes-header}
use cbor_gen.Tuple.RoundTrip.{Decodes-field, own_width_wide}
use cbor_gen.MapForm.{
  MapField, kinds, with_value, with_values, switch_name, skip_unknown, chosen, unmarshal_named,
  unmarshal_struct_map,
}

-- A name with its value: the bytes of a field's value, or the item behind an unknown name.
pub data Entry : Type 0 where
  known : List ℕ → List ℕ → Entry
  unknown : List ℕ → Item → Entry

abbrev pub encode_entry : Entry → List ℕ
encode_entry (known name enc) = encode_string 3 name ++ enc
encode_entry (unknown name x) = encode_string 3 name ++ encode x

abbrev pub encode_document : List Entry → List ℕ
encode_document [] = []
encode_document (e ∷ es) = encode_entry e ++ encode_document es

-- `us` is `vs` with the first field of that name, which had its zero value, at the value whose
-- encoding is `enc`.
abbrev pub Sets :
    (fs : List MapField) → List ℕ → Values (kinds fs) → Values (kinds fs) → List ℕ → Type 0
Sets [] name vs us enc = ⊥
Sets (f ∷ fs) name (v, vs) (u, us) enc =
    ((same_bytes name f.map_key ≡ true)
      × (v ≡ initial f.kind)
      × Fits f.kind u
      × (enc ≡ encode_field f.kind u)
      × (vs ≡ us))
    ⊎ ((same_bytes name f.map_key ≡ false) × (v ≡ u) × Sets fs name vs us enc)

abbrev pub IsUnknown : List MapField → List ℕ → Type 0
IsUnknown fs name = All (λ f. same_bytes name f.map_key ≡ false) fs

module _ {C : Type 0} (lib : Caster C) where
  -- An item that `ScanForLinks` gets through.
  abbrev pub Skips : Item → Type 0
  Skips x =
      ItemFits x
      × ((cs : List C) × (find_links ⦃lib = lib⦄ x ≡ some cs))
      × (length (encode x) < 2 ^ 49)

  -- The document takes the values `vs` to `ws`.
  abbrev pub Fills :
      (fs : List MapField) → List Entry → Values (kinds fs) → Values (kinds fs) → Type 0
  Fills fs [] vs ws = vs ≡ ws
  Fills fs (known name enc ∷ es) vs ws =
      (length name ≤ max_length)
      × ((us : Values (kinds fs)) × Sets fs name vs us enc × Fills fs es us ws)
  Fills fs (unknown name x ∷ es) vs ws =
      (length name ≤ max_length) × IsUnknown fs name × Skips x × Fills fs es vs ws

-- The case of a field's name.
abbrev Chooses :
    (fs : List MapField) → List ℕ → Values (kinds fs) → Values (kinds fs) → List ℕ → Type 0
Chooses fs name vs us enc =
    (read : Reads (Values (kinds fs))) × (switch_name fs name vs ≡ some read) × Decodes read us enc

choose :
    (fs : List MapField) (name : List ℕ) (vs us : Values (kinds fs)) (enc : List ℕ)
    → Sets fs name vs us enc
    → Chooses fs name vs us enc
unfolding switch_name
choose [] name vs us enc h = absurd h
choose (f ∷ fs) name (v, vs) (u, us) enc (inl (same, e, fit, q, r)) =
    let read = unmarshal_field f.kind (own_width f.kind) v in
    let whole : Decodes read u enc =
      rw (e, q) (Decodes-field f.kind (own_width f.kind) u (own_width_wide f.kind) fit) in
    (
      with_values vs read,
      rw same refl,
      rw r (Decodes-map read _ u (u, us) enc whole (Decodes-pure (u, us))),
    )
choose (f ∷ fs) name (v, vs) (u, us) enc (inr (apart, e, h)) =
    let (read, q, d) = choose fs name vs us enc h in
    (
      with_value v read,
      rw (apart, q) refl,
      rw e (Decodes-map read _ us (u, us) enc d (Decodes-pure (u, us))),
    )

pub choose_none :
    (fs : List MapField) (name : List ℕ) (vs : Values (kinds fs))
    → IsUnknown fs name
    → switch_name fs name vs ≡ none
unfolding switch_name
choose_none [] name vs h = refl
choose_none (f ∷ fs) name (v, vs) (h, hs) = rw (h, choose_none fs name vs hs) refl

module _ {C : Type 0} (lib : Caster C) (source : Source) (whole : List ℕ) (spare : ℕ) where
  Decodes-skip :
      {A : Type 0} (vs : A) (x : Item)
      → Skips lib x
      → Decodes (skip_unknown lib source whole spare vs) vs (encode x)
  unfolding skip_unknown
  Decodes-skip vs x (fit, (cs, found), small) rest =
      rw
        (scan_loop_one ⦃lib = lib⦄ source whole (spare + suc (length (encode x ++ rest))) x rest cs
          fit found small (omega (arith, length-append (encode x) rest)))
        refl

  -- A name whose case reads `us`.
  Decodes-case :
      (fs : List MapField) (n : ℕ) (name enc doc : List ℕ) (vs us ws : Values (kinds fs))
      → length name ≤ max_length
      → Decodes (chosen lib source whole spare vs (switch_name fs name vs)) us enc
      → Decodes (unmarshal_named lib source whole spare fs n us) ws doc
      → Decodes
          (unmarshal_named lib source whole spare fs (suc n) vs)
          ws
          ((encode_string 3 name ++ enc) ++ doc)
  unfolding unmarshal_named
  Decodes-case fs n name enc doc vs us ws h d ds =
      rw (append_assoc (encode_string 3 name) enc doc) (
        Decodes-bind (read_string_buf 8) _ name ws (encode_string 3 name) (enc ++ doc)
          ((read_strings-encode 8 name (omega arith) h).1)
          (Decodes-bind (chosen lib source whole spare vs (switch_name fs name vs)) _ us ws enc doc
            d ds))

  pub Decodes-named :
      (fs : List MapField) (es : List Entry) (vs ws : Values (kinds fs))
      → Fills lib fs es vs ws
      → Decodes (unmarshal_named lib source whole spare fs (length es) vs) ws (encode_document es)
  Decodes-named fs [] vs ws h = λ rest. unfold unmarshal_named in rw h refl
  Decodes-named fs (known name enc ∷ es) vs ws (n, (us, h, hs)) =
      let (read, q, d) = choose fs name vs us enc h in
      Decodes-case fs (length es) name enc (encode_document es) vs us ws n (rw q d)
        (Decodes-named fs es us ws hs)
  Decodes-named fs (unknown name x ∷ es) vs ws (n, h, skip, hs) =
      Decodes-case fs (length es) name (encode x) (encode_document es) vs vs ws n
        (rw (choose_none fs name vs h) (Decodes-skip vs x skip)) (Decodes-named fs es vs ws hs)

  -- For a struct in map form: a map of at most 8192 entries, each the name of a field that still
  -- has its zero value with the encoding of a value within the limits, or an unknown name with
  -- an item whose links `ScanForLinks` gets through, is read as a whole, however many tests more
  -- than one for each byte and one the loop of `ScanForLinks` has, in any order of the names,
  -- into the values that it gives and the zero values of the fields it lacks.
  pub unmarshal_struct_map_reads :
      (fs : List MapField) (es : List Entry) (ws : Values (kinds fs))
      → length es ≤ max_length
      → Fills lib fs es (initials (kinds fs)) ws
      → Decodes
          (unmarshal_struct_map lib source whole spare fs)
          ws
          (encode_major_type 5 (length es) ++ encode_document es)
  unfolding unmarshal_struct_map
  unmarshal_struct_map_reads fs es ws h fill rest = rw append_assoc (
      ground (
        arith,
        Decodes-header 5 (length es) (omega arith) (omega arith) (encode_document es ++ rest),
        Decodes-named fs es (initials (kinds fs)) ws fill rest,
        length-append (encode_major_type 5 (length es)) (encode_document es),
      ))
