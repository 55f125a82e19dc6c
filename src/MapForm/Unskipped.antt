-- ===== src/MapForm/Unskipped.antt =====
-- An unknown name in a map whose item `ScanForLinks` does not get through.
use cbor_gen.Prelude.{ℕ, suc, ◌+◌, ◌≤◌, ◌≡◌, ◌≢◌, refl, arith, List, [], ◌++◌, length}
use cbor_gen.Go.{Error, panicked, ok}
use cbor_gen.Header.{encode_major_type}
use cbor_gen.Strings.{max_length}
use cbor_gen.Strings.RoundTrip.{encode_string, read_strings-encode}
use cbor_gen.Cid.{Caster}
use cbor_gen.Scan.{Source, failed, scan_loop}
use cbor_gen.Tuple.{initials}
use cbor_gen.Tuple.Fields.{Decodes-header}
use cbor_gen.MapForm.{MapField, kinds, dropped, skip_unknown, unmarshal_named, unmarshal_struct_map}
use cbor_gen.MapForm.Document.{IsUnknown, choose_none}

dropped_lem :
    {A : Type 0} (e : Error) (vs : A) (br : List ℕ) → e ≢ panicked → dropped e vs br ≡ ok vs 0 br
dropped_lem panicked vs br h = absurd (h refl)
dropped_lem e vs br h = refl

module _ {C : Type 0} (lib : Caster C) (source : Source) (whole : List ℕ) (spare : ℕ) where
  -- For a map of one entry, whose name is within the limit and no field's, with an item that
  -- `ScanForLinks` returns an error for (and does not panic on): the struct is read as zero
  -- values, without that error, and the count has only the header and the name.
  pub unmarshal_struct_map_unskipped :
      (fs : List MapField) (name item rest : List ℕ) (e : Error) (links : List C) (n : ℕ)
      → length name ≤ max_length
      → IsUnknown fs name
      → e ≢ panicked
      → scan_loop ⦃lib = lib⦄ source whole
          (spare + suc (length item))
          (record { remaining = 1; bytes_read = 0; links = []; br = item })
        ≡ failed e links n rest
      → unmarshal_struct_map lib source whole spare fs
          (encode_major_type 5 1 ++ (encode_string 3 name ++ item))
        ≡ ok
            (initials (kinds fs))
            (length (encode_major_type 5 1) + length (encode_string 3 name))
            rest
  unfolding unmarshal_struct_map unmarshal_named skip_unknown
  unmarshal_struct_map_unskipped fs name item rest e links n h unknown calm scan =
      let skips : skip_unknown lib source whole spare (initials (kinds fs)) item
          ≡ ok (initials (kinds fs)) 0 rest =
        rw (scan, dropped_lem e (initials (kinds fs)) rest calm) refl in
      ground (
        arith,
        Decodes-header 5 1 (omega arith) (omega arith) (encode_string 3 name ++ item),
        (read_strings-encode 8 name (omega arith) h).1 item,
        choose_none fs name (initials (kinds fs)) unknown,
      )
