-- ===== src/Tests/MapForm.antt =====
-- Structs in map form on concrete values.
use cbor_gen.Prelude.{
  ℕ, suc, ◌+◌, ◌≡◌, refl, arith, List, [], ◌∷◌, ◌++◌, length, none, some, inl, inr,
}
use cbor_gen.Go.Decodes.{Decodes}
use cbor_gen.Go.Writer.Buffer.{Buffer, buffer_writer}
use cbor_gen.Go.Writer.Emits.{Emits}
use cbor_gen.Header.{encode_major_type}
use cbor_gen.Cid.{Caster}
use cbor_gen.Item.{unsigned, encode, Fits}
use cbor_gen.Keys.{same_bytes}
use cbor_gen.Scan.{bytes_buffer, scan_loop, failed}
use cbor_gen.Scan.Links.{find_links}
use cbor_gen.Tuple.{w64, int, string, Values, initials}
use cbor_gen.Tuple.Encode.{encode_field}
use cbor_gen.MapForm.{MapField, kinds, NamesFit, unmarshal_struct_map}
use cbor_gen.MapForm.Marshal.{encode_struct_map, marshal_struct_map}
use cbor_gen.MapForm.Document.{
  Entry, known, unknown, encode_document, Fills, Skips, IsUnknown, unmarshal_struct_map_reads,
}
use cbor_gen.MapForm.Unskipped.{unmarshal_struct_map_unskipped}
use cbor_gen.Go.{ok, not_canonical, read_full}
use cbor_gen.Strings.RoundTrip.{encode_string}
use cbor_gen.Header.Scratch.{read_extra8_buf}
use cbor_gen.MapForm.RoundTrip.{struct_map-RoundTrips}

abbrev any_cid : Caster (List ℕ)
any_cid = record { cast = some }

abbrev foo_key : List ℕ
foo_key = b'f' ∷ b'o' ∷ b'o' ∷ []

abbrev beep_key : List ℕ
beep_key = b'b' ∷ b'e' ∷ b'e' ∷ b'p' ∷ []

-- RenamedFields of testing/types.go.
abbrev renamed : List MapField
renamed =
    record { map_key = foo_key; kind = int w64 } ∷ record { map_key = beep_key; kind = string } ∷ []

abbrev renamed_values : Values (kinds renamed)
renamed_values = (5, (b'x' ∷ [], tt))

-- {"beep": "x", "zed": 1, "foo": 5}
abbrev document : List Entry
document =
    known beep_key (encode_field string (b'x' ∷ []))
    ∷ unknown (b'z' ∷ b'e' ∷ b'd' ∷ []) (unsigned 1)
    ∷ known foo_key (encode_field (int w64) 5)
    ∷ []

one_skipped : Skips any_cid (unsigned 1)
unfolding Fits encode find_links encode_major_type
one_skipped = (omega arith, ([], refl), omega arith)

document-Fills : Fills any_cid renamed document (initials (kinds renamed)) renamed_values
unfolding same_bytes
document-Fills = (
  omega arith,
  (
    (0, (b'x' ∷ [], tt)),
    inr (refl, refl, inl (refl, refl, omega arith, refl, refl)),
    (
      omega arith,
      (refl, (refl, tt)),
      one_skipped,
      (omega arith, (renamed_values, inl (refl, refl, omega arith, refl, refl), refl)),
    ),
  ),
)

unmarshal_struct_map_reads_example :
    Decodes
      (unmarshal_struct_map any_cid bytes_buffer [] 3 renamed)
      renamed_values
      (encode_major_type 5 (length document) ++ encode_document document)
unmarshal_struct_map_reads_example =
    unmarshal_struct_map_reads any_cid bytes_buffer [] 3 renamed document renamed_values
      (omega arith) document-Fills

renamed-NamesFit : NamesFit renamed
unfolding same_bytes
renamed-NamesFit = (omega arith, (refl, tt), (omega arith, tt, tt))

struct_map-RoundTrips_example :
    Emits {W = Buffer}
      (encode_struct_map renamed renamed_values)
      none
      (marshal_struct_map renamed (some renamed_values))
    × Decodes
        (unmarshal_struct_map any_cid bytes_buffer [] 3 renamed)
        renamed_values
        (encode_struct_map renamed renamed_values)
struct_map-RoundTrips_example =
    struct_map-RoundTrips any_cid {W = Buffer} bytes_buffer [] 3 renamed renamed_values
      renamed-NamesFit (omega arith) (omega arith)

abbrev zed_key : List ℕ
zed_key = b'z' ∷ b'e' ∷ b'd' ∷ []

-- A number that would have fitted a shorter header.
abbrev padded : List ℕ
padded = 0x18 ∷ 0x17 ∷ []

scan_padded :
    scan_loop ⦃lib = any_cid⦄ bytes_buffer []
      (3 + suc (length padded))
      (record { remaining = 1; bytes_read = 0; links = []; br = padded })
    ≡ failed (not_canonical 24) [] 0 []
unfolding scan_loop read_extra8_buf read_full
scan_padded = refl

zed-IsUnknown : IsUnknown renamed zed_key
unfolding same_bytes
zed-IsUnknown = (refl, (refl, tt))

unmarshal_struct_map_unskipped_example :
    unmarshal_struct_map any_cid bytes_buffer [] 3 renamed
      (encode_major_type 5 1 ++ (encode_string 3 zed_key ++ padded))
    ≡ ok
        (initials (kinds renamed))
        (length (encode_major_type 5 1) + length (encode_string 3 zed_key))
        []
unmarshal_struct_map_unskipped_example =
    unmarshal_struct_map_unskipped any_cid bytes_buffer [] 3 renamed zed_key padded []
      (not_canonical 24) [] 0 (omega arith) zed-IsUnknown (λ e. cc) scan_padded
