-- ===== src/Tests/Walks.antt =====
-- Runs of the code on concrete inputs, and the theorems at concrete inputs.
use cbor_gen.Prelude.{ℕ, ◌<◌, ◌≡◌, ◌↔◌, refl, arith, List, [], ◌∷◌, ◌++◌, length}
use cbor_gen.Go.{IsU64, ok, err, not_canonical}
use cbor_gen.Go.Writer.Buffer.{buffer_writer}
use cbor_gen.Header.{read_header, read_extra, read_extra8, encode_major_type}
use cbor_gen.Header.RoundTrip.{read_header-encode}
use cbor_gen.Header.Canonical.{read_header_canonical}
use cbor_gen.Header.Scratch.{read_header_buf, read_header_buf-read_header}
use cbor_gen.Item.{Item, unsigned, array, cons, nil, encode, Fits}
use cbor_gen.Validate.{validate_cbor, valid}
use cbor_gen.Validate.Complete.{validate_cbor_iff}
use cbor_gen.Deferred.{unmarshal_deferred, copied}
use cbor_gen.Validate.Ends.{Answers as ValidateEnds}
use cbor_gen.Deferred.Ends.{Answers as DeferredEnds}
use cbor_gen.Deferred.Validated.{walks-Answers, validate_cbor-unmarshal_deferred}
use cbor_gen.Deferred.Copy.{unmarshal_deferred_copies}
use cbor_gen.Deferred.Complete.{unmarshal_deferred_complete}

-- The array [1, "a"].
abbrev document : List ℕ
document = 0x82 ∷ 0x01 ∷ 0x61 ∷ 0x61 ∷ []

document_valid : validate_cbor document ≡ valid
unfolding validate_cbor
document_valid = refl

read_24 : read_header (0x18 ∷ 0x18 ∷ 7 ∷ []) ≡ ok (0, 24) 2 (7 ∷ [])
unfolding read_header read_extra read_extra8
read_24 = refl

-- A number that would have fitted a shorter header.
read_padded : read_header (0x18 ∷ 0x17 ∷ []) ≡ err (not_canonical 24) 2 []
unfolding read_header read_extra read_extra8
read_padded = refl

read_header-encode_example :
    read_header (encode_major_type 2 300 ++ (7 ∷ []))
    ≡ ok (2, 300) (length (encode_major_type 2 300)) (7 ∷ [])
read_header-encode_example = read_header-encode 2 300 (7 ∷ []) (omega arith) (omega arith)

read_header_canonical_example :
    (0x18 ∷ 0x18 ∷ 7 ∷ [] ≡ encode_major_type 0 24 ++ (7 ∷ []))
    × (2 ≡ length (encode_major_type 0 24))
    × (0 < 8)
    × IsU64 24
read_header_canonical_example =
    read_header_canonical 0 24 2 (0x18 ∷ 0x18 ∷ 7 ∷ []) (7 ∷ []) (omega arith) read_24

read_header_buf-read_header_example : read_header_buf 9 document ≡ read_header document
read_header_buf-read_header_example = read_header_buf-read_header 9 document (omega arith)

validate_cbor_iff_example :
    (validate_cbor document ≡ valid) ↔ ((x : Item) × Fits x × (document ≡ encode x))
validate_cbor_iff_example = validate_cbor_iff document (omega arith) (omega arith)

copy_document : unmarshal_deferred (0x82 ∷ 0x01 ∷ 0x61 ∷ 0x61 ∷ 9 ∷ []) ≡ copied document 4 (9 ∷ [])
unfolding unmarshal_deferred
copy_document = refl

unmarshal_deferred_copies_example :
    (x : Item) × Fits x
    × (document ≡ encode x)
    × (0x82 ∷ 0x01 ∷ 0x61 ∷ 0x61 ∷ 9 ∷ [] ≡ document ++ (9 ∷ []))
    × (4 ≡ length document)
unmarshal_deferred_copies_example =
    unmarshal_deferred_copies (0x82 ∷ 0x01 ∷ 0x61 ∷ 0x61 ∷ 9 ∷ []) document (9 ∷ []) 4 (omega arith)
      (omega arith) copy_document

abbrev five : Item
five = array (cons (unsigned 5) nil)

unmarshal_deferred_complete_example :
    unmarshal_deferred (encode five ++ (9 ∷ []))
    ≡ copied (encode five) (length (encode five)) (9 ∷ [])
unfolding Fits encode encode_major_type
unmarshal_deferred_complete_example =
    unmarshal_deferred_complete five (9 ∷ []) (omega arith) (omega arith)

walks-Answers_example :
    ValidateEnds (validate_cbor document) × DeferredEnds (unmarshal_deferred document)
walks-Answers_example = walks-Answers document (omega arith)

validate_cbor-unmarshal_deferred_example :
    (validate_cbor document ≡ valid) ↔ (unmarshal_deferred document ≡ copied document 4 [])
validate_cbor-unmarshal_deferred_example =
    validate_cbor-unmarshal_deferred document (omega arith) (omega arith)
