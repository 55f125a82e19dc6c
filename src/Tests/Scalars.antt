-- ===== src/Tests/Scalars.antt =====
-- Strings, scalars and CIDs on concrete inputs. The CIDs are their own binary form, and the empty
-- one is undefined.
use cbor_gen.Prelude.{
  ℕ, ◌-◌, ◌≤◌, ◌^◌, ◌≡◌, ◌↔◌, refl, arith, List, [], ◌∷◌, ◌++◌, length, Bool, true, false, none,
  some,
}
use cbor_gen.Go.{ok, read_full}
use cbor_gen.Go.Decodes.{Decodes}
use cbor_gen.Go.Writer.{write}
use cbor_gen.Go.Writer.Buffer.{Buffer, buffer_writer}
use cbor_gen.Go.Writer.Emits.{Emits, Emits-write}
use cbor_gen.Header.{read_header, read_extra, encode_major_type}
use cbor_gen.Header.Write.{
  write_headers-Emits, write_major_type_header, write_major_type_header_buf,
}
use cbor_gen.Strings.{read_byte_array, read_tagged_byte_array, read_string, read_string_buf}
use cbor_gen.Strings.RoundTrip.{encode_string}
use cbor_gen.Strings.Accepts.{read_strings_iff}
use cbor_gen.Scalars.{unmarshal_int, marshal_int, encode_bool, write_bool, unmarshal_bool}
use cbor_gen.Scalars.Laws.{encode_int, IntMeaning, unmarshal_int_meaning}
use cbor_gen.Scalars.Time.{
  Time, InRange, unmarshal_time, marshal_time, scalars-RoundTrip, unix_nano,
}
use cbor_gen.Cid.{Caster, CidWriter, read_cid, write_cid, write_cid_buf}
use cbor_gen.Cid.RoundTrip.{encode_cid, read_cid-encode_cid, write_cid-Emits}
use cbor_gen.Tuple.Marshal.{scratch}

abbrev text : List ℕ
text = b'h' ∷ b'i' ∷ []

write_headers-Emits_example :
    Emits {W = Buffer} (encode_major_type 2 300) none (write_major_type_header 2 300)
    × Emits {W = Buffer} (encode_major_type 2 300) none (write_major_type_header_buf scratch 2 300)
write_headers-Emits_example = write_headers-Emits scratch 2 300 (omega arith)

read_text : read_string (0x62 ∷ b'h' ∷ b'i' ∷ 9 ∷ []) ≡ ok text 3 (9 ∷ [])
unfolding read_string read_header read_extra read_full
read_text = refl

read_strings_iff_example :
    ((read_string (0x62 ∷ b'h' ∷ b'i' ∷ 9 ∷ []) ≡ ok text 3 (9 ∷ [])) ↔ (
      (0x62 ∷ b'h' ∷ b'i' ∷ 9 ∷ [] ≡ encode_string 3 text ++ (9 ∷ []))
      × (3 ≡ length (encode_string 3 text))
      × (length text ≤ 8192)))
    × ((read_string_buf 8 (0x62 ∷ b'h' ∷ b'i' ∷ 9 ∷ []) ≡ ok text 3 (9 ∷ [])) ↔ (
        (0x62 ∷ b'h' ∷ b'i' ∷ 9 ∷ [] ≡ encode_string 3 text ++ (9 ∷ []))
        × (3 ≡ length (encode_string 3 text))
        × (length text ≤ 8192)))
read_strings_iff_example =
    read_strings_iff 8 3 (0x62 ∷ b'h' ∷ b'i' ∷ 9 ∷ []) text (9 ∷ []) (omega arith) (omega arith)

read_array : read_byte_array 10 (0x42 ∷ b'h' ∷ b'i' ∷ 9 ∷ []) ≡ ok text 3 (9 ∷ [])
unfolding read_byte_array read_header read_extra read_full
read_array = refl

read_tagged : read_tagged_byte_array 5 10 (0xc5 ∷ 0x42 ∷ b'h' ∷ b'i' ∷ 9 ∷ []) ≡ ok text 4 (9 ∷ [])
unfolding read_tagged_byte_array read_header read_extra read_full
read_tagged = refl

unmarshal_int_meaning_example :
    IntMeaning 1 (2 ^ 63) (unmarshal_int (encode_major_type 1 (2 ^ 63) ++ []))
unmarshal_int_meaning_example = unmarshal_int_meaning 1 (2 ^ 63) [] (omega arith) (omega arith)

-- Half a second before 1970.
abbrev before_epoch : Time
before_epoch = record { sec = 2 ^ 64 - 1; nsec = 500_000_000 }

before_epoch-InRange : InRange before_epoch
before_epoch-InRange = omega arith

-- True, the least int64 and a time.
scalars-RoundTrip_example :
    (Emits {W = Buffer} (encode_bool true) none (write_bool true)
      × Decodes unmarshal_bool true (encode_bool true))
    × (Emits {W = Buffer} (encode_int (2 ^ 63)) none (marshal_int (2 ^ 63))
        × Decodes unmarshal_int (2 ^ 63) (encode_int (2 ^ 63)))
    × (Emits {W = Buffer} (encode_int (unix_nano before_epoch)) none (marshal_time before_epoch)
        × Decodes unmarshal_time before_epoch (encode_int (unix_nano before_epoch)))
scalars-RoundTrip_example =
    scalars-RoundTrip true (2 ^ 63) before_epoch (omega arith) before_epoch-InRange

instance abbrev any_cid : Caster (List ℕ)
any_cid = record { cast = some }

abbrev is_empty : List ℕ → Bool
is_empty [] = true
is_empty (x ∷ xs) = false

instance abbrev cid_writer : CidWriter Buffer (List ℕ)
cid_writer = record {
  is_undef = is_empty;
  byte_len = length;
  write_bytes = write;
  cid_bytes = λ c. c;
  byte_len-cid_bytes = λ c. refl;
  write_bytes-Emits = λ c. Emits-write c;
}

read_cid-encode_cid_example : Decodes read_cid text (encode_cid text)
read_cid-encode_cid_example = read_cid-encode_cid text text (λ e. cc) (omega arith) refl

write_cid-Emits_example :
    Emits {W = Buffer} (encode_cid text) none (write_cid text)
    × Emits {W = Buffer} (encode_cid text) none (write_cid_buf scratch text)
write_cid-Emits_example = write_cid-Emits scratch text (omega arith) refl (omega arith)
