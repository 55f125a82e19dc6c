-- ===== src/Strings/RoundTrip.antt =====
-- The string readers on a header followed by the bytes that it announces.
use cbor_gen.Prelude.{ℕ, ◌<◌, ◌≤◌, ◌≡◌, arith, List, ◌++◌, length, length-append, append_assoc}
use cbor_gen.Go.{IsU64, ok}
use cbor_gen.Go.Decodes.{Decodes}
use cbor_gen.Header.{read_header, encode_major_type, maj_byte_string, maj_text_string, maj_tag}
use cbor_gen.Go.Counted.{read_full-append}
use cbor_gen.Header.RoundTrip.{read_header-encode}
use cbor_gen.Header.Scratch.{read_header_buf-read_header}
use cbor_gen.Strings.{
  max_length, max_alloc, read_new, read_byte_array, read_tagged_byte_array, read_string,
  read_string_buf,
}

-- A byte string and a text string as they are written.
abbrev pub encode_string : ℕ → List ℕ → List ℕ
encode_string maj s = encode_major_type maj (length s) ++ s

pub read_new-append :
    (s rest : List ℕ)
    → length s ≤ max_alloc
    → read_new (length s) (s ++ rest) ≡ ok s (length s) rest
unfolding read_new
read_new-append s rest h = ground (arith, read_full-append s rest)

read_header-encode_string :
    (maj : ℕ) (s rest : List ℕ)
    → maj < 8
    → length s ≤ max_alloc
    → read_header (encode_string maj s ++ rest)
      ≡ ok (maj, length s) (length (encode_major_type maj (length s))) (s ++ rest)
read_header-encode_string maj s rest hm h =
    rw append_assoc (read_header-encode maj (length s) (s ++ rest) hm (omega arith))

-- `ReadByteArray` returns the bytes of any byte string up to `maxlen`, where that can be
-- allocated, and takes just the string.
pub read_byte_array-encode :
    (maxlen : ℕ) (s : List ℕ)
    → length s ≤ maxlen
    → maxlen ≤ max_alloc
    → Decodes (read_byte_array maxlen) s (encode_string maj_byte_string s)
unfolding read_byte_array
read_byte_array-encode maxlen s h ha rest = ground (
  arith,
  read_header-encode_string 2 s rest,
  read_new-append s rest,
  length-append (encode_major_type 2 (length s)) s,
)

-- `ReadTaggedByteArray` returns the bytes of any byte string up to `maxlen`, where that can be
-- allocated, behind the tag asked for, and takes just the tag and the string.
pub read_tagged_byte_array-encode :
    (exptag maxlen : ℕ) (s : List ℕ)
    → IsU64 exptag
    → length s ≤ maxlen
    → maxlen ≤ max_alloc
    → Decodes
        (read_tagged_byte_array exptag maxlen)
        s
        (encode_major_type maj_tag exptag ++ encode_string maj_byte_string s)
unfolding read_tagged_byte_array
read_tagged_byte_array-encode exptag maxlen s ht h ha rest =
    let enc : List ℕ = encode_string maj_byte_string s in
    rw append_assoc (
      ground (
        arith,
        read_header-encode 6 exptag (enc ++ rest),
        read_byte_array-encode maxlen s h ha rest,
        length-append (encode_major_type 6 exptag) enc,
      ))

-- `ReadString` and, given eight bytes of scratch, `ReadStringBuf` return any text string up to
-- 8192 bytes, and take just the string.
pub read_strings-encode :
    (size : ℕ) (s : List ℕ)
    → 8 ≤ size
    → length s ≤ max_length
    → Decodes read_string s (encode_string maj_text_string s)
      × Decodes (read_string_buf size) s (encode_string maj_text_string s)
unfolding read_string read_string_buf
read_strings-encode size s hs h = (
  λ rest. ground (
    arith,
    read_header-encode_string 3 s rest,
    read_new-append s rest,
    length-append (encode_major_type 3 (length s)) s,
  ),
  λ rest. ground (
    arith,
    read_header_buf-read_header size (encode_string 3 s ++ rest) hs,
    read_header-encode_string 3 s rest,
    read_new-append s rest,
    length-append (encode_major_type 3 (length s)) s,
  ),
)
