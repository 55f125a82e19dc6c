-- ===== src/Strings/Accepts.antt =====
-- What the string readers accept.
use cbor_gen.Prelude.{
  ℕ, ◌+◌, ◌≤◌, ◌≡◌, ◌↔◌, sym, arith, List, ◌++◌, length, All, All-append_right, length-append,
  append_assoc, inl, inr, ◌∙◌,
}
use cbor_gen.Go.{IsByte, ok, read_full}
use cbor_gen.Go.Counted.{read_full_ok}
use cbor_gen.Header.{read_header, encode_major_type, maj_byte_string, maj_text_string, maj_tag}
use cbor_gen.Header.Canonical.{read_header_canonical, Result-cases}
use cbor_gen.Header.Scratch.{read_header_buf-read_header}
use cbor_gen.Strings.{
  max_length, read_new, read_byte_array, read_tagged_byte_array, read_string, read_string_buf,
}
use cbor_gen.Strings.RoundTrip.{encode_string, read_strings-encode}

read_new_ok :
    (k n : ℕ) (bs s rest : List ℕ)
    → read_new k bs ≡ ok s n rest
    → (bs ≡ s ++ rest) × (length s ≡ k) × (n ≡ k)
unfolding read_new
read_new_ok k n bs s rest e = elim (Result-cases (read_full k bs)) [
  | inl (xs, m, r, f) ↦ let (a, b, c) = read_full_ok k bs f in ground arith
  | inr (x, m, r, f) ↦ ground arith
]

-- The header and the body of an accepted string.
join_string :
    (maj k m n : ℕ) (bs s mid rest : List ℕ)
    → bs ≡ encode_major_type maj k ++ mid
    → n ≡ length (encode_major_type maj k)
    → (mid ≡ s ++ rest) × (length s ≡ k) × (m ≡ k)
    → (bs ≡ encode_string maj s ++ rest) × (n + m ≡ length (encode_string maj s))
join_string maj k m n bs s mid rest e c (f, g, h) = (
  e ∙ rw (f, g, append_assoc),
  rw g (omega (arith, c, h, g, length-append (encode_major_type maj k) s)),
)

-- What `ReadByteArray` accepts, in an input of bytes, is a byte string of at most `maxlen` bytes
-- in its one encoding, and the count is that encoding's length.
pub read_byte_array_ok :
    (maxlen n : ℕ) (bs s rest : List ℕ)
    → All IsByte bs
    → read_byte_array maxlen bs ≡ ok s n rest
    → (bs ≡ encode_string maj_byte_string s ++ rest)
      × (n ≡ length (encode_string maj_byte_string s))
      × (length s ≤ maxlen)
unfolding read_byte_array
read_byte_array_ok maxlen n bs s rest h e = elim (Result-cases (read_header bs)) [
  | inl ((maj, extra), m, mid, f) ↦ elim (Result-cases (read_new extra mid)) [
    | inl (xs, k, r, g) ↦
        let (split, count, small, wide) = read_header_canonical maj extra m bs mid h f in
        let body = read_new_ok extra k mid xs r g in
        let (whole, total) = join_string maj extra k m bs xs mid r split count body in ground arith
    | inr (x, k, r, g) ↦ ground arith
  ]
  | inr (x, m, mid, f) ↦ ground arith
]

-- What `ReadString` accepts, in an input of bytes, is a text string of at most 8192 bytes in its
-- one encoding, and the count is that encoding's length.
pub read_string_ok :
    (n : ℕ) (bs s rest : List ℕ)
    → All IsByte bs
    → read_string bs ≡ ok s n rest
    → (bs ≡ encode_string maj_text_string s ++ rest)
      × (n ≡ length (encode_string maj_text_string s))
      × (length s ≤ max_length)
unfolding read_string
read_string_ok n bs s rest h e = elim (Result-cases (read_header bs)) [
  | inl ((maj, extra), m, mid, f) ↦ elim (Result-cases (read_new extra mid)) [
    | inl (xs, k, r, g) ↦
        let (split, count, small, wide) = read_header_canonical maj extra m bs mid h f in
        let body = read_new_ok extra k mid xs r g in
        let (whole, total) = join_string maj extra k m bs xs mid r split count body in ground arith
    | inr (x, k, r, g) ↦ ground arith
  ]
  | inr (x, m, mid, f) ↦ ground arith
]

-- The two text readers agree, given eight bytes of scratch.
pub read_string_buf-read_string :
    (size : ℕ) (bs : List ℕ) → 8 ≤ size → read_string_buf size bs ≡ read_string bs
unfolding read_string_buf read_string
read_string_buf-read_string size bs h = rw (read_header_buf-read_header size bs h)

-- On an input of bytes, `ReadString`, and with eight bytes of scratch `ReadStringBuf`, return a
-- string, a count and the rest exactly where the input is the one encoding of that text string,
-- of at most 8192 bytes, in front of that rest, and the count is the length of the encoding.
pub read_strings_iff :
    (size n : ℕ) (bs s rest : List ℕ)
    → 8 ≤ size
    → All IsByte bs
    → let read =
        (bs ≡ encode_string maj_text_string s ++ rest)
        × (n ≡ length (encode_string maj_text_string s))
        × (length s ≤ max_length) in
      ((read_string bs ≡ ok s n rest) ↔ read) × ((read_string_buf size bs ≡ ok s n rest) ↔ read)
read_strings_iff size n bs s rest hs hb =
    let plain = λ (bs' : List ℕ). read_string_buf-read_string size bs' hs in
    let complete : (bs ≡ encode_string maj_text_string s ++ rest)
          × (n ≡ length (encode_string maj_text_string s))
          × (length s ≤ max_length)
        → read_string bs ≡ ok s n rest =
      λ r. rw (r.0, r.1) ((read_strings-encode size s hs r.2).0 rest) in
    (
      (read_string_ok n bs s rest hb, complete),
      ((λ e. read_string_ok n bs s rest hb (sym (plain bs) ∙ e)), (λ r. plain bs ∙ complete r)),
    )

-- What `ReadTaggedByteArray` accepts, in an input of bytes, is the tag asked for and a byte
-- string of at most `maxlen` bytes, each in its one encoding, and the count is the length of
-- both.
pub read_tagged_byte_array_ok :
    (exptag maxlen n : ℕ) (bs s rest : List ℕ)
    → All IsByte bs
    → read_tagged_byte_array exptag maxlen bs ≡ ok s n rest
    → let enc = encode_major_type maj_tag exptag ++ encode_string maj_byte_string s in
      (bs ≡ enc ++ rest) × (n ≡ length enc) × (length s ≤ maxlen)
unfolding read_tagged_byte_array
read_tagged_byte_array_ok exptag maxlen n bs s rest h e = elim (Result-cases (read_header bs)) [
  | inl ((maj, extra), m, mid, f) ↦ elim (Result-cases (read_byte_array maxlen mid)) [
    | inl (xs, k, r, g) ↦
        let (split, count, small, wide) = read_header_canonical maj extra m bs mid h f in
        let later : All IsByte mid =
          All-append_right IsByte (encode_major_type maj extra) mid (rw split at h) in
        let (bsplit, bcount, fits) = read_byte_array_ok maxlen k mid xs r later g in
        ground (
          arith,
          length-append (encode_major_type 6 exptag) (encode_string 2 s),
          append_assoc (encode_major_type 6 exptag) (encode_string 2 s) rest,
        )
    | inr (x, k, r, g) ↦ ground arith
  ]
  | inr (x, m, mid, f) ↦ ground arith
]
