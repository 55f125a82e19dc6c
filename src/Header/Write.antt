-- ===== src/Header/Write.antt =====
-- `WriteMajorTypeHeader`, `WriteMajorTypeHeaderBuf` and `CborWriteHeader` of utils.go.
use cbor_gen.Prelude.{
  ℕ, ◌*◌, ◌%◌, ◌^◌, ◌≤◌, ◌≡◌, arith, List, [], ◌∷◌, bit_or, take, drop, ltb, if◌then◌else◌, none,
  ◌++◌, length, Bool-cases, inl, inr, false, take-append_left,
}
use cbor_gen.Go.{panicked}
use cbor_gen.Go.Words.{put_uint16, put_uint32, put_uint64}
use cbor_gen.Go.Writer.{Writer, Writes, write, abort}
use cbor_gen.Go.Writer.Emits.{Emits, Emits-write}
use cbor_gen.Header.{encode_major_type}

module _ {W : Type 0} ⦃io : Writer W⦄ where
  unfoldable pub write_major_type_header : ℕ → ℕ → Writes W
  unfolding put_uint16 put_uint32 put_uint64
  write_major_type_header t l w =
      if ltb l 24
      then write (bit_or (t * 32 % 256) (l % 256) ∷ []) w
      else if ltb l (2 ^ 8)
      then write (bit_or (t * 32 % 256) 24 ∷ (l % 256) ∷ []) w
      else if ltb l (2 ^ 16)
      then write (bit_or (t * 32 % 256) 25 ∷ put_uint16 (l % 2 ^ 16)) w
      else if ltb l (2 ^ 32)
      then write (bit_or (t * 32 % 256) 26 ∷ put_uint32 (l % 2 ^ 32)) w
      else write (bit_or (t * 32 % 256) 27 ∷ put_uint64 l) w

  -- `CborWriteHeader`
  unfoldable pub cbor_write_header : ℕ → ℕ → Writes W
  unfolding write_major_type_header
  cbor_write_header t l = write_major_type_header t l

  -- `buf[0] = b; PutUintN(buf[1:k], …); w.Write(buf[:k])`, which panics where `buf` is shorter.
  unfoldable pub write_through : List ℕ → List ℕ → Writes W
  write_through buf bytes w =
      if ltb (length buf) (length bytes)
      then abort panicked w
      else write (take (length bytes) (bytes ++ drop (length bytes) buf)) w

  unfoldable pub write_major_type_header_buf : List ℕ → ℕ → ℕ → Writes W
  unfolding put_uint16 put_uint32 put_uint64 write_through
  write_major_type_header_buf buf t l w =
      if ltb l 24
      then write_through buf (bit_or (t * 32 % 256) (l % 256) ∷ []) w
      else if ltb l (2 ^ 8)
      then write_through buf (bit_or (t * 32 % 256) 24 ∷ (l % 256) ∷ []) w
      else if ltb l (2 ^ 16)
      then write_through buf (bit_or (t * 32 % 256) 25 ∷ put_uint16 (l % 2 ^ 16)) w
      else if ltb l (2 ^ 32)
      then write_through buf (bit_or (t * 32 % 256) 26 ∷ put_uint32 (l % 2 ^ 32)) w
      else write_through buf (bit_or (t * 32 % 256) 27 ∷ put_uint64 l) w

  write_major_type_header-write :
      (t l : ℕ) (w : W) → write_major_type_header t l w ≡ write (encode_major_type t l) w
  unfolding write_major_type_header encode_major_type
  write_major_type_header-write t l w = elim (Bool-cases (ltb l 24)) [
    | inl h ↦ rw h
    | inr h ↦ elim (Bool-cases (ltb l (2 ^ 8))) [
      | inl h8 ↦ rw (h, h8)
      | inr h8 ↦ elim (Bool-cases (ltb l (2 ^ 16))) [
        | inl h16 ↦ rw (h, h8, h16)
        | inr h16 ↦ elim (Bool-cases (ltb l (2 ^ 32))) [
          | inl h32 ↦ rw (h, h8, h16, h32)
          | inr h32 ↦ rw (h, h8, h16, h32)
        ]
      ]
    ]
  ]

  write_through-write :
      (buf bytes : List ℕ) (w : W)
      → length bytes ≤ length buf
      → write_through buf bytes w ≡ write bytes w
  unfolding write_through
  write_through-write buf bytes w h =
      let fits : ltb (length buf) (length bytes) ≡ false = ground arith in
      rw (fits, take-append_left)

  write_major_type_header_buf-write :
      (buf : List ℕ) (t l : ℕ) (w : W)
      → 9 ≤ length buf
      → write_major_type_header_buf buf t l w ≡ write (encode_major_type t l) w
  unfolding write_major_type_header_buf encode_major_type
  write_major_type_header_buf-write buf t l w long = elim (Bool-cases (ltb l 24)) [
    | inl h ↦ rw h (write_through-write buf _ w (omega arith))
    | inr h ↦ elim (Bool-cases (ltb l (2 ^ 8))) [
      | inl h8 ↦ rw (h, h8) (write_through-write buf _ w (omega arith))
      | inr h8 ↦ elim (Bool-cases (ltb l (2 ^ 16))) [
        | inl h16 ↦ rw (h, h8, h16) (write_through-write buf _ w (omega arith))
        | inr h16 ↦ elim (Bool-cases (ltb l (2 ^ 32))) [
          | inl h32 ↦ rw (h, h8, h16, h32) (write_through-write buf _ w (omega arith))
          | inr h32 ↦ rw (h, h8, h16, h32) (write_through-write buf _ w (omega arith))
        ]
      ]
    ]
  ]

  pub write_major_type_header-Emits :
      (t l : ℕ) → Emits (encode_major_type t l) none (write_major_type_header t l)
  write_major_type_header-Emits t l w =
      rw (write_major_type_header-write t l w) (Emits-write (encode_major_type t l) w)

  pub write_major_type_header_buf-Emits :
      (buf : List ℕ) (t l : ℕ)
      → 9 ≤ length buf
      → Emits (encode_major_type t l) none (write_major_type_header_buf buf t l)
  write_major_type_header_buf-Emits buf t l h w =
      rw (write_major_type_header_buf-write buf t l w h) (Emits-write (encode_major_type t l) w)

  -- On every writer, both header writers send the encoder's bytes or stop within them at an
  -- error of the writer, and count what was sent; the one through a buffer wants nine bytes of
  -- it.
  pub write_headers-Emits :
      (buf : List ℕ) (t l : ℕ)
      → 9 ≤ length buf
      → Emits (encode_major_type t l) none (write_major_type_header t l)
        × Emits (encode_major_type t l) none (write_major_type_header_buf buf t l)
  write_headers-Emits buf t l h =
      (write_major_type_header-Emits t l, write_major_type_header_buf-Emits buf t l h)

  pub cbor_write_header-Emits :
      (t l : ℕ) → Emits (encode_major_type t l) none (cbor_write_header t l)
  unfolding cbor_write_header
  cbor_write_header-Emits t l w =
      rw (write_major_type_header-write t l w) (Emits-write (encode_major_type t l) w)
