-- ===== src/Cid/RoundTrip.antt =====
-- `read_cid` and the writers of CIDs, against the encoding of a CID: tag 42 and a byte string whose
-- first byte is the multibase prefix 0.
use cbor_gen.Prelude.{
  ℕ, ◌+◌, ◌^◌, ◌≤◌, ◌<◌, ◌≡◌, ◌≢◌, refl, subst, arith, suc, List, [], ◌∷◌, ◌++◌, length, true,
  false, some, none, append-nil,
}
use cbor_gen.Go.{undefined_cid}
use cbor_gen.Go.Decodes.{Decodes}
use cbor_gen.Go.Writer.{Writer, Writes, write, ◌>>◌}
use cbor_gen.Go.Writer.Emits.{Emits, Emits-write, Emits-seq, Emits-guard, Emits-stop}
use cbor_gen.Header.{encode_major_type, maj_tag, maj_byte_string}
use cbor_gen.Header.Write.{
  write_major_type_header, write_major_type_header_buf, write_major_type_header-Emits,
  write_major_type_header_buf-Emits,
}
use cbor_gen.Strings.RoundTrip.{encode_string, read_tagged_byte_array-encode}
use cbor_gen.Cid.{Caster, CidWriter, read_cid, write_cid, write_cid_buf, cid_length}

-- The encoding of a CID from its binary form.
abbrev pub encode_cid : List ℕ → List ℕ
encode_cid bytes = encode_major_type maj_tag 42 ++ encode_string maj_byte_string (0 ∷ bytes)

module _ {C : Type 0} ⦃lib : Caster C⦄ where
  -- From the encoding of 1 to 511 bytes that go-cid casts to a CID, `ReadCid` returns that CID.
  pub read_cid-encode_cid :
      (c : C) (bytes : List ℕ)
      → bytes ≢ []
      → length bytes ≤ 511
      → lib.cast bytes ≡ some c
      → Decodes read_cid c (encode_cid bytes)
  unfolding read_cid
  read_cid-encode_cid c [] ne h e rest = absurd (ne refl)
  read_cid-encode_cid c (x ∷ xs) ne h e rest =
      rw
        (
          read_tagged_byte_array-encode 42 512 (0 ∷ x ∷ xs) (omega arith) (omega arith)
              (omega arith) rest,
          e,
        )
        (ground arith)

module _ {W C : Type 0} ⦃io : Writer W⦄ ⦃lib : CidWriter W C⦄ where
  -- Everything behind the tag, for either header writer `head`.
  Emits-body :
      (head : ℕ → Writes W)
      → ((l : ℕ) → Emits (encode_major_type maj_byte_string l) none (head l))
      → (c : C) → length (lib.cid_bytes c) + 1 < 2 ^ 64
      → Emits
          (encode_string maj_byte_string (0 ∷ lib.cid_bytes c))
          none
          (head (cid_length (lib.byte_len c)) >> (write (0 ∷ []) >> lib.write_bytes c))
  Emits-body head he c fits =
      let n : ℕ = suc (length (lib.cid_bytes c)) in
      let len : cid_length (lib.byte_len c) ≡ n = omega (arith, lib.byte_len-cid_bytes c) in
      rw len (
        Emits-seq (encode_major_type 2 n) (0 ∷ lib.cid_bytes c) none (head n)
          (write (0 ∷ []) >> lib.write_bytes c) (he n)
          (Emits-seq (0 ∷ []) (lib.cid_bytes c) none (write (0 ∷ [])) (lib.write_bytes c)
            (Emits-write (0 ∷ [])) (lib.write_bytes-Emits c)))

  -- A defined CID, whose binary form has a length that fits, is sent as tag 42 and a byte string
  -- of zero and its binary form, by `WriteCidBuf` with nine bytes of scratch or more and by
  -- `WriteCid`, or the sending stops within these bytes at an error of the writer.
  pub write_cid-Emits :
      (buf : List ℕ) (c : C)
      → 9 ≤ length buf
      → lib.is_undef c ≡ false
      → length (lib.cid_bytes c) + 1 < 2 ^ 64
      → Emits {W = W} (encode_cid (lib.cid_bytes c)) none (write_cid c)
        × Emits {W = W} (encode_cid (lib.cid_bytes c)) none (write_cid_buf buf c)
  unfolding write_cid write_cid_buf
  write_cid-Emits buf c long h fits =
      let enc : List ℕ = encode_string maj_byte_string (0 ∷ lib.cid_bytes c) in
      (
        Emits-seq (encode_major_type 6 42) enc none (write_major_type_header 6 42) _
            (write_major_type_header-Emits 6 42)
            (Emits-guard enc (lib.is_undef c) undefined_cid _ h
              (Emits-body (write_major_type_header 2) (write_major_type_header-Emits 2) c fits)),
        Emits-seq (encode_major_type 6 42) enc none (write_major_type_header_buf buf 6 42) _
            (write_major_type_header_buf-Emits buf 6 42 long)
            (Emits-guard enc (lib.is_undef c) undefined_cid _ h (
              Emits-body (write_major_type_header_buf buf 2)
                (λ l. write_major_type_header_buf-Emits buf 2 l long) c fits)),
      )

  -- The undefined CID is refused after the tag has been sent (if the writer took that).
  pub write_cid_undef :
      (c : C)
      → lib.is_undef c ≡ true
      → Emits {W = W} (encode_major_type maj_tag 42) (some undefined_cid) (write_cid c)
  unfolding write_cid
  write_cid_undef c h =
      subst (λ bs. Emits {W = W} bs (some undefined_cid) (write_cid c))
        (append-nil (encode_major_type 6 42))
        (Emits-seq (encode_major_type 6 42) [] (some undefined_cid) (write_major_type_header 6 42) _
          (write_major_type_header-Emits 6 42)
          (Emits-stop (lib.is_undef c) undefined_cid
            (write_major_type_header 2 (cid_length (lib.byte_len c))
              >> (write (0 ∷ []) >> lib.write_bytes c))
            h))
