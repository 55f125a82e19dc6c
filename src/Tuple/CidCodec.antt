-- ===== src/Tuple/CidCodec.antt =====
-- A CID as a field: `emitCborMarshalStructField` and `emitCborUnmarshalStructField` for the type of
-- go-cid, which is a parameter.
use cbor_gen.Prelude.{
  ℕ, ◌≤◌, ◌≡◌, ◌≢◌, ◌∙◌, arith, List, [], length, Bool, Option, none, some, true, false,
}
use cbor_gen.Go.Writer.{Writer, Writes, write}
use cbor_gen.Go.Writer.Emits.{Emits, Emits-write}
use cbor_gen.Scalars.{cbor_null}
use cbor_gen.Cid.{Caster, CidWriter, read_cid, write_cid_buf}
use cbor_gen.Cid.RoundTrip.{encode_cid, write_cid-Emits, read_cid-encode_cid}
use cbor_gen.Tuple.{Codec}
use cbor_gen.Tuple.Marshal.{scratch}

-- What go-cid does on every writer: the same bytes, and the same CIDs undefined, `undef` among them.
pub record CidPackage (C : Type 0) : Type 1 where
  pub caster : Caster C
  pub undef : C
  pub undefined : C → Bool
  pub bytes : C → List ℕ
  pub writer : {W : Type 0} ⦃io : Writer W⦄ → CidWriter W C
  pub writer_undefined :
      {W : Type 0} ⦃io : Writer W⦄ (c : C) → (writer {W = W}).is_undef c ≡ undefined c
  pub writer_bytes : {W : Type 0} ⦃io : Writer W⦄ (c : C) → (writer {W = W}).cid_bytes c ≡ bytes c

module _ {C : Type 0} (lib : CidPackage C) where
  -- A CID that go-cid reads back from its bytes, of the size that `ReadCid` takes.
  pub record IsCid (c : C) : Type 0 where
    pub defined : lib.undefined c ≡ false
    pub some_bytes : lib.bytes c ≢ []
    pub few_bytes : length (lib.bytes c) ≤ 511
    pub cast_back : lib.caster.cast (lib.bytes c) ≡ some c

  -- The field itself, or a pointer to it.
  unfoldable pub marshal_cid_field : {W : Type 0} ⦃io : Writer W⦄ → Option C → Writes W
  unfolding write_cid_buf
  marshal_cid_field none = write cbor_null
  marshal_cid_field (some c) = write_cid_buf ⦃lib = lib.writer⦄ scratch c

  pub cid_field-Emits :
      {W : Type 0} ⦃io : Writer W⦄ (c : C)
      → IsCid c
      → Emits {W = W} (encode_cid (lib.bytes c)) none (marshal_cid_field (some c))
  unfolding marshal_cid_field
  cid_field-Emits {W = W} c v =
      let same = lib.writer_bytes {W = W} c in
      let sends =
        write_cid-Emits ⦃lib = lib.writer {W = W}⦄ scratch c (omega arith)
          (lib.writer_undefined {W = W} c ∙ v.defined)
          (rw same (let h = v.few_bytes in omega arith)) in
      rw same at sends.1

  pub cid_field_nil :
      {W : Type 0} ⦃io : Writer W⦄ → Emits {W = W} cbor_null none (marshal_cid_field none)
  unfolding marshal_cid_field
  cid_field_nil = Emits-write cbor_null

  unfoldable pub cid_codec : Codec
  cid_codec = record {
    Carrier = C;
    initial = lib.undef;
    marshal = marshal_cid_field;
    unmarshal = read_cid ⦃lib = lib.caster⦄;
    IsValid = IsCid;
    encode = λ c. encode_cid (lib.bytes c);
    has_nil = true;
    sends_nil = λ _. cid_field_nil;
    sends = cid_field-Emits;
    decodes = λ c v.
        read_cid-encode_cid ⦃lib = lib.caster⦄ c (lib.bytes c) v.some_bytes v.few_bytes v.cast_back;
  }
