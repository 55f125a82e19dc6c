-- ===== src/Cid.antt =====
-- CIDs: `bufToCid`, `ReadCid`, `WriteCid` and `WriteCidBuf` of utils.go, and `CborCid` of
-- cbor_cid.go. The package go-cid is a parameter: its `Cast`, `ByteLen`, `WriteBytes` and `Undef`.
pub mod RoundTrip
use cbor_gen.Prelude.{
  ℕ, ◌+◌, ◌%◌, ◌^◌, ◌≡◌, if◌then◌else◌, List, [], ◌∷◌, length, Bool, Option, none, some, ◌==◌, not,
}
use cbor_gen.Go.{Reads, ◌>>=◌, pure, fail, undefined_cid, short_cid, bad_multibase, cid_cast}
use cbor_gen.Go.Writer.{Writer, Writes, write, abort_if, ◌>>◌}
use cbor_gen.Go.Writer.Emits.{Emits}
use cbor_gen.Header.{maj_tag, maj_byte_string}
use cbor_gen.Header.Write.{write_major_type_header, write_major_type_header_buf}
use cbor_gen.Strings.{read_tagged_byte_array}

-- What the readers call: `cid.Cast`, which is `none` on its error.
pub record Caster (C : Type 0) : Type 0 where
  pub cast : List ℕ → Option C

module _ {C : Type 0} ⦃lib : Caster C⦄ where
  -- `return cid.Cast(buf[1:])`
  unfoldable pub cast_to : Option C → Reads C
  cast_to none = fail cid_cast
  cast_to (some c) = pure c

  unfoldable pub buf_to_cid : List ℕ → Reads C
  unfolding cast_to
  buf_to_cid [] = fail undefined_cid
  buf_to_cid (b ∷ []) = fail short_cid
  buf_to_cid (b ∷ x ∷ xs) = if not (b == 0) then fail bad_multibase else cast_to (lib.cast (x ∷ xs))

  unfoldable pub read_cid : Reads C
  unfolding read_tagged_byte_array buf_to_cid
  read_cid = do buf ← read_tagged_byte_array 42 512; buf_to_cid buf

  -- `CborCid.UnmarshalCBOR`, which returns 0 on an error.
  unfoldable pub unmarshal_cid : Reads C
  unfolding read_cid
  unmarshal_cid = do c ← read_cid; pure c

-- What the writers call. `cid_bytes` is the binary form that `ByteLen` measures and `WriteBytes`
-- writes: it appears in laws only.
pub record CidWriter (W C : Type 0) ⦃io : Writer W⦄ : Type 0 where
  pub is_undef : C → Bool
  pub byte_len : C → ℕ
  pub write_bytes : C → Writes W
  pub cid_bytes : C → List ℕ
  pub byte_len-cid_bytes : (c : C) → byte_len c ≡ length (cid_bytes c)
  pub write_bytes-Emits : (c : C) → Emits {W = W} (cid_bytes c) none (write_bytes c)

-- `uint64(c.ByteLen()+1)`
abbrev pub cid_length : ℕ → ℕ
cid_length n = (n + 1) % 2 ^ 64

module _ {W C : Type 0} ⦃io : Writer W⦄ ⦃lib : CidWriter W C⦄ where
  unfoldable pub write_cid : C → Writes W
  write_cid c = do
    write_major_type_header maj_tag 42
    abort_if (lib.is_undef c) undefined_cid
    write_major_type_header maj_byte_string (cid_length (lib.byte_len c))
    write (0 ∷ [])
    lib.write_bytes c

  unfoldable pub write_cid_buf : List ℕ → C → Writes W
  write_cid_buf buf c = do
    write_major_type_header_buf buf maj_tag 42
    abort_if (lib.is_undef c) undefined_cid
    write_major_type_header_buf buf maj_byte_string (cid_length (lib.byte_len c))
    write (0 ∷ [])
    lib.write_bytes c

  -- `CborCid.MarshalCBOR`
  unfoldable pub marshal_cid : C → Writes W
  unfolding write_cid
  marshal_cid = write_cid
