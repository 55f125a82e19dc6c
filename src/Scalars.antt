-- ===== src/Scalars.antt =====
-- `EncodeBool`, `WriteBool`, `CborBool`, `CborInt` and `CborTime` of utils.go. An int64 is its bit
-- pattern, a number below 2 ^ 64.
pub mod Laws
pub mod Time
use cbor_gen.Prelude.{
  ℕ, ◌+◌, ◌-◌, ◌%◌, ◌^◌, List, [], ◌∷◌, Bool, true, false, ltb, leb, ◌==◌, not, if◌then◌else◌,
}
use cbor_gen.Go.{
  Reads, ◌>>=◌, ◌>>◌, pure, fail, fail_if, expected_bool, bad_bool, int_overflow, expected_int,
}
use cbor_gen.Go.Writer.{Writer, Writes, write}
use cbor_gen.Header.{read_header, maj_other, maj_unsigned_int, maj_negative_int}
use cbor_gen.Header.Write.{write_major_type_header}

abbrev pub cbor_bool_false : List ℕ
cbor_bool_false = 0xf4 ∷ []

abbrev pub cbor_bool_true : List ℕ
cbor_bool_true = 0xf5 ∷ []

abbrev pub cbor_null : List ℕ
cbor_null = 0xf6 ∷ []

unfoldable pub encode_bool : Bool → List ℕ
encode_bool true = cbor_bool_true
encode_bool false = cbor_bool_false

-- `int64(extra) < 0`, and `-v` and `v - 1` on int64.
abbrev pub is_negative : ℕ → Bool
is_negative v = leb (2 ^ 63) v

abbrev pub negate : ℕ → ℕ
negate v = (2 ^ 64 - v) % 2 ^ 64

abbrev pub minus_one : ℕ → ℕ
minus_one v = (v + (2 ^ 64 - 1)) % 2 ^ 64

-- The switch of `CborBool.UnmarshalCBOR`.
unfoldable pub bool_of : ℕ → Reads Bool
bool_of val bs =
    if val == 20 then pure false bs else if val == 21 then pure true bs else fail (bad_bool val) bs

unfoldable pub unmarshal_bool : Reads Bool
unfolding bool_of
unmarshal_bool = do
  (t, val) ← read_header
  fail_if (not (t == maj_other)) expected_bool
  bool_of val

-- The switch of `CborInt.UnmarshalCBOR`, whose `-1 - extraI` is `minus_one (negate extra)`.
unfoldable pub int_of : ℕ → ℕ → Reads ℕ
int_of maj extra bs =
    if maj == maj_unsigned_int
    then (if is_negative extra then fail int_overflow bs else pure extra bs)
    else if maj == maj_negative_int
    then (if is_negative extra then fail int_overflow bs else pure (minus_one (negate extra)) bs)
    else fail (expected_int maj) bs

unfoldable pub unmarshal_int : Reads ℕ
unfolding int_of
unmarshal_int = do (maj, extra) ← read_header; int_of maj extra

module _ {W : Type 0} ⦃io : Writer W⦄ where
  unfoldable pub write_bool : Bool → Writes W
  unfolding encode_bool
  write_bool b = write (encode_bool b)

  unfoldable pub marshal_int : ℕ → Writes W
  marshal_int v w =
      if is_negative v
      then write_major_type_header maj_negative_int (minus_one (negate v)) w
      else write_major_type_header maj_unsigned_int v w
