-- ===== src/Tuple/Widths.antt =====
-- The generator's variable `len` of `emitCborUnmarshalStructTuple`.
use cbor_gen.Prelude.{
  ℕ, ◌%◌, ◌^◌, ◌≤◌, ◌<◌, ◌≡◌, ◌≢◌, arith, List, [], ◌∷◌, ◌++◌, Option, none, length,
}
use cbor_gen.Go.{Result, ok, err, uint_too_large}
use cbor_gen.Header.{encode_major_type}
use cbor_gen.Tuple.{IsNarrow, Width, w8, w64, modulus, Kind, uint, int}
use cbor_gen.Tuple.Fields.{Decodes-header, modulus-le}
use cbor_gen.Tuple.Unmarshal.{
  next_len, field_len, unmarshal_field, unmarshal_uint, unmarshal_int_field, int_field,
}

-- The widths that the integer fields of a struct are tested with, in order.
abbrev pub tested : Option Width → Kind → List Width → List Width
tested len (uint w i) ws = field_len len (uint w i) ∷ ws
tested len (int w) ws = field_len len (int w) ∷ ws
tested len k ws = ws

abbrev pub tested_widths : Option Width → List Kind → List Width
tested_widths len [] = []
tested_widths len (k ∷ ks) = tested len k (tested_widths (next_len len k) ks)

-- What a number `v` comes to in a field of width `w` that is tested with the width `l`.
abbrev pub Stored : Width → Width → ℕ → List ℕ → Result ℕ → Type 0
Stored l w v rest (ok x n br) =
    (v < modulus l) × (x ≡ v % modulus w) × (n ≡ length (encode_major_type 0 v)) × (br ≡ rest)
Stored l w v rest (err e n br) =
    (modulus l ≤ v) × (e ≡ uint_too_large) × (n ≡ length (encode_major_type 0 v)) × (br ≡ rest)

-- In a struct whose first integer field is a signed one, of width `l`, a uint8, uint16 or uint32
-- field behind it is read from the encoding of a uint64 like this: a number of `l` bits is
-- accepted with no error, and what is left of it in the width of the field is kept; a greater
-- number is refused as too large, and no other one. In both cases its header is taken and
-- counted, and what follows is left.
pub uint_behind_int :
    (l w : Width) (i : IsNarrow w) (v : ℕ) (rest : List ℕ)
    → v < 2 ^ 64
    → Stored l w v rest (
        unmarshal_field
          (uint w i)
          (field_len (next_len none (int l)) (uint w i))
          0
          (encode_major_type 0 v ++ rest))
unfolding unmarshal_field unmarshal_uint
uint_behind_int l w i v rest h =
    ground (arith, Decodes-header 0 v (omega arith) h rest, modulus-le l)

-- An int64 of 128 and above that stands behind an int8 does not come back: it is refused, or
-- read as another number.
pub int64_behind_int8 :
    (v n : ℕ) (rest : List ℕ)
    → 128 ≤ v
    → v < 2 ^ 63
    → unmarshal_int_field
        (field_len (next_len none (int w8)) (int w64))
        w64
        (encode_major_type 0 v ++ rest)
      ≢ ok v n rest
unfolding unmarshal_int_field int_field
int64_behind_int8 v n rest lo hi e =
    ground (arith, Decodes-header 0 v (omega arith) (omega arith) rest)
