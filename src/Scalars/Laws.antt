-- ===== src/Scalars/Laws.antt =====
-- Booleans and integers: reading and writing against their encodings.
use cbor_gen.Prelude.{
  ℕ, ◌-◌, ◌≤◌, ◌<◌, ◌^◌, ◌≡◌, refl, arith, List, ◌++◌, inl, inr, none, Bool, true, false, ◌⊎◌,
  if◌then◌else◌, ltb, Bool-cases,
}
use cbor_gen.Go.{IsU64, Result, ok, err, int_overflow, expected_int, read_byte}
use cbor_gen.Go.Decodes.{Decodes}
use cbor_gen.Go.Writer.{Writer}
use cbor_gen.Go.Writer.Emits.{Emits, Emits-write}
use cbor_gen.Header.{read_header, read_extra, encode_major_type}
use cbor_gen.Header.RoundTrip.{read_header-encode}
use cbor_gen.Header.Write.{write_major_type_header-Emits}
use cbor_gen.Scalars.{
  encode_bool, unmarshal_bool, write_bool, unmarshal_int, marshal_int, is_negative, negate,
  minus_one,
}

-- The integers, for what a pattern stands for: `negsuc n` is -(n + 1).
pub data ℤ : Type 0 where
  pos : ℕ → ℤ
  negsuc : ℕ → ℤ

abbrev pub signed64 : ℕ → ℤ
signed64 w = if ltb w (2 ^ 63) then pos w else negsuc (2 ^ 64 - 1 - w)

-- The encoding of an integer by its sign.
abbrev pub encode_int : ℕ → List ℕ
encode_int v = if is_negative v then encode_major_type 1 (2 ^ 64 - 1 - v) else encode_major_type 0 v

-- Both booleans come back from their encodings, which are one byte.
pub unmarshal_bool-encode_bool : (b : Bool) → Decodes unmarshal_bool b (encode_bool b)
unfolding unmarshal_bool encode_bool read_header read_byte read_extra
unmarshal_bool-encode_bool true rest = refl
unmarshal_bool-encode_bool false rest = refl

-- Every int64 comes back from its encoding, the least one included.
pub unmarshal_int-encode_int : (v : ℕ) → IsU64 v → Decodes unmarshal_int v (encode_int v)
unfolding unmarshal_int
unmarshal_int-encode_int v h rest =
    ground (arith, read_header-encode 0 v rest, read_header-encode 1 (2 ^ 64 - 1 - v) rest)

-- What a header with major type `t` and number `l` means as an int64.
abbrev pub IntMeaning : ℕ → ℕ → Result ℕ → Type 0
IntMeaning t l (ok v _ _) =
    (((t ≡ 0) × (signed64 v ≡ pos l)) ⊎ ((t ≡ 1) × (signed64 v ≡ negsuc l))) × IsU64 v
IntMeaning t l (err e _ _) =
    ((e ≡ int_overflow) × (t ≤ 1) × (2 ^ 63 ≤ l)) ⊎ ((e ≡ expected_int t) × (1 < t))

-- The integer that `CborInt.UnmarshalCBOR` returns is the one that the header stands for, for a
-- major type below 8 and a uint64 l: l under major type 0 and -1 - l under 1. Only numbers of 2
-- ^ 63 and above are refused as overflow, and other types.
pub unmarshal_int_meaning :
    (t l : ℕ) (rest : List ℕ)
    → t < 8
    → IsU64 l
    → IntMeaning t l (unmarshal_int (encode_major_type t l ++ rest))
unfolding unmarshal_int
unmarshal_int_meaning t l rest ht hl = rw (read_header-encode t l rest ht hl) (ground arith)

module _ {W : Type 0} ⦃io : Writer W⦄ where
  -- On every writer, `CborInt.MarshalCBOR` sends an int64 as its sign's major type with v or -1
  -- - v, or stops within these bytes at an error of the writer; the count is what was sent.
  pub marshal_int-Emits : (v : ℕ) → IsU64 v → Emits {W = W} (encode_int v) none (marshal_int v)
  unfolding marshal_int
  marshal_int-Emits v h w = elim (Bool-cases (is_negative v)) [
    | inl e ↦
        let same : minus_one (negate v) ≡ 2 ^ 64 - 1 - v = ground arith in
        rw (e, same) (write_major_type_header-Emits 1 (2 ^ 64 - 1 - v) w)
    | inr e ↦ rw e (write_major_type_header-Emits 0 v w)
  ]

  pub write_bool-Emits : (b : Bool) → Emits {W = W} (encode_bool b) none (write_bool b)
  unfolding write_bool
  write_bool-Emits b = Emits-write (encode_bool b)
