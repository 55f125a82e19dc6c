-- ===== src/Tuple/Fields.antt =====
-- The readers of the single fields on the encodings of their values.
use cbor_gen.Prelude.{
  ℕ, ◌^◌, ◌-◌, ◌%◌, ◌≤◌, ◌<◌, ◌≡◌, ◌∙◌, refl, arith, List, ◌++◌, Bool, true, false,
}
use cbor_gen.Go.{ok}
use cbor_gen.Go.Decodes.{Decodes}
use cbor_gen.Header.{encode_major_type}
use cbor_gen.Header.RoundTrip.{read_header-encode}
use cbor_gen.Header.Scratch.{read_header_buf-read_header}
use cbor_gen.Scalars.{encode_bool}
use cbor_gen.Tuple.{Width, w8, w16, w32, w64, modulus, half}
use cbor_gen.Tuple.Encode.{encode_signed}
use cbor_gen.Tuple.Unmarshal.{
  next_header, unmarshal_uint64, unmarshal_uint, int_field, unmarshal_int_field,
  unmarshal_bool_field,
}

pub modulus-le : (w : Width) → modulus w ≤ 2 ^ 64
modulus-le w8 = omega arith
modulus-le w16 = omega arith
modulus-le w32 = omega arith
modulus-le w64 = omega arith

pub Decodes-header :
    (t l : ℕ) → t < 8 → l < 2 ^ 64 → Decodes next_header (t, l) (encode_major_type t l)
Decodes-header t l ht hl rest =
    read_header_buf-read_header 8 (encode_major_type t l ++ rest) (omega arith)
    ∙ read_header-encode t l rest ht hl

pub Decodes-uint64 : (v : ℕ) → v < 2 ^ 64 → Decodes unmarshal_uint64 v (encode_major_type 0 v)
unfolding unmarshal_uint64
Decodes-uint64 v h rest = ground (arith, Decodes-header 0 v (omega arith) h rest)

pub Decodes-uint :
    (len w : Width) (v : ℕ)
    → modulus w ≤ modulus len
    → v < modulus w
    → Decodes (unmarshal_uint len w) v (encode_major_type 0 v)
unfolding unmarshal_uint
Decodes-uint len w v wide h rest =
    let small : v % modulus w ≡ v = grind arith in
    ground (arith, Decodes-header 0 v (omega arith) (omega (arith, modulus-le w)) rest)

-- A value of width `w`, read at width `len`.
int_field_wide :
    (len w : Width) (v : ℕ) (rest : List ℕ)
    → modulus w ≤ modulus len
    → v < modulus w
    → (v < half w → int_field len w 0 v rest ≡ ok v 0 rest)
      × (half w ≤ v → int_field len w 1 (modulus w - 1 - v) rest ≡ ok v 0 rest)
unfolding int_field
int_field_wide w8 w8 v rest wide h = (λ p. ground arith, λ p. ground arith)
int_field_wide w8 w16 v rest wide h = absurd (omega arith)
int_field_wide w8 w32 v rest wide h = absurd (omega arith)
int_field_wide w8 w64 v rest wide h = absurd (omega arith)
int_field_wide w16 w8 v rest wide h = (λ p. ground arith, λ p. ground arith)
int_field_wide w16 w16 v rest wide h = (λ p. ground arith, λ p. ground arith)
int_field_wide w16 w32 v rest wide h = absurd (omega arith)
int_field_wide w16 w64 v rest wide h = absurd (omega arith)
int_field_wide w32 w8 v rest wide h = (λ p. ground arith, λ p. ground arith)
int_field_wide w32 w16 v rest wide h = (λ p. ground arith, λ p. ground arith)
int_field_wide w32 w32 v rest wide h = (λ p. ground arith, λ p. ground arith)
int_field_wide w32 w64 v rest wide h = absurd (omega arith)
int_field_wide w64 w8 v rest wide h = (λ p. ground arith, λ p. ground arith)
int_field_wide w64 w16 v rest wide h = (λ p. ground arith, λ p. ground arith)
int_field_wide w64 w32 v rest wide h = (λ p. ground arith, λ p. ground arith)
int_field_wide w64 w64 v rest wide h = (λ p. ground arith, λ p. ground arith)

pub Decodes-int :
    (len w : Width) (v : ℕ)
    → modulus w ≤ modulus len
    → v < modulus w
    → Decodes (unmarshal_int_field len w) v (encode_signed w v)
unfolding unmarshal_int_field
Decodes-int len w v wide h rest =
    let (up, down) = int_field_wide len w v rest wide h in
    ground (
      arith,
      modulus-le w,
      Decodes-header 0 v (omega arith) (omega (arith, modulus-le w)) rest,
      Decodes-header 1 (modulus w - 1 - v) (omega arith) (omega (arith, modulus-le w)) rest,
    )

header_of_true : encode_bool true ≡ encode_major_type 7 21
unfolding encode_bool encode_major_type
header_of_true = refl

header_of_false : encode_bool false ≡ encode_major_type 7 20
unfolding encode_bool encode_major_type
header_of_false = refl

pub Decodes-bool : (b : Bool) → Decodes unmarshal_bool_field b (encode_bool b)
unfolding unmarshal_bool_field
Decodes-bool true rest =
    rw header_of_true (ground (arith, Decodes-header 7 21 (omega arith) (omega arith) rest))
Decodes-bool false rest =
    rw header_of_false (ground (arith, Decodes-header 7 20 (omega arith) (omega arith) rest))
