-- ===== src/Deferred/Validated.antt =====
-- `Deferred` beside `ValidateCBOR`.
use cbor_gen.Prelude.{
  ℕ, ◌+◌, ◌<◌, ◌^◌, ◌≡◌, ◌↔◌, ap, subst, ◌∙◌, arith, List, [], length, All, append-nil,
  length-append,
}
use cbor_gen.Go.{IsByte}
use cbor_gen.Item.{Item, encode, Fits}
use cbor_gen.Validate.{validate_cbor, valid}
use cbor_gen.Validate.Ends.{validate_cbor-Answers, Answers as ValidateEnds}
use cbor_gen.Validate.Complete.{validate_cbor_iff, validate_cbor_complete}
use cbor_gen.Deferred.{unmarshal_deferred, copied}
use cbor_gen.Deferred.Ends.{unmarshal_deferred-Answers, Answers as DeferredEnds}
use cbor_gen.Deferred.Copy.{unmarshal_deferred_copies}
use cbor_gen.Deferred.Complete.{unmarshal_deferred_complete}

copied_whole :
    (b : List ℕ)
    → length b < 2 ^ 49
    → (x : Item) × Fits x × (b ≡ encode x)
    → unmarshal_deferred b ≡ copied b (length b) []
copied_whole b hl (x, h, q) =
    let whole = unmarshal_deferred_complete x [] h (subst (λ c. length c < 2 ^ 49) q hl) in
    rw q (rw (append-nil (encode x)) at whole)

-- Kept bytes validate.
pub unmarshal_deferred_validates :
    (br raw rest : List ℕ) (n : ℕ)
    → All IsByte br
    → length br < 2 ^ 49
    → unmarshal_deferred br ≡ copied raw n rest
    → validate_cbor raw ≡ valid
unmarshal_deferred_validates br raw rest n hb hl e =
    let (x, h, q, split, _) = unmarshal_deferred_copies br raw rest n hb hl e in
    let size : length br ≡ length raw + length rest = ap length split ∙ length-append raw rest in
    rw q (validate_cbor_complete x h (omega (arith, ap length q)))

-- On an input of less than 2 ^ 49 bytes, `ValidateCBOR` says yes exactly when
-- `Deferred.UnmarshalCBOR` keeps the whole input, and counts it.
pub validate_cbor-unmarshal_deferred :
    (b : List ℕ)
    → All IsByte b
    → length b < 2 ^ 49
    → (validate_cbor b ≡ valid) ↔ (unmarshal_deferred b ≡ copied b (length b) [])
validate_cbor-unmarshal_deferred b hb hl = (
  (λ v. copied_whole b hl ((validate_cbor_iff b hb hl).0 v)),
  (λ c. unmarshal_deferred_validates b b [] (length b) hb hl c),
)

-- `ValidateCBOR` says yes or returns an error of Go, and `Deferred.UnmarshalCBOR` succeeds or
-- returns an error of Go, on every input of bytes: their loops end, and nothing panics.
pub walks-Answers :
    (b : List ℕ)
    → All IsByte b
    → ValidateEnds (validate_cbor b) × DeferredEnds (unmarshal_deferred b)
walks-Answers b h = (validate_cbor-Answers b h, unmarshal_deferred-Answers b h)
