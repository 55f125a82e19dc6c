-- ===== src/Validate/Complete.antt =====
-- `validate_cbor` on the encoding of an item.
use cbor_gen.Prelude.{
  ℕ, zero, suc, ◌+◌, ◌*◌, ◌≤◌, ◌<◌, ◌^◌, ◌≡◌, refl, ap, ◌∙◌, arith, List, [], ◌∷◌, ◌++◌, length,
  All, append-nil, append_assoc, ◌↔◌, ◌==◌, false, drop, length-append,
}
use cbor_gen.Go.{ok, IsByte}
use cbor_gen.Header.{read_header, encode_major_type}
use cbor_gen.Header.RoundTrip.{read_header-encode}
use cbor_gen.Header.Canonical.{length-encode_pos}
use cbor_gen.Header.Scratch.{read_header_buf-read_header}
use cbor_gen.Item.{Item, Items, nil, cons, count_items, encode, encode_items, Fits, FitsAll}
use cbor_gen.Item.Forest.{opened, pending, body_length, limit, opened-Opens}
use cbor_gen.Item.Close.{opened-Fits, pending-le}
use cbor_gen.Validate.{
  valid, more, validate_item, validate_end, validate_loop, validate_cbor, decrement,
}
use cbor_gen.Validate.Sound.{validate_cbor_sound}

pub drop-append : (s br : List ℕ) → drop (length s) (s ++ br) ≡ br
drop-append [] br = refl
drop-append (x ∷ s) br = drop-append s br

-- A round's body on a header within its limit with the bytes that belong to it.
validate_item_goes :
    (maj extra r : ℕ) (s br : List ℕ)
    → maj < 8
    → length s ≡ body_length maj extra
    → extra ≤ limit maj
    → r + 16384 < 2 ^ 64
    → validate_item maj extra r (s ++ br) ≡ more (r + pending maj extra) br
unfolding validate_item
validate_item_goes zero extra r [] br hm hs hx hr = ground arith
validate_item_goes zero extra r (x ∷ s) br hm hs hx hr = absurd (omega arith)
validate_item_goes (suc zero) extra r [] br hm hs hx hr = ground arith
validate_item_goes (suc zero) extra r (x ∷ s) br hm hs hx hr = absurd (omega arith)
validate_item_goes (suc (suc zero)) extra r s br hm hs hx hr =
    ground (arith, length-append s br, drop-append s br)
validate_item_goes (suc (suc (suc zero))) extra r s br hm hs hx hr =
    ground (arith, length-append s br, drop-append s br)
validate_item_goes (suc (suc (suc (suc zero)))) extra r [] br hm hs hx hr = ground arith
validate_item_goes (suc (suc (suc (suc zero)))) extra r (x ∷ s) br hm hs hx hr =
    absurd (omega arith)
validate_item_goes (suc (suc (suc (suc (suc zero))))) extra r [] br hm hs hx hr = ground arith
validate_item_goes (suc (suc (suc (suc (suc zero))))) extra r (x ∷ s) br hm hs hx hr =
    absurd (omega arith)
validate_item_goes (suc (suc (suc (suc (suc (suc zero)))))) extra r [] br hm hs hx hr = ground arith
validate_item_goes (suc (suc (suc (suc (suc (suc zero)))))) extra r (x ∷ s) br hm hs hx hr =
    absurd (omega arith)
validate_item_goes (suc (suc (suc (suc (suc (suc (suc zero))))))) extra r [] br hm hs hx hr =
    ground arith
validate_item_goes (suc (suc (suc (suc (suc (suc (suc zero))))))) extra r (x ∷ s) br hm hs hx hr =
    absurd (omega arith)
validate_item_goes (suc (suc (suc (suc (suc (suc (suc (suc m)))))))) extra r s br hm hs hx hr =
    absurd (omega arith)

limit-IsU64 : (maj extra : ℕ) → extra ≤ limit maj → extra < 2 ^ 64
limit-IsU64 maj extra h = ground arith

-- The first header of a forest, read by the code, whatever follows the forest.
pub read_first :
    (x : Item) (zs : Items) (rest : List ℕ)
    → FitsAll (cons x zs)
    → let o = opened x zs in
      read_header (encode_items (cons x zs) ++ rest)
      ≡ ok
          (o.maj, o.extra)
          (length (encode_major_type o.maj o.extra))
          (o.body ++ (encode_items o.rest ++ rest))
unfolding FitsAll
read_first x zs rest h =
    let o = opened x zs in
    let q = opened-Opens x zs in
    let fit = (opened-Fits x zs).0 h in
    let later : List ℕ = o.body ++ (encode_items o.rest ++ rest) in
    let split : encode_items (cons x zs) ++ rest ≡ encode_major_type o.maj o.extra ++ later =
      rw q.bytes (simp append_assoc) in
    ap read_header split
    ∙ read_header-encode o.maj o.extra later q.known (limit-IsU64 o.maj o.extra fit.0)

-- The bytes of a forest are more than those behind its first header.
pub rest_shorter :
    (x : Item) (zs : Items)
    → let o = opened x zs in length (encode_items o.rest) < length (encode_items (cons x zs))
rest_shorter x zs =
    let o = opened x zs in
    let q = opened-Opens x zs in
    let enc : List ℕ = encode_major_type o.maj o.extra in
    let pos : 1 ≤ length enc = length-encode_pos o.maj o.extra in
    omega (
      arith,
      ap length q.bytes,
      length-append enc (o.body ++ encode_items o.rest),
      length-append o.body (encode_items o.rest),
    )

validate_end_nil : validate_end (encode_items nil) ≡ valid
unfolding validate_end encode_items
validate_end_nil = refl

validate_loop_complete :
    (fuel : ℕ) (xs : Items)
    → FitsAll xs
    → count_items xs + 16384 * length (encode_items xs) < 2 ^ 64
    → length (encode_items xs) < fuel
    → validate_loop fuel (count_items xs) (encode_items xs) ≡ valid
unfolding validate_loop
validate_loop_complete zero xs h hr hf = absurd (omega arith)
validate_loop_complete (suc fuel) nil h hr hf = validate_end_nil
validate_loop_complete (suc fuel) (cons x zs) h hr hf =
    let o = opened x zs in
    let q = opened-Opens x zs in
    let fit = (opened-Fits x zs).0 (unfold FitsAll in h) in
    let r : ℕ = suc (count_items zs) in
    let go : (r == 0) ≡ false = ground arith in
    let first =
      read_header_buf-read_header 9 (encode_items (cons x zs)) (omega arith)
      ∙ (simp append-nil at (read_first x zs [] h)) in
    let less = rest_shorter x zs in
    let few : pending o.maj o.extra ≤ 16384 = pending-le o.maj o.extra fit.0 in
    let item =
      validate_item_goes o.maj o.extra r o.body (encode_items o.rest) q.known q.body_fits fit.0
        (omega arith) in
    let dec : decrement (r + pending o.maj o.extra) ≡ count_items o.rest =
      omega (arith, q.announced) in
    rw (go, first, item, dec)
      (validate_loop_complete fuel o.rest fit.1 (omega (arith, q.announced)) (omega arith))

-- The encoding of an item within the limits is accepted, if it is shorter than 2 ^ 49 bytes.
pub validate_cbor_complete :
    (x : Item) → Fits x → length (encode x) < 2 ^ 49 → validate_cbor (encode x) ≡ valid
unfolding validate_cbor
validate_cbor_complete x h hl =
    let one : encode_items (cons x nil) ≡ encode x = unfold encode_items in append-nil (encode x) in
    rw one at (
      validate_loop_complete (suc (length (encode x))) (cons x nil) (unfold FitsAll in (h, tt))
        (omega (arith, ap length one)) (omega (arith, ap length one)))

-- On an input of less than 2 ^ 49 bytes, `ValidateCBOR` says yes exactly to the encodings of
-- single CBOR items whose strings and collections are within its limits.
pub validate_cbor_iff :
    (b : List ℕ)
    → All IsByte b
    → length b < 2 ^ 49
    → (validate_cbor b ≡ valid) ↔ ((x : Item) × Fits x × (b ≡ encode x))
validate_cbor_iff b hb hl =
    (validate_cbor_sound b hb hl, λ t. rw t.2 (validate_cbor_complete t.0 t.1 (rw t.2 at hl)))
