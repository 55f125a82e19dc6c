-- ===== src/Validate/Ends.antt =====
-- The loop of `validate_cbor`, and what its rounds leave in the reader.
use cbor_gen.Prelude.{
  true, ℕ, zero, suc, ◌+◌, ◌≤◌, ◌<◌, ◌≡◌, refl, ap, ◌∙◌, arith, List, [], ◌∷◌, length, All,
  All-append_right, length-append, subst, drop, ◌⊎◌, inl, inr, ◌==◌, Bool-cases,
}
use cbor_gen.Go.{Error, IsByte, ok}
use cbor_gen.Go.Calm.{is_error}
use cbor_gen.Header.Calm.{read_header-is_error}
use cbor_gen.Header.{read_header, encode_major_type}
use cbor_gen.Header.Canonical.{read_header_canonical, Result-cases, length-encode_pos}
use cbor_gen.Header.Scratch.{read_header_buf-read_header}
use cbor_gen.Validate.{
  Verdict, valid, invalid, stuck, Round, more, stop, validate_item, validate_header, validate_end,
  validate_next, validate_loop, validate_cbor, decrement,
}

-- A header that was read is at least one byte, and bytes are left.
pub header_takes :
    (t l n : ℕ) (br rest : List ℕ)
    → All IsByte br
    → read_header br ≡ ok (t, l) n rest
    → (length rest < length br) × All IsByte rest
header_takes t l n br rest hb e =
    let (split, count, small, wide) = read_header_canonical t l n br rest hb e in
    let size : length br ≡ length (encode_major_type t l) + length rest =
      ap length split ∙ length-append (encode_major_type t l) rest in
    (
      omega (arith, length-encode_pos t l),
      All-append_right IsByte (encode_major_type t l) rest (subst (All IsByte) split hb),
    )

pub drop_keeps :
    (n : ℕ) (xs : List ℕ)
    → All IsByte xs
    → (length (drop n xs) ≤ length xs) × All IsByte (drop n xs)
drop_keeps zero xs h = (omega arith, h)
drop_keeps (suc n) [] h = (omega arith, h)
drop_keeps (suc n) (x ∷ xs) h = let (e, f) = drop_keeps n xs h.1 in (omega arith, f)

item_reader :
    (maj extra r r' : ℕ) (br br' : List ℕ)
    → validate_item maj extra r br ≡ more r' br'
    → (br' ≡ br) ⊎ (br' ≡ drop extra br)
unfolding validate_item
item_reader maj extra r r' br br' e = ground arith

item_keeps :
    (maj extra r r' : ℕ) (br br' : List ℕ)
    → All IsByte br
    → validate_item maj extra r br ≡ more r' br'
    → (length br' ≤ length br) × All IsByte br'
item_keeps maj extra r r' br br' h e = elim (item_reader maj extra r r' br br' e) [
  | inl q ↦ rw q (omega arith, h)
  | inr q ↦ rw q (drop_keeps extra br h)
]

-- A yes, or an error of Go: no panic, and an end.
abbrev pub Answers : Verdict → Type 0
Answers valid = Unit {0}
Answers (invalid x) = is_error x ≡ true
Answers stuck = ⊥

item_stops :
    (maj extra r : ℕ) (br : List ℕ) (x : Error)
    → validate_item maj extra r br ≡ stop x
    → is_error x ≡ true
unfolding validate_item
item_stops maj extra r br x e = ground arith

next-Answers :
    (loop : ℕ → List ℕ → Verdict) (q : Round)
    → ((r : ℕ) (br : List ℕ) → q ≡ more r br → Answers (loop (decrement r) br))
    → ((x : Error) → q ≡ stop x → is_error x ≡ true)
    → Answers (validate_next loop q)
unfolding validate_next
next-Answers loop (more r br) h k = h r br refl
next-Answers loop (stop x) h k = k x refl

end-Answers : (br : List ℕ) → Answers (validate_end br)
unfolding validate_end
end-Answers [] = tt
end-Answers (b ∷ br) = refl

validate_loop-Answers :
    (fuel r : ℕ) (br : List ℕ)
    → All IsByte br
    → length br < fuel
    → Answers (validate_loop fuel r br)
unfolding validate_loop validate_header
validate_loop-Answers zero r br hb hf = absurd (omega arith)
validate_loop-Answers (suc fuel) r br hb hf =
    let plain = read_header_buf-read_header 9 br (omega arith) in
    elim (Bool-cases (r == 0)) [
      | inl z ↦ rw z (end-Answers br)
      | inr go ↦ elim (Result-cases (read_header br)) [
        | inl ((maj, extra), n, mid, hd) ↦
            let (less, later) = header_takes maj extra n br mid hb hd in
            rw (go, plain, hd)
              (next-Answers (validate_loop fuel) (validate_item maj extra r mid)
                (λ r' br' e.
                  let (keep, bytes) = item_keeps maj extra r r' mid br' later e in
                  validate_loop-Answers fuel (decrement r') br' bytes (omega arith))
                (item_stops maj extra r mid))
        | inr (x, n, mid, hd) ↦ rw (go, plain, hd) (read_header-is_error x n br mid hd)
      ]
    ]

-- `ValidateCBOR` says yes or returns an error on every input of bytes.
pub validate_cbor-Answers : (b : List ℕ) → All IsByte b → Answers (validate_cbor b)
unfolding validate_cbor
validate_cbor-Answers b hb = validate_loop-Answers (suc (length b)) 1 b hb (omega arith)
