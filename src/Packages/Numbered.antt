-- ===== src/Packages/Numbered.antt =====
-- The names that `resolvePkgName` tries, one behind the other.
use cbor_gen.Prelude.{
  ℕ, zero, suc, ◌+◌, ◌-◌, ◌*◌, ◌/◌, ◌%◌, ◌≤◌, ◌<◌, ◌≡◌, refl, sym, ap, ◌∙◌, arith, List, [], ◌∷◌,
  ◌++◌, length, drop, length-append, ltb, Bool-cases, inl, inr,
}
use cbor_gen.Validate.Complete.{drop-append}
use cbor_gen.Packages.{digits, try_name}

abbrev value_from : ℕ → List ℕ → ℕ
value_from acc [] = acc
value_from acc (d ∷ ds) = value_from (acc * 10 + (d - 0x30)) ds

value-append :
    (acc : ℕ) (xs : List ℕ) (d : ℕ)
    → value_from acc (xs ++ (d ∷ [])) ≡ value_from acc xs * 10 + (d - 0x30)
value-append acc [] d = refl
value-append acc (x ∷ xs) d = value-append (acc * 10 + (x - 0x30)) xs d

value-digits : (fuel n : ℕ) → n < fuel → value_from 0 (digits fuel n) ≡ n
unfolding digits
value-digits zero n h = absurd (omega arith)
value-digits (suc fuel) n h = elim (Bool-cases (ltb n 10)) [
  | inl e ↦ rw e (omega arith)
  | inr e ↦
      let big : 10 ≤ n = ground arith in
      let tail = value-digits fuel (n / 10) (grind arith) in
      rw (e, value-append 0 (digits fuel (n / 10)) (0x30 + n % 10), tail) (grind arith)
]

digits_some : (fuel n : ℕ) → 1 ≤ length (digits (suc fuel) n)
unfolding digits
digits_some fuel n = elim (Bool-cases (ltb n 10)) [
  | inl e ↦ rw e (omega arith)
  | inr e ↦ rw e (omega (arith, length-append (digits fuel (n / 10)) ((0x30 + n % 10) ∷ [])))
]

-- Different tries are different names.
pub try_name_injective : (name : List ℕ) (i j : ℕ) → try_name name i ≡ try_name name j → i ≡ j
unfolding try_name
try_name_injective name zero zero e = refl
try_name_injective name zero (suc j) e = absurd (
    omega (
      arith,
      ap length e,
      length-append name (digits (suc (suc j)) (suc j)),
      digits_some (suc j) (suc j),
    ))
try_name_injective name (suc i) zero e = absurd (
    omega (
      arith,
      ap length e,
      length-append name (digits (suc (suc i)) (suc i)),
      digits_some (suc i) (suc i),
    ))
try_name_injective name (suc i) (suc j) e =
    let tails : digits (suc (suc i)) (suc i) ≡ digits (suc (suc j)) (suc j) =
      sym (drop-append name (digits (suc (suc i)) (suc i)))
      ∙ ap (drop (length name)) e
      ∙ drop-append name (digits (suc (suc j)) (suc j)) in
    sym (value-digits (suc (suc i)) (suc i) (omega arith))
    ∙ ap (value_from 0) tails
    ∙ value-digits (suc (suc j)) (suc j) (omega arith)
