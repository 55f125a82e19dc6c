-- ===== src/Packages/Free.antt =====
-- Counting the entries of a map against a row of distinct names.
use cbor_gen.Prelude.{
  ℕ, zero, suc, ◌≤◌, ◌<◌, ◌≡◌, refl, arith, List, [], ◌∷◌, length, true, false, if◌then◌else◌,
}
use cbor_gen.Keys.{same_bytes, lookup}
use cbor_gen.Keys.Entries.{same_bytes_ne, same_bytes_eq}
use cbor_gen.Tuple.{Entries}
use cbor_gen.Packages.{is_some}

module _ {V : Type 0} where
  erase : List ℕ → Entries V → Entries V
  erase k [] = []
  erase k ((x, v) ∷ es) = let rest = erase k es in if same_bytes k x then es else (x, v) ∷ rest

  length-erase :
      (k : List ℕ) (es : Entries V)
      → is_some (lookup k es) ≡ true
      → length es ≡ suc (length (erase k es))
  unfolding erase lookup
  length-erase k [] h = cc
  length-erase k ((x, v) ∷ es) h = ground (arith, length-erase k es)

  lookup-erase_ne :
      (j k : List ℕ) (es : Entries V) → same_bytes j k ≡ false → lookup j (erase k es) ≡ lookup j es
  unfolding erase lookup
  lookup-erase_ne j k [] h = refl
  lookup-erase_ne j k ((x, v) ∷ es) h = ground (arith, lookup-erase_ne j k es h, same_bytes_eq k x)

  -- The names `name 0` to `name (n - 1)` are all there.
  pub taken-le :
      (name : ℕ → List ℕ) (n : ℕ) (es : Entries V)
      → ((i j : ℕ) → name i ≡ name j → i ≡ j)
      → ((i : ℕ) → i < n → is_some (lookup (name i) es) ≡ true)
      → n ≤ length es
  taken-le name zero es inj h = omega arith
  taken-le name (suc n) es inj h =
      let last = h n (omega arith) in
      let fewer = taken-le name n (erase (name n) es) inj λ i less.
        let apart = same_bytes_ne (name i) (name n) (λ e. omega (arith, inj i n e)) in
        rw (lookup-erase_ne (name i) (name n) es apart) (h i (omega arith)) in
      omega (arith, length-erase (name n) es last)
