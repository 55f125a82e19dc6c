-- ===== src/Go/Counted.antt =====
-- What a read takes from the reader: `read_byte` and `read_full` split the input.
use cbor_gen.Prelude.{
  ℕ, zero, suc, ◌<◌, ◌≡◌, refl, arith, inl, inr, List, [], ◌∷◌, ◌++◌, length, none, some,
  Option-cases,
}
use cbor_gen.Go.{ok, split_exact, read_full}

pub split_exact-append : (xs rest : List ℕ) → split_exact (length xs) (xs ++ rest) ≡ some (xs, rest)
unfolding split_exact
split_exact-append [] rest = refl
split_exact-append (x ∷ xs) rest = rw (split_exact-append xs rest)

-- A result of `split_exact` is a split of the input.
pub split_exact-some :
    (n : ℕ) (bs : List ℕ) {xs rest : List ℕ}
    → split_exact n bs ≡ some (xs, rest)
    → (bs ≡ xs ++ rest) × (length xs ≡ n)
unfolding split_exact
split_exact-some zero bs e = ground arith
split_exact-some (suc n) [] e = cc
split_exact-some (suc n) (b ∷ bs) {xs = ys} {rest = rest} e =
    elim (Option-cases (split_exact n bs)) [
      | inl h ↦ ground arith
      | inr ((xs, r), h) ↦ ground (arith, split_exact-some n bs h)
    ]

pub split_exact_short : (n : ℕ) (bs : List ℕ) → length bs < n → split_exact n bs ≡ none
unfolding split_exact
split_exact_short zero bs h = elim h [ ]
split_exact_short (suc n) [] h = refl
split_exact_short (suc n) (b ∷ bs) h = rw (split_exact_short n bs (omega arith))

pub read_full-append :
    (xs rest : List ℕ) → read_full (length xs) (xs ++ rest) ≡ ok xs (length xs) rest
unfolding read_full
read_full-append xs rest = rw (split_exact-append xs rest, read_full)

pub read_full_ok :
    (k : ℕ) (bs : List ℕ) {xs : List ℕ} {n : ℕ} {rest : List ℕ}
    → read_full k bs ≡ ok xs n rest
    → (bs ≡ xs ++ rest) × (length xs ≡ k) × (n ≡ k)
unfolding read_full
read_full_ok k bs e = elim (Option-cases (split_exact k bs)) [
  | inl h ↦ ground arith
  | inr ((ys, r), h) ↦ ground (arith, split_exact-some k bs h)
]
