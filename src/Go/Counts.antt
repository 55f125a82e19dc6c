-- ===== src/Go/Counts.antt =====
-- `Counts m`: what `m` leaves as the reader is a suffix, and its count fits. Rules for the steps of
-- a `do` block.
use cbor_gen.Prelude.{
  ℕ, ◌≤◌, ◌≡◌, refl, sym, ◌∙◌, arith, List, [], ◌∷◌, ◌++◌, length, length-append, append_assoc,
  append-nil, Bool, true, false, Option-cases, inl, inr,
}
use cbor_gen.Go.{
  Error, Result, ok, err, Reads, bind_result, advance, ◌>>=◌, ◌>>◌, pure, fail, fail_if, read_full,
  read_byte, split_exact,
}
use cbor_gen.Go.Counted.{split_exact-some}

abbrev pub Taken {ℓ} : {A : Type ℓ} → List ℕ → Result A → Type 0
Taken bs (ok a n rest) = (xs : List ℕ) × (bs ≡ xs ++ rest) × (n ≡ length xs)
Taken bs (err e n rest) = (xs : List ℕ) × (bs ≡ xs ++ rest) × (n ≤ length xs)

abbrev pub Counts {ℓ} : {A : Type ℓ} → Reads A → Type 0
Counts m = (bs : List ℕ) → Taken bs (m bs)

module _ {ℓ} {A : Type ℓ} where
  Taken-advance :
      (bs xs rest : List ℕ) (n : ℕ) (r : Result A)
      → bs ≡ xs ++ rest
      → n ≡ length xs
      → Taken rest r
      → Taken bs (advance n r)
  Taken-advance bs xs rest n (ok a m end) e c (ys, f, d) =
      (xs ++ ys, e ∙ rw (f, append_assoc), omega (arith, length-append xs ys))
  Taken-advance bs xs rest n (err x m end) e c (ys, f, d) =
      (xs ++ ys, e ∙ rw (f, append_assoc), omega (arith, length-append xs ys))

module _ {ℓ κ} {A : Type ℓ} {B : Type κ} (f : A → Reads B) where
  Taken-bind :
      (bs : List ℕ) (r : Result A)
      → ((a : A) → Counts (f a))
      → Taken bs r
      → Taken bs (bind_result r f)
  Taken-bind bs (ok a n rest) h (xs, e, c) = Taken-advance bs xs rest n (f a rest) e c (h a rest)
  Taken-bind bs (err x n rest) h (xs, e, c) = (xs, e, omega arith)

  pub Counts-bind : (m : Reads A) → Counts m → ((a : A) → Counts (f a)) → Counts (m >>= f)
  Counts-bind m hm hf bs = Taken-bind bs (m bs) hf (hm bs)

pub Counts-pure {ℓ} : {A : Type ℓ} (a : A) → Counts (pure a)
Counts-pure a bs = ([], refl, refl)

pub Counts-fail {ℓ} : (A : Type ℓ) (x : Error) → Counts (fail {A = A} x)
Counts-fail A x bs = ([], refl, omega arith)

-- A guard in front of what follows it.
pub Counts-guard {ℓ} :
    {A : Type ℓ} (c : Bool) (x : Error) (k : Reads A) → Counts k → Counts (fail_if c x >> k)
Counts-guard true x k h bs = ([], refl, omega arith)
Counts-guard false x k h bs = Taken-advance bs [] bs 0 (k bs) refl refl (h bs)

pub Counts-read_byte : Counts read_byte
unfolding read_byte
Counts-read_byte [] = ([], refl, omega arith)
Counts-read_byte (b ∷ bs) = (b ∷ [], refl, refl)

pub Counts-read_full : (k : ℕ) → Counts (read_full k)
unfolding read_full
Counts-read_full k bs = elim (Option-cases (split_exact k bs)) [
  | inl h ↦ rw (h, read_full, Taken) (bs, sym (append-nil bs), omega arith)
  | inr ((xs, rest), h) ↦
      let (e, f) = split_exact-some k bs h in rw (h, read_full, Taken) (xs, e, sym f)
]
