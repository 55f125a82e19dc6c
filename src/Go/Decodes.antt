-- ===== src/Go/Decodes.antt =====
-- `Decodes m a enc`: on `enc`, whatever follows it, `m` returns `a`, counts the bytes of `enc` and
-- takes just these. Rules for the steps of a `do` block.
use cbor_gen.Prelude.{
  ℕ, ◌+◌, ◌≡◌, refl, arith, List, [], ◌++◌, length, length-append, append_assoc, Bool, false,
}
use cbor_gen.Go.{Error, ok, Reads, ◌>>=◌, ◌>>◌, pure, fail_if, read_full}
use cbor_gen.Go.Counted.{read_full-append}

abbrev pub Decodes {ℓ} : {A : Type ℓ} → Reads A → A → List ℕ → Type ℓ
Decodes m a enc = (rest : List ℕ) → m (enc ++ rest) ≡ ok a (length enc) rest

module _ {ℓ} {A : Type ℓ} where
  pub Decodes-pure : (a : A) → Decodes (pure a) a []
  Decodes-pure a rest = refl

  pub Decodes-bind {κ} :
      {B : Type κ} (m : Reads A) (f : A → Reads B) (a : A) (b : B) (xs ys : List ℕ)
      → Decodes m a xs
      → Decodes (f a) b ys
      → Decodes (m >>= f) b (xs ++ ys)
  Decodes-bind m f a b xs ys hm hf rest =
      rw (append_assoc xs ys rest, hm (ys ++ rest), hf rest, length-append xs ys)

  -- A last step that takes nothing.
  pub Decodes-map {κ} :
      {B : Type κ} (m : Reads A) (f : A → Reads B) (a : A) (b : B) (xs : List ℕ)
      → Decodes m a xs
      → Decodes (f a) b []
      → Decodes (m >>= f) b xs
  Decodes-map m f a b xs hm hf rest =
      let e : length xs + 0 ≡ length xs = omega arith in rw (hm rest, hf rest, e)

  pub Decodes-guard :
      (c : Bool) (x : Error) (k : Reads A) (a : A) (xs : List ℕ)
      → c ≡ false
      → Decodes k a xs
      → Decodes (fail_if c x >> k) a xs
  Decodes-guard c x k a xs h hk rest =
      let e : 0 + length xs ≡ length xs = omega arith in rw (h, hk rest, e)

pub Decodes-read_full : (xs : List ℕ) → Decodes (read_full (length xs)) xs xs
Decodes-read_full xs rest = read_full-append xs rest
