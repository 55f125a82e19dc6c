-- ===== src/Go/Calm.antt =====
-- Reads that do not panic: an error of theirs is one of Go.
use cbor_gen.Prelude.{
  ℕ, ◌≡◌, refl, List, [], ◌∷◌, Bool, true, false, if◌then◌else◌, Option-cases, inl, inr,
}
use cbor_gen.Go.{
  Error, panicked, endless, Result, ok, err, Reads, bind_result, advance, ◌>>=◌, ◌>>◌, fail_if,
  read_full, read_byte, split_exact, short_error,
}

-- An `error` of Go, neither a panic nor a loop without an end.
abbrev pub is_error : Error → Bool
is_error panicked = false
is_error endless = false
is_error e = true

abbrev pub CalmResult {ℓ} : {A : Type ℓ} → Result A → Type 0
CalmResult (ok a n rest) = Unit {0}
CalmResult (err e n rest) = is_error e ≡ true

abbrev pub Calm {ℓ} : {A : Type ℓ} → Reads A → Type 0
Calm m = (bs : List ℕ) → CalmResult (m bs)

CalmResult-advance {ℓ} :
    {A : Type ℓ} (n : ℕ) (r : Result A) → CalmResult r → CalmResult (advance n r)
CalmResult-advance n (ok a m rest) h = tt
CalmResult-advance n (err e m rest) h = h

module _ {ℓ κ} {A : Type ℓ} {B : Type κ} (f : A → Reads B) where
  CalmResult-bind :
      (r : Result A) → ((a : A) → Calm (f a)) → CalmResult r → CalmResult (bind_result r f)
  CalmResult-bind (ok a n rest) h c = CalmResult-advance n (f a rest) (h a rest)
  CalmResult-bind (err e n rest) h c = c

  pub Calm-bind : (m : Reads A) → Calm m → ((a : A) → Calm (f a)) → Calm (m >>= f)
  Calm-bind m hm hf bs = CalmResult-bind (m bs) hf (hm bs)

pub Calm-guard {ℓ} :
    {A : Type ℓ} (c : Bool) (x : Error) (k : Reads A)
    → is_error x ≡ true
    → Calm k
    → Calm (fail_if c x >> k)
Calm-guard true x k e h bs = e
Calm-guard false x k e h bs = CalmResult-advance 0 (k bs) (h bs)

pub Calm-if {ℓ} :
    {A : Type ℓ} (c : Bool) (m k : Reads A)
    → Calm m
    → Calm k
    → Calm (λ bs. if c then m bs else k bs)
Calm-if true m k hm hk = hm
Calm-if false m k hm hk = hk

pub Calm-read_byte : Calm read_byte
unfolding read_byte
Calm-read_byte [] = refl
Calm-read_byte (b ∷ bs) = tt

short_error-is_error : (bs : List ℕ) → is_error (short_error bs) ≡ true
short_error-is_error [] = refl
short_error-is_error (b ∷ bs) = refl

pub Calm-read_full : (k : ℕ) → Calm (read_full k)
unfolding read_full
Calm-read_full k bs = elim (Option-cases (split_exact k bs)) [
  | inl h ↦ rw (h, read_full, CalmResult) (short_error-is_error bs)
  | inr ((xs, rest), h) ↦ rw (h, read_full, CalmResult) tt
]
