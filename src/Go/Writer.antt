-- ===== src/Go/Writer.antt =====
-- `io.Writer` and the idiom `if n_, err := f(w); err != nil { return n + n_, err } else { n += n_ }`.
-- A writer is any state with a `Write` that meets the documented contract of `io.Writer`.
pub mod Emits
pub mod Buffer
use cbor_gen.Prelude.{
  ℕ, ◌+◌, ◌≤◌, ◌≡◌, List, [], ◌++◌, length, take, Option, none, some, Bool, true, false,
}
use cbor_gen.Go.{Error, write_failed}

-- `sent` is what has reached the device so far: it appears in statements only.
pub record Writer (W : Type 0) : Type 0 where
  pub write_to : W → List ℕ → W × ℕ × Option ℕ
  pub sent : W → List ℕ
  pub write_sent : (w : W) (p : List ℕ) → sent (write_to w p).0 ≡ sent w ++ take (write_to w p).1 p
  pub write-le : (w : W) (p : List ℕ) → (write_to w p).1 ≤ length p
  pub write_all : (w : W) (p : List ℕ) → (write_to w p).2 ≡ none → (write_to w p).1 ≡ length p

-- A function that takes `w io.Writer` and returns `(n int, err error)`.
abbrev pub Writes : Type 0 → Type 0
Writes W = W → W × ℕ × Option Error

abbrev pub wrap_error : Option ℕ → Option Error
wrap_error none = none
wrap_error (some x) = some (write_failed x)

abbrev pub then_write : {W : Type 0} → Writes W → W × ℕ × Option Error → W × ℕ × Option Error
then_write k (w, n, some e) = (w, n, some e)
then_write k (w, n, none) = let (w', m, e) = k w in (w', n + m, e)

infixl 5 ◌>>◌
abbrev pub ◌>>◌ : {W : Type 0} → Writes W → Writes W → Writes W
◌>>◌ m k w = then_write k (m w)

-- `return n, nil` and `return n, e`.
abbrev pub done : {W : Type 0} → Writes W
done w = (w, 0, none)

abbrev pub abort : {W : Type 0} → Error → Writes W
abort e w = (w, 0, some e)

-- `if c { return n, e }`
abbrev pub abort_if : {W : Type 0} → Bool → Error → Writes W
abort_if true e = abort e
abort_if false e = done

-- `w.Write(p)`
unfoldable pub write : {W : Type 0} ⦃io : Writer W⦄ → List ℕ → Writes W
write ⦃io⦄ p w = let (w', n, e) = io.write_to w p in (w', n, wrap_error e)
