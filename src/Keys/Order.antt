-- ===== src/Keys/Order.antt =====
-- `map_key_less` as the order that `sort.Slice` asks for.
use cbor_gen.Prelude.{ℕ, ◌≡◌, refl, arith, List, [], ◌∷◌, Bool, true, false, ◌⊎◌, inl, inr}
use cbor_gen.Keys.{less_bytes, map_key_less}

-- Exactly one of `a` before `b`, `b` before `a` and `a` the same as `b`.
abbrev pub Compared : (List ℕ → List ℕ → Bool) → List ℕ → List ℕ → Type 0
Compared less a b =
    ((less a b ≡ true) × (less b a ≡ false))
    ⊎ ((less b a ≡ true) × (less a b ≡ false))
    ⊎ ((a ≡ b) × (less a b ≡ false) × (less b a ≡ false))

less_bytes_transitive :
    (a b c : List ℕ) → less_bytes a b ≡ true → less_bytes b c ≡ true → less_bytes a c ≡ true
unfolding less_bytes
less_bytes_transitive [] [] [] p q = p
less_bytes_transitive [] (y ∷ ys) [] p q = cc
less_bytes_transitive [] b (z ∷ zs) p q = refl
less_bytes_transitive (x ∷ xs) [] c p q = cc
less_bytes_transitive (x ∷ xs) (y ∷ ys) [] p q = cc
less_bytes_transitive (x ∷ xs) (y ∷ ys) (z ∷ zs) p q =
    ground (arith, less_bytes_transitive xs ys zs)

less_bytes_total : (a b : List ℕ) → Compared less_bytes a b
unfolding less_bytes
less_bytes_total [] [] = inr (inr (refl, refl, refl))
less_bytes_total [] (y ∷ ys) = inl (refl, refl)
less_bytes_total (x ∷ xs) [] = inr (inl (refl, refl))
less_bytes_total (x ∷ xs) (y ∷ ys) = ground (arith, less_bytes_total xs ys)

-- The order of map keys is transitive: a key before `b` is before every key that `b` is before.
pub map_key_less_transitive :
    (a b c : List ℕ) → map_key_less a b ≡ true → map_key_less b c ≡ true → map_key_less a c ≡ true
unfolding map_key_less
map_key_less_transitive a b c p q = ground (arith, less_bytes_transitive a b c)

-- The order of map keys compares any two keys: exactly one of `a` before `b`, `b` before `a` and
-- `a` the same as `b`.
pub map_key_less_total : (a b : List ℕ) → Compared map_key_less a b
unfolding map_key_less
map_key_less_total a b = ground (arith, less_bytes_total a b)
