-- ===== src/Keys/Entries.antt =====
-- Go maps as entries in the order of their keys: looking up, assigning, sorting.
use cbor_gen.Prelude.{
  ℕ, ◌≢◌, ◌≡◌, refl, arith, List, [], ◌∷◌, ◌++◌, true, false, Bool-cases, inl, inr, All, some,
}
use cbor_gen.Keys.{map_key_less, map_key_sort, same_bytes, keys, lookup, put}
use cbor_gen.Keys.Order.{map_key_less_total}
use cbor_gen.Keys.Sort.{IsSorted, sort_sorted}

pub same_bytes_refl : (k : List ℕ) → same_bytes k k ≡ true
unfolding same_bytes
same_bytes_refl [] = refl
same_bytes_refl (x ∷ xs) = ground (arith, same_bytes_refl xs)

pub same_bytes_eq : (a b : List ℕ) → same_bytes a b ≡ true → a ≡ b
unfolding same_bytes
same_bytes_eq [] [] h = refl
same_bytes_eq [] (y ∷ ys) h = cc
same_bytes_eq (x ∷ xs) [] h = cc
same_bytes_eq (x ∷ xs) (y ∷ ys) h = ground (arith, same_bytes_eq xs ys)

pub same_bytes_ne : (a b : List ℕ) → a ≢ b → same_bytes a b ≡ false
same_bytes_ne a b h = elim (Bool-cases (same_bytes a b)) [
  | inl e ↦ absurd (h (same_bytes_eq a b e))
  | inr e ↦ e
]

-- The keys of `a` and `b` are not the same, and `b` is not before `a`.
pub less_apart :
    (a b : List ℕ)
    → map_key_less a b ≡ true
    → (same_bytes a b ≡ false) × (same_bytes b a ≡ false) × (map_key_less b a ≡ false)
less_apart a b h =
    ground
      (arith, map_key_less_total a b, map_key_less_total a a, same_bytes_eq a b, same_bytes_eq b a)

module _ {V : Type 0} where
  -- The keys are in order.
  abbrev pub IsOrdered : List (List ℕ × V) → Type 0
  IsOrdered [] = Unit {0}
  IsOrdered (e ∷ es) = All (λ f. map_key_less e.0 f.0 ≡ true) es × IsOrdered es

  later_keys :
      (k : List ℕ) (es : List (List ℕ × V))
      → All (λ f. map_key_less k f.0 ≡ true) es
      → All (λ x. map_key_less x k ≡ false) (keys es)
  later_keys k [] h = tt
  later_keys k ((x, v) ∷ es) (h, hs) = ((less_apart k x h).2, later_keys k es hs)

  keys-IsSorted : (es : List (List ℕ × V)) → IsOrdered es → IsSorted (keys es)
  keys-IsSorted [] h = tt
  keys-IsSorted ((k, v) ∷ es) (h, hs) = (later_keys k es h, keys-IsSorted es hs)

  -- The keys of a map are sorted as its entries are.
  pub sort-keys : (es : List (List ℕ × V)) → IsOrdered es → map_key_sort (keys es) ≡ keys es
  sort-keys es h = sort_sorted (keys es) (keys-IsSorted es h)

  -- The entries `fs` are found in `es`.
  abbrev pub Found : List (List ℕ × V) → List (List ℕ × V) → Type 0
  Found es fs = All (λ f. lookup f.0 es ≡ some f.1) fs

  Found-cons :
      (k : List ℕ) (v : V) (es fs : List (List ℕ × V))
      → All (λ f. map_key_less k f.0 ≡ true) fs
      → Found es fs
      → Found ((k, v) ∷ es) fs
  unfolding lookup
  Found-cons k v es [] h p = tt
  Found-cons k v es ((x, u) ∷ fs) (h, hs) (p, ps) =
      (rw (less_apart k x h).1 p, Found-cons k v es fs hs ps)

  pub Found-all : (es : List (List ℕ × V)) → IsOrdered es → Found es es
  unfolding lookup
  Found-all [] h = tt
  Found-all ((k, v) ∷ es) (h, hs) =
      (rw (same_bytes_refl k) refl, Found-cons k v es es h (Found-all es hs))

  -- A key behind all others is assigned at the end.
  pub put_last :
      (k : List ℕ) (v : V) (es : List (List ℕ × V))
      → All (λ f. map_key_less f.0 k ≡ true) es
      → put k v es ≡ es ++ ((k, v) ∷ [])
  unfolding put
  put_last k v [] h = refl
  put_last k v ((x, u) ∷ es) (h, hs) =
      let (_, apart, behind) = less_apart x k h in rw (apart, behind, put_last k v es hs)

  pub lookup-put_self :
      (k : List ℕ) (v : V) (es : List (List ℕ × V)) → lookup k (put k v es) ≡ some v
  unfolding lookup put
  lookup-put_self k v [] = rw (same_bytes_refl k) refl
  lookup-put_self k v ((x, u) ∷ es) = ground (arith, lookup-put_self k v es, same_bytes_refl k)

  pub lookup-put_ne :
      (j k : List ℕ) (v : V) (es : List (List ℕ × V))
      → same_bytes j k ≡ false
      → lookup j (put k v es) ≡ lookup j es
  unfolding lookup put
  lookup-put_ne j k v [] h = rw h refl
  lookup-put_ne j k v ((x, u) ∷ es) h = ground (arith, lookup-put_ne j k v es h, same_bytes_eq k x)
