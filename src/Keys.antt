-- ===== src/Keys.antt =====
-- The order of map keys of utils.go, `mapKeySort_RFC7049Less`: shorter keys first, then bytewise;
-- `MapKeySort_RFC7049`, and a Go map from strings as its entries in that order.
pub mod Order
pub mod Sort
pub mod Shortlex
pub mod Entries
use cbor_gen.Prelude.{
  Option, none, some, ◌&&◌, ℕ, List, [], ◌∷◌, length, Bool, true, false, ltb, ◌==◌, if◌then◌else◌,
}

-- `k1 < k2` on Go strings.
unfoldable pub less_bytes : List ℕ → List ℕ → Bool
less_bytes [] [] = false
less_bytes [] (y ∷ ys) = true
less_bytes (x ∷ xs) [] = false
less_bytes (x ∷ xs) (y ∷ ys) = let rest = less_bytes xs ys in if x == y then rest else ltb x y

unfoldable pub map_key_less : List ℕ → List ℕ → Bool
unfolding less_bytes
map_key_less k1 k2 =
    let li = length k1 in let lj = length k2 in if li == lj then less_bytes k1 k2 else ltb li lj

-- `sort.Slice` leaves a list sorted by the function it is given; sorting by insertion stands for it.
unfoldable pub insert_key : List ℕ → List (List ℕ) → List (List ℕ)
unfolding map_key_less
insert_key k [] = k ∷ []
insert_key k (x ∷ xs) =
    let rest = insert_key k xs in if map_key_less x k then x ∷ rest else k ∷ x ∷ xs

unfoldable pub map_key_sort : List (List ℕ) → List (List ℕ)
unfolding insert_key
map_key_sort [] = []
map_key_sort (k ∷ ks) = insert_key k (map_key_sort ks)

-- `k1 == k2` on Go strings.
unfoldable pub same_bytes : List ℕ → List ℕ → Bool
same_bytes [] [] = true
same_bytes [] (y ∷ ys) = false
same_bytes (x ∷ xs) [] = false
same_bytes (x ∷ xs) (y ∷ ys) = x == y && same_bytes xs ys

module _ {V : Type 0} where
  abbrev pub keys : List (List ℕ × V) → List (List ℕ)
  keys [] = []
  keys ((k, v) ∷ es) = k ∷ keys es

  -- `m[k]`
  unfoldable pub lookup : List ℕ → List (List ℕ × V) → Option V
  unfolding same_bytes
  lookup k [] = none
  lookup k ((x, v) ∷ es) = let rest = lookup k es in if same_bytes k x then some v else rest

  -- `m[k] = v`
  unfoldable pub put : List ℕ → V → List (List ℕ × V) → List (List ℕ × V)
  unfolding same_bytes map_key_less
  put k v [] = (k, v) ∷ []
  put k v ((x, u) ∷ es) =
      let rest = put k v es in
      if same_bytes k x
      then (k, v) ∷ es
      else if map_key_less k x
      then (k, v) ∷ (x, u) ∷ es
      else (x, u) ∷ rest
