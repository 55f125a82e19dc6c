-- ===== src/Keys/Shortlex.antt =====
-- The order of RFC 7049 on keys, and `map_key_less` as a decision of it.
use cbor_gen.Prelude.{
  ℕ, ◌≡◌, ◌<◌, refl, subst, arith, List, [], ◌∷◌, length, All, All-map, ◌⊎◌, inl, inr, true, false,
  Bool-cases, ◌==◌,
}
use cbor_gen.Keys.{map_key_less, less_bytes, insert_key, map_key_sort}
use cbor_gen.Keys.Order.{map_key_less_total, map_key_less_transitive}
use cbor_gen.Keys.Sort.{IsSorted, sort-perm}
use mathlib.Core.List.{Permᴰ}
use mathlib.Core.List.Permᴰ

-- The first byte that differs is lower, or the key is a beginning of the other.
pub data IsLower : List ℕ → List ℕ → Type 0 where
  ends : {y : ℕ} {ys : List ℕ} → IsLower [] (y ∷ ys)
  lower : {x y : ℕ} {xs ys : List ℕ} → x < y → IsLower (x ∷ xs) (y ∷ ys)
  same : {x : ℕ} {xs ys : List ℕ} → IsLower xs ys → IsLower (x ∷ xs) (x ∷ ys)

-- "If two keys have different lengths, the shorter one sorts earlier; if two keys have the same
-- length, the one with the lower value in (byte-wise) lexical order sorts earlier."
abbrev pub IsEarlier : List ℕ → List ℕ → Type 0
IsEarlier a b = (length a < length b) ⊎ ((length a ≡ length b) × IsLower a b)

less_bytes-IsLower : (a b : List ℕ) → less_bytes a b ≡ true → IsLower a b
unfolding less_bytes
less_bytes-IsLower [] [] h = cc
less_bytes-IsLower [] (y ∷ ys) h = ends
less_bytes-IsLower (x ∷ xs) [] h = cc
less_bytes-IsLower (x ∷ xs) (y ∷ ys) h = elim (Bool-cases (x == y)) [
  | inl e ↦
      let q : x ≡ y = ground arith in
      let rest : less_bytes xs ys ≡ true = ground arith in
      subst (λ z. IsLower (x ∷ xs) (z ∷ ys)) q (same (less_bytes-IsLower xs ys rest))
  | inr e ↦ lower (ground arith)
]

map_key_less-IsEarlier : (a b : List ℕ) → map_key_less a b ≡ true → IsEarlier a b
unfolding map_key_less
map_key_less-IsEarlier a b h = elim (Bool-cases (length a == length b)) [
  | inl e ↦
      let rest : less_bytes a b ≡ true = ground arith in
      inr (ground arith, less_bytes-IsLower a b rest)
  | inr e ↦ inl (ground arith)
]

-- Each key is earlier than those behind it, or the same.
abbrev pub InOrder : List (List ℕ) → Type 0
InOrder [] = Unit {0}
InOrder (k ∷ ks) = All (λ x. IsEarlier k x ⊎ (k ≡ x)) ks × InOrder ks

not_later : (k x : List ℕ) → map_key_less x k ≡ false → IsEarlier k x ⊎ (k ≡ x)
not_later k x h = elim (map_key_less_total k x) [
  | inl (less, _) ↦ inl (map_key_less-IsEarlier k x less)
  | inr later ↦ elim later [ inl (more, _) ↦ absurd (ground arith) | inr (e, _, _) ↦ inr e ]
]

IsSorted-InOrder : (ks : List (List ℕ)) → IsSorted ks → InOrder ks
IsSorted-InOrder [] h = tt
IsSorted-InOrder (k ∷ ks) (h, hs) = (All-map (not_later k) ks h, IsSorted-InOrder ks hs)

insert-Perm : (k : List ℕ) (xs : List (List ℕ)) → Permᴰ (k ∷ xs) (insert_key k xs)
unfolding insert_key
insert-Perm k [] = Permᴰ.refl (k ∷ [])
insert-Perm k (x ∷ xs) = elim (Bool-cases (map_key_less x k)) [
  | inl e ↦ rw e (Permᴰ.trans (Permᴰ.swap refl refl) (Permᴰ.cons refl (insert-Perm k xs)))
  | inr e ↦ rw e (Permᴰ.refl (k ∷ x ∷ xs))
]

sort-Perm : (ks : List (List ℕ)) → Permᴰ ks (map_key_sort ks)
unfolding map_key_sort
sort-Perm [] = Permᴰ.nil
sort-Perm (k ∷ ks) = Permᴰ.trans (Permᴰ.cons refl (sort-Perm ks)) (insert-Perm k (map_key_sort ks))

insert-All :
    (P : List ℕ → Type 0) (k : List ℕ) (xs : List (List ℕ))
    → P k
    → All P xs
    → All P (insert_key k xs)
unfolding insert_key
insert-All P k [] h hs = (h, tt)
insert-All P k (x ∷ xs) h (p, ps) = elim (Bool-cases (map_key_less x k)) [
  | inl e ↦ rw e (p, insert-All P k xs h ps)
  | inr e ↦ rw e (h, (p, ps))
]

not_before :
    (k x y : List ℕ)
    → map_key_less x k ≡ false
    → map_key_less y x ≡ false
    → map_key_less y k ≡ false
not_before k x y h i = ground (
  arith,
  map_key_less_total x k,
  map_key_less_total y x,
  map_key_less_total y k,
  map_key_less_transitive y k x,
  map_key_less_transitive x y k,
)

insert-IsSorted : (k : List ℕ) (xs : List (List ℕ)) → IsSorted xs → IsSorted (insert_key k xs)
unfolding insert_key
insert-IsSorted k [] h = (tt, tt)
insert-IsSorted k (x ∷ xs) (h, hs) = elim (Bool-cases (map_key_less x k)) [
  | inl e ↦
      let behind : map_key_less k x ≡ false = ground (arith, map_key_less_total k x) in
      rw e (insert-All (λ y. map_key_less y x ≡ false) k xs behind h, insert-IsSorted k xs hs)
  | inr e ↦ rw e ((e, All-map (λ y. not_before k x y e) xs h), (h, hs))
]

sort-IsSorted : (ks : List (List ℕ)) → IsSorted (map_key_sort ks)
unfolding map_key_sort
sort-IsSorted [] = tt
sort-IsSorted (k ∷ ks) = insert-IsSorted k (map_key_sort ks) (sort-IsSorted ks)

-- `MapKeySort_RFC7049` comes to the same list whatever order the keys are in: to the permutation
-- of them that is in the order of RFC 7049, in which a shorter key is earlier, and of two of the
-- same length the one that has the lower byte where they first differ.
pub map_key_sort-InOrder :
    (ks ls : List (List ℕ))
    → Permᴰ ks ls
    → (map_key_sort ks ≡ map_key_sort ls) × Permᴰ ks (map_key_sort ks) × InOrder (map_key_sort ks)
map_key_sort-InOrder ks ls p =
    (sort-perm p, sort-Perm ks, IsSorted-InOrder (map_key_sort ks) (sort-IsSorted ks))
