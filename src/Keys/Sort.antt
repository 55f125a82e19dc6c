-- ===== src/Keys/Sort.antt =====
-- `map_key_sort`, sorted lists of keys and their permutations.
use cbor_gen.Prelude.{ℕ, ◌≡◌, refl, ◌∙◌, arith, List, [], ◌∷◌, false, All}
use cbor_gen.Keys.{map_key_less, insert_key, map_key_sort}
use cbor_gen.Keys.Order.{map_key_less_total, map_key_less_transitive}
use mathlib.Core.List.{Permᴰ}

-- No key stands in front of one that is before it.
abbrev pub IsSorted : List (List ℕ) → Type 0
IsSorted [] = Unit {0}
IsSorted (k ∷ ks) = All (λ x. map_key_less x k ≡ false) ks × IsSorted ks

insert_first :
    (k : List ℕ) (xs : List (List ℕ))
    → All (λ x. map_key_less x k ≡ false) xs
    → insert_key k xs ≡ k ∷ xs
unfolding insert_key
insert_first k [] h = refl
insert_first k (x ∷ xs) (h, _) = rw h

pub sort_sorted : (ks : List (List ℕ)) → IsSorted ks → map_key_sort ks ≡ ks
unfolding map_key_sort
sort_sorted [] h = refl
sort_sorted (k ∷ ks) (h, hs) = rw (sort_sorted ks hs) (insert_first k ks h)

insert_comm :
    (a b : List ℕ) (xs : List (List ℕ))
    → insert_key a (insert_key b xs) ≡ insert_key b (insert_key a xs)
unfolding insert_key
insert_comm a b [] = ground (arith, map_key_less_total a b)
insert_comm a b (x ∷ xs) = ground (
  arith,
  insert_comm a b xs,
  map_key_less_total a b,
  map_key_less_total a x,
  map_key_less_total b x,
  map_key_less_transitive a b x,
  map_key_less_transitive b a x,
  map_key_less_transitive a x b,
  map_key_less_transitive b x a,
  map_key_less_transitive x a b,
  map_key_less_transitive x b a,
)

pub sort-perm : {ks ls : List (List ℕ)} → Permᴰ ks ls → map_key_sort ks ≡ map_key_sort ls
unfolding map_key_sort
sort-perm Permᴰ.nil = refl
sort-perm (Permᴰ.cons e p) = rw (e, sort-perm p)
sort-perm (Permᴰ.swap {l = l} e f) = rw (e, f) (insert_comm _ _ (map_key_sort l))
sort-perm (Permᴰ.trans p q) = sort-perm p ∙ sort-perm q
