-- ===== src/Tests/Order.antt =====
-- The sorting of map keys on concrete keys.
use cbor_gen.Prelude.{ℕ, ◌≡◌, refl, List, [], ◌∷◌}
use cbor_gen.Keys.{map_key_sort, map_key_less}
use cbor_gen.Keys.Shortlex.{map_key_sort-InOrder, InOrder}
use mathlib.Core.List.{Permᴰ}

abbrev b_key : List ℕ
b_key = b'b' ∷ []

abbrev aa_key : List ℕ
aa_key = b'a' ∷ b'a' ∷ []

abbrev ab_key : List ℕ
ab_key = b'a' ∷ b'b' ∷ []

sort_three : map_key_sort (aa_key ∷ b_key ∷ ab_key ∷ []) ≡ b_key ∷ aa_key ∷ ab_key ∷ []
unfolding map_key_sort map_key_less
sort_three = refl

map_key_sort-InOrder_example :
    (map_key_sort (aa_key ∷ b_key ∷ ab_key ∷ []) ≡ map_key_sort (b_key ∷ aa_key ∷ ab_key ∷ []))
    × Permᴰ (aa_key ∷ b_key ∷ ab_key ∷ []) (map_key_sort (aa_key ∷ b_key ∷ ab_key ∷ []))
    × InOrder (map_key_sort (aa_key ∷ b_key ∷ ab_key ∷ []))
map_key_sort-InOrder_example =
    map_key_sort-InOrder (aa_key ∷ b_key ∷ ab_key ∷ []) (b_key ∷ aa_key ∷ ab_key ∷ [])
      (Permᴰ.swap refl refl)
