-- ===== src/Tests/Reflect.antt =====
-- The fields of concrete struct types.
use cbor_gen.Prelude.{ℕ, ◌≡◌, refl, List, [], ◌∷◌, ◌++◌, some, true, false}
use cbor_gen.Keys.{lookup, put, same_bytes, map_key_less}
use cbor_gen.Reflect.{
  struct_type, other_type, StructFields, no_field, struct_field, Field, parse_type_info,
  embedded_by_pointer, push_field,
}
use cbor_gen.Reflect.Leaves.{exported}
use cbor_gen.Reflect.Promoted.{Distinct, Promotes, parse_type_info_fields}
use cbor_gen.Reflect.Reach.{reach, visible, parse_type_info-reach}
use cbor_gen.Reflect.Ordered.{order_fields, find_field}
use cbor_gen.Reflect.Permuted.{order_fields_first, AskedFor, names_of}

abbrev a_name : List ℕ
a_name = b'A' ∷ []

abbrev b_name : List ℕ
b_name = b'B' ∷ []

abbrev e_name : List ℕ
e_name = b'E' ∷ []

-- struct { A int; B int `cborgen:"b"` }
abbrev inner : StructFields
inner =
    struct_field a_name false false [] (other_type 1)
      (struct_field b_name false false (b'b' ∷ []) (other_type 2) no_field)

-- struct { *E; A int; c int }, where E is the struct above.
abbrev outer : StructFields
outer = struct_field e_name true true [] (struct_type inner) (
    struct_field a_name false false [] (other_type 3)
      (struct_field (b'c' ∷ []) false false [] (other_type 4) no_field))

abbrev promoted_b : Field
promoted_b = record {
  name = b_name;
  map_key = b'b' ∷ [];
  pointer = false;
  type = other_type 2;
  pkg = [];
}

abbrev own_a : Field
own_a = record { name = a_name; map_key = a_name; pointer = false; type = other_type 3; pkg = [] }

-- The shallower A replaces the one of E, behind the B of E.
outer_flat : parse_type_info [] true outer ≡ promoted_b ∷ own_a ∷ []
unfolding parse_type_info lookup put same_bytes map_key_less push_field
outer_flat = refl

outer_pointers : embedded_by_pointer true outer ≡ e_name ∷ []
unfolding embedded_by_pointer
outer_pointers = refl

-- struct { inner; A int }: no field of the embedded struct is taken.
abbrev hiding : StructFields
hiding =
    struct_field (b'i' ∷ []) true false [] (struct_type inner)
      (struct_field a_name false false [] (other_type 3) no_field)

hiding_flat : parse_type_info [] true hiding ≡ own_a ∷ []
unfolding parse_type_info lookup put same_bytes map_key_less push_field
hiding_flat = refl

parse_type_info-reach_example :
    (parse_type_info [] false outer ≡ exported [] outer)
    × Promotes (visible (reach [] true 0 outer)) (parse_type_info [] true outer)
parse_type_info-reach_example = parse_type_info-reach [] outer

abbrev outer_fields : List Field
outer_fields = parse_type_info [] true outer

outer_fields-Distinct : Distinct outer_fields
outer_fields-Distinct = (parse_type_info_fields [] outer).1.distinct

a_name-AskedFor : AskedFor (a_name ∷ []) outer_fields
unfolding parse_type_info lookup put same_bytes map_key_less push_field find_field
a_name-AskedFor = ((own_a, refl), tt, tt)

order_fields_first_example :
    (ordered : List Field) × (rest : List (List ℕ)) × (order_fields (a_name ∷ []) outer_fields
      ≡ some ordered)
    × (names_of ordered ≡ (a_name ∷ []) ++ rest)
order_fields_first_example =
    order_fields_first (a_name ∷ []) outer_fields outer_fields-Distinct a_name-AskedFor
