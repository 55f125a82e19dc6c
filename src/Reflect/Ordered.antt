-- ===== src/Reflect/Ordered.antt =====
-- The order of the fields in `WriteTupleEncodersToFile` of writefile.go.
use cbor_gen.Prelude.{ℕ, List, [], ◌∷◌, ◌++◌, length, Option, none, some, ◌==◌, if◌then◌else◌}
use cbor_gen.Keys.{same_bytes}
use cbor_gen.Reflect.{Field}

-- `fieldMap[name]`, where the map is the list of the fields that are in it, with names of their own.
unfoldable pub find_field : List ℕ → List Field → Option Field
unfolding same_bytes
find_field name [] = none
find_field name (f ∷ fs) =
    let rest = find_field name fs in if same_bytes name f.name then some f else rest

-- `delete(fieldMap, name)`
unfoldable pub delete_field : List ℕ → List Field → List Field
unfolding same_bytes
delete_field name [] = []
delete_field name (f ∷ fs) =
    let rest = delete_field name fs in if same_bytes name f.name then rest else f ∷ rest

-- `fieldMap[f.Name] = &gti.Fields[i]`, for each of the fields.
unfoldable pub field_map : List Field → List Field → List Field
unfolding delete_field
field_map [] map = map
field_map (f ∷ fs) map = field_map fs (f ∷ delete_field f.name map)

-- The fields of `fieldOrder`, which are taken out of the map.
unfoldable pub pick_fields : List (List ℕ) → List Field → List Field → List Field × List Field
unfolding find_field delete_field
pick_fields [] ordered map = (ordered, map)
pick_fields (name ∷ names) ordered map = elim (find_field name map) [
  | none ↦ pick_fields names ordered map
  | some f ↦ pick_fields names (ordered ++ (f ∷ [])) (delete_field name map)
]

abbrev pub cons_found : Option Field → Field → List Field → List Field
cons_found none f rest = rest
cons_found (some g) f rest = f ∷ rest

-- The fields that are still in the map.
unfoldable pub remaining_fields : List Field → List Field → List Field
unfolding find_field
remaining_fields map [] = []
remaining_fields map (f ∷ fs) = cons_found (find_field f.name map) f (remaining_fields map fs)

-- `none` is the panic "Bug: len(ordered) != len(gti.Fields)".
unfoldable pub order_fields : List (List ℕ) → List Field → Option (List Field)
unfolding field_map pick_fields remaining_fields
order_fields names fields =
    let picked = pick_fields names [] (field_map fields []) in
    let ordered = picked.0 ++ remaining_fields picked.1 fields in
    if length ordered == length fields then some ordered else none
