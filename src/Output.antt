-- ===== src/Output.antt =====
-- writefile.go: `WriteTupleEncodersToFile` and `WriteMapEncodersToFile`, from the types to the file.
-- The text that the templates make of the types is a parameter, as are go/format and package os.
pub mod Disk
use cbor_gen.Prelude.{ℕ, List, [], ◌∷◌, Bool, true, false, Option, none, some, if◌then◌else◌}
use cbor_gen.Keys.{map_key_less}
use cbor_gen.Reflect.{StructFields, Field, parse_type_info}
use cbor_gen.Reflect.Ordered.{order_fields}
use cbor_gen.Packages.{Names, Resolved, resolved, panics, stuck, Import}
use cbor_gen.Packages.Imports.{GoType}
use cbor_gen.Packages.Printed.{TypedField, header_imports}
use cbor_gen.Generate.{
  GoKind, GenError, GenField, GenResult, and_then, gen_tuple_encoders, gen_map_encoders,
}

-- A struct type: its package and its fields.
pub record GoStruct : Type 0 where
  pub pkg : List ℕ
  pub fields : StructFields

-- `kind_at` is a field's type by its `Kind`, and `type_at` by its names; `print` the text for the
-- types, with the header and its imports; `format` is `format.Source`, or `none` on its error.
pub record Toolchain (Text : Type 0) : Type 0 where
  pub kind_at : Field → GoKind
  pub type_at : Field → GoType
  pub print : List Import → List (List Field) → Text
  pub format : Text → Option Text

-- `os.Create` of the file, and `Write` to it, each with its error.
pub record Files (D Text : Type 0) : Type 0 where
  pub create : D → D × Option ℕ
  pub write_text : D → Text → D × Option ℕ

-- How a call ends: without an error, with a panic, or with an error of the generator, of
-- go/format or of package os; `endless` is no end that Go has (see `stuck` of Packages).
pub data Outcome : Type 0 where
  written panicking endless : Outcome
  refused : GenError → Outcome
  unformatted : Outcome
  create_failed write_failed : ℕ → Outcome

-- `if fieldOrder != nil`
abbrev pub in_order : Option (List (List ℕ)) → List Field → Option (List Field)
in_order none fields = some fields
in_order (some names) fields = order_fields names fields

abbrev pub cons_info : Option (List Field) → Option (List (List Field)) → Option (List (List Field))
cons_info (some fields) (some infos) = some (fields ∷ infos)
cons_info fields infos = none

-- The loop of `WriteTupleEncodersToFile` over the types, or `none` for its panic.
unfoldable pub tuple_infos :
    Bool → Option (List (List ℕ)) → List GoStruct → Option (List (List Field))
unfolding order_fields parse_type_info
tuple_infos flatten order [] = some []
tuple_infos flatten order (t ∷ ts) =
    cons_info (in_order order (parse_type_info t.pkg flatten t.fields))
      (tuple_infos flatten order ts)

-- `sort.Slice` by `Name`; a sort by insertion stands for it.
unfoldable pub insert_field : Field → List Field → List Field
unfolding map_key_less
insert_field f [] = f ∷ []
insert_field f (g ∷ gs) =
    let rest = insert_field f gs in if map_key_less g.name f.name then g ∷ rest else f ∷ g ∷ gs

unfoldable pub sort_fields : List Field → List Field
unfolding insert_field
sort_fields [] = []
sort_fields (f ∷ fs) = insert_field f (sort_fields fs)

-- The loop of `WriteMapEncodersToFile` over the types.
unfoldable pub map_infos : Bool → List GoStruct → List (List Field)
unfolding sort_fields parse_type_info
map_infos flatten [] = []
map_infos flatten (t ∷ ts) =
    sort_fields (parse_type_info t.pkg flatten t.fields) ∷ map_infos flatten ts

module _ {Text D : Type 0} (go : Toolchain Text) (os : Files D Text) where
  abbrev pub gen_fields : List Field → List GenField
  gen_fields [] = []
  gen_fields (f ∷ fs) = record { pointer = f.pointer; kind = go.kind_at f } ∷ gen_fields fs

  -- A field as the imports are gathered from it.
  abbrev pub typed : Field → TypedField
  typed f = record { pointer = f.pointer; kind = go.kind_at f; pkg = f.pkg; type = go.type_at f }

  abbrev pub typed_fields : List Field → List TypedField
  typed_fields [] = []
  typed_fields (f ∷ fs) = typed f ∷ typed_fields fs

  abbrev pub typed_infos : List (List Field) → List (List TypedField)
  typed_infos [] = []
  typed_infos (info ∷ infos) = typed_fields info ∷ typed_infos infos

  -- The loop that calls the generator for each type.
  unfoldable pub gen_all : (List GenField → GenResult) → List (List Field) → GenResult
  gen_all gen [] = none
  gen_all gen (info ∷ infos) = and_then (gen (gen_fields info)) (gen_all gen infos)

  -- `fi.Write(data)`
  abbrev pub written_to : D × Option ℕ → D × Outcome
  written_to (d, none) = (d, written)
  written_to (d, some e) = (d, write_failed e)

  abbrev pub created : Text → D × Option ℕ → D × Outcome
  created text (d, none) = written_to (os.write_text d text)
  created text (d, some e) = (d, create_failed e)

  abbrev pub formatted : D → Option Text → D × Outcome
  formatted d none = (d, unformatted)
  formatted d (some text) = created text (os.create d)

  abbrev pub generated : List Import → List (List Field) → D → GenResult → D × Outcome
  generated imps infos d none = formatted d (go.format (go.print imps infos))
  generated imps infos d (some e) = (d, refused e)

  -- Behind the header, with the names of packages that it leaves.
  abbrev pub headed :
      (List GenField → GenResult)
      → List (List Field)
      → D
      → Names
      → Resolved (List Import)
      → (D × Outcome) × Names
  headed gen infos d s (resolved imps u) = (generated imps infos d (gen_all gen infos), u)
  headed gen infos d s panics = ((d, panicking), s)
  headed gen infos d s stuck = ((d, endless), s)

  abbrev pub parsed :
      (List GenField → GenResult) → D → Names → Option (List (List Field)) → (D × Outcome) × Names
  parsed gen d s none = ((d, panicking), s)
  parsed gen d s (some infos) = headed gen infos d s (header_imports (typed_infos infos) s)

  unfoldable pub write_tuple_encoders_to_file :
      Bool → Option (List (List ℕ)) → List GoStruct → D → Names → (D × Outcome) × Names
  unfolding tuple_infos gen_all gen_tuple_encoders header_imports
  write_tuple_encoders_to_file flatten order types d s =
      parsed gen_tuple_encoders d s (tuple_infos flatten order types)

  unfoldable pub write_map_encoders_to_file :
      Bool → List GoStruct → D → Names → (D × Outcome) × Names
  unfolding map_infos gen_all gen_map_encoders header_imports
  write_map_encoders_to_file flatten types d s =
      parsed gen_map_encoders d s (some (map_infos flatten types))
