-- ===== src/Output/Disk.antt =====
-- What a call of `WriteTupleEncodersToFile` or `WriteMapEncodersToFile` comes to, and the file.
use cbor_gen.Prelude.{◌≡◌, List, [], ◌∷◌, Bool, none, some, All}
use cbor_gen.Reflect.{Field, parse_type_info}
use cbor_gen.Packages.{Names, resolved, Import}
use cbor_gen.Packages.Imports.{Imports}
use cbor_gen.Packages.Unique.{NamesApart}
use cbor_gen.Packages.Printed.{header_imports}
use cbor_gen.Packages.Covered.{FieldNamed}
use cbor_gen.Generate.{GenField, GenResult}
use cbor_gen.Output.{
  GoStruct, Toolchain, Files, Outcome, written, panicking, endless, refused, unformatted,
  create_failed, write_failed, gen_all, typed, typed_infos,
}
use mathlib.Core.List.{Permᴰ}
use mathlib.Core.List.Permᴰ

-- For each type its fields, in some order.
abbrev pub Infos : Bool → List GoStruct → List (List Field) → Type 0
Infos flatten [] [] = Unit {0}
Infos flatten (t ∷ ts) (info ∷ infos) =
    Permᴰ (parse_type_info t.pkg flatten t.fields) info × Infos flatten ts infos
Infos flatten types infos = ⊥

module _ {Text D : Type 0} (go : Toolchain Text) (os : Files D Text) where
  -- What is known of the types, and of the disk that was `d`, behind each outcome.
  abbrev pub Ends :
      (List GenField → GenResult) → List Import → List (List Field) → D → D × Outcome → Type 0
  Ends gen imps infos d (d', panicking) = ⊥
  Ends gen imps infos d (d', endless) = ⊥
  Ends gen imps infos d (d', refused e) = (d' ≡ d) × (gen_all go os gen infos ≡ some e)
  Ends gen imps infos d (d', unformatted) =
      (d' ≡ d) × (gen_all go os gen infos ≡ none) × (go.format (go.print imps infos) ≡ none)
  Ends gen imps infos d (d', create_failed e) =
      (gen_all go os gen infos ≡ none) × (os.create d ≡ (d', some e))
  Ends gen imps infos d (d', write_failed e) =
      (gen_all go os gen infos ≡ none)
      × ((text : Text) × (new : D) × (go.format (go.print imps infos) ≡ some text)
          × (os.create d ≡ (new, none))
          × (os.write_text new text ≡ (d', some e)))
  Ends gen imps infos d (d', written) =
      (gen_all go os gen infos ≡ none)
      × ((text : Text) × (new : D) × (go.format (go.print imps infos) ≡ some text)
          × (os.create d ≡ (new, none))
          × (os.write_text new text ≡ (d', none)))

  -- The types outside of the package, of the fields of a type, have a package in their names.
  abbrev pub TypeNamed : Bool → GoStruct → Type 0
  TypeNamed flatten t =
      All (λ f. FieldNamed (typed go os f)) (parse_type_info t.pkg flatten t.fields)

  -- A call on the types, on names `s` and a disk `d`: the fields it works on and the imports.
  abbrev pub Writes :
      (List GenField → GenResult)
      → Bool
      → List GoStruct
      → Names
      → D
      → (D × Outcome) × Names
      → Type 0
  Writes gen flatten types s d (end, u) =
      (infos : List (List Field)) × (imps : List Import) × Infos flatten types infos
      × (header_imports (typed_infos go os infos) s ≡ resolved imps u)
      × Imports s u imps
      × NamesApart imps
      × Ends gen imps infos d end
