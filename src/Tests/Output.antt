-- ===== src/Tests/Output.antt =====
-- The files of the generator on concrete types. The text is the number of types, and a disk is the
-- list of what was written to it.
use cbor_gen.Prelude.{
  ℕ, zero, suc, ◌≡◌, refl, List, [], ◌∷◌, length, Option, none, some, true, false,
}
use cbor_gen.Keys.{lookup, put, same_bytes, map_key_less}
use cbor_gen.Reflect.{other_type, StructFields, no_field, struct_field, FieldType}
use cbor_gen.Reflect.Ordered.{find_field}
use cbor_gen.Tuple.{w64}
use cbor_gen.Generate.{GoKind, string_kind, int_kind, other_kind, unsupported_kind}
use cbor_gen.Packages.{Names, allocated, resolve_pkg_name}
use cbor_gen.Packages.Imports.{GoType, named_type}
use cbor_gen.Tests.Packages.{default_names}
use cbor_gen.Output.{
  GoStruct, Toolchain, Files, written, refused, write_tuple_encoders_to_file,
  write_map_encoders_to_file,
}

-- Type 0 is int64, type 1 is string, and the others have kinds that are not supported.
abbrev kind_of_type : FieldType → GoKind
kind_of_type (other_type zero) = int_kind w64
kind_of_type (other_type (suc zero)) = string_kind
kind_of_type type = other_kind

-- int64, and a string type T of a package x.
abbrev named_as : FieldType → GoType
named_as (other_type (suc zero)) = named_type (b'x' ∷ []) (b'x' ∷ b'.' ∷ b'T' ∷ []) (b'T' ∷ [])
named_as type = named_type [] (b'i' ∷ b'n' ∷ b't' ∷ []) (b'i' ∷ b'n' ∷ b't' ∷ [])

abbrev go : Toolchain ℕ
go = record {
  kind_at = λ f. kind_of_type f.type;
  type_at = λ f. named_as f.type;
  print = λ imps infos. length infos;
  format = λ n. some n;
}

abbrev os : Files (List ℕ) ℕ
os = record { create = λ d. (d, none); write_text = λ d text. (text ∷ d, none) }

-- struct { A int64; Bc string }
abbrev pair_fields : StructFields
pair_fields =
    struct_field (b'A' ∷ []) false false [] (other_type 0)
      (struct_field (b'B' ∷ b'c' ∷ []) false false [] (other_type 1) no_field)

abbrev pair : GoStruct
pair = record { pkg = []; fields = pair_fields }

-- struct { A chan int }
abbrev channel : GoStruct
channel = record {
  pkg = [];
  fields = struct_field (b'A' ∷ []) false false [] (other_type 9) no_field;
}

abbrev order : Option (List (List ℕ))
order = some ((b'B' ∷ b'c' ∷ []) ∷ [])

-- The names with the package x.
abbrev x_names : Names
x_names = allocated (b'x' ∷ []) (b'x' ∷ []) default_names

write_pair :
    write_tuple_encoders_to_file go os true order (pair ∷ []) [] default_names
    ≡ ((1 ∷ [], written), x_names)
unfolding write_tuple_encoders_to_file lookup put same_bytes map_key_less find_field
    resolve_pkg_name
write_pair = refl

write_channel :
    write_map_encoders_to_file go os true (pair ∷ channel ∷ []) (3 ∷ []) default_names
    ≡ ((3 ∷ [], refused unsupported_kind), x_names)
unfolding write_map_encoders_to_file lookup put same_bytes map_key_less resolve_pkg_name
write_channel = refl
