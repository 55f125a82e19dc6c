-- ===== src/Reflect.antt =====
-- `ParseTypeInfo` of gen.go: the fields that methods are emitted for, with the structs that are
-- embedded in a struct flattened or not. A struct embeds itself, at no depth, in none of its fields.
pub mod Leaves
pub mod Elements
pub mod Least
pub mod Promoted
pub mod Reach
pub mod Ordered
pub mod Picked
pub mod Permuted
use cbor_gen.Prelude.{
  ℕ, suc, List, [], ◌∷◌, ◌++◌, Option, none, some, Bool, true, false, if◌then◌else◌, ◌==◌, ◌&&◌,
  not, leb, ltb,
}
use cbor_gen.Keys.{lookup, put}
use cbor_gen.Tuple.{Entries}

-- A `reflect.Type`: a struct with its fields, or a number for another type; and the fields of a
-- struct, each with its `Name`, `Anonymous`, whether its type is a pointer, what `f.Tag.Get` returns,
-- and its type (behind the pointer).
mutual
  pub data FieldType : Type 0 where
    struct_type : StructFields → FieldType
    other_type : ℕ → FieldType

  pub data StructFields : Type 0 where
    no_field : StructFields
    struct_field : List ℕ → Bool → Bool → List ℕ → FieldType → StructFields → StructFields

pub record Field : Type 0 where
  pub name : List ℕ
  pub map_key : List ℕ
  pub pointer : Bool
  pub type : FieldType
  pub pkg : List ℕ

-- `strings.ToUpper(name[0:1]) == name[0:1]`: a byte of ASCII that is no lower case letter.
abbrev pub name_is_exported : List ℕ → Bool
name_is_exported [] = false
name_is_exported (b ∷ bs) = ltb b 0x80 && not (leb 0x61 b && leb b 0x7a)

-- The variables that `parseTypeInfoRecur` shares: the list with its elements, each with the number
-- that tells it apart, `fieldMap` from names to elements, `depths`, and the next element's number.
pub record Parse : Type 0 where
  pub elements : List (ℕ × Field)
  pub field_map : Entries ℕ
  pub depths : Entries ℕ
  pub next : ℕ

-- `fields.Remove(e)`
unfoldable pub remove : ℕ → List (ℕ × Field) → List (ℕ × Field)
remove i [] = []
remove i ((j, f) ∷ es) = let rest = remove i es in if i == j then es else (j, f) ∷ rest

abbrev pub remove_known : Option ℕ → List (ℕ × Field) → List (ℕ × Field)
remove_known none es = es
remove_known (some i) es = remove i es

-- `fieldMap[f.Name] = fields.PushBack(f)`
abbrev pub push_back : Field → Parse → Parse
push_back f s = record s {
  elements = s.elements ++ ((s.next, f) ∷ []);
  field_map = put f.name s.next s.field_map;
  next = suc s.next;
}

abbrev pub has_less_depth : Option ℕ → ℕ → Bool
has_less_depth none depth = false
has_less_depth (some prev_depth) depth = ltb prev_depth depth

-- A field that is not flattened itself.
unfoldable pub push_field : Bool → ℕ → Field → Parse → Parse
unfolding remove
push_field false depth f s = push_back f s
push_field true depth f s =
    if has_less_depth (lookup f.name s.depths) depth
    then s
    else push_back f (record s {
      elements = remove_known (lookup f.name s.field_map) s.elements;
      depths = put f.name depth s.depths;
    })

-- `mapk`
abbrev pub map_key_of : List ℕ → List ℕ → List ℕ
map_key_of name [] = name
map_key_of name (b ∷ tag) = b ∷ tag

-- The loop over the fields of a struct, and the body for a field that is exported.
unfoldable mutual
  unfolding push_field

  pub parse_fields : List ℕ → Bool → ℕ → StructFields → Parse → Parse
  parse_fields pkg flatten depth no_field s = s
  parse_fields pkg flatten depth (struct_field name anonymous pointer tag type fs) s =
      let skip = parse_fields pkg flatten depth fs s in
      let rest =
        parse_fields pkg flatten depth fs
          (parse_field pkg flatten depth name anonymous pointer tag type s) in
      if name_is_exported name then rest else skip

  pub parse_field : List ℕ → Bool → ℕ → List ℕ → Bool → Bool → List ℕ → FieldType → Parse → Parse
  parse_field pkg flatten depth name anonymous pointer tag (struct_type fs) s =
      let embedded = parse_fields pkg true (suc depth) fs s in
      if flatten && anonymous
      then embedded
      else push_field flatten depth
          (record {
            name = name;
            map_key = map_key_of name tag;
            pointer = pointer;
            type = struct_type fs;
            pkg = pkg;
          })
          s
  parse_field pkg flatten depth name anonymous pointer tag (other_type n) s =
      push_field flatten depth
        (record {
          name = name;
          map_key = map_key_of name tag;
          pointer = pointer;
          type = other_type n;
          pkg = pkg;
        })
        s

abbrev pub no_parse : Parse
no_parse = record { elements = []; field_map = []; depths = []; next = 0 }

abbrev pub values : List (ℕ × Field) → List Field
values [] = []
values ((i, f) ∷ es) = f ∷ values es

-- The fields of `ParseTypeInfo`'s result.
unfoldable pub parse_type_info : List ℕ → Bool → StructFields → List Field
unfolding parse_fields
parse_type_info pkg flatten fs = values (parse_fields pkg flatten 0 fs no_parse).elements

abbrev is_struct : FieldType → Bool
is_struct (struct_type fs) = true
is_struct (other_type n) = false

-- `embeddedByPointerStructs`, which nothing but the loop at depth 0 writes or reads.
unfoldable pub embedded_by_pointer : Bool → StructFields → List (List ℕ)
embedded_by_pointer flatten no_field = []
embedded_by_pointer flatten (struct_field name anonymous pointer tag type fs) =
    let rest = embedded_by_pointer flatten fs in
    if name_is_exported name && flatten && is_struct type && anonymous && pointer
    then name ∷ rest
    else rest
