-- ===== src/Embed.antt =====
-- `InitNilEmbeddedStruct`, the method that `emitInitNilEmbeddedStructMethod` of gen.go emits for a
-- struct whose embedded structs are flattened, on the values of struct types. A type of a field
-- that is no struct is a parameter, by its number, with its zero value.
-- The emitted text parses where a struct embeds at most one struct by pointer; for more of them there
-- is no method. An embedded struct has the method that is emitted for it alike.
pub mod Nil
use cbor_gen.Prelude.{
  leb, length, ℕ, List, Bool, true, false, ◌&&◌, if◌then◌else◌, Option, none, some,
}
use cbor_gen.Reflect.{
  FieldType, struct_type, other_type, StructFields, no_field, struct_field, name_is_exported,
  embedded_by_pointer,
}

-- A pointer, which may be nil, or the value itself.
abbrev pub OrNil : Bool → Type 0 → Type 0
OrNil true A = Option A
OrNil false A = A

abbrev pub zero_or_nil : {A : Type 0} (pointer : Bool) → A → OrNil pointer A
zero_or_nil true a = none
zero_or_nil false a = a

-- `if t.F == nil { t.F = &F{} }`
abbrev pub or_zero : {A : Type 0} → A → Option A → A
or_zero z none = z
or_zero z (some a) = a

-- The text that the template makes of the names parses for one name at most: there is no newline
-- between two of them.
abbrev pub parses : List (List ℕ) → Bool
parses names = leb (length names) 1

-- The text for a struct parses, and that for the structs whose method it calls.
unfoldable mutual
  unfolding embedded_by_pointer

  pub methods_below : StructFields → Bool
  methods_below no_field = true
  methods_below (struct_field name anonymous pointer tag type fs) =
      let field = field_method pointer type in
      let rest = methods_below fs in
      if name_is_exported name && anonymous then field && rest else rest

  pub field_method : Bool → FieldType → Bool
  field_method true (struct_type fs) = parses (embedded_by_pointer true fs) && methods_below fs
  field_method pointer type = true

unfoldable pub has_method : StructFields → Bool
unfolding methods_below embedded_by_pointer
has_method fs = parses (embedded_by_pointer true fs) && methods_below fs

module _ (Other : ℕ → Type 0) (zero_of : (n : ℕ) → Other n) where
  -- The values of a struct: one for each field, and `none` for a nil pointer.
  abbrev mutual
    pub StructValue : StructFields → Type 0
    StructValue no_field = Unit {0}
    StructValue (struct_field name anonymous pointer tag type fs) =
        OrNil pointer (FieldValue type) × StructValue fs

    pub FieldValue : FieldType → Type 0
    FieldValue (struct_type fs) = StructValue fs
    FieldValue (other_type n) = Other n

  -- `T{}`
  unfoldable mutual
    pub zero_value : (fs : StructFields) → StructValue fs
    zero_value no_field = tt
    zero_value (struct_field name anonymous pointer tag type fs) =
        (zero_or_nil pointer (zero_field type), zero_value fs)

    pub zero_field : (type : FieldType) → FieldValue type
    zero_field (struct_type fs) = zero_value fs
    zero_field (other_type n) = zero_of n

  -- The body of the method, and what it does for an embedded field.
  unfoldable mutual
    unfolding zero_value

    pub set_embedded : (fs : StructFields) → StructValue fs → StructValue fs
    set_embedded no_field v = v
    set_embedded (struct_field name anonymous pointer tag type fs) (v, vs) =
        let embedded = set_field pointer type v in
        (if name_is_exported name && anonymous then embedded else v, set_embedded fs vs)

    pub set_field :
        (pointer : Bool) (type : FieldType)
        → OrNil pointer (FieldValue type)
        → OrNil pointer (FieldValue type)
    set_field true (struct_type fs) v = some (set_embedded fs (or_zero (zero_value fs) v))
    set_field true (other_type n) v = v
    set_field false type v = v

  -- The method on a struct that is not nil, where there is one.
  unfoldable pub init_nil : (fs : StructFields) → StructValue fs → Option (StructValue fs)
  unfolding set_embedded has_method
  init_nil fs v = if has_method fs then some (set_embedded fs v) else none
