-- ===== src/Embed/Nil.antt =====
-- The pointers to embedded structs that are nil behind `InitNilEmbeddedStruct`.
use cbor_gen.Prelude.{
  ◌↔◌, ℕ, ◌≡◌, refl, ap, Bool, true, false, ◌&&◌, if◌then◌else◌, Option, none, some,
}
use cbor_gen.Reflect.{
  FieldType, struct_type, other_type, StructFields, no_field, struct_field, name_is_exported,
}
use cbor_gen.Embed.{
  OrNil, StructValue, FieldValue, zero_value, or_zero, init_nil, set_embedded, set_field,
  has_method,
}

abbrev pub If : Bool → Type 0 → Type 0
If true A = A
If false A = Unit {0}

-- No struct that is embedded under an exported name, at any depth, is embedded by pointer.
abbrev mutual
  pub Solid : StructFields → Type 0
  Solid no_field = Unit {0}
  Solid (struct_field name anonymous pointer tag type fs) =
      If (name_is_exported name && anonymous) (SolidField pointer type) × Solid fs

  pub SolidField : Bool → FieldType → Type 0
  SolidField true (struct_type fs) = ⊥
  SolidField false (struct_type fs) = Solid fs
  SolidField pointer (other_type n) = Unit {0}

-- A struct that is embedded by value embeds none by pointer.
abbrev mutual
  pub ByPointer : StructFields → Type 0
  ByPointer no_field = Unit {0}
  ByPointer (struct_field name anonymous pointer tag type fs) =
      If (name_is_exported name && anonymous) (ByPointerField pointer type) × ByPointer fs

  pub ByPointerField : Bool → FieldType → Type 0
  ByPointerField true (struct_type fs) = ByPointer fs
  ByPointerField false (struct_type fs) = Solid fs
  ByPointerField pointer (other_type n) = Unit {0}

abbrev pub IsSetTo : {A : Type 0} → (A → Type 0) → Option A → Type 0
IsSetTo P none = ⊥
IsSetTo P (some a) = P a

module _ (Other : ℕ → Type 0) (zero_of : (n : ℕ) → Other n) where
  -- No pointer to a struct that is embedded under an exported name, at any depth, is nil.
  abbrev mutual
    pub AllSet : (fs : StructFields) → StructValue Other zero_of fs → Type 0
    AllSet no_field v = Unit {0}
    AllSet (struct_field name anonymous pointer tag type fs) (v, vs) =
        If (name_is_exported name && anonymous) (FieldSet pointer type v) × AllSet fs vs

    pub FieldSet :
        (pointer : Bool) (type : FieldType) → OrNil pointer (FieldValue Other zero_of type) → Type 0
    FieldSet true (struct_type fs) v = IsSetTo (AllSet fs) v
    FieldSet false (struct_type fs) v = AllSet fs v
    FieldSet true (other_type n) v = Unit {0}
    FieldSet false (other_type n) v = Unit {0}

  If-map : (c : Bool) {A B : Type 0} → (A → B) → If c A → If c B
  If-map true f h = f h
  If-map false f h = tt

  -- A struct with no pointers has none that is nil.
  mutual
    Solid-AllSet : (fs : StructFields) (v : StructValue Other zero_of fs) → Solid fs → AllSet fs v
    Solid-AllSet no_field v h = tt
    Solid-AllSet (struct_field name anonymous pointer tag type fs) (v, vs) (h, hs) = (
      If-map (name_is_exported name && anonymous) (SolidField-FieldSet pointer type v) h,
      Solid-AllSet fs vs hs,
    )

    SolidField-FieldSet :
        (pointer : Bool) (type : FieldType) (v : OrNil pointer (FieldValue Other zero_of type))
        → SolidField pointer type
        → FieldSet pointer type v
    SolidField-FieldSet true (struct_type fs) v h = absurd h
    SolidField-FieldSet false (struct_type fs) v h = Solid-AllSet fs v h
    SolidField-FieldSet true (other_type n) v h = tt
    SolidField-FieldSet false (other_type n) v h = tt

  -- Before the call: of the structs that are embedded by pointer, or zero ones in the place of nil,
  -- those that stand by value have no nil pointer.
  abbrev mutual
    pub BelowSet : (fs : StructFields) → StructValue Other zero_of fs → Type 0
    BelowSet no_field v = Unit {0}
    BelowSet (struct_field name anonymous pointer tag type fs) (v, vs) =
        If (name_is_exported name && anonymous) (FieldBelow pointer type v) × BelowSet fs vs

    pub FieldBelow :
        (pointer : Bool) (type : FieldType) → OrNil pointer (FieldValue Other zero_of type) → Type 0
    FieldBelow true (struct_type fs) v = BelowSet fs (or_zero (zero_value Other zero_of fs) v)
    FieldBelow false (struct_type fs) v = AllSet fs v
    FieldBelow true (other_type n) v = Unit {0}
    FieldBelow false (other_type n) v = Unit {0}

  set_if :
      (c pointer : Bool) (type : FieldType) (v u : OrNil pointer (FieldValue Other zero_of type))
      → (FieldSet pointer type u ↔ FieldBelow pointer type v)
      → If c (FieldSet pointer type (if c then u else v)) ↔ If c (FieldBelow pointer type v)
  set_if true pointer type v u h = h
  set_if false pointer type v u h = ((λ x. x), (λ x. x))

  mutual
    unfolding set_embedded

    set_embedded-AllSet :
        (fs : StructFields) (v : StructValue Other zero_of fs)
        → AllSet fs (set_embedded Other zero_of fs v) ↔ BelowSet fs v
    set_embedded-AllSet no_field v = ((λ x. x), (λ x. x))
    set_embedded-AllSet (struct_field name anonymous pointer tag type fs) (v, vs) =
        let first =
          set_if (name_is_exported name && anonymous) pointer type v
            (set_field Other zero_of pointer type v) (set_field-FieldSet pointer type v) in
        let rest = set_embedded-AllSet fs vs in
        ((λ x. (first.0 x.0, rest.0 x.1)), (λ x. (first.1 x.0, rest.1 x.1)))

    set_field-FieldSet :
        (pointer : Bool) (type : FieldType) (v : OrNil pointer (FieldValue Other zero_of type))
        → FieldSet pointer type (set_field Other zero_of pointer type v) ↔ FieldBelow pointer type v
    set_field-FieldSet true (struct_type fs) v =
        set_embedded-AllSet fs (or_zero (zero_value Other zero_of fs) v)
    set_field-FieldSet false (struct_type fs) v = ((λ x. x), (λ x. x))
    set_field-FieldSet true (other_type n) v = ((λ x. x), (λ x. x))
    set_field-FieldSet false (other_type n) v = ((λ x. x), (λ x. x))

  -- The types where this is known: what is embedded by value embeds none by pointer.
  mutual
    pub ByPointer-BelowSet :
        (fs : StructFields) (v : StructValue Other zero_of fs) → ByPointer fs → BelowSet fs v
    ByPointer-BelowSet no_field v h = tt
    ByPointer-BelowSet (struct_field name anonymous pointer tag type fs) (v, vs) (h, hs) = (
      If-map (name_is_exported name && anonymous) (ByPointer-FieldBelow pointer type v) h,
      ByPointer-BelowSet fs vs hs,
    )

    ByPointer-FieldBelow :
        (pointer : Bool) (type : FieldType) (v : OrNil pointer (FieldValue Other zero_of type))
        → ByPointerField pointer type
        → FieldBelow pointer type v
    ByPointer-FieldBelow true (struct_type fs) v h =
        ByPointer-BelowSet fs (or_zero (zero_value Other zero_of fs) v) h
    ByPointer-FieldBelow false (struct_type fs) v h = Solid-AllSet fs v h
    ByPointer-FieldBelow true (other_type n) v h = tt
    ByPointer-FieldBelow false (other_type n) v h = tt

  twice_if :
      (c : Bool) {A : Type 0} (f : A → A) (v : A)
      → f (f v) ≡ f v
      → (if c then f (if c then f v else v) else (if c then f v else v)) ≡ (if c then f v else v)
  twice_if true f v h = h
  twice_if false f v h = refl

  mutual
    unfolding set_embedded

    set_embedded_twice :
        (fs : StructFields) (v : StructValue Other zero_of fs)
        → set_embedded Other zero_of fs (set_embedded Other zero_of fs v)
          ≡ set_embedded Other zero_of fs v
    set_embedded_twice no_field v = refl
    set_embedded_twice (struct_field name anonymous pointer tag type fs) (v, vs) =
        let first =
          twice_if (name_is_exported name && anonymous) (set_field Other zero_of pointer type) v
            (set_field_twice pointer type v) in
        let rest = set_embedded_twice fs vs in rw (first, rest) refl

    set_field_twice :
        (pointer : Bool) (type : FieldType) (v : OrNil pointer (FieldValue Other zero_of type))
        → set_field Other zero_of pointer type (set_field Other zero_of pointer type v)
          ≡ set_field Other zero_of pointer type v
    set_field_twice true (struct_type fs) v =
        ap (λ u. some u) (set_embedded_twice fs (or_zero (zero_value Other zero_of fs) v))
    set_field_twice false (struct_type fs) v = refl
    set_field_twice true (other_type n) v = refl
    set_field_twice false (other_type n) v = refl

  -- Where the text of `InitNilEmbeddedStruct` parses, for the struct and for those whose method
  -- it calls (none of them embeds more than one struct by pointer under an exported name):
  -- behind the call no pointer to a struct that is embedded under an exported name is nil, at
  -- any depth, exactly where before it none was nil in the structs that are embedded by value,
  -- in the struct, in those its pointers lead to, or in the zero ones that replace nil. A second
  -- call changes nothing.
  pub init_nil_sets :
      (fs : StructFields) (v : StructValue Other zero_of fs)
      → has_method fs ≡ true
      → (set : StructValue Other zero_of fs) × (init_nil Other zero_of fs v ≡ some set)
        × (AllSet fs set ↔ BelowSet fs v)
        × (init_nil Other zero_of fs set ≡ some set)
  unfolding init_nil
  init_nil_sets fs v h =
      let set = set_embedded Other zero_of fs v in
      (set, rw h refl, set_embedded-AllSet fs v, rw h (ap (λ u. some u) (set_embedded_twice fs v)))
