-- ===== src/Reflect/Reach.antt =====
-- The fields that Go promotes out of embedded structs, and those of them that the generator takes.
use cbor_gen.Prelude.{
  ℕ, suc, ◌≡◌, refl, ap, ◌∙◌, List, [], ◌∷◌, ◌++◌, Bool, true, false, ◌&&◌, if◌then◌else◌,
  Bool-cases, inl, inr,
}
use cbor_gen.Reflect.{
  FieldType, struct_type, other_type, StructFields, no_field, struct_field, Field, name_is_exported,
  map_key_of, parse_type_info,
}
use cbor_gen.Reflect.Leaves.{leaves, leaf, exported}
use cbor_gen.Reflect.Promoted.{Promotes, parse_type_info_fields}

abbrev pub field_at : List ℕ → List ℕ → Bool → List ℕ → FieldType → Field
field_at pkg name pointer tag type = record {
  name = name;
  map_key = map_key_of name tag;
  pointer = pointer;
  type = type;
  pkg = pkg;
}

-- The exported fields of a struct and of all structs embedded in it, whatever the names of these, each
-- with its depth, and whether all embedded structs on the way to it have exported names.
unfoldable mutual
  pub reach : List ℕ → Bool → ℕ → StructFields → List (Bool × (ℕ × Field))
  reach pkg seen depth no_field = []
  reach pkg seen depth (struct_field name anonymous pointer tag type fs) =
      let rest = reach pkg seen depth fs in
      reach_field pkg seen depth name anonymous pointer tag type ++ rest

  pub reach_field :
      List ℕ → Bool → ℕ → List ℕ → Bool → Bool → List ℕ → FieldType → List (Bool × (ℕ × Field))
  reach_field pkg seen depth name true pointer tag (struct_type fs) =
      reach pkg (seen && name_is_exported name) (suc depth) fs
  reach_field pkg seen depth name anonymous pointer tag type =
      if name_is_exported name then (seen, (depth, field_at pkg name pointer tag type)) ∷ [] else []

-- Those that are reached through exported names only.
abbrev pub visible : List (Bool × (ℕ × Field)) → List (ℕ × Field)
visible [] = []
visible ((true, l) ∷ ls) = l ∷ visible ls
visible ((false, l) ∷ ls) = visible ls

visible-append : (xs ys : List (Bool × (ℕ × Field))) → visible (xs ++ ys) ≡ visible xs ++ visible ys
visible-append [] ys = refl
visible-append ((true, l) ∷ xs) ys = ap (λ ls. l ∷ ls) (visible-append xs ys)
visible-append ((false, l) ∷ xs) ys = visible-append xs ys

one_hidden : (c : Bool) (l : ℕ × Field) → visible (if c then (false, l) ∷ [] else []) ≡ []
one_hidden true l = refl
one_hidden false l = refl

mutual
  unfolding reach

  hidden : (pkg : List ℕ) (depth : ℕ) (fs : StructFields) → visible (reach pkg false depth fs) ≡ []
  hidden pkg depth no_field = refl
  hidden pkg depth (struct_field name anonymous pointer tag type fs) =
      let first = hidden_field pkg depth name anonymous pointer tag type in
      let rest = hidden pkg depth fs in
      visible-append (reach_field pkg false depth name anonymous pointer tag type)
        (reach pkg false depth fs)
      ∙ rw (first, rest) refl

  hidden_field :
      (pkg : List ℕ) (depth : ℕ) (name : List ℕ) (anonymous pointer : Bool) (tag : List ℕ)
      (type : FieldType)
      → visible (reach_field pkg false depth name anonymous pointer tag type) ≡ []
  hidden_field pkg depth name true pointer tag (struct_type fs) = hidden pkg (suc depth) fs
  hidden_field pkg depth name false pointer tag (struct_type fs) =
      one_hidden (name_is_exported name) (depth, field_at pkg name pointer tag (struct_type fs))
  hidden_field pkg depth name true pointer tag (other_type n) =
      one_hidden (name_is_exported name) (depth, field_at pkg name pointer tag (other_type n))
  hidden_field pkg depth name false pointer tag (other_type n) =
      one_hidden (name_is_exported name) (depth, field_at pkg name pointer tag (other_type n))

mutual
  unfolding reach leaves

  visible-leaves :
      (pkg : List ℕ) (depth : ℕ) (fs : StructFields)
      → visible (reach pkg true depth fs) ≡ leaves pkg depth fs
  visible-leaves pkg depth no_field = refl
  visible-leaves pkg depth (struct_field name anonymous pointer tag type fs) =
      let rest = visible-leaves pkg depth fs in
      visible-append (reach_field pkg true depth name anonymous pointer tag type)
        (reach pkg true depth fs)
      ∙ elim (Bool-cases (name_is_exported name)) [
        | inl e ↦ rw (e, visible-leaf pkg depth name anonymous pointer tag type e, rest) refl
        | inr e ↦ rw (e, visible-none pkg depth name anonymous pointer tag type e, rest) refl
      ]

  visible-leaf :
      (pkg : List ℕ) (depth : ℕ) (name : List ℕ) (anonymous pointer : Bool) (tag : List ℕ)
      (type : FieldType)
      → name_is_exported name ≡ true
      → visible (reach_field pkg true depth name anonymous pointer tag type)
        ≡ leaf pkg depth name anonymous pointer tag type
  visible-leaf pkg depth name true pointer tag (struct_type fs) e =
      rw e (visible-leaves pkg (suc depth) fs)
  visible-leaf pkg depth name false pointer tag (struct_type fs) e = rw e refl
  visible-leaf pkg depth name true pointer tag (other_type n) e = rw e refl
  visible-leaf pkg depth name false pointer tag (other_type n) e = rw e refl

  visible-none :
      (pkg : List ℕ) (depth : ℕ) (name : List ℕ) (anonymous pointer : Bool) (tag : List ℕ)
      (type : FieldType)
      → name_is_exported name ≡ false
      → visible (reach_field pkg true depth name anonymous pointer tag type) ≡ []
  visible-none pkg depth name true pointer tag (struct_type fs) e = rw e (hidden pkg (suc depth) fs)
  visible-none pkg depth name false pointer tag (struct_type fs) e = rw e refl
  visible-none pkg depth name true pointer tag (other_type n) e = rw e refl
  visible-none pkg depth name false pointer tag (other_type n) e = rw e refl

-- The fields that `ParseTypeInfo` returns are the exported fields of the struct in their order;
-- with flattening they are, of the exported fields of the struct and of the structs embedded in
-- it, without those that are reached through a struct embedded under a name that is not
-- exported, one for each name, each at the least depth that its name has.
pub parse_type_info-reach :
    (pkg : List ℕ) (fs : StructFields)
    → (parse_type_info pkg false fs ≡ exported pkg fs)
      × Promotes (visible (reach pkg true 0 fs)) (parse_type_info pkg true fs)
parse_type_info-reach pkg fs =
    let (plain, flat) = parse_type_info_fields pkg fs in (plain, rw (visible-leaves pkg 0 fs) flat)
