-- ===== src/Reflect/Leaves.antt =====
-- The fields that `parseTypeInfoRecur` comes to, in its order and each with its depth.
use cbor_gen.Prelude.{
  ℕ, suc, ◌≡◌, refl, sym, ap, ◌∙◌, List, [], ◌∷◌, ◌++◌, append_assoc, append-nil, Bool, true, false,
  Bool-cases, inl, inr, if◌then◌else◌,
}
use cbor_gen.Reflect.{
  FieldType, struct_type, other_type, StructFields, no_field, struct_field, Field, name_is_exported,
  Parse, push_field, push_back, map_key_of, parse_fields, parse_field, values,
}

-- The exported fields of a struct, and in place of an embedded struct its own.
unfoldable mutual
  pub leaves : List ℕ → ℕ → StructFields → List (ℕ × Field)
  leaves pkg depth no_field = []
  leaves pkg depth (struct_field name anonymous pointer tag type fs) =
      let rest = leaves pkg depth fs in
      let first = leaf pkg depth name anonymous pointer tag type in
      if name_is_exported name then first ++ rest else rest

  pub leaf : List ℕ → ℕ → List ℕ → Bool → Bool → List ℕ → FieldType → List (ℕ × Field)
  leaf pkg depth name anonymous pointer tag (struct_type fs) =
      let inner = leaves pkg (suc depth) fs in
      if anonymous
      then inner
      else (
        depth,
        record {
          name = name;
          map_key = map_key_of name tag;
          pointer = pointer;
          type = struct_type fs;
          pkg = pkg;
        },
      )
        ∷ []
  leaf pkg depth name anonymous pointer tag (other_type n) =
      (
        depth,
        record {
          name = name;
          map_key = map_key_of name tag;
          pointer = pointer;
          type = other_type n;
          pkg = pkg;
        },
      )
      ∷ []

-- The exported fields of a struct.
unfoldable pub exported : List ℕ → StructFields → List Field
exported pkg no_field = []
exported pkg (struct_field name anonymous pointer tag type fs) =
    let rest = exported pkg fs in
    if name_is_exported name
    then record {
      name = name;
      map_key = map_key_of name tag;
      pointer = pointer;
      type = type;
      pkg = pkg;
    }
      ∷ rest
    else rest

abbrev pub push_all : List (ℕ × Field) → Parse → Parse
push_all [] s = s
push_all ((d, f) ∷ ls) s = push_all ls (push_field true d f s)

push_all-append :
    (ls ms : List (ℕ × Field)) (s : Parse) → push_all (ls ++ ms) s ≡ push_all ms (push_all ls s)
push_all-append [] ms s = refl
push_all-append ((d, f) ∷ ls) ms s = push_all-append ls ms (push_field true d f s)

mutual
  unfolding leaves parse_fields

  pub parse_fields-leaves :
      (pkg : List ℕ) (depth : ℕ) (fs : StructFields) (s : Parse)
      → parse_fields pkg true depth fs s ≡ push_all (leaves pkg depth fs) s
  parse_fields-leaves pkg depth no_field s = refl
  parse_fields-leaves pkg depth (struct_field name anonymous pointer tag type fs) s =
      elim (Bool-cases (name_is_exported name)) [
        | inl e ↦
            rw (e, push_all-append (leaf pkg depth name anonymous pointer tag type))
              (ap (λ t. parse_fields pkg true depth fs t)
                  (parse_field-leaf pkg depth name anonymous pointer tag type s)
                ∙ parse_fields-leaves pkg depth fs _)
        | inr e ↦ rw e (parse_fields-leaves pkg depth fs s)
      ]

  parse_field-leaf :
      (pkg : List ℕ) (depth : ℕ) (name : List ℕ) (anonymous pointer : Bool) (tag : List ℕ)
      (type : FieldType) (s : Parse)
      → parse_field pkg true depth name anonymous pointer tag type s
        ≡ push_all (leaf pkg depth name anonymous pointer tag type) s
  parse_field-leaf pkg depth name true pointer tag (struct_type fs) s =
      parse_fields-leaves pkg (suc depth) fs s
  parse_field-leaf pkg depth name false pointer tag (struct_type fs) s = refl
  parse_field-leaf pkg depth name anonymous pointer tag (other_type n) s = refl

values-append : (es ls : List (ℕ × Field)) → values (es ++ ls) ≡ values es ++ values ls
values-append [] ls = refl
values-append ((i, f) ∷ es) ls = rw (values-append es ls)

abbrev field_of : List ℕ → List ℕ → Bool → List ℕ → FieldType → Field
field_of pkg name pointer tag type = record {
  name = name;
  map_key = map_key_of name tag;
  pointer = pointer;
  type = type;
  pkg = pkg;
}

parse_field-push :
    (pkg : List ℕ) (depth : ℕ) (name : List ℕ) (anonymous pointer : Bool) (tag : List ℕ)
    (type : FieldType) (s : Parse)
    → parse_field pkg false depth name anonymous pointer tag type s
      ≡ push_back (field_of pkg name pointer tag type) s
unfolding parse_field
parse_field-push pkg depth name anonymous pointer tag (struct_type fs) s = refl
parse_field-push pkg depth name anonymous pointer tag (other_type n) s = refl

pub parse_fields-exported :
    (pkg : List ℕ) (depth : ℕ) (fs : StructFields) (s : Parse)
    → values (parse_fields pkg false depth fs s).elements ≡ values s.elements ++ exported pkg fs
unfolding exported parse_fields
parse_fields-exported pkg depth no_field s = sym (append-nil (values s.elements))
parse_fields-exported pkg depth (struct_field name anonymous pointer tag type fs) s =
    elim (Bool-cases (name_is_exported name)) [
      | inl e ↦
          rw
            (
              e,
              parse_field-push pkg depth name anonymous pointer tag type s,
              parse_fields-exported pkg depth fs (push_back (field_of pkg name pointer tag type) s),
              values-append s.elements,
              append_assoc,
            )
            refl
      | inr e ↦ rw e (parse_fields-exported pkg depth fs s)
    ]
