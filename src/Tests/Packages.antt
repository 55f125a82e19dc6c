-- ===== src/Tests/Packages.antt =====
-- The names of packages on concrete paths.
use cbor_gen.Prelude.{ℕ, ◌≡◌, refl, arith, List, [], ◌∷◌, ◌++◌, All, true, false, inl, inr}
use cbor_gen.Keys.{lookup, same_bytes, put, map_key_less}
use cbor_gen.Packages.{
  Names, resolved, panics, Import, init_names, resolve_default, resolve_pkg_name, allocated,
  split_dot,
}
use cbor_gen.Packages.Invariant.{IsValid, Resolves, resolve_default-Resolves, allocated-Resolves}
use cbor_gen.Packages.Imports.{GoType, slice_type, map_type, named_type, IsNamed, Imports, IsKnown}
use cbor_gen.Generate.{struct_kind, with_methods, map_kind, slice_kind, bool_kind}
use cbor_gen.Packages.Present.{OnePath}
use cbor_gen.Packages.Unique.{NamesApart}
use cbor_gen.Packages.Printed.{
  TypedField, default_imports, cbg_import, xerrors_import, cid_import, header_imports,
}
use cbor_gen.Packages.Covered.{FieldNamed, FieldSpells, header_imports-Spell}
use cbor_gen.Packages.Init.{no_names, init_names_duplicate}

abbrev cid_name : List ℕ
cid_name = b'c' ∷ b'i' ∷ b'd' ∷ []

-- Two packages named cid, by the paths x/cid and y/cid.
abbrev x_path : List ℕ
x_path = b'x' ∷ b'/' ∷ cid_name

abbrev y_path : List ℕ
y_path = b'y' ∷ b'/' ∷ cid_name

abbrev cid_type : List ℕ
cid_type = b'c' ∷ b'i' ∷ b'd' ∷ b'.' ∷ b'C' ∷ []

abbrev sort_name : List ℕ
sort_name = b's' ∷ b'o' ∷ b'r' ∷ b't' ∷ []

abbrev one_name : Names
one_name = allocated cid_name x_path no_names

no_names-IsValid : IsValid no_names
unfolding lookup
no_names-IsValid = record { forth = λ n p e. ground (arith, e); back = λ n p e. ground (arith, e) }

one_name-IsValid : IsValid one_name
unfolding lookup
one_name-IsValid = (allocated-Resolves cid_name x_path no_names refl refl no_names-IsValid).valid

-- The second one is cid1.
second_name :
    resolve_pkg_name y_path cid_type one_name
    ≡ resolved
        (b'c' ∷ b'i' ∷ b'd' ∷ b'1' ∷ [])
        (allocated (b'c' ∷ b'i' ∷ b'd' ∷ b'1' ∷ []) y_path one_name)
unfolding resolve_pkg_name lookup put same_bytes map_key_less
second_name = refl

no_package : resolve_pkg_name y_path cid_name one_name ≡ panics
unfolding resolve_pkg_name
no_package = refl

resolve_default-Resolves_example :
    (name : List ℕ) × (t : Names) × (resolve_default y_path cid_name one_name ≡ resolved name t)
    × Resolves y_path name one_name t
resolve_default-Resolves_example =
    resolve_default-Resolves y_path cid_name one_name one_name-IsValid

-- map[cid.Cid][]cid.Cid, of both packages.
abbrev two_cids : GoType
two_cids =
    map_type (named_type x_path cid_type (b'C' ∷ []))
      (slice_type (named_type y_path cid_type (b'C' ∷ [])))

two_cids-IsNamed : IsNamed [] two_cids
unfolding split_dot
two_cids-IsNamed = (inr (cid_name, b'C' ∷ [], refl), inr (cid_name, b'C' ∷ [], refl))

-- What `init` leaves.
abbrev pub default_names : Names
default_names = allocated cid_import.name cid_import.pkg_path (
    allocated xerrors_import.name xerrors_import.pkg_path
      (allocated cbg_import.name cbg_import.pkg_path no_names))

init_default_names : init_names default_imports no_names ≡ resolved tt default_names
unfolding init_names lookup put same_bytes map_key_less
init_default_names = refl

pub default_names-IsValid : IsValid default_names
unfolding lookup put same_bytes map_key_less
default_names-IsValid =
    let first =
      allocated-Resolves cbg_import.name cbg_import.pkg_path no_names refl refl no_names-IsValid in
    let second =
      allocated-Resolves xerrors_import.name xerrors_import.pkg_path _ refl refl first.valid in
    (allocated-Resolves cid_import.name cid_import.pkg_path _ refl refl second.valid).valid

pub default_imports-IsKnown : All (IsKnown default_names) default_imports
unfolding lookup put same_bytes map_key_less
default_imports-IsKnown = (refl, (refl, (refl, tt)))

-- The name sort is free, though the header has an import of that name.
sort_taken_twice :
    (t : Names) × (resolve_pkg_name
        (b'x' ∷ b'/' ∷ sort_name)
        (sort_name ++ (b'.' ∷ b'T' ∷ []))
        default_names
      ≡ resolved sort_name t)
unfolding resolve_pkg_name lookup put same_bytes map_key_less
sort_taken_twice = (_, refl)

-- struct { *cid.C; map[cid.C][]cid.C; bool }, of two packages named cid, none of them go-cid.
abbrev two_cid_fields : List TypedField
two_cid_fields =
    record {
      pointer = true;
      kind = struct_kind with_methods 0;
      pkg = [];
      type = named_type x_path cid_type (b'C' ∷ []);
    }
    ∷ record {
      pointer = false;
      kind = map_kind (struct_kind with_methods 0) (slice_kind (struct_kind with_methods 1));
      pkg = [];
      type = two_cids;
    }
    ∷ record { pointer = false; kind = bool_kind; pkg = []; type = named_type [] [] [] }
    ∷ []

two_cid_fields-FieldNamed : All FieldNamed two_cid_fields
unfolding split_dot
two_cid_fields-FieldNamed =
    (inr (inr (cid_name, b'C' ∷ [], refl)), (inr two_cids-IsNamed, (inl refl, tt)))

header_imports-Spell_example :
    (imps : List Import) × (u : Names) × (header_imports (two_cid_fields ∷ []) default_names
      ≡ resolved imps u)
    × Imports default_names u imps
    × OnePath imps
    × NamesApart imps
    × All (All (FieldSpells imps u)) (two_cid_fields ∷ [])
header_imports-Spell_example =
    header_imports-Spell (two_cid_fields ∷ []) default_names (two_cid_fields-FieldNamed, tt)
      default_imports-IsKnown default_names-IsValid

init_names_duplicate_example :
    (t : Names) × (init_names
        (record { name = cid_name; pkg_path = x_path }
          ∷ record { name = cid_type; pkg_path = x_path }
          ∷ [])
        no_names
      ≡ resolved tt t)
    × ¬ IsValid t
init_names_duplicate_example =
    init_names_duplicate cid_name cid_type x_path (λ e. ground (arith, e)) (λ e. ground (arith, e))
