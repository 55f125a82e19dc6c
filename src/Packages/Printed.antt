-- ===== src/Packages/Printed.antt =====
-- Where gen.go names types: `typeName`, `GenTypeInfo.Imports`, and the imports that
-- `PrintHeaderAndUtilityMethods` prints. The panic of `resolvePkgName` is passed on.
use cbor_gen.Prelude.{ℕ, suc, List, [], ◌∷◌, ◌++◌, Bool, true, false, not, if◌then◌else◌}
use cbor_gen.Keys.{same_bytes}
use cbor_gen.Generate.{GoKind, struct_kind, bool_kind, big_int, cid}
use cbor_gen.Packages.{Names, Resolved, resolved, Import, digits, resolve_pkg_name}
use cbor_gen.Packages.Imports.{
  GoType, array_type, slice_type, pointer_type, map_type, named_type, imports_for_type,
  dedup_imports, then_resolved, is_empty,
}

abbrev pub prefixed : List ℕ → Resolved (List ℕ) → Resolved (List ℕ)
prefixed text r = then_resolved r λ rest s. resolved (text ++ rest) s

-- `[%d]`
abbrev pub array_prefix : ℕ → List ℕ
array_prefix n = b'[' ∷ digits (suc n) n ++ (b']' ∷ [])

abbrev pub slice_prefix : List ℕ
slice_prefix = b'[' ∷ b']' ∷ []

abbrev pub map_prefix : List ℕ → List ℕ
map_prefix key = b'm' ∷ b'a' ∷ b'p' ∷ b'[' ∷ key ++ (b']' ∷ [])

abbrev pub qualified : List ℕ → List ℕ → List ℕ
qualified pkg_name name = pkg_name ++ (b'.' ∷ name)

-- `typeName`
unfoldable pub type_name : List ℕ → GoType → Names → Resolved (List ℕ)
unfolding same_bytes resolve_pkg_name digits
type_name pkg (array_type n t) s = prefixed (array_prefix n) (type_name pkg t s)
type_name pkg (slice_type t) s = prefixed slice_prefix (type_name pkg t s)
type_name pkg (pointer_type t) s = prefixed (b'*' ∷ []) (type_name pkg t s)
type_name pkg (map_type k t) s =
    then_resolved (type_name pkg k s) λ key u. prefixed (map_prefix key) (type_name pkg t u)
type_name pkg (named_type path string name) s =
    if is_empty path
    then resolved string s
    else if same_bytes path pkg
    then resolved name s
    else then_resolved (resolve_pkg_name path string s)
        λ pkg_name u. resolved (qualified pkg_name name) u

-- A `Field`, with its type by its `Kind` and by its names.
pub record TypedField : Type 0 where
  pub pointer : Bool
  pub kind : GoKind
  pub pkg : List ℕ
  pub type : GoType

-- `continue` in the switch of `Imports`.
abbrev pub skips : Bool → GoKind → Bool
skips pointer (struct_kind big_int id) = false
skips pointer (struct_kind cid id) = true
skips pointer (struct_kind s id) = not pointer
skips pointer bool_kind = true
skips pointer kind = false

abbrev pub appended : List Import → Resolved (List Import) → Resolved (List Import)
appended imps r = then_resolved r λ rest s. resolved (imps ++ rest) s

-- `GenTypeInfo.Imports`
unfoldable pub gen_imports : List TypedField → Names → Resolved (List Import)
unfolding imports_for_type
gen_imports [] s = resolved [] s
gen_imports (f ∷ fs) s =
    let rest = gen_imports fs s in
    let all =
      then_resolved (imports_for_type f.pkg f.type s) λ imps u. appended imps (gen_imports fs u) in
    if skips f.pointer f.kind then rest else all

-- The loop over the types.
unfoldable pub types_imports : List (List TypedField) → Names → Resolved (List Import)
unfolding gen_imports
types_imports [] s = resolved [] s
types_imports (fs ∷ types) s =
    then_resolved (gen_imports fs s) λ imps u. appended imps (types_imports types u)

abbrev pub cbg_import : Import
cbg_import = record {
  name = b'c' ∷ b'b' ∷ b'g' ∷ [];
  pkg_path =
      b'g' ∷ b'i' ∷ b't' ∷ b'h' ∷ b'u' ∷ b'b' ∷ b'.' ∷ b'c' ∷ b'o' ∷ b'm' ∷ b'/' ∷ b'd' ∷ b'a'
      ∷ b'o' ∷ b't' ∷ b'l' ∷ b'/' ∷ b'c' ∷ b'b' ∷ b'o' ∷ b'r' ∷ b'-' ∷ b'g' ∷ b'e' ∷ b'n' ∷ [];
}

abbrev pub xerrors_import : Import
xerrors_import = record {
  name = b'x' ∷ b'e' ∷ b'r' ∷ b'r' ∷ b'o' ∷ b'r' ∷ b's' ∷ [];
  pkg_path =
      b'g' ∷ b'o' ∷ b'l' ∷ b'a' ∷ b'n' ∷ b'g' ∷ b'.' ∷ b'o' ∷ b'r' ∷ b'g' ∷ b'/' ∷ b'x' ∷ b'/'
      ∷ b'x' ∷ b'e' ∷ b'r' ∷ b'r' ∷ b'o' ∷ b'r' ∷ b's' ∷ [];
}

abbrev pub cid_import : Import
cid_import = record {
  name = b'c' ∷ b'i' ∷ b'd' ∷ [];
  pkg_path =
      b'g' ∷ b'i' ∷ b't' ∷ b'h' ∷ b'u' ∷ b'b' ∷ b'.' ∷ b'c' ∷ b'o' ∷ b'm' ∷ b'/' ∷ b'i' ∷ b'p'
      ∷ b'f' ∷ b's' ∷ b'/' ∷ b'g' ∷ b'o' ∷ b'-' ∷ b'c' ∷ b'i' ∷ b'd' ∷ [];
}

-- `defaultImports`
abbrev pub default_imports : List Import
default_imports = cbg_import ∷ xerrors_import ∷ cid_import ∷ []

-- `imports` in `PrintHeaderAndUtilityMethods`.
unfoldable pub header_imports : List (List TypedField) → Names → Resolved (List Import)
unfolding types_imports dedup_imports
header_imports types s =
    then_resolved (types_imports types s)
      λ imps u. resolved (dedup_imports (imps ++ default_imports)) u

-- The imports that stand in the text of the header. Their names are not in the maps of names.
abbrev pub text_import : List ℕ → Import
text_import name = record { name = name; pkg_path = name }

abbrev pub text_imports : List Import
text_imports =
    text_import (b'f' ∷ b'm' ∷ b't' ∷ [])
    ∷ text_import (b'i' ∷ b'o' ∷ [])
    ∷ text_import (b'm' ∷ b'a' ∷ b't' ∷ b'h' ∷ [])
    ∷ text_import (b's' ∷ b'o' ∷ b'r' ∷ b't' ∷ [])
    ∷ []

-- All imports that the header has, in its order.
abbrev pub printed_imports : List Import → List Import
printed_imports imps = text_imports ++ imps
