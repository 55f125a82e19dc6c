-- ===== src/Packages.antt =====
-- The names of packages, package.go: the two maps that `resolvePkgName` keeps, and the imports of
-- a type, of the fields of a struct and of a file. A Go string is the list of its bytes.
pub mod Numbered
pub mod Free
pub mod Invariant
pub mod Imports
pub mod Present
pub mod Unique
pub mod Printed
pub mod Spelled
pub mod Covered
pub mod Init
use cbor_gen.Prelude.{
  ℕ, zero, suc, ◌+◌, ◌*◌, ◌/◌, ◌%◌, List, [], ◌∷◌, ◌++◌, length, Option, none, some, Bool, true,
  false, if◌then◌else◌, ltb, ◌==◌, not,
}
use cbor_gen.Keys.{lookup, put, same_bytes}
use cbor_gen.Tuple.{Entries}

-- `pkgNameToPkgPath` and `pkgPathToPkgName`.
pub record Names : Type 0 where
  pub name_to_path : Entries (List ℕ)
  pub path_to_name : Entries (List ℕ)

-- A value with the maps behind it; a panic; or (no value of Go) the model out of fuel.
pub data Resolved (A : Type 0) : Type 0 where
  resolved : A → Names → Resolved A
  panics : Resolved A
  stuck : Resolved A

abbrev cons_part : ℕ → List (List ℕ) → List (List ℕ)
cons_part b [] = (b ∷ []) ∷ []
cons_part b (p ∷ ps) = (b ∷ p) ∷ ps

-- `strings.Split(s, ".")`
unfoldable pub split_dot : List ℕ → List (List ℕ)
split_dot [] = [] ∷ []
split_dot (b ∷ bs) = let rest = split_dot bs in if b == 0x2e then [] ∷ rest else cons_part b rest

-- `%d`, for as many digits as `fuel`.
unfoldable pub digits : ℕ → ℕ → List ℕ
digits zero n = []
digits (suc fuel) n =
    let rest = digits fuel (n / 10) in
    if ltb n 10 then (0x30 + n) ∷ [] else rest ++ ((0x30 + n % 10) ∷ [])

-- `tryName`
unfoldable pub try_name : List ℕ → ℕ → List ℕ
unfolding digits
try_name default_name zero = default_name
try_name default_name (suc i) = default_name ++ digits (suc (suc i)) (suc i)

abbrev pub is_some : {A : Type 0} → Option A → Bool
is_some none = false
is_some (some a) = true

abbrev pub allocated : List ℕ → List ℕ → Names → Names
allocated name path s = record {
  name_to_path = put name path s.name_to_path;
  path_to_name = put path name s.path_to_name;
}

-- `for i := 0; ; i++`
unfoldable pub allocate : ℕ → ℕ → List ℕ → List ℕ → Names → Resolved (List ℕ)
unfolding try_name
allocate zero i default_name path s = stuck
allocate (suc fuel) i default_name path s =
    let rest = allocate fuel (suc i) default_name path s in
    let name = try_name default_name i in
    if is_some (lookup name s.name_to_path) then rest else resolved name (allocated name path s)

-- Behind the test of the parts. There is a free name among one more than those that are taken.
unfoldable pub resolve_default : List ℕ → List ℕ → Names → Resolved (List ℕ)
unfolding allocate
resolve_default path default_name s = elim (lookup path s.path_to_name) [
  | some name ↦ resolved name s
  | none ↦ allocate (suc (length s.name_to_path)) 0 default_name path s
]

abbrev resolve_parts : List ℕ → List (List ℕ) → Names → Resolved (List ℕ)
resolve_parts path (default_name ∷ _ ∷ []) s = resolve_default path default_name s
resolve_parts path parts s = panics

unfoldable pub resolve_pkg_name : List ℕ → List ℕ → Names → Resolved (List ℕ)
unfolding split_dot resolve_default
resolve_pkg_name path type_name = resolve_parts path (split_dot type_name)

pub record Import : Type 0 where
  pub name : List ℕ
  pub pkg_path : List ℕ

-- The loop of `init`, with the test that looks up the map of paths by a name.
unfoldable pub init_names : List Import → Names → Resolved (Unit {0})
init_names [] s = resolved tt s
init_names (imp ∷ imps) s =
    let rest = init_names imps (allocated imp.name imp.pkg_path s) in
    if is_some (lookup imp.name s.name_to_path)
    then panics
    else if is_some (lookup imp.name s.path_to_name)
    then panics
    else rest
