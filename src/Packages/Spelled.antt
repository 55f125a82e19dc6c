-- ===== src/Packages/Spelled.antt =====
-- The names of types against a list of imports.
use cbor_gen.Prelude.{
  ℕ, ◌≡◌, refl, arith, List, [], ◌∷◌, ◌++◌, All, true, ◌||◌, if◌then◌else◌, ◌⊎◌, Bool-cases, inl,
  inr, Option, some, none,
}
use cbor_gen.Keys.{same_bytes, lookup}
use cbor_gen.Keys.Entries.{same_bytes_eq}
use cbor_gen.Packages.{Names, resolved, Import, resolve_pkg_name, resolve_default}
use cbor_gen.Packages.Imports.{
  GoType, array_type, slice_type, pointer_type, map_type, named_type, is_empty, IsNamed, IsKnown,
}
use cbor_gen.Packages.Present.{has_path}
use cbor_gen.Packages.Printed.{array_prefix, slice_prefix, map_prefix, qualified, type_name}

-- The name that a list of imports has for a path.
unfoldable pub name_in : List ℕ → List Import → Option (List ℕ)
unfolding same_bytes
name_in path [] = none
name_in path (imp ∷ imps) =
    let rest = name_in path imps in if same_bytes path imp.pkg_path then some imp.name else rest

abbrev pub map_text : (List ℕ → List ℕ) → Option (List ℕ) → Option (List ℕ)
map_text f none = none
map_text f (some text) = some (f text)

abbrev pub join_text :
    (List ℕ → List ℕ → List ℕ) → Option (List ℕ) → Option (List ℕ) → Option (List ℕ)
join_text f (some a) (some b) = some (f a b)
join_text f a b = none

-- A type as a file with these imports writes it, in the package `pkg`.
unfoldable pub spelled : List ℕ → List Import → GoType → Option (List ℕ)
unfolding name_in
spelled pkg imps (array_type n t) = map_text (λ e. array_prefix n ++ e) (spelled pkg imps t)
spelled pkg imps (slice_type t) = map_text (λ e. slice_prefix ++ e) (spelled pkg imps t)
spelled pkg imps (pointer_type t) = map_text (λ e. b'*' ∷ e) (spelled pkg imps t)
spelled pkg imps (map_type k t) =
    join_text (λ key e. map_prefix key ++ e) (spelled pkg imps k) (spelled pkg imps t)
spelled pkg imps (named_type path string name) =
    if is_empty path
    then some string
    else if same_bytes path pkg
    then some name
    else map_text (λ pkg_name. qualified pkg_name name) (name_in path imps)

-- The imports have the paths of the type's parts that are outside of the package.
abbrev pub Has : List ℕ → List Import → GoType → Type 0
Has pkg imps (array_type n t) = Has pkg imps t
Has pkg imps (slice_type t) = Has pkg imps t
Has pkg imps (pointer_type t) = Has pkg imps t
Has pkg imps (map_type k t) = Has pkg imps k × Has pkg imps t
Has pkg imps (named_type path string name) =
    ((is_empty path || same_bytes path pkg) ≡ true) ⊎ (has_path path imps ≡ true)

pub Has-more :
    (pkg : List ℕ) (xs ys : List Import) (t : GoType)
    → ((path : List ℕ) → has_path path xs ≡ true → has_path path ys ≡ true)
    → Has pkg xs t
    → Has pkg ys t
Has-more pkg xs ys (array_type n t) more h = Has-more pkg xs ys t more h
Has-more pkg xs ys (slice_type t) more h = Has-more pkg xs ys t more h
Has-more pkg xs ys (pointer_type t) more h = Has-more pkg xs ys t more h
Has-more pkg xs ys (map_type k t) more (h, i) =
    (Has-more pkg xs ys k more h, Has-more pkg xs ys t more i)
Has-more pkg xs ys (named_type path string name) more (inl e) = inl e
Has-more pkg xs ys (named_type path string name) more (inr e) = inr (more path e)

name_in_known :
    (path : List ℕ) (imps : List Import) (u : Names)
    → has_path path imps ≡ true
    → All (IsKnown u) imps
    → (n : List ℕ) × (name_in path imps ≡ some n) × (lookup path u.path_to_name ≡ some n)
unfolding has_path name_in
name_in_known path [] u h known = cc
name_in_known path (imp ∷ imps) u h (k, ks) = elim (Bool-cases (same_bytes path imp.pkg_path)) [
  | inl e ↦ (imp.name, rw e refl, rw (same_bytes_eq path imp.pkg_path e) k)
  | inr e ↦
      let rest : has_path path imps ≡ true = ground arith in
      let (n, p, q) = name_in_known path imps u rest ks in (n, rw e p, q)
]

-- What a type is called is what a file with the imports writes, and no name is added.
abbrev pub Spells : List ℕ → List Import → Names → GoType → Type 0
Spells pkg imps u t =
    (text : List ℕ) × (type_name pkg t u ≡ resolved text u) × (spelled pkg imps t ≡ some text)

pub type_name-Spells :
    (pkg : List ℕ) (imps : List Import) (u : Names) (t : GoType)
    → All (IsKnown u) imps
    → IsNamed pkg t
    → Has pkg imps t
    → Spells pkg imps u t
unfolding type_name spelled resolve_pkg_name resolve_default
type_name-Spells pkg imps u (array_type n t) known named h =
    let (text, p, q) = type_name-Spells pkg imps u t known named h in
    (array_prefix n ++ text, rw p refl, rw q refl)
type_name-Spells pkg imps u (slice_type t) known named h =
    let (text, p, q) = type_name-Spells pkg imps u t known named h in
    (slice_prefix ++ text, rw p refl, rw q refl)
type_name-Spells pkg imps u (pointer_type t) known named h =
    let (text, p, q) = type_name-Spells pkg imps u t known named h in
    (b'*' ∷ text, rw p refl, rw q refl)
type_name-Spells pkg imps u (map_type k t) known (kn, tn) (kh, th) =
    let (key, p, q) = type_name-Spells pkg imps u k known kn kh in
    let (text, r, s) = type_name-Spells pkg imps u t known tn th in
    (map_prefix key ++ text, rw (p, r) refl, rw (q, s) refl)
type_name-Spells pkg imps u (named_type path string name) known named h =
    elim (Bool-cases (is_empty path)) [
      | inl e ↦ (string, rw e refl, rw e refl)
      | inr e ↦ elim (Bool-cases (same_bytes path pkg)) [
        | inl f ↦ (name, rw (e, f) refl, rw (e, f) refl)
        | inr f ↦ elim h [
          | inl here ↦ absurd (ground arith)
          | inr there ↦ elim named [
            | inl here ↦ absurd (ground arith)
            | inr (first, last, parts) ↦
                let (n, p, q) = name_in_known path imps u there known in
                (qualified n name, rw (e, f, parts, resolve_default, q) refl, rw (e, f, p) refl)
          ]
        ]
      ]
    ]
