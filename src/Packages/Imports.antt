-- ===== src/Packages/Imports.antt =====
-- `ImportsForType` and `dedupImports` of package.go.
use cbor_gen.Prelude.{
  ℕ, ◌≡◌, refl, arith, List, [], ◌∷◌, ◌++◌, All, All-append, Bool, true, false, if◌then◌else◌, ◌||◌,
  ◌⊎◌, inl, inr, Bool-cases, some, All-map,
}
use cbor_gen.Keys.{same_bytes, less_bytes, lookup, put}
use cbor_gen.Tuple.{Entries}
use cbor_gen.Packages.{
  Names, Resolved, resolved, panics, stuck, Import, split_dot, resolve_pkg_name,
}
use cbor_gen.Packages.Invariant.{IsValid, resolve_default-Resolves}

-- A `reflect.Type` by what `ImportsForType` and `typeName` ask of it: an array with its length, a
-- slice or a pointer with its element, a map, or any other type with its `PkgPath`, its `String` and
-- its `Name`.
pub data GoType : Type 0 where
  array_type : ℕ → GoType → GoType
  slice_type pointer_type : GoType → GoType
  map_type : GoType → GoType → GoType
  named_type : List ℕ → List ℕ → List ℕ → GoType

abbrev pub to_set : List Import → Entries (List ℕ) → Entries (List ℕ)
to_set [] set = set
to_set (imp ∷ imps) set = to_set imps (put imp.pkg_path imp.name set)

abbrev pub insert_import : Import → List Import → List Import
insert_import x [] = x ∷ []
insert_import x (y ∷ ys) =
    let rest = insert_import x ys in
    if less_bytes y.pkg_path x.pkg_path then y ∷ rest else x ∷ y ∷ ys

abbrev pub sort_imports : Entries (List ℕ) → List Import
sort_imports [] = []
sort_imports ((path, name) ∷ es) =
    insert_import (record { name = name; pkg_path = path }) (sort_imports es)

-- The last name of each path, in the order of the paths.
unfoldable pub dedup_imports : List Import → List Import
unfolding put less_bytes
dedup_imports imps = sort_imports (to_set imps [])

abbrev pub then_resolved : {A B : Type 0} → Resolved A → (A → Names → Resolved B) → Resolved B
then_resolved (resolved a s) f = f a s
then_resolved panics f = panics
then_resolved stuck f = stuck

abbrev pub is_empty : List ℕ → Bool
is_empty [] = true
is_empty (b ∷ bs) = false

unfoldable pub imports_for_type : List ℕ → GoType → Names → Resolved (List Import)
unfolding same_bytes resolve_pkg_name dedup_imports
imports_for_type curr_pkg (array_type n t) s = imports_for_type curr_pkg t s
imports_for_type curr_pkg (slice_type t) s = imports_for_type curr_pkg t s
imports_for_type curr_pkg (pointer_type t) s = imports_for_type curr_pkg t s
imports_for_type curr_pkg (map_type k t) s = then_resolved (imports_for_type curr_pkg k s) λ ks s1.
    then_resolved (imports_for_type curr_pkg t s1) λ ts s2. resolved (dedup_imports (ks ++ ts)) s2
imports_for_type curr_pkg (named_type path type_name name) s =
    if is_empty path || same_bytes path curr_pkg
    then resolved [] s
    else then_resolved (resolve_pkg_name path type_name s)
        λ pkg_name t. resolved (record { name = pkg_name; pkg_path = path } ∷ []) t

-- Types outside of the package have a package in their name.
abbrev pub IsNamed : List ℕ → GoType → Type 0
IsNamed curr_pkg (array_type n t) = IsNamed curr_pkg t
IsNamed curr_pkg (slice_type t) = IsNamed curr_pkg t
IsNamed curr_pkg (pointer_type t) = IsNamed curr_pkg t
IsNamed curr_pkg (map_type k t) = IsNamed curr_pkg k × IsNamed curr_pkg t
IsNamed curr_pkg (named_type path type_name name) =
    ((is_empty path || same_bytes path curr_pkg) ≡ true)
    ⊎ ((pkg : List ℕ) × (last : List ℕ) × (split_dot type_name ≡ pkg ∷ last ∷ []))

-- The import's name is the one that its path is known by.
abbrev pub IsKnown : Names → Import → Type 0
IsKnown s imp = lookup imp.pkg_path s.path_to_name ≡ some imp.name

pub record Imports (s t : Names) (imps : List Import) : Type 0 where
  pub valid : IsValid t
  pub kept : (p n : List ℕ) → lookup p s.path_to_name ≡ some n → lookup p t.path_to_name ≡ some n
  pub known : All (IsKnown t) imps

abbrev EntryKnown : Names → List ℕ × List ℕ → Type 0
EntryKnown s e = lookup e.0 s.path_to_name ≡ some e.1

put-EntryKnown :
    (s : Names) (path name : List ℕ) (es : Entries (List ℕ))
    → EntryKnown s (path, name)
    → All (EntryKnown s) es
    → All (EntryKnown s) (put path name es)
unfolding put
put-EntryKnown s path name [] h hs = (h, tt)
put-EntryKnown s path name ((x, u) ∷ es) h (k, ks) =
    ground (arith, put-EntryKnown s path name es h ks)

to_set-EntryKnown :
    (s : Names) (imps : List Import) (set : Entries (List ℕ))
    → All (IsKnown s) imps
    → All (EntryKnown s) set
    → All (EntryKnown s) (to_set imps set)
to_set-EntryKnown s [] set h hs = hs
to_set-EntryKnown s (imp ∷ imps) set (h, h') hs =
    to_set-EntryKnown s imps _ h' (put-EntryKnown s imp.pkg_path imp.name set h hs)

insert_import-IsKnown :
    (s : Names) (x : Import) (ys : List Import)
    → IsKnown s x
    → All (IsKnown s) ys
    → All (IsKnown s) (insert_import x ys)
insert_import-IsKnown s x [] h hs = (h, tt)
insert_import-IsKnown s x (y ∷ ys) h (k, ks) =
    elim (Bool-cases (less_bytes y.pkg_path x.pkg_path)) [
      | inl e ↦ rw e (k, insert_import-IsKnown s x ys h ks)
      | inr e ↦ rw e (h, (k, ks))
    ]

sort_imports-IsKnown :
    (s : Names) (es : Entries (List ℕ)) → All (EntryKnown s) es → All (IsKnown s) (sort_imports es)
sort_imports-IsKnown s [] h = tt
sort_imports-IsKnown s ((path, name) ∷ es) (h, hs) =
    insert_import-IsKnown s (record { name = name; pkg_path = path }) (sort_imports es) h
      (sort_imports-IsKnown s es hs)

pub dedup_imports-IsKnown :
    (s : Names) (imps : List Import) → All (IsKnown s) imps → All (IsKnown s) (dedup_imports imps)
unfolding dedup_imports
dedup_imports-IsKnown s imps h =
    sort_imports-IsKnown s (to_set imps []) (to_set-EntryKnown s imps [] h tt)

-- `ImportsForType`, on a type whose parts outside of the package have a package in their names,
-- returns imports by the names that their paths are known by in the end, and keeps the two maps
-- the inverses of each other and the names that paths had.
pub imports_for_type-Imports :
    (curr_pkg : List ℕ) (t : GoType) (s : Names)
    → IsNamed curr_pkg t
    → IsValid s
    → (imps : List Import) × (u : Names) × (imports_for_type curr_pkg t s ≡ resolved imps u)
      × Imports s u imps
unfolding imports_for_type resolve_pkg_name
imports_for_type-Imports curr_pkg (array_type n t) s h v = imports_for_type-Imports curr_pkg t s h v
imports_for_type-Imports curr_pkg (slice_type t) s h v = imports_for_type-Imports curr_pkg t s h v
imports_for_type-Imports curr_pkg (pointer_type t) s h v = imports_for_type-Imports curr_pkg t s h v
imports_for_type-Imports curr_pkg (map_type k t) s (hk, ht) v =
    let (ks, s1, ek, rk) = imports_for_type-Imports curr_pkg k s hk v in
    let (ts, s2, et, rt) = imports_for_type-Imports curr_pkg t s1 ht rk.valid in
    let first = All-map (λ imp. rt.kept imp.pkg_path imp.name) ks rk.known in
    (
      dedup_imports (ks ++ ts),
      s2,
      rw (ek, et) refl,
      record {
        valid = rt.valid;
        kept = λ p n e. rt.kept p n (rk.kept p n e);
        known = dedup_imports-IsKnown s2 (ks ++ ts) (All-append (IsKnown s2) ks ts first rt.known);
      },
    )
imports_for_type-Imports curr_pkg (named_type path type_name name) s h v =
    elim (Bool-cases (is_empty path || same_bytes path curr_pkg)) [
      | inl here ↦ ([], s, rw here refl, record { valid = v; kept = λ p n e. e; known = tt })
      | inr other ↦ elim h [
        | inl e ↦ cc
        | inr (pkg, last, parts) ↦
            let (r, t, e, q) = resolve_default-Resolves path pkg s v in
            (
              record { name = r; pkg_path = path } ∷ [],
              t,
              rw (other, parts, e) refl,
              record { valid = q.valid; kept = q.kept; known = (q.known, tt) },
            )
      ]
    ]
