-- ===== src/Packages/Covered.antt =====
-- The imports that `PrintHeaderAndUtilityMethods` prints against the types of the fields.
use cbor_gen.Prelude.{
  ℕ, ◌≡◌, refl, subst, ◌∙◌, sym, arith, List, [], ◌∷◌, ◌++◌, All, All-append, All-map, true, ◌||◌,
  ◌⊎◌, Bool-cases, inl, inr,
}
use cbor_gen.Keys.{same_bytes}
use cbor_gen.Keys.Entries.{same_bytes_refl}
use cbor_gen.Packages.{Names, Resolved, resolved, panics, stuck, Import, resolve_pkg_name}
use cbor_gen.Packages.Invariant.{IsValid}
use cbor_gen.Packages.Imports.{
  GoType, array_type, slice_type, pointer_type, map_type, named_type, imports_for_type,
  dedup_imports, then_resolved, is_empty, IsNamed, IsKnown, Imports, imports_for_type-Imports,
  dedup_imports-IsKnown,
}
use cbor_gen.Packages.Present.{
  has_path, has_path-append, has_path-dedup, OnePath, dedup_imports-OnePath,
}
use cbor_gen.Packages.Unique.{NamesApart, OneName-NamesApart, OnePath-OneName}
use cbor_gen.Packages.Printed.{
  TypedField, skips, gen_imports, types_imports, default_imports, header_imports,
}
use cbor_gen.Packages.Spelled.{Has, Has-more, Spells, type_name-Spells}

then_resolved_inverse :
    {A B : Type 0} (r : Resolved A) (f : A → Names → Resolved B) (b : B) (u : Names)
    → then_resolved r f ≡ resolved b u
    → (a : A) × (v : Names) × (r ≡ resolved a v) × (f a v ≡ resolved b u)
then_resolved_inverse (resolved a v) f b u h = (a, v, refl, h)
then_resolved_inverse panics f b u h = cc
then_resolved_inverse stuck f b u h = cc

-- The imports of a type have its paths.
imports_for_type-Has :
    (pkg : List ℕ) (t : GoType) (s u : Names) (imps : List Import)
    → imports_for_type pkg t s ≡ resolved imps u
    → Has pkg imps t
unfolding imports_for_type has_path
imports_for_type-Has pkg (array_type n t) s u imps h = imports_for_type-Has pkg t s u imps h
imports_for_type-Has pkg (slice_type t) s u imps h = imports_for_type-Has pkg t s u imps h
imports_for_type-Has pkg (pointer_type t) s u imps h = imports_for_type-Has pkg t s u imps h
imports_for_type-Has pkg (map_type k t) s u imps h =
    let (ks, v, p, later) = then_resolved_inverse (imports_for_type pkg k s) _ imps u h in
    let (ts, w, q, last) = then_resolved_inverse (imports_for_type pkg t v) _ imps u later in
    let same : imps ≡ dedup_imports (ks ++ ts) = cc in
    let all = λ (path : List ℕ). has_path-dedup path (ks ++ ts) ∙ has_path-append path ks ts in
    subst (λ xs. Has pkg xs (map_type k t)) (sym same)
      (
        Has-more pkg ks (dedup_imports (ks ++ ts)) k (λ path e. all path ∙ rw e refl)
            (imports_for_type-Has pkg k s v ks p),
        Has-more pkg ts (dedup_imports (ks ++ ts)) t
            (λ path e.
              all path
              ∙ (let both : (has_path path ks || has_path path ts) ≡ true = ground arith in both))
            (imports_for_type-Has pkg t v w ts q),
      )
imports_for_type-Has pkg (named_type path string name) s u imps h =
    elim (Bool-cases (is_empty path || same_bytes path pkg)) [
      | inl e ↦ inl e
      | inr e ↦
          let outside : then_resolved (resolve_pkg_name path string s)
                (λ pkg_name t. resolved (record { name = pkg_name; pkg_path = path } ∷ []) t)
              ≡ resolved imps u =
            rw e at h in
          let (n, v, p, last) =
            then_resolved_inverse (resolve_pkg_name path string s) _ imps u outside in
          let same : imps ≡ record { name = n; pkg_path = path } ∷ [] = cc in
          inr (rw (same, same_bytes_refl path) refl)
    ]

-- What a step of the loop gathers, with what the next ones do.
Imports-append :
    (s t u : Names) (xs ys : List Import) → Imports s t xs → Imports t u ys → Imports s u (xs ++ ys)
Imports-append s t u xs ys h k = record {
  valid = k.valid;
  kept = λ p n e. k.kept p n (h.kept p n e);
  known =
      All-append (IsKnown u) xs ys (All-map (λ imp. k.kept imp.pkg_path imp.name) xs h.known)
        k.known;
}

-- Of a field whose imports are gathered, the parts outside of the package have a package.
abbrev pub FieldNamed : TypedField → Type 0
FieldNamed f = (skips f.pointer f.kind ≡ true) ⊎ IsNamed f.pkg f.type

-- The imports have the paths of such a field.
abbrev FieldHas : List Import → TypedField → Type 0
FieldHas imps f = (skips f.pointer f.kind ≡ true) ⊎ (IsNamed f.pkg f.type × Has f.pkg imps f.type)

FieldHas-more :
    (xs ys : List Import)
    → ((path : List ℕ) → has_path path xs ≡ true → has_path path ys ≡ true)
    → (f : TypedField) → FieldHas xs f
    → FieldHas ys f
FieldHas-more xs ys more f (inl e) = inl e
FieldHas-more xs ys more f (inr (named, h)) = inr (named, Has-more f.pkg xs ys f.type more h)

has_path-left :
    (xs ys : List Import) (path : List ℕ)
    → has_path path xs ≡ true
    → has_path path (xs ++ ys) ≡ true
has_path-left xs ys path e = has_path-append path xs ys ∙ rw e refl

has_path-right :
    (xs ys : List Import) (path : List ℕ)
    → has_path path ys ≡ true
    → has_path path (xs ++ ys) ≡ true
has_path-right xs ys path e =
    has_path-append path xs ys
    ∙ (let both : (has_path path xs || has_path path ys) ≡ true = ground arith in both)

gen_imports-Imports :
    (fs : List TypedField) (s : Names)
    → All FieldNamed fs
    → IsValid s
    → (imps : List Import) × (u : Names) × (gen_imports fs s ≡ resolved imps u)
      × Imports s u imps
      × All (FieldHas imps) fs
unfolding gen_imports
gen_imports-Imports [] s h v =
    ([], s, refl, record { valid = v; kept = λ p n e. e; known = tt }, tt)
gen_imports-Imports (f ∷ fs) s (h, hs) v = elim (Bool-cases (skips f.pointer f.kind)) [
  | inl e ↦
      let (imps, u, p, q, r) = gen_imports-Imports fs s hs v in (imps, u, rw e p, q, (inl e, r))
  | inr e ↦ elim h [
    | inl skip ↦ absurd (ground arith)
    | inr named ↦
        let (xs, t, p, q) = imports_for_type-Imports f.pkg f.type s named v in
        let (ys, u, r, k, rest) = gen_imports-Imports fs t hs q.valid in
        let here = imports_for_type-Has f.pkg f.type s t xs p in
        (
          xs ++ ys,
          u,
          rw (e, p, r) refl,
          Imports-append s t u xs ys q k,
          (
            inr (named, Has-more f.pkg xs (xs ++ ys) f.type (has_path-left xs ys) here),
            All-map (FieldHas-more ys (xs ++ ys) (has_path-right xs ys)) fs rest,
          ),
        )
  ]
]

types_imports-Imports :
    (types : List (List TypedField)) (s : Names)
    → All (All FieldNamed) types
    → IsValid s
    → (imps : List Import) × (u : Names) × (types_imports types s ≡ resolved imps u)
      × Imports s u imps
      × All (All (FieldHas imps)) types
unfolding types_imports
types_imports-Imports [] s h v =
    ([], s, refl, record { valid = v; kept = λ p n e. e; known = tt }, tt)
types_imports-Imports (fs ∷ types) s (h, hs) v =
    let (xs, t, p, q, here) = gen_imports-Imports fs s h v in
    let (ys, u, r, k, rest) = types_imports-Imports types t hs q.valid in
    (
      xs ++ ys,
      u,
      rw (p, r) refl,
      Imports-append s t u xs ys q k,
      (
        All-map (FieldHas-more xs (xs ++ ys) (has_path-left xs ys)) fs here,
        All-map (All-map (FieldHas-more ys (xs ++ ys) (has_path-right xs ys))) types rest,
      ),
    )

-- The type of a field whose imports are gathered is called as a file with these imports writes it.
abbrev pub FieldSpells : List Import → Names → TypedField → Type 0
FieldSpells imps u f = (skips f.pointer f.kind ≡ true) ⊎ Spells f.pkg imps u f.type

FieldHas-Spells :
    (imps : List Import) (u : Names)
    → All (IsKnown u) imps
    → (f : TypedField) → FieldHas imps f
    → FieldSpells imps u f
FieldHas-Spells imps u known f (inl e) = inl e
FieldHas-Spells imps u known f (inr (named, h)) =
    inr (type_name-Spells f.pkg imps u f.type known named h)

-- For struct fields whose types outside of their package have a package in their names, and with
-- the default imports known, the imports that `PrintHeaderAndUtilityMethods` gathers have a name
-- and a path of their own each, and the names that their paths are known by; with fmt, io, math
-- and sort, which its text imports too, no two imports of the header have the same name exactly
-- where none that was gathered has one of these four names. The two maps stay the inverses of
-- each other and no name is lost. Behind them, `typeName` calls the type of each field that
-- imports are gathered for as a file with these imports writes it, and adds no name.
pub header_imports-Spell :
    (types : List (List TypedField)) (s : Names)
    → All (All FieldNamed) types
    → All (IsKnown s) default_imports
    → IsValid s
    → (imps : List Import) × (u : Names) × (header_imports types s ≡ resolved imps u)
      × Imports s u imps
      × OnePath imps
      × NamesApart imps
      × All (All (FieldSpells imps u)) types
unfolding header_imports
header_imports-Spell types s h defaults v =
    let (xs, u, p, q, has) = types_imports-Imports types s h v in
    let all = xs ++ default_imports in
    let imps = dedup_imports all in
    let kept = All-map (λ imp. q.kept imp.pkg_path imp.name) default_imports defaults in
    let known =
      dedup_imports-IsKnown u all (All-append (IsKnown u) xs default_imports q.known kept) in
    let more = λ (path : List ℕ) (e : has_path path xs ≡ true).
      has_path-dedup path all ∙ has_path-left xs default_imports path e in
    let once = dedup_imports-OnePath all in
    (
      imps,
      u,
      rw p refl,
      record { valid = q.valid; kept = q.kept; known = known },
      once,
      OneName-NamesApart imps (OnePath-OneName u imps q.valid known once),
      All-map (All-map (λ f k. FieldHas-Spells imps u known f (FieldHas-more xs imps more f k)))
          types has,
    )
