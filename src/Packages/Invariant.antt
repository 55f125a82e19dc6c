-- ===== src/Packages/Invariant.antt =====
-- The two maps of `resolvePkgName` against each other, and what a call leaves.
use cbor_gen.Prelude.{
  ℕ, zero, suc, ◌+◌, ◌≤◌, ◌<◌, ◌≡◌, refl, sym, ◌∙◌, arith, List, length, none, some, true, false,
  inl, inr, Bool-cases, Option-cases, subst, ◌⊎◌, ◌==◌,
}
use cbor_gen.Keys.{same_bytes, lookup, put}
use cbor_gen.Keys.Entries.{same_bytes_ne, same_bytes_eq, lookup-put_self, lookup-put_ne}
use cbor_gen.Packages.{Names, resolved, is_some, try_name, allocate, allocated, resolve_default}
use cbor_gen.Packages.Numbered.{try_name_injective}
use cbor_gen.Packages.Free.{taken-le}

-- The maps are the inverses of each other.
pub record IsValid (s : Names) : Type 0 where
  pub forth :
      (name path : List ℕ)
      → lookup name s.name_to_path ≡ some path
      → lookup path s.path_to_name ≡ some name
  pub back :
      (name path : List ℕ)
      → lookup path s.path_to_name ≡ some name
      → lookup name s.name_to_path ≡ some path

-- What a call for `path` that returns `name` makes of the maps `s`.
pub record Resolves (path name : List ℕ) (s t : Names) : Type 0 where
  pub valid : IsValid t
  pub known : lookup path t.path_to_name ≡ some name
  pub kept : (p n : List ℕ) → lookup p s.path_to_name ≡ some n → lookup p t.path_to_name ≡ some n

-- A key with a value is not the one without.
apart_of :
    {V : Type 0} (j k : List ℕ) (es : List (List ℕ × V)) {v : V}
    → lookup j es ≡ some v
    → lookup k es ≡ none
    → same_bytes j k ≡ false
apart_of j k es {v = v} p q =
    same_bytes_ne j k
      λ e. let r : lookup k es ≡ some v = subst (λ x. lookup x es ≡ some v) e p in cc

put_same :
    {V : Type 0} (j k : List ℕ) (v u : V) (es : List (List ℕ × V))
    → same_bytes j k ≡ true
    → lookup j (put k v es) ≡ some u
    → (j ≡ k) × (u ≡ v)
put_same j k v u es h e =
    let q = same_bytes_eq j k h in
    let r : lookup k (put k v es) ≡ some u = subst (λ x. lookup x (put k v es) ≡ some u) q e in
    (q, ground (arith, lookup-put_self k v es))

pub allocated-Resolves :
    (name path : List ℕ) (s : Names)
    → lookup name s.name_to_path ≡ none
    → lookup path s.path_to_name ≡ none
    → IsValid s
    → Resolves path name s (allocated name path s)
allocated-Resolves name path s free new v = record {
  valid = record {
    forth = λ n p e. elim (Bool-cases (same_bytes n name)) [
      | inl same ↦
          let (q, r) = put_same n name path p s.name_to_path same e in
          rw (q, r) (lookup-put_self path name s.path_to_name)
      | inr apart ↦
          let old = v.forth n p (sym (lookup-put_ne n name path s.name_to_path apart) ∙ e) in
          lookup-put_ne p path name s.path_to_name (apart_of p path s.path_to_name old new) ∙ old
    ];
    back = λ n p e. elim (Bool-cases (same_bytes p path)) [
      | inl same ↦
          let (q, r) = put_same p path name n s.path_to_name same e in
          rw (q, r) (lookup-put_self name path s.name_to_path)
      | inr apart ↦
          let old = v.back n p (sym (lookup-put_ne p path name s.path_to_name apart) ∙ e) in
          lookup-put_ne n name path s.name_to_path (apart_of n name s.name_to_path old free) ∙ old
    ];
  };
  known = lookup-put_self path name s.path_to_name;
  kept =
      λ p n e. lookup-put_ne p path name s.path_to_name (apart_of p path s.path_to_name e new) ∙ e;
}

-- The first free name from the `i`-th on, or none among `fuel` of them.
Allocates : ℕ → ℕ → List ℕ → List ℕ → Names → Type 0
Allocates fuel i d path s =
    ((j : ℕ) → i ≤ j → j < i + fuel → is_some (lookup (try_name d j) s.name_to_path) ≡ true)
    ⊎ ((j : ℕ) × (lookup (try_name d j) s.name_to_path ≡ none)
        × (allocate fuel i d path s ≡ resolved (try_name d j) (allocated (try_name d j) path s)))

allocate_lem : (fuel i : ℕ) (d path : List ℕ) (s : Names) → Allocates fuel i d path s
unfolding Allocates allocate
allocate_lem zero i d path s = inl λ j lo hi. absurd (omega arith)
allocate_lem (suc fuel) i d path s = elim (Option-cases (lookup (try_name d i) s.name_to_path)) [
  | inl free ↦ inr (i, free, rw free refl)
  | inr (p, taken) ↦ elim (allocate_lem fuel (suc i) d path s) [
    | inl all ↦ inl λ j lo hi. elim (Bool-cases (j == i)) [
      | inl e ↦ let q : j ≡ i = ground arith in rw (q, taken) refl
      | inr e ↦ all j (ground arith) (omega arith)
    ]
    | inr (j, free, e) ↦ inr (j, free, rw (taken, e) refl)
  ]
]

-- `resolvePkgName`, behind its test of the type name, ends with a name, and keeps the two maps
-- the inverses of each other: the path has that name, and no name that another path had is lost.
pub resolve_default-Resolves :
    (path d : List ℕ) (s : Names)
    → IsValid s
    → (name : List ℕ) × (t : Names) × (resolve_default path d s ≡ resolved name t)
      × Resolves path name s t
unfolding resolve_default Allocates
resolve_default-Resolves path d s v = elim (Option-cases (lookup path s.path_to_name)) [
  | inr (name, e) ↦
      (name, s, rw (e, resolve_default) refl, record { valid = v; known = e; kept = λ p n h. h })
  | inl new ↦ elim (allocate_lem (suc (length s.name_to_path)) 0 d path s) [
    | inr (j, free, e) ↦ (
      try_name d j,
      allocated (try_name d j) path s,
      rw (new, resolve_default) e,
      allocated-Resolves (try_name d j) path s free new v,
    )
    | inl all ↦
        let many =
          taken-le (try_name d) (suc (length s.name_to_path)) s.name_to_path (try_name_injective d)
            λ j h. all j (omega arith) (omega arith) in
        absurd (omega (arith, many))
  ]
]
