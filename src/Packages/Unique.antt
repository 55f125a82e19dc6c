-- ===== src/Packages/Unique.antt =====
-- The names of imports that have a path of their own each.
use cbor_gen.Prelude.{
  ℕ, ◌≡◌, ◌↔◌, refl, arith, List, [], ◌∷◌, All, Bool, true, false, ◌||◌, Bool-cases, inl, inr, some,
}
use cbor_gen.Keys.{same_bytes, lookup}
use cbor_gen.Keys.Entries.{same_bytes_refl, same_bytes_eq}
use cbor_gen.Packages.{Names, Import}
use cbor_gen.Packages.Invariant.{IsValid}
use cbor_gen.Packages.Imports.{IsKnown}
use cbor_gen.Packages.Printed.{printed_imports, text_imports}
use cbor_gen.Packages.Present.{has_path, OnePath}

-- Some import has that name.
unfoldable pub has_name : List ℕ → List Import → Bool
unfolding same_bytes
has_name name [] = false
has_name name (imp ∷ imps) = same_bytes name imp.name || has_name name imps

-- No two imports have the same name.
abbrev pub OneName : List Import → Type 0
OneName [] = Unit {0}
OneName (imp ∷ imps) = (has_name imp.name imps ≡ false) × OneName imps

named_twice :
    (u : Names) (path name : List ℕ) (imps : List Import)
    → IsValid u
    → lookup path u.path_to_name ≡ some name
    → All (IsKnown u) imps
    → has_name name imps ≡ true
    → has_path path imps ≡ true
unfolding has_name has_path
named_twice u path name [] v e known h = cc
named_twice u path name (imp ∷ imps) v e (k, ks) h = elim (Bool-cases (same_bytes name imp.name)) [
  | inl same ↦
      let q : name ≡ imp.name = same_bytes_eq name imp.name same in
      let first = v.back name path e in
      let second = v.back imp.name imp.pkg_path k in
      let p : path ≡ imp.pkg_path = cc in rw (p, same_bytes_refl imp.pkg_path) refl
  | inr other ↦
      let rest : has_name name imps ≡ true = ground arith in
      let later = named_twice u path name imps v e ks rest in ground arith
]

pub OnePath-OneName :
    (u : Names) (imps : List Import)
    → IsValid u
    → All (IsKnown u) imps
    → OnePath imps
    → OneName imps
OnePath-OneName u [] v known h = tt
OnePath-OneName u (imp ∷ imps) v (k, ks) (h, hs) = elim (Bool-cases (has_name imp.name imps)) [
  | inl e ↦ let twice = named_twice u imp.pkg_path imp.name imps v k ks e in absurd (ground arith)
  | inr e ↦ (e, OnePath-OneName u imps v ks hs)
]

-- The imports have names of their own, and among those of the header two have the same name exactly
-- where one of the imports has the name of one that stands in the header's text.
abbrev pub NamesApart : List Import → Type 0
NamesApart imps =
    OneName imps
    × (OneName (printed_imports imps) ↔ All (λ imp. has_name imp.name imps ≡ false) text_imports)

pub OneName-NamesApart : (imps : List Import) → OneName imps → NamesApart imps
unfolding has_name same_bytes
OneName-NamesApart imps h = (
  h,
  (
    (λ o. (o.0, (o.1.0, (o.1.1.0, (o.1.1.1.0, tt))))),
    (λ a. (a.0, (a.1.0, (a.1.1.0, (a.1.1.1.0, h))))),
  ),
)
