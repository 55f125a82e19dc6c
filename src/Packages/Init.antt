-- ===== src/Packages/Init.antt =====
-- The test for a duplicate import in `init` of package.go.
use cbor_gen.Prelude.{ℕ, ◌≡◌, ◌≢◌, refl, sym, arith, List, [], ◌∷◌, some, ◌∙◌}
use cbor_gen.Keys.{lookup, put}
use cbor_gen.Keys.Entries.{same_bytes_ne, lookup-put_self, lookup-put_ne}
use cbor_gen.Packages.{Names, resolved, init_names, allocated}
use cbor_gen.Packages.Invariant.{IsValid}

abbrev pub no_names : Names
no_names = record { name_to_path = []; path_to_name = [] }

abbrev two_names : List ℕ → List ℕ → List ℕ → Names
two_names a b path = allocated b path (allocated a path no_names)

two_names_bad : (a b path : List ℕ) → a ≢ b → ¬ IsValid (two_names a b path)
two_names_bad a b path ne v =
    let first : lookup a (two_names a b path).name_to_path ≡ some path =
      lookup-put_ne a b path (put a path []) (same_bytes_ne a b ne) ∙ lookup-put_self a path [] in
    let q : some b ≡ some a = sym (lookup-put_self path b (put path a [])) ∙ v.forth a path first in
    ne (ground (arith, q))

-- The tests in `init` let the same path through under two distinct names, the second of which is
-- not that path, and leave maps that are not the inverses of each other.
pub init_names_duplicate :
    (a b path : List ℕ)
    → a ≢ b
    → b ≢ path
    → (t : Names) × (init_names
          (record { name = a; pkg_path = path } ∷ record { name = b; pkg_path = path } ∷ [])
          no_names
        ≡ resolved tt t)
      × ¬ IsValid t
unfolding init_names lookup put
init_names_duplicate a b path ne other =
    let apart = same_bytes_ne b a (λ e. ne (sym e)) in
    let apart_path = same_bytes_ne b path other in
    (two_names a b path, rw (apart, apart_path) refl, λ v. two_names_bad a b path ne v)
