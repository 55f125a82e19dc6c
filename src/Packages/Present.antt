-- ===== src/Packages/Present.antt =====
-- Which paths a list of imports has, behind `dedupImports`.
use cbor_gen.Prelude.{
  ℕ, ◌≡◌, refl, arith, List, [], ◌∷◌, ◌++◌, All, Bool, true, false, ◌||◌, Bool-cases, inl, inr,
}
use cbor_gen.Keys.{map_key_less, less_bytes, same_bytes, lookup, put}
use cbor_gen.Keys.Order.{map_key_less_transitive, map_key_less_total}
use cbor_gen.Keys.Entries.{
  same_bytes_refl, same_bytes_eq, less_apart, IsOrdered, lookup-put_self, lookup-put_ne,
}
use cbor_gen.Tuple.{Entries}
use cbor_gen.Packages.{Import, is_some}
use cbor_gen.Packages.Imports.{to_set, insert_import, sort_imports, dedup_imports}

-- Some import has that path.
unfoldable pub has_path : List ℕ → List Import → Bool
unfolding same_bytes
has_path path [] = false
has_path path (imp ∷ imps) = same_bytes path imp.pkg_path || has_path path imps

pub has_path-append :
    (path : List ℕ) (xs ys : List Import)
    → has_path path (xs ++ ys) ≡ (has_path path xs || has_path path ys)
unfolding has_path
has_path-append path [] ys = refl
has_path-append path (x ∷ xs) ys = ground (arith, has_path-append path xs ys)

has_path-insert :
    (path : List ℕ) (x : Import) (ys : List Import)
    → has_path path (insert_import x ys) ≡ (same_bytes path x.pkg_path || has_path path ys)
unfolding has_path
has_path-insert path x [] = refl
has_path-insert path x (y ∷ ys) = ground (arith, has_path-insert path x ys)

has_path-sort :
    (path : List ℕ) (es : Entries (List ℕ))
    → has_path path (sort_imports es) ≡ is_some (lookup path es)
unfolding has_path lookup
has_path-sort path [] = refl
has_path-sort path ((k, v) ∷ es) = ground (
  arith,
  has_path-insert path (record { name = v; pkg_path = k }) (sort_imports es),
  has_path-sort path es,
)

lookup-to_set :
    (path : List ℕ) (imps : List Import) (set : Entries (List ℕ))
    → is_some (lookup path (to_set imps set)) ≡ (has_path path imps || is_some (lookup path set))
unfolding has_path
lookup-to_set path [] set = refl
lookup-to_set path (imp ∷ imps) set = elim (Bool-cases (same_bytes path imp.pkg_path)) [
  | inl e ↦
      let self = lookup-put_self imp.pkg_path imp.name set in
      let q = same_bytes_eq path imp.pkg_path e in
      ground (arith, lookup-to_set path imps (put imp.pkg_path imp.name set))
  | inr e ↦
      let other = lookup-put_ne path imp.pkg_path imp.name set e in
      ground (arith, lookup-to_set path imps (put imp.pkg_path imp.name set))
]

pub has_path-dedup :
    (path : List ℕ) (imps : List Import) → has_path path (dedup_imports imps) ≡ has_path path imps
unfolding dedup_imports lookup
has_path-dedup path imps =
    ground (arith, has_path-sort path (to_set imps []), lookup-to_set path imps [])

Before : List ℕ → Entries (List ℕ) → Type 0
Before k es = All (λ f. map_key_less k f.0 ≡ true) es

put-Before :
    (j k v : List ℕ) (es : Entries (List ℕ))
    → map_key_less j k ≡ true
    → Before j es
    → Before j (put k v es)
unfolding put Before
put-Before j k v [] h hs = (h, tt)
put-Before j k v ((x, u) ∷ es) h (p, ps) = ground (arith, put-Before j k v es h ps)

Before-trans :
    (j k : List ℕ) (es : Entries (List ℕ)) → map_key_less j k ≡ true → Before k es → Before j es
unfolding Before
Before-trans j k [] h hs = tt
Before-trans j k ((x, u) ∷ es) h (p, ps) =
    (map_key_less_transitive j k x h p, Before-trans j k es h ps)

put-IsOrdered : (k v : List ℕ) (es : Entries (List ℕ)) → IsOrdered es → IsOrdered (put k v es)
unfolding put Before
put-IsOrdered k v [] h = (tt, tt)
put-IsOrdered k v ((x, u) ∷ es) (h, hs) = elim (Bool-cases (same_bytes k x)) [
  | inl e ↦ rw (e, same_bytes_eq k x e) (h, hs)
  | inr apart ↦ elim (Bool-cases (map_key_less k x)) [
    | inl less ↦ rw (apart, less) ((less, Before-trans k x es less h), (h, hs))
    | inr more ↦
        let behind : map_key_less x k ≡ true =
          ground (arith, map_key_less_total k x, same_bytes_refl k) in
        rw (apart, more) (put-Before x k v es behind h, put-IsOrdered k v es hs)
  ]
]

to_set-IsOrdered :
    (imps : List Import) (set : Entries (List ℕ)) → IsOrdered set → IsOrdered (to_set imps set)
to_set-IsOrdered [] set h = h
to_set-IsOrdered (imp ∷ imps) set h =
    to_set-IsOrdered imps _ (put-IsOrdered imp.pkg_path imp.name set h)

-- No two imports have the same path.
abbrev pub OnePath : List Import → Type 0
OnePath [] = Unit {0}
OnePath (imp ∷ imps) = (has_path imp.pkg_path imps ≡ false) × OnePath imps

insert_import-OnePath :
    (x : Import) (ys : List Import)
    → has_path x.pkg_path ys ≡ false
    → OnePath ys
    → OnePath (insert_import x ys)
unfolding has_path
insert_import-OnePath x [] h hs = (refl, tt)
insert_import-OnePath x (y ∷ ys) h (p, ps) = elim (Bool-cases (less_bytes y.pkg_path x.pkg_path)) [
  | inl e ↦
      let rest : has_path x.pkg_path ys ≡ false = ground arith in
      let apart : same_bytes y.pkg_path x.pkg_path ≡ false =
        ground (arith, same_bytes_eq y.pkg_path x.pkg_path, same_bytes_refl x.pkg_path) in
      rw e (ground (arith, has_path-insert y.pkg_path x ys), insert_import-OnePath x ys rest ps)
  | inr e ↦ rw e (h, (p, ps))
]

unknown_key : (k : List ℕ) (es : Entries (List ℕ)) → Before k es → is_some (lookup k es) ≡ false
unfolding lookup Before
unknown_key k [] h = refl
unknown_key k ((x, u) ∷ es) (h, hs) = rw (less_apart k x h).0 (unknown_key k es hs)

sort_imports-OnePath : (es : Entries (List ℕ)) → IsOrdered es → OnePath (sort_imports es)
unfolding Before
sort_imports-OnePath [] h = tt
sort_imports-OnePath ((k, v) ∷ es) (h, hs) =
    insert_import-OnePath (record { name = v; pkg_path = k }) (sort_imports es)
      (ground (arith, has_path-sort k es, unknown_key k es h)) (sort_imports-OnePath es hs)

pub dedup_imports-OnePath : (imps : List Import) → OnePath (dedup_imports imps)
unfolding dedup_imports
dedup_imports-OnePath imps = sort_imports-OnePath (to_set imps []) (to_set-IsOrdered imps [] tt)
