-- ===== src/Reflect/Permuted.antt =====
-- The order of the fields that `WriteTupleEncodersToFile` comes to.
use cbor_gen.Prelude.{
  All, subst, ℕ, ◌≡◌, refl, sym, ap, ◌∙◌, arith, inl, inr, List, [], ◌∷◌, ◌++◌, some, false,
  Bool-cases, Option-cases, append_assoc, append-nil,
}
use cbor_gen.Keys.{same_bytes}
use cbor_gen.Keys.Entries.{same_bytes_eq, same_bytes_refl}
use cbor_gen.Reflect.{Field}
use cbor_gen.Reflect.Promoted.{Distinct}
use mathlib.Core.List.{Memᴰ, Permᴰ}
use mathlib.Core.List.Memᴰ
use mathlib.Core.List.Permᴰ
use cbor_gen.Reflect.Ordered.{
  find_field, delete_field, field_map, pick_fields, cons_found, remaining_fields, order_fields,
}
use cbor_gen.Reflect.Picked.{
  length-perm, mem_perm, Distinct-perm, find_none, pick_fields-Perm, field_map-Perm,
}

cons_found-Perm :
    (map : List Field) {f g : Field} {xs ys : List Field}
    → f ≡ g
    → Permᴰ xs ys
    → Permᴰ (cons_found (find_field f.name map) f xs) (cons_found (find_field g.name map) g ys)
cons_found-Perm map {f = f} {g = g} e p = elim (Option-cases (find_field g.name map)) [
  | inl q ↦ rw (e, q) p
  | inr (x, q) ↦ rw (e, q) (Permᴰ.cons refl p)
]

cons_found_swap :
    (map : List Field) (f g : Field) (xs : List Field)
    → Permᴰ
        (cons_found (find_field f.name map) f (cons_found (find_field g.name map) g xs))
        (cons_found (find_field g.name map) g (cons_found (find_field f.name map) f xs))
cons_found_swap map f g xs = elim (Option-cases (find_field f.name map)) [
  | inl p ↦ rw p (Permᴰ.refl _)
  | inr (x, p) ↦ elim (Option-cases (find_field g.name map)) [
    | inl q ↦ rw (p, q) (Permᴰ.refl _)
    | inr (y, q) ↦ rw (p, q) (Permᴰ.swap refl refl)
  ]
]

remaining-Perm :
    (map : List Field) {xs ys : List Field}
    → Permᴰ xs ys
    → Permᴰ (remaining_fields map xs) (remaining_fields map ys)
unfolding remaining_fields
remaining-Perm map Permᴰ.nil = Permᴰ.nil
remaining-Perm map (Permᴰ.cons e p) = cons_found-Perm map e (remaining-Perm map p)
remaining-Perm map (Permᴰ.swap {a = a} {b = b} {l = l} e f) =
    Permᴰ.trans (cons_found_swap map a b (remaining_fields map l))
      (cons_found-Perm map f (cons_found-Perm map e (Permᴰ.refl (remaining_fields map l))))
remaining-Perm map (Permᴰ.trans p q) = Permᴰ.trans (remaining-Perm map p) (remaining-Perm map q)

-- Fields that are none of the map's.
remaining_taken :
    (map fs : List Field)
    → Distinct (fs ++ map)
    → remaining_fields map (fs ++ map) ≡ remaining_fields map map
unfolding remaining_fields
remaining_taken map [] h = refl
remaining_taken map (f ∷ fs) (h, hs) =
    rw (find_none f.name map (λ g m. h g (Memᴰ.append_right fs m))) (remaining_taken map fs hs)

found_own :
    (map : List Field) (f : Field) → Memᴰ f map → (g : Field) × (find_field f.name map ≡ some g)
unfolding find_field
found_own [] f m = absurd (Memᴰ.not-nil m)
found_own (g ∷ fs) f m = elim (Bool-cases (same_bytes f.name g.name)) [
  | inl e ↦ (g, rw e refl)
  | inr e ↦ elim (Memᴰ.cases_cons m) [
    | inl q ↦
        let r : same_bytes g.name g.name ≡ false = rw q at e in
        ground (arith, same_bytes_refl g.name)
    | inr k ↦ let (x, r) = found_own fs f k in (x, rw e r)
  ]
]

remaining_all :
    (map fs : List Field) → ((f : Field) → Memᴰ f fs → Memᴰ f map) → remaining_fields map fs ≡ fs
unfolding remaining_fields
remaining_all map [] h = refl
remaining_all map (f ∷ fs) h =
    let (g, e) = found_own map f (h f (Memᴰ.head refl)) in
    rw (e, remaining_all map fs (λ x m. h x (Memᴰ.tail m))) refl

order_fields_lem :
    (names : List (List ℕ)) (fields : List Field)
    → Distinct fields
    → let picked = pick_fields names [] (field_map fields []) in
      let ordered = picked.0 ++ remaining_fields picked.1 fields in
      (order_fields names fields ≡ some ordered) × Permᴰ fields ordered
unfolding order_fields
order_fields_lem names fields h =
    let nothing = append-nil fields in
    let mapped : Permᴰ fields (field_map fields []) =
      rw nothing at (field_map-Perm fields [] (rw nothing h)) in
    let distinct = Distinct-perm mapped h in
    let picked = pick_fields names [] (field_map fields []) in
    let split = Permᴰ.trans mapped (pick_fields-Perm names [] (field_map fields []) distinct) in
    let left = remaining-Perm picked.1 split in
    let same : remaining_fields picked.1 (picked.0 ++ picked.1) ≡ picked.1 =
      remaining_taken picked.1 picked.0 (Distinct-perm split h)
      ∙ remaining_all picked.1 picked.1 (λ f m. m) in
    let rest : Permᴰ (remaining_fields picked.1 fields) picked.1 = rw same at left in
    let whole = Permᴰ.trans split (Permᴰ.append_left picked.0 (Permᴰ.symm rest)) in
    (ground (arith, length-perm whole), whole)

-- For any `fieldOrder`, fields with names of their own are put in an order that is a permutation
-- of them: the panic of `WriteTupleEncodersToFile` is not reached.
pub order_fields-Perm :
    (names : List (List ℕ)) (fields : List Field)
    → Distinct fields
    → (ordered : List Field) × (order_fields names fields ≡ some ordered) × Permᴰ fields ordered
order_fields-Perm names fields h =
    let picked = pick_fields names [] (field_map fields []) in
    let (e, whole) = order_fields_lem names fields h in
    (picked.0 ++ remaining_fields picked.1 fields, e, whole)

abbrev pub names_of : List Field → List (List ℕ)
names_of [] = []
names_of (f ∷ fs) = f.name ∷ names_of fs

names_of-append : (fs gs : List Field) → names_of (fs ++ gs) ≡ names_of fs ++ names_of gs
names_of-append [] gs = refl
names_of-append (f ∷ fs) gs = rw (names_of-append fs gs)

-- Names that are told apart, each that of a field.
abbrev pub AskedFor : List (List ℕ) → List Field → Type 0
AskedFor [] fs = Unit {0}
AskedFor (n ∷ ns) fs =
    ((f : Field) × (find_field n fs ≡ some f))
    × All (λ m. same_bytes m n ≡ false) ns
    × AskedFor ns fs

find_name :
    (name : List ℕ) (map : List Field) {f : Field}
    → find_field name map ≡ some f
    → Memᴰ f map × (f.name ≡ name)
unfolding find_field
find_name name [] e = cc
find_name name (g ∷ fs) {f = f} e = elim (Bool-cases (same_bytes name g.name)) [
  | inl same ↦
      let here : f ≡ g = ground (arith, e, same) in
      (Memᴰ.head here, ap (λ x. x.name) here ∙ sym (same_bytes_eq name g.name same))
  | inr apart ↦
      let later : find_field name fs ≡ some f = rw apart at e in
      let (m, q) = find_name name fs later in (Memᴰ.tail m, q)
]

find-delete_ne :
    (m n : List ℕ) (map : List Field)
    → same_bytes m n ≡ false
    → find_field m (delete_field n map) ≡ find_field m map
unfolding find_field delete_field
find-delete_ne m n [] h = refl
find-delete_ne m n (f ∷ fs) h = ground (arith, find-delete_ne m n fs h, same_bytes_eq n f.name)

AskedFor-map :
    (fs gs : List Field) (names : List (List ℕ))
    → ((n : List ℕ) (f : Field)
        → find_field n fs ≡ some f
        → (g : Field) × (find_field n gs ≡ some g))
    → AskedFor names fs
    → AskedFor names gs
AskedFor-map fs gs [] k h = tt
AskedFor-map fs gs (n ∷ ns) k ((f, e), apart, hs) = (k n f e, apart, AskedFor-map fs gs ns k hs)

AskedFor-delete :
    (n : List ℕ) (fs : List Field) (names : List (List ℕ))
    → All (λ m. same_bytes m n ≡ false) names
    → AskedFor names fs
    → AskedFor names (delete_field n fs)
AskedFor-delete n fs [] a h = tt
AskedFor-delete n fs (m ∷ ms) (a, more) ((f, e), apart, hs) =
    ((f, find-delete_ne m n fs a ∙ e), apart, AskedFor-delete n fs ms more hs)

pick_names :
    (names : List (List ℕ)) (ordered map : List Field)
    → AskedFor names map
    → names_of (pick_fields names ordered map).0 ≡ names_of ordered ++ names
unfolding pick_fields
pick_names [] ordered map h = sym (append-nil (names_of ordered))
pick_names (n ∷ ns) ordered map ((f, e), apart, hs) =
    let rest =
      pick_names ns (ordered ++ (f ∷ [])) (delete_field n map)
        (AskedFor-delete n map ns apart hs) in
    let last : names_of (ordered ++ (f ∷ [])) ++ ns ≡ names_of ordered ++ (n ∷ ns) =
      rw (names_of-append ordered (f ∷ []), (find_name n map e).1, append_assoc) refl in
    rw (e, pick_fields) (rest ∙ last)

-- Where each name in `fieldOrder` is that of a field, and each is there once, the fields of
-- those names come first, in that order, if the fields have names of their own.
pub order_fields_first :
    (names : List (List ℕ)) (fields : List Field)
    → Distinct fields
    → AskedFor names fields
    → (ordered : List Field) × (rest : List (List ℕ)) × (order_fields names fields ≡ some ordered)
      × (names_of ordered ≡ names ++ rest)
order_fields_first names fields h asked =
    let nothing = append-nil fields in
    let mapped : Permᴰ fields (field_map fields []) =
      rw nothing at (field_map-Perm fields [] (rw nothing h)) in
    let moved =
      AskedFor-map fields (field_map fields []) names
        (λ n f e.
          let (m, q) = find_name n fields e in
          let (g, r) = found_own (field_map fields []) f (mem_perm (Permᴰ.symm mapped) m) in
          (g, subst (λ k. find_field k (field_map fields []) ≡ some g) q r))
        asked in
    let picked = pick_fields names [] (field_map fields []) in
    let rest = remaining_fields picked.1 fields in
    (
      picked.0 ++ rest,
      names_of rest,
      (order_fields_lem names fields h).0,
      (names_of-append picked.0 rest
          ∙ ap (λ ns. ns ++ names_of rest) (pick_names names [] (field_map fields []) moved)),
    )
