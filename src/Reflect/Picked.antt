-- ===== src/Reflect/Picked.antt =====
-- Taking fields out of the map, in `WriteTupleEncodersToFile`.
use cbor_gen.Prelude.{
  ℕ, ◌≡◌, ◌≢◌, refl, sym, ap, ◌∙◌, arith, inl, inr, List, [], ◌∷◌, ◌++◌, length, none, some,
  Bool-cases, Option-cases, append_assoc,
}
use cbor_gen.Keys.{same_bytes}
use cbor_gen.Keys.Entries.{same_bytes_ne, same_bytes_eq}
use cbor_gen.Reflect.{Field}
use cbor_gen.Reflect.Promoted.{Distinct}
use mathlib.Core.List.{Memᴰ, Permᴰ}
use mathlib.Core.List.Memᴰ
use mathlib.Core.List.Permᴰ
use cbor_gen.Reflect.Ordered.{find_field, delete_field, field_map, pick_fields}

pub length-perm : {xs ys : List Field} → Permᴰ xs ys → length xs ≡ length ys
length-perm Permᴰ.nil = refl
length-perm (Permᴰ.cons e p) = rw (length-perm p)
length-perm (Permᴰ.swap e f) = refl
length-perm (Permᴰ.trans p q) = length-perm p ∙ length-perm q

pub mem_perm : {x : Field} {xs ys : List Field} → Permᴰ xs ys → Memᴰ x ys → Memᴰ x xs
mem_perm Permᴰ.nil m = m
mem_perm (Permᴰ.cons e p) m = elim (Memᴰ.cases_cons m) [
  | inl q ↦ Memᴰ.head (q ∙ sym e)
  | inr k ↦ Memᴰ.tail (mem_perm p k)
]
mem_perm (Permᴰ.swap e f) m = elim (Memᴰ.cases_cons m) [
  | inl q ↦ Memᴰ.tail (Memᴰ.head (q ∙ sym f))
  | inr k ↦ elim (Memᴰ.cases_cons k) [
    | inl q ↦ Memᴰ.head (q ∙ sym e)
    | inr r ↦ Memᴰ.tail (Memᴰ.tail r)
  ]
]
mem_perm (Permᴰ.trans p q) m = mem_perm p (mem_perm q m)

pub Distinct-perm : {xs ys : List Field} → Permᴰ xs ys → Distinct xs → Distinct ys
Distinct-perm Permᴰ.nil h = tt
Distinct-perm (Permᴰ.cons e p) (h, hs) =
    (λ g m n. h g (mem_perm p m) (ap (λ x. x.name) e ∙ n), Distinct-perm p hs)
Distinct-perm (Permᴰ.swap {b = b} e f) (h, (k, hs)) = (
  λ g m n. elim (Memᴰ.cases_cons m) [
    | inl q ↦
        h b (Memᴰ.head refl)
          (ap (λ x. x.name) e ∙ sym (ap (λ x. x.name) q) ∙ sym n ∙ sym (ap (λ x. x.name) f))
    | inr r ↦ k g r (ap (λ x. x.name) f ∙ n)
  ],
  (λ g m n. h g (Memᴰ.tail m) (ap (λ x. x.name) e ∙ n), hs),
)
Distinct-perm (Permᴰ.trans p q) h = Distinct-perm q (Distinct-perm p h)

delete_none :
    (name : List ℕ) (map : List Field)
    → ((g : Field) → Memᴰ g map → name ≢ g.name)
    → delete_field name map ≡ map
unfolding delete_field
delete_none name [] h = refl
delete_none name (f ∷ fs) h =
    rw
      (
        same_bytes_ne name f.name (h f (Memᴰ.head refl)),
        delete_none name fs (λ g m. h g (Memᴰ.tail m)),
      )
      refl

pub find_none :
    (name : List ℕ) (map : List Field)
    → ((g : Field) → Memᴰ g map → name ≢ g.name)
    → find_field name map ≡ none
unfolding find_field
find_none name [] h = refl
find_none name (f ∷ fs) h =
    rw
      (
        same_bytes_ne name f.name (h f (Memᴰ.head refl)),
        find_none name fs (λ g m. h g (Memᴰ.tail m)),
      )
      refl

-- Taking out a field by its name.
find-delete :
    (name : List ℕ) (map : List Field) {f : Field}
    → Distinct map
    → find_field name map ≡ some f
    → Permᴰ map (f ∷ delete_field name map)
unfolding find_field delete_field
find-delete name [] h e = cc
find-delete name (g ∷ fs) {f = f} (h, hs) e = elim (Bool-cases (same_bytes name g.name)) [
  | inl same ↦
      let q = same_bytes_eq name g.name same in
      let here : f ≡ g = ground (arith, e, same) in
      rw (same, delete_none name fs (λ x m n. h x m (sym q ∙ n)))
        (Permᴰ.cons (sym here) (Permᴰ.refl fs))
  | inr apart ↦
      let later : find_field name fs ≡ some f = rw apart at e in
      rw apart (Permᴰ.trans (Permᴰ.cons refl (find-delete name fs hs later)) (Permᴰ.swap refl refl))
]

pub pick_fields-Perm :
    (names : List (List ℕ)) (ordered map : List Field)
    → Distinct map
    → let picked = pick_fields names ordered map in Permᴰ (ordered ++ map) (picked.0 ++ picked.1)
unfolding pick_fields
pick_fields-Perm [] ordered map h = Permᴰ.refl (ordered ++ map)
pick_fields-Perm (name ∷ names) ordered map h = elim (Option-cases (find_field name map)) [
  | inl e ↦ rw (e, pick_fields) (pick_fields-Perm names ordered map h)
  | inr (f, e) ↦
      let taken = find-delete name map h e in
      let (_, left) = Distinct-perm taken h in
      let rest = pick_fields-Perm names (ordered ++ (f ∷ [])) (delete_field name map) left in
      let here : Permᴰ (ordered ++ (f ∷ delete_field name map)) _ = rw append_assoc at rest in
      rw (e, pick_fields) (Permᴰ.trans (Permᴰ.append_left ordered taken) here)
]

pub field_map-Perm :
    (fs map : List Field) → Distinct (fs ++ map) → Permᴰ (fs ++ map) (field_map fs map)
unfolding field_map
field_map-Perm [] map h = Permᴰ.refl map
field_map-Perm (f ∷ fs) map (h, hs) =
    let apart = delete_none f.name map (λ g m. h g (Memᴰ.append_right fs m)) in
    let moved = Permᴰ.symm (Permᴰ.middle f fs map) in
    rw apart (Permᴰ.trans moved (field_map-Perm fs (f ∷ map) (Distinct-perm moved (h, hs))))
