-- ===== src/Reflect/Promoted.antt =====
-- What `ParseTypeInfo` makes of embedded structs, against Go's rule for the fields of a struct.
use cbor_gen.Prelude.{ℕ, ◌≤◌, ◌≡◌, ◌≢◌, ap, ◌⊎◌, inl, inr, List, [], ◌∷◌, true, false}
use cbor_gen.Keys.{lookup}
use cbor_gen.Reflect.{Field, StructFields, Parse, no_parse, push_field, values, parse_type_info}
use cbor_gen.Reflect.Leaves.{leaves, push_all, parse_fields-leaves, exported, parse_fields-exported}
use cbor_gen.Reflect.Elements.{Elements, Once}
use mathlib.Core.List.{Memᴰ}
use mathlib.Core.List.Memᴰ
use cbor_gen.Reflect.Least.{IsFound, push_field-IsFound}

-- The fields behind `ls`, come to one by one.
abbrev onto : List (ℕ × Field) → List (ℕ × Field) → List (ℕ × Field)
onto [] seen = seen
onto (l ∷ ls) seen = onto ls (l ∷ seen)

push_all-IsFound :
    (ls seen : List (ℕ × Field)) (s : Parse)
    → IsFound seen s
    → IsFound (onto ls seen) (push_all ls s)
push_all-IsFound [] seen s v = v
push_all-IsFound ((d, f) ∷ ls) seen s v =
    push_all-IsFound ls ((d, f) ∷ seen) (push_field true d f s) (push_field-IsFound d f seen s v)

seen_onto : {x : ℕ × Field} (ls seen : List (ℕ × Field)) → Memᴰ x seen → Memᴰ x (onto ls seen)
seen_onto [] seen m = m
seen_onto (l ∷ ls) seen m = seen_onto ls (l ∷ seen) (Memᴰ.tail m)

leaf_onto : {x : ℕ × Field} (ls seen : List (ℕ × Field)) → Memᴰ x ls → Memᴰ x (onto ls seen)
leaf_onto [] seen m = absurd (Memᴰ.not-nil m)
leaf_onto (l ∷ ls) seen m = elim (Memᴰ.cases_cons m) [
  | inl e ↦ seen_onto ls (l ∷ seen) (Memᴰ.head e)
  | inr k ↦ leaf_onto ls (l ∷ seen) k
]

onto_cases :
    {x : ℕ × Field} (ls seen : List (ℕ × Field)) → Memᴰ x (onto ls seen) → Memᴰ x ls ⊎ Memᴰ x seen
onto_cases [] seen m = inr m
onto_cases (l ∷ ls) seen m = elim (onto_cases ls (l ∷ seen) m) [
  | inl k ↦ inl (Memᴰ.tail k)
  | inr k ↦ elim (Memᴰ.cases_cons k) [ inl e ↦ inl (Memᴰ.head e) | inr q ↦ inr q ]
]

no_parse-IsFound : IsFound [] no_parse
unfolding lookup
no_parse-IsFound = record {
  numbers = record {
    numbered = λ x m. absurd (Memᴰ.not-nil m);
    own = λ m n i p q. cc;
    below = λ m i p. cc;
    once = tt;
  };
  depths_least = record {
    found = λ x m. absurd (Memᴰ.not-nil m);
    least = λ n d h l m q. absurd (Memᴰ.not-nil m);
    known = λ l m. absurd (Memᴰ.not-nil m);
    held = λ n d h. cc;
  };
}

-- The fields with names of their own.
abbrev pub Distinct : List Field → Type 0
Distinct [] = Unit {0}
Distinct (f ∷ fs) = ((g : Field) → Memᴰ g fs → f.name ≢ g.name) × Distinct fs

-- Of the fields `ls` with their depths: each name once, by a field of least depth.
pub record Promotes (ls : List (ℕ × Field)) (fields : List Field) : Type 0 where
  pub distinct : Distinct fields
  pub shallowest :
      (f : Field)
      → Memᴰ f fields
      → (d : ℕ) × Memᴰ (d, f) ls × ((l : ℕ × Field) → Memᴰ l ls → l.1.name ≡ f.name → d ≤ l.0)
  pub complete : (l : ℕ × Field) → Memᴰ l ls → (f : Field) × Memᴰ f fields × (f.name ≡ l.1.name)

mem_values : {x : ℕ × Field} (es : Elements) → Memᴰ x es → Memᴰ x.1 (values es)
mem_values [] m = absurd (Memᴰ.not-nil m)
mem_values (e ∷ es) m = elim (Memᴰ.cases_cons m) [
  | inl q ↦ Memᴰ.head (ap (λ t. t.1) q)
  | inr k ↦ Memᴰ.tail (mem_values es k)
]

values_mem : {f : Field} (es : Elements) → Memᴰ f (values es) → (i : ℕ) × Memᴰ (i, f) es
values_mem [] m = absurd (Memᴰ.not-nil m)
values_mem ((i, g) ∷ es) m = elim (Memᴰ.cases_cons m) [
  | inl q ↦ (i, Memᴰ.head (ap (λ h. (i, h)) q))
  | inr k ↦ let (j, r) = values_mem es k in (j, Memᴰ.tail r)
]

Once-Distinct : (es : Elements) → Once es → Distinct (values es)
Once-Distinct [] h = tt
Once-Distinct ((i, f) ∷ es) (h, hs) =
    (λ g m. let (j, r) = values_mem es m in h (j, g) r, Once-Distinct es hs)

parse_type_info-Promotes :
    (pkg : List ℕ) (fs : StructFields) → Promotes (leaves pkg 0 fs) (parse_type_info pkg true fs)
unfolding parse_type_info
parse_type_info-Promotes pkg fs =
    let ls = leaves pkg 0 fs in
    let v = push_all-IsFound ls [] no_parse no_parse-IsFound in
    let es = (push_all ls no_parse).elements in
    rw (parse_fields-leaves pkg 0 fs no_parse) (record {
      distinct = Once-Distinct es v.numbers.once;
      shallowest = λ f m.
          let (i, at) = values_mem es m in
          let (d, q, r) = v.depths_least.found (i, f) at in
          let here : Memᴰ (d, f) ls = elim (onto_cases ls [] r) [
            | inl here ↦ here
            | inr k ↦ absurd (Memᴰ.not-nil k)
          ] in
          (d, here, λ l n e. v.depths_least.least f.name d q l (leaf_onto ls [] n) e);
      complete = λ l m.
          let (d, q) = v.depths_least.known l (leaf_onto ls [] m) in
          let (x, k, e) = v.depths_least.held l.1.name d q in (x.1, mem_values es k, e);
    })

-- The fields that `ParseTypeInfo` returns are the exported fields of the struct in their order;
-- with flattening they are, of the exported fields of the struct and of those embedded in it,
-- one for each name, each at the least depth that its name has.
pub parse_type_info_fields :
    (pkg : List ℕ) (fs : StructFields)
    → (parse_type_info pkg false fs ≡ exported pkg fs)
      × Promotes (leaves pkg 0 fs) (parse_type_info pkg true fs)
unfolding parse_type_info
parse_type_info_fields pkg fs =
    (parse_fields-exported pkg 0 fs no_parse, parse_type_info-Promotes pkg fs)
