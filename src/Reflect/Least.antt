-- ===== src/Reflect/Least.antt =====
-- `depths` of `parseTypeInfoRecur` against the fields that it has come to.
use cbor_gen.Prelude.{
  ℕ, ◌≤◌, ◌<◌, ◌≡◌, refl, sym, ap, ◌∙◌, arith, inl, inr, List, [], ◌∷◌, ◌++◌, some, true, ltb,
  Bool-cases, Option-cases, subst,
}
use cbor_gen.Keys.{lookup, put, same_bytes}
use cbor_gen.Keys.Entries.{same_bytes_ne, same_bytes_eq, lookup-put_self, lookup-put_ne}
use cbor_gen.Tuple.{Entries}
use cbor_gen.Reflect.{Field, Parse, remove_known, push_back, push_field}
use cbor_gen.Reflect.Elements.{
  Elements, IsNumbered, Without, remove_known-Without, push_back-IsNumbered, lookup_cases, mem_snoc,
}
use mathlib.Core.List.{Memᴰ}
use mathlib.Core.List.Memᴰ

-- The fields that have been come to, each with its depth, against what has been kept of them.
pub record IsLeast (seen : List (ℕ × Field)) (es : Elements) (depths : Entries ℕ) : Type 0 where
  pub found :
      (x : ℕ × Field) → Memᴰ x es → (d : ℕ) × (lookup x.1.name depths ≡ some d) × Memᴰ (d, x.1) seen
  pub least :
      (n : List ℕ) (d : ℕ)
      → lookup n depths ≡ some d
      → (l : ℕ × Field) → Memᴰ l seen
      → l.1.name ≡ n
      → d ≤ l.0
  pub known : (l : ℕ × Field) → Memᴰ l seen → (d : ℕ) × (lookup l.1.name depths ≡ some d)
  pub held :
      (n : List ℕ) (d : ℕ) → lookup n depths ≡ some d → (x : ℕ × Field) × Memᴰ x es × (x.1.name ≡ n)

by_name :
    (m n : List ℕ) (depths : Entries ℕ) {d : ℕ}
    → m ≡ n
    → lookup m depths ≡ some d
    → lookup n depths ≡ some d
by_name m n depths {d = d} e h = subst (λ x. lookup x depths ≡ some d) e h

-- A field that a shallower one hides.
hidden-IsLeast :
    (d p : ℕ) (f : Field) (seen : List (ℕ × Field)) (es : Elements) (depths : Entries ℕ)
    → lookup f.name depths ≡ some p
    → p < d
    → IsLeast seen es depths
    → IsLeast ((d, f) ∷ seen) es depths
hidden-IsLeast d p f seen es depths e less v = record {
  found = λ x m. let (k, q, r) = v.found x m in (k, q, Memᴰ.tail r);
  least = λ n k h l m q. elim (Memᴰ.cases_cons m) [
    | inl a ↦
        let at : lookup f.name depths ≡ some k =
          by_name n f.name depths (sym q ∙ ap (λ t. t.1.name) a) h in
        let same : k ≡ p = ground (arith, at, e) in
        let big : l.0 ≡ d = ap (λ t. t.0) a in omega arith
    | inr old ↦ v.least n k h l old q
  ];
  known = λ l m. elim (Memᴰ.cases_cons m) [
    | inl a ↦ (p, by_name f.name l.1.name depths (sym (ap (λ t. t.1.name) a)) e)
    | inr old ↦ v.known l old
  ];
  held = v.held;
}

-- A field that hides those of its name.
pushed-IsLeast :
    (d i : ℕ) (f : Field) (seen : List (ℕ × Field)) (es left : Elements) (depths : Entries ℕ)
    → ((p : ℕ) → lookup f.name depths ≡ some p → d ≤ p)
    → Without f.name es left
    → IsLeast seen es depths
    → IsLeast ((d, f) ∷ seen) (left ++ ((i, f) ∷ [])) (put f.name d depths)
pushed-IsLeast d i f seen es left depths le w v = record {
  found = λ x m. elim (mem_snoc left m) [
    | inl old ↦
        let (k, n) = w.kept x old in
        let (p, q, r) = v.found x k in
        (
          p,
          lookup-put_ne x.1.name f.name d depths (same_bytes_ne x.1.name f.name n) ∙ q,
          Memᴰ.tail r,
        )
    | inr e ↦ rw e (d, lookup-put_self f.name d depths, Memᴰ.head refl)
  ];
  least = λ n k h l m q. elim (lookup_cases n f.name d k depths h) [
    | inl (a, b) ↦ elim (Memᴰ.cases_cons m) [
      | inl c ↦ let same : l.0 ≡ d = ap (λ t. t.0) c in omega arith
      | inr old ↦
          let (p, r) = v.known l old in
          let here : lookup f.name depths ≡ some p = by_name l.1.name f.name depths (q ∙ a) r in
          let low = le p here in let high = v.least f.name p here l old (q ∙ a) in omega arith
    ]
    | inr (a, b) ↦ elim (Memᴰ.cases_cons m) [
      | inl c ↦ absurd (a (sym q ∙ ap (λ t. t.1.name) c))
      | inr old ↦ v.least n k b l old q
    ]
  ];
  known = λ l m. elim (Bool-cases (same_bytes l.1.name f.name)) [
    | inl e ↦ (
      d,
      by_name f.name l.1.name (put f.name d depths) (sym (same_bytes_eq l.1.name f.name e))
          (lookup-put_self f.name d depths),
    )
    | inr e ↦ elim (Memᴰ.cases_cons m) [
      | inl c ↦ (
        d,
        by_name f.name l.1.name (put f.name d depths) (sym (ap (λ t. t.1.name) c))
            (lookup-put_self f.name d depths),
      )
      | inr old ↦ let (p, r) = v.known l old in (p, lookup-put_ne l.1.name f.name d depths e ∙ r)
    ]
  ];
  held = λ n k h. elim (lookup_cases n f.name d k depths h) [
    | inl (a, b) ↦ ((i, f), Memᴰ.append_right left (Memᴰ.head refl), sym a)
    | inr (a, b) ↦
        let (x, m, q) = v.held n k b in
        (x, Memᴰ.append_left ((i, f) ∷ []) (w.others x m (λ r. a (sym q ∙ r))), q)
  ];
}

pub record IsFound (seen : List (ℕ × Field)) (s : Parse) : Type 0 where
  pub numbers : IsNumbered s.elements s.field_map s.next
  pub depths_least : IsLeast seen s.elements s.depths

pub push_field-IsFound :
    (d : ℕ) (f : Field) (seen : List (ℕ × Field)) (s : Parse)
    → IsFound seen s
    → IsFound ((d, f) ∷ seen) (push_field true d f s)
unfolding push_field
push_field-IsFound d f seen s v =
    let w = remove_known-Without f.name s.elements s.field_map s.next v.numbers in
    let pushed : ((p : ℕ) → lookup f.name s.depths ≡ some p → d ≤ p)
        → IsFound ((d, f) ∷ seen) (
            push_back f (record s {
              elements = remove_known (lookup f.name s.field_map) s.elements;
              depths = put f.name d s.depths;
            })) =
      λ le. record {
        numbers = push_back-IsNumbered f s.elements _ s.field_map s.next v.numbers w;
        depths_least = pushed-IsLeast d s.next f seen s.elements _ s.depths le w v.depths_least;
      } in
    elim (Option-cases (lookup f.name s.depths)) [
      | inl e ↦ rw e (pushed (λ p q. cc))
      | inr (p, e) ↦ elim (Bool-cases (ltb p d)) [
        | inl less ↦
            rw (e, less)
              (record {
                numbers = v.numbers;
                depths_least =
                    hidden-IsLeast d p f seen s.elements s.depths e (ground (arith, less))
                      v.depths_least;
              })
        | inr more ↦ rw (e, more) (pushed (λ q r. ground (arith, e, r, more)))
      ]
    ]
