-- ===== src/Reflect/Elements.antt =====
-- The list of the fields that `parseTypeInfoRecur` keeps, against its `fieldMap`.
use cbor_gen.Prelude.{
  ℕ, suc, ◌<◌, ◌≡◌, ◌≢◌, refl, sym, ap, ◌∙◌, arith, ◌⊎◌, inl, inr, List, [], ◌∷◌, ◌++◌, some, false,
  Bool-cases, Option-cases, ◌==◌, subst,
}
use cbor_gen.Keys.{lookup, put, same_bytes}
use cbor_gen.Keys.Entries.{
  same_bytes_ne, same_bytes_eq, same_bytes_refl, lookup-put_self, lookup-put_ne,
}
use cbor_gen.Tuple.{Entries}
use cbor_gen.Reflect.{Field, remove, remove_known}
use mathlib.Core.List.{Memᴰ}
use mathlib.Core.List.Memᴰ

abbrev pub Elements : Type 0
Elements = List (ℕ × Field)

-- No two elements have one name.
abbrev pub Once : Elements → Type 0
Once [] = Unit {0}
Once (e ∷ es) = ((x : ℕ × Field) → Memᴰ x es → e.1.name ≢ x.1.name) × Once es

-- `fieldMap` has each element by its name, and numbers below the next one, each by one name.
pub record IsNumbered (es : Elements) (field_map : Entries ℕ) (next : ℕ) : Type 0 where
  pub numbered : (x : ℕ × Field) → Memᴰ x es → lookup x.1.name field_map ≡ some x.0
  pub own :
      (m n : List ℕ) (i : ℕ) → lookup m field_map ≡ some i → lookup n field_map ≡ some i → m ≡ n
  pub below : (m : List ℕ) (i : ℕ) → lookup m field_map ≡ some i → i < next
  pub once : Once es

pub mem_snoc : {x y : ℕ × Field} (es : Elements) → Memᴰ x (es ++ (y ∷ [])) → Memᴰ x es ⊎ (x ≡ y)
mem_snoc es h = elim (Memᴰ.append_cases es h) [
  | inl m ↦ inl m
  | inr m ↦ inr (Memᴰ.eq_of_singleton m)
]

Once-snoc :
    (es : Elements) (y : ℕ × Field)
    → Once es
    → ((x : ℕ × Field) → Memᴰ x es → x.1.name ≢ y.1.name)
    → Once (es ++ (y ∷ []))
Once-snoc [] y h n = (λ x m. absurd (Memᴰ.not-nil m), tt)
Once-snoc (z ∷ es) y (h, hs) n = (
  λ x m. elim (mem_snoc es m) [
    | inl old ↦ h x old
    | inr e ↦ λ q. n z (Memᴰ.head refl) (q ∙ ap (λ p. p.1.name) e)
  ],
  Once-snoc es y hs (λ x m. n x (Memᴰ.tail m)),
)

-- What is left of the elements when the one of that name has been taken out.
pub record Without (name : List ℕ) (es left : Elements) : Type 0 where
  pub kept : (x : ℕ × Field) → Memᴰ x left → Memᴰ x es × (x.1.name ≢ name)
  pub others : (x : ℕ × Field) → Memᴰ x es → x.1.name ≢ name → Memᴰ x left
  pub once_left : Once left

remove-Without :
    (name : List ℕ) (i : ℕ) (es : Elements)
    → Once es
    → ((x : ℕ × Field) → Memᴰ x es → x.0 ≡ i → x.1.name ≡ name)
    → ((x : ℕ × Field) → Memᴰ x es → x.1.name ≡ name → x.0 ≡ i)
    → Without name es (remove i es)
unfolding remove
remove-Without name i [] h f g = record {
  kept = λ x m. absurd (Memᴰ.not-nil m);
  others = λ x m n. m;
  once_left = tt;
}
remove-Without name i ((j, y) ∷ es) (h, hs) f g =
    let rest = remove-Without name i es hs (λ x m. f x (Memᴰ.tail m)) (λ x m. g x (Memᴰ.tail m)) in
    elim (Bool-cases (i == j)) [
      | inl e ↦
          let same : j ≡ i = ground arith in
          let here : y.name ≡ name = f (j, y) (Memᴰ.head refl) same in
          rw e (record {
            kept = λ x m. (Memᴰ.tail m, λ q. h x m (here ∙ sym q));
            others = λ x m n. elim (Memᴰ.cases_cons m) [
              | inl q ↦ absurd (n (ap (λ p. p.1.name) q ∙ here))
              | inr k ↦ k
            ];
            once_left = hs;
          })
      | inr e ↦
          let apart : j ≢ i = λ q. ground arith in
          rw e (record {
            kept = λ x m. elim (Memᴰ.cases_cons m) [
              | inl q ↦ (Memᴰ.head q, λ r. apart (sym (ap (λ p. p.0) q) ∙ g x (Memᴰ.head q) r))
              | inr k ↦ let (k', n) = rest.kept x k in (Memᴰ.tail k', n)
            ];
            others = λ x m n. elim (Memᴰ.cases_cons m) [
              | inl q ↦ Memᴰ.head q
              | inr k ↦ Memᴰ.tail (rest.others x k n)
            ];
            once_left = (λ x m. h x (rest.kept x m).0, rest.once_left);
          })
    ]

pub remove_known-Without :
    (name : List ℕ) (es : Elements) (field_map : Entries ℕ) (next : ℕ)
    → IsNumbered es field_map next
    → Without name es (remove_known (lookup name field_map) es)
remove_known-Without name es field_map next v = elim (Option-cases (lookup name field_map)) [
  | inl e ↦ rw e (record {
    kept = λ x m. (
      m,
      λ q.
          let r : lookup name field_map ≡ some x.0 =
            subst (λ n. lookup n field_map ≡ some x.0) q (v.numbered x m) in
          cc,
    );
    others = λ x m n. m;
    once_left = v.once;
  })
  | inr (i, e) ↦ rw e (
      remove-Without name i es v.once
        (λ x m q. v.own x.1.name name i (v.numbered x m ∙ ap (λ j. some j) q) e)
        (λ x m q.
          let r : lookup name field_map ≡ some x.0 =
            subst (λ n. lookup n field_map ≡ some x.0) q (v.numbered x m) in
          ground (arith, r, e)))
]

-- A value under another name, or the new one.
pub lookup_cases :
    (m k : List ℕ) (v u : ℕ) (es : Entries ℕ)
    → lookup m (put k v es) ≡ some u
    → ((m ≡ k) × (u ≡ v)) ⊎ ((m ≢ k) × (lookup m es ≡ some u))
lookup_cases m k v u es h = elim (Bool-cases (same_bytes m k)) [
  | inl e ↦
      let q = same_bytes_eq m k e in
      let r : lookup k (put k v es) ≡ some u = subst (λ x. lookup x (put k v es) ≡ some u) q h in
      inl (q, ground (arith, lookup-put_self k v es))
  | inr e ↦ inr (
    λ q. let r : same_bytes k k ≡ false = rw q at e in ground (arith, same_bytes_refl k),
    sym (lookup-put_ne m k v es e) ∙ h,
  )
]

pub push_back-IsNumbered :
    (f : Field) (es left : Elements) (field_map : Entries ℕ) (next : ℕ)
    → IsNumbered es field_map next
    → Without f.name es left
    → IsNumbered (left ++ ((next, f) ∷ [])) (put f.name next field_map) (suc next)
push_back-IsNumbered f es left field_map next v w = record {
  numbered = λ x m. elim (mem_snoc left m) [
    | inl old ↦
        let (k, n) = w.kept x old in
        lookup-put_ne x.1.name f.name next field_map (same_bytes_ne x.1.name f.name n)
        ∙ v.numbered x k
    | inr e ↦ rw e (lookup-put_self f.name next field_map)
  ];
  own = λ m n i p q. elim (lookup_cases m f.name next i field_map p) [
    | inl (a, b) ↦ elim (lookup_cases n f.name next i field_map q) [
      | inl (c, d) ↦ a ∙ sym c
      | inr (c, d) ↦ let less = v.below n i d in absurd (ground (arith, less, b))
    ]
    | inr (a, b) ↦ elim (lookup_cases n f.name next i field_map q) [
      | inl (c, d) ↦ let less = v.below m i b in absurd (ground (arith, less, d))
      | inr (c, d) ↦ v.own m n i b d
    ]
  ];
  below = λ m i p. elim (lookup_cases m f.name next i field_map p) [
    | inl (a, b) ↦ omega arith
    | inr (a, b) ↦ let less = v.below m i b in omega arith
  ];
  once = Once-snoc left (next, f) w.once_left (λ x m. (w.kept x m).1);
}
