-- ===== src/Scan/Links.antt =====
-- The links of an item, independently of the code: the CIDs of its tags 42, in order.
use cbor_gen.Prelude.{
  ℕ, suc, ◌≤◌, ◌≡◌, ◌≢◌, refl, sym, ap, arith, List, [], ◌∷◌, ◌++◌, length, append_assoc,
  append-nil, Option, none, some, ◌==◌, leb, if◌then◌else◌, inl, inr, ◌⊎◌, Option-cases, Bool-cases,
}
use cbor_gen.Item.{
  Item, unsigned, negative, byte_string, text_string, array, map, tag, other, Items, nil, cons,
  Pairs, end, pair,
}
use cbor_gen.Item.Forest.{opened, append, flatten}
use cbor_gen.Cid.{Caster}
use cbor_gen.Scan.{max_cid_length}

abbrev pub prepend : {C : Type 0} → List C → Option (List C) → Option (List C)
prepend xs none = none
prepend xs (some ys) = some (xs ++ ys)

-- Both lists, if there are both.
abbrev pub join : {C : Type 0} → Option (List C) → Option (List C) → Option (List C)
join none q = none
join (some xs) q = prepend xs q

abbrev pub single : {C : Type 0} → Option C → Option (List C)
single none = none
single (some c) = some (c ∷ [])

module _ {C : Type 0} ⦃lib : Caster C⦄ where
  -- What stands behind a tag 42: a byte string of at most 100 bytes, the CID without the first.
  unfoldable pub link_of : Item → Option (List C)
  link_of (byte_string (b ∷ bytes)) =
      if leb (suc (length bytes)) max_cid_length then single (lib.cast bytes) else none
  link_of x = none

  -- `none` where a tag 42 has no CID behind it.
  unfoldable mutual
    pub find_links : Item → Option (List C)
    find_links (unsigned n) = some []
    find_links (negative n) = some []
    find_links (byte_string s) = some []
    find_links (text_string s) = some []
    find_links (array xs) = find_items xs
    find_links (map ps) = find_pairs ps
    find_links (tag n x) = let below = find_links x in if n == 42 then link_of x else below
    find_links (other n) = some []

    pub find_items : Items → Option (List C)
    find_items nil = some []
    find_items (cons x xs) = join (find_links x) (find_items xs)

    pub find_pairs : Pairs → Option (List C)
    find_pairs end = some []
    find_pairs (pair k v ps) = join (find_links k) (join (find_links v) (find_pairs ps))

  join_nil : (q : Option (List C)) → join (some []) q ≡ q
  join_nil none = refl
  join_nil (some xs) = refl

  join-some_nil : (p : Option (List C)) → join p (some []) ≡ p
  join-some_nil none = refl
  join-some_nil (some xs) = ap some (append-nil xs)

  pub find_one : (x : Item) → find_items (cons x nil) ≡ find_links x
  unfolding find_items
  find_one x = join-some_nil (find_links x)

  join_assoc : (p q r : Option (List C)) → join (join p q) r ≡ join p (join q r)
  join_assoc none q r = refl
  join_assoc (some xs) none r = refl
  join_assoc (some xs) (some ys) none = refl
  join_assoc (some xs) (some ys) (some zs) = ap some (append_assoc xs ys zs)

  find-append : (xs zs : Items) → find_items (append xs zs) ≡ join (find_items xs) (find_items zs)
  unfolding append find_items
  find-append nil zs = sym (join_nil (find_items zs))
  find-append (cons x xs) zs =
      rw (find-append xs zs) (sym (join_assoc (find_links x) (find_items xs) (find_items zs)))

  find-flatten :
      (ps : Pairs) (zs : Items) → find_items (flatten ps zs) ≡ join (find_pairs ps) (find_items zs)
  unfolding flatten find_items find_pairs
  find-flatten end zs = sym (join_nil (find_items zs))
  find-flatten (pair k v ps) zs = rw (find-flatten ps zs, join_assoc, join_assoc)

  -- The header of an item that is no tag 42 leaves the links of the forest where they are.
  pub link_or_rest :
      (x : Item) (zs : Items)
      → ((y : Item) × (x ≡ tag 42 y))
        ⊎ ((find_items (opened x zs).rest ≡ find_items (cons x zs))
            × ((opened x zs).maj ≡ 6 → (opened x zs).extra ≢ 42))
  unfolding opened find_items find_links
  link_or_rest (unsigned n) zs = inr (sym (join_nil (find_items zs)), λ e. absurd (omega arith))
  link_or_rest (negative n) zs = inr (sym (join_nil (find_items zs)), λ e. absurd (omega arith))
  link_or_rest (byte_string s) zs = inr (sym (join_nil (find_items zs)), λ e. absurd (omega arith))
  link_or_rest (text_string s) zs = inr (sym (join_nil (find_items zs)), λ e. absurd (omega arith))
  link_or_rest (array xs) zs = inr (find-append xs zs, λ e. absurd (omega arith))
  link_or_rest (map ps) zs = inr (find-flatten ps zs, λ e. absurd (omega arith))
  link_or_rest (tag n x) zs = elim (Bool-cases (n == 42)) [
    | inl h ↦ let q : n ≡ 42 = ground (arith, h) in inl (x, ap (λ k. tag k x) q)
    | inr h ↦ inr (rw h refl, λ e. ground (arith, h))
  ]
  link_or_rest (other n) zs = inr (sym (join_nil (find_items zs)), λ e. absurd (omega arith))

  -- What `link_of` found.
  pub record Link (y : Item) (ds : List C) : Type 0 where
    pub first : ℕ
    pub bytes : List ℕ
    pub cid : C
    pub string : y ≡ byte_string (first ∷ bytes)
    pub short : suc (length bytes) ≤ 100
    pub cast : lib.cast bytes ≡ some cid
    pub single_link : ds ≡ cid ∷ []

  pub link_of-Link : (y : Item) (ds : List C) → link_of y ≡ some ds → Link y ds
  unfolding link_of
  link_of-Link (byte_string (b ∷ bytes)) ds e = elim (Option-cases (lib.cast bytes)) [
    | inl h ↦ absurd (ground arith)
    | inr (c, h) ↦ record {
      first = b;
      bytes = bytes;
      cid = c;
      string = refl;
      short = ground arith;
      cast = h;
      single_link = ground arith;
    }
  ]
  link_of-Link (byte_string []) ds e = cc
  link_of-Link (unsigned n) ds e = cc
  link_of-Link (negative n) ds e = cc
  link_of-Link (text_string s) ds e = cc
  link_of-Link (array xs) ds e = cc
  link_of-Link (map ps) ds e = cc
  link_of-Link (tag n x) ds e = cc
  link_of-Link (other n) ds e = cc

  -- The links of a forest that begins with a link.
  pub find-link :
      (y : Item) (zs : Items) (cs : List C)
      → find_items (cons (tag 42 y) zs) ≡ some cs
      → (ds : List C) × (es : List C) × (link_of y ≡ some ds)
        × (find_items zs ≡ some es)
        × (cs ≡ ds ++ es)
  unfolding find_items find_links
  find-link y zs cs e = elim (Option-cases (link_of y)) [
    | inl h ↦ absurd (ground arith)
    | inr (ds, h) ↦ elim (Option-cases (find_items zs)) [
      | inl g ↦ absurd (ground arith)
      | inr (es, g) ↦ (ds, es, h, g, ground arith)
    ]
  ]
