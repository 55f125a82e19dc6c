-- ===== src/Item/Close.antt =====
-- The other way: a header, the bytes that belong to it and the forest that follows make an item
-- and the items behind it. With that, an item is within its limits exactly if what `opened` shows is.
use cbor_gen.Prelude.{
  ℕ, zero, suc, ◌+◌, ◌*◌, ◌≤◌, ◌<◌, ◌≡◌, refl, sym, ap, arith, List, [], ◌∷◌, ◌++◌, length, ◌↔◌,
}
use cbor_gen.Header.{encode_major_type}
use cbor_gen.Item.{
  Item, unsigned, negative, byte_string, text_string, array, map, tag, other, Items, nil, cons,
  Pairs, end, pair, count_items, count_pairs, encode_items, Fits, FitsAll, FitsPairs,
}
use cbor_gen.Item.Forest.{
  Opened, opened, append, flatten, count-append, count-flatten, pending, body_length, limit,
  opened-Opens,
}

cons_first : Item → Items × Items → Items × Items
cons_first x (xs, ys) = (cons x xs, ys)

split : ℕ → Items → Items × Items
unfolding cons_first
split zero xs = (nil, xs)
split (suc n) nil = (nil, nil)
split (suc n) (cons x xs) = cons_first x (split n xs)

pair_first : Item → Item → Pairs × Items → Pairs × Items
pair_first k v (ps, ys) = (pair k v ps, ys)

split_pairs : ℕ → Items → Pairs × Items
unfolding pair_first
split_pairs zero xs = (end, xs)
split_pairs (suc n) (cons k (cons v xs)) = pair_first k v (split_pairs n xs)
split_pairs (suc n) xs = (end, nil)

split_lem :
    (n : ℕ) (xs : Items)
    → n ≤ count_items xs
    → (append (split n xs).0 (split n xs).1 ≡ xs) × (count_items (split n xs).0 ≡ n)
unfolding split append
split_lem zero xs h = (refl, refl)
split_lem (suc n) nil h = absurd (omega arith)
split_lem (suc n) (cons x xs) h =
    let (e, f) = split_lem n xs (omega arith) in (ap (cons x) e, ap suc f)

split_pairs_lem :
    (n : ℕ) (xs : Items)
    → n * 2 ≤ count_items xs
    → (flatten (split_pairs n xs).0 (split_pairs n xs).1 ≡ xs)
      × (count_pairs (split_pairs n xs).0 ≡ n)
unfolding split_pairs flatten
split_pairs_lem zero xs h = (refl, refl)
split_pairs_lem (suc n) nil h = absurd (omega arith)
split_pairs_lem (suc n) (cons k nil) h = absurd (omega arith)
split_pairs_lem (suc n) (cons k (cons v xs)) h =
    let (e, f) = split_pairs_lem n xs (omega arith) in (ap (λ t. cons k (cons v t)) e, ap suc f)

empty_of_length : (xs : List ℕ) → length xs ≡ 0 → xs ≡ []
empty_of_length [] h = refl
empty_of_length (x ∷ xs) h = absurd (omega arith)

-- An item and `k` items behind it that open as `o`.
abbrev pub Closed : Opened → ℕ → Type 0
Closed o k = (x : Item) × (zs : Items) × (opened x zs ≡ o) × (count_items zs ≡ k)

pub close :
    (maj extra k : ℕ) (body : List ℕ) (rest : Items)
    → maj < 8
    → length body ≡ body_length maj extra
    → count_items rest ≡ pending maj extra + k
    → Closed (record { maj = maj; extra = extra; body = body; rest = rest }) k
unfolding opened
close zero n k body zs h b c = let e = empty_of_length body b in (unsigned n, zs, rw e, omega arith)
close (suc zero) n k body zs h b c =
    let e = empty_of_length body b in (negative n, zs, rw e, omega arith)
close (suc (suc zero)) n k body zs h b c = (byte_string body, zs, rw b, omega arith)
close (suc (suc (suc zero))) n k body zs h b c = (text_string body, zs, rw b, omega arith)
close (suc (suc (suc (suc zero)))) n k body zs h b c =
    let e = empty_of_length body b in
    let (whole, size) = split_lem n zs (omega arith) in
    (
      array (split n zs).0,
      (split n zs).1,
      rw (size, whole, e),
      omega (arith, ap count_items whole, count-append (split n zs).0 (split n zs).1),
    )
close (suc (suc (suc (suc (suc zero))))) n k body zs h b c =
    let e = empty_of_length body b in
    let (whole, size) = split_pairs_lem n zs (omega arith) in
    (
      map (split_pairs n zs).0,
      (split_pairs n zs).1,
      rw (size, whole, e),
      omega (arith, ap count_items whole, count-flatten (split_pairs n zs).0 (split_pairs n zs).1),
    )
close (suc (suc (suc (suc (suc (suc zero)))))) n k body nil h b c = absurd (omega arith)
close (suc (suc (suc (suc (suc (suc zero)))))) n k body (cons x zs) h b c =
    let e = empty_of_length body b in (tag n x, zs, rw e, omega arith)
close (suc (suc (suc (suc (suc (suc (suc zero))))))) n k body zs h b c =
    let e = empty_of_length body b in (other n, zs, rw e, omega arith)
close (suc (suc (suc (suc (suc (suc (suc (suc m)))))))) n k body zs h b c = absurd (omega arith)

FitsAll-append : (xs zs : Items) → FitsAll (append xs zs) ↔ (FitsAll xs × FitsAll zs)
unfolding append FitsAll
FitsAll-append nil zs = (λ h. (tt, h), λ h. h.1)
FitsAll-append (cons x xs) zs =
    let (to, from) = FitsAll-append xs zs in
    (λ h. ((h.0, (to h.1).0), (to h.1).1), λ h. (h.0.0, from (h.0.1, h.1)))

FitsAll-flatten : (ps : Pairs) (zs : Items) → FitsAll (flatten ps zs) ↔ (FitsPairs ps × FitsAll zs)
unfolding flatten FitsAll FitsPairs
FitsAll-flatten end zs = (λ h. (tt, h), λ h. h.1)
FitsAll-flatten (pair k v ps) zs =
    let (to, from) = FitsAll-flatten ps zs in
    (λ h. ((h.0, h.1.0, (to h.1.1).0), (to h.1.1).1), λ h. (h.0.0, (h.0.1, from (h.0.2, h.1))))

abbrev pub FitsOpened : Opened → Type 0
FitsOpened o = (o.extra ≤ limit o.maj) × FitsAll o.rest

-- The limits of a forest are those of its first header and of the forest behind it.
pub opened-Fits : (x : Item) (zs : Items) → (Fits x × FitsAll zs) ↔ FitsOpened (opened x zs)
unfolding opened Fits FitsAll
opened-Fits (unsigned n) zs = (λ h. (omega arith, h.1), λ h. (omega arith, h.1))
opened-Fits (negative n) zs = (λ h. (omega arith, h.1), λ h. (omega arith, h.1))
opened-Fits (byte_string s) zs = (λ h. h, λ h. h)
opened-Fits (text_string s) zs = (λ h. h, λ h. h)
opened-Fits (array xs) zs =
    let (to, from) = FitsAll-append xs zs in
    (λ h. (h.0.0, from (h.0.1, h.1)), λ h. ((h.0, (to h.1).0), (to h.1).1))
opened-Fits (map ps) zs =
    let (to, from) = FitsAll-flatten ps zs in
    (λ h. (h.0.0, from (h.0.1, h.1)), λ h. ((h.0, (to h.1).0), (to h.1).1))
opened-Fits (tag n x) zs = (λ h. (omega arith, (h.0.1, h.1)), λ h. ((omega arith, h.1.0), h.1.1))
opened-Fits (other n) zs = (λ h. (omega arith, h.1), λ h. (omega arith, h.1))

-- The encoding of `r` items within the limits.
abbrev pub Forest : ℕ → List ℕ → Type 0
Forest r br = (xs : Items) × (count_items xs ≡ r) × FitsAll xs × (br ≡ encode_items xs)

-- A header, the bytes that belong to it and the forest behind them make a forest.
pub Forest-header :
    (maj extra k : ℕ) (s br : List ℕ)
    → maj < 8
    → length s ≡ body_length maj extra
    → extra ≤ limit maj
    → Forest (pending maj extra + k) br
    → Forest (suc k) (encode_major_type maj extra ++ (s ++ br))
unfolding FitsAll
Forest-header maj extra k s br hm hs hx (rest, count, fits, split) =
    let (x, zs, e, c) = close maj extra k s rest hm hs count in
    let fit : FitsOpened (opened x zs) = rw e (hx, fits) in
    let bytes = (opened-Opens x zs).bytes in
    (cons x zs, ap suc c, (opened-Fits x zs).1 fit, rw split (sym (rw e at bytes)))

pub pending-le : (maj extra : ℕ) → extra ≤ limit maj → pending maj extra ≤ 16384
pending-le maj extra h = ground arith
