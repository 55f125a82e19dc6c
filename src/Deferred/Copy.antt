-- ===== src/Deferred/Copy.antt =====
-- What `unmarshal_deferred` keeps, against the items of Item.
use cbor_gen.Prelude.{
  ℕ, zero, suc, ◌+◌, ◌*◌, ◌≤◌, ◌<◌, ◌^◌, ◌≡◌, ◌≢◌, refl, sym, ap, subst, ◌∙◌, arith, List, [], ◌++◌,
  length, All, All-append_right, append_assoc, append-nil, inl, inr, ◌⊎◌, ◌==◌, false,
  length-append, Option-cases,
}
use cbor_gen.Go.{Error, ok, IsByte, split_exact}
use cbor_gen.Go.Counted.{split_exact-some}
use cbor_gen.Header.{read_header, encode_major_type}
use cbor_gen.Header.Canonical.{read_header_canonical, Result-cases, length-encode_pos}
use cbor_gen.Header.Scratch.{read_header_buf-read_header}
use cbor_gen.Item.{Item, nil, cons, encode, encode_items, Fits, FitsAll}
use cbor_gen.Item.Forest.{pending, body_length, limit}
use cbor_gen.Item.Close.{Forest, Forest-header, pending-le}
use cbor_gen.Validate.{decrement}
use cbor_gen.Deferred.{
  Copied, copied, failed, State, Round, more, stop, copy_bytes, copy_item, copy_next, copy_loop,
  unmarshal_deferred,
}

-- The state `t` after `s`, with the bytes `c` copied and `p` items more to come.
record Moved (s t : State) (c : List ℕ) (p : ℕ) : Type 0 where
  taken : s.br ≡ c ++ t.br
  kept : t.buf ≡ s.buf ++ c
  counted : t.bytes_read ≡ s.bytes_read + length c
  left : t.remaining ≡ s.remaining + p

copy_bytes_more :
    (extra : ℕ) (s t : State)
    → copy_bytes extra s ≡ more t
    → (c : List ℕ) × (length c ≡ extra) × Moved s t c 0
unfolding copy_bytes
copy_bytes_more extra s t e = elim (Option-cases (split_exact extra s.br)) [
  | inl h ↦ absurd (ground arith)
  | inr ((xs, rest), h) ↦ let (f, g) = split_exact-some extra s.br h in (xs, g, ground arith)
]

zero_or_suc : (n : ℕ) → (n ≡ 0) ⊎ ((k : ℕ) × (n ≡ suc k))
zero_or_suc zero = inl refl
zero_or_suc (suc k) = inr (k, refl)

-- A round's body that goes on, if nothing wraps.
copy_item_more :
    (maj extra : ℕ) (s t : State)
    → maj < 8
    → extra < 2 ^ 64
    → s.remaining + 16384 < 2 ^ 64
    → copy_item maj extra s ≡ more t
    → (c : List ℕ) × (length c ≡ body_length maj extra)
      × Moved s t c (pending maj extra)
      × (extra ≤ limit maj)
unfolding copy_item
copy_item_more zero extra s t hm hx hr e =
    ([], ground arith, ground (arith, append-nil s.buf), ground arith)
copy_item_more (suc zero) extra s t hm hx hr e =
    ([], ground arith, ground (arith, append-nil s.buf), ground arith)
copy_item_more (suc (suc zero)) extra s t hm hx hr e =
    let (c, g, h) = copy_bytes_more extra s t (ground arith) in (c, g, h, ground arith)
copy_item_more (suc (suc (suc zero))) extra s t hm hx hr e =
    let (c, g, h) = copy_bytes_more extra s t (ground arith) in (c, g, h, ground arith)
copy_item_more (suc (suc (suc (suc zero)))) extra s t hm hx hr e =
    ([], ground arith, ground (arith, append-nil s.buf), ground arith)
copy_item_more (suc (suc (suc (suc (suc zero))))) extra s t hm hx hr e =
    ([], ground arith, ground (arith, append-nil s.buf), ground arith)
copy_item_more (suc (suc (suc (suc (suc (suc zero)))))) extra s t hm hx hr e =
    ([], ground arith, ground (arith, append-nil s.buf), ground arith)
copy_item_more (suc (suc (suc (suc (suc (suc (suc zero))))))) extra s t hm hx hr e =
    ([], ground arith, ground (arith, append-nil s.buf), ground arith)
copy_item_more (suc (suc (suc (suc (suc (suc (suc (suc m)))))))) extra s t hm hx hr e =
    absurd (omega arith)

Round-copied :
    (loop : State → Copied) (q : Round) {raw : List ℕ} {n : ℕ} {rest : List ℕ}
    → copy_next loop q ≡ copied raw n rest
    → (t : State) × (q ≡ more t)
      × (loop (record t { remaining = decrement t.remaining }) ≡ copied raw n rest)
unfolding copy_next
Round-copied loop (more t) e = (t, refl, e)
Round-copied loop (stop x n br) e = cc

-- What a loop that began at `s` has done when it returns.
abbrev Done : State → List ℕ → ℕ → List ℕ → Type 0
Done s raw n rest =
    (c : List ℕ) × Forest s.remaining c
    × (s.br ≡ c ++ rest)
    × (raw ≡ s.buf ++ c)
    × (n ≡ s.bytes_read + length c)

-- Three pieces of the input, and of the copy.
join_split :
    (enc c d rest : List ℕ) {b m t : List ℕ}
    → b ≡ enc ++ m
    → m ≡ c ++ t
    → t ≡ d ++ rest
    → b ≡ (enc ++ (c ++ d)) ++ rest
join_split enc c d rest p q r = p ∙ rw (q, r) (simp append_assoc)

join_buf :
    (b enc c d : List ℕ) {t raw : List ℕ}
    → t ≡ (b ++ enc) ++ c
    → raw ≡ t ++ d
    → raw ≡ b ++ (enc ++ (c ++ d))
join_buf b enc c d p q = q ∙ rw p (simp append_assoc)

-- The state after the header.
abbrev pub after_header : State → ℕ → ℕ → ℕ → List ℕ → State
after_header s maj extra n mid = record s {
  bytes_read = s.bytes_read + n;
  buf = s.buf ++ encode_major_type maj extra;
  br = mid;
}

module _ (fuel : ℕ) {raw : List ℕ} {total : ℕ} {rest : List ℕ}
    (ih : (s : State)
      → All IsByte s.br
      → s.remaining + 16384 * length s.br < 2 ^ 64
      → copy_loop fuel s ≡ copied raw total rest
      → Done s raw total rest) where
  round-Done :
      (maj extra n k : ℕ) (s : State) (mid : List ℕ)
      → s.remaining ≡ suc k
      → All IsByte s.br
      → suc k + 16384 * length s.br < 2 ^ 64
      → read_header s.br ≡ ok (maj, extra) n mid
      → copy_next (copy_loop fuel) (copy_item maj extra (after_header s maj extra n mid))
        ≡ copied raw total rest
      → Done s raw total rest
  round-Done maj extra n k s mid hk hb hr hd e =
      let (split, count, small, wide) = read_header_canonical maj extra n s.br mid hb hd in
      let u = after_header s maj extra n mid in
      let (t, go, ends) = Round-copied (copy_loop fuel) _ e in
      let enc : List ℕ = encode_major_type maj extra in
      let size : length s.br ≡ length enc + length mid = ap length split ∙ length-append enc mid in
      let later : All IsByte mid = All-append_right IsByte enc mid (subst (All IsByte) split hb) in
      let pos : 1 ≤ length enc = length-encode_pos maj extra in
      let (c, own, moved, below) = copy_item_more maj extra u t small wide (omega arith) go in
      let few : pending maj extra ≤ 16384 = pending-le maj extra below in
      let left : t.remaining ≡ s.remaining + pending maj extra = moved.left in
      let dec : decrement t.remaining ≡ pending maj extra + k = omega arith in
      let tail : All IsByte t.br =
        All-append_right IsByte c t.br (subst (All IsByte) moved.taken later) in
      let shorter : length mid ≡ length c + length t.br =
        ap length moved.taken ∙ length-append c t.br in
      let (d, forest, dsplit, draw, dcount) =
        ih (record t { remaining = decrement t.remaining }) tail (omega arith) ends in
      let mine : Forest (suc k) (enc ++ (c ++ d)) =
        Forest-header maj extra k c d small own below (subst (λ r. Forest r d) dec forest) in
      (
        enc ++ (c ++ d),
        subst (λ r. Forest r (enc ++ (c ++ d))) (sym hk) mine,
        join_split enc c d rest split moved.taken dsplit,
        join_buf s.buf enc c d moved.kept draw,
        omega (arith, count, moved.counted, dcount, length-append enc (c ++ d), length-append c d),
      )

failed_ne : {x : Error} {n m : ℕ} {br raw rest : List ℕ} → failed x n br ≢ copied raw m rest
failed_ne e = cc

copy_loop-Done :
    (fuel : ℕ) (raw : List ℕ) (total : ℕ) (rest : List ℕ) (s : State)
    → All IsByte s.br
    → s.remaining + 16384 * length s.br < 2 ^ 64
    → copy_loop fuel s ≡ copied raw total rest
    → Done s raw total rest
unfolding copy_loop encode_items FitsAll
copy_loop-Done zero raw total rest s hb hr e = cc
copy_loop-Done (suc fuel) raw total rest s hb hr e = elim (zero_or_suc s.remaining) [
  | inl z ↦
      let ended : copied s.buf s.bytes_read s.br ≡ copied raw total rest = rw z at e in
      ([], (nil, sym z, tt, refl), ground arith, ground (arith, append-nil s.buf), ground arith)
  | inr (k, q) ↦
      let go : (s.remaining == 0) ≡ false = ground arith in
      let plain = read_header_buf-read_header 9 s.br (omega arith) in
      elim (Result-cases (read_header s.br)) [
        | inl ((maj, extra), n, mid, hd) ↦
            round-Done fuel (copy_loop-Done fuel raw total rest) maj extra n k s mid q hb
              (omega arith) hd (rw (go, plain, hd) at e)
        | inr (x, n, mid, hd) ↦ absurd (failed_ne (rw (go, plain, hd) at e))
      ]
]

abbrev start : List ℕ → State
start br = record { remaining = 1; bytes_read = 0; buf = []; br = br }

-- What `Deferred.UnmarshalCBOR` keeps of an input shorter than 2 ^ 49 bytes is the encoding of
-- one item within the limits: the bytes in front of the reader it leaves, each counted.
pub unmarshal_deferred_copies :
    (br raw rest : List ℕ) (n : ℕ)
    → All IsByte br
    → length br < 2 ^ 49
    → unmarshal_deferred br ≡ copied raw n rest
    → (x : Item) × Fits x × (raw ≡ encode x) × (br ≡ raw ++ rest) × (n ≡ length raw)
unfolding unmarshal_deferred encode_items FitsAll
unmarshal_deferred_copies br raw rest n hb h e =
    single (copy_loop-Done (suc (length br)) raw n rest (start br) hb (omega arith) e)
  where
    single :
        Done (start br) raw n rest
        → (x : Item) × Fits x × (raw ≡ encode x) × (br ≡ raw ++ rest) × (n ≡ length raw)
    single (c, (nil, k, f, q), split, buf, total) = absurd (omega arith)
    single (c, (cons x nil, k, f, q), split, buf, total) =
        (x, f.0, buf ∙ q ∙ append-nil (encode x), rw buf split, rw buf (omega (arith, total)))
    single (c, (cons x (cons y ys), k, f, q), split, buf, total) = absurd (omega arith)
