-- ===== src/Validate/Sound.antt =====
-- What `validate_cbor` accepts, against the items of Item.
use cbor_gen.Prelude.{
  ℕ, zero, suc, ◌+◌, ◌*◌, ◌≤◌, ◌<◌, ◌^◌, ◌≡◌, ◌≢◌, refl, sym, ap, subst, ◌∙◌, arith, List, [], ◌∷◌,
  ◌++◌, length, All, All-append_right, append-nil, inl, inr, ltb, ◌==◌, if◌then◌else◌, false,
  Bool-cases, drop, length-append,
}
use cbor_gen.Go.{Error, ok, IsByte, max_length_error, unexpected_eof}
use cbor_gen.Header.{read_header, encode_major_type}
use cbor_gen.Header.Canonical.{read_header_canonical, Result-cases, length-encode_pos}
use cbor_gen.Header.Scratch.{read_header_buf-read_header}
use cbor_gen.Strings.{byte_array_max_len}
use cbor_gen.Item.{Item, nil, cons, encode, encode_items, Fits, FitsAll}
use cbor_gen.Item.Forest.{pending, body_length, limit}
use cbor_gen.Item.Close.{Forest, Forest-header, pending-le}
use cbor_gen.Validate.{
  Verdict, valid, invalid, Round, more, stop, validate_item, validate_end, validate_next,
  validate_loop, validate_cbor, decrement,
}

drop_split :
    (n : ℕ) (xs : List ℕ) → n ≤ length xs → (s : List ℕ) × (xs ≡ s ++ drop n xs) × (length s ≡ n)
drop_split zero xs h = ([], refl, refl)
drop_split (suc n) [] h = absurd (omega arith)
drop_split (suc n) (x ∷ xs) h =
    let (s, e, f) = drop_split n xs (omega arith) in (x ∷ s, ap (λ t. x ∷ t) e, ap suc f)

string_round :
    (extra r r' : ℕ) (br br' : List ℕ)
    → (if ltb byte_array_max_len extra
        then stop max_length_error
        else if ltb (length br) extra
        then stop unexpected_eof
        else more r (drop extra br))
      ≡ more r' br'
    → (s : List ℕ) × (br ≡ s ++ br') × (length s ≡ extra) × (r' ≡ r) × (extra ≤ byte_array_max_len)
string_round extra r r' br br' e = elim (Bool-cases (ltb (length br) extra)) [
  | inl short ↦ absurd (ground arith)
  | inr long ↦
      let (s, f, g) = drop_split extra br (ground arith) in
      (s, ground arith, g, ground arith, ground arith)
]

-- A round's body that goes on has taken the bytes that belong to the header and counted what it
-- announces, if nothing wraps.
validate_item_more :
    (maj extra r r' : ℕ) (br br' : List ℕ)
    → maj < 8
    → extra < 2 ^ 64
    → r + 16384 < 2 ^ 64
    → validate_item maj extra r br ≡ more r' br'
    → (s : List ℕ) × (br ≡ s ++ br')
      × (length s ≡ body_length maj extra)
      × (r' ≡ r + pending maj extra)
      × (extra ≤ limit maj)
unfolding validate_item
validate_item_more zero extra r r' br br' hm hx hr e =
    ([], ground arith, ground arith, ground arith, ground arith)
validate_item_more (suc zero) extra r r' br br' hm hx hr e =
    ([], ground arith, ground arith, ground arith, ground arith)
validate_item_more (suc (suc zero)) extra r r' br br' hm hx hr e =
    let (s, f, g, h, l) = string_round extra r r' br br' e in (s, f, g, omega arith, l)
validate_item_more (suc (suc (suc zero))) extra r r' br br' hm hx hr e =
    let (s, f, g, h, l) = string_round extra r r' br br' e in (s, f, g, omega arith, l)
validate_item_more (suc (suc (suc (suc zero)))) extra r r' br br' hm hx hr e =
    ([], ground arith, ground arith, ground arith, ground arith)
validate_item_more (suc (suc (suc (suc (suc zero))))) extra r r' br br' hm hx hr e =
    ([], ground arith, ground arith, ground arith, ground arith)
validate_item_more (suc (suc (suc (suc (suc (suc zero)))))) extra r r' br br' hm hx hr e =
    ([], ground arith, ground arith, ground arith, ground arith)
validate_item_more (suc (suc (suc (suc (suc (suc (suc zero))))))) extra r r' br br' hm hx hr e =
    ([], ground arith, ground arith, ground arith, ground arith)
validate_item_more (suc (suc (suc (suc (suc (suc (suc (suc m)))))))) extra r r' br br' hm hx hr e =
    absurd (omega arith)

-- The parts of a round that went on and ended well.
Round-valid :
    (loop : ℕ → List ℕ → Verdict) (q : Round)
    → validate_next loop q ≡ valid
    → (r : ℕ) × (br : List ℕ) × (q ≡ more r br) × (loop (decrement r) br ≡ valid)
unfolding validate_next
Round-valid loop (more r br) e = (r, br, refl, e)
Round-valid loop (stop x) e = cc

module _ (fuel : ℕ)
    (ih : (r : ℕ) (br : List ℕ)
      → All IsByte br
      → r + 16384 * length br < 2 ^ 64
      → validate_loop fuel r br ≡ valid
      → Forest r br) where
  -- One round in front of a loop that is sound.
  round_sound :
      (maj extra n k : ℕ) (br mid : List ℕ)
      → All IsByte br
      → suc k + 16384 * length br < 2 ^ 64
      → read_header br ≡ ok (maj, extra) n mid
      → validate_next (validate_loop fuel) (validate_item maj extra (suc k) mid) ≡ valid
      → Forest (suc k) br
  round_sound maj extra n k br mid hb hr hd e =
      let (split, count, small, wide) = read_header_canonical maj extra n br mid hb hd in
      let (r', br', go, ends) = Round-valid (validate_loop fuel) _ e in
      let enc : List ℕ = encode_major_type maj extra in
      let size : length br ≡ length enc + length mid = ap length split ∙ length-append enc mid in
      let later : All IsByte mid = All-append_right IsByte enc mid (rw split at hb) in
      let pos : 1 ≤ length enc = length-encode_pos maj extra in
      let (s, body, fits, r_eq, below) =
        validate_item_more maj extra (suc k) r' mid br' small wide (omega arith) go in
      let few : pending maj extra ≤ 16384 = pending-le maj extra below in
      let dec : decrement r' ≡ pending maj extra + k = omega arith in
      let tail : All IsByte br' = All-append_right IsByte s br' (rw body at later) in
      let shorter : length mid ≡ length s + length br' = rw body (length-append s br') in
      let forest : Forest (pending maj extra + k) br' =
        ih (pending maj extra + k) br' tail (omega arith) (rw dec at ends) in
      subst (Forest (suc k)) (sym (split ∙ ap (λ t. enc ++ t) body))
        (Forest-header maj extra k s br' small fits below forest)

validate_end_valid : (br : List ℕ) → validate_end br ≡ valid → br ≡ []
unfolding validate_end
validate_end_valid [] e = refl
validate_end_valid (b ∷ br) e = cc

invalid_ne : (x : Error) → invalid x ≢ valid
invalid_ne x e = cc

validate_loop_sound :
    (fuel r : ℕ) (br : List ℕ)
    → All IsByte br
    → r + 16384 * length br < 2 ^ 64
    → validate_loop fuel r br ≡ valid
    → Forest r br
unfolding validate_loop encode_items FitsAll
validate_loop_sound zero r br hb hr e = cc
validate_loop_sound (suc fuel) zero br hb hr e = (nil, refl, tt, validate_end_valid br e)
validate_loop_sound (suc fuel) (suc k) br hb hr e =
    let go : (suc k == 0) ≡ false = ground arith in
    let plain = read_header_buf-read_header 9 br (omega arith) in
    elim (Result-cases (read_header br)) [
      | inl ((maj, extra), n, mid, hd) ↦
          round_sound fuel (validate_loop_sound fuel) maj extra n k br mid hb hr hd
            (rw (go, plain, hd) at e)
      | inr (x, n, mid, hd) ↦ absurd (invalid_ne x (rw (go, plain, hd) at e))
    ]

-- A document that `validate_cbor` accepts is the encoding of one item within the limits, if it is
-- shorter than 2 ^ 49 bytes (so that the counter cannot wrap).
pub validate_cbor_sound :
    (b : List ℕ)
    → All IsByte b
    → length b < 2 ^ 49
    → validate_cbor b ≡ valid
    → (x : Item) × Fits x × (b ≡ encode x)
unfolding validate_cbor encode_items FitsAll
validate_cbor_sound b hb h e = single (validate_loop_sound (suc (length b)) 1 b hb (omega arith) e)
  where
    single : Forest 1 b → (x : Item) × Fits x × (b ≡ encode x)
    single (nil, c, f, q) = absurd (omega arith)
    single (cons x nil, c, f, q) = (x, f.0, q ∙ append-nil (encode x))
    single (cons x (cons y ys), c, f, q) = absurd (omega arith)
