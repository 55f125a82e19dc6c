-- ===== src/Deferred/Complete.antt =====
-- `unmarshal_deferred` on the encoding of an item, and `marshal_deferred`.
use cbor_gen.Prelude.{
  ℕ, zero, suc, ◌+◌, ◌*◌, ◌≤◌, ◌<◌, ◌^◌, ◌≡◌, refl, ap, ◌∙◌, arith, List, [], ◌∷◌, ◌++◌, length,
  append-nil, append_assoc, none, some, ◌==◌, false, length-append,
}
use cbor_gen.Go.{ok, split_exact}
use cbor_gen.Go.Counted.{split_exact-append}
use cbor_gen.Go.Writer.{Writer}
use cbor_gen.Go.Writer.Emits.{Emits, Emits-write}
use cbor_gen.Header.{read_header, encode_major_type}
use cbor_gen.Header.Scratch.{read_header_buf, read_header_buf-read_header}
use cbor_gen.Item.{Item, Items, nil, cons, count_items, encode, encode_items, Fits, FitsAll}
use cbor_gen.Item.Forest.{opened, pending, body_length, limit, opened-Opens}
use cbor_gen.Item.Close.{opened-Fits, pending-le}
use cbor_gen.Validate.{decrement}
use cbor_gen.Validate.Complete.{read_first, rest_shorter}
use cbor_gen.Deferred.{
  copied, State, more, copy_bytes, copy_item, copy_loop, unmarshal_deferred, marshal_deferred,
}

copy_bytes_goes :
    (s : State) (body later : List ℕ)
    → s.br ≡ body ++ later
    → copy_bytes (length body) s
      ≡ more (record s { bytes_read = s.bytes_read + length body; buf = s.buf ++ body; br = later })
unfolding copy_bytes
copy_bytes_goes s body later e =
    let q : split_exact (length body) s.br ≡ some (body, later) =
      rw e (split_exact-append body later) in
    ground arith

-- The state after a round's body on a header within its limit.
abbrev gone : State → ℕ → List ℕ → List ℕ → State
gone s p body later = record {
  remaining = s.remaining + p;
  bytes_read = s.bytes_read + length body;
  buf = s.buf ++ body;
  br = later;
}

copy_item_goes :
    (maj extra : ℕ) (s : State) (body later : List ℕ)
    → maj < 8
    → length body ≡ body_length maj extra
    → extra ≤ limit maj
    → s.remaining + 16384 < 2 ^ 64
    → s.br ≡ body ++ later
    → copy_item maj extra s ≡ more (gone s (pending maj extra) body later)
unfolding copy_item
copy_item_goes zero extra s [] later hm hs hx hr e = ground (arith, append-nil s.buf)
copy_item_goes zero extra s (x ∷ body) later hm hs hx hr e = absurd (omega arith)
copy_item_goes (suc zero) extra s [] later hm hs hx hr e = ground (arith, append-nil s.buf)
copy_item_goes (suc zero) extra s (x ∷ body) later hm hs hx hr e = absurd (omega arith)
copy_item_goes (suc (suc zero)) extra s body later hm hs hx hr e =
    ground (arith, copy_bytes_goes s body later e)
copy_item_goes (suc (suc (suc zero))) extra s body later hm hs hx hr e =
    ground (arith, copy_bytes_goes s body later e)
copy_item_goes (suc (suc (suc (suc zero)))) extra s [] later hm hs hx hr e =
    ground (arith, append-nil s.buf)
copy_item_goes (suc (suc (suc (suc zero)))) extra s (x ∷ body) later hm hs hx hr e =
    absurd (omega arith)
copy_item_goes (suc (suc (suc (suc (suc zero))))) extra s [] later hm hs hx hr e =
    ground (arith, append-nil s.buf)
copy_item_goes (suc (suc (suc (suc (suc zero))))) extra s (x ∷ body) later hm hs hx hr e =
    absurd (omega arith)
copy_item_goes (suc (suc (suc (suc (suc (suc zero)))))) extra s [] later hm hs hx hr e =
    ground (arith, append-nil s.buf)
copy_item_goes (suc (suc (suc (suc (suc (suc zero)))))) extra s (x ∷ body) later hm hs hx hr e =
    absurd (omega arith)
copy_item_goes (suc (suc (suc (suc (suc (suc (suc zero))))))) extra s [] later hm hs hx hr e =
    ground (arith, append-nil s.buf)
copy_item_goes (suc (suc (suc (suc (suc (suc (suc zero))))))) extra s (x ∷ body) later hm hs hx hr
      e =
    absurd (omega arith)
copy_item_goes (suc (suc (suc (suc (suc (suc (suc (suc m)))))))) extra s body later hm hs hx hr e =
    absurd (omega arith)

-- The pieces of a copy.
join_copied :
    (buf enc body later rest : List ℕ) (n : ℕ) {whole : List ℕ}
    → whole ≡ enc ++ (body ++ later)
    → copied (((buf ++ enc) ++ body) ++ later) (n + length enc + length body + length later) rest
      ≡ copied (buf ++ whole) (n + length whole) rest
join_copied buf enc body later rest n e =
    let bytes : ((buf ++ enc) ++ body) ++ later ≡ buf ++ (enc ++ (body ++ later)) =
      simp append_assoc in
    let size : n + length enc + length body + length later ≡ n + length (enc ++ (body ++ later)) =
      omega (arith, length-append enc (body ++ later), length-append body later) in
    rw (e, bytes, size)

copy_loop_complete :
    (fuel : ℕ) (xs : Items) (s : State) (rest : List ℕ)
    → FitsAll xs
    → s.remaining ≡ count_items xs
    → s.br ≡ encode_items xs ++ rest
    → s.remaining + 16384 * length (encode_items xs) < 2 ^ 64
    → length (encode_items xs) < fuel
    → copy_loop fuel s
      ≡ copied (s.buf ++ encode_items xs) (s.bytes_read + length (encode_items xs)) rest
unfolding copy_loop
copy_loop_complete zero xs s rest h hk hb hr hf = absurd (omega arith)
copy_loop_complete (suc fuel) nil s rest h hk hb hr hf =
    unfold encode_items in ground (arith, append-nil s.buf)
copy_loop_complete (suc fuel) (cons x zs) s rest h hk hb hr hf =
    let o = opened x zs in
    let q = opened-Opens x zs in
    let fit = (opened-Fits x zs).0 (unfold FitsAll in h) in
    let go : (s.remaining == 0) ≡ false = ground arith in
    let enc : List ℕ = encode_major_type o.maj o.extra in
    let later : List ℕ = encode_items o.rest ++ rest in
    let first : read_header_buf 9 s.br ≡ ok (o.maj, o.extra) (length enc) (o.body ++ later) =
      read_header_buf-read_header 9 s.br (omega arith)
      ∙ ap read_header hb
      ∙ read_first x zs rest h in
    let t : State = record s {
      bytes_read = s.bytes_read + length enc;
      buf = s.buf ++ enc;
      br = o.body ++ later;
    } in
    let less = rest_shorter x zs in
    let few : pending o.maj o.extra ≤ 16384 = pending-le o.maj o.extra fit.0 in
    let item =
      copy_item_goes o.maj o.extra t o.body later q.known q.body_fits fit.0 (omega arith) refl in
    let u : State = gone t (pending o.maj o.extra) o.body later in
    let dec : decrement u.remaining ≡ count_items o.rest = omega (arith, q.announced) in
    let v : State = record u { remaining = decrement u.remaining } in
    let tail =
      copy_loop_complete fuel o.rest v rest fit.1 dec refl (omega (arith, dec, q.announced))
        (omega arith) in
    rw (go, first, item)
      (tail ∙ join_copied s.buf enc o.body (encode_items o.rest) rest s.bytes_read q.bytes)

-- An item within the limits is taken by `Deferred.UnmarshalCBOR` whatever follows it, and kept
-- byte for byte, if its encoding is shorter than 2 ^ 49 bytes.
pub unmarshal_deferred_complete :
    (x : Item) (rest : List ℕ)
    → Fits x
    → length (encode x) < 2 ^ 49
    → unmarshal_deferred (encode x ++ rest) ≡ copied (encode x) (length (encode x)) rest
unfolding unmarshal_deferred
unmarshal_deferred_complete x rest h hl =
    let one : encode_items (cons x nil) ≡ encode x = unfold encode_items in append-nil (encode x) in
    let s : State = record { remaining = 1; bytes_read = 0; buf = []; br = encode x ++ rest } in
    let none_yet : 0 + length (encode x) ≡ length (encode x) = omega arith in
    rw (one, none_yet) at
      (copy_loop_complete (suc (length (encode x ++ rest))) (cons x nil) s rest
        (unfold FitsAll in (h, tt)) (omega arith) (rw one) (omega (arith, ap length one))
        (omega (arith, ap length one, length-append (encode x) rest)))

-- What was kept is written back as it was read.
module _ {W : Type 0} ⦃io : Writer W⦄ where
  pub marshal_deferred-Emits :
      (raw : List ℕ) → Emits {W = W} raw none (marshal_deferred (some (some raw)))
  unfolding marshal_deferred
  marshal_deferred-Emits raw = Emits-write raw
