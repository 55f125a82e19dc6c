-- ===== src/Scan/Steps.antt =====
-- What a round of `scan_for_links` does behind its header: skip bytes, call back, count items.
use cbor_gen.Prelude.{
  ℕ, zero, suc, ◌+◌, ◌≤◌, ◌<◌, ◌^◌, ◌≡◌, ◌≢◌, ap, ◌∙◌, arith, List, [], ◌∷◌, ◌++◌, length, some,
  length-append,
}
use cbor_gen.Go.{ok, read_full}
use cbor_gen.Go.Counted.{read_full-append}
use cbor_gen.Header.{read_header, encode_major_type}
use cbor_gen.Header.Scratch.{read_header_buf, read_header_buf-read_header}
use cbor_gen.Item.{byte_string, Items, cons, encode_items, FitsAll}
use cbor_gen.Item.Forest.{opened, pending, body_length, limit}
use cbor_gen.Validate.Complete.{read_first, drop-append}
use cbor_gen.Cid.{Caster}
use cbor_gen.Scan.{
  Source, bytes_buffer, bytes_reader, bufio_reader, other_reader, discard, Scan, more, scan_bytes,
  call_back, scan_cid, scan_link, scan_item,
}

discard_goes :
    (source : Source) (whole body later : List ℕ)
    → length body < 2 ^ 63
    → discard source whole (length body) (body ++ later) ≡ ok tt 0 later
unfolding discard
discard_goes bytes_buffer whole body later h =
    ground (arith, length-append body later, drop-append body later)
discard_goes bytes_reader whole body later h =
    ground (arith, length-append body later, drop-append body later)
discard_goes bufio_reader whole body later h =
    ground (arith, length-append body later, drop-append body later)
discard_goes other_reader whole body later h =
    ground (arith, length-append body later, drop-append body later)

module _ {C : Type 0} ⦃lib : Caster C⦄ where
  -- The state after a round's body on a header that is no tag 42.
  abbrev pub gone : Scan C → ℕ → List ℕ → List ℕ → Scan C
  gone s p body later = record {
    remaining = s.remaining + p;
    bytes_read = s.bytes_read + length body;
    links = s.links;
    br = later;
  }

  scan_bytes_goes :
      (source : Source) (whole body later : List ℕ) (s : Scan C)
      → length body < 2 ^ 63
      → s.bytes_read + length body < 2 ^ 64
      → s.br ≡ body ++ later
      → scan_bytes source whole (length body) s ≡ more (gone s 0 body later)
  unfolding scan_bytes
  scan_bytes_goes source whole body later s h hb e =
      let q : discard source whole (length body) s.br ≡ ok tt 0 later =
        rw e (discard_goes source whole body later h) in
      ground arith

  -- A round's body on a header within its limit, no tag 42, with the bytes that belong to it.
  pub scan_item_goes :
      (source : Source) (whole : List ℕ) (maj extra : ℕ) (s : Scan C) (body later : List ℕ)
      → maj < 8
      → length body ≡ body_length maj extra
      → extra ≤ limit maj
      → s.remaining + 16384 < 2 ^ 64
      → s.bytes_read + length body < 2 ^ 64
      → s.br ≡ body ++ later
      → (maj ≡ 6 → extra ≢ 42)
      → scan_item source whole maj extra s ≡ more (gone s (pending maj extra) body later)
  unfolding scan_item
  scan_item_goes source whole zero extra s [] later hm hs hx hr hb e ne = ground arith
  scan_item_goes source whole zero extra s (x ∷ body) later hm hs hx hr hb e ne =
      absurd (omega arith)
  scan_item_goes source whole (suc zero) extra s [] later hm hs hx hr hb e ne = ground arith
  scan_item_goes source whole (suc zero) extra s (x ∷ body) later hm hs hx hr hb e ne =
      absurd (omega arith)
  scan_item_goes source whole (suc (suc zero)) extra s body later hm hs hx hr hb e ne =
      ground (arith, scan_bytes_goes source whole body later s (omega arith) hb e)
  scan_item_goes source whole (suc (suc (suc zero))) extra s body later hm hs hx hr hb e ne =
      ground (arith, scan_bytes_goes source whole body later s (omega arith) hb e)
  scan_item_goes source whole (suc (suc (suc (suc zero)))) extra s [] later hm hs hx hr hb e ne =
      ground arith
  scan_item_goes source whole (suc (suc (suc (suc zero)))) extra s (x ∷ body) later hm hs hx hr hb e
        ne =
      absurd (omega arith)
  scan_item_goes source whole (suc (suc (suc (suc (suc zero))))) extra s [] later hm hs hx hr hb e
        ne =
      ground arith
  scan_item_goes source whole (suc (suc (suc (suc (suc zero))))) extra s (x ∷ body) later hm hs hx
        hr hb e ne =
      absurd (omega arith)
  scan_item_goes source whole (suc (suc (suc (suc (suc (suc zero)))))) extra s [] later hm hs hx hr
        hb e ne =
      ground arith
  scan_item_goes source whole (suc (suc (suc (suc (suc (suc zero)))))) extra s (x ∷ body) later hm
        hs hx hr hb e ne =
      absurd (omega arith)
  scan_item_goes source whole (suc (suc (suc (suc (suc (suc (suc zero))))))) extra s [] later hm hs
        hx hr hb e ne =
      ground arith
  scan_item_goes source whole (suc (suc (suc (suc (suc (suc (suc zero))))))) extra s (x ∷ body)
        later hm hs hx hr hb e ne =
      absurd (omega arith)
  scan_item_goes source whole (suc (suc (suc (suc (suc (suc (suc (suc m)))))))) extra s body later
        hm hs hx hr hb e ne =
      absurd (omega arith)

  -- A round's body behind a tag 42.
  pub scan_link_goes :
      (b : ℕ) (bytes : List ℕ) (c : C) (zs : Items) (rest : List ℕ) (s : Scan C)
      → FitsAll (cons (byte_string (b ∷ bytes)) zs)
      → suc (length bytes) ≤ 100
      → lib.cast bytes ≡ some c
      → s.br ≡ encode_items (cons (byte_string (b ∷ bytes)) zs) ++ rest
      → scan_link s
        ≡ more (record s {
          bytes_read =
              s.bytes_read + length (encode_major_type 2 (length (b ∷ bytes))) + length (b ∷ bytes);
          links = s.links ++ (c ∷ []);
          br = encode_items zs ++ rest;
        })
  unfolding scan_link scan_cid call_back opened
  scan_link_goes b bytes c zs rest s h hl hc e =
      let s2 : List ℕ = b ∷ bytes in
      let later : List ℕ = encode_items zs ++ rest in
      let enc : List ℕ = encode_major_type 2 (length s2) in
      let first : read_header_buf 100 s.br ≡ ok (2, length s2) (length enc) (s2 ++ later) =
        read_header_buf-read_header 100 s.br (omega arith)
        ∙ ap read_header e
        ∙ read_first (byte_string s2) zs rest h in
      let all : read_full (length s2) (s2 ++ later) ≡ ok s2 (length s2) later =
        read_full-append s2 later in
      ground (arith, first, all, hc)
