-- ===== src/Scan/Complete.antt =====
-- `scan_for_links` on the encoding of an item.
use cbor_gen.Prelude.{
  ℕ, zero, suc, ◌+◌, ◌*◌, ◌<◌, ◌^◌, ◌≡◌, refl, ap, ◌∙◌, arith, List, [], ◌++◌, length, append-nil,
  append_assoc, some, ◌==◌, false,
}
use cbor_gen.Item.{Item, Items, nil, cons, count_items, encode, encode_items, Fits, FitsAll}
use cbor_gen.Validate.{decrement}
use cbor_gen.Validate.Complete.{rest_shorter}
use cbor_gen.Cid.{Caster}
use cbor_gen.Scan.{Source, Scan, scanned, scan_next, scan_loop, scan_for_links}
use cbor_gen.Scan.Links.{find_links, find_items, find_one}
use cbor_gen.Scan.Rounds.{to_next}

module _ {C : Type 0} ⦃lib : Caster C⦄ where
  scan_loop_complete :
      (source : Source) (whole : List ℕ) (fuel : ℕ) (xs : Items) (s : Scan C) (rest : List ℕ)
      (cs : List C)
      → FitsAll xs
      → find_items xs ≡ some cs
      → s.remaining ≡ count_items xs
      → s.br ≡ encode_items xs ++ rest
      → s.remaining + 16384 * length (encode_items xs) < 2 ^ 64
      → s.bytes_read + length (encode_items xs) < 2 ^ 63
      → length (encode_items xs) < fuel
      → scan_loop source whole fuel s
        ≡ scanned (s.links ++ cs) (s.bytes_read + length (encode_items xs)) rest
  unfolding scan_loop scan_next
  scan_loop_complete source whole zero xs s rest cs h hc hk hb hr hl hf = absurd (omega arith)
  scan_loop_complete source whole (suc fuel) nil s rest cs h hc hk hb hr hl hf =
      unfold encode_items find_items in ground (arith, append-nil s.links)
  scan_loop_complete source whole (suc fuel) (cons x zs) s rest cs h hc hk hb hr hl hf =
      let less = rest_shorter x zs in
      let n = to_next source whole x zs s rest cs h hc hk hb (omega arith) hl in
      let t = n.state in
      let go : (s.remaining == 0) ≡ false = ground arith in
      let dec : decrement t.remaining ≡ count_items n.items = omega (arith, n.left, n.few) in
      let u : Scan C = record t { remaining = decrement t.remaining } in
      let tail =
        scan_loop_complete source whole fuel n.items u rest n.there n.fit n.found dec n.reader
          (omega (arith, dec, n.left, n.few, n.less)) (omega (arith, n.counted))
          (omega (arith, n.less)) in
      let calls : t.links ++ n.there ≡ s.links ++ cs =
        rw (n.called, n.joined) (append_assoc s.links n.here n.there) in
      rw (go, n.goes) (tail ∙ rw (calls, n.counted) refl)

  -- One item, for a reader that began with the bytes `whole`.
  pub scan_loop_one :
      (source : Source) (whole : List ℕ) (fuel : ℕ) (x : Item) (rest : List ℕ) (cs : List C)
      → Fits x
      → find_links x ≡ some cs
      → length (encode x) < 2 ^ 49
      → length (encode x) < fuel
      → scan_loop source whole fuel
          (record { remaining = 1; bytes_read = 0; links = []; br = encode x ++ rest })
        ≡ scanned cs (length (encode x)) rest
  scan_loop_one source whole fuel x rest cs h hc hl hf =
      let one : encode_items (cons x nil) ≡ encode x =
        unfold encode_items in append-nil (encode x) in
      let found : find_items (cons x nil) ≡ some cs = find_one x ∙ hc in
      let s : Scan C = record {
        remaining = 1;
        bytes_read = 0;
        links = [];
        br = encode x ++ rest;
      } in
      let fit : FitsAll (cons x nil) = unfold FitsAll in (h, tt) in
      let none_yet : 0 + length (encode x) ≡ length (encode x) = omega arith in
      rw (one, none_yet) at
        (scan_loop_complete source whole fuel (cons x nil) s rest cs fit found (omega arith)
          (rw one) (omega (arith, ap length one)) (omega (arith, ap length one))
          (omega (arith, ap length one)))

  -- Given an item within the limits, whose tags 42 all have a CID behind them and whose encoding
  -- is shorter than 2 ^ 49 bytes, and more tests of the loop than bytes, `ScanForLinks` calls
  -- back exactly its links, in order, and takes just the item, whatever type of reader it has.
  pub scan_for_links_complete :
      (source : Source) (fuel : ℕ) (x : Item) (rest : List ℕ) (cs : List C)
      → Fits x
      → find_links x ≡ some cs
      → length (encode x) < 2 ^ 49
      → length (encode x) < fuel
      → scan_for_links source fuel (encode x ++ rest) ≡ scanned cs (length (encode x)) rest
  unfolding scan_for_links
  scan_for_links_complete source fuel x rest cs h hc hl hf =
      scan_loop_one source (encode x ++ rest) fuel x rest cs h hc hl hf
