-- ===== src/Scan/Rounds.antt =====
-- A round of `scan_for_links` on the first item of a forest within the limits.
use cbor_gen.Prelude.{
  ℕ, suc, ◌+◌, ◌≤◌, ◌<◌, ◌^◌, ◌≡◌, ◌≢◌, refl, sym, ap, subst, ◌∙◌, arith, List, [], ◌∷◌, ◌++◌,
  length, append-nil, some, length-append, inl, inr,
}
use cbor_gen.Go.{ok}
use cbor_gen.Header.{read_header, encode_major_type}
use cbor_gen.Header.Scratch.{read_header_buf, read_header_buf-read_header}
use cbor_gen.Item.{Item, byte_string, tag, Items, cons, count_items, encode_items, Fits, FitsAll}
use cbor_gen.Item.Forest.{opened, pending, opened-Opens}
use cbor_gen.Item.Close.{opened-Fits, pending-le}
use cbor_gen.Validate.Complete.{read_first, rest_shorter}
use cbor_gen.Cid.{Caster}
use cbor_gen.Scan.{Source, Scan, Round, more, scan_item, scan_header, max_cid_length}
use cbor_gen.Scan.Links.{find_items, link_or_rest, find-link, link_of-Link}
use cbor_gen.Scan.Steps.{gone, scan_item_goes, scan_link_goes}

-- The bytes of a forest: those of its first header, those that belong to that, and the rest.
opened-length :
    (x : Item) (zs : Items)
    → let o = opened x zs in
      length (encode_items (cons x zs))
      ≡ length (encode_major_type o.maj o.extra) + (length o.body + length (encode_items o.rest))
opened-length x zs =
    let o = opened x zs in
    let enc : List ℕ = encode_major_type o.maj o.extra in
    ap length (opened-Opens x zs).bytes
    ∙ length-append enc (o.body ++ encode_items o.rest)
    ∙ ap (λ k. length enc + k) (length-append o.body (encode_items o.rest))

module _ {C : Type 0} ⦃lib : Caster C⦄ where
  -- A round on the first item of a forest with the links `cs` leads to a forest with fewer bytes.
  pub record Next (x : Item) (zs : Items) (rest : List ℕ) (cs : List C) (s : Scan C) (q : Round C)
      : Type 0 where
    pub state : Scan C
    pub items : Items
    pub here : List C
    pub there : List C
    pub goes : q ≡ more state
    pub fit : FitsAll items
    pub found : find_items items ≡ some there
    pub joined : cs ≡ here ++ there
    pub called : state.links ≡ s.links ++ here
    pub reader : state.br ≡ encode_items items ++ rest
    pub counted :
        state.bytes_read + length (encode_items items)
        ≡ s.bytes_read + length (encode_items (cons x zs))
    pub left : state.remaining ≡ suc (count_items items)
    pub few : state.remaining ≤ s.remaining + 16384
    pub less : length (encode_items items) < length (encode_items (cons x zs))

  abbrev pub first_round : Source → List ℕ → Scan C → Round C
  first_round source whole s = scan_header source whole s (read_header_buf max_cid_length s.br)

  Next-plain :
      (source : Source) (whole : List ℕ) (x : Item) (zs : Items) (s : Scan C) (rest : List ℕ)
      (cs : List C)
      → FitsAll (cons x zs)
      → find_items (cons x zs) ≡ some cs
      → s.remaining ≡ count_items (cons x zs)
      → s.br ≡ encode_items (cons x zs) ++ rest
      → s.remaining + 16384 < 2 ^ 64
      → s.bytes_read + length (encode_items (cons x zs)) < 2 ^ 63
      → find_items {C = C} (opened x zs).rest ≡ find_items (cons x zs)
      → ((opened x zs).maj ≡ 6 → (opened x zs).extra ≢ 42)
      → Next x zs rest cs s (first_round source whole s)
  unfolding scan_header FitsAll
  Next-plain source whole x zs s rest cs h hc hk hb hr hl same ne =
      let o = opened x zs in
      let q = opened-Opens x zs in
      let fit = (opened-Fits x zs).0 h in
      let enc : List ℕ = encode_major_type o.maj o.extra in
      let later : List ℕ = encode_items o.rest ++ rest in
      let first : read_header_buf 100 s.br ≡ ok (o.maj, o.extra) (length enc) (o.body ++ later) =
        read_header_buf-read_header 100 s.br (omega arith)
        ∙ ap read_header hb
        ∙ read_first x zs rest h in
      let t : Scan C = record s { bytes_read = s.bytes_read + length enc; br = o.body ++ later } in
      let size = opened-length x zs in
      record {
        state = gone t (pending o.maj o.extra) o.body later;
        items = o.rest;
        here = [];
        there = cs;
        goes = rw first (
            scan_item_goes source whole o.maj o.extra t o.body later q.known q.body_fits fit.0 hr
              (omega (arith, size)) refl ne);
        fit = fit.1;
        found = same ∙ hc;
        joined = refl;
        called = sym (append-nil s.links);
        reader = refl;
        counted = omega (arith, size);
        left = omega (arith, q.announced);
        few = omega (arith, pending-le o.maj o.extra fit.0);
        less = rest_shorter x zs;
      }

  Next-link :
      (source : Source) (whole : List ℕ) (y : Item) (zs : Items) (s : Scan C) (rest : List ℕ)
      (cs : List C)
      → FitsAll (cons (tag 42 y) zs)
      → find_items (cons (tag 42 y) zs) ≡ some cs
      → s.remaining ≡ count_items (cons (tag 42 y) zs)
      → s.br ≡ encode_items (cons (tag 42 y) zs) ++ rest
      → Next (tag 42 y) zs rest cs s (first_round source whole s)
  unfolding scan_header scan_item
  Next-link source whole y zs s rest cs h hc hk hb =
      let (ds, es, hd, he, hj) = find-link y zs cs hc in
      let link = link_of-Link y ds hd in
      let s2 : List ℕ = link.first ∷ link.bytes in
      let enc : List ℕ = encode_major_type 6 42 in
      let enc2 : List ℕ = encode_major_type 2 (length s2) in
      let shape : cons y zs ≡ cons (byte_string s2) zs = ap (λ z. cons z zs) link.string in
      let whole_fit : FitsAll (cons y zs) = unfold FitsAll Fits in (h.0.1, h.1) in
      let fit2 : FitsAll (cons (byte_string s2) zs) = subst FitsAll shape whole_fit in
      let first : read_header_buf 100 s.br
          ≡ ok (6, 42) (length enc) (encode_items (cons y zs) ++ rest) =
        read_header_buf-read_header 100 s.br (omega arith)
        ∙ ap read_header hb
        ∙ unfold opened in read_first (tag 42 y) zs rest h in
      let t : Scan C = record s {
        bytes_read = s.bytes_read + length enc;
        br = encode_items (cons y zs) ++ rest;
      } in
      let step =
        scan_link_goes link.first link.bytes link.cid zs rest t fit2 link.short link.cast
          (ap (λ z. encode_items z ++ rest) shape) in
      let size2 : length (encode_items (cons y zs))
          ≡ length enc2 + (length s2 + length (encode_items zs)) =
        ap (λ z. length (encode_items z)) shape
        ∙ unfold opened in opened-length (byte_string s2) zs in
      let size1 : length (encode_items (cons (tag 42 y) zs))
          ≡ length enc + (0 + length (encode_items (cons y zs))) =
        unfold opened in opened-length (tag 42 y) zs in
      record {
        state = record t {
          bytes_read = t.bytes_read + length enc2 + length s2;
          links = s.links ++ (link.cid ∷ []);
          br = encode_items zs ++ rest;
        };
        items = zs;
        here = link.cid ∷ [];
        there = es;
        goes = rw (first, step) refl;
        fit = unfold FitsAll in h.1;
        found = he;
        joined = hj ∙ ap (λ z. z ++ es) link.single_link;
        called = refl;
        reader = refl;
        counted = omega (arith, size1, size2);
        left = hk;
        few = omega arith;
        less = omega (arith, size1, size2);
      }

  pub to_next :
      (source : Source) (whole : List ℕ) (x : Item) (zs : Items) (s : Scan C) (rest : List ℕ)
      (cs : List C)
      → FitsAll (cons x zs)
      → find_items (cons x zs) ≡ some cs
      → s.remaining ≡ count_items (cons x zs)
      → s.br ≡ encode_items (cons x zs) ++ rest
      → s.remaining + 16384 < 2 ^ 64
      → s.bytes_read + length (encode_items (cons x zs)) < 2 ^ 63
      → Next x zs rest cs s (first_round source whole s)
  to_next source whole x zs s rest cs h hc hk hb hr hl = elim (link_or_rest ⦃lib = lib⦄ x zs) [
    | inl (y, q) ↦
        subst (λ z. Next z zs rest cs s (first_round source whole s)) (sym q)
          (Next-link source whole y zs s rest cs (subst (λ z. FitsAll (cons z zs)) q h)
            (subst (λ z. find_items (cons z zs) ≡ some cs) q hc)
            (subst (λ z. s.remaining ≡ count_items (cons z zs)) q hk)
            (subst (λ z. s.br ≡ encode_items (cons z zs) ++ rest) q hb))
    | inr (same, ne) ↦ Next-plain source whole x zs s rest cs h hc hk hb hr hl same ne
  ]
