-- ===== src/Tests/Links.antt =====
-- `ScanForLinks` on concrete inputs. The CIDs are lists of bytes, and every list is one.
use cbor_gen.Prelude.{ℕ, ◌≡◌, ◌≢◌, refl, arith, List, [], ◌∷◌, ◌++◌, length, some}
use cbor_gen.Item.{Item, unsigned, byte_string, array, tag, cons, nil, encode, Fits}
use cbor_gen.Header.{encode_major_type}
use cbor_gen.Cid.{Caster}
use cbor_gen.Scan.{bufio_reader, bytes_reader, bytes_buffer, scan_for_links, scanned, stuck, failed}
use cbor_gen.Scan.Links.{find_links, link_of}
use cbor_gen.Scan.Complete.{scan_for_links_complete}
use cbor_gen.Scan.Ends.{scan_for_links-ne-stuck}
use cbor_gen.Scan.Endless.{scan_for_links_endless, trap}
use cbor_gen.Go.{panicked, read_full}
use cbor_gen.Go.Words.{uint64}
use cbor_gen.Header.Scratch.{read_extra8_buf, read_extra64_buf}

instance abbrev any_link : Caster (List ℕ)
any_link = record { cast = some }

-- [1, 42(h'000708'), 42(h'0009')].
abbrev linked : Item
linked = array (
    cons (unsigned 1)
      (cons (tag 42 (byte_string (0 ∷ 7 ∷ 8 ∷ []))) (cons (tag 42 (byte_string (0 ∷ 9 ∷ []))) nil)))

abbrev links : List (List ℕ)
links = (7 ∷ 8 ∷ []) ∷ (9 ∷ []) ∷ []

scan_linked : scan_for_links bufio_reader 20 (encode linked) ≡ scanned links 13 []
unfolding scan_for_links encode encode_major_type read_extra8_buf read_full
scan_linked = refl

-- An empty byte string behind a tag 42.
scan_empty_link :
    scan_for_links {C = List ℕ} bytes_buffer 9 (0xd8 ∷ 42 ∷ 0x40 ∷ []) ≡ failed panicked [] 3 []
unfolding scan_for_links read_extra8_buf read_full
scan_empty_link = refl

-- A map of 2 ^ 63 pairs.
scan_wide_map :
    scan_for_links {C = List ℕ} bytes_buffer 9 (0xbb ∷ 0x80 ∷ 0 ∷ 0 ∷ 0 ∷ 0 ∷ 0 ∷ 0 ∷ 0 ∷ [])
    ≡ scanned [] 9 []
unfolding scan_for_links read_extra64_buf read_full uint64
scan_wide_map = refl

scan_for_links_complete_example :
    scan_for_links bytes_reader 20 (encode linked ++ (5 ∷ []))
    ≡ scanned links (length (encode linked)) (5 ∷ [])
unfolding Fits encode find_links link_of encode_major_type
scan_for_links_complete_example =
    scan_for_links_complete bytes_reader 20 linked (5 ∷ []) links (omega arith) refl (omega arith)
      (omega arith)

scan_for_links_endless_example :
    scan_for_links {C = List ℕ} bytes_reader 100 (trap (0xf6 ∷ [])) ≡ stuck
scan_for_links_endless_example = scan_for_links_endless 100 (0xf6 ∷ [])

-- The input of the endless run, in a *bufio.Reader.
scan_for_links-ne-stuck_example : scan_for_links {C = List ℕ} bufio_reader 11 (trap []) ≢ stuck
unfolding encode_major_type
scan_for_links-ne-stuck_example =
    scan_for_links-ne-stuck bufio_reader 11 (trap []) tt (omega arith) (omega arith)
