-- ===== src/Scan/Endless.antt =====
-- `scan_for_links` where `discard` seeks backwards: a length that is negative as an int.
use cbor_gen.Prelude.{
  ℕ, zero, suc, ◌+◌, ◌-◌, ◌%◌, ◌^◌, ◌≡◌, refl, ◌∙◌, arith, List, [], ◌++◌, length,
}
use cbor_gen.Go.{ok}
use cbor_gen.Header.{encode_major_type}
use cbor_gen.Header.RoundTrip.{read_header-encode}
use cbor_gen.Header.Scratch.{read_header_buf, read_header_buf-read_header}
use cbor_gen.Cid.{Caster}
use cbor_gen.Scan.{
  bytes_reader, discard, Scan, Round, more, stuck, scan_bytes, scan_item, scan_header, scan_next,
  scan_loop, scan_for_links, max_cid_length,
}

abbrev pub two_items : List ℕ
two_items = encode_major_type 4 2

abbrev pub long_string : List ℕ
long_string = encode_major_type 2 (2 ^ 64 - 10)

-- The headers of an array of two items and of a string of 2 ^ 64 - 10 bytes: ten bytes.
abbrev pub trap : List ℕ → List ℕ
trap later = two_items ++ (long_string ++ later)

seek_to_start :
    (later : List ℕ) → discard bytes_reader (trap later) (2 ^ 64 - 10) later ≡ ok tt 0 (trap later)
unfolding discard encode_major_type
seek_to_start later =
    let ten : length (trap later) ≡ 10 + length later = omega arith in ground (arith, ten)

module _ {C : Type 0} ⦃lib : Caster C⦄ where
  abbrev outside : List ℕ → Scan C
  outside later = record { remaining = 1; bytes_read = 0; links = []; br = trap later }

  abbrev inside : List ℕ → Scan C
  inside later = record { remaining = 2; bytes_read = 1; links = []; br = long_string ++ later }

  abbrev round_of : List ℕ → Scan C → Round C
  round_of later s = scan_header bytes_reader (trap later) s (read_header_buf max_cid_length s.br)

  enter :
      (later : List ℕ)
      → round_of later (outside later) ≡ more (record (inside later) { remaining = 3 })
  unfolding scan_header scan_item
  enter later =
      let first : read_header_buf 100 (trap later)
          ≡ ok (4, 2) (length two_items) (long_string ++ later) =
        read_header_buf-read_header 100 (trap later) (omega arith)
        ∙ read_header-encode 4 2 (long_string ++ later) (omega arith) (omega arith) in
      rw first (unfold encode_major_type in refl)

  string_goes :
      (later : List ℕ) (s : Scan C)
      → s.br ≡ later
      → scan_bytes bytes_reader (trap later) (2 ^ 64 - 10) s
        ≡ more (record s { bytes_read = (s.bytes_read + (2 ^ 64 - 10)) % 2 ^ 64; br = trap later })
  unfolding scan_bytes
  string_goes later s e =
      let q : discard bytes_reader (trap later) (2 ^ 64 - 10) s.br ≡ ok tt 0 (trap later) =
        rw e (seek_to_start later) in
      rw (q, scan_bytes) refl

  leave :
      (later : List ℕ)
      → round_of later (inside later) ≡ more (record (outside later) { remaining = 2 })
  unfolding scan_header scan_item scan_bytes
  leave later =
      let first : read_header_buf 100 (long_string ++ later)
          ≡ ok (2, 2 ^ 64 - 10) (length long_string) later =
        read_header_buf-read_header 100 (long_string ++ later) (omega arith)
        ∙ read_header-encode 2 (2 ^ 64 - 10) later (omega arith) (omega arith) in
      let s : Scan C = record {
        remaining = 2;
        bytes_read = 1 + length long_string;
        links = [];
        br = later;
      } in
      rw first (string_goes later s refl ∙ unfold encode_major_type in refl)

  turns :
      (fuel : ℕ) (later : List ℕ)
      → (scan_loop bytes_reader (trap later) fuel (outside later) ≡ stuck)
        × (scan_loop bytes_reader (trap later) fuel (inside later) ≡ stuck)
  unfolding scan_loop scan_next
  turns zero later = (refl, refl)
  turns (suc fuel) later =
      let (out, inner) = turns fuel later in (rw (enter later) inner, rw (leave later) out)

  -- On a *bytes.Reader, `ScanForLinks` does not end on an array of two items that begins with a
  -- byte string of 2 ^ 64 - 10 bytes, whatever follows: every number of tests of the loop is too
  -- small.
  pub scan_for_links_endless :
      (fuel : ℕ) (later : List ℕ) → scan_for_links {C = C} bytes_reader fuel (trap later) ≡ stuck
  unfolding scan_for_links
  scan_for_links_endless fuel later = (turns fuel later).0
