-- ===== src/Scan.antt =====
-- `ScanForLinks` and `discard` of utils.go: a pass over the headers of an item that hands every
-- CID behind a tag 42 to a callback. A reader is the list of the bytes that are left, beside the
-- list `whole` of those it began with, in which a *bytes.Reader seeks; `n` is an int's pattern.
pub mod Links
pub mod Endless
pub mod Ends
pub mod Steps
pub mod Rounds
pub mod Complete
use cbor_gen.Prelude.{
  ℕ, zero, suc, ◌+◌, ◌-◌, ◌*◌, ◌%◌, ◌^◌, List, [], ◌∷◌, ◌++◌, length, drop, ltb, leb, ◌==◌, ◌||◌,
  not, if◌then◌else◌, Option, none, some,
}
use cbor_gen.Go.{
  Error, Result, Reads, ok, err, fail, pure, read_full, eof, unexpected_eof, unhandled_type,
  panicked, negative_position, negative_count, expected_byte_string, byte_string_too_long, cid_cast,
}
use cbor_gen.Header.Scratch.{read_header_buf}
use cbor_gen.Cid.{Caster}
use cbor_gen.Validate.{decrement}

-- The types of reader that `discard` tells apart.
pub data Source : Type 0 where
  bytes_buffer bytes_reader bufio_reader other_reader : Source

abbrev pub max_cid_length : ℕ
max_cid_length = 100

-- `if buffer holds less than n bytes` the error `e` with the reader at its end, else `n` bytes less.
abbrev pub skip : Error → ℕ → Reads (Unit {0})
skip e n br = if ltb (length br) n then err e 0 [] else ok tt 0 (drop n br)

-- `r.Seek(int64(n), io.SeekCurrent)` with a negative n: `back` bytes back.
abbrev pub seek_back : List ℕ → ℕ → Reads (Unit {0})
seek_back whole back br =
    let position = length whole - length br in
    if ltb position back then fail negative_position br else ok tt 0 (drop (position - back) whole)

unfoldable pub discard : Source → List ℕ → ℕ → Reads (Unit {0})
discard bytes_buffer whole n br =
    if leb (2 ^ 63) n then fail panicked br else skip unexpected_eof n br
discard bytes_reader whole n br =
    if leb (2 ^ 63) n then seek_back whole (2 ^ 64 - n) br else skip unexpected_eof n br
discard bufio_reader whole n br = if leb (2 ^ 63) n then fail negative_count br else skip eof n br
discard other_reader whole n br = if leb (2 ^ 63) n then pure tt br else skip eof n br

-- The variables of the loop, and the CIDs that `cb` has been called with.
pub record Scan (C : Type 0) : Type 0 where
  pub remaining : ℕ
  pub bytes_read : ℕ
  pub links : List C
  pub br : List ℕ

pub data Round (C : Type 0) : Type 0 where
  more : Scan C → Round C
  stop : Error → Scan C → Round C

-- What is left at the end: the calls of `cb`, the count and the reader, with or without an error,
-- or (where the loop goes on) the model out of fuel.
pub data Scanned (C : Type 0) : Type 0 where
  scanned : List C → ℕ → List ℕ → Scanned C
  failed : Error → List C → ℕ → List ℕ → Scanned C
  stuck : Scanned C

unfoldable pub scan_bytes : {C : Type 0} → Source → List ℕ → ℕ → Scan C → Round C
unfolding discard
scan_bytes source whole extra s = elim (discard source whole extra s.br) [
  | ok _ _ br ↦ more (record s { bytes_read = (s.bytes_read + extra) % 2 ^ 64; br = br })
  | err e _ br ↦ stop e (record s { br = br })
]

module _ {C : Type 0} ⦃lib : Caster C⦄ where
  -- `cid.Cast(scratch[1:extra])` and the callback.
  unfoldable pub call_back : List ℕ → Scan C → Round C
  call_back [] s = stop panicked s
  call_back (b ∷ bytes) s = elim (lib.cast bytes) [
    | none ↦ stop cid_cast s
    | some c ↦ more (record s { links = s.links ++ (c ∷ []) })
  ]

  -- The byte string behind a tag 42.
  unfoldable pub scan_cid : ℕ → ℕ → Scan C → Round C
  unfolding call_back
  scan_cid maj extra s =
      if not (maj == 2)
      then stop expected_byte_string s
      else if ltb max_cid_length extra
      then stop byte_string_too_long s
      else elim (read_full extra s.br) [
        | ok bytes n br ↦ call_back bytes (record s { bytes_read = s.bytes_read + n; br = br })
        | err e _ br ↦ stop e (record s { br = br })
      ]

  unfoldable pub scan_link : Scan C → Round C
  unfolding scan_cid read_header_buf
  scan_link s = elim (read_header_buf max_cid_length s.br) [
    | ok (maj, extra) n br ↦
        scan_cid maj extra (record s { bytes_read = s.bytes_read + n; br = br })
    | err e _ br ↦ stop e (record s { br = br })
  ]

  -- The switch on `maj`.
  unfoldable pub scan_item : Source → List ℕ → ℕ → ℕ → Scan C → Round C
  unfolding scan_bytes scan_link
  scan_item source whole maj extra s =
      if maj == 0 || maj == 1 || maj == 7
      then more s
      else if maj == 2 || maj == 3
      then scan_bytes source whole extra s
      else if maj == 6
      then (if extra == 42
          then scan_link s
          else more (record s { remaining = (s.remaining + 1) % 2 ^ 64 }))
      else if maj == 4
      then more (record s { remaining = (s.remaining + extra) % 2 ^ 64 })
      else if maj == 5
      then more (record s { remaining = (s.remaining + extra * 2 % 2 ^ 64) % 2 ^ 64 })
      else stop (unhandled_type maj) s

  unfoldable pub scan_header : Source → List ℕ → Scan C → Result (ℕ × ℕ) → Round C
  unfolding scan_item
  scan_header source whole s (ok (maj, extra) n br) =
      scan_item source whole maj extra (record s { bytes_read = s.bytes_read + n; br = br })
  scan_header source whole s (err e _ br) = stop e (record s { br = br })

  unfoldable pub scan_next : (Scan C → Scanned C) → Round C → Scanned C
  scan_next loop (more s) = loop (record s { remaining = decrement s.remaining })
  scan_next loop (stop e s) = failed e s.links s.bytes_read s.br

  -- `for remaining := uint64(1); remaining > 0; remaining--`
  unfoldable pub scan_loop : Source → List ℕ → ℕ → Scan C → Scanned C
  unfolding scan_header scan_next read_header_buf
  scan_loop source whole zero s = stuck
  scan_loop source whole (suc fuel) s =
      let round =
        scan_next (scan_loop source whole fuel)
          (scan_header source whole s (read_header_buf max_cid_length s.br)) in
      if s.remaining == 0 then scanned s.links s.bytes_read s.br else round

  -- `ScanForLinks` for `fuel` tests of the loop.
  unfoldable pub scan_for_links : Source → ℕ → List ℕ → Scanned C
  unfolding scan_loop
  scan_for_links source fuel br =
      scan_loop source br fuel (record { remaining = 1; bytes_read = 0; links = []; br = br })
