-- ===== src/Deferred.antt =====
-- `Deferred` of utils.go: an item that is copied header by header and kept as raw bytes.
pub mod Copy
pub mod Complete
pub mod Ends
pub mod Validated
use cbor_gen.Prelude.{
  ℕ, zero, suc, ◌+◌, ◌*◌, ◌%◌, ◌^◌, ◌-◌, ◌++◌, List, length, ltb, ◌==◌, ◌||◌, if◌then◌else◌, true,
  false, Option, none, some, [], ◌∷◌,
}
use cbor_gen.Go.{
  Error, Result, ok, err, max_length_error, unexpected_eof, unhandled_type, nil_deferred,
  split_exact,
}
use cbor_gen.Go.Writer.{Writer, Writes, write, abort}
use cbor_gen.Header.{encode_major_type}
use cbor_gen.Header.Scratch.{read_header_buf}
use cbor_gen.Strings.{max_length, byte_array_max_len}
use cbor_gen.Scalars.{cbor_null}
use cbor_gen.Validate.{max_header_size, decrement}

-- What `UnmarshalCBOR` leaves: `d.Raw` (`none` where it is nil) with the count and the reader, an
-- error with these, or (no value of Go) the loop of the model out of fuel.
pub data Copied : Type 0 where
  copied : List ℕ → ℕ → List ℕ → Copied
  failed : Error → ℕ → List ℕ → Copied
  stuck : Copied

-- The variables of the loop: `remaining`, `bytesRead`, `buf` and the reader.
pub record State : Type 0 where
  pub remaining : ℕ
  pub bytes_read : ℕ
  pub buf : List ℕ
  pub br : List ℕ

pub data Round : Type 0 where
  more : State → Round
  stop : Error → ℕ → List ℕ → Round

-- `buf.ReadFrom(&limitedReader)` with the limit `extra`: what was read counts also if it is short.
unfoldable pub copy_bytes : ℕ → State → Round
unfolding split_exact
copy_bytes extra s = elim (split_exact extra s.br) [
  | some (xs, rest) ↦
      more (record s { bytes_read = s.bytes_read + extra; buf = s.buf ++ xs; br = rest })
  | none ↦ stop unexpected_eof (s.bytes_read + length s.br) []
]

-- The switch on `maj`.
unfoldable pub copy_item : ℕ → ℕ → State → Round
unfolding copy_bytes
copy_item maj extra s =
    if maj == 0 || maj == 1 || maj == 7
    then more s
    else if maj == 2 || maj == 3
    then (if ltb byte_array_max_len extra
        then stop max_length_error s.bytes_read s.br
        else copy_bytes extra s)
    else if maj == 6
    then more (record s { remaining = (s.remaining + 1) % 2 ^ 64 })
    else if maj == 4
    then (if ltb max_length extra
        then stop max_length_error s.bytes_read s.br
        else more (record s { remaining = (s.remaining + extra) % 2 ^ 64 }))
    else if maj == 5
    then (if ltb max_length extra
        then stop max_length_error s.bytes_read s.br
        else more (record s { remaining = (s.remaining + extra * 2 % 2 ^ 64) % 2 ^ 64 }))
    else stop (unhandled_type maj) s.bytes_read s.br

-- The header, and its copy into `buf` (a `*bytes.Buffer`, whose writes do not fail).
unfoldable pub copy_header : State → Result (ℕ × ℕ) → Round
unfolding copy_item encode_major_type
copy_header s (ok (maj, extra) n br) = copy_item maj extra (record s {
  bytes_read = s.bytes_read + n;
  buf = s.buf ++ encode_major_type maj extra;
  br = br;
})
copy_header s (err e n br) = stop e s.bytes_read br

unfoldable pub copy_next : (State → Copied) → Round → Copied
copy_next loop (more s) = loop (record s { remaining = decrement s.remaining })
copy_next loop (stop e n br) = failed e n br

unfoldable pub copy_loop : ℕ → State → Copied
unfolding copy_header copy_next read_header_buf
copy_loop zero s = stuck
copy_loop (suc fuel) s =
    let round = copy_next (copy_loop fuel) (copy_header s (read_header_buf max_header_size s.br)) in
    if s.remaining == 0 then copied s.buf s.bytes_read s.br else round

-- `Deferred.UnmarshalCBOR`. Every round takes a byte, and one more test ends the loop.
unfoldable pub unmarshal_deferred : List ℕ → Copied
unfolding copy_loop
unmarshal_deferred br =
    copy_loop (suc (length br)) (record { remaining = 1; bytes_read = 0; buf = []; br = br })

-- A `*Deferred` that may be nil, and its `Raw` that may be nil.
abbrev pub Deferred : Type 0
Deferred = Option (Option (List ℕ))

module _ {W : Type 0} ⦃io : Writer W⦄ where
  unfoldable pub marshal_deferred : Deferred → Writes W
  marshal_deferred none = write cbor_null
  marshal_deferred (some none) = abort nil_deferred
  marshal_deferred (some (some raw)) = write raw
