-- ===== src/Validate.antt =====
-- `ValidateCBOR` of validate.go: one pass over the headers that counts the items which remain.
pub mod Sound
pub mod Complete
pub mod Ends
use cbor_gen.Prelude.{
  ℕ, zero, suc, ◌+◌, ◌*◌, ◌%◌, ◌^◌, ◌-◌, List, length, drop, Bool, ltb, ◌==◌, ◌||◌, if◌then◌else◌,
  true, false, [], ◌∷◌,
}
use cbor_gen.Go.{
  Error, Result, ok, err, max_length_error, unexpected_eof, unhandled_type, unread_bytes,
}
use cbor_gen.Header.Scratch.{read_header_buf}
use cbor_gen.Strings.{max_length, byte_array_max_len}

-- `nil`, an error, or (no value of Go) the loop of the model out of fuel.
pub data Verdict : Type 0 where
  valid : Verdict
  invalid : Error → Verdict
  stuck : Verdict

-- One round's body: `remaining`, as a uint64, and the reader, or an error.
pub data Round : Type 0 where
  more : ℕ → List ℕ → Round
  stop : Error → Round

abbrev pub max_header_size : ℕ
max_header_size = 9

-- `remaining--` on a uint64.
abbrev pub decrement : ℕ → ℕ
decrement r = (r + (2 ^ 64 - 1)) % 2 ^ 64

-- The switch on `maj`.
unfoldable pub validate_item : ℕ → ℕ → ℕ → List ℕ → Round
validate_item maj extra remaining br =
    if maj == 0 || maj == 1 || maj == 7
    then more remaining br
    else if maj == 2 || maj == 3
    then (if ltb byte_array_max_len extra
        then stop max_length_error
        else if ltb (length br) extra
        then stop unexpected_eof
        else more remaining (drop extra br))
    else if maj == 6
    then more ((remaining + 1) % 2 ^ 64) br
    else if maj == 4
    then (if ltb max_length extra
        then stop max_length_error
        else more ((remaining + extra) % 2 ^ 64) br)
    else if maj == 5
    then (if ltb max_length extra
        then stop max_length_error
        else more ((remaining + extra * 2 % 2 ^ 64) % 2 ^ 64) br)
    else stop (unhandled_type maj)

unfoldable pub validate_header : ℕ → Result (ℕ × ℕ) → Round
unfolding validate_item
validate_header remaining (ok (maj, extra) _ br) = validate_item maj extra remaining br
validate_header remaining (err e _ br) = stop e

-- What stands behind the loop.
unfoldable pub validate_end : List ℕ → Verdict
validate_end [] = valid
validate_end (b ∷ br) = invalid (unread_bytes (length (b ∷ br)))

-- The loop's statement behind its body.
unfoldable pub validate_next : (ℕ → List ℕ → Verdict) → Round → Verdict
validate_next loop (more remaining br) = loop (decrement remaining) br
validate_next loop (stop e) = invalid e

-- `for remaining := uint64(1); remaining > 0; remaining--`
unfoldable pub validate_loop : ℕ → ℕ → List ℕ → Verdict
unfolding validate_header validate_end validate_next read_header_buf
validate_loop zero remaining br = stuck
validate_loop (suc fuel) remaining br =
    let round =
      validate_next (validate_loop fuel)
        (validate_header remaining (read_header_buf max_header_size br)) in
    if remaining == 0 then validate_end br else round

-- Every round takes a byte, and one more test ends the loop.
unfoldable pub validate_cbor : List ℕ → Verdict
unfolding validate_loop
validate_cbor b = validate_loop (suc (length b)) 1 b
