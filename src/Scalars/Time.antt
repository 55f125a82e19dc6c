-- ===== src/Scalars/Time.antt =====
-- `CborTime` of utils.go, with what it uses of Go's `time.Time`: the seconds since 1970, as an
-- int64 pattern, and the nanoseconds within the second. A time's zone and its monotonic reading are
-- not encoded.
use cbor_gen.Prelude.{
  ℕ, ◌+◌, ◌-◌, ◌*◌, ◌/◌, ◌%◌, ◌^◌, ◌<◌, ◌≤◌, ◌≡◌, arith, ◌==◌, if◌then◌else◌, none, ◌⊎◌, Bool,
}
use cbor_gen.Go.{Reads, ◌>>=◌, pure, IsU64}
use cbor_gen.Go.Decodes.{Decodes}
use cbor_gen.Go.Writer.{Writer, Writes}
use cbor_gen.Go.Writer.Emits.{Emits}
use cbor_gen.Scalars.{
  unmarshal_int, marshal_int, is_negative, negate, encode_bool, unmarshal_bool, write_bool,
}
use cbor_gen.Scalars.Laws.{
  encode_int, unmarshal_int-encode_int, marshal_int-Emits, unmarshal_bool-encode_bool,
  write_bool-Emits,
}

pub record Time : Type 0 where
  pub sec : ℕ
  pub nsec : ℕ

abbrev billion : ℕ
billion = 1_000_000_000

-- `t.UnixNano()`
unfoldable pub unix_nano : Time → ℕ
unix_nano t = (t.sec * billion + t.nsec) % 2 ^ 64

-- `time.Unix(0, n)`: Go divides towards zero and mends a negative remainder.
unfoldable pub unix : ℕ → Time
unix n =
    if is_negative n
    then (let size = negate n in
        if size % billion == 0
        then record { sec = negate (size / billion); nsec = 0 }
        else record { sec = negate (size / billion + 1); nsec = billion - size % billion })
    else record { sec = n / billion; nsec = n % billion }

unfoldable pub unmarshal_time : Reads Time
unfolding unix
unmarshal_time = do n ← unmarshal_int; pure (unix n)

module _ {W : Type 0} ⦃io : Writer W⦄ where
  unfoldable pub marshal_time : Time → Writes W
  unfolding unix_nano
  marshal_time t = marshal_int (unix_nano t)

-- The times whose nanoseconds since 1970 fit an int64.
pub record InRange (t : Time) : Type 0 where
  pub normal : t.nsec < billion
  pub fits :
      (t.sec * billion + t.nsec < 2 ^ 63)
      ⊎ ((t.sec < 2 ^ 64) × (2 ^ 64 * billion ≤ t.sec * billion + t.nsec + 2 ^ 63))

pub unix_nano-unix : (n : ℕ) → IsU64 n → unix_nano (unix n) ≡ n
unfolding unix_nano unix
unix_nano-unix n h = ground arith

pub unix-unix_nano : (t : Time) → InRange t → unix (unix_nano t) ≡ t
unfolding unix_nano unix
unix-unix_nano t h = ground arith

unix_nano-IsU64 : (t : Time) → IsU64 (unix_nano t)
unfolding unix_nano
unix_nano-IsU64 t = omega arith

-- A time whose nanoseconds since 1970 fit an int64 comes back from the encoding of that number.
pub unmarshal_time-encode :
    (t : Time) → InRange t → Decodes unmarshal_time t (encode_int (unix_nano t))
unfolding unmarshal_time
unmarshal_time-encode t h rest =
    rw (unmarshal_int-encode_int (unix_nano t) (unix_nano-IsU64 t) rest, unix-unix_nano t h)
      (ground arith)

module _ {W : Type 0} ⦃io : Writer W⦄ where
  -- A time is sent as the int64 of its nanoseconds.
  pub marshal_time-Emits :
      (t : Time) → Emits {W = W} (encode_int (unix_nano t)) none (marshal_time t)
  unfolding marshal_time
  marshal_time-Emits t = marshal_int-Emits (unix_nano t) (unix_nano-IsU64 t)

  -- Every boolean, every int64 and every time whose nanoseconds since 1970 fit an int64 is sent
  -- on every writer as its encoding, or up to an error of the writer, with the count of what was
  -- sent, and comes back from it.
  pub scalars-RoundTrip :
      (b : Bool) (v : ℕ) (t : Time)
      → IsU64 v
      → InRange t
      → (Emits {W = W} (encode_bool b) none (write_bool b)
          × Decodes unmarshal_bool b (encode_bool b))
        × (Emits {W = W} (encode_int v) none (marshal_int v)
            × Decodes unmarshal_int v (encode_int v))
        × (Emits {W = W} (encode_int (unix_nano t)) none (marshal_time t)
            × Decodes unmarshal_time t (encode_int (unix_nano t)))
  scalars-RoundTrip b v t hv ht = (
    (write_bool-Emits b, unmarshal_bool-encode_bool b),
    (marshal_int-Emits v hv, unmarshal_int-encode_int v hv),
    (marshal_time-Emits t, unmarshal_time-encode t ht),
  )
