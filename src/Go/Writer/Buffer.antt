-- ===== src/Go/Writer/Buffer.antt =====
-- A writer that takes a limited number of bytes and then fails: it shows that the contract of
-- `Writer` can be met, by a writer that fails as well as by one that does not.
use cbor_gen.Prelude.{
  ℕ, ◌-◌, ◌≤◌, ◌≡◌, refl, arith, List, ◌++◌, length, take, Option, none, some, leb, if◌then◌else◌,
}
use cbor_gen.Go.Writer.{Writer}

pub record Buffer : Type 0 where
  pub bytes : List ℕ
  pub room : ℕ

short_count : ℕ → ℕ → ℕ
short_count room n = if leb n room then n else room

short_count_error : ℕ → ℕ → Option ℕ
short_count_error room n = if leb n room then none else some 28

-- Error 28 is ENOSPC.
pub write_buffer : Buffer → List ℕ → Buffer × ℕ × Option ℕ
write_buffer b p =
    let n = short_count b.room (length p) in
    (
      record { bytes = b.bytes ++ take n p; room = b.room - n },
      n,
      short_count_error b.room (length p),
    )

pub write_buffer-le : (b : Buffer) (p : List ℕ) → (write_buffer b p).1 ≤ length p
unfolding write_buffer short_count
write_buffer-le b p = ground arith

pub write_buffer_sent :
    (b : Buffer) (p : List ℕ) → (write_buffer b p).0.bytes ≡ b.bytes ++ take (write_buffer b p).1 p
unfolding write_buffer
write_buffer_sent b p = refl

pub write_buffer_all :
    (b : Buffer) (p : List ℕ) → (write_buffer b p).2 ≡ none → (write_buffer b p).1 ≡ length p
unfolding write_buffer short_count short_count_error
write_buffer_all b p h = ground arith

instance abbrev pub buffer_writer : Writer Buffer
buffer_writer = record {
  write_to = write_buffer;
  sent = λ b. b.bytes;
  write_sent = write_buffer_sent;
  write-le = write_buffer-le;
  write_all = write_buffer_all;
}
