-- ===== src/Tests/Peeker.antt =====
-- A `peeker` over a list of bytes.
use cbor_gen.Prelude.{
  ℕ, zero, suc, ◌≤◌, ◌≡◌, refl, arith, List, [], ◌∷◌, ◌++◌, length, take, drop, Option, none, false,
}
use cbor_gen.Peeker.{Reader, get_peeker, read, read_byte, unread_byte}
use cbor_gen.Peeker.View.{View}
use cbor_gen.Peeker.Runs.{
  Op, op_read, op_read_byte, op_unread_byte, delivered, took_back, refused, Replays, run,
  run-Replays,
}

-- What has been read and what is left, and a limit to a read, which may be short.
pub record Bytes : Type 0 where
  pub behind : List ℕ
  pub ahead : List ℕ

short_read : Bytes → ℕ → Bytes × List ℕ × Option ℕ
short_read r k =
    (record { behind = r.behind ++ take k r.ahead; ahead = drop k r.ahead }, take k r.ahead, none)

length-take_le : (k : ℕ) (xs : List ℕ) → length (take k xs) ≤ k
length-take_le zero xs = omega arith
length-take_le (suc k) [] = omega arith
length-take_le (suc k) (x ∷ xs) = let h = length-take_le k xs in omega arith

instance abbrev bytes_reader : Reader Bytes
bytes_reader = record {
  read_from = short_read;
  taken = λ r. r.behind;
  read_taken = λ r k. unfold short_read in refl;
  read-le = λ r k. unfold short_read in length-take_le k r.ahead;
}

abbrev three_bytes : Bytes
three_bytes = record { behind = []; ahead = 1 ∷ 2 ∷ 3 ∷ [] }

abbrev calls : List Op
calls = op_unread_byte ∷ op_read_byte ∷ op_unread_byte ∷ op_unread_byte ∷ op_read 3 ∷ []

events :
    (run calls (get_peeker three_bytes)).1
    ≡ refused ∷ delivered (1 ∷ []) ∷ took_back ∷ refused ∷ delivered (1 ∷ 2 ∷ 3 ∷ []) ∷ []
unfolding read read_byte unread_byte short_read
events = refl

run-Replays_example :
    (final : List ℕ) × Replays (run calls (get_peeker three_bytes)).1 false [] final
    × View (run calls (get_peeker three_bytes)).0 final
run-Replays_example = run-Replays calls (get_peeker three_bytes) [] refl
