-- ===== src/Peeker.antt =====
-- peeker.go: `peeker`, a reader that can take back its last byte, over any `io.Reader`.
pub mod View
pub mod Runs
use cbor_gen.Prelude.{
  ℕ, zero, suc, ◌≤◌, ◌≡◌, List, [], ◌∷◌, ◌++◌, length, Option, none, some, Bool, true, false,
}

-- `io.Reader`: `Read` into a buffer of that length, which returns the bytes that were put there and
-- an error. `taken` is what the reader has handed out so far: it appears in statements only.
pub record Reader (R : Type 0) : Type 0 where
  pub read_from : R → ℕ → R × List ℕ × Option ℕ
  pub taken : R → List ℕ
  pub read_taken : (r : R) (k : ℕ) → taken (read_from r k).0 ≡ taken r ++ (read_from r k).1
  pub read-le : (r : R) (k : ℕ) → length (read_from r k).1 ≤ k

pub data PeekState : Type 0 where
  peek_empty peek_set peek_unread : PeekState

pub record Peeker (R : Type 0) : Type 0 where
  pub reader : R
  pub peek_state : PeekState
  pub last_byte : ℕ

-- `GetPeeker` of a reader that is no `BytePeeker`.
abbrev pub get_peeker : {R : Type 0} → R → Peeker R
get_peeker r = record { reader = r; peek_state = peek_empty; last_byte = 0 }

-- `buf[n-1]`, and `b` where n is 0.
abbrev pub last_of : ℕ → List ℕ → ℕ
last_of b [] = b
last_of b (x ∷ xs) = last_of x xs

-- `if n > 0 { p.peekState = peekSet; p.lastByte = buf[n-1] }`
abbrev pub after_read : {R : Type 0} → Peeker R → R → List ℕ → Peeker R
after_read p r [] = record p { reader = r }
after_read p r (x ∷ xs) = record { reader = r; peek_state = peek_set; last_byte = last_of x xs }

-- `bufio.ErrInvalidUnreadByte` or an error of the reader.
pub data PeekError : Type 0 where
  invalid_unread : PeekError
  reader_error : ℕ → PeekError

abbrev wrap : Option ℕ → Option PeekError
wrap none = none
wrap (some e) = some (reader_error e)

module _ {R : Type 0} ⦃io : Reader R⦄ where
  abbrev read_on : Peeker R → List ℕ → R × List ℕ × Option ℕ → Peeker R × List ℕ × Option PeekError
  read_on p front (r, bs, e) = (after_read p r (front ++ bs), front ++ bs, wrap e)

  abbrev read_nothing : Peeker R → R × List ℕ × Option ℕ → Peeker R × List ℕ × Option PeekError
  read_nothing p (r, bs, e) = (record p { reader = r }, bs, wrap e)

  -- `Read` into a buffer of that length.
  unfoldable pub read : ℕ → Peeker R → Peeker R × List ℕ × Option PeekError
  read zero p = elim p.peek_state [
    | peek_unread ↦ (p, [], none)
    | _ ↦ read_nothing p (io.read_from p.reader 0)
  ]
  read (suc k) p = elim p.peek_state [
    | peek_unread ↦ read_on p (p.last_byte ∷ []) (io.read_from p.reader k)
    | _ ↦ read_on p [] (io.read_from p.reader (suc k))
  ]

  abbrev byte_of : Peeker R → R × List ℕ × Option ℕ → Peeker R × List ℕ × Option PeekError
  byte_of p (r, [], e) = (record p { reader = r }, [], wrap e)
  byte_of p (r, b ∷ bs, e) =
      (record { reader = r; peek_state = peek_set; last_byte = b }, b ∷ [], wrap e)

  -- `ReadByte`: no byte, or one, with an error or without.
  unfoldable pub read_byte : Peeker R → Peeker R × List ℕ × Option PeekError
  read_byte p = elim p.peek_state [
    | peek_unread ↦ (record p { peek_state = peek_set }, p.last_byte ∷ [], none)
    | _ ↦ byte_of p (io.read_from p.reader 1)
  ]

  unfoldable pub unread_byte : Peeker R → Peeker R × Option PeekError
  unread_byte p = elim p.peek_state [
    | peek_set ↦ (record p { peek_state = peek_unread }, none)
    | _ ↦ (p, some invalid_unread)
  ]
