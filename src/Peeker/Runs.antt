-- ===== src/Peeker/Runs.antt =====
-- Any sequence of calls of a `peeker`, against a list that grows and loses its last byte.
use cbor_gen.Prelude.{
  zero, suc, ◌≤◌, Bool, true, false, subst, arith, length, ℕ, ◌≡◌, refl, List, [], ◌∷◌, ◌++◌,
  Option, none, some,
}
use cbor_gen.Peeker.{
  Reader, Peeker, PeekState, peek_empty, peek_set, peek_unread, PeekError, read, read_byte,
  unread_byte, after_read, byte_of,
}
use cbor_gen.Peeker.View.{View, ViewOf, View-read, View-read_byte}

-- A call, and what it came to.
pub data Op : Type 0 where
  op_read : ℕ → Op
  op_read_byte op_unread_byte : Op

pub data Event : Type 0 where
  delivered : List ℕ → Event
  took_back refused : Event

-- Whether a byte can be taken back: one was read since the last that was taken back.
abbrev pub can_unread : Event → Bool → Bool
can_unread (delivered []) can = can
can_unread (delivered (x ∷ xs)) can = true
can_unread took_back can = false
can_unread refused can = can

-- When the event takes place, and what it makes of the bytes that the caller holds.
abbrev pub Follows : Event → Bool → List ℕ → List ℕ → Type 0
Follows (delivered out) can seen next = next ≡ seen ++ out
Follows took_back can seen next = (can ≡ true) × ((b : ℕ) × (seen ≡ next ++ (b ∷ [])))
Follows refused can seen next = (can ≡ false) × (next ≡ seen)

abbrev pub Replays : List Event → Bool → List ℕ → List ℕ → Type 0
Replays [] can seen final = seen ≡ final
Replays (e ∷ es) can seen final =
    (next : List ℕ) × Follows e can seen next × Replays es (can_unread e can) next final

abbrev pub is_set : PeekState → Bool
is_set peek_set = true
is_set st = false

abbrev unread_event : Option PeekError → Event
unread_event none = took_back
unread_event (some e) = refused

nothing_kept :
    (st : PeekState) (out : List ℕ)
    → length out ≤ 0
    → is_set st ≡ can_unread (delivered out) (is_set st)
nothing_kept st [] h = refl
nothing_kept st (x ∷ xs) h = absurd (omega arith)

module _ {R : Type 0} ⦃io : Reader R⦄ where
  abbrev pub step : Op → Peeker R → Peeker R × Event
  step (op_read k) p = let s = read k p in (s.0, delivered s.1)
  step op_read_byte p = let s = read_byte p in (s.0, delivered s.1)
  step op_unread_byte p = let s = unread_byte p in (s.0, unread_event s.1)

  abbrev pub run : List Op → Peeker R → Peeker R × List Event
  run [] p = (p, [])
  run (o ∷ os) p = let s = step o p in let t = run os s.0 in (t.0, s.1 ∷ t.1)

  unread-Follows :
      (r : R) (st : PeekState) (b : ℕ) (seen : List ℕ)
      → ViewOf r st b seen
      → let s = step op_unread_byte (record { reader = r; peek_state = st; last_byte = b }) in
        (next : List ℕ) × Follows s.1 (is_set st) seen next × View s.0 next
  unfolding unread_byte
  unread-Follows r peek_empty b seen v = (seen, (refl, refl), v)
  unread-Follows r peek_set b seen (v, (xs, e)) = (xs, (refl, (b, e)), rw e at v)
  unread-Follows r peek_unread b seen v = (seen, (refl, refl), v)

  step-Follows :
      (o : Op) (p : Peeker R) (seen : List ℕ)
      → View p seen
      → (next : List ℕ) × Follows (step o p).1 (is_set p.peek_state) seen next
        × View (step o p).0 next
  step-Follows (op_read k) p seen v =
      (seen ++ (read k p).1, refl, View-read k p.reader p.peek_state p.last_byte seen v)
  step-Follows op_read_byte p seen v =
      (seen ++ (read_byte p).1, refl, View-read_byte p.reader p.peek_state p.last_byte seen v)
  step-Follows op_unread_byte p seen v = unread-Follows p.reader p.peek_state p.last_byte seen v

  set_after :
      (p : Peeker R) (r : R) (out : List ℕ)
      → is_set (after_read p r out).peek_state ≡ can_unread (delivered out) (is_set p.peek_state)
  set_after p r [] = refl
  set_after p r (x ∷ xs) = refl

  set_byte :
      (p : Peeker R) (s : R × List ℕ × Option ℕ)
      → let q = byte_of p s in
        is_set q.0.peek_state ≡ can_unread (delivered q.1) (is_set p.peek_state)
  set_byte p (r, [], e) = refl
  set_byte p (r, b ∷ bs, e) = refl

  read_sets :
      (k : ℕ) (r : R) (st : PeekState) (b : ℕ)
      → let p : Peeker R = record { reader = r; peek_state = st; last_byte = b } in
        is_set (read k p).0.peek_state ≡ can_unread (delivered (read k p).1) (is_set st)
  unfolding read
  read_sets zero r peek_empty b = nothing_kept peek_empty _ (io.read-le r 0)
  read_sets zero r peek_set b = nothing_kept peek_set _ (io.read-le r 0)
  read_sets zero r peek_unread b = refl
  read_sets (suc k) r peek_empty b =
      set_after (record { reader = r; peek_state = peek_empty; last_byte = b }) _ _
  read_sets (suc k) r peek_set b =
      set_after (record { reader = r; peek_state = peek_set; last_byte = b }) _ _
  read_sets (suc k) r peek_unread b = refl

  read_byte_sets :
      (r : R) (st : PeekState) (b : ℕ)
      → let p : Peeker R = record { reader = r; peek_state = st; last_byte = b } in
        is_set (read_byte p).0.peek_state ≡ can_unread (delivered (read_byte p).1) (is_set st)
  unfolding read_byte
  read_byte_sets r peek_empty b =
      set_byte (record { reader = r; peek_state = peek_empty; last_byte = b }) _
  read_byte_sets r peek_set b =
      set_byte (record { reader = r; peek_state = peek_set; last_byte = b }) _
  read_byte_sets r peek_unread b = refl

  unread_sets :
      (r : R) (st : PeekState) (b : ℕ)
      → let s = step op_unread_byte (record { reader = r; peek_state = st; last_byte = b }) in
        is_set s.0.peek_state ≡ can_unread s.1 (is_set st)
  unfolding unread_byte
  unread_sets r peek_empty b = refl
  unread_sets r peek_set b = refl
  unread_sets r peek_unread b = refl

  step_sets :
      (o : Op) (p : Peeker R)
      → is_set (step o p).0.peek_state ≡ can_unread (step o p).1 (is_set p.peek_state)
  step_sets (op_read k) p = read_sets k p.reader p.peek_state p.last_byte
  step_sets op_read_byte p = read_byte_sets p.reader p.peek_state p.last_byte
  step_sets op_unread_byte p = unread_sets p.reader p.peek_state p.last_byte

  -- Any sequence of calls of a `peeker`, over any reader, does to the bytes that its caller
  -- holds what a list does: a read adds the bytes it returns; a byte is taken back exactly where
  -- one was read since the last one taken back (or the peeker is in that state at the start),
  -- and it is the last byte held; in all other states `UnreadByte` refuses, which changes
  -- nothing. The bytes that the reader handed out are those held, and the one taken back.
  pub run-Replays :
      (os : List Op) (p : Peeker R) (seen : List ℕ)
      → View p seen
      → (final : List ℕ) × Replays (run os p).1 (is_set p.peek_state) seen final
        × View (run os p).0 final
  run-Replays [] p seen v = (seen, refl, v)
  run-Replays (o ∷ os) p seen v =
      let (next, f, w) = step-Follows o p seen v in
      let (final, fs, u) = run-Replays os (step o p).0 next w in
      (
        final,
        (next, f, subst (λ can. Replays (run os (step o p).0).1 can next final) (step_sets o p) fs),
        u,
      )
