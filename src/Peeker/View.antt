-- ===== src/Peeker/View.antt =====
-- What a `peeker` has handed out, less what it took back, against its reader.
use cbor_gen.Prelude.{
  ℕ, zero, suc, ◌≤◌, ◌≡◌, refl, sym, ap, ◌∙◌, arith, List, [], ◌∷◌, ◌++◌, length, append_assoc,
  append-nil, Option,
}
use cbor_gen.Peeker.{
  Reader, Peeker, PeekState, peek_empty, peek_set, peek_unread, last_of, after_read, read,
  read_byte, byte_of,
}

last_split : (x : ℕ) (xs : List ℕ) → (ys : List ℕ) × (x ∷ xs ≡ ys ++ (last_of x xs ∷ []))
last_split x [] = ([], refl)
last_split x (y ∷ xs) = let (ys, e) = last_split y xs in (x ∷ ys, ap (λ zs. x ∷ zs) e)

empty_of : (xs : List ℕ) → length xs ≤ 0 → xs ≡ []
empty_of [] h = refl
empty_of (x ∷ xs) h = absurd (omega arith)

module _ {R : Type 0} ⦃io : Reader R⦄ where
  -- The caller holds the bytes `seen`: all that the reader handed out, but for one that is taken back.
  abbrev pub ViewOf : R → PeekState → ℕ → List ℕ → Type 0
  ViewOf r peek_empty b seen = io.taken r ≡ seen
  ViewOf r peek_set b seen = (io.taken r ≡ seen) × ((xs : List ℕ) × (seen ≡ xs ++ (b ∷ [])))
  ViewOf r peek_unread b seen = io.taken r ≡ seen ++ (b ∷ [])

  abbrev pub View : Peeker R → List ℕ → Type 0
  View p seen = ViewOf p.reader p.peek_state p.last_byte seen

  -- A read of the bytes `out` that leaves the reader `r`.
  View-after :
      (p : Peeker R) (r : R) (seen out : List ℕ)
      → (out ≡ [] → ViewOf r p.peek_state p.last_byte seen)
      → io.taken r ≡ seen ++ out
      → View (after_read p r out) (seen ++ out)
  View-after p r seen [] h e = rw (append-nil seen) (h refl)
  View-after p r seen (x ∷ xs) h e =
      let (ys, q) = last_split x xs in
      (e, (seen ++ ys, rw q (sym (append_assoc seen ys (last_of x xs ∷ [])))))

  abbrev peeker_of : R → PeekState → ℕ → Peeker R
  peeker_of r st b = record { reader = r; peek_state = st; last_byte = b }

  -- A read of nothing, where no byte is taken back.
  nothing_read : (r : R) → io.taken (io.read_from r 0).0 ≡ io.taken r
  nothing_read r =
      io.read_taken r 0
      ∙ ap (λ xs. io.taken r ++ xs) (empty_of (io.read_from r 0).1 (io.read-le r 0))
      ∙ append-nil (io.taken r)

  pub View-read :
      (k : ℕ) (r : R) (st : PeekState) (b : ℕ) (seen : List ℕ)
      → ViewOf r st b seen
      → let s = read k (peeker_of r st b) in View s.0 (seen ++ s.1)
  unfolding read
  View-read zero r peek_empty b seen v =
      rw (empty_of (io.read_from r 0).1 (io.read-le r 0), append-nil seen) (nothing_read r ∙ v)
  View-read zero r peek_set b seen v =
      rw (empty_of (io.read_from r 0).1 (io.read-le r 0), append-nil seen)
        (nothing_read r ∙ v.0, v.1)
  View-read zero r peek_unread b seen v = rw (append-nil seen) v
  View-read (suc k) r peek_empty b seen v =
      let s = io.read_from r (suc k) in
      let more = io.read_taken r (suc k) ∙ ap (λ xs. xs ++ s.1) v in
      View-after (peeker_of r peek_empty b) s.0 seen s.1
        (λ e. more ∙ ap (λ xs. seen ++ xs) e ∙ append-nil seen) more
  View-read (suc k) r peek_set b seen v =
      let s = io.read_from r (suc k) in
      let more = io.read_taken r (suc k) ∙ ap (λ xs. xs ++ s.1) v.0 in
      View-after (peeker_of r peek_set b) s.0 seen s.1
        (λ e. (more ∙ ap (λ xs. seen ++ xs) e ∙ append-nil seen, v.1)) more
  View-read (suc k) r peek_unread b seen v =
      let s = io.read_from r k in
      let more = io.read_taken r k ∙ ap (λ xs. xs ++ s.1) v ∙ append_assoc seen (b ∷ []) s.1 in
      View-after (peeker_of r peek_unread b) s.0 seen (b ∷ s.1) (λ e. cc) more

  View-byte_of :
      (p : Peeker R) (s : R × List ℕ × Option ℕ) (seen : List ℕ)
      → length s.1 ≤ 1
      → (s.1 ≡ [] → ViewOf s.0 p.peek_state p.last_byte seen)
      → io.taken s.0 ≡ seen ++ s.1
      → let q = byte_of p s in View q.0 (seen ++ q.1)
  View-byte_of p (r, [], e) seen h n m = rw (append-nil seen) (n refl)
  View-byte_of p (r, b ∷ [], e) seen h n m = (m, (seen, refl))
  View-byte_of p (r, b ∷ c ∷ bs, e) seen h n m = absurd (omega arith)

  pub View-read_byte :
      (r : R) (st : PeekState) (b : ℕ) (seen : List ℕ)
      → ViewOf r st b seen
      → let s = read_byte (peeker_of r st b) in View s.0 (seen ++ s.1)
  unfolding read_byte
  View-read_byte r peek_empty b seen v =
      let s = io.read_from r 1 in
      let more = io.read_taken r 1 ∙ ap (λ xs. xs ++ s.1) v in
      View-byte_of (peeker_of r peek_empty b) s seen (io.read-le r 1)
        (λ e. more ∙ ap (λ xs. seen ++ xs) e ∙ append-nil seen) more
  View-read_byte r peek_set b seen v =
      let s = io.read_from r 1 in
      let more = io.read_taken r 1 ∙ ap (λ xs. xs ++ s.1) v.0 in
      View-byte_of (peeker_of r peek_set b) s seen (io.read-le r 1)
        (λ e. (more ∙ ap (λ xs. seen ++ xs) e ∙ append-nil seen, v.1)) more
  View-read_byte r peek_unread b seen v = (v, (seen, refl))
