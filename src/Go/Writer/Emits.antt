-- ===== src/Go/Writer/Emits.antt =====
-- What a writing function does on every writer: `Emits bs end act` says that `act` sends `bs` and
-- then returns `end`, or stops within `bs` at an error of the writer, and always counts what it sent.
use cbor_gen.Prelude.{
  ℕ, ◌+◌, ◌≤◌, ◌≡◌, refl, sym, ◌∙◌, arith, ◌⊎◌, inl, inr, List, [], ◌++◌, length, take,
  length-append, Option, none, some, take-append_le, take-append_add, take_all, append-nil,
  append_assoc, Option-cases, Bool, true, false,
}
use cbor_gen.Go.{Error, write_failed}
use cbor_gen.Go.Writer.{Writer, Writes, write, ◌>>◌, then_write, done, abort, abort_if}

module _ {W : Type 0} ⦃io : Writer W⦄ where
  -- The state, the count and the error after a function that was given the writer `w`.
  pub record Emitted (bs : List ℕ) (end : Option Error) (w w' : W) (n : ℕ) (e : Option Error)
      : Type 0 where
    pub sent_prefix : io.sent w' ≡ io.sent w ++ take n bs
    pub count-le : n ≤ length bs
    pub ends : ((e ≡ end) × (n ≡ length bs)) ⊎ ((x : ℕ) × (e ≡ some (write_failed x)))

  abbrev pub Emits : List ℕ → Option Error → Writes W → Type 0
  Emits bs end act = (w : W) → Emitted bs end w (act w).0 (act w).1 (act w).2

  pub Emits-write : (p : List ℕ) → Emits p none (write p)
  unfolding write
  Emits-write p w = record {
    sent_prefix = io.write_sent w p;
    count-le = io.write-le w p;
    ends = elim (Option-cases (io.write_to w p).2) [
      | inl h ↦ inl (rw h, io.write_all w p h)
      | inr (x, h) ↦ inr (x, rw h)
    ];
  }

  pub Emits-done : Emits [] none done
  Emits-done w = record {
    sent_prefix = sym (append-nil _);
    count-le = omega arith;
    ends = inl (refl, refl);
  }

  pub Emits-abort : (x : Error) → Emits [] (some x) (abort x)
  Emits-abort x w = record {
    sent_prefix = sym (append-nil _);
    count-le = omega arith;
    ends = inl (refl, refl);
  }

  -- The two halves of a sequence, when the first went through.
  Emitted-after :
      (ps bs : List ℕ) (end : Option Error) (w u v : W) (n m : ℕ) (e : Option Error)
      → Emitted ps none w u n none
      → Emitted bs end u v m e
      → Emitted (ps ++ bs) end w v (n + m) e
  Emitted-after ps bs end w u v n m e a b = elim a.ends [
    | inl (_, full) ↦ record {
      sent_prefix =
          let first : io.sent u ≡ io.sent w ++ ps = a.sent_prefix ∙ rw (full, take_all) in
          b.sent_prefix ∙ rw (first, full, take-append_add, append_assoc);
      count-le = omega (arith, length-append ps bs, b.count-le);
      ends = ground (arith, length-append ps bs, b.ends);
    }
    | inr (x, h) ↦ cc
  ]

  -- The first half stopped.
  Emitted-stop :
      (ps bs : List ℕ) (end : Option Error) (w u : W) (n : ℕ) (x : Error)
      → Emitted ps none w u n (some x)
      → Emitted (ps ++ bs) end w u n (some x)
  Emitted-stop ps bs end w u n x a = record {
    sent_prefix = a.sent_prefix ∙ rw (take-append_le n ps bs a.count-le);
    count-le = omega (arith, length-append ps bs, a.count-le);
    ends = elim a.ends [ inl (h, _) ↦ cc | inr h ↦ inr h ];
  }

  Emitted-then :
      (ps bs : List ℕ) (end : Option Error) (k : Writes W) (w : W) (r : W × ℕ × Option Error)
      → Emits bs end k
      → Emitted ps none w r.0 r.1 r.2
      → let s = then_write k r in Emitted (ps ++ bs) end w s.0 s.1 s.2
  Emitted-then ps bs end k w (u, n, none) b a =
      Emitted-after ps bs end w u (k u).0 n (k u).1 (k u).2 a (b u)
  Emitted-then ps bs end k w (u, n, some x) b a = Emitted-stop ps bs end w u n x a

  pub Emits-seq :
      (ps bs : List ℕ) (end : Option Error) (m k : Writes W)
      → Emits ps none m
      → Emits bs end k
      → Emits (ps ++ bs) end (m >> k)
  Emits-seq ps bs end m k a b w = Emitted-then ps bs end k w (m w) b (a w)

  -- A guard that lets through, and one that does not.
  pub Emits-guard :
      (bs : List ℕ) (c : Bool) (x : Error) (k : Writes W)
      → c ≡ false
      → Emits bs none k
      → Emits bs none (abort_if c x >> k)
  Emits-guard bs c x k h hk = rw h (Emits-seq [] bs none done k Emits-done hk)

  pub Emits-stop :
      (c : Bool) (x : Error) (k : Writes W) → c ≡ true → Emits [] (some x) (abort_if c x >> k)
  Emits-stop c x k h = rw h (Emits-abort x)
