-- ===== src/Deferred/Ends.antt =====
-- The loop of `unmarshal_deferred`, and what its rounds leave in the reader.
use cbor_gen.Prelude.{
  true, ℕ, zero, suc, ◌≤◌, ◌<◌, ◌≡◌, refl, arith, List, [], length, All, All-append_right,
  length-append, subst, ap, inl, inr, ◌==◌, Bool-cases, ◌⊎◌, Option-cases,
}
use cbor_gen.Go.{Error, IsByte, split_exact}
use cbor_gen.Go.Counted.{split_exact-some}
use cbor_gen.Go.Calm.{is_error}
use cbor_gen.Header.Calm.{read_header-is_error}
use cbor_gen.Header.{read_header}
use cbor_gen.Header.Canonical.{Result-cases}
use cbor_gen.Header.Scratch.{read_header_buf-read_header}
use cbor_gen.Validate.{decrement}
use cbor_gen.Validate.Ends.{header_takes}
use cbor_gen.Deferred.{
  Copied, failed, copied, stuck, State, Round, more, stop, copy_bytes, copy_item, copy_header,
  copy_next, copy_loop, unmarshal_deferred,
}
use cbor_gen.Deferred.Copy.{after_header}

-- The reader of `t` has no bytes but those of `s`.
abbrev Keeps : State → State → Type 0
Keeps s t = (length t.br ≤ length s.br) × All IsByte t.br

copy_bytes-Keeps :
    (extra : ℕ) (s t : State) → All IsByte s.br → copy_bytes extra s ≡ more t → Keeps s t
unfolding copy_bytes
copy_bytes-Keeps extra s t hb e = elim (Option-cases (split_exact extra s.br)) [
  | inl h ↦ absurd (ground arith)
  | inr ((xs, rest), h) ↦
      let (split, _) = split_exact-some extra s.br h in
      let later = All-append_right IsByte xs rest (subst (All IsByte) split hb) in
      ground (arith, length-append xs rest, ap length split)
]

copy_item_reader :
    (maj extra : ℕ) (s t : State)
    → copy_item maj extra s ≡ more t
    → (t.br ≡ s.br) ⊎ (copy_bytes extra s ≡ more t)
unfolding copy_item
copy_item_reader maj extra s t e = ground arith

copy_item-Keeps :
    (maj extra : ℕ) (s t : State) → All IsByte s.br → copy_item maj extra s ≡ more t → Keeps s t
copy_item-Keeps maj extra s t hb e = elim (copy_item_reader maj extra s t e) [
  | inl q ↦ rw q (omega arith, hb)
  | inr q ↦ copy_bytes-Keeps extra s t hb q
]

-- An item that is kept, or an error of Go: no panic, and an end.
abbrev pub Answers : Copied → Type 0
Answers (copied raw n br) = Unit {0}
Answers (failed x n br) = is_error x ≡ true
Answers stuck = ⊥

copy_bytes_stops :
    (extra : ℕ) (s : State) (x : Error) (n : ℕ) (br : List ℕ)
    → copy_bytes extra s ≡ stop x n br
    → is_error x ≡ true
unfolding copy_bytes
copy_bytes_stops extra s x n br e = elim (Option-cases (split_exact extra s.br)) [
  | inl h ↦ ground arith
  | inr ((xs, rest), h) ↦ absurd (ground arith)
]

copy_item_stops :
    (maj extra : ℕ) (s : State) (x : Error) (n : ℕ) (br : List ℕ)
    → copy_item maj extra s ≡ stop x n br
    → is_error x ≡ true
unfolding copy_item
copy_item_stops maj extra s x n br e = ground (arith, copy_bytes_stops extra s x n br)

next-Answers :
    (loop : State → Copied) (q : Round)
    → ((t : State) → q ≡ more t → Answers (loop (record t { remaining = decrement t.remaining })))
    → ((x : Error) (n : ℕ) (br : List ℕ) → q ≡ stop x n br → is_error x ≡ true)
    → Answers (copy_next loop q)
unfolding copy_next
next-Answers loop (more t) h k = h t refl
next-Answers loop (stop x n br) h k = k x n br refl

copy_loop-Answers :
    (fuel : ℕ) (s : State) → All IsByte s.br → length s.br < fuel → Answers (copy_loop fuel s)
unfolding copy_loop copy_header copy_next
copy_loop-Answers zero s hb hf = absurd (omega arith)
copy_loop-Answers (suc fuel) s hb hf =
    let plain = read_header_buf-read_header 9 s.br (omega arith) in
    elim (Bool-cases (s.remaining == 0)) [
      | inl z ↦ rw z tt
      | inr go ↦ elim (Result-cases (read_header s.br)) [
        | inl ((maj, extra), n, mid, hd) ↦
            let (less, later) = header_takes maj extra n s.br mid hb hd in
            let now = after_header s maj extra n mid in
            rw (go, plain, hd)
              (next-Answers (copy_loop fuel) (copy_item maj extra now)
                (λ t e.
                  let (keep, bytes) = copy_item-Keeps maj extra now t later e in
                  copy_loop-Answers fuel (record t { remaining = decrement t.remaining }) bytes
                    (omega arith))
                (copy_item_stops maj extra now))
        | inr (x, n, mid, hd) ↦ rw (go, plain, hd) (read_header-is_error x n s.br mid hd)
      ]
    ]

-- `Deferred.UnmarshalCBOR` keeps an item or returns an error on every input of bytes.
pub unmarshal_deferred-Answers : (br : List ℕ) → All IsByte br → Answers (unmarshal_deferred br)
unfolding unmarshal_deferred
unmarshal_deferred-Answers br hb =
    copy_loop-Answers (suc (length br))
      (record { remaining = 1; bytes_read = 0; buf = []; br = br }) hb (omega arith)
