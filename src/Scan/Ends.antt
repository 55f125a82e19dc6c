-- ===== src/Scan/Ends.antt =====
-- The loop of `ScanForLinks` on the readers that do not seek backwards.
use cbor_gen.Prelude.{
  ℕ, zero, suc, ◌+◌, ◌≤◌, ◌<◌, ◌≢◌, ap, arith, List, [], ◌∷◌, length, All, All-append_right,
  length-append, subst, inl, inr, Option-cases, Bool, true, false, Bool-cases, ltb, ◌==◌, ◌||◌,
  if◌then◌else◌,
}
use cbor_gen.Go.{IsByte, Result, ok, err, read_full}
use cbor_gen.Go.Counts.{Counts-read_full, Taken}
use cbor_gen.Header.{read_header}
use cbor_gen.Header.Canonical.{Result-cases}
use cbor_gen.Header.Scratch.{read_header_buf-read_header}
use cbor_gen.Validate.Ends.{header_takes, drop_keeps}
use cbor_gen.Validate.{decrement}
use cbor_gen.Cid.{Caster}
use cbor_gen.Scan.{
  max_cid_length, Source, bytes_buffer, bytes_reader, bufio_reader, other_reader, discard, Scan,
  Scanned, stuck, Round, more, stop, scan_bytes, call_back, scan_cid, scan_link, scan_item,
  scan_header, scan_next, scan_loop, scan_for_links,
}

-- The types of reader that `discard` does not seek in.
abbrev pub GoesOn : Source → Type 0
GoesOn bytes_reader = ⊥
GoesOn source = Unit {0}

-- Bytes that are no more than those of `br`.
abbrev Left : List ℕ → List ℕ → Type 0
Left br later = (length later ≤ length br) × All IsByte later

abbrev LeftBy {ℓ} : {A : Type ℓ} → List ℕ → Result A → Type 0
LeftBy br (ok a n later) = Left br later
LeftBy br (err e n later) = Unit {0}

discard_keeps :
    (source : Source) (whole : List ℕ) (n : ℕ) (br : List ℕ)
    → GoesOn source
    → All IsByte br
    → LeftBy br (discard source whole n br)
unfolding discard
discard_keeps bytes_buffer whole n br g h = ground (arith, drop_keeps n br h)
discard_keeps bytes_reader whole n br g h = absurd g
discard_keeps bufio_reader whole n br g h = ground (arith, drop_keeps n br h)
discard_keeps other_reader whole n br g h = ground (arith, drop_keeps n br h)

Taken-LeftBy : {A : Type 0} (br : List ℕ) (r : Result A) → All IsByte br → Taken br r → LeftBy br r
Taken-LeftBy br (ok a n later) h (xs, e, c) = (
  omega (arith, ap length e, length-append xs later),
  All-append_right IsByte xs later (subst (All IsByte) e h),
)
Taken-LeftBy br (err e n later) h t = tt

module _ {C : Type 0} ⦃lib : Caster C⦄ where
  abbrev Keeps : List ℕ → Round C → Type 0
  Keeps br (more s) = Left br s.br
  Keeps br (stop e s) = Unit {0}

  Keeps-if :
      (br : List ℕ) (c : Bool) (p q : Round C)
      → Keeps br p
      → Keeps br q
      → Keeps br (if c then p else q)
  Keeps-if br true p q h k = h
  Keeps-if br false p q h k = k

  bytes-Keeps :
      (source : Source) (whole : List ℕ) (extra : ℕ) (s : Scan C)
      → GoesOn source
      → All IsByte s.br
      → Keeps s.br (scan_bytes source whole extra s)
  unfolding scan_bytes
  bytes-Keeps source whole extra s g h = elim (Result-cases (discard source whole extra s.br)) [
    | inl (u, n, later, e) ↦
        rw (e, scan_bytes) (rw e at (discard_keeps source whole extra s.br g h))
    | inr (x, n, later, e) ↦ rw (e, scan_bytes) tt
  ]

  call-Keeps : (bytes br : List ℕ) (s : Scan C) → Left br s.br → Keeps br (call_back bytes s)
  unfolding call_back
  call-Keeps [] br s h = tt
  call-Keeps (b ∷ bytes) br s h = elim (Option-cases (lib.cast bytes)) [
    | inl e ↦ rw (e, call_back) tt
    | inr (c, e) ↦ rw (e, call_back) h
  ]

  cid-Keeps :
      (maj extra : ℕ) (br : List ℕ) (s : Scan C) → Left br s.br → Keeps br (scan_cid maj extra s)
  unfolding scan_cid
  cid-Keeps maj extra br s (less, h) = elim (Bool-cases (maj == 2)) [
    | inr e ↦ rw e tt
    | inl e ↦ elim (Bool-cases (ltb max_cid_length extra)) [
      | inl f ↦ rw (e, f) tt
      | inr f ↦ elim (Result-cases (read_full extra s.br)) [
        | inr (x, n, later, q) ↦ rw (e, f, q) tt
        | inl (bytes, n, later, q) ↦
            let (fewer, kept) =
              rw q at (Taken-LeftBy s.br (read_full extra s.br) h (Counts-read_full extra s.br)) in
            rw (e, f, q) (call-Keeps bytes br _ (omega arith, kept))
      ]
    ]
  ]

  link-Keeps : (s : Scan C) → All IsByte s.br → Keeps s.br (scan_link s)
  unfolding scan_link
  link-Keeps s h =
      let plain = read_header_buf-read_header max_cid_length s.br (omega arith) in
      elim (Result-cases (read_header s.br)) [
        | inl ((maj, extra), n, later, e) ↦
            let (less, kept) = header_takes maj extra n s.br later h e in
            rw (plain, e, scan_link) (cid-Keeps maj extra s.br _ (omega arith, kept))
        | inr (x, n, later, e) ↦ rw (plain, e, scan_link) tt
      ]

  item-Keeps :
      (source : Source) (whole : List ℕ) (maj extra : ℕ) (s : Scan C)
      → GoesOn source
      → All IsByte s.br
      → Keeps s.br (scan_item source whole maj extra s)
  unfolding scan_item
  item-Keeps source whole maj extra s g h =
      let same : Left s.br s.br = (omega arith, h) in
      Keeps-if s.br (maj == 0 || maj == 1 || maj == 7) _ _ same (
        Keeps-if s.br (maj == 2 || maj == 3) _ _ (bytes-Keeps source whole extra s g h) (
          Keeps-if s.br (maj == 6) _ _ (Keeps-if s.br (extra == 42) _ _ (link-Keeps s h) same)
            (Keeps-if s.br (maj == 4) _ _ same (Keeps-if s.br (maj == 5) _ _ same tt))))

  next_ends :
      (br : List ℕ) (loop : Scan C → Scanned C) (q : Round C)
      → Keeps br q
      → ((s : Scan C) → Left br s.br → loop s ≢ stuck)
      → scan_next loop q ≢ stuck
  unfolding scan_next
  next_ends br loop (more s) k h = h (record s { remaining = decrement s.remaining }) k
  next_ends br loop (stop e s) k h = λ e. cc

  loop_ends :
      (source : Source) (whole : List ℕ) (fuel : ℕ) (s : Scan C)
      → GoesOn source
      → All IsByte s.br
      → length s.br < fuel
      → scan_loop source whole fuel s ≢ stuck
  unfolding scan_loop scan_header
  loop_ends source whole zero s g h less = absurd (omega arith)
  loop_ends source whole (suc fuel) s g h less =
      let plain = read_header_buf-read_header max_cid_length s.br (omega arith) in
      elim (Bool-cases (s.remaining == 0)) [
        | inl done ↦ rw done (λ e. cc)
        | inr go ↦ elim (Result-cases (read_header s.br)) [
          | inl ((maj, extra), n, later, e) ↦
              let (fewer, kept) = header_takes maj extra n s.br later h e in
              let behind = record s { bytes_read = s.bytes_read + n; br = later } in
              rw (go, plain, e)
                (next_ends later (scan_loop source whole fuel)
                  (scan_item source whole maj extra behind)
                  (item-Keeps source whole maj extra behind g kept)
                  (λ t k. loop_ends source whole fuel t g k.1 (let small = k.0 in omega arith)))
          | inr (x, n, later, e) ↦ rw (go, plain, e) (λ f. cc)
        ]
      ]

  -- With any type of reader but a *bytes.Reader, `ScanForLinks` ends on every input of bytes,
  -- within one test of its loop more than there are bytes.
  pub scan_for_links-ne-stuck :
      (source : Source) (fuel : ℕ) (br : List ℕ)
      → GoesOn source
      → All IsByte br
      → length br < fuel
      → scan_for_links {C = C} source fuel br ≢ stuck
  unfolding scan_for_links
  scan_for_links-ne-stuck source fuel br g h less =
      loop_ends source br fuel (record { remaining = 1; bytes_read = 0; links = []; br = br }) g h
        less
