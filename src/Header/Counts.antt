-- ===== src/Header/Counts.antt =====
-- The count of `read_header`, and what it leaves in the reader.
use cbor_gen.Prelude.{ℕ, ◌/◌, ltb, ◌==◌, if◌then◌else◌, bit_and, Bool, true, false}
use cbor_gen.Go.{Reads, read_byte, read_full, not_canonical, invalid_header}
use cbor_gen.Go.Counts.{
  Counts, Counts-pure, Counts-fail, Counts-bind, Counts-guard, Counts-read_byte, Counts-read_full,
}
use cbor_gen.Go.Words.{uint16, uint32, uint64}
use cbor_gen.Header.{read_header, read_extra, read_extra8, read_extra16, read_extra32, read_extra64}

pub Counts-if {ℓ} :
    {A : Type ℓ} (c : Bool) (m k : Reads A)
    → Counts m
    → Counts k
    → Counts (λ bs. if c then m bs else k bs)
Counts-if true m k hm hk = hm
Counts-if false m k hm hk = hk

Counts-extra8 : (maj : ℕ) → Counts (read_extra8 maj)
unfolding read_extra8
Counts-extra8 maj =
    Counts-bind _ read_byte Counts-read_byte
      λ next. Counts-guard (ltb next 24) (not_canonical 24) _ (Counts-pure {A = ℕ × ℕ} (maj, next))

Counts-extra16 : (maj : ℕ) → Counts (read_extra16 maj)
unfolding read_extra16
Counts-extra16 maj =
    Counts-bind _ (read_full 2) (Counts-read_full 2)
      λ xs. Counts-guard _ (not_canonical 25) _ (Counts-pure {A = ℕ × ℕ} (maj, uint16 xs))

Counts-extra32 : (maj : ℕ) → Counts (read_extra32 maj)
unfolding read_extra32
Counts-extra32 maj =
    Counts-bind _ (read_full 4) (Counts-read_full 4)
      λ xs. Counts-guard _ (not_canonical 26) _ (Counts-pure {A = ℕ × ℕ} (maj, uint32 xs))

Counts-extra64 : (maj : ℕ) → Counts (read_extra64 maj)
unfolding read_extra64
Counts-extra64 maj =
    Counts-bind _ (read_full 8) (Counts-read_full 8)
      λ xs. Counts-guard _ (not_canonical 27) _ (Counts-pure {A = ℕ × ℕ} (maj, uint64 xs))

Counts-read_extra : (first maj low : ℕ) → Counts (read_extra first maj low)
unfolding read_extra
Counts-read_extra first maj low = Counts-if (ltb low 24) _ _ (Counts-pure {A = ℕ × ℕ} (maj, low)) (
    Counts-if (low == 24) _ _ (Counts-extra8 maj) (
      Counts-if (low == 25) _ _ (Counts-extra16 maj) (
        Counts-if (low == 26) _ _ (Counts-extra32 maj) (
          Counts-if (low == 27) _ _ (Counts-extra64 maj)
            (Counts-fail (ℕ × ℕ) (invalid_header first))))))

-- `CborReadHeader` leaves a suffix of the input; its count is the number of bytes taken on
-- success, and at most that on an error.
pub Counts-read_header : Counts read_header
unfolding read_header
Counts-read_header =
    Counts-bind _ read_byte Counts-read_byte
      λ first. Counts-read_extra first (bit_and first 0xe0 / 32) (bit_and first 0x1f)
