-- ===== src/Header/Calm.antt =====
-- `read_header` does not panic.
use cbor_gen.Prelude.{ℕ, ◌/◌, ◌≡◌, refl, subst, List, ltb, ◌==◌, bit_and, true}
use cbor_gen.Go.{Error, err, read_byte, read_full, not_canonical}
use cbor_gen.Go.Calm.{
  is_error, CalmResult, Calm, Calm-bind, Calm-guard, Calm-if, Calm-read_byte, Calm-read_full,
}
use cbor_gen.Header.{read_header, read_extra, read_extra8, read_extra16, read_extra32, read_extra64}

Calm-extra8 : (maj : ℕ) → Calm (read_extra8 maj)
unfolding read_extra8
Calm-extra8 maj =
    Calm-bind _ read_byte Calm-read_byte λ next. Calm-guard _ (not_canonical 24) _ refl (λ bs. tt)

Calm-extra16 : (maj : ℕ) → Calm (read_extra16 maj)
unfolding read_extra16
Calm-extra16 maj =
    Calm-bind _ (read_full 2) (Calm-read_full 2)
      λ xs. Calm-guard _ (not_canonical 25) _ refl (λ bs. tt)

Calm-extra32 : (maj : ℕ) → Calm (read_extra32 maj)
unfolding read_extra32
Calm-extra32 maj =
    Calm-bind _ (read_full 4) (Calm-read_full 4)
      λ xs. Calm-guard _ (not_canonical 26) _ refl (λ bs. tt)

Calm-extra64 : (maj : ℕ) → Calm (read_extra64 maj)
unfolding read_extra64
Calm-extra64 maj =
    Calm-bind _ (read_full 8) (Calm-read_full 8)
      λ xs. Calm-guard _ (not_canonical 27) _ refl (λ bs. tt)

Calm-read_extra : (first maj low : ℕ) → Calm (read_extra first maj low)
unfolding read_extra
Calm-read_extra first maj low =
    Calm-if (ltb low 24) _ _ (λ bs. tt)
      (Calm-if (low == 24) _ _ (Calm-extra8 maj) (
        Calm-if (low == 25) _ _ (Calm-extra16 maj) (
          Calm-if (low == 26) _ _ (Calm-extra32 maj)
            (Calm-if (low == 27) _ _ (Calm-extra64 maj) (λ bs. refl)))))

Calm-read_header : Calm read_header
unfolding read_header
Calm-read_header =
    Calm-bind _ read_byte Calm-read_byte
      λ first. Calm-read_extra first (bit_and first 0xe0 / 32) (bit_and first 0x1f)

pub read_header-is_error :
    (x : Error) (n : ℕ) (br rest : List ℕ) → read_header br ≡ err x n rest → is_error x ≡ true
read_header-is_error x n br rest e = subst CalmResult e (Calm-read_header br)
