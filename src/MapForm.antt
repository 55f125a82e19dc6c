-- ===== src/MapForm.antt =====
-- Structs in map form: what the methods `MarshalCBOR` and `UnmarshalCBOR` do that
-- `emitCborMarshalStructMap` and `emitCborUnmarshalStructMap` of gen.go emit for a struct. The
-- reader of the unmarshalling half is of the type `source` and began with the bytes `whole`, which
-- matters where an unknown name's value is skipped by `ScanForLinks`.
pub mod Marshal
pub mod Document
pub mod RoundTrip
pub mod Unskipped
use cbor_gen.Prelude.{
  ◌+◌, ℕ, zero, suc, ◌≤◌, ◌≡◌, List, [], ◌∷◌, Option, none, some, length, if◌then◌else◌, not, ltb,
  ◌==◌, Bool, false, All,
}
use cbor_gen.Go.{
  Error, panicked, Reads, Result, ok, err, ◌>>=◌, ◌>>◌, pure, fail_if, endless, expected_map_struct,
  map_struct_too_large,
}
use cbor_gen.Header.{maj_map}
use cbor_gen.Strings.{max_length, read_string_buf}
use cbor_gen.Cid.{Caster}
use cbor_gen.Keys.{same_bytes}
use cbor_gen.Scan.{Source, Scan, Scanned, scanned, failed, stuck, scan_loop}
use cbor_gen.Tuple.{Kind, Value, Values, initials}
use cbor_gen.Tuple.Unmarshal.{next_header, unmarshal_field, own_width}

-- A `Field`: its `MapKey` and the kind of its type.
pub record MapField : Type 1 where
  pub map_key : List ℕ
  pub kind : Kind

abbrev pub kinds : List MapField → List Kind
kinds [] = []
kinds (f ∷ fs) = f.kind ∷ kinds fs

-- The keys are within the limit and distinct, as Go asks of the cases of a switch.
abbrev pub NamesFit : List MapField → Type 0
NamesFit [] = Unit {0}
NamesFit (f ∷ fs) =
    (length f.map_key ≤ max_length)
    × All (λ g. same_bytes g.map_key f.map_key ≡ false) fs
    × NamesFit fs

abbrev pub with_value : {A B : Type 0} → A → Reads B → Reads (A × B)
with_value v read = do vs ← read; pure (v, vs)

abbrev pub with_values : {A B : Type 0} → B → Reads A → Reads (A × B)
with_values vs read = do v ← read; pure (v, vs)

abbrev pub next_case : {A B : Type 0} → A → Option (Reads B) → Option (Reads (A × B))
next_case v none = none
next_case v (some read) = some (with_value v read)

-- The cases of `switch name`: the reading of the field of that name into the struct's values, or
-- `none` for the default.
unfoldable pub switch_name :
    (fs : List MapField) → List ℕ → Values (kinds fs) → Option (Reads (Values (kinds fs)))
unfolding same_bytes unmarshal_field
switch_name [] name vs = none
switch_name (f ∷ fs) name (v, vs) =
    let rest = switch_name fs name vs in
    if same_bytes name f.map_key
    then some (with_values vs (unmarshal_field f.kind (own_width f.kind) v))
    else next_case v rest

-- An error of `ScanForLinks` is dropped; a panic goes on.
abbrev pub dropped : {A : Type 0} → Error → A → Reads A
dropped panicked vs br = err panicked 0 br
dropped e vs br = ok vs 0 br

-- `if read, err := cbg.ScanForLinks(…); err == nil { bytesRead += read }`
abbrev pub skipped : {C A : Type 0} → A → Scanned C → Result A
skipped vs (scanned _ n br) = ok vs n br
skipped vs (failed e _ n br) = dropped e vs br
skipped vs stuck = err endless 0 []

module _ {C : Type 0} (lib : Caster C) (source : Source) (whole : List ℕ) (spare : ℕ) where
  -- The default case. The loop of `ScanForLinks` has `spare` tests more than the one for each byte
  -- and the last: for a *bytes.Reader, which may seek backwards, the theorems are for all of them.
  unfoldable pub skip_unknown : {A : Type 0} → A → Reads A
  unfolding scan_loop
  skip_unknown vs br = skipped vs (
      scan_loop ⦃lib = lib⦄ source whole (spare + suc (length br))
        (record { remaining = 1; bytes_read = 0; links = []; br = br }))

  abbrev pub chosen : {A : Type 0} → A → Option (Reads A) → Reads A
  chosen vs none = skip_unknown vs
  chosen vs (some read) = read

  -- `for i := uint64(0); i < n; i++`
  unfoldable pub unmarshal_named :
      (fs : List MapField) → ℕ → Values (kinds fs) → Reads (Values (kinds fs))
  unfolding switch_name skip_unknown read_string_buf
  unmarshal_named fs zero vs = pure vs
  unmarshal_named fs (suc n) vs = do
    name ← read_string_buf 8
    us ← chosen vs (switch_name fs name vs)
    unmarshal_named fs n us

  -- The method itself.
  unfoldable pub unmarshal_struct_map : (fs : List MapField) → Reads (Values (kinds fs))
  unfolding unmarshal_named
  unmarshal_struct_map fs = do
    (maj, extra) ← next_header
    fail_if (not (maj == maj_map)) expected_map_struct
    fail_if (ltb max_length extra) map_struct_too_large
    unmarshal_named fs extra (initials (kinds fs))
