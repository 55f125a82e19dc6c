-- ===== src/Generate/Scratch.antt =====
-- `NeedsScratch` beside the code that uses the variable `scratch`, in the tuple form's `MarshalCBOR`.
use cbor_gen.Prelude.{◌≡◌, refl, arith, List, [], ◌∷◌, Bool, true, false, ◌||◌, if◌then◌else◌}
use cbor_gen.Generate.{
  GoKind, string_kind, bool_kind, other_kind, uint_kind, int_kind, struct_kind, pointer_kind,
  slice_kind, chan_kind, array_kind, map_kind, StructKind, big_int, cid, deferred, with_methods,
  GenField,
}

-- The switch of `NeedsScratch`.
abbrev pub scratch_kind : GoKind → Bool
scratch_kind string_kind = true
scratch_kind (uint_kind w) = true
scratch_kind (int_kind w) = true
scratch_kind (array_kind n t) = true
scratch_kind (slice_kind t) = true
scratch_kind (map_kind k t) = true
scratch_kind (struct_kind big_int id) = true
scratch_kind (struct_kind cid id) = true
scratch_kind k = false

unfoldable pub needs_scratch : List GenField → Bool
needs_scratch [] = false
needs_scratch (f ∷ fs) = let rest = needs_scratch fs in if scratch_kind f.kind then true else rest

-- Whether the text that is emitted for a struct in a field has `scratch`: a CID is written by
-- `WriteCidBuf`, a big integer by `CborWriteHeader`, and all else by its method.
abbrev pub struct_uses : StructKind → Bool
struct_uses cid = true
struct_uses big_int = false
struct_uses deferred = false
struct_uses with_methods = false

-- Whether the text for a field has it. The template function `MajorType` does, and `WriteBool` does not.
abbrev pub field_uses : GoKind → Bool
field_uses (struct_kind s id) = struct_uses s
field_uses bool_kind = false
field_uses string_kind = true
field_uses (uint_kind w) = true
field_uses (int_kind w) = true
field_uses (array_kind n t) = true
field_uses (slice_kind t) = true
field_uses (map_kind k t) = true
field_uses (pointer_kind t) = false
field_uses (chan_kind t) = false
field_uses other_kind = false

unfoldable pub uses_scratch : List GenField → Bool
uses_scratch [] = false
uses_scratch (f ∷ fs) = field_uses f.kind || uses_scratch fs

abbrev pub is_big_int : GoKind → Bool
is_big_int (struct_kind big_int id) = true
is_big_int k = false

unfoldable pub has_big_int : List GenField → Bool
has_big_int [] = false
has_big_int (f ∷ fs) = is_big_int f.kind || has_big_int fs

scratch_kind_uses : (k : GoKind) → scratch_kind k ≡ (field_uses k || is_big_int k)
scratch_kind_uses string_kind = refl
scratch_kind_uses bool_kind = refl
scratch_kind_uses other_kind = refl
scratch_kind_uses (uint_kind w) = refl
scratch_kind_uses (int_kind w) = refl
scratch_kind_uses (struct_kind big_int id) = refl
scratch_kind_uses (struct_kind cid id) = refl
scratch_kind_uses (struct_kind deferred id) = refl
scratch_kind_uses (struct_kind with_methods id) = refl
scratch_kind_uses (pointer_kind t) = refl
scratch_kind_uses (slice_kind t) = refl
scratch_kind_uses (chan_kind t) = refl
scratch_kind_uses (array_kind n t) = refl
scratch_kind_uses (map_kind k t) = refl

-- The variable `scratch` is declared in the tuple form's `MarshalCBOR` exactly where the code
-- for some field has it (as Go asks for: one that is not declared, or not used, does not
-- compile), or a field is a big integer.
pub needs_scratch-uses :
    (fs : List GenField) → needs_scratch fs ≡ (uses_scratch fs || has_big_int fs)
unfolding needs_scratch uses_scratch has_big_int
needs_scratch-uses [] = refl
needs_scratch-uses (f ∷ fs) = ground (arith, scratch_kind_uses f.kind, needs_scratch-uses fs)
