-- ===== src/Tests/Embed.antt =====
-- `InitNilEmbeddedStruct` on concrete structs. The types that are no structs are numbers.
use cbor_gen.Prelude.{ℕ, ◌≡◌, ◌↔◌, refl, [], ◌∷◌, none, some, true, false}
use cbor_gen.Reflect.{struct_type, other_type, StructFields, no_field, struct_field}
use cbor_gen.Embed.{StructValue, has_method, init_nil}
use cbor_gen.Embed.Nil.{AllSet, BelowSet, ByPointer-BelowSet, init_nil_sets}

abbrev Number : ℕ → Type 0
Number n = ℕ

abbrev nought : (n : ℕ) → Number n
nought n = 0

-- struct { A int }
abbrev leaf : StructFields
leaf = struct_field (b'A' ∷ []) false false [] (other_type 1) no_field

-- struct { *E; B int }, where E is struct { A int }.
abbrev branch : StructFields
branch =
    struct_field (b'E' ∷ []) true true [] (struct_type leaf)
      (struct_field (b'B' ∷ []) false false [] (other_type 2) no_field)

-- struct { *F }, where F is struct { *E; B int }.
abbrev root : StructFields
root = struct_field (b'F' ∷ []) true true [] (struct_type branch) no_field

abbrev nil_root : StructValue Number nought root
nil_root = (none, tt)

abbrev nil_branch : StructValue Number nought branch
nil_branch = (none, (7, tt))

-- Both pointers are set, to zero values.
init_root : init_nil Number nought root nil_root ≡ some (some (some (0, tt), (0, tt)), tt)
unfolding init_nil
init_root = refl

-- struct { F }, with F by value: its pointer stays nil.
abbrev by_value : StructFields
by_value = struct_field (b'F' ∷ []) true false [] (struct_type branch) no_field

init_by_value : init_nil Number nought by_value (nil_branch, tt) ≡ some (nil_branch, tt)
unfolding init_nil
init_by_value = refl

-- Two structs that are embedded by pointer: there is no method.
abbrev two_pointers : StructFields
two_pointers = struct_field (b'G' ∷ []) true true [] (struct_type leaf) branch

init_two : init_nil Number nought two_pointers (none, nil_branch) ≡ none
unfolding init_nil
init_two = refl

root-BelowSet : BelowSet Number nought root nil_root
root-BelowSet = ByPointer-BelowSet Number nought root nil_root (((tt, tt), (tt, tt)), tt)

init_nil_sets_example :
    (set : StructValue Number nought root) × (init_nil Number nought root nil_root ≡ some set)
    × (AllSet Number nought root set ↔ BelowSet Number nought root nil_root)
    × (init_nil Number nought root set ≡ some set)
unfolding has_method
init_nil_sets_example = init_nil_sets Number nought root nil_root refl
