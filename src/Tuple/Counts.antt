-- ===== src/Tuple/Counts.antt =====
-- The counts that the emitted `UnmarshalCBOR` returns, on every input.
use cbor_gen.Prelude.{
  ℕ, zero, suc, ◌%◌, refl, arith, List, [], ◌∷◌, length, Option, none, some, Bool, true, false, leb,
  ◌==◌, if◌then◌else◌, Bool-cases, inl, inr,
}
use cbor_gen.Go.{Error, int_overflow, expected_int, Result, Reads, ok, err, pure, read_full}
use cbor_gen.Go.Counts.{Taken, Counts, Counts-pure, Counts-bind, Counts-guard, Counts-read_full}
use cbor_gen.Header.Counts.{Counts-read_header}
use cbor_gen.Header.{maj_unsigned_int, maj_negative_int}
use cbor_gen.Header.Scratch.{read_header_buf-read_header}
use cbor_gen.Keys.{put}
use cbor_gen.Scalars.{bool_of}
use cbor_gen.Strings.{read_new, read_string_buf}
use cbor_gen.Tuple.{
  Width, modulus, half, Kind, string, uint64, uint64_pointer, uint, int, bool, byte_slice,
  byte_array, uint_slice, uint_array, nested, nested_pointer, deferred_pointer, pointer_slice,
  slice, array, nested_map, pointer_map, Value, Values, Entries, initial,
}
use cbor_gen.Tuple.Unmarshal.{
  next_header, unmarshal_uint64, unmarshal_pointer, unmarshal_new, unmarshal_uint, int_field,
  unmarshal_int_field, unmarshal_bool_field, bytes_into, unmarshal_bytes, unmarshal_each,
  unmarshal_element, elements_into, unmarshal_slice, unmarshal_entries, unmarshal_map, own_width,
  unmarshal_field, next_len, field_len, unmarshal_fields, unmarshal_tuple, some_value,
}

Counts-next_header : Counts next_header
Counts-next_header bs = rw (read_header_buf-read_header 8 bs (omega arith)) (Counts-read_header bs)

Counts-read_new : (n : ℕ) → Counts (read_new n)
unfolding read_new
Counts-read_new n = Counts-guard _ _ (read_full n) (Counts-read_full n)

pub Counts-read_string_buf : Counts (read_string_buf 8)
unfolding read_string_buf
Counts-read_string_buf =
    Counts-bind _ next_header Counts-next_header
      λ p. Counts-guard _ _ _ (Counts-guard _ _ _ (Counts-read_new p.1))

Counts-uint64 : Counts unmarshal_uint64
unfolding unmarshal_uint64
Counts-uint64 =
    Counts-bind _ next_header Counts-next_header λ p. Counts-guard _ _ _ (Counts-pure p.1)

Taken-some : {A : Type 0} (bs : List ℕ) (r : Result A) → Taken bs r → Taken bs (some_value r)
Taken-some bs (ok a n rest) h = h
Taken-some bs (err e n rest) h = h

Counts-new : {A : Type 0} (read : Reads A) → Counts read → Counts (unmarshal_new read)
unfolding unmarshal_new
Counts-new read h bs = Taken-some bs (read bs) (h bs)

Counts-pointer :
    {A : Type 0} (read : Reads A) (old : Option A)
    → Counts read
    → Counts (unmarshal_pointer read old)
unfolding unmarshal_pointer
Counts-pointer read old h [] = ([], refl, omega arith)
Counts-pointer read old h (b ∷ bs) = elim (Bool-cases (b == 0xf6)) [
  | inl e ↦ rw e (b ∷ [], refl, refl)
  | inr e ↦ rw e (Taken-some (b ∷ bs) (read (b ∷ bs)) (h (b ∷ bs)))
]

Counts-uint : (len w : Width) → Counts (unmarshal_uint len w)
unfolding unmarshal_uint
Counts-uint len w =
    Counts-bind _ next_header Counts-next_header
      λ p. Counts-guard _ _ _ (Counts-guard _ _ _ (Counts-pure (p.1 % modulus w)))

Taken-if :
    {A : Type 0} (bs : List ℕ) (c : Bool) (r s : Result A)
    → Taken bs r
    → Taken bs s
    → Taken bs (if c then r else s)
Taken-if bs true r s h k = h
Taken-if bs false r s h k = k

Counts-int_field : (len w : Width) (maj extra : ℕ) → Counts (int_field len w maj extra)
unfolding int_field
Counts-int_field len w maj extra bs =
    let fails : (e : Error) → Taken {A = ℕ} bs (err e 0 bs) = λ e. ([], refl, omega arith) in
    let negative = leb (half len) (extra % modulus len) in
    Taken-if bs (maj == maj_unsigned_int) _ _
      (Taken-if bs negative _ _ (fails int_overflow) ([], refl, refl))
      (Taken-if bs (maj == maj_negative_int) _ _
        (Taken-if bs negative _ _ (fails int_overflow) ([], refl, refl)) (fails (expected_int maj)))

Counts-int : (len w : Width) → Counts (unmarshal_int_field len w)
unfolding unmarshal_int_field
Counts-int len w = Counts-bind _ next_header Counts-next_header λ p. Counts-int_field len w p.0 p.1

Counts-bool_of : (val : ℕ) → Counts (bool_of val)
unfolding bool_of
Counts-bool_of val bs =
    Taken-if bs (val == 20) _ _ ([], refl, refl)
      (Taken-if bs (val == 21) _ _ ([], refl, refl) ([], refl, omega arith))

Counts-bool : Counts unmarshal_bool_field
unfolding unmarshal_bool_field
Counts-bool =
    Counts-bind _ next_header Counts-next_header λ p. Counts-guard _ _ _ (Counts-bool_of p.1)

Counts-either :
    {A : Type 0} (c : Bool) (m k : Reads A) → Counts m → Counts k → Counts (if c then m else k)
Counts-either true m k h i = h
Counts-either false m k h i = i

Counts-into : (size : Option ℕ) (extra : ℕ) (old : List ℕ) → Counts (bytes_into size extra old)
Counts-into none extra old =
    Counts-either (extra == 0) (read_full (length old)) (read_new extra)
      (Counts-read_full (length old)) (Counts-read_new extra)
Counts-into (some n) extra old = Counts-read_new extra

Counts-bytes : (size : Option ℕ) (old : List ℕ) → Counts (unmarshal_bytes size old)
unfolding unmarshal_bytes
Counts-bytes size old =
    Counts-bind _ next_header Counts-next_header
      λ p. Counts-guard _ _ _ (Counts-guard _ _ _ (Counts-guard _ _ _ (Counts-into size p.1 old)))

Counts-each : {A : Type 0} (n : ℕ) (read : Reads A) → Counts read → Counts (unmarshal_each n read)
unfolding unmarshal_each
Counts-each {A} zero read h = Counts-pure {A = List A} []
Counts-each {A} (suc n) read h =
    Counts-bind _ read h
      λ v. Counts-bind _ (unmarshal_each n read) (Counts-each n read h) λ vs. Counts-pure (v ∷ vs)

Counts-element : (w : Width) → Counts (unmarshal_element w)
unfolding unmarshal_element
Counts-element w =
    Counts-bind _ next_header Counts-next_header
      λ p. Counts-guard _ _ _ (Counts-pure (p.1 % modulus w))

Counts-elements :
    {A : Type 0} (size : Option ℕ) (extra : ℕ) (read : Reads A) (old : List A)
    → Counts read
    → Counts (elements_into size extra read old)
Counts-elements none extra read old h =
    Counts-either (extra == 0) (pure old) (unmarshal_each extra read) (Counts-pure old)
      (Counts-each extra read h)
Counts-elements (some n) extra read old h = Counts-each extra read h

Counts-slice :
    {A : Type 0} (size : Option ℕ) (read : Reads A) (old : List A)
    → Counts read
    → Counts (unmarshal_slice size read old)
unfolding unmarshal_slice
Counts-slice size read old h = Counts-bind _ next_header Counts-next_header λ p.
    Counts-guard _ _ _
      (Counts-guard _ _ _ (Counts-guard _ _ _ (Counts-elements size p.1 read old h)))

Counts-entries :
    {V : Type 0} (n : ℕ) (read : Reads V) (es : Entries V)
    → Counts read
    → Counts (unmarshal_entries n read es)
unfolding unmarshal_entries
Counts-entries zero read es h = Counts-pure es
Counts-entries (suc n) read es h =
    Counts-bind _ (read_string_buf 8) Counts-read_string_buf
      λ k. Counts-bind _ read h λ v. Counts-entries n read (put k v es) h

Counts-map : {V : Type 0} (read : Reads V) → Counts read → Counts (unmarshal_map read)
unfolding unmarshal_map
Counts-map read h =
    Counts-bind _ next_header Counts-next_header
      λ p. Counts-guard _ _ _ (Counts-guard _ _ _ (Counts-entries p.1 read [] h))

-- The methods of the types in a field count what they take.
abbrev pub MethodsCount : Kind → Type 0
MethodsCount (nested m) = Counts m.unmarshal
MethodsCount (nested_pointer m) = Counts m.unmarshal
MethodsCount (deferred_pointer m) = Counts m.unmarshal
MethodsCount (pointer_slice m) = Counts m.unmarshal
MethodsCount (nested_map m) = Counts m.unmarshal
MethodsCount (pointer_map m) = Counts m.unmarshal
MethodsCount (slice k) = MethodsCount k
MethodsCount (array n k) = MethodsCount k
MethodsCount k = Unit {0}

pub Counts-field :
    (k : Kind) (len : Width) (old : Value k) → MethodsCount k → Counts (unmarshal_field k len old)
unfolding unmarshal_field
Counts-field string len old h = Counts-read_string_buf
Counts-field uint64 len old h = Counts-uint64
Counts-field uint64_pointer len old h = Counts-pointer unmarshal_uint64 old Counts-uint64
Counts-field (uint w _) len old h = Counts-uint len w
Counts-field (int w) len old h = Counts-int len w
Counts-field bool len old h = Counts-bool
Counts-field byte_slice len old h = Counts-bytes none old
Counts-field (byte_array n) len old h = Counts-bytes (some n) old
Counts-field (uint_slice w) len old h = Counts-slice none _ old (Counts-element w)
Counts-field (uint_array n w) len old h = Counts-slice (some n) _ old (Counts-element w)
Counts-field (nested m) len old h = h
Counts-field (nested_pointer m) len old h = Counts-pointer m.unmarshal old h
Counts-field (deferred_pointer m) len old h = Counts-new m.unmarshal h
Counts-field (pointer_slice m) len old h = Counts-slice none _ old (Counts-new m.unmarshal h)
Counts-field (slice k) len old h =
    Counts-slice none _ old (Counts-field k (own_width k) (initial k) h)
Counts-field (array n k) len old h =
    Counts-slice (some n) _ old (Counts-field k (own_width k) (initial k) h)
Counts-field (nested_map m) len old h = Counts-map m.unmarshal h
Counts-field (pointer_map m) len old h =
    Counts-map (unmarshal_pointer m.unmarshal none) (Counts-pointer m.unmarshal none h)

abbrev pub AllCount : List Kind → Type 0
AllCount [] = Unit {0}
AllCount (k ∷ ks) = MethodsCount k × AllCount ks

Counts-fields :
    (len : Option Width) (ks : List Kind) → AllCount ks → Counts (unmarshal_fields len ks)
unfolding unmarshal_fields
Counts-fields len [] h = Counts-pure {A = Unit {0}} tt
Counts-fields len (k ∷ ks) (h, hs) =
    Counts-bind _ (unmarshal_field k (field_len len k) (initial k)) (Counts-field k _ _ h) λ v.
      Counts-bind _ (unmarshal_fields (next_len len k) ks) (Counts-fields (next_len len k) ks hs)
        λ vs. Counts-pure {A = Values (k ∷ ks)} (v, vs)

-- On every input, the method `UnmarshalCBOR` emitted for a struct in tuple form leaves a suffix
-- of it; its count is the number of bytes taken on success, and at most that on an error; if the
-- methods of the types in its fields do so.
pub Counts-unmarshal_tuple : (ks : List Kind) → AllCount ks → Counts (unmarshal_tuple ks)
unfolding unmarshal_tuple
Counts-unmarshal_tuple ks h =
    Counts-bind _ next_header Counts-next_header
      λ p. Counts-guard _ _ _ (Counts-guard _ _ _ (Counts-fields none ks h))
