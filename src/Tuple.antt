-- ===== src/Tuple.antt =====
-- Structs in tuple form: what the methods `MarshalCBOR` and `UnmarshalCBOR` do that gen.go emits for
-- a struct, for any list of fields of the kinds below. A Go string is the list of its bytes, an
-- unsigned integer a number, a signed integer its bit pattern; nil and empty slices are one.
pub mod Marshal
pub mod Unmarshal
pub mod Encode
pub mod Sends
pub mod Fields
pub mod Elements
pub mod RoundTrip
pub mod Codecs
pub mod CidCodec
pub mod Counts
pub mod Widths
use cbor_gen.Prelude.{
  ℕ, ◌^◌, ◌+◌, ◌-◌, ◌%◌, ◌≤◌, ◌<◌, ◌≡◌, List, [], ◌∷◌, Bool, Option, none, some, length, All,
  if◌then◌else◌, leb, ◌≢◌, false, true, replicate,
}
use cbor_gen.Go.{Reads}
use cbor_gen.Go.Decodes.{Decodes}
use cbor_gen.Go.Writer.{Writer, Writes}
use cbor_gen.Go.Writer.Emits.{Emits}
use cbor_gen.Scalars.{cbor_null}
use cbor_gen.Keys.{map_key_less}
use cbor_gen.Keys.Entries.{IsOrdered}
use cbor_gen.Strings.{max_length, byte_array_max_len}

-- The limit that the emitted code has for maps.
abbrev pub max_map_length : ℕ
max_map_length = 4096

pub data Width : Type 0 where
  w8 w16 w32 w64 : Width

-- 2 ^ w, and 2 ^ (w - 1), from where on a pattern is negative.
abbrev pub modulus : Width → ℕ
modulus w8 = 0x100
modulus w16 = 0x1_0000
modulus w32 = 0x1_0000_0000
modulus w64 = 0x1_0000_0000_0000_0000

abbrev pub half : Width → ℕ
half w8 = 0x80
half w16 = 0x8000
half w32 = 0x8000_0000
half w64 = 0x8000_0000_0000_0000

-- The widths of `emitCborUnmarshalUintField`: a uint64 field has a case of its own.
abbrev pub IsNarrow : Width → Type 0
IsNarrow w64 = ⊥
IsNarrow w = Unit {0}

-- A type with methods `MarshalCBOR` and `UnmarshalCBOR`, as a field of that type needs them: the
-- methods (nil is `none`, `initial` the zero value), and what they promise for the valid values, and
-- for nil where `has_nil` says so.
pub record Codec : Type 1 where
  pub Carrier : Type 0
  pub initial : Carrier
  pub marshal : {W : Type 0} ⦃io : Writer W⦄ → Option Carrier → Writes W
  pub unmarshal : Reads Carrier
  pub IsValid : Carrier → Type 0
  pub encode : Carrier → List ℕ
  pub has_nil : Bool
  pub sends_nil :
      {W : Type 0} ⦃io : Writer W⦄ → has_nil ≡ true → Emits {W = W} cbor_null none (marshal none)
  pub sends :
      {W : Type 0} ⦃io : Writer W⦄ (c : Carrier)
      → IsValid c
      → Emits {W = W} (encode c) none (marshal (some c))
  pub decodes : (c : Carrier) → IsValid c → Decodes unmarshal c (encode c)

-- The kinds of field, named after the cases of `emitCborMarshalStructTuple` and of the functions
-- that it calls. A pointer to a Deferred is a `deferred_pointer`, no `nested_pointer`, and the type of
-- a `pointer_map` is no Deferred.
pub data Kind : Type 1 where
  string : Kind
  uint64 : Kind
  uint64_pointer : Kind
  uint : (w : Width) → IsNarrow w → Kind
  int : Width → Kind
  bool : Kind
  byte_slice : Kind
  byte_array : ℕ → Kind
  uint_slice : Width → Kind
  uint_array : ℕ → Width → Kind
  nested : Codec → Kind
  nested_pointer : Codec → Kind
  deferred_pointer : Codec → Kind
  pointer_slice : Codec → Kind
  slice : Kind → Kind
  array : ℕ → Kind → Kind
  nested_map : Codec → Kind
  pointer_map : Codec → Kind

-- A Go map from strings: its entries in the order of the keys.
abbrev pub Entries : Type 0 → Type 0
Entries V = List (List ℕ × V)

-- A field's Go value.
abbrev pub Value : Kind → Type 0
Value string = List ℕ
Value uint64 = ℕ
Value uint64_pointer = Option ℕ
Value (uint w _) = ℕ
Value (int w) = ℕ
Value bool = Bool
Value byte_slice = List ℕ
Value (byte_array n) = List ℕ
Value (uint_slice w) = List ℕ
Value (uint_array n w) = List ℕ
Value (nested m) = m.Carrier
Value (nested_pointer m) = Option m.Carrier
Value (deferred_pointer m) = Option m.Carrier
Value (pointer_slice m) = List (Option m.Carrier)
Value (slice k) = List (Value k)
Value (array n k) = List (Value k)
Value (nested_map m) = Entries m.Carrier
Value (pointer_map m) = Entries (Option m.Carrier)

-- Its zero value.
abbrev pub initial : (k : Kind) → Value k
initial string = []
initial uint64 = 0
initial uint64_pointer = none
initial (uint w _) = 0
initial (int w) = 0
initial bool = false
initial byte_slice = []
initial (byte_array n) = replicate n 0
initial (uint_slice w) = []
initial (uint_array n w) = replicate n 0
initial (nested m) = m.initial
initial (nested_pointer m) = none
initial (deferred_pointer m) = none
initial (pointer_slice m) = []
initial (slice k) = []
initial (array n k) = replicate n (initial k)
initial (nested_map m) = []
initial (pointer_map m) = []

abbrev pub Values : List Kind → Type 0
Values [] = Unit {0}
Values (k ∷ ks) = Value k × Values ks

abbrev pub initials : (ks : List Kind) → Values ks
initials [] = tt
initials (k ∷ ks) = (initial k, initials ks)

abbrev pub PointerFits : Option ℕ → Type 0
PointerFits none = Unit {0}
PointerFits (some v) = v < 2 ^ 64

abbrev pub NotNull : List ℕ → Type 0
NotNull [] = ⊥
NotNull (b ∷ bs) = b ≢ 0xf6

-- A pointer whose value is not written as null.
abbrev pub NestedFits : (m : Codec) → Option m.Carrier → Type 0
NestedFits m none = m.has_nil ≡ true
NestedFits m (some c) = m.IsValid c × NotNull (m.encode c)

-- A pointer that is not nil.
abbrev pub PresentFits : (m : Codec) → Option m.Carrier → Type 0
PresentFits m none = ⊥
PresentFits m (some c) = m.IsValid c

-- The kinds that the elements of slices and arrays may have, besides unsigned integers.
abbrev pub IsElement : Kind → Type 0
IsElement (int w) = Unit {0}
IsElement (nested m) = Unit {0}
IsElement byte_slice = Unit {0}
IsElement (uint_slice w) = Unit {0}
IsElement (pointer_slice m) = Unit {0}
IsElement (slice k) = Unit {0}
IsElement k = ⊥

-- Keys within the limit and in order.
abbrev pub KeysFit : {V : Type 0} → Entries V → Type 0
KeysFit [] = Unit {0}
KeysFit (e ∷ es) =
    (length e.0 ≤ max_length) × All (λ f. map_key_less e.0 f.0 ≡ true) es × KeysFit es

-- Values of the Go type, within the limits of gen.go.
abbrev pub Fits : (k : Kind) → Value k → Type 0
Fits string s = length s ≤ max_length
Fits uint64 v = v < 2 ^ 64
Fits uint64_pointer p = PointerFits p
Fits (uint w _) v = v < modulus w
Fits (int w) v = v < modulus w
Fits bool b = Unit {0}
Fits byte_slice s = length s ≤ byte_array_max_len
Fits (byte_array n) s = (length s ≡ n) × (n ≤ byte_array_max_len)
Fits (uint_slice w) xs = (length xs ≤ max_length) × All (λ v. v < modulus w) xs
Fits (uint_array n w) xs = (length xs ≡ n) × (n ≤ max_length) × All (λ v. v < modulus w) xs
Fits (nested m) c = m.IsValid c
Fits (nested_pointer m) p = NestedFits m p
Fits (deferred_pointer m) p = PresentFits m p
Fits (pointer_slice m) xs = (length xs ≤ max_length) × All (PresentFits m) xs
Fits (slice k) xs = IsElement k × (length xs ≤ max_length) × All (Fits k) xs
Fits (array n k) xs = IsElement k × (length xs ≡ n) × (n ≤ max_length) × All (Fits k) xs
Fits (nested_map m) es = (length es ≤ max_map_length) × KeysFit es × All (λ e. m.IsValid e.1) es
Fits (pointer_map m) es = (length es ≤ max_map_length) × KeysFit es × All (λ e. NestedFits m e.1) es

abbrev pub FitsAll : (ks : List Kind) → Values ks → Type 0
FitsAll [] vs = Unit {0}
FitsAll (k ∷ ks) (v, vs) = Fits k v × FitsAll ks vs

-- `-v-1` on the pattern of a signed integer of width `w`.
abbrev pub complement : Width → ℕ → ℕ
complement w v = ((modulus w - v) % modulus w + (modulus w - 1)) % modulus w

pub KeysFit-IsOrdered : {V : Type 0} (es : Entries V) → KeysFit es → IsOrdered es
KeysFit-IsOrdered [] h = tt
KeysFit-IsOrdered (e ∷ es) (_, h, hs) = (h, KeysFit-IsOrdered es hs)
