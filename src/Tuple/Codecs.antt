-- ===== src/Tuple/Codecs.antt =====
-- The types whose methods are modelled, as `Codec`s for the fields of others.
use cbor_gen.Prelude.{ℕ, ◌^◌, ◌<◌, ◌≡◌, List, [], length, Option, none, some, true, false}
use cbor_gen.Go.{Result, ok, err, panicked, endless}
use cbor_gen.Go.Decodes.{Decodes}
use cbor_gen.Go.Writer.{Writer, Writes, abort}
use cbor_gen.Go.Writer.Emits.{Emits, Emits-write}
use cbor_gen.Scalars.{cbor_null}
use cbor_gen.Scalars.Laws.{encode_int}
use cbor_gen.Scalars.Time.{
  Time, InRange, unix_nano, marshal_time, unmarshal_time, unmarshal_time-encode, marshal_time-Emits,
}
use cbor_gen.Item.{Item, encode, Fits}
use cbor_gen.Deferred.{Copied, copied, failed, stuck, unmarshal_deferred, marshal_deferred}
use cbor_gen.Deferred.Complete.{unmarshal_deferred_complete, marshal_deferred-Emits}
use cbor_gen.Tuple.{Codec, Kind, Values, initials, FitsAll}
use cbor_gen.Tuple.Marshal.{marshal_tuple}
use cbor_gen.Tuple.Unmarshal.{unmarshal_tuple}
use cbor_gen.Tuple.Encode.{encode_tuple}
use cbor_gen.Tuple.Sends.{marshal_tuple-Emits}
use cbor_gen.Tuple.RoundTrip.{AllWideEnough, unmarshal_tuple-encode_tuple}

pub tuple_nil :
    {W : Type 0} ⦃io : Writer W⦄ (ks : List Kind)
    → Emits {W = W} cbor_null none (marshal_tuple ks none)
unfolding marshal_tuple
tuple_nil ks = Emits-write cbor_null

-- A struct in tuple form.
unfoldable pub tuple_codec : (ks : List Kind) → AllWideEnough none ks → length ks < 2 ^ 64 → Codec
tuple_codec ks wide few = record {
  Carrier = Values ks;
  initial = initials ks;
  marshal = marshal_tuple ks;
  unmarshal = unmarshal_tuple ks;
  IsValid = FitsAll ks;
  encode = encode_tuple ks;
  has_nil = true;
  sends_nil = λ _. tuple_nil ks;
  sends = marshal_tuple-Emits ks;
  decodes = λ vs. unmarshal_tuple-encode_tuple ks vs wide few;
}

-- `CborTime`, whose method takes a value: a nil pointer panics.
abbrev pub marshal_time_pointer : {W : Type 0} ⦃io : Writer W⦄ → Option Time → Writes W
marshal_time_pointer none = abort panicked
marshal_time_pointer (some t) = marshal_time t

abbrev pub epoch : Time
epoch = record { sec = 0; nsec = 0 }

pub time_nil :
    {W : Type 0} ⦃io : Writer W⦄
    → false ≡ true
    → Emits {W = W} cbor_null none (marshal_time_pointer none)
time_nil e = cc

abbrev pub time_codec : Codec
time_codec = record {
  Carrier = Time;
  initial = epoch;
  marshal = marshal_time_pointer;
  unmarshal = unmarshal_time;
  IsValid = InRange;
  encode = λ t. encode_int (unix_nano t);
  has_nil = false;
  sends_nil = time_nil;
  sends = λ t h. marshal_time-Emits t;
  decodes = unmarshal_time-encode;
}

-- `Deferred`, with its `Raw` that may be nil.
abbrev pub read_copied : Copied → Result (Option (List ℕ))
read_copied (copied raw n br) = ok (some raw) n br
read_copied (failed e n br) = err e n br
read_copied stuck = err endless 0 []

-- The raw bytes of one item within the limits.
abbrev pub IsRaw : Option (List ℕ) → Type 0
IsRaw none = ⊥
IsRaw (some raw) = (x : Item) × Fits x × (length (encode x) < 2 ^ 49) × (raw ≡ encode x)

abbrev pub raw_bytes : Option (List ℕ) → List ℕ
raw_bytes none = []
raw_bytes (some raw) = raw

pub sends_raw :
    {W : Type 0} ⦃io : Writer W⦄ (raw : Option (List ℕ))
    → IsRaw raw
    → Emits {W = W} (raw_bytes raw) none (marshal_deferred (some raw))
sends_raw none h = absurd h
sends_raw (some raw) h = marshal_deferred-Emits raw

pub Decodes-raw :
    (raw : Option (List ℕ))
    → IsRaw raw
    → Decodes (λ br. read_copied (unmarshal_deferred br)) raw (raw_bytes raw)
Decodes-raw none h rest = absurd h
Decodes-raw (some raw) (x, fits, small, e) rest =
    rw (e, unmarshal_deferred_complete x rest fits small)

pub deferred_nil :
    {W : Type 0} ⦃io : Writer W⦄ → Emits {W = W} cbor_null none (marshal_deferred none)
unfolding marshal_deferred
deferred_nil = Emits-write cbor_null

abbrev pub deferred_codec : Codec
deferred_codec = record {
  Carrier = Option (List ℕ);
  initial = none;
  marshal = marshal_deferred;
  unmarshal = λ br. read_copied (unmarshal_deferred br);
  IsValid = IsRaw;
  encode = raw_bytes;
  has_nil = true;
  sends_nil = λ _. deferred_nil;
  sends = sends_raw;
  decodes = Decodes-raw;
}
