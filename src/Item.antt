-- ===== src/Item.antt =====
-- What a CBOR document is, independently of the code: data items as trees, with their canonical
-- encoding. The walkers of validate.go and utils.go are compared with it.
pub mod Forest
pub mod Close
use cbor_gen.Prelude.{ℕ, zero, suc, ◌+◌, ◌*◌, ◌≤◌, ◌<◌, ◌^◌, List, [], ◌++◌, length}
use cbor_gen.Go.{IsU64}
use cbor_gen.Header.{encode_major_type}
use cbor_gen.Strings.{max_length, byte_array_max_len}

mutual
  pub data Item : Type 0 where
    unsigned : ℕ → Item
    negative : ℕ → Item
    byte_string : List ℕ → Item
    text_string : List ℕ → Item
    array : Items → Item
    map : Pairs → Item
    tag : ℕ → Item → Item
    other : ℕ → Item

  pub data Items : Type 0 where
    nil : Items
    cons : Item → Items → Items

  pub data Pairs : Type 0 where
    end : Pairs
    pair : Item → Item → Pairs → Pairs

abbrev pub count_items : Items → ℕ
count_items nil = 0
count_items (cons x xs) = suc (count_items xs)

abbrev pub count_pairs : Pairs → ℕ
count_pairs end = 0
count_pairs (pair k v ps) = suc (count_pairs ps)

unfoldable mutual
  pub encode : Item → List ℕ
  encode (unsigned n) = encode_major_type 0 n
  encode (negative n) = encode_major_type 1 n
  encode (byte_string s) = encode_major_type 2 (length s) ++ s
  encode (text_string s) = encode_major_type 3 (length s) ++ s
  encode (array xs) = encode_major_type 4 (count_items xs) ++ encode_items xs
  encode (map ps) = encode_major_type 5 (count_pairs ps) ++ encode_pairs ps
  encode (tag n x) = encode_major_type 6 n ++ encode x
  encode (other n) = encode_major_type 7 n

  pub encode_items : Items → List ℕ
  encode_items nil = []
  encode_items (cons x xs) = encode x ++ encode_items xs

  pub encode_pairs : Pairs → List ℕ
  encode_pairs end = []
  encode_pairs (pair k v ps) = encode k ++ (encode v ++ encode_pairs ps)

-- Numbers fit a header, and strings, arrays and maps stay within the limits of gen.go.
unfoldable mutual
  pub Fits : Item → Type 0
  Fits (unsigned n) = IsU64 n
  Fits (negative n) = IsU64 n
  Fits (byte_string s) = length s ≤ byte_array_max_len
  Fits (text_string s) = length s ≤ byte_array_max_len
  Fits (array xs) = (count_items xs ≤ max_length) × FitsAll xs
  Fits (map ps) = (count_pairs ps ≤ max_length) × FitsPairs ps
  Fits (tag n x) = IsU64 n × Fits x
  Fits (other n) = IsU64 n

  pub FitsAll : Items → Type 0
  FitsAll nil = Unit {0}
  FitsAll (cons x xs) = Fits x × FitsAll xs

  pub FitsPairs : Pairs → Type 0
  FitsPairs end = Unit {0}
  FitsPairs (pair k v ps) = Fits k × Fits v × FitsPairs ps
