-- ===== src/Item/Forest.antt =====
-- A forest of items read header by header: the first header of its encoding, the bytes that belong
-- to that header alone, and the forest that is still to come. This is how the walkers of the code,
-- which count the items that remain, see a document.
use cbor_gen.Prelude.{
  ℕ, ◌+◌, ◌*◌, ◌-◌, ◌<◌, ◌^◌, ◌≡◌, refl, arith, List, [], ◌++◌, length, append_assoc, ◌==◌,
  if◌then◌else◌, ◌||◌,
}
use cbor_gen.Header.{encode_major_type}
use cbor_gen.Strings.{max_length, byte_array_max_len}
use cbor_gen.Item.{
  Item, unsigned, negative, byte_string, text_string, array, map, tag, other, Items, nil, cons,
  Pairs, end, pair, count_items, count_pairs, encode, encode_items, encode_pairs,
}

unfoldable pub append : Items → Items → Items
append nil zs = zs
append (cons x xs) zs = cons x (append xs zs)

-- Keys and values, in order.
unfoldable pub flatten : Pairs → Items → Items
flatten end zs = zs
flatten (pair k v ps) zs = cons k (cons v (flatten ps zs))

pub record Opened : Type 0 where
  pub maj : ℕ
  pub extra : ℕ
  pub body : List ℕ
  pub rest : Items

unfoldable pub opened : Item → Items → Opened
unfolding append flatten
opened (unsigned n) zs = record { maj = 0; extra = n; body = []; rest = zs }
opened (negative n) zs = record { maj = 1; extra = n; body = []; rest = zs }
opened (byte_string s) zs = record { maj = 2; extra = length s; body = s; rest = zs }
opened (text_string s) zs = record { maj = 3; extra = length s; body = s; rest = zs }
opened (array xs) zs = record { maj = 4; extra = count_items xs; body = []; rest = append xs zs }
opened (map ps) zs = record { maj = 5; extra = count_pairs ps; body = []; rest = flatten ps zs }
opened (tag n x) zs = record { maj = 6; extra = n; body = []; rest = cons x zs }
opened (other n) zs = record { maj = 7; extra = n; body = []; rest = zs }

-- How many items a header announces, how many bytes follow it, and the largest number allowed.
abbrev pub pending : ℕ → ℕ → ℕ
pending maj extra =
    if maj == 4 then extra else if maj == 5 then extra * 2 else if maj == 6 then 1 else 0

abbrev pub body_length : ℕ → ℕ → ℕ
body_length maj extra = if maj == 2 || maj == 3 then extra else 0

abbrev pub limit : ℕ → ℕ
limit maj =
    if maj == 2 || maj == 3
    then byte_array_max_len
    else if maj == 4 || maj == 5
    then max_length
    else 2 ^ 64 - 1

-- What `opened` says of a forest.
pub record Opens (x : Item) (zs : Items) (o : Opened) : Type 0 where
  pub bytes :
      encode_items (cons x zs) ≡ encode_major_type o.maj o.extra ++ (o.body ++ encode_items o.rest)
  pub known : o.maj < 8
  pub announced : count_items o.rest ≡ pending o.maj o.extra + count_items zs
  pub body_fits : length o.body ≡ body_length o.maj o.extra

pub count-append : (xs zs : Items) → count_items (append xs zs) ≡ count_items xs + count_items zs
unfolding append
count-append nil zs = omega arith
count-append (cons x xs) zs = omega (arith, count-append xs zs)

pub count-flatten :
    (ps : Pairs) (zs : Items) → count_items (flatten ps zs) ≡ count_pairs ps * 2 + count_items zs
unfolding flatten
count-flatten end zs = omega arith
count-flatten (pair k v ps) zs = omega (arith, count-flatten ps zs)

encode-append : (xs zs : Items) → encode_items (append xs zs) ≡ encode_items xs ++ encode_items zs
unfolding append encode_items
encode-append nil zs = refl
encode-append (cons x xs) zs = rw (encode-append xs zs, append_assoc)

encode-flatten :
    (ps : Pairs) (zs : Items) → encode_items (flatten ps zs) ≡ encode_pairs ps ++ encode_items zs
unfolding flatten encode_items encode_pairs
encode-flatten end zs = refl
encode-flatten (pair k v ps) zs = simp (encode-flatten ps zs, append_assoc)

pub opened-Opens : (x : Item) (zs : Items) → Opens x zs (opened x zs)
unfolding opened encode encode_items
opened-Opens (unsigned n) zs = ground arith
opened-Opens (negative n) zs = ground arith
opened-Opens (byte_string s) zs =
    ground (arith, append_assoc (encode_major_type 2 (length s)) s (encode_items zs))
opened-Opens (text_string s) zs =
    ground (arith, append_assoc (encode_major_type 3 (length s)) s (encode_items zs))
opened-Opens (array xs) zs = ground (
  arith,
  count-append xs zs,
  encode-append xs zs,
  append_assoc (encode_major_type 4 (count_items xs)) (encode_items xs) (encode_items zs),
)
opened-Opens (map ps) zs = ground (
  arith,
  count-flatten ps zs,
  encode-flatten ps zs,
  append_assoc (encode_major_type 5 (count_pairs ps)) (encode_pairs ps) (encode_items zs),
)
opened-Opens (tag n x) zs =
    ground (arith, append_assoc (encode_major_type 6 n) (encode x) (encode_items zs))
opened-Opens (other n) zs = ground arith
