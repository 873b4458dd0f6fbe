-- ===== src/Chain/Decoded.antt =====
-- What the decoder with its hooks returns, against the JSON text of a value.
use dfine_cpp.Common.{Bool, true, not, ◌&&◌, ◌↔◌, ap, sym, ◌∙◌, ◌≡◌, refl, arith, &&-eq-true}
use dfine_cpp.Common.Result.{returned, ◌>>=◌, Ends, Ends-bind, Ends-returned}
use dfine_cpp.Json.{
  Value, Items, Fields, null, boolean, integer, real, text, array, object, nil, item, empty, field,
  has_key, is_unique, are_unique, has_unique_keys,
}
use dfine_cpp.Chain.Decode.{
  Raw, RawItems, RawPairs, raw_null, constant, raw_boolean, raw_integer, raw_real, raw_text,
  raw_array, raw_object, no_items, raw_item, no_pairs, raw_pair, unique_object, decode,
  decode_items, decode_pairs,
}
use dfine_cpp.Chain.Dictionary.{IsRefusal, all_unique, unique_object-Ends, unique_object_fresh}

-- The text of a value, as a tree.
unfoldable mutual
  pub raw_of : Value → Raw
  raw_of null = raw_null
  raw_of (boolean b) = raw_boolean b
  raw_of (integer z) = raw_integer z
  raw_of (real r) = raw_real r
  raw_of (text s) = raw_text s
  raw_of (array xs) = raw_array (raw_items xs)
  raw_of (object fs) = raw_object (raw_pairs fs)

  pub raw_items : Items → RawItems
  raw_items nil = no_items
  raw_items (item v xs) = raw_item (raw_of v) (raw_items xs)

  pub raw_pairs : Fields → RawPairs
  raw_pairs empty = no_pairs
  raw_pairs (field k v fs) = raw_pair k (raw_of v) (raw_pairs fs)

-- The value of a text, and that none of its objects repeats a key.
abbrev IsRead : Raw → Value → Type 0
IsRead r v = (raw_of v ≡ r) × (is_unique v ≡ true)

abbrev AreRead : RawItems → Items → Type 0
AreRead xs items = (raw_items items ≡ xs) × (are_unique items ≡ true)

abbrev ArePairs : RawPairs → Fields → Type 0
ArePairs ps pairs = (raw_pairs pairs ≡ ps) × (all_unique pairs ≡ true)

and_true : (a b : Bool) → a ≡ true → b ≡ true → (a && b) ≡ true
and_true a b h k = ground arith

mutual
  unfolding decode is_unique raw_of

  decode-Ends : (r : Raw) → Ends (IsRead r) IsRefusal (decode r)
  decode-Ends raw_null = (refl, refl)
  decode-Ends constant = refl
  decode-Ends (raw_boolean b) = (refl, refl)
  decode-Ends (raw_integer z) = (refl, refl)
  decode-Ends (raw_real r) = (refl, refl)
  decode-Ends (raw_text s) = (refl, refl)
  decode-Ends (raw_array xs) =
      Ends-bind IsRefusal (AreRead xs) (IsRead (raw_array xs)) (decode_items xs)
        (λ items. returned (array items)) (items-Ends xs)
        (λ items (e, h). (ap (λ y. raw_array y) e, h))
  decode-Ends (raw_object ps) =
      Ends-bind IsRefusal (ArePairs ps) (IsRead (raw_object ps)) (decode_pairs ps)
        (λ pairs. unique_object empty pairs >>= λ fs. returned (object fs)) (pairs-Ends ps)
        (λ pairs (e, h).
          Ends-bind IsRefusal (λ fs. (fs ≡ pairs) × (has_unique_keys fs ≡ true))
            (IsRead (raw_object ps)) (unique_object empty pairs) (λ fs. returned (object fs))
            (unique_object-Ends empty pairs refl h)
            (λ fs (same, q).
              (ap (λ y. raw_object (raw_pairs y)) same ∙ ap (λ y. raw_object y) e, q)))

  items-Ends : (xs : RawItems) → Ends (AreRead xs) IsRefusal (decode_items xs)
  items-Ends no_items = (refl, refl)
  items-Ends (raw_item x xs) =
      Ends-bind IsRefusal (IsRead x) (AreRead (raw_item x xs)) (decode x)
        (λ v. decode_items xs >>= λ rest. returned (item v rest)) (decode-Ends x)
        (λ v (e, h).
          Ends-bind IsRefusal (AreRead xs) (AreRead (raw_item x xs)) (decode_items xs)
            (λ rest. returned (item v rest)) (items-Ends xs)
            (λ rest (f, k). (
              ap (λ y. raw_item y (raw_items rest)) e ∙ ap (λ y. raw_item x y) f,
              and_true (is_unique v) (are_unique rest) h k,
            )))

  pairs-Ends : (ps : RawPairs) → Ends (ArePairs ps) IsRefusal (decode_pairs ps)
  pairs-Ends no_pairs = (refl, refl)
  pairs-Ends (raw_pair n x ps) =
      Ends-bind IsRefusal (IsRead x) (ArePairs (raw_pair n x ps)) (decode x)
        (λ v. decode_pairs ps >>= λ rest. returned (field n v rest)) (decode-Ends x)
        (λ v (e, h).
          Ends-bind IsRefusal (ArePairs ps) (ArePairs (raw_pair n x ps)) (decode_pairs ps)
            (λ rest. returned (field n v rest)) (pairs-Ends ps)
            (λ rest (f, k). (
              ap (λ y. raw_pair n y (raw_pairs rest)) e ∙ ap (λ y. raw_pair n x y) f,
              and_true (is_unique v) (all_unique rest) h k,
            )))

all_unique-of : (fs : Fields) → has_unique_keys fs ≡ true → all_unique fs ≡ true
unfolding is_unique
all_unique-of empty h = refl
all_unique-of (field k v fs) h =
    let (_, others) = &&-eq-true (not (has_key k fs)) (is_unique v && has_unique_keys fs) h in
    let (own, rest) = &&-eq-true (is_unique v) (has_unique_keys fs) others in
    and_true (is_unique v) (all_unique fs) own (all_unique-of fs rest)

mutual
  unfolding decode is_unique raw_of

  decode_read : (v : Value) → is_unique v ≡ true → decode (raw_of v) ≡ returned v
  decode_read null h = refl
  decode_read (boolean b) h = refl
  decode_read (integer z) h = refl
  decode_read (real r) h = refl
  decode_read (text s) h = refl
  decode_read (array xs) h = rw (items_read xs h) refl
  decode_read (object fs) h =
      rw (pairs_read fs (all_unique-of fs h), unique_object_fresh empty fs h) refl

  items_read : (xs : Items) → are_unique xs ≡ true → decode_items (raw_items xs) ≡ returned xs
  items_read nil h = refl
  items_read (item v xs) h =
      let (own, rest) = &&-eq-true (is_unique v) (are_unique xs) h in
      rw (decode_read v own, items_read xs rest) refl

  pairs_read : (fs : Fields) → all_unique fs ≡ true → decode_pairs (raw_pairs fs) ≡ returned fs
  pairs_read empty h = refl
  pairs_read (field k v fs) h =
      let (own, rest) = &&-eq-true (is_unique v) (all_unique fs) h in
      rw (decode_read v own, pairs_read fs rest) refl

-- A report's text is read as a value exactly if it is the text of that value and no object of it
-- repeats a key: a text with NaN or an infinity, or with a repeated key, gives no value.
pub decode_iff :
    (r : Raw) (v : Value) → (decode r ≡ returned v) ↔ ((raw_of v ≡ r) × (is_unique v ≡ true))
decode_iff r v = (
  (λ h. Ends-returned IsRefusal (IsRead r) (decode r) v (decode-Ends r) h),
  λ (e, h). ap decode (sym e) ∙ decode_read v h,
)
