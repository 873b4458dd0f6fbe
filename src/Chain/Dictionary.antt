-- ===== src/Chain/Dictionary.antt =====
-- Dictionaries that `_unique_object` of trt-files/scripts/accuracy_chain.py builds.
use dfine_cpp.Common.{
  Bool, true, false, not, Text, text_eq, text_eq_swap, ◌&&◌, ◌||◌, ap, sym, ◌∙◌, ◌≡◌, refl, arith,
  &&-eq-true,
}
use mathlib.Core.Path.{subst}
use dfine_cpp.Common.Result.{Error, returned, value_error, Ends, Ends-refuse, Ends-weaken}
use dfine_cpp.Json.{Value, Fields, empty, field, has_key, find, is_unique, has_unique_keys}
use dfine_cpp.Chain.Decode.{add, unique_object}

abbrev pub IsRefusal : Error → Type 0
IsRefusal e = e ≡ value_error

-- No value repeats a key.
abbrev pub all_unique : Fields → Bool
all_unique empty = true
all_unique (field k v fs) = is_unique v && all_unique fs

abbrev pub append : Fields → Fields → Fields
append empty gs = gs
append (field j w fs) gs = field j w (append fs gs)

abbrev snoc : Fields → Text → Value → Fields
snoc fs k v = append fs (field k v empty)

append-snoc :
    (fs : Fields) (k : Text) (v : Value) (gs : Fields)
    → append (snoc fs k v) gs ≡ append fs (field k v gs)
append-snoc empty k v gs = refl
append-snoc (field j w fs) k v gs = ap (λ x. field j w x) (append-snoc fs k v gs)

append-empty : (fs : Fields) → append fs empty ≡ fs
append-empty empty = refl
append-empty (field j w fs) = ap (λ x. field j w x) (append-empty fs)

has_key-field :
    (j k : Text) (v : Value) (fs : Fields)
    → has_key j (field k v fs) ≡ (text_eq j k || has_key j fs)
unfolding find
has_key-field j k v fs = ground arith

shuffle : (a b c d : Bool) → (a || (b || (c || d))) ≡ (b || ((a || c) || d))
shuffle a b c d = ground arith

or_nothing : (a b : Bool) → (a || b) ≡ (a || (false || b))
or_nothing a b = refl

has_key-append :
    (j : Text) (fs : Fields) (k : Text) (v : Value) (gs : Fields)
    → has_key j (append fs (field k v gs)) ≡ (text_eq j k || (has_key j fs || has_key j gs))
unfolding find
has_key-append j empty k v gs = has_key-field j k v gs
has_key-append j (field i w fs) k v gs =
    has_key-field j i w (append fs (field k v gs))
    ∙ (ap (λ x. text_eq j i || x) (has_key-append j fs k v gs)
        ∙ (shuffle (text_eq j i) (text_eq j k) (has_key j fs) (has_key j gs)
            ∙ ap (λ x. text_eq j k || (x || has_key j gs)) (sym (has_key-field j i w fs))))

or-false : (a b : Bool) → (a || b) ≡ false → (a ≡ false) × (b ≡ false)
or-false a b h = (ground arith, ground arith)

not-true : (b : Bool) → not b ≡ true → b ≡ false
not-true true h = cc
not-true false h = refl

-- A key that a dictionary has not is added at its end.
add-snoc : (fs : Fields) (k : Text) (v : Value) → has_key k fs ≡ false → add fs k v ≡ snoc fs k v
unfolding add
add-snoc empty k v h = refl
add-snoc (field j w fs) k v h =
    let (other, rest) = or-false (text_eq k j) (has_key k fs) (sym (has_key-field k j w fs) ∙ h) in
    rw other (ap (λ x. field j w x) (add-snoc fs k v rest))

has_unique_keys-snoc :
    (fs : Fields) (k : Text) (v : Value)
    → has_unique_keys fs ≡ true
    → has_key k fs ≡ false
    → is_unique v ≡ true
    → has_unique_keys (snoc fs k v) ≡ true
unfolding is_unique find
has_unique_keys-snoc empty k v h n u = rw u refl
has_unique_keys-snoc (field j w fs) k v h n u =
    let (alone, others) = &&-eq-true (not (has_key j fs)) (is_unique w && has_unique_keys fs) h in
    let (own, rest) = &&-eq-true (is_unique w) (has_unique_keys fs) others in
    let (other, fresh) = or-false (text_eq k j) (has_key k fs) (sym (has_key-field k j w fs) ∙ n) in
    together (has_key j (snoc fs k v)) (is_unique w) (has_unique_keys (snoc fs k v))
      (has_key-append j fs k v empty
        ∙ none_of (text_eq j k) (has_key j fs) (text_eq_swap k j other)
            (not-true (has_key j fs) alone))
      own (has_unique_keys-snoc fs k v rest fresh u)
  where
    none_of : (a b : Bool) → a ≡ false → b ≡ false → (a || (b || false)) ≡ false
    none_of a b h k = ground arith

    together : (a b c : Bool) → a ≡ false → b ≡ true → c ≡ true → (not a && (b && c)) ≡ true
    together a b c h k l = ground arith

-- What the loop adds to a dictionary so far.
pub unique_object-Ends :
    (result pairs : Fields)
    → has_unique_keys result ≡ true
    → all_unique pairs ≡ true
    → Ends
        (λ fs. (fs ≡ append result pairs) × (has_unique_keys fs ≡ true))
        IsRefusal
        (unique_object result pairs)
unfolding unique_object
unique_object-Ends result empty h u = (sym (append-empty result), h)
unique_object-Ends result (field k v pairs) h u =
    let (own, rest) = &&-eq-true (is_unique v) (all_unique pairs) u in
    Ends-refuse IsRefusal _ (has_key k result) value_error _ refl (λ fresh.
      subst
        (λ (x : Fields).
          Ends (λ fs. (fs ≡ append result (field k v pairs)) × (has_unique_keys fs ≡ true))
            IsRefusal (unique_object x pairs))
        (sym (add-snoc result k v fresh))
        (Ends-weaken IsRefusal _ _ (unique_object (snoc result k v) pairs)
          (λ fs (e, q). (e ∙ append-snoc result k v pairs, q))
          (unique_object-Ends (snoc result k v) pairs (has_unique_keys-snoc result k v h fresh own)
            rest)))

neither : (a b : Bool) → a ≡ false → b ≡ false → (a || b) ≡ false
neither a b h k = ground arith

apart :
    (k : Text) (v : Value) (pairs fs : Fields)
    → has_unique_keys (append fs (field k v pairs)) ≡ true
    → has_key k fs ≡ false
unfolding is_unique find
apart k v pairs empty q = refl
apart k v pairs (field j w fs) q =
    let rest = append fs (field k v pairs) in
    let (alone, others) =
      &&-eq-true (not (has_key j rest)) (is_unique w && has_unique_keys rest) q in
    let (_, later) = &&-eq-true (is_unique w) (has_unique_keys rest) others in
    let (other, _) =
      or-false (text_eq j k) (has_key j fs || has_key j pairs)
        (sym (has_key-append j fs k v pairs) ∙ not-true (has_key j rest) alone) in
    has_key-field k j w fs
    ∙ neither (text_eq k j) (has_key k fs) (text_eq_swap j k other) (apart k v pairs fs later)

-- Where the keys are all different, the loop adds the pairs as they are.
pub unique_object_fresh :
    (result pairs : Fields)
    → has_unique_keys (append result pairs) ≡ true
    → unique_object result pairs ≡ returned (append result pairs)
unfolding unique_object
unique_object_fresh result empty h = ap (λ fs. returned fs) (sym (append-empty result))
unique_object_fresh result (field k v pairs) h =
    let fresh = apart k v pairs result h in
    rw fresh (
      ap (λ fs. unique_object fs pairs) (add-snoc result k v fresh)
      ∙ (unique_object_fresh (snoc result k v) pairs
            (ap has_unique_keys (append-snoc result k v pairs) ∙ h)
          ∙ ap (λ fs. returned fs) (append-snoc result k v pairs)))
