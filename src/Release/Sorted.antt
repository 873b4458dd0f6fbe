-- ===== src/Release/Sorted.antt =====
-- Lists of names: sorting keeps the set of them and repeats none.
use dfine_cpp.Common.{
  text_eq_swap, ◌≡◌, refl, inl, inr, Bool, true, false, List, [], ◌∷◌, Text, text_eq, text_eq_refl,
  arith, ◌||◌, Bool-cases, All,
}
use dfine_cpp.Json.{is_among}
use dfine_cpp.Release.Names.{within, same_set}
use dfine_cpp.Release.Wheel.{has_repeats}
use dfine_cpp.Release.Assemble.{leb_text, insert_name, sort_names}

is_among_first : (n : Text) (ns : List Text) → is_among n (n ∷ ns) ≡ true
is_among_first n ns = rw (text_eq_refl n) refl

within-tail : (xs ys : List Text) (y : Text) → within xs ys ≡ true → within xs (y ∷ ys) ≡ true
within-tail [] ys y h = refl
within-tail (x ∷ xs) ys y h =
    let rest = within-tail xs ys y (ground arith) in
    let found : is_among x ys ≡ true = ground arith in
    elim (Bool-cases (text_eq x y)) [ inl e ↦ rw (e, rest) refl | inr e ↦ rw (e, found, rest) refl ]

pub within_refl : (xs : List Text) → within xs xs ≡ true
within_refl [] = refl
within_refl (x ∷ xs) = rw (text_eq_refl x, within-tail xs xs x (within_refl xs)) refl

is_among-insert :
    (x n : Text) (ns : List Text) → is_among x (insert_name n ns) ≡ (text_eq x n || is_among x ns)
unfolding insert_name
is_among-insert x n [] = refl
is_among-insert x n (m ∷ ms) = elim (Bool-cases (leb_text n m)) [
  | inl e ↦ rw e refl
  | inr e ↦ rw (e, is_among-insert x n ms) (by_tests (text_eq x m) (text_eq x n) (is_among x ms))
]
  where
    by_tests : (a b c : Bool) → (a || (b || c)) ≡ (b || (a || c))
    by_tests a b c = ground arith

is_among-sort : (x : Text) (ns : List Text) → is_among x (sort_names ns) ≡ is_among x ns
unfolding sort_names
is_among-sort x [] = refl
is_among-sort x (n ∷ ns) = rw (is_among-insert x n (sort_names ns), is_among-sort x ns) refl

pub within-sort : (xs ns : List Text) → within xs ns ≡ true → within xs (sort_names ns) ≡ true
within-sort [] ns h = refl
within-sort (x ∷ xs) ns h =
    let rest = within-sort xs ns (ground arith) in
    let found : is_among x ns ≡ true = ground arith in rw (is_among-sort x ns, found, rest) refl

insert-All :
    (P : Text → Type 0) (n : Text) (ns : List Text) → P n → All P ns → All P (insert_name n ns)
unfolding insert_name
insert-All P n [] h hs = (h, tt)
insert-All P n (m ∷ ms) h (k, ks) = elim (Bool-cases (leb_text n m)) [
  | inl e ↦ rw e (h, (k, ks))
  | inr e ↦ rw e (k, insert-All P n ms h ks)
]

pub sort-All : (P : Text → Type 0) (ns : List Text) → All P ns → All P (sort_names ns)
unfolding sort_names
sort-All P [] h = tt
sort-All P (n ∷ ns) (h, hs) = insert-All P n (sort_names ns) h (sort-All P ns hs)

All-within : (xs ys : List Text) → All (λ x. is_among x ys ≡ true) xs → within xs ys ≡ true
All-within [] ys h = refl
All-within (x ∷ xs) ys (h, hs) = rw (h, All-within xs ys hs) refl

pub within-All : (xs ys : List Text) → within xs ys ≡ true → All (λ x. is_among x ys ≡ true) xs
within-All [] ys h = tt
within-All (x ∷ xs) ys h = (ground arith, within-All xs ys (ground arith))

pub sort-same_set : (ns : List Text) → same_set (sort_names ns) ns ≡ true
sort-same_set ns =
    let members = within-All ns ns (within_refl ns) in
    rw
      (
        All-within (sort_names ns) ns (sort-All (λ x. is_among x ns ≡ true) ns members),
        within-sort ns ns (within_refl ns),
      )
      refl

insert-has_repeats :
    (n : Text) (ns : List Text)
    → is_among n ns ≡ false
    → has_repeats ns ≡ false
    → has_repeats (insert_name n ns) ≡ false
unfolding insert_name has_repeats
insert-has_repeats n [] h k = refl
insert-has_repeats n (m ∷ ms) h k = elim (Bool-cases (leb_text n m)) [
  | inl e ↦ rw (e, h, k) refl
  | inr e ↦
      let apart : text_eq m n ≡ false = text_eq_swap n m (ground arith) in
      let alone : is_among m ms ≡ false = ground arith in
      rw
        (
          e,
          is_among-insert m n ms,
          apart,
          alone,
          insert-has_repeats n ms (ground arith) (ground arith),
        )
        refl
]

pub sort-has_repeats :
    (ns : List Text) → has_repeats ns ≡ false → has_repeats (sort_names ns) ≡ false
unfolding sort_names has_repeats
sort-has_repeats [] h = refl
sort-has_repeats (n ∷ ns) h =
    let alone : is_among n ns ≡ false = ground arith in
    insert-has_repeats n (sort_names ns) (rw (is_among-sort n ns) alone)
      (sort-has_repeats ns (ground arith))
