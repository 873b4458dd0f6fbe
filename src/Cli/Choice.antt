-- ===== src/Cli/Choice.antt =====
-- The choice among engines of one artifact: the last of a stable sort by the largest batch.
use dfine_cpp.Common.{
  ℕ, ◌≤◌, ◌≡◌, refl, sym, ◌⊎◌, inl, inr, Bool, true, false, List, [], ◌∷◌, any, All, leb, leb→le,
  arith, Bool-cases, if◌then◌else◌,
}
use mathlib.Core.Path.{subst}
use dfine_cpp.Common.Result.{returned}
use dfine_cpp.Publish.{FilePath, same_path}
use dfine_cpp.Builder.Paths.{same_path→eq}
use dfine_cpp.Cli.Cache.{Environment, profile_max}
use dfine_cpp.Cli.Resolve.{Resolution, use_engine, build, insert, sort, last, pick}

abbrev pub Among : FilePath → List FilePath → Type 0
Among p [] = ⊥
Among p (q ∷ qs) = (p ≡ q) ⊎ Among p qs

pub Among-All : (ps : List FilePath) → All (λ (p : FilePath). Among p ps) ps
Among-All ps = from ps (λ q h. h)
  where
    from :
        (qs : List FilePath)
        → ((q : FilePath) → Among q qs → Among q ps)
        → All (λ (p : FilePath). Among p ps) qs
    from [] f = tt
    from (q ∷ qs) f = (f q (inl refl), from qs (λ r h. f r (inr h)))

pub any-Among : (p : FilePath) (ps : List FilePath) → any (same_path p) ps ≡ true → Among p ps
any-Among p [] h = absurd (cc)
any-Among p (q ∷ qs) h = elim (Bool-cases (same_path p q)) [
  | inl e ↦ inl (same_path→eq p q e)
  | inr ne ↦ inr (any-Among p qs (ground arith))
]

pub All-Among :
    (P : FilePath → Type 0) (p : FilePath) (ps : List FilePath) → All P ps → Among p ps → P p
All-Among P p [] h a = absurd a
All-Among P p (q ∷ qs) (h, hs) (inl e) = rw e h
All-Among P p (q ∷ qs) (h, hs) (inr a) = All-Among P p qs hs a

module _ (key : FilePath → ℕ) where
  abbrev IsSorted : List FilePath → Type 0
  IsSorted [] = Unit
  IsSorted (x ∷ ys) = All (λ (y : FilePath). key x ≤ key y) ys × IsSorted ys

  insert-All :
      (P : FilePath → Type 0) (x : FilePath) (ys : List FilePath)
      → P x
      → All P ys
      → All P (insert key x ys)
  unfolding insert
  insert-All P x [] hx h = (hx, tt)
  insert-All P x (y ∷ ys) hx (hy, h) = elim (Bool-cases (leb (key x) (key y))) [
    | inl le ↦ rw le (hx, (hy, h))
    | inr gt ↦ rw gt (hy, insert-All P x ys hx h)
  ]

  All-insert :
      (P : FilePath → Type 0) (x : FilePath) (ys : List FilePath)
      → All P (insert key x ys)
      → P x × All P ys
  unfolding insert
  All-insert P x [] h = (h.0, tt)
  All-insert P x (y ∷ ys) h = by_test (leb (key x) (key y)) (All-insert P x ys) h
    where
      by_test :
          (b : Bool)
          → (All P (insert key x ys) → P x × All P ys)
          → All P (if b then x ∷ y ∷ ys else y ∷ insert key x ys)
          → P x × All P (y ∷ ys)
      by_test true ih k = (k.0, k.1)
      by_test false ih (hy, k) = let (hx, hs) = ih k in (hx, (hy, hs))

  weaken :
      (x y : FilePath) (zs : List FilePath)
      → key x ≤ key y
      → All (λ (z : FilePath). key y ≤ key z) zs
      → All (λ (z : FilePath). key x ≤ key z) zs
  weaken x y [] le h = tt
  weaken x y (z ∷ zs) le (h, hs) = (omega (arith, le, h), weaken x y zs le hs)

  insert-IsSorted : (x : FilePath) (ys : List FilePath) → IsSorted ys → IsSorted (insert key x ys)
  unfolding insert
  insert-IsSorted x [] h = (tt, tt)
  insert-IsSorted x (y ∷ ys) (hy, h) = elim (Bool-cases (leb (key x) (key y))) [
    | inl le ↦ let le' = leb→le (key x) (key y) le in rw le ((le', weaken x y ys le' hy), (hy, h))
    | inr gt ↦ rw gt (
      insert-All (λ (z : FilePath). key y ≤ key z) x ys (ground arith) hy,
      insert-IsSorted x ys h,
    )
  ]

  sort-IsSorted : (xs : List FilePath) → IsSorted (sort key xs)
  unfolding sort
  sort-IsSorted [] = tt
  sort-IsSorted (x ∷ xs) = insert-IsSorted x (sort key xs) (sort-IsSorted xs)

  sort-All : (P : FilePath → Type 0) (xs : List FilePath) → All P xs → All P (sort key xs)
  unfolding sort
  sort-All P [] h = tt
  sort-All P (x ∷ xs) (hx, h) = insert-All P x (sort key xs) hx (sort-All P xs h)

  All-sort : (P : FilePath → Type 0) (xs : List FilePath) → All P (sort key xs) → All P xs
  unfolding sort
  All-sort P [] h = tt
  All-sort P (x ∷ xs) h = let (hx, hs) = All-insert P x (sort key xs) h in (hx, All-sort P xs hs)

  last-All :
      (P : FilePath → Type 0) (x : FilePath) (ys : List FilePath) → All P (x ∷ ys) → P (last x ys)
  last-All P x [] (h, _) = h
  last-All P x (y ∷ ys) (_, h) = last-All P y ys h

  last_max :
      (x : FilePath) (ys : List FilePath)
      → IsSorted (x ∷ ys)
      → All (λ (y : FilePath). key y ≤ key (last x ys)) (x ∷ ys)
  last_max x [] h = (omega arith, tt)
  last_max x (y ∷ ys) (hx, h) =
      (last-All (λ (z : FilePath). key x ≤ key z) x (y ∷ ys) (omega arith, hx), last_max y ys h)

  pub chosen :
      (xs : List FilePath) (p : FilePath) (ps : List FilePath)
      → sort key xs ≡ (p ∷ ps)
      → Among (last p ps) xs × All (λ (e : FilePath). key e ≤ key (last p ps)) xs
  chosen xs p ps e = (
    last-All (λ (q : FilePath). Among q xs) p ps
        (subst (All (λ (q : FilePath). Among q xs)) e
          (sort-All (λ (q : FilePath). Among q xs) xs (Among-All xs))),
    All-sort (λ (q : FilePath). key q ≤ key (last p ps)) xs
        (subst (All (λ (q : FilePath). key q ≤ key (last p ps))) (sym e)
          (last_max p ps (subst IsSorted e (sort-IsSorted xs)))),
  )

  insert_cons :
      (x : FilePath) (ys : List FilePath)
      → (p : FilePath) × (ps : List FilePath) × (insert key x ys ≡ (p ∷ ps))
  unfolding insert
  insert_cons x [] = (x, [], refl)
  insert_cons x (y ∷ ys) = elim (Bool-cases (leb (key x) (key y))) [
    | inl le ↦ (x, y ∷ ys, rw le refl)
    | inr gt ↦ (y, insert key x ys, rw gt refl)
  ]

  -- The sort of a list that is not empty is not empty.
  pub sort_cons :
      (x : FilePath) (xs : List FilePath)
      → (p : FilePath) × (ps : List FilePath) × (sort key (x ∷ xs) ≡ (p ∷ ps))
  unfolding sort
  sort_cons x xs = insert_cons x (sort key xs)

-- What is picked when the profile asked for is not there.
abbrev pub IsPick : Environment → FilePath → FilePath → Bool → List FilePath → Resolution → Type 0
IsPick env onnx cached allow_build others r =
    ((p : FilePath) × (r ≡ use_engine p)
      × Among p others
      × All (λ (e : FilePath). profile_max env e ≤ profile_max env p) others)
    ⊎ ((others ≡ []) × (allow_build ≡ true) × (r ≡ build onnx cached))

pub pick-IsPick :
    (env : Environment) (onnx cached : FilePath) (allow_build : Bool) (others : List FilePath)
    (r : Resolution)
    → pick env onnx cached allow_build others ≡ returned r
    → IsPick env onnx cached allow_build others r
pick-IsPick env onnx cached true [] r h = inr (refl, refl, cc)
pick-IsPick env onnx cached false [] r h = absurd (cc)
pick-IsPick env onnx cached allow_build (e ∷ es) r h =
    let (p, ps, sorted) = sort_cons (profile_max env) e es in
    let k : pick env onnx cached allow_build (e ∷ es) ≡ returned (use_engine (last p ps)) =
      rw (sorted, pick) refl in
    let (among, max) = chosen (profile_max env) (e ∷ es) p ps sorted in
    inl (last p ps, cc, among, max)
