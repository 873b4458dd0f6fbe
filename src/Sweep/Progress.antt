-- ===== src/Sweep/Progress.antt =====
-- How `Runner.guarded` and `Runner.inherit` end under `keep_going`.
use dfine_cpp.Common.{
  ◌≡◌, refl, ap, ◌∙◌, inl, inr, Bool, true, false, some, List, [], ◌∷◌, ◌++◌, Text, text_eq_refl,
  if◌then◌else◌, Option-cases, arith,
}
use dfine_cpp.Common.Result.{Result, returned, failed, system_exit, ◌>>=◌}
use dfine_cpp.Sweep.Runner.{
  Step, Dict, find, is_in, Runner, logged, marked, next_step, inherit, passes, guarded,
}

-- A block that returns a value with a property.
abbrev pub Returns : {A : Type 0} → Result A → (A → Type 0) → Type 0
Returns {A} m P = (a : A) × (m ≡ returned a) × P a

pub Returns-bind :
    {A B : Type 0} (P : A → Type 0) (Q : B → Type 0) (m : Result A) (f : A → Result B)
    → Returns m P
    → ((a : A) → P a → Returns (f a) Q)
    → Returns (m >>= f) Q
Returns-bind P Q m f (a, e, p) k = let (b, e1, q) = k a p in (b, ap (λ x. x >>= f) e ∙ e1, q)

pub Returns-map :
    {A : Type 0} (P Q : A → Type 0) (m : Result A)
    → ((a : A) → P a → Q a)
    → Returns m P
    → Returns m Q
Returns-map P Q m f (a, e, p) = (a, e, f a p)

pub Returns-if :
    {A : Type 0} (P : A → Type 0) (b : Bool) (x y : Result A)
    → (b ≡ true → Returns x P)
    → (b ≡ false → Returns y P)
    → Returns (if b then x else y) P
Returns-if P true x y f g = f refl
Returns-if P false x y f g = g refl

abbrev pub KeepsGoing : Runner → Type 0
KeepsGoing r = r.keep_going ≡ true

module _ {A : Type 0} where
  pub is_in-added :
      (key k : Text) (x : A) (d : Dict A)
      → is_in key d ≡ true
      → is_in key (d ++ ((k, x) ∷ [])) ≡ true
  unfolding find
  is_in-added key k x [] h = cc
  is_in-added key k x ((k', y) ∷ d) h = ground (arith, is_in-added key k x d)

  pub is_in_end : (key : Text) (x : A) (d : Dict A) → is_in key (d ++ ((key, x) ∷ [])) ≡ true
  unfolding find
  is_in_end key x [] = ground (arith, text_eq_refl key)
  is_in_end key x ((k', y) ∷ d) = ground (arith, is_in_end key x d)

  pub find_of : (key : Text) (d : Dict A) → is_in key d ≡ true → (x : A) × (find key d ≡ some x)
  find_of key d h = elim (Option-cases (find key d)) [
    | inl e ↦ absurd (both h (rw (e, is_in) refl))
    | inr (x, e) ↦ (x, e)
  ]
    where
      both : {b : Bool} → b ≡ true → b ≡ false → ⊥
      both a c = cc

module _ (succeeds : Step → Bool) (key label : Text) (argv : List Text) (cached : Bool)
    (r : Runner) where
  pub guarded-Returns :
      KeepsGoing r → Returns (guarded succeeds key label argv cached r) (λ x. KeepsGoing x.1)
  unfolding guarded
  guarded-Returns k = by_tests (is_in key r.failures) (passes succeeds s) r.keep_going k
    where
      s : Step
      s = next_step label argv cached r

      by_tests :
          (known passed keep : Bool)
          → keep ≡ true
          → Returns
              (if known
                then returned (false, r)
                else if passed
                then returned (true, logged s r)
                else if keep
                then returned (false, marked key s (logged s r))
                else failed system_exit)
              (λ (x : Bool × Runner). KeepsGoing x.1)
      by_tests true passed keep e = ((false, r), refl, k)
      by_tests false true keep e = ((true, logged s r), refl, k)
      by_tests false false true e = ((false, marked key s (logged s r)), refl, k)
      by_tests false false false e = absurd (cc)

pub inherit-KeepsGoing :
    (key : Text) (sources : List Text) (r : Runner)
    → KeepsGoing r
    → KeepsGoing (inherit key sources r).1
unfolding inherit
inherit-KeepsGoing key [] r k = k
inherit-KeepsGoing key (s ∷ ss) r k = elim (Option-cases (find s r.failures)) [
  | inl e ↦ rw (e, inherit) (inherit-KeepsGoing key ss r k)
  | inr (x, e) ↦ rw (e, inherit) (once (is_in key r.failures) x)
]
  where
    once : (b : Bool) (x : Step) → KeepsGoing (if b then r else marked key x r)
    once true x = k
    once false x = k
