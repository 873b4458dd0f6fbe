-- ===== src/Common/Result.antt =====
-- Code that returns a value or raises one of the exceptions the scripts end with.
use mathlib.Core.Path.{◌≡◌, refl, subst}
use mathlib.Core.Logic.{◌⊎◌, inl, inr}
use mathlib.Core.Bool.{Bool, true, false}

pub data Error : Type 0 where
  system_exit runtime_error value_error index_error key_error type_error : Error
  overflow_error argument_error os_error : Error

pub data Result {ℓ} (A : Type ℓ) : Type ℓ where
  returned : A → Result A
  failed : Error → Result A

infixl 5 ◌>>=◌ ◌>>◌
abbrev pub ◌>>=◌ {ℓ κ} : {A : Type ℓ} {B : Type κ} → Result A → (A → Result B) → Result B
returned a >>= f = f a
failed e >>= f = failed e

abbrev pub ◌>>◌ {ℓ κ} : {A : Type ℓ} {B : Type κ} → Result A → Result B → Result B
m >> k = m >>= λ _. k

-- `if condition: raise error`
abbrev pub refuse_if : Bool → Error → Result (Unit {0})
refuse_if true e = failed e
refuse_if false e = returned tt

pub Result-cases {ℓ} :
    {A : Type ℓ} (r : Result A) → ((a : A) × (r ≡ returned a)) ⊎ ((e : Error) × (r ≡ failed e))
Result-cases (returned a) = inl (a, refl)
Result-cases (failed e) = inr (e, refl)

-- A block that returns has passed its guard, and each of its parts has returned.
pub refuse_if-returned {ℓ} :
    {A : Type ℓ} (c : Bool) (e : Error) (k : Result A) (a : A)
    → (refuse_if c e >> k) ≡ returned a
    → (c ≡ false) × (k ≡ returned a)
refuse_if-returned true e k a h = cc
refuse_if-returned false e k a h = (refl, h)

pub refuse_if-passes {ℓ} :
    {A : Type ℓ} (c : Bool) (e : Error) (k : Result A) → c ≡ false → (refuse_if c e >> k) ≡ k
refuse_if-passes c e k h = rw h refl

pub bind-returned {ℓ κ} :
    {A : Type ℓ} {B : Type κ} (m : Result A) (f : A → Result B) (b : B)
    → (m >>= f) ≡ returned b
    → (a : A) × (m ≡ returned a) × (f a ≡ returned b)
bind-returned (returned a) f b h = (a, refl, h)
bind-returned (failed e) f b h = cc

pub refuse_if-value {ℓ} :
    {A : Type ℓ} (c : Bool) (e : Error) (x a : A)
    → (refuse_if c e >> returned x) ≡ returned a
    → x ≡ a
refuse_if-value true e x a h = cc
refuse_if-value false e x a h = cc

-- How a computation ends: its value has the one property, its error the other.
abbrev pub Ends {ℓ} : {A : Type ℓ} → (A → Type 0) → (Error → Type 0) → Result A → Type 0
Ends P E (returned a) = P a
Ends P E (failed e) = E e

module _ (E : Error → Type 0) where
  pub Ends-bind {ℓ κ} :
      {A : Type ℓ} {B : Type κ} (P : A → Type 0) (Q : B → Type 0) (m : Result A) (f : A → Result B)
      → Ends P E m
      → ((a : A) → P a → Ends Q E (f a))
      → Ends Q E (m >>= f)
  Ends-bind P Q (returned a) f h k = k a h
  Ends-bind P Q (failed e) f h k = h

  pub Ends-refuse {ℓ} :
      {B : Type ℓ} (Q : B → Type 0) (c : Bool) (e : Error) (k : Result B)
      → E e
      → (c ≡ false → Ends Q E k)
      → Ends Q E (refuse_if c e >> k)
  Ends-refuse Q true e k h p = h
  Ends-refuse Q false e k h p = p refl

  pub Ends-refuse_last : (c : Bool) (e : Error) → E e → Ends (λ _. c ≡ false) E (refuse_if c e)
  Ends-refuse_last true e h = h
  Ends-refuse_last false e h = refl

  pub Ends-returned {ℓ} :
      {A : Type ℓ} (P : A → Type 0) (m : Result A) (a : A) → Ends P E m → m ≡ returned a → P a
  Ends-returned P (returned x) a h e = let same_value : x ≡ a = cc in subst P same_value h
  Ends-returned P (failed x) a h e = cc

  pub Ends-failed {ℓ} :
      {A : Type ℓ} (P : A → Type 0) (m : Result A) (e : Error) → Ends P E m → m ≡ failed e → E e
  Ends-failed P (returned x) e h q = cc
  Ends-failed P (failed x) e h q = let same_error : x ≡ e = cc in subst E same_error h

  pub Ends-weaken {ℓ} :
      {A : Type ℓ} (P Q : A → Type 0) (m : Result A)
      → ((a : A) → P a → Q a)
      → Ends P E m
      → Ends Q E m
  Ends-weaken P Q (returned a) f h = f a h
  Ends-weaken P Q (failed e) f h = h
