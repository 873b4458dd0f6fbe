-- ===== src/Publish/Rules.antt =====
-- Rules for the combinators of the file system monad: a relation between worlds that composes
-- holds over a block when it holds over each of its parts.
use dfine_cpp.Common.{◌≡◌, ◌≢◌, refl, ◌⊎◌, inl, inr}
use dfine_cpp.Publish.System.{
  M, World, Outcome, ok, raised, Exn, ◌>>=◌, ◌>>◌, raise, catch, finally, on_error,
}

pub Outcome-cases :
    {A : Type 0} (r : Outcome A) → ((a : A) × (r ≡ ok a)) ⊎ ((e : Exn) × (r ≡ raised e))
Outcome-cases (ok a) = inl (a, refl)
Outcome-cases (raised e) = inr (e, refl)

pub record IsComposable (R : World → World → Type 0) : Type 0 where
  pub same : (w : World) → R w w
  pub next : (u v w : World) → R u v → R v w → R u w

-- A block moves the world along the relation, from every world.
abbrev pub Along : (World → World → Type 0) → {A : Type 0} → M A → Type 0
Along R m = (w : World) → R w (m w).1

module _ {R : World → World → Type 0} (c : IsComposable R) where
  module _ {A B : Type 0} (m : M A) (f : A → M B) (w : World) where
    pub bind-rel : R w (m w).1 → ((a : A) → Along R (f a)) → R w ((m >>= f) w).1
    bind-rel p q = elim (Outcome-cases (m w).0) [
      | inl (a, e) ↦ rw (e, ◌>>=◌) (c.next w (m w).1 _ p (q a (m w).1))
      | inr (_, e) ↦ rw (e, ◌>>=◌) p
    ]

  module _ {A : Type 0} (m : M A) (w : World) where
    pub catch-rel :
        (h : Exn → M A) → R w (m w).1 → ((e : Exn) → Along R (h e)) → R w (catch m h w).1
    catch-rel h p q = elim (Outcome-cases (m w).0) [
      | inl (a, e) ↦ rw (e, catch) p
      | inr (x, e) ↦ rw (e, catch) (c.next w (m w).1 _ p (q x (m w).1))
    ]

    pub finally-rel : (h : M (Unit {0})) → R w (m w).1 → Along R h → R w (finally m h w).1
    finally-rel h p q = elim (Outcome-cases (h (m w).1).0) [
      | inl (a, e) ↦ rw (e, finally) (c.next w (m w).1 _ p (q (m w).1))
      | inr (x, e) ↦ rw (e, finally) (c.next w (m w).1 _ p (q (m w).1))
    ]

    pub on_error-rel : (h : M (Unit {0})) → R w (m w).1 → Along R h → R w (on_error m h w).1
    on_error-rel h p q =
        catch-rel (λ e. h >> raise e) p λ e v. bind-rel h (λ _. raise e) v (q v) (λ _ u. c.same u)

-- A block that returns has returned from each of its parts.
pub bind-ok :
    {A B : Type 0} (m : M A) (f : A → M B) (w : World) (b : B)
    → ((m >>= f) w).0 ≡ ok b
    → (a : A) × ((m w).0 ≡ ok a) × ((m >>= f) w ≡ f a (m w).1)
bind-ok {A} {B} m f w b h = by_outcome (m w) h
  where
    by_outcome :
        (x : Outcome A × World)
        → (((λ (_ : World). x) >>= f) w).0 ≡ ok b
        → (a : A) × (x.0 ≡ ok a) × (((λ (_ : World). x) >>= f) w ≡ f a x.1)
    by_outcome (ok a, v) k = (a, refl, refl)
    by_outcome (raised e, v) k = cc

pub on_error-ok :
    {A : Type 0} (m : M A) (h : M (Unit {0})) (w : World) (a : A)
    → (on_error m h w).0 ≡ ok a
    → ((m w).0 ≡ ok a) × (on_error m h w ≡ m w)
on_error-ok {A} m h w a k = by_outcome (m w) k
  where
    handled :
        (e : Exn) (y : Outcome (Unit {0}) × World)
        → (((λ (_ : World). y) >> raise {A = A} e) w).0 ≢ ok a
    handled e (ok _, v) l = cc
    handled e (raised e', v) l = cc

    by_outcome :
        (x : Outcome A × World)
        → (on_error (λ (_ : World). x) h w).0 ≡ ok a
        → (x.0 ≡ ok a) × (on_error (λ (_ : World). x) h w ≡ x)
    by_outcome (ok b, v) l = (l, refl)
    by_outcome (raised e, v) l = absurd (handled e (h v) l)
