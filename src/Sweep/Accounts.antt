-- ===== src/Sweep/Accounts.antt =====
-- `Runner.guarded` and `Runner.inherit`: what becomes of a unit.
use dfine_cpp.Common.{
  ◌≡◌, refl, ◌⊎◌, inl, inr, Bool, true, false, Option, none, some, List, [], ◌∷◌, ◌++◌, Text,
  if◌then◌else◌, arith, text_eq_refl,
}
use mathlib.Core.Path.{subst}
use dfine_cpp.Common.Result.{returned, failed, system_exit}
use dfine_cpp.Sweep.Runner.{
  Step, Dict, find, is_in, Runner, logged, marked, next_step, marked_once, inherit, passes, guarded,
}

abbrev pub Occurs : Step → List Step → Type 0
Occurs s [] = ⊥
Occurs s (t ∷ ts) = (s ≡ t) ⊎ Occurs s ts

-- A later state: what failed has failed, and what was logged stays.
pub record Later (r r' : Runner) : Type 0 where
  pub failures_kept : (key : Text) → is_in key r.failures ≡ true → is_in key r'.failures ≡ true
  pub log_kept : (s : Step) → Occurs s r.log → Occurs s r'.log

pub Later-refl : (r : Runner) → Later r r
Later-refl r = record { failures_kept = λ _ h. h; log_kept = λ _ h. h }

pub Later-trans : {q r s : Runner} → Later q r → Later r s → Later q s
Later-trans a b = record {
  failures_kept = λ k h. b.failures_kept k (a.failures_kept k h);
  log_kept = λ s h. b.log_kept s (a.log_kept s h);
}

Occurs-append : (s : Step) (ts us : List Step) → Occurs s ts → Occurs s (ts ++ us)
Occurs-append s [] us h = absurd h
Occurs-append s (t ∷ ts) us (inl e) = inl e
Occurs-append s (t ∷ ts) us (inr h) = inr (Occurs-append s ts us h)

Occurs-last : (s : Step) (ts : List Step) → Occurs s (ts ++ (s ∷ []))
Occurs-last s [] = inl refl
Occurs-last s (t ∷ ts) = inr (Occurs-last s ts)

is_in-append :
    (key k : Text) (x : Step) (d : Dict Step)
    → is_in key d ≡ true
    → is_in key (d ++ ((k, x) ∷ [])) ≡ true
unfolding find
is_in-append key k x [] h = cc
is_in-append key k x ((k', y) ∷ d) h = ground (arith, is_in-append key k x d)

is_in_last : (key : Text) (x : Step) (d : Dict Step) → is_in key (d ++ ((key, x) ∷ [])) ≡ true
unfolding find
is_in_last key x [] = ground (arith, text_eq_refl key)
is_in_last key x ((k', y) ∷ d) = ground (arith, is_in_last key x d)

logged-Later : (s : Step) (r : Runner) → Later r (logged s r)
logged-Later s r = record {
  failures_kept = λ _ h. h;
  log_kept = λ t h. Occurs-append t r.log (s ∷ []) h;
}

marked-Later : (key : Text) (s : Step) (r : Runner) → Later r (marked key s r)
marked-Later key s r = record {
  failures_kept = λ k h. is_in-append k key s r.failures h;
  log_kept = λ _ h. h;
}

-- A unit is accounted for by its failure or by a step in the log that passed.
abbrev pub IsAccounted : (Step → Bool) → Runner → Text → Text → Type 0
IsAccounted succeeds r key label =
    (is_in key r.failures ≡ true)
    ⊎ ((s : Step) × Occurs s r.log × (s.label ≡ label) × (passes succeeds s ≡ true))

pub IsAccounted-Later :
    (succeeds : Step → Bool) (r r' : Runner) (key label : Text)
    → Later r r'
    → IsAccounted succeeds r key label
    → IsAccounted succeeds r' key label
IsAccounted-Later succeeds r r' key label l (inl h) = inl (l.failures_kept key h)
IsAccounted-Later succeeds r r' key label l (inr (s, o, e, h)) = inr (s, l.log_kept s o, e, h)

-- What a call of `guarded` has done when it returns.
abbrev pub IsGuarded : (Step → Bool) → Text → Text → Runner → Bool × Runner → Type 0
IsGuarded succeeds key label r (b, r') = Later r r' × IsAccounted succeeds r' key label

-- A unit that is run is accounted for: it has failed, or a step of its label is in the log and was
-- reused or succeeded. Earlier failures and log entries stay.
pub guarded-IsGuarded :
    (succeeds : Step → Bool) (key label : Text) (argv : List Text) (cached : Bool) (r : Runner)
    (x : Bool × Runner)
    → guarded succeeds key label argv cached r ≡ returned x
    → IsGuarded succeeds key label r x
unfolding guarded
guarded-IsGuarded succeeds key label argv cached r x h =
    by_tests (is_in key r.failures) (passes succeeds s) r.keep_going refl refl h
  where
    s : Step
    s = next_step label argv cached r

    by_tests :
        (known ok keep : Bool)
        → is_in key r.failures ≡ known
        → passes succeeds s ≡ ok
        → (if known
            then returned (false, r)
            else if ok
            then returned (true, logged s r)
            else if keep
            then returned (false, marked key s (logged s r))
            else failed system_exit)
          ≡ returned x
        → IsGuarded succeeds key label r x
    by_tests true ok keep e1 e2 k =
        let e : (false, r) ≡ x = cc in
        subst (IsGuarded succeeds key label r) e (Later-refl r, inl e1)
    by_tests false true keep e1 e2 k =
        let e : (true, logged s r) ≡ x = cc in
        subst (IsGuarded succeeds key label r) e
          (logged-Later s r, inr (s, Occurs-last s r.log, refl, e2))
    by_tests false false true e1 e2 k =
        let e : (false, marked key s (logged s r)) ≡ x = cc in
        subst (IsGuarded succeeds key label r) e (
          Later-trans (logged-Later s r) (marked-Later key s (logged s r)),
          inl (is_in_last key s r.failures),
        )
    by_tests false false false e1 e2 k = absurd (cc)

-- What `inherit` has done: nothing if no unit upstream has failed, and otherwise the key has.
abbrev pub IsInherited : Text → Text → Runner → Bool × Runner → Type 0
IsInherited key source r (true, r') = Later r r' × (is_in key r'.failures ≡ true) × (r'.log ≡ r.log)
IsInherited key source r (false, r') = (r' ≡ r) × (is_in source r.failures ≡ false)

pub inherit-IsInherited :
    (key source : Text) (r : Runner) → IsInherited key source r (inherit key (source ∷ []) r)
unfolding inherit
inherit-IsInherited key source r = by_source (find source r.failures) refl
  where
    once :
        (s : Step)
        → (b : Bool) → is_in key r.failures ≡ b
        → Later r (if b then r else marked key s r)
          × (is_in key (if b then r else marked key s r).failures ≡ true)
          × ((if b then r else marked key s r).log ≡ r.log)
    once s true e = (Later-refl r, e, refl)
    once s false e = (marked-Later key s r, is_in_last key s r.failures, refl)

    by_source :
        (f : Option Step)
        → find source r.failures ≡ f
        → IsInherited key source r
            (elim f [ some s ↦ (true, marked_once key s r) | none ↦ (false, r) ])
    by_source none e = (refl, rw (e, is_in) refl)
    by_source (some s) e = once s (is_in key r.failures) refl
