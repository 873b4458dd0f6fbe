-- ===== src/Sweep/Chosen.antt =====
-- The engine that `eval_engine_for` chooses among the builds of a unit of evaluation.
use dfine_cpp.Common.{
  ◌≡◌, refl, sym, ◌∙◌, ap, inl, inr, Bool, true, false, some, List, [], ◌∷◌, Text, text_eq,
  if◌then◌else◌, text_eq_iff, ◌≤◌, All, leb, Bool-cases, arith,
}
use mathlib.Core.Path.{subst}
use dfine_cpp.Common.Result.{returned}
use dfine_cpp.Sweep.Point.{Point, eval_key, build_key}
use dfine_cpp.Sweep.Runner.{Step, Dict, find, is_in}
use dfine_cpp.Sweep.Select.{IsMember}
use dfine_cpp.Sweep.Progress.{find_of}
use dfine_cpp.Sweep.Evaluate.{
  is_preferred, rank, candidates_for, insert_point, sort_points, engine_of, first_engine,
  eval_engine_for,
}

-- One build serves no worse than another: it has not failed unless the other has, and of two that
-- have both failed or both not it is the default one if the other is.
abbrev pub IsNoWorse : Dict Step → Point → Point → Type 0
IsNoWorse failures p q =
    (is_in (build_key p) failures ≡ true → is_in (build_key q) failures ≡ true)
    × (is_in (build_key p) failures ≡ is_in (build_key q) failures
        → is_preferred q ≡ true
        → is_preferred p ≡ true)

-- A point of the unit whose build serves no worse than that of any point of the unit.
abbrev pub IsBest : Dict Step → List Point → Text → Point → Type 0
IsBest failures points key p =
    IsMember p points
    × (eval_key p ≡ key)
    × All (λ (q : Point). eval_key q ≡ key → IsNoWorse failures p q) points

rank-IsNoWorse :
    (failures : Dict Step) (p q : Point)
    → rank failures p ≤ rank failures q
    → IsNoWorse failures p q
unfolding rank
rank-IsNoWorse failures p q h = (λ failed. ground arith, λ same default. ground arith)

no_worse :
    (failures : Dict Step) (p : Point) (key : Text) (qs : List Point)
    → All (λ (q : Point). eval_key q ≡ key → rank failures p ≤ rank failures q) qs
    → All (λ (q : Point). eval_key q ≡ key → IsNoWorse failures p q) qs
no_worse failures p key [] h = tt
no_worse failures p key (q ∷ qs) (h, hs) =
    (λ same. rank-IsNoWorse failures p q (h same), no_worse failures p key qs hs)

-- The head of a list is an element of least rank of another.
abbrev IsLeast : Dict Step → List Point → List Point → Type 0
IsLeast failures ps [] = ⊥
IsLeast failures ps (p ∷ _) =
    IsMember p ps × All (λ (q : Point). rank failures p ≤ rank failures q) ps

at_least :
    (failures : Dict Step) (p m : Point) (qs : List Point)
    → rank failures p ≤ rank failures m
    → All (λ (q : Point). rank failures m ≤ rank failures q) qs
    → All (λ (q : Point). rank failures p ≤ rank failures q) qs
at_least failures p m [] h hs = tt
at_least failures p m (q ∷ qs) h (k, ks) = (omega (arith, h, k), at_least failures p m qs h ks)

insert-IsLeast :
    (failures : Dict Step) (p : Point) (qs s : List Point)
    → IsLeast failures qs s
    → IsLeast failures (p ∷ qs) (insert_point failures p s)
unfolding insert_point
insert-IsLeast failures p qs [] h = absurd h
insert-IsLeast failures p qs (m ∷ ms) (here, least) =
    elim (Bool-cases (leb (rank failures p) (rank failures m))) [
      | inl e ↦
          let le : rank failures p ≤ rank failures m = ground arith in
          rw e (inl refl, (omega arith, at_least failures p m qs le least))
      | inr e ↦ rw e (inr here, (ground arith, least))
    ]

sort-IsLeast :
    (failures : Dict Step) (p : Point) (ps : List Point)
    → IsLeast failures (p ∷ ps) (sort_points failures (p ∷ ps))
unfolding sort_points insert_point
sort-IsLeast failures p [] = (inl refl, (omega arith, tt))
sort-IsLeast failures p (q ∷ qs) =
    insert-IsLeast failures p (q ∷ qs) (sort_points failures (q ∷ qs)) (sort-IsLeast failures q qs)

both : {b : Bool} → b ≡ true → b ≡ false → ⊥
both a c = cc

-- The test of a round of `candidates_for`, kept or left out.
abbrev kept : Bool → Point → List Point → List Point
kept b q qs = if b then q ∷ qs else qs

module _ (key : Text) where
  candidates_for-IsMember :
      (p : Point) (ps : List Point)
      → IsMember p (candidates_for key ps)
      → IsMember p ps × (eval_key p ≡ key)
  unfolding candidates_for
  candidates_for-IsMember p [] h = absurd h
  candidates_for-IsMember p (q ∷ ps) h =
      by_test (candidates_for-IsMember p ps) (text_eq (eval_key q) key) refl h
    where
      by_test :
          (IsMember p (candidates_for key ps) → IsMember p ps × (eval_key p ≡ key))
          → (b : Bool) → text_eq (eval_key q) key ≡ b
          → IsMember p (kept b q (candidates_for key ps))
          → IsMember p (q ∷ ps) × (eval_key p ≡ key)
      by_test later true e (inl same) =
          (inl same, ap eval_key same ∙ (text_eq_iff (eval_key q) key).0 e)
      by_test later true e (inr m) = let (there, k) = later m in (inr there, k)
      by_test later false e m = let (there, k) = later m in (inr there, k)

  candidates_for-All :
      (R : Point → Type 0) (ps : List Point)
      → All R (candidates_for key ps)
      → All (λ (q : Point). eval_key q ≡ key → R q) ps
  unfolding candidates_for
  candidates_for-All R [] h = tt
  candidates_for-All R (q ∷ ps) h =
      by_test (candidates_for-All R ps) (text_eq (eval_key q) key) refl h
    where
      by_test :
          (All R (candidates_for key ps) → All (λ (q' : Point). eval_key q' ≡ key → R q') ps)
          → (b : Bool) → text_eq (eval_key q) key ≡ b
          → All R (kept b q (candidates_for key ps))
          → (eval_key q ≡ key → R q) × All (λ (q' : Point). eval_key q' ≡ key → R q') ps
      by_test later true e (r, rs) = (λ _. r, later rs)
      by_test later false e rs =
          (λ same. absurd (both ((text_eq_iff (eval_key q) key).1 same) e), later rs)

  -- Some point is a candidate where the unit is that of a point.
  abbrev HasSome : List Point → Type 0
  HasSome ps = (p : Point) × (qs : List Point) × (ps ≡ (p ∷ qs))

  candidates_for-HasSome :
      (p : Point) (ps : List Point)
      → IsMember p ps
      → eval_key p ≡ key
      → HasSome (candidates_for key ps)
  unfolding candidates_for
  candidates_for-HasSome p [] h k = absurd h
  candidates_for-HasSome p (q ∷ ps) h k =
      by_test (λ m. candidates_for-HasSome p ps m k) (text_eq (eval_key q) key) refl h
    where
      by_test :
          (IsMember p ps → HasSome (candidates_for key ps))
          → (b : Bool) → text_eq (eval_key q) key ≡ b
          → IsMember p (q ∷ ps)
          → HasSome (kept b q (candidates_for key ps))
      by_test later true e m = (q, candidates_for key ps, refl)
      by_test later false e (inr m) = later m
      by_test later false e (inl same) =
          absurd (both ((text_eq_iff (eval_key q) key).1 (ap eval_key (sym same) ∙ k)) e)

-- Where every build of the points has an engine, the accuracy of a point is measured on the engine
-- of a point of the same unit of evaluation whose build has not failed if some build of the unit
-- has not, and that is of the default profile without a graph if one of those is.
pub eval_engine_for-IsBest :
    (points : List Point) (target : Point) (engines : Dict Text) (failures : Dict Step)
    → IsMember target points
    → All (λ (p : Point). is_in (build_key p) engines ≡ true) points
    → (p : Point) × (engine : Text) × (eval_engine_for points target engines failures
        ≡ returned (engine, build_key p))
      × (find (build_key p) engines ≡ some engine)
      × IsBest failures points (eval_key target) p
unfolding eval_engine_for
eval_engine_for-IsBest points target engines failures m built =
    let (q, qs, e) = candidates_for-HasSome (eval_key target) target points m refl in
    let least : IsLeast failures cs (sort_points failures cs) =
      subst (λ (xs : List Point). IsLeast failures xs (sort_points failures xs)) (sym e)
        (sort-IsLeast failures q qs) in
    of_sorted (sort_points failures cs) least
  where
    cs : List Point
    cs = candidates_for (eval_key target) points

    of_member :
        (p : Point) (ps : List Point)
        → IsMember p ps
        → All (λ (p : Point). is_in (build_key p) engines ≡ true) ps
        → is_in (build_key p) engines ≡ true
    of_member p [] h hs = absurd h
    of_member p (q ∷ ps) (inl same) (b, bs) =
        ap (λ (x : Point). is_in (build_key x) engines) same ∙ b
    of_member p (q ∷ ps) (inr h) (b, bs) = of_member p ps h bs

    of_sorted :
        (s : List Point)
        → IsLeast failures cs s
        → (p : Point) × (engine : Text) × (first_engine engines s ≡ returned (engine, build_key p))
          × (find (build_key p) engines ≡ some engine)
          × IsBest failures points (eval_key target) p
    of_sorted [] h = absurd h
    of_sorted (p ∷ s) (here, least) =
        let (there, k) = candidates_for-IsMember (eval_key target) p points here in
        let (engine, found) = find_of (build_key p) engines (of_member p points there built) in
        (
          p,
          engine,
          ap (λ o. engine_of p o) found,
          found,
          (
            there,
            k,
            no_worse failures p (eval_key target) points (
                candidates_for-All (eval_key target)
                  (λ (q : Point). rank failures p ≤ rank failures q) points least),
          ),
        )
