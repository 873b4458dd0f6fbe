-- ===== src/Publish/Commit.antt =====
-- The replacements of `_publish_pair`: the outputs that are changed and the other names touched.
use dfine_cpp.Common.{
  ◌≡◌, refl, sym, ap, ◌∙◌, inl, inr, false, List, [], ◌∷◌, Text, text_eq, arith, All,
}
use mathlib.Core.Path.{subst}
use dfine_cpp.Publish.{run_changes}
use dfine_cpp.Publish.System.{M, World, ok, raised, Exn}
use dfine_cpp.Publish.Rules.{Along, Outcome-cases}
use dfine_cpp.Publish.Effects.{Kept, Kept-refl, Kept-trans}
use dfine_cpp.Publish.Restoring.{has, text_eq_comm, or_false}

abbrev pub AreDistinct : List Text → Type 0
AreDistinct [] = Unit
AreDistinct (p ∷ ps) = (has p ps ≡ false) × AreDistinct ps

abbrev pub Steps : Type 0
Steps = List (Text × M (Unit {0}))

abbrev pub outputs_of : Steps → List Text
outputs_of [] = []
outputs_of ((p, _) ∷ ss) = p ∷ outputs_of ss

-- A step changes its output and names among `staged`.
abbrev pub IsLocal : List Text → Text × M (Unit {0}) → Type 0
IsLocal staged (p, act) =
    (w : World) (n : Text)
    → has n staged ≡ false
    → text_eq p n ≡ false
    → (act w).1.entry n ≡ w.entry n

module _ (p : Text) (act : M (Unit {0})) (ss : Steps) (changed : List Text) (w : World) where
  run_changes_ok :
      (u : Unit {0})
      → (act w).0 ≡ ok u
      → run_changes ((p, act) ∷ ss) changed w ≡ run_changes ss (p ∷ changed) (act w).1
  unfolding run_changes
  run_changes_ok u e = ground arith

  run_changes_raised :
      (x : Exn)
      → (act w).0 ≡ raised x
      → run_changes ((p, act) ∷ ss) changed w ≡ (raised x, p ∷ changed, (act w).1)
  unfolding run_changes
  run_changes_raised x e = ground arith

-- A run that ends well went through its first step.
module _ (p : Text) (act : M (Unit {0})) (ss : Steps) (changed : List Text) (w : World) where
  pub run_changes-inversion :
      (run_changes ((p, act) ∷ ss) changed w).0 ≡ ok tt
      → ((act w).0 ≡ ok tt)
        × (run_changes ((p, act) ∷ ss) changed w ≡ run_changes ss (p ∷ changed) (act w).1)
  run_changes-inversion h = elim (Outcome-cases (act w).0) [
    | inl (u, e) ↦ (e, run_changes_ok p act ss changed w u e)
    | inr (x, e) ↦ absurd (cc (h, ap (λ r. r.0) (run_changes_raised p act ss changed w x e)))
  ]

-- What holds after the last step, or after the step that failed, if each step keeps it up.
run_changes-induction :
    (I : Steps → List Text → World → Type 0) (Q : List Text → World → Type 0)
    → ((p : Text) (act : M (Unit {0})) (ss : Steps) (cs : List Text) (w : World)
        → I ((p, act) ∷ ss) cs w
        → I ss (p ∷ cs) (act w).1)
    → ((ss : Steps) (cs : List Text) (w : World) → I ss cs w → Q cs w)
    → (ss : Steps) (cs : List Text) (w : World) → I ss cs w
    → let (_, changed, v) = run_changes ss cs w in Q changed v
unfolding run_changes
run_changes-induction I Q step done [] cs w h = done [] cs w h
run_changes-induction I Q step done ((p, act) ∷ ss) cs w h = elim (Outcome-cases (act w).0) [
  | inl (u, e) ↦
      subst (λ x. Q x.1 x.2) (sym (run_changes_ok p act ss cs w u e))
        (run_changes-induction I Q step done ss (p ∷ cs) (act w).1 (step p act ss cs w h))
  | inr (x, e) ↦
      subst (λ x. Q x.1 x.2) (sym (run_changes_raised p act ss cs w x e))
        (done ss (p ∷ cs) (act w).1 (step p act ss cs w h))
]

module _ (staged : List Text) (w : World) where
  -- A name that is not staged and not among the changed outputs has its entry of `w`.
  abbrev pub KeepsOthers : List Text → World → Type 0
  KeepsOthers cs v = (n : Text) → has n staged ≡ false → has n cs ≡ false → v.entry n ≡ w.entry n

  pub run_changes-others :
      (ss : Steps)
      → All (IsLocal staged) ss
      → let (_, changed, v) = run_changes ss [] w in KeepsOthers changed v
  run_changes-others ss local =
      run_changes-induction (λ ss' cs v. All (IsLocal staged) ss' × KeepsOthers cs v) KeepsOthers
        (λ p act ss' cs v (l, k). (
          l.1,
          λ n ns nc.
              let (n_p, n_cs) = or_false nc in l.0 v n ns (text_eq_comm n p n_p) ∙ k n ns n_cs,
        ))
        (λ ss' cs v h. h.1) ss [] w (local, λ n _ _. refl)

pub run_changes-All :
    (P : Text → Type 0) (ss : Steps) (w : World)
    → All P (outputs_of ss)
    → All P (run_changes ss [] w).1
run_changes-All P ss w h =
    run_changes-induction (λ ss' cs _. All P (outputs_of ss') × All P cs) (λ cs _. All P cs)
      (λ p act ss' cs v (l, k). (l.1, (l.0, k))) (λ ss' cs v h'. h'.1) ss [] w (h, tt)

pub run_changes-Kept :
    (ss : Steps) (w : World)
    → All (λ (s : Text × M (Unit {0})). Along Kept s.1) ss
    → Kept w (run_changes ss [] w).2
run_changes-Kept ss w h =
    run_changes-induction
      (λ ss' _ v. All (λ (s : Text × M (Unit {0})). Along Kept s.1) ss' × Kept w v)
      (λ _ v. Kept w v) (λ p act ss' cs v (l, k). (l.1, Kept-trans k (l.0 v))) (λ ss' cs v h'. h'.1)
      ss [] w (h, Kept-refl w)

-- No remaining output is among the changed ones.
abbrev AreNew : List Text → List Text → Type 0
AreNew ps cs = All (λ (p : Text). has p cs ≡ false) ps

new_cons : (p : Text) (ps cs : List Text) → has p ps ≡ false → AreNew ps cs → AreNew ps (p ∷ cs)
new_cons p [] cs h new = tt
new_cons p (q ∷ ps) cs h (n, new) =
    (ground (arith, text_eq_comm p q (or_false h).0), new_cons p ps cs (or_false h).1 new)

new_nil : (ps : List Text) → AreNew ps []
new_nil [] = tt
new_nil (p ∷ ps) = (refl, new_nil ps)

pub run_changes-AreDistinct :
    (ss : Steps) (w : World) → AreDistinct (outputs_of ss) → AreDistinct (run_changes ss [] w).1
run_changes-AreDistinct ss w d =
    run_changes-induction
      (λ ss' cs _. AreDistinct (outputs_of ss') × AreNew (outputs_of ss') cs × AreDistinct cs)
      (λ cs _. AreDistinct cs)
      (λ p act ss' cs v (d', new, dc).
        (d'.1, new_cons p (outputs_of ss') cs d'.0 new.1, (new.0, dc)))
      (λ ss' cs v h. h.2) ss [] w (d, new_nil (outputs_of ss), tt)
