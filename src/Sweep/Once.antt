-- ===== src/Sweep/Once.antt =====
-- The steps that `run_builds` adds to the log.
use dfine_cpp.Common.{
  ◌≡◌, ◌≢◌, refl, sym, ap, ◌∙◌, ◌⊎◌, inl, inr, Bool, true, false, Option, none, some, List, [], ◌∷◌,
  ◌++◌, Text, codes, if◌then◌else◌, if_true, if_false, Bool-cases, arith, text_eq_refl, All,
}
use mathlib.Core.Path.{subst}
use dfine_cpp.Common.Result.{returned, failed, system_exit, ◌>>=◌, bind-returned}
use dfine_cpp.Sweep.Point.{Point, eval_key, build_key}
use dfine_cpp.Sweep.Runner.{
  Step, Dict, find, is_in, Runner, logged, marked, next_step, passes, inherit, guarded,
}
use dfine_cpp.Sweep.Build.{Environment, build_or_skip, build_from, run_builds}
use dfine_cpp.Sweep.Accounts.{IsInherited, inherit-IsInherited}

append_nil : (s : List Step) → (s ++ []) ≡ s
append_nil [] = refl
append_nil (c ∷ s) = ap (λ t. c ∷ t) (append_nil s)

append_assoc : (s t u : List Step) → ((s ++ t) ++ u) ≡ (s ++ (t ++ u))
append_assoc [] t u = refl
append_assoc (c ∷ s) t u = ap (λ r. c ∷ r) (append_assoc s t u)

cancel : (s t u : Text) → (s ++ t) ≡ (s ++ u) → t ≡ u
cancel [] t u e = e
cancel (c ∷ s) t u e = cancel s t u (cc)

-- The steps that were added to the log: none, or one of the label.
abbrev Added : Text → Runner → Runner → Type 0
Added label r r' =
    (r'.log ≡ r.log) ⊎ ((s : Step) × (r'.log ≡ (r.log ++ (s ∷ []))) × (s.label ≡ label))

guarded-Added :
    (succeeds : Step → Bool) (key label : Text) (argv : List Text) (cached : Bool) (r : Runner)
    (x : Bool × Runner)
    → guarded succeeds key label argv cached r ≡ returned x
    → Added label r x.1
unfolding guarded
guarded-Added succeeds key label argv cached r x h =
    by_tests (is_in key r.failures) (passes succeeds s) r.keep_going h
  where
    s : Step
    s = next_step label argv cached r

    by_tests :
        (known ok keep : Bool)
        → (if known
            then returned (false, r)
            else if ok
            then returned (true, logged s r)
            else if keep
            then returned (false, marked key s (logged s r))
            else failed system_exit)
          ≡ returned x
        → Added label r x.1
    by_tests true ok keep k =
        let e : (false, r) ≡ x = cc in subst (λ y. Added label r y.1) e (inl refl)
    by_tests false true keep k =
        let e : (true, logged s r) ≡ x = cc in
        subst (λ y. Added label r y.1) e (inr (s, refl, refl))
    by_tests false false true k =
        let e : (false, marked key s (logged s r)) ≡ x = cc in
        subst (λ y. Added label r y.1) e (inr (s, refl, refl))
    by_tests false false false k = absurd (cc)

abbrev pub AreOnce : List Step → Type 0
AreOnce [] = Unit
AreOnce (s ∷ ss) = All (λ (t : Step). s.label ≢ t.label) ss × AreOnce ss

-- The steps are builds of keys that are not among the engines.
abbrev AreNewBuilds : Dict Text → List Step → Type 0
AreNewBuilds engines ss =
    All (λ (s : Step). (k : Text) × (s.label ≡ (codes "build." ++ k)) × (is_in k engines ≡ false))
      ss

not_in_added :
    (k key path : Text) (d : Dict Text)
    → is_in k (d ++ ((key, path) ∷ [])) ≡ false
    → (is_in k d ≡ false) × (k ≢ key)
unfolding find
not_in_added k key path [] h = (refl, λ e. absurd (ground (arith, e, text_eq_refl key)))
not_in_added k key path ((k', x) ∷ d) h =
    let rest = not_in_added k key path d (ground arith) in (ground (arith, rest.0), rest.1)

still_new :
    (key path : Text) (engines : Dict Text) (ss : List Step)
    → AreNewBuilds (engines ++ ((key, path) ∷ [])) ss
    → AreNewBuilds engines ss
still_new key path engines [] h = tt
still_new key path engines (s ∷ ss) ((k, e, n), h) =
    ((k, e, (not_in_added k key path engines n).0), still_new key path engines ss h)

IsApart-from :
    (key path : Text) (engines : Dict Text) (s : Step) (ss : List Step)
    → s.label ≡ (codes "build." ++ key)
    → AreNewBuilds (engines ++ ((key, path) ∷ [])) ss
    → All (λ (t : Step). s.label ≢ t.label) ss
IsApart-from key path engines s [] l h = tt
IsApart-from key path engines s (t ∷ ss) l ((k, e, n), h) = (
  (λ same.
      (not_in_added k key path engines n).1
        (cancel (codes "build.") k key (sym e ∙ (sym same ∙ l)))),
  IsApart-from key path engines s ss l h,
)

module _ (env : Environment) where
  or_skip-Added :
      (p : Point) (onnx : Text) (r : Runner) (x : Bool × Runner) (r' : Runner)
      → IsInherited (build_key p) (eval_key p) r x
      → build_or_skip env p onnx r x ≡ returned r'
      → Added (codes "build." ++ build_key p) r r'
  or_skip-Added p onnx r (true, v) r' (_, _, same) h =
      let e : v ≡ r' = cc in subst (Added (codes "build." ++ build_key p) r) e (inl same)
  or_skip-Added p onnx r (false, v) r' (e, _) h =
      let (x, g, h1) =
        bind-returned (guarded env.succeeds (build_key p) (codes "build." ++ build_key p) _ _ v) _
          r' h in
      let a = guarded-Added env.succeeds (build_key p) (codes "build." ++ build_key p) _ _ v x g in
      let e1 : x.1 ≡ r' = cc in
      subst (Added (codes "build." ++ build_key p) r) e1
        (subst (λ u. Added (codes "build." ++ build_key p) u x.1) e a)

  build_from-Added :
      (p : Point) (o : Option Text) (r r' : Runner)
      → build_from env p o r ≡ returned r'
      → Added (codes "build." ++ build_key p) r r'
  build_from-Added p none r r' h = absurd (cc)
  build_from-Added p (some onnx) r r' h =
      or_skip-Added p onnx r (inherit (build_key p) (eval_key p ∷ []) r) r'
        (inherit-IsInherited (build_key p) (eval_key p) r) h

  abbrev Extends : Dict Text → Runner → Runner → Type 0
  Extends engines r r' =
      (new : List Step) × (r'.log ≡ (r.log ++ new)) × AreNewBuilds engines new × AreOnce new

  extend :
      (key path : Text) (engines : Dict Text) (q r s : Runner)
      → is_in key engines ≡ false
      → Added (codes "build." ++ key) q r
      → Extends (engines ++ ((key, path) ∷ [])) r s
      → Extends engines q s
  extend key path engines q r s n (inl same) (new, e, b, once) =
      (new, e ∙ ap (λ l. l ++ new) same, still_new key path engines new b, once)
  extend key path engines q r s n (inr (t, e1, l)) (new, e, b, once) = (
    t ∷ new,
    e ∙ (ap (λ l. l ++ new) e1 ∙ append_assoc q.log (t ∷ []) new),
    ((key, l, n), still_new key path engines new b),
    (IsApart-from key path engines t new l b, once),
  )

  from_engines :
      (ps : List Point) (artifacts engines : Dict Text) (r : Runner) (x : Dict Text × Runner)
      → run_builds env ps artifacts engines r ≡ returned x
      → Extends engines r x.1
  unfolding run_builds
  from_engines [] artifacts engines r x h =
      let e : (engines, r) ≡ x = cc in
      subst (λ (y : Dict Text × Runner). Extends engines r y.1) e
        ([], sym (append_nil r.log), tt, tt)
  from_engines (p ∷ ps) artifacts engines r x h = elim (Bool-cases (is_in (build_key p) engines)) [
    | inl known ↦
        from_engines ps artifacts engines r x (if_true (is_in (build_key p) engines) _ _ _ known h)
    | inr new ↦
        let engines' = engines ++ ((build_key p, env.engine_path (build_key p)) ∷ []) in
        let k : (build_from env p (find (eval_key p) artifacts) r
              >>= run_builds env ps artifacts engines')
            ≡ returned x =
          if_false (is_in (build_key p) engines) _ _ _ new h in
        let (r1, b, k1) = bind-returned (build_from env p (find (eval_key p) artifacts) r) _ x k in
        extend (build_key p) (env.engine_path (build_key p)) engines r r1 x.1 new
          (build_from-Added p (find (eval_key p) artifacts) r r1 b)
          (from_engines ps artifacts engines' r1 x k1)
  ]

  -- The builds of a list of points only add to the log, and add no two steps of one label: points
  -- that share a build key share one build.
  pub run_builds-AreOnce :
      (ps : List Point) (artifacts : Dict Text) (r : Runner) (engines : Dict Text) (r' : Runner)
      → run_builds env ps artifacts [] r ≡ returned (engines, r')
      → (new : List Step) × (r'.log ≡ (r.log ++ new)) × AreOnce new
  run_builds-AreOnce ps artifacts r engines r' h =
      let (new, e, _, once) = from_engines ps artifacts [] r (engines, r') h in (new, e, once)
