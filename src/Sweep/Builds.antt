-- ===== src/Sweep/Builds.antt =====
-- `run_builds` on a list of points: what becomes of each build.
use dfine_cpp.Common.{
  ◌≡◌, sym, ◌⊎◌, inl, inr, Bool, true, false, Option, none, some, List, [], ◌∷◌, ◌++◌, Text,
  text_eq, codes, if_true, if_false, Bool-cases, arith, text_eq_iff, All,
}
use mathlib.Core.Path.{subst}
use dfine_cpp.Common.Result.{returned, ◌>>=◌, bind-returned}
use dfine_cpp.Sweep.Point.{Point, eval_key, build_key}
use dfine_cpp.Sweep.Runner.{Dict, find, is_in, Runner, inherit, guarded}
use dfine_cpp.Sweep.Build.{Environment, build_or_skip, build_point, build_from, run_builds}
use dfine_cpp.Sweep.Accounts.{
  Later, Later-refl, Later-trans, IsAccounted, IsAccounted-Later, guarded-IsGuarded, IsInherited,
  inherit-IsInherited,
}

is_in_added :
    (k key path : Text) (d : Dict Text)
    → is_in k (d ++ ((key, path) ∷ [])) ≡ true
    → (is_in k d ≡ true) ⊎ (k ≡ key)
unfolding find
is_in_added k key path [] h = inr ((text_eq_iff k key).0 (ground arith))
is_in_added k key path ((k', x) ∷ d) h = elim (Bool-cases (text_eq k k')) [
  | inl e ↦ inl (ground arith)
  | inr ne ↦ elim (is_in_added k key path d (ground arith)) [
    | inl e ↦ inl (ground arith)
    | inr e ↦ inr e
  ]
]

module _ (env : Environment) where
  abbrev IsBuilt : Runner → Text → Type 0
  IsBuilt r key = IsAccounted env.succeeds r key (codes "build." ++ key)

  or_skip_lem :
      (p : Point) (onnx : Text) (r : Runner) (x : Bool × Runner) (r' : Runner)
      → IsInherited (build_key p) (eval_key p) r x
      → build_or_skip env p onnx r x ≡ returned r'
      → Later r r' × IsBuilt r' (build_key p)
  or_skip_lem p onnx r (true, v) r' (l, f, _) h =
      let e : v ≡ r' = cc in subst (λ u. Later r u × IsBuilt u (build_key p)) e (l, inl f)
  or_skip_lem p onnx r (false, v) r' (e, _) h =
      let (x, g, h1) =
        bind-returned (guarded env.succeeds (build_key p) (codes "build." ++ build_key p) _ _ v) _
          r' h in
      let (l, a) =
        guarded-IsGuarded env.succeeds (build_key p) (codes "build." ++ build_key p) _ _ v x g in
      let e1 : x.1 ≡ r' = cc in
      subst (λ u. Later r u × IsBuilt u (build_key p)) e1 (subst (λ u. Later u x.1) e l, a)

  build_from_lem :
      (p : Point) (o : Option Text) (r r' : Runner)
      → build_from env p o r ≡ returned r'
      → Later r r' × IsBuilt r' (build_key p)
  build_from_lem p none r r' h = absurd (cc)
  build_from_lem p (some onnx) r r' h =
      or_skip_lem p onnx r (inherit (build_key p) (eval_key p ∷ []) r) r'
        (inherit-IsInherited (build_key p) (eval_key p) r) h

  -- A build whose source has failed is not run: the log stays, and the build has failed too.
  pub build_point_inherits :
      (p : Point) (onnx : Text) (r r' : Runner)
      → is_in (eval_key p) r.failures ≡ true
      → build_point env p onnx r ≡ returned r'
      → (r'.log ≡ r.log) × (is_in (build_key p) r'.failures ≡ true)
  build_point_inherits p onnx r r' failed_source h =
      by_inherited (inherit (build_key p) (eval_key p ∷ []) r)
        (inherit-IsInherited (build_key p) (eval_key p) r) h
    where
      both : {b : Bool} → b ≡ true → b ≡ false → ⊥
      both a b = cc

      by_inherited :
          (x : Bool × Runner)
          → IsInherited (build_key p) (eval_key p) r x
          → build_or_skip env p onnx r x ≡ returned r'
          → (r'.log ≡ r.log) × (is_in (build_key p) r'.failures ≡ true)
      by_inherited (true, v) (_, f, same) k =
          let e : v ≡ r' = cc in
          subst (λ (u : Runner). (u.log ≡ r.log) × (is_in (build_key p) u.failures ≡ true)) e
            (same, f)
      by_inherited (false, v) (_, fine) k = absurd (both failed_source fine)

  -- The keys that are done are accounted for.
  abbrev AreDone : Dict Text → Runner → Type 0
  AreDone engines r = (key : Text) → is_in key engines ≡ true → IsBuilt r key

  AreDone-add :
      (key path : Text) (engines : Dict Text) (r r' : Runner)
      → AreDone engines r
      → Later r r'
      → IsBuilt r' key
      → AreDone (engines ++ ((key, path) ∷ [])) r'
  AreDone-add key path engines r r' done l b k h = elim (is_in_added k key path engines h) [
    | inl old ↦ IsAccounted-Later env.succeeds r r' k _ l (done k old)
    | inr e ↦ subst (IsBuilt r') (sym e) b
  ]

  from_engines :
      (ps : List Point) (artifacts engines : Dict Text) (r : Runner) (x : Dict Text × Runner)
      → AreDone engines r
      → run_builds env ps artifacts engines r ≡ returned x
      → Later r x.1 × All (λ (p : Point). IsBuilt x.1 (build_key p)) ps × AreDone x.0 x.1
  unfolding run_builds
  from_engines [] artifacts engines r x done h =
      let e : (engines, r) ≡ x = cc in
      subst (λ (y : Dict Text × Runner). Later r y.1 × Unit {0} × AreDone y.0 y.1) e
        (Later-refl r, tt, done)
  from_engines (p ∷ ps) artifacts engines r x done h =
      elim (Bool-cases (is_in (build_key p) engines)) [
        | inl known ↦
            let k : run_builds env ps artifacts engines r ≡ returned x =
              if_true (is_in (build_key p) engines) _ _ _ known h in
            let (l, all, d) = from_engines ps artifacts engines r x done k in
            (
              l,
              (
                IsAccounted-Later env.succeeds r x.1 (build_key p) _ l (done (build_key p) known),
                all,
              ),
              d,
            )
        | inr new ↦
            let engines' = engines ++ ((build_key p, env.engine_path (build_key p)) ∷ []) in
            let k : (build_from env p (find (eval_key p) artifacts) r
                  >>= run_builds env ps artifacts engines')
                ≡ returned x =
              if_false (is_in (build_key p) engines) _ _ _ new h in
            let (r1, b, k1) =
              bind-returned (build_from env p (find (eval_key p) artifacts) r) _ x k in
            let (l1, built) = build_from_lem p (find (eval_key p) artifacts) r r1 b in
            let (l, all, d) =
              from_engines ps artifacts engines' r1 x
                (AreDone-add (build_key p) (env.engine_path (build_key p)) engines r r1 done l1
                  built)
                k1 in
            (
              Later-trans l1 l,
              (IsAccounted-Later env.succeeds r1 x.1 (build_key p) _ l built, all),
              d,
            )
      ]

  -- After the builds of a list of points each of them is accounted for, by a failure of its key or by
  -- a step with its label in the log that was reused or succeeded. What had failed before has still
  -- failed, and every earlier entry of the log is still there.
  pub run_builds-IsAccounted :
      (ps : List Point) (artifacts : Dict Text) (r : Runner) (engines : Dict Text) (r' : Runner)
      → run_builds env ps artifacts [] r ≡ returned (engines, r')
      → Later r r'
        × All
            (λ (p : Point).
              IsAccounted env.succeeds r' (build_key p) (codes "build." ++ build_key p))
            ps
  unfolding find
  run_builds-IsAccounted ps artifacts r engines r' h =
      let (l, all, _) = from_engines ps artifacts [] r (engines, r') (λ k e. absurd (cc)) h in
      (l, all)
