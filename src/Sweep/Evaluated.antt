-- ===== src/Sweep/Evaluated.antt =====
-- How the evaluations and chains of a sweep end under `keep_going`.
use dfine_cpp.Common.{
  ◌≡◌, refl, sym, inl, inr, Bool, true, false, List, [], ◌∷◌, ◌++◌, Text, codes, All, ℕ,
}
use mathlib.Core.Path.{subst}
use dfine_cpp.Common.Result.{returned}
use dfine_cpp.Sweep.Point.{Point, graph_key, eval_key, build_key}
use dfine_cpp.Sweep.Runner.{Dict, find, is_in, Runner, inherit}
use dfine_cpp.Sweep.Build.{Environment, run_builds}
use dfine_cpp.Sweep.Export.{Args, run_exports, run_converts}
use dfine_cpp.Sweep.Evaluate.{
  Dataset, Recorded, accuracy_path, eval_engine_for, eval_from, eval_or_skip, eval_point,
  eval_points,
}
use dfine_cpp.Sweep.Chains.{
  item, chain_path, chain_argv, chain_point, is_skipped, chain_points, run_chains, run_accuracy,
}
use dfine_cpp.Sweep.Select.{IsMember}
use dfine_cpp.Sweep.Chosen.{eval_engine_for-IsBest}
use dfine_cpp.Sweep.Progress.{
  find_of, guarded-Returns, Returns, Returns-bind, Returns-map, Returns-if, KeepsGoing,
  inherit-KeepsGoing,
}
use dfine_cpp.Sweep.Returns.{
  IsDone, IsDone-known, IsDone-new, export_points-Returns, run_converts-Returns, run_builds-Returns,
}

abbrev AllIn : (Point → Text) → List Point → Dict Text → Type 0
AllIn key ps d = All (λ (p : Point). is_in (key p) d ≡ true) ps

-- What holds of every point holds of one of them.
of_member : (P : Point → Type 0) (p : Point) (ps : List Point) → IsMember p ps → All P ps → P p
of_member P p [] h hs = absurd h
of_member P p (q ∷ ps) (inl same) (b, bs) = subst P (sym same) b
of_member P p (q ∷ ps) (inr h) (b, bs) = of_member P p ps h bs

-- The points of a list are members of any that begins with others.
all_members :
    (P : Point → Type 0) (ps : List Point) → ((p : Point) → IsMember p ps → P p) → All P ps
all_members P [] f = tt
all_members P (p ∷ ps) f = (f p (inl refl), all_members P ps (λ q m. f q (inr m)))

module _ (env : Environment) (args : Args) (dataset : Dataset) (recorded : ℕ → Text → Recorded)
    (points : List Point) where
  eval_from-Returns :
      (sha : Text) (p : Point) (engine : Text) (artifacts : Dict Text) (r : Runner)
      → is_in (eval_key p) artifacts ≡ true
      → KeepsGoing r
      → Returns
          (eval_from env args dataset recorded sha p engine (find (eval_key p) artifacts) r)
          KeepsGoing
  eval_from-Returns sha p engine artifacts r there k =
      let (onnx, e) = find_of (eval_key p) artifacts there in
      subst (λ o. Returns (eval_from env args dataset recorded sha p engine o r) KeepsGoing) (sym e)
        (Returns-bind (λ (x : Bool × Runner). KeepsGoing x.1) KeepsGoing _ (λ x. returned x.1)
          (guarded-Returns env.succeeds (eval_key p) (codes "eval." ++ eval_key p) _ _ r k)
          (λ x h. (x.1, refl, h)))

  eval_or_skip-Returns :
      (sha : Text) (p : Point) (engine : Text) (artifacts : Dict Text) (x : Bool × Runner)
      → is_in (eval_key p) artifacts ≡ true
      → KeepsGoing x.1
      → Returns (eval_or_skip env args dataset recorded sha p engine artifacts x) KeepsGoing
  eval_or_skip-Returns sha p engine artifacts (true, r) there k = (r, refl, k)
  eval_or_skip-Returns sha p engine artifacts (false, r) there k =
      eval_from-Returns sha p engine artifacts r there k

  eval_point-Returns :
      (sha : Text) (artifacts engines : Dict Text) (p : Point) (r : Runner)
      → IsMember p points
      → AllIn build_key points engines
      → is_in (eval_key p) artifacts ≡ true
      → KeepsGoing r
      → Returns (eval_point env args dataset recorded sha points artifacts engines p r) KeepsGoing
  eval_point-Returns sha artifacts engines p r m built there k =
      let (q, engine, e, _, _) = eval_engine_for-IsBest points p engines r.failures m built in
      Returns-bind (λ _. Unit) KeepsGoing (eval_engine_for points p engines r.failures) _
        ((engine, build_key q), e, tt)
        (λ x _.
          eval_or_skip-Returns sha p x.0 artifacts (inherit (eval_key p) (x.1 ∷ []) r) there
            (inherit-KeepsGoing (eval_key p) (x.1 ∷ []) r k))

  eval_points-Returns :
      (sha : Text) (artifacts engines : Dict Text) (ps : List Point) (reports : Dict Text)
      (r : Runner)
      → All (λ (p : Point). IsMember p points) ps
      → AllIn build_key points engines
      → AllIn eval_key ps artifacts
      → KeepsGoing r
      → Returns
          (eval_points env args dataset recorded sha points artifacts engines ps reports r)
          (IsDone eval_key ps reports)
  unfolding eval_points
  eval_points-Returns sha artifacts engines [] reports r m built there k =
      ((reports, r), refl, (k, (tt, λ _ h. h)))
  eval_points-Returns sha artifacts engines (p ∷ ps) reports r (m, ms) built (a, rest) k =
      Returns-if (IsDone eval_key (p ∷ ps) reports) (is_in (eval_key p) reports) _ _
        (λ known.
          Returns-map _ _ _ (IsDone-known eval_key p ps reports known)
            (eval_points-Returns sha artifacts engines ps reports r ms built rest k))
        (λ _.
          Returns-bind KeepsGoing (IsDone eval_key (p ∷ ps) reports)
            (eval_point env args dataset recorded sha points artifacts engines p r) _
            (eval_point-Returns sha artifacts engines p r m built a k)
            (λ r1 k1.
              Returns-map _ _ _
                (IsDone-new eval_key p ps (accuracy_path env args dataset recorded p) reports)
                (eval_points-Returns sha artifacts engines ps
                  (reports ++ ((eval_key p, accuracy_path env args dataset recorded p) ∷ [])) r1 ms
                  built rest k1)))

module _ (env : Environment) (args : Args) (baseline : Point) (reports : Dict Text) where
  item-Returns : (key : Text) → is_in key reports ≡ true → Returns (item reports key) (λ _. Unit)
  item-Returns key there = let (x, e) = find_of key reports there in (x, rw (e, item) refl, tt)

  chain_point-Returns :
      (p : Point) (r : Runner)
      → is_in (eval_key baseline) reports ≡ true
      → is_in (eval_key p) reports ≡ true
      → KeepsGoing r
      → Returns (chain_point env args baseline reports p r) KeepsGoing
  chain_point-Returns p r first there k =
      Returns-bind (λ _. Unit) KeepsGoing (item reports (eval_key baseline)) _
        (item-Returns (eval_key baseline) first)
        (λ b _.
          Returns-bind (λ _. Unit) KeepsGoing (item reports (eval_key p)) _
            (item-Returns (eval_key p) there)
            (λ report _.
              Returns-bind (λ (x : Bool × Runner). KeepsGoing x.1) KeepsGoing _ (λ x. returned x.1)
                (guarded-Returns env.succeeds (eval_key p ++ codes ":chain")
                  (codes "chain." ++ eval_key p) (chain_argv env args baseline b p report) false r
                  k)
                (λ x h. (x.1, refl, h))))

  chain_points-Returns :
      (ps : List Point) (chains : Dict Text) (r : Runner)
      → is_in (eval_key baseline) reports ≡ true
      → AllIn eval_key ps reports
      → KeepsGoing r
      → Returns (chain_points env args baseline reports ps chains r) (λ _. Unit)
  unfolding chain_points
  chain_points-Returns [] chains r first there k = ((chains, r), refl, tt)
  chain_points-Returns (p ∷ ps) chains r first (a, rest) k =
      Returns-if (λ _. Unit) (is_skipped env args baseline chains p r) _ _
        (λ _. chain_points-Returns ps chains r first rest k)
        (λ _.
          Returns-bind KeepsGoing (λ _. Unit) (chain_point env args baseline reports p r) _
            (chain_point-Returns p r first a k)
            (λ r1 k1.
              chain_points-Returns ps (chains ++ ((eval_key p, chain_path env args p) ∷ [])) r1
                first rest k1))

-- A sweep that keeps going gets through its exports, conversions, builds, evaluations and chains
-- whatever steps fail, where its baseline is one of its points: no step ends it, no key is missing,
-- and every point has a report path at the end.
pub run_accuracy-Returns :
    (env : Environment) (args : Args) (dataset : Dataset) (recorded : ℕ → Text → Recorded)
    (points : List Point) (baseline : Point) (r : Runner)
    → IsMember baseline points
    → r.keep_going ≡ true
    → Returns
        (run_accuracy env args dataset recorded points baseline r)
        (λ (x : Dict Text × (Dict Text × Runner)).
          All (λ (p : Point). is_in (eval_key p) x.0 ≡ true) points)
unfolding run_accuracy
run_accuracy-Returns env args dataset recorded points baseline r m k =
    Returns-bind (IsDone graph_key points []) ends (run_exports env args points r) _
      (export_points-Returns env args (env.sha256 r.index args.checkpoint) points [] r k)
      (λ x (k1, (exported, _)).
        Returns-bind (IsDone eval_key points []) ends (run_converts env args points x.0 [] x.1) _
          (run_converts-Returns env args points x.0 [] x.1 exported k1)
          (λ y (k2, (converted, _)).
            Returns-bind (IsDone build_key points []) ends (run_builds env points y.0 [] y.1) _
              (run_builds-Returns env args points y.0 [] y.1 converted k2)
              (λ z (k3, (built, _)).
                Returns-bind (IsDone eval_key points []) ends _ _
                  (eval_points-Returns env args dataset recorded points
                    (env.sha256 z.1.index dataset.annotations) y.0 z.0 points [] z.1 members built
                    converted k3)
                  (λ w (k4, (evaluated, _)).
                    Returns-bind (λ _. Unit) ends (run_chains env args points baseline w.0 w.1) _
                      (chain_points-Returns env args baseline w.0 points [] w.1
                        (of_member (λ (p : Point). is_in (eval_key p) w.0 ≡ true) baseline points m
                          evaluated)
                        evaluated k4)
                      (λ c _. ((w.0, c), refl, evaluated))))))
  where
    ends : Dict Text × (Dict Text × Runner) → Type 0
    ends x = All (λ (p : Point). is_in (eval_key p) x.0 ≡ true) points

    members : All (λ (p : Point). IsMember p points) points
    members = all_members (λ (p : Point). IsMember p points) points (λ p h. h)
