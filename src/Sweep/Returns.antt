-- ===== src/Sweep/Returns.antt =====
-- How the exports, conversions and builds of a sweep end under `keep_going`.
use dfine_cpp.Common.{◌≡◌, refl, sym, Bool, true, false, List, [], ◌∷◌, ◌++◌, Text, codes, All}
use mathlib.Core.Path.{subst}
use dfine_cpp.Common.Result.{returned}
use dfine_cpp.Sweep.Point.{Point, Precision, slim, fp32, graph_key, eval_key, build_key}
use dfine_cpp.Sweep.Runner.{Dict, find, is_in, Runner, inherit}
use dfine_cpp.Sweep.Build.{Environment, build_or_skip, build_from, run_builds}
use dfine_cpp.Sweep.Export.{
  Args, fp32_path, slim_path, export_point, export_points, run_exports, convert_as, convert_from,
  run_converts, run_pipeline,
}
use dfine_cpp.Sweep.Progress.{
  is_in-added, is_in_end, find_of, guarded-Returns, Returns, Returns-bind, Returns-map, Returns-if,
  KeepsGoing, inherit-KeepsGoing,
}

-- The keys of the points, and those that were there.
abbrev HasKeys : (Point → Text) → List Point → Dict Text → Dict Text → Type 0
HasKeys key ps before d =
    All (λ (p : Point). is_in (key p) d ≡ true) ps
    × ((k : Text) → is_in k before ≡ true → is_in k d ≡ true)

-- One round adds the key of its point.
HasKeys-added :
    (key : Point → Text) (p : Point) (ps : List Point) (path : Text) (before d : Dict Text)
    → HasKeys key ps (before ++ ((key p, path) ∷ [])) d
    → HasKeys key (p ∷ ps) before d
HasKeys-added key p ps path before d (all, kept) = (
  (kept (key p) (is_in_end (key p) path before), all),
  λ k h. kept k (is_in-added k (key p) path before h),
)

-- How a loop over the points ends: the runner keeps going, and the keys of the points are there.
abbrev pub IsDone : (Point → Text) → List Point → Dict Text → Dict Text × Runner → Type 0
IsDone key ps before x = KeepsGoing x.1 × HasKeys key ps before x.0

pub IsDone-known :
    (key : Point → Text) (p : Point) (ps : List Point) (before : Dict Text)
    → is_in (key p) before ≡ true
    → (x : Dict Text × Runner) → IsDone key ps before x
    → IsDone key (p ∷ ps) before x
IsDone-known key p ps before known x (k, (all, kept)) = (k, ((kept (key p) known, all), kept))

pub IsDone-new :
    (key : Point → Text) (p : Point) (ps : List Point) (path : Text) (before : Dict Text)
    (x : Dict Text × Runner)
    → IsDone key ps (before ++ ((key p, path) ∷ [])) x
    → IsDone key (p ∷ ps) before x
IsDone-new key p ps path before x (k, h) = (k, HasKeys-added key p ps path before x.0 h)

module _ (env : Environment) (args : Args) where
  export_point-Returns :
      (sha : Text) (p : Point) (r : Runner)
      → KeepsGoing r
      → Returns (export_point env args sha p r) KeepsGoing
  export_point-Returns sha p r k =
      Returns-bind (λ (x : Bool × Runner). KeepsGoing x.1) KeepsGoing _ (λ x. returned x.1)
        (guarded-Returns env.succeeds (graph_key p) (codes "export." ++ graph_key p) _ _ r k)
        (λ x h. (x.1, refl, h))

  pub export_points-Returns :
      (sha : Text) (ps : List Point) (exports : Dict Text) (r : Runner)
      → KeepsGoing r
      → Returns (export_points env args sha ps exports r) (IsDone graph_key ps exports)
  unfolding export_points
  export_points-Returns sha [] exports r k = ((exports, r), refl, (k, (tt, λ _ h. h)))
  export_points-Returns sha (p ∷ ps) exports r k =
      Returns-if (IsDone graph_key (p ∷ ps) exports) (is_in (graph_key p) exports) _ _
        (λ known.
          Returns-map _ _ _ (IsDone-known graph_key p ps exports known)
            (export_points-Returns sha ps exports r k))
        (λ _.
          Returns-bind KeepsGoing (IsDone graph_key (p ∷ ps) exports)
            (export_point env args sha p r) _ (export_point-Returns sha p r k)
            (λ r1 k1. Returns-map _ _ _ (IsDone-new graph_key p ps (fp32_path env args p) exports) (
              export_points-Returns sha ps (exports ++ ((graph_key p, fp32_path env args p) ∷ []))
                r1 k1)))

  convert_as-Returns :
      (p : Point) (source : Text) (precision : Precision) (x : Bool × Runner)
      → KeepsGoing x.1
      → Returns (convert_as env args p source precision x) (λ (y : Text × Runner). KeepsGoing y.1)
  convert_as-Returns p source precision (true, r) k = ((source, r), refl, k)
  convert_as-Returns p source fp32 (false, r) k = ((source, r), refl, k)
  convert_as-Returns p source slim (false, r) k =
      Returns-bind (λ (x : Bool × Runner). KeepsGoing x.1) (λ (y : Text × Runner). KeepsGoing y.1) _
        (λ x. returned (slim_path env args p, x.1))
        (guarded-Returns env.succeeds (eval_key p) (codes "convert." ++ eval_key p) _ _ r k)
        (λ x h. ((slim_path env args p, x.1), refl, h))

  convert_from-Returns :
      (p : Point) (exports : Dict Text) (r : Runner)
      → is_in (graph_key p) exports ≡ true
      → KeepsGoing r
      → Returns
          (convert_from env args p (find (graph_key p) exports) r)
          (λ (y : Text × Runner). KeepsGoing y.1)
  convert_from-Returns p exports r there k =
      let (source, e) = find_of (graph_key p) exports there in
      subst (λ o. Returns (convert_from env args p o r) (λ (y : Text × Runner). KeepsGoing y.1))
        (sym e)
        (convert_as-Returns p source p.precision (inherit (eval_key p) (graph_key p ∷ []) r)
          (inherit-KeepsGoing (eval_key p) (graph_key p ∷ []) r k))

  pub run_converts-Returns :
      (ps : List Point) (exports artifacts : Dict Text) (r : Runner)
      → All (λ (p : Point). is_in (graph_key p) exports ≡ true) ps
      → KeepsGoing r
      → Returns (run_converts env args ps exports artifacts r) (IsDone eval_key ps artifacts)
  unfolding run_converts
  run_converts-Returns [] exports artifacts r h k = ((artifacts, r), refl, (k, (tt, λ _ h. h)))
  run_converts-Returns (p ∷ ps) exports artifacts r (hp, h) k =
      Returns-if (IsDone eval_key (p ∷ ps) artifacts) (is_in (eval_key p) artifacts) _ _
        (λ known.
          Returns-map _ _ _ (IsDone-known eval_key p ps artifacts known)
            (run_converts-Returns ps exports artifacts r h k))
        (λ _.
          Returns-bind (λ (y : Text × Runner). KeepsGoing y.1) (IsDone eval_key (p ∷ ps) artifacts)
            (convert_from env args p (find (graph_key p) exports) r) _
            (convert_from-Returns p exports r hp k)
            (λ y k1.
              Returns-map _ _ _ (IsDone-new eval_key p ps y.0 artifacts)
                (run_converts-Returns ps exports (artifacts ++ ((eval_key p, y.0) ∷ [])) y.1 h k1)))

  build_or_skip-Returns :
      (p : Point) (onnx : Text) (before : Runner) (x : Bool × Runner)
      → KeepsGoing x.1
      → Returns (build_or_skip env p onnx before x) KeepsGoing
  build_or_skip-Returns p onnx before (true, r) k = (r, refl, k)
  build_or_skip-Returns p onnx before (false, r) k =
      Returns-bind (λ (x : Bool × Runner). KeepsGoing x.1) KeepsGoing _ (λ x. returned x.1)
        (guarded-Returns env.succeeds (build_key p) (codes "build." ++ build_key p) _ _ r k)
        (λ x h. (x.1, refl, h))

  build_from-Returns :
      (p : Point) (artifacts : Dict Text) (r : Runner)
      → is_in (eval_key p) artifacts ≡ true
      → KeepsGoing r
      → Returns (build_from env p (find (eval_key p) artifacts) r) KeepsGoing
  build_from-Returns p artifacts r there k =
      let (onnx, e) = find_of (eval_key p) artifacts there in
      subst (λ o. Returns (build_from env p o r) KeepsGoing) (sym e)
        (build_or_skip-Returns p onnx r (inherit (build_key p) (eval_key p ∷ []) r)
          (inherit-KeepsGoing (build_key p) (eval_key p ∷ []) r k))

  pub run_builds-Returns :
      (ps : List Point) (artifacts engines : Dict Text) (r : Runner)
      → All (λ (p : Point). is_in (eval_key p) artifacts ≡ true) ps
      → KeepsGoing r
      → Returns (run_builds env ps artifacts engines r) (IsDone build_key ps engines)
  unfolding run_builds
  run_builds-Returns [] artifacts engines r h k = ((engines, r), refl, (k, (tt, λ _ h. h)))
  run_builds-Returns (p ∷ ps) artifacts engines r (hp, h) k =
      Returns-if (IsDone build_key (p ∷ ps) engines) (is_in (build_key p) engines) _ _
        (λ known.
          Returns-map _ _ _ (IsDone-known build_key p ps engines known)
            (run_builds-Returns ps artifacts engines r h k))
        (λ _.
          Returns-bind KeepsGoing (IsDone build_key (p ∷ ps) engines)
            (build_from env p (find (eval_key p) artifacts) r) _
            (build_from-Returns p artifacts r hp k)
            (λ r1 k1.
              Returns-map _ _ _ (IsDone-new build_key p ps (env.engine_path (build_key p)) engines)
                (run_builds-Returns ps artifacts
                  (engines ++ ((build_key p, env.engine_path (build_key p)) ∷ [])) r1 h k1)))

  -- A sweep that keeps going gets through its exports, conversions and builds whatever steps fail:
  -- no round ends it and no key is missing, and every point has an engine path at the end.
  pub run_pipeline-Returns :
      (points : List Point) (r : Runner)
      → r.keep_going ≡ true
      → Returns
          (run_pipeline env args points r)
          (λ (x : Dict Text × Runner). All (λ (p : Point). is_in (build_key p) x.0 ≡ true) points)
  unfolding run_pipeline
  run_pipeline-Returns points r k =
      Returns-bind (IsDone graph_key points []) ends (run_exports env args points r) _
        (export_points-Returns (env.sha256 r.index args.checkpoint) points [] r k)
        (λ x (k1, (exported, _)).
          Returns-bind (IsDone eval_key points []) ends (run_converts env args points x.0 [] x.1) _
            (run_converts-Returns points x.0 [] x.1 exported k1)
            (λ y (k2, (converted, _)).
              Returns-map (IsDone build_key points []) ends _ (λ z (_, (built, _)). built)
                (run_builds-Returns points y.0 [] y.1 converted k2)))
    where
      ends : Dict Text × Runner → Type 0
      ends x = All (λ (p : Point). is_in (build_key p) x.0 ≡ true) points
