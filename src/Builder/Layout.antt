-- ===== src/Builder/Layout.antt =====
-- The paths of an accepted plan of artifacts.
use dfine_cpp.Common.{
  ◌≡◌, sym, ap, ◌∙◌, ◌≢◌, inl, inr, true, false, not, none, some, arith, List, [], ◌∷◌, any,
  text_eq, text_eq_iff, codes, All,
}
use mathlib.Core.Path.{subst}
use dfine_cpp.Common.Result.{
  returned, system_exit, ◌>>=◌, ◌>>◌, refuse_if, refuse_if-returned, bind-returned,
}
use dfine_cpp.Publish.{FilePath, same_path, distinct, stale_list}
use dfine_cpp.Builder.Paths.{suffix, with_suffix, add_suffix, lower, apart, not_same}
use dfine_cpp.Builder.Plan.{
  json, Plan, collides, engine_sidecar_plan, artifact_paths, validated_artifact_plan, IsSidecarPlan,
  choose, usable_candidates, choose_lem, or_false, returned_injective,
}

abbrev pub AreDistinctPaths : List FilePath → Type 0
AreDistinctPaths [] = Unit
AreDistinctPaths (p ∷ ps) = All (λ (q : FilePath). p ≢ q) ps × AreDistinctPaths ps

abbrev AreNew : List FilePath → List FilePath → Type 0
AreNew seen ps = All (λ (p : FilePath). any (same_path p) seen ≡ false) ps

new_first :
    (q : FilePath) (seen ps : List FilePath)
    → AreNew (q ∷ seen) ps
    → All (λ (p : FilePath). q ≢ p) ps × AreNew seen ps
new_first q seen [] h = (tt, tt)
new_first q seen (p ∷ ps) (h, hs) =
    let (first, rest) = new_first q seen ps hs in
    (((λ e. apart p q (or_false h).0 (sym e)), first), ((or_false h).1, rest))

collides_new :
    (seen ps : List FilePath) → collides seen ps ≡ false → AreNew seen ps × AreDistinctPaths ps
unfolding collides
collides_new seen [] h = (tt, tt)
collides_new seen (p ∷ ps) h =
    let (now, later) = or_false h in
    let (new, d) = collides_new (p ∷ seen) ps later in
    let (first, rest) = new_first p seen ps new in ((now, rest), (first, d))

module _ (resolve : FilePath → FilePath) where
  -- A sidecar plan that is returned: neither the sidecar nor its obsolete twin is the engine or the
  -- source's metadata, whatever symbolic links there are, and the two are different files. The
  -- sidecar is one of the two names beside the engine.
  pub engine_sidecar_plan-IsSidecarPlan :
      (onnx_path out_path : FilePath) (plan : Plan)
      → engine_sidecar_plan resolve onnx_path out_path ≡ returned plan
      → IsSidecarPlan resolve (resolve onnx_path) (resolve out_path) plan
  unfolding engine_sidecar_plan
  engine_sidecar_plan-IsSidecarPlan onnx_path out_path plan h =
      let out = resolve out_path in
      let (source, has_source, h1) =
        bind-returned (with_suffix (resolve onnx_path) json) _ plan h in
      let protected = resolve source in
      let rest = with_suffix out json >>= λ b.
      choose (usable_candidates resolve out protected [] (b ∷ add_suffix out json ∷ [])) in
      let (not_out, h2) = refuse_if-returned (same_path protected out) system_exit rest plan h1 in
      let (beside, is_beside, h3) = bind-returned (with_suffix out json) _ plan h2 in
      let (a, b, c, d) = choose_lem resolve out protected beside plan h3 in
      record {
        source = source;
        has_source = has_source;
        source_ne_out = apart protected out not_out;
        chosen_ne_out = a;
        chosen_ne_source = b;
        twin = c;
        beside = elim d [ inl e ↦ inl (rw e is_beside) | inr e ↦ inr e ];
      }

  -- What is accepted: an `.onnx` source, an `.engine` output, and six paths apart.
  pub record IsArtifactPlan (onnx out : FilePath) (plan : Plan) : Type 0 where
    pub source_suffix : lower (suffix onnx) ≡ codes ".onnx"
    pub output_suffix : lower (suffix out) ≡ codes ".engine"
    pub sidecars : IsSidecarPlan resolve onnx out plan
    pub paths_apart :
        (source : FilePath)
        → with_suffix onnx json ≡ returned source
        → AreDistinctPaths (artifact_paths resolve onnx source out plan.0)

  module _ (idempotent : (p : FilePath) → resolve (resolve p) ≡ resolve p) where
    -- If `resolve` is idempotent, a plan that is accepted has an `.onnx` source and an `.engine`
    -- output, sidecars as above, and six paths that resolve to different files: the source, its
    -- metadata, the engine, the sidecar and the two staging files.
    pub validated_artifact_plan-IsArtifactPlan :
        (onnx_path out_path : FilePath) (plan : Plan)
        → validated_artifact_plan resolve onnx_path out_path ≡ returned plan
        → IsArtifactPlan (resolve onnx_path) (resolve out_path) plan
    unfolding validated_artifact_plan
    validated_artifact_plan-IsArtifactPlan onnx_path out_path plan h =
        let onnx = resolve onnx_path in
        let out = resolve out_path in
        let last = λ (p : Plan) (source : FilePath).
          refuse_if (collides [] (artifact_paths resolve onnx source out p.0)) system_exit
          >> returned p in
        let third =
          engine_sidecar_plan resolve onnx out >>= λ p. with_suffix onnx json >>= last p in
        let second =
          refuse_if (not (text_eq (lower (suffix out)) (codes ".engine"))) system_exit >> third in
        let (s1, h1) =
          refuse_if-returned (not (text_eq (lower (suffix onnx)) (codes ".onnx"))) system_exit
            second plan h in
        let (s2, h2) =
          refuse_if-returned (not (text_eq (lower (suffix out)) (codes ".engine"))) system_exit
            third plan h1 in
        let (p, planned, h3) =
          bind-returned (engine_sidecar_plan resolve onnx out)
            (λ p. with_suffix onnx json >>= last p) plan h2 in
        let (source, has_source, h4) = bind-returned (with_suffix onnx json) (last p) plan h3 in
        let (no_collision, h5) =
          refuse_if-returned (collides [] (artifact_paths resolve onnx source out p.0)) system_exit
            (returned p) plan h4 in
        let e = returned_injective h5 in
        let sidecars : IsSidecarPlan resolve (resolve onnx) (resolve out) p =
          engine_sidecar_plan-IsSidecarPlan onnx out p planned in
        let paths = (collides_new [] (artifact_paths resolve onnx source out p.0) no_collision).1 in
        subst (IsArtifactPlan onnx out) e (record {
          source_suffix = (text_eq_iff (lower (suffix onnx)) (codes ".onnx")).0 (ground arith);
          output_suffix = (text_eq_iff (lower (suffix out)) (codes ".engine")).0 (ground arith);
          sidecars =
              subst (λ o. IsSidecarPlan resolve onnx o p) (idempotent out_path)
                (subst (λ o. IsSidecarPlan resolve o (resolve out) p) (idempotent onnx_path)
                  sidecars);
          paths_apart = λ src at.
              subst (λ q. AreDistinctPaths (artifact_paths resolve onnx q out p.0))
                (returned_injective (sym has_source ∙ at)) paths;
        })

    outputs_distinct :
        (onnx out : FilePath) (plan : Plan)
        → resolve out ≡ out
        → IsSidecarPlan resolve onnx out plan
        → distinct (out ∷ plan.0 ∷ stale_list plan.1) ≡ true
    outputs_distinct onnx out (chosen, none) settled s =
        ground (arith, not_same out chosen (λ e. s.chosen_ne_out (ap resolve (sym e) ∙ settled)))
    outputs_distinct onnx out (chosen, some twin) settled s =
        let (twin_ne_out, _, twin_ne_chosen) = s.twin in
        ground (
          arith,
          not_same out chosen (λ e. s.chosen_ne_out (ap resolve (sym e) ∙ settled)),
          not_same out twin (λ e. twin_ne_out (ap resolve (sym e) ∙ settled)),
          not_same chosen twin (λ e. twin_ne_chosen (ap resolve (sym e))),
        )

    -- The outputs of an accepted plan are distinct paths, so that a publication of the engine with
    -- its sidecar and the obsolete twin is not refused for its outputs.
    pub validated_artifact_plan-distinct :
        (onnx_path out_path : FilePath) (plan : Plan)
        → validated_artifact_plan resolve onnx_path out_path ≡ returned plan
        → distinct (resolve out_path ∷ plan.0 ∷ stale_list plan.1) ≡ true
    validated_artifact_plan-distinct onnx_path out_path plan h =
        let accepted = validated_artifact_plan-IsArtifactPlan onnx_path out_path plan h in
        outputs_distinct (resolve onnx_path) (resolve out_path) plan (idempotent out_path)
          accepted.sidecars
