-- ===== src/Builder/Plan.antt =====
-- `_engine_sidecar_plan` and `_validated_artifact_plan` of trt-files/scripts/build_engine.py: the
-- paths that a build reads and writes. `Path.resolve` is a parameter.
use dfine_cpp.Common.{
  ◌≡◌, refl, sym, ap, ◌∙◌, ◌≢◌, ◌⊎◌, inl, inr, Bool, true, false, not, ◌||◌, Option, none, some,
  arith, if◌then◌else◌, List, [], ◌∷◌, ◌++◌, all, any, Text, text_eq, codes,
}
use mathlib.Core.Path.{subst}
use dfine_cpp.Common.Result.{Result, returned, failed, system_exit, ◌>>=◌, ◌>>◌, refuse_if}
use dfine_cpp.Publish.{FilePath, same_path}
use dfine_cpp.Builder.Paths.{suffix, with_suffix, add_suffix, lower, apart}

abbrev pub json : Text
json = codes ".json"

-- The chosen sidecar and the twin that is obsolete then.
abbrev pub Plan : Type 0
Plan = FilePath × Option FilePath

abbrev pub choose : List FilePath → Result Plan
choose [] = failed system_exit
choose (chosen ∷ []) = returned (chosen, none)
choose (chosen ∷ twin ∷ _) = returned (chosen, some twin)

-- `if previous := seen.get(path)` at some path of the rest.
unfoldable pub collides : List FilePath → List FilePath → Bool
collides seen [] = false
collides seen (p ∷ ps) = any (same_path p) seen || collides (p ∷ seen) ps

pub returned_injective : {A : Type 0} {a b : A} → returned a ≡ returned b → a ≡ b
returned_injective h = cc

pub or_false : {a b : Bool} → (a || b) ≡ false → (a ≡ false) × (b ≡ false)
or_false {a} {b} h = ground arith

module _ (resolve : FilePath → FilePath) where
  -- One round of `for candidate in candidates`.
  abbrev add_usable : FilePath → FilePath → List FilePath → FilePath → List FilePath
  add_usable out protected usable candidate =
      let resolved = resolve candidate in
      if same_path resolved out || same_path resolved protected
      then usable
      else if all (λ (e : FilePath). not (same_path resolved (resolve e))) usable
      then usable ++ (candidate ∷ [])
      else usable

  unfoldable pub usable_candidates :
      FilePath → FilePath → List FilePath → List FilePath → List FilePath
  usable_candidates out protected usable [] = usable
  usable_candidates out protected usable (candidate ∷ rest) =
      usable_candidates out protected (add_usable out protected usable candidate) rest

  unfoldable pub engine_sidecar_plan : FilePath → FilePath → Result Plan
  engine_sidecar_plan onnx_path out_path = do
    let out = resolve out_path
    source ← with_suffix (resolve onnx_path) json
    let protected = resolve source
    refuse_if (same_path protected out) system_exit
    beside ← with_suffix out json
    choose (usable_candidates out protected [] (beside ∷ add_suffix out json ∷ []))

  -- The paths of a build, in the order in which their labels are given.
  abbrev pub artifact_paths : FilePath → FilePath → FilePath → FilePath → List FilePath
  artifact_paths onnx source out sidecar =
      onnx
      ∷ resolve source
      ∷ out
      ∷ resolve (add_suffix out (codes ".tmp"))
      ∷ resolve sidecar
      ∷ resolve (add_suffix sidecar (codes ".tmp"))
      ∷ []

  unfoldable pub validated_artifact_plan : FilePath → FilePath → Result Plan
  validated_artifact_plan onnx_path out_path = do
    let onnx = resolve onnx_path
    let out = resolve out_path
    refuse_if (not (text_eq (lower (suffix onnx)) (codes ".onnx"))) system_exit
    refuse_if (not (text_eq (lower (suffix out)) (codes ".engine"))) system_exit
    plan ← engine_sidecar_plan onnx out
    source ← with_suffix onnx json
    refuse_if (collides [] (artifact_paths onnx source out plan.0)) system_exit
    returned plan

  -- The obsolete twin is no path that the build protects, and not the sidecar.
  abbrev pub IsTwin : FilePath → FilePath → FilePath → Option FilePath → Type 0
  IsTwin out protected chosen none = Unit
  IsTwin out protected chosen (some twin) =
      (resolve twin ≢ out) × (resolve twin ≢ protected) × (resolve twin ≢ resolve chosen)

  -- The sidecar and its twin are among the two names beside the output.
  pub record IsSidecarPlan (onnx out : FilePath) (plan : Plan) : Type 0 where
    pub source : FilePath
    pub has_source : with_suffix onnx json ≡ returned source
    pub source_ne_out : resolve source ≢ out
    pub chosen_ne_out : resolve plan.0 ≢ out
    pub chosen_ne_source : resolve plan.0 ≢ resolve source
    pub twin : IsTwin out (resolve source) plan.0 plan.1
    pub beside : (with_suffix out json ≡ returned plan.0) ⊎ (plan.0 ≡ add_suffix out json)

  module _ (out protected beside : FilePath) where
    abbrev added : FilePath
    added = add_suffix out json

    abbrev IsChoice : Plan → Type 0
    IsChoice plan =
        (resolve plan.0 ≢ out)
        × (resolve plan.0 ≢ protected)
        × IsTwin out protected plan.0 plan.1
        × ((plan.0 ≡ beside) ⊎ (plan.0 ≡ added))

    abbrev IsFree : FilePath → Type 0
    IsFree p = (resolve p ≢ out) × (resolve p ≢ protected)

    -- The list of usable candidates, by the three tests on which it depends.
    abbrev by_tests : Bool → Bool → Bool → List FilePath
    by_tests first second third =
        let one = if first then [] else beside ∷ [] in
        if second
        then one
        else if all (λ (_ : FilePath). not third) one
        then one ++ (added ∷ [])
        else one

    by_tests_lem :
        (first second third : Bool)
        → (first ≡ false → IsFree beside)
        → (second ≡ false → IsFree added)
        → (third ≡ false → resolve added ≢ resolve beside)
        → (plan : Plan) → choose (by_tests first second third) ≡ returned plan
        → IsChoice plan
    by_tests_lem true true third f g k (s, t) h = absurd (cc)
    by_tests_lem true false third f g k (s, t) h =
        subst IsChoice (returned_injective h) ((g refl).0, (g refl).1, tt, inr refl)
    by_tests_lem false true third f g k (s, t) h =
        subst IsChoice (returned_injective h) ((f refl).0, (f refl).1, tt, inl refl)
    by_tests_lem false false true f g k (s, t) h =
        subst IsChoice (returned_injective h) ((f refl).0, (f refl).1, tt, inl refl)
    by_tests_lem false false false f g k (s, t) h =
        subst IsChoice (returned_injective h)
          ((f refl).0, (f refl).1, ((g refl).0, (g refl).1, k refl), inl refl)

    IsFree-of :
        (p : FilePath)
        → (same_path (resolve p) out || same_path (resolve p) protected) ≡ false
        → IsFree p
    IsFree-of p h =
        (apart (resolve p) out (or_false h).0, apart (resolve p) protected (or_false h).1)

    -- The candidates are those that the tests leave.
    usable_by_tests :
        (first : Bool)
        → (same_path (resolve beside) out || same_path (resolve beside) protected) ≡ first
        → usable_candidates out protected [] (beside ∷ added ∷ [])
          ≡ by_tests first
              (same_path (resolve added) out || same_path (resolve added) protected)
              (same_path (resolve added) (resolve beside))
    unfolding usable_candidates
    usable_by_tests true e = rw e refl
    usable_by_tests false e = rw e refl

    -- What the choice among the two candidates comes to.
    pub choose_lem :
        (plan : Plan)
        → choose (usable_candidates out protected [] (beside ∷ added ∷ [])) ≡ returned plan
        → IsChoice plan
    choose_lem plan h =
        by_tests_lem (same_path (resolve beside) out || same_path (resolve beside) protected)
          (same_path (resolve added) out || same_path (resolve added) protected)
          (same_path (resolve added) (resolve beside)) (IsFree-of beside) (IsFree-of added)
          (apart (resolve added) (resolve beside)) plan
          (ap choose (sym (usable_by_tests _ refl)) ∙ h)
