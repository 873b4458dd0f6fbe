-- ===== src/Cli/Resolve.antt =====
-- `_find_onnx` and `_resolve_engine` of python/dfine/cli.py.
use dfine_cpp.Common.{
  ℕ, Bool, false, not, Option, none, some, List, [], ◌∷◌, ◌++◌, map, any, Text, text_eq, codes, leb,
  if◌then◌else◌,
}
use dfine_cpp.Common.Result.{Result, returned, failed, system_exit, ◌>>=◌, ◌>>◌, refuse_if}
use dfine_cpp.Publish.{FilePath, same_path}
use dfine_cpp.Cli.Cache.{
  Environment, join, artifact_fingerprint, cache_engine_path, same_artifact_engines, keep,
  is_of_model, name_start, name_end, foreign, profile_max,
}

pub data Precision : Type 0 where
  fp32 fp16 : Precision

abbrev pub precision_name : Precision → Text
precision_name fp32 = codes "fp32"
precision_name fp16 = codes "fp16"

-- _ENGINE_SUFFIX and _ONNX_SUFFIXES
abbrev pub engine_suffix : Precision → Text
engine_suffix fp32 = codes "fp32"
engine_suffix fp16 = codes "fp16_st"

abbrev pub onnx_suffixes : Precision → List Text
onnx_suffixes fp32 = [] ∷ codes "_op19" ∷ []
onnx_suffixes fp16 = codes "_slim" ∷ codes "_fp16_st" ∷ []

abbrev pub models : List Text
models = codes "n" ∷ codes "s" ∷ codes "m" ∷ codes "l" ∷ codes "x" ∷ []

-- What is resolved: an engine to use, or the source and the output of a build to run.
pub data Resolution : Type 0 where
  use_engine : FilePath → Resolution
  build : FilePath → FilePath → Resolution

-- A stable ascending sort by a key, and its last element.
module _ (key : FilePath → ℕ) where
  unfoldable pub insert : FilePath → List FilePath → List FilePath
  insert x [] = x ∷ []
  insert x (y ∷ ys) = let rest = insert x ys in if leb (key x) (key y) then x ∷ y ∷ ys else y ∷ rest

  unfoldable pub sort : List FilePath → List FilePath
  sort [] = []
  sort (x ∷ xs) = insert x (sort xs)

abbrev pub last : FilePath → List FilePath → FilePath
last x [] = x
last x (y ∷ ys) = last y ys

unfoldable pub filter : (FilePath → Bool) → List FilePath → List FilePath
filter test [] = []
filter test (p ∷ ps) = let rest = filter test ps in if test p then p ∷ rest else rest

module _ (env : Environment) where
  abbrev pub onnx_candidates : Text → Precision → Text → List FilePath
  onnx_candidates model precision base = filter env.exists (
      map (λ (suffix : Text). join base (codes "dfine_" ++ (model ++ (suffix ++ codes ".onnx"))))
        (onnx_suffixes precision))

  abbrev repo_candidates : Text → Precision → Option Text → List FilePath
  repo_candidates model precision none = []
  repo_candidates model precision (some root) =
      onnx_candidates model precision (root ++ codes "/trt-files/onnx")

  abbrev pub first_of : List FilePath → Option FilePath
  first_of [] = none
  first_of (p ∷ _) = some p

  unfoldable pub find_onnx : Text → Precision → Option FilePath → Result (Option FilePath)
  find_onnx model precision (some p) =
      refuse_if (not (env.exists p)) system_exit >> returned (some p)
  find_onnx model precision none = returned (
      first_of (
        onnx_candidates model precision env.cache_dir
        ++ repo_candidates model precision env.repo_root))

  -- An alternate profile of the same artifact, or a build.
  abbrev pub pick : FilePath → FilePath → Bool → List FilePath → Result Resolution
  pick onnx cached allow_build [] =
      if allow_build then returned (build onnx cached) else failed system_exit
  pick onnx cached allow_build (e ∷ es) = elim (sort (profile_max env) (e ∷ es)) [
    | [] ↦ failed system_exit
    | p ∷ ps ↦ returned (use_engine (last p ps))
  ]

  -- The engines of a source: the profile asked for, another, or a build.
  unfoldable pub resolve_source : Text → Precision → FilePath → Bool → ℕ → ℕ → Result Resolution
  resolve_source model precision onnx allow_build opt_batch max_batch =
      let fingerprint = artifact_fingerprint env onnx in
      let sha = env.hexdigest (env.read_bytes onnx) in
      let others =
        filter (λ e. not (foreign env sha e))
          (same_artifact_engines env model (precision_name precision) fingerprint) in
      let cached =
        cache_engine_path env model (precision_name precision) fingerprint opt_batch max_batch
          false in
      if any (same_path cached) others
      then returned (use_engine cached)
      else pick onnx cached allow_build others

  abbrev pub legacy_engine : Text → Precision → FilePath
  legacy_engine model precision =
      join env.cache_dir (name_start env model (precision_name precision) ++ name_end env)

  abbrev pub dev_path : Text → Precision → Text → FilePath
  dev_path model precision root =
      join (root ++ codes "/trt-files/engines")
        (codes "dfine_" ++ (model ++ (codes "_" ++ (engine_suffix precision ++ codes ".engine"))))

  abbrev pub dev_engine : Text → Precision → Option Text → Result Resolution
  dev_engine model precision none = failed system_exit
  dev_engine model precision (some root) =
      if env.exists (dev_path model precision root)
      then returned (use_engine (dev_path model precision root))
      else failed system_exit

  abbrev pub by_hashed : Text → Precision → List Text → Result Resolution
  by_hashed model precision [] =
      if env.exists (legacy_engine model precision)
      then returned (use_engine (legacy_engine model precision))
      else dev_engine model precision env.repo_root
  by_hashed model precision (name ∷ []) = returned (use_engine (join env.cache_dir name))
  by_hashed model precision (_ ∷ _ ∷ _) = failed system_exit

  -- Without a source: an engine whose provenance cannot be verified, if there is one only.
  unfoldable pub resolve_unverified : Text → Precision → Result Resolution
  resolve_unverified model precision =
      by_hashed model precision
        (keep env (is_of_model env model (precision_name precision)) env.cache_files)

  abbrev pub by_source : Text → Precision → Bool → ℕ → ℕ → Option FilePath → Result Resolution
  by_source model precision allow_build opt_batch max_batch none =
      resolve_unverified model precision
  by_source model precision allow_build opt_batch max_batch (some onnx) =
      resolve_source model precision onnx allow_build opt_batch max_batch

  abbrev pub by_model : Option Text → Precision → Option FilePath → Bool → ℕ → ℕ → Result Resolution
  by_model none precision onnx_arg allow_build opt_batch max_batch = failed system_exit
  by_model (some model) precision onnx_arg allow_build opt_batch max_batch =
      refuse_if (not (any (text_eq model) models)) system_exit
      >> (find_onnx model precision onnx_arg
          >>= by_source model precision allow_build opt_batch max_batch)

  unfoldable pub resolve_engine :
      Option Text → Option FilePath → Precision → Option FilePath → Bool → ℕ → ℕ → Result Resolution
  resolve_engine model (some p) precision onnx_arg allow_build opt_batch max_batch =
      refuse_if (not (env.exists p)) system_exit >> returned (use_engine p)
  resolve_engine model none precision onnx_arg allow_build opt_batch max_batch =
      by_model model precision onnx_arg allow_build opt_batch max_batch
