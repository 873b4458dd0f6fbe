-- ===== src/Cli/Identity.antt =====
-- `_resolve_engine` of python/dfine/cli.py with and without a source.
use dfine_cpp.Common.{
  ℕ, ◌≤◌, ◌≡◌, refl, ◌⊎◌, inl, inr, Bool, true, false, not, Option, none, some, List, [], ◌∷◌, map,
  any, Text, All, text_eq, arith, Bool-cases, if◌then◌else◌,
}
use mathlib.Core.Path.{subst}
use dfine_cpp.Common.Result.{Result, returned, failed, system_exit, ◌>>=◌, refuse_if-returned}
use dfine_cpp.Publish.{FilePath, same_path}
use dfine_cpp.Builder.Paths.{apart}
use dfine_cpp.Cli.Cache.{
  Environment, join, artifact_fingerprint, cache_engine_path, same_artifact_engines, keep,
  is_of_artifact, is_of_model, foreign, profile_max,
}
use dfine_cpp.Cli.Resolve.{
  Precision, precision_name, Resolution, use_engine, build, models, filter, find_onnx, pick,
  resolve_source, resolve_unverified, legacy_engine, dev_path, dev_engine, by_hashed, by_source,
  resolve_engine,
}
use dfine_cpp.Cli.Choice.{Among, any-Among, All-Among, IsPick, pick-IsPick}

module _ (env : Environment) (model : Text) (precision : Precision) (onnx : FilePath) where
  abbrev sha : Text
  sha = env.hexdigest (env.read_bytes onnx)

  -- The engines of the source: cache entries under its fingerprint whose sidecar does not record
  -- another source.
  pub record IsBuiltFrom (e : FilePath) : Type 0 where
    pub in_cache : e.parent ≡ env.cache_dir
    pub named :
        is_of_artifact env model (precision_name precision) (artifact_fingerprint env onnx) e.name
        ≡ true
    pub own : foreign env sha e ≡ false

  abbrev same_engines : List FilePath
  same_engines =
      same_artifact_engines env model (precision_name precision) (artifact_fingerprint env onnx)

  abbrev others : List FilePath
  others = filter (λ e. not (foreign env sha e)) same_engines

  -- What is resolved for a source: the profile asked for if it is there, or the engine of the
  -- largest batch, or a build if there is no engine.
  abbrev pub IsResolved : Bool → ℕ → ℕ → Resolution → Type 0
  IsResolved allow_build opt_batch max_batch r =
      let cached =
        cache_engine_path env model (precision_name precision) (artifact_fingerprint env onnx)
          opt_batch max_batch false in
      ((r ≡ use_engine cached) × IsBuiltFrom cached)
      ⊎ (((p : FilePath) × (r ≡ use_engine p)
            × IsBuiltFrom p
            × (Among cached others → ⊥)
            × All (λ (e : FilePath). profile_max env e ≤ profile_max env p) others)
          ⊎ ((others ≡ []) × (allow_build ≡ true) × (r ≡ build onnx cached)))

  keep-All :
      (test : Text → Bool) (names : List Text)
      → All
          (λ (e : FilePath). (e.parent ≡ env.cache_dir) × (test e.name ≡ true))
          (map (join env.cache_dir) (keep env test names))
  unfolding keep
  keep-All test [] = tt
  keep-All test (name ∷ names) = elim (Bool-cases (test name)) [
    | inl kept ↦ rw kept ((refl, kept), keep-All test names)
    | inr out ↦ rw out (keep-All test names)
  ]

  filter-All :
      (es : List FilePath)
      → All
          (λ (e : FilePath).
            (e.parent ≡ env.cache_dir)
            × (is_of_artifact env model
                  (precision_name precision)
                  (artifact_fingerprint env onnx)
                  e.name
                ≡ true))
          es
      → All IsBuiltFrom (filter (λ e. not (foreign env sha e)) es)
  unfolding filter
  filter-All [] h = tt
  filter-All (e ∷ es) ((at, named), h) = elim (Bool-cases (foreign env sha e)) [
    | inl kept ↦ rw kept (filter-All es h)
    | inr out ↦ rw out (record { in_cache = at; named = named; own = out }, filter-All es h)
  ]

  others_built : All IsBuiltFrom others
  unfolding same_artifact_engines
  others_built = filter-All same_engines (keep-All _ env.cache_files)

  any-false : (p : FilePath) (ps : List FilePath) → any (same_path p) ps ≡ false → Among p ps → ⊥
  any-false p [] h a = a
  any-false p (q ∷ qs) h (inl e) = apart p q (ground arith) e
  any-false p (q ∷ qs) h (inr a) = any-false p qs (ground arith) a

  pub resolve_source-IsResolved :
      (allow_build : Bool) (opt_batch max_batch : ℕ) (r : Resolution)
      → resolve_source env model precision onnx allow_build opt_batch max_batch ≡ returned r
      → IsResolved allow_build opt_batch max_batch r
  unfolding resolve_source
  resolve_source-IsResolved allow_build opt_batch max_batch r h =
      by_test (any (same_path cached) others) refl h
    where
      cached : FilePath
      cached =
          cache_engine_path env model (precision_name precision) (artifact_fingerprint env onnx)
            opt_batch max_batch false

      by_pick :
          (Among cached others → ⊥)
          → IsPick env onnx cached allow_build others r
          → IsResolved allow_build opt_batch max_batch r
      by_pick new (inl (p, e, a, max)) =
          inr (inl (p, e, All-Among IsBuiltFrom p others others_built a, new, max))
      by_pick new (inr b) = inr (inr b)

      by_test :
          (b : Bool)
          → any (same_path cached) others ≡ b
          → (if b then returned (use_engine cached) else pick env onnx cached allow_build others)
            ≡ returned r
          → IsResolved allow_build opt_batch max_batch r
      by_test true e k =
          inl (cc, All-Among IsBuiltFrom cached others others_built (any-Among cached others e))
      by_test false e k =
          by_pick (any-false cached others e) (pick-IsPick env onnx cached allow_build others r k)

-- If no engine is named and the source of a model is found, the engine that is used lies in the
-- cache under the fingerprint of that source, and its sidecar records no other source. It has the
-- profile asked for, or, if there is no such engine, the largest batch of those there are. If there
-- are none the source is built, where that is allowed.
pub resolve_engine-IsResolved :
    (env : Environment) (model : Text) (precision : Precision) (onnx_arg : Option FilePath)
    (onnx : FilePath) (allow_build : Bool) (opt_batch max_batch : ℕ) (r : Resolution)
    → find_onnx env model precision onnx_arg ≡ returned (some onnx)
    → resolve_engine env (some model) none precision onnx_arg allow_build opt_batch max_batch
      ≡ returned r
    → IsResolved env model precision onnx allow_build opt_batch max_batch r
unfolding resolve_engine
resolve_engine-IsResolved env model precision onnx_arg onnx allow_build opt_batch max_batch r found
      h =
    let (_, h1) =
      refuse_if-returned (not (any (text_eq model) models)) system_exit
        (find_onnx env model precision onnx_arg
          >>= by_source env model precision allow_build opt_batch max_batch)
        r h in
    let step = λ (x : Result (Option FilePath)).
      (x >>= by_source env model precision allow_build opt_batch max_batch) ≡ returned r in
    resolve_source-IsResolved env model precision onnx allow_build opt_batch max_batch r
      (subst step found h1)

module _ (env : Environment) (model : Text) (precision : Precision) (r : Resolution) where
  abbrev pub IsThere : Type 0
  IsThere = (p : FilePath) × (r ≡ use_engine p) × (env.exists p ≡ true)

  abbrev pub IsSole : List Text → Type 0
  IsSole names =
      ((name : Text) × (names ≡ (name ∷ [])) × (r ≡ use_engine (join env.cache_dir name)))
      ⊎ ((names ≡ []) × IsThere)

  there_or :
      (p : FilePath) (rest : Result Resolution)
      → (rest ≡ returned r → IsThere)
      → (if env.exists p then returned (use_engine p) else rest) ≡ returned r
      → IsThere
  there_or p rest f h = by_test (env.exists p) refl h
    where
      by_test :
          (b : Bool)
          → env.exists p ≡ b
          → (if b then returned (use_engine p) else rest) ≡ returned r
          → IsThere
      by_test true e k = (p, cc, e)
      by_test false e k = f k

  dev_there : (root : Option Text) → dev_engine env model precision root ≡ returned r → IsThere
  dev_there none h = absurd (cc)
  dev_there (some root) h =
      there_or (dev_path env model precision root) (failed system_exit) (λ k. absurd (cc)) h

  by_hashed-IsSole :
      (names : List Text) → by_hashed env model precision names ≡ returned r → IsSole names
  by_hashed-IsSole [] h = inr (
    refl,
    there_or (legacy_engine env model precision) (dev_engine env model precision env.repo_root)
        (dev_there env.repo_root) h,
  )
  by_hashed-IsSole (name ∷ []) h = inl (name, refl, cc)
  by_hashed-IsSole (a ∷ b ∷ names) h = absurd (cc)

  -- Without a source, an engine that is used is the only fingerprinted entry of the model and
  -- precision; or there is none of those, and it is a file that is there. It is never chosen among
  -- several.
  pub resolve_unverified-IsSole :
      resolve_unverified env model precision ≡ returned r
      → IsSole (keep env (is_of_model env model (precision_name precision)) env.cache_files)
  unfolding resolve_unverified
  resolve_unverified-IsSole h =
      by_hashed-IsSole (keep env (is_of_model env model (precision_name precision)) env.cache_files)
        h
