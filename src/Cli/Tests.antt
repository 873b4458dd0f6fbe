-- ===== src/Cli/Tests.antt =====
-- An engine cache with a source, an engine for it, one that another source is recorded for, and an
-- engine without a source.
use dfine_cpp.Common.{
  String, ◌≡◌, refl, true, none, some, List, [], ◌∷◌, ◌++◌, Text, text_eq, codes, ◌||◌,
}
use dfine_cpp.Common.Decimal.{digits, value_from}
use dfine_cpp.Common.Result.{returned, failed, system_exit}
use dfine_cpp.Publish.{FilePath}
use dfine_cpp.Builder.Paths.{last_dot, split_suffix}
use dfine_cpp.Cli.Cache.{
  Environment, missing, text, take, strip, ends_with, matches_middle, take_digits, max_in_name,
  artifact_fingerprint, keep, is_of_model, same_artifact_engines, engine_meta, foreign, profile_max,
  join,
}
use dfine_cpp.Cli.Resolve.{
  fp32, precision_name, use_engine, insert, sort, filter, find_onnx, resolve_source,
  resolve_unverified, resolve_engine,
}
use dfine_cpp.Cli.Identity.{
  IsResolved, IsSole, resolve_engine-IsResolved, resolve_unverified-IsSole,
}

abbrev entry : String → String → Text
entry hash profile =
    codes "dfine_m_fp32-"
    ++ (codes hash ++ (codes "-" ++ (codes profile ++ codes "-sm89-trt10.engine")))

abbrev own : Text
own = entry "abc" "b1-1-8"

abbrev foreign_one : Text
foreign_one = entry "abc" "b1-4-32"

abbrev source : FilePath
source = join (codes "c") (codes "dfine_m.onnx")

abbrev environment : List Text → Environment
environment files = record {
  cache_dir = codes "c";
  cache_files = files;
  repo_root = none;
  exists =
      λ p. text_eq p.name (codes "dfine_m.onnx") || text_eq p.name (foreign_one ++ codes ".json");
  read_bytes = λ _. codes "abc";
  hexdigest = λ s. s;
  read_meta = λ _. some (record { onnx_sha256 = text (codes "fff"); max_batch = missing });
  gpu_arch = codes "89";
  trt_version = codes "10";
}

resolves :
    resolve_engine (environment (own ∷ foreign_one ∷ [])) (some (codes "m")) none fp32 none true 2 4
    ≡ returned (use_engine (join (codes "c") own))
unfolding resolve_engine find_onnx filter resolve_source same_artifact_engines keep
    artifact_fingerprint take strip ends_with foreign engine_meta profile_max max_in_name
    take_digits insert sort split_suffix last_dot digits value_from text_eq
resolves = refl

finds :
    find_onnx (environment (own ∷ foreign_one ∷ [])) (codes "m") fp32 none ≡ returned (some source)
unfolding find_onnx filter text_eq
finds = refl

resolve_engine-IsResolved_example :
    IsResolved
      (environment (own ∷ foreign_one ∷ []))
      (codes "m")
      fp32
      source
      true
      2
      4
      (use_engine (join (codes "c") own))
resolve_engine-IsResolved_example =
    resolve_engine-IsResolved (environment (own ∷ foreign_one ∷ [])) (codes "m") fp32 none source
      true 2 4 (use_engine (join (codes "c") own)) finds resolves

unverified :
    resolve_unverified (environment (own ∷ [])) (codes "m") fp32
    ≡ returned (use_engine (join (codes "c") own))
unfolding resolve_unverified keep strip ends_with matches_middle text_eq
unverified = refl

resolve_unverified-IsSole_example :
    IsSole (environment (own ∷ [])) (codes "m") fp32 (use_engine (join (codes "c") own)) (
      keep
        (environment (own ∷ []))
        (is_of_model (environment (own ∷ [])) (codes "m") (precision_name fp32))
        (own ∷ []))
resolve_unverified-IsSole_example =
    resolve_unverified-IsSole (environment (own ∷ [])) (codes "m") fp32
      (use_engine (join (codes "c") own)) unverified

refuses_several :
    resolve_unverified (environment (own ∷ foreign_one ∷ [])) (codes "m") fp32 ≡ failed system_exit
unfolding resolve_unverified keep strip ends_with matches_middle text_eq
refuses_several = refl
