-- ===== src/Cli/Cache.antt =====
-- The engine cache of python/dfine/cli.py: the names of its entries, the fingerprint of a source,
-- and the facts that an engine's sidecar records. The file system, the hash function and the GPU
-- and TensorRT versions are parameters.
use dfine_cpp.Common.{
  ℕ, Bool, true, false, not, Option, none, some, List, [], ◌∷◌, ◌++◌, map, Text, text_eq, codes,
  ◌&&◌, ◌||◌, ◌==◌, if◌then◌else◌, zero, suc,
}
use dfine_cpp.Common.Int.{ℤ, pos, eqb_ℤ, ltb_ℤ, pos_part}
use dfine_cpp.Common.Decimal.{decimal, value, is_digit}
use dfine_cpp.Publish.{FilePath}
use dfine_cpp.Builder.Paths.{split_suffix, renamed, add_suffix}

-- The value of a field of a sidecar: missing, a text, a number, a Boolean, or any other value by
-- whether it is true as a condition.
pub data Field : Type 0 where
  missing : Field
  text : Text → Field
  integer : ℤ → Field
  boolean : Bool → Field
  other : Bool → Field

-- The fields of an engine's sidecar that are read.
pub record Meta : Type 0 where
  pub onnx_sha256 : Field
  pub max_batch : Field

pub record Environment : Type 0 where
  pub cache_dir : Text
  -- the names in the cache directory, sorted
  pub cache_files : List Text
  pub repo_root : Option Text
  pub exists : FilePath → Bool
  pub read_bytes : FilePath → Text
  pub hexdigest : Text → Text
  -- `none` if the file cannot be read as JSON
  pub read_meta : FilePath → Option Meta
  pub gpu_arch : Text
  pub trt_version : Text

abbrev pub join : Text → Text → FilePath
join directory name = record { parent = directory; name = name }

unfoldable pub take : ℕ → Text → Text
take zero s = []
take (suc n) [] = []
take (suc n) (c ∷ s) = c ∷ take n s

-- The rest of a text that starts with another.
unfoldable pub strip : Text → Text → Option Text
strip [] s = some s
strip (c ∷ p) [] = none
strip (c ∷ p) (d ∷ s) = let rest = strip p s in if c == d then rest else none

unfoldable pub ends_with : Text → Text → Bool
ends_with suffix [] = text_eq suffix []
ends_with suffix (c ∷ s) = text_eq suffix (c ∷ s) || ends_with suffix s

-- A name that matches `prefix*suffix`.
abbrev pub matches : Text → Text → Text → Bool
matches prefix suffix name = elim (strip prefix name) [
  | none ↦ false
  | some rest ↦ ends_with suffix rest
]

-- A text that matches `*middle*suffix`.
unfoldable pub matches_middle : Text → Text → Text → Bool
matches_middle middle suffix [] = matches middle suffix []
matches_middle middle suffix (c ∷ s) =
    matches middle suffix (c ∷ s) || matches_middle middle suffix s

abbrev pub no_meta : Meta
no_meta = record { onnx_sha256 = missing; max_batch = missing }

abbrev is_true : Field → Bool
is_true missing = false
is_true (text []) = false
is_true (text (_ ∷ _)) = true
is_true (integer n) = not (eqb_ℤ n (pos 0))
is_true (boolean b) = b
is_true (other b) = b

abbrev is_text : Text → Field → Bool
is_text s (text t) = text_eq t s
is_text s _ = false

-- `isinstance(mb, int) and mb > 0`, where a Boolean is an integer.
abbrev positive_int : Field → Option ℕ
positive_int (integer n) = if ltb_ℤ (pos 0) n then some (pos_part n) else none
positive_int (boolean true) = some 1
positive_int _ = none

-- A run of digits and what follows it.
unfoldable pub take_digits : Text → Text × Text
take_digits [] = ([], [])
take_digits (c ∷ s) =
    let (run, rest) = take_digits s in if is_digit c then (c ∷ run, rest) else ([], c ∷ s)

abbrev skip_optional : Text → Text → Text
skip_optional p s = elim (strip p s) [ none ↦ s | some rest ↦ rest ]

abbrev number_before : Text × Text → Option ℕ
number_before ([], rest) = none
number_before (c ∷ run, rest) = elim (strip (codes "-sm") (skip_optional (codes "-g0") rest)) [
  | none ↦ none
  | some _ ↦ some (value (c ∷ run))
]

abbrev number_after : Text × Text → Option ℕ
number_after ([], rest) = none
number_after (c ∷ run, rest) = elim (strip (codes "-") rest) [
  | none ↦ none
  | some s ↦ number_before (take_digits s)
]

-- The group of `-b1-\d+-(\d+)(?:-g0)?-sm`, matched at the start.
abbrev pub max_here : Text → Option ℕ
max_here s = elim (strip (codes "-b1-") s) [
  | none ↦ none
  | some rest ↦ number_after (take_digits rest)
]

-- `re.search` of that pattern, 0 if there is no match.
unfoldable pub max_in_name : Text → ℕ
max_in_name [] = 0
max_in_name (c ∷ s) =
    let later = max_in_name s in elim (max_here (c ∷ s)) [ none ↦ later | some n ↦ n ]

module _ (env : Environment) where
  -- `onnx.with_suffix(".json")` for a name that is not empty.
  abbrev pub sidecar_of : FilePath → FilePath
  sidecar_of p = renamed p ((split_suffix p.name).0 ++ codes ".json")

  unfoldable pub artifact_fingerprint : FilePath → Text
  artifact_fingerprint onnx =
      let sidecar = sidecar_of onnx in
      take 12 (
        env.hexdigest
          (env.read_bytes onnx ++ (if env.exists sidecar then env.read_bytes sidecar else [])))

  abbrev pub name_start : Text → Text → Text
  name_start model precision = codes "dfine_" ++ (model ++ (codes "_" ++ precision))

  abbrev pub name_end : Text
  name_end = codes "-sm" ++ (env.gpu_arch ++ (codes "-trt" ++ (env.trt_version ++ codes ".engine")))

  abbrev pub cache_engine_name : Text → Text → Text → Text → Text
  cache_engine_name model precision fingerprint profile =
      name_start model precision
      ++ (codes "-" ++ (fingerprint ++ (codes "-" ++ (profile ++ name_end))))

  abbrev pub batch_profile : ℕ → ℕ → Bool → Text
  batch_profile opt_batch max_batch cuda_graph =
      codes "b1-"
      ++ (decimal opt_batch
          ++ (codes "-" ++ (decimal max_batch ++ (if cuda_graph then codes "-g0" else []))))

  abbrev pub cache_engine_path : Text → Text → Text → ℕ → ℕ → Bool → FilePath
  cache_engine_path model precision fingerprint opt_batch max_batch cuda_graph =
      join env.cache_dir (
        cache_engine_name model precision fingerprint
          (batch_profile opt_batch max_batch cuda_graph))

  abbrev pub is_of_artifact : Text → Text → Text → Text → Bool
  is_of_artifact model precision fingerprint name =
      matches (name_start model precision ++ (codes "-" ++ (fingerprint ++ codes "-b"))) name_end
        name

  unfoldable pub keep : (Text → Bool) → List Text → List Text
  keep test [] = []
  keep test (name ∷ names) = let rest = keep test names in if test name then name ∷ rest else rest

  unfoldable pub same_artifact_engines : Text → Text → Text → List FilePath
  same_artifact_engines model precision fingerprint =
      map (join env.cache_dir) (keep (is_of_artifact model precision fingerprint) env.cache_files)

  -- The entries of the model and precision with any fingerprint.
  abbrev pub is_of_model : Text → Text → Text → Bool
  is_of_model model precision name = elim (strip (name_start model precision ++ codes "-") name) [
    | none ↦ false
    | some rest ↦ matches_middle (codes "-b") name_end rest
  ]

  abbrev probe : FilePath → Meta → Meta
  probe candidate rest =
      if env.exists candidate
      then elim (env.read_meta candidate) [ none ↦ rest | some m ↦ m ]
      else rest

  unfoldable pub engine_meta : FilePath → Meta
  engine_meta engine = probe (add_suffix engine (codes ".json")) (probe (sidecar_of engine) no_meta)

  -- A recorded source hash that differs from the source's.
  unfoldable pub foreign : Text → FilePath → Bool
  foreign sha engine =
      let recorded = (engine_meta engine).onnx_sha256 in
      is_true recorded && not (is_text sha recorded)

  unfoldable pub profile_max : FilePath → ℕ
  profile_max engine = elim (positive_int (engine_meta engine).max_batch) [
    | none ↦ max_in_name engine.name
    | some n ↦ n
  ]
