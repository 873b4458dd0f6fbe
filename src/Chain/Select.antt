-- ===== src/Chain/Select.antt =====
-- `_select_metrics`, `_protocol_manifest` and `_parse_stage`: the parts of a report that a stage
-- names.
use dfine_cpp.Common.{
  ℕ, Bool, true, false, not, Option, none, some, List, [], ◌∷◌, Text, codes, ◌&&◌, ◌||◌, ◌==◌,
  if◌then◌else◌, all, leb,
}
use dfine_cpp.Common.Decimal.{is_digit}
use dfine_cpp.Common.Split.{partition}
use dfine_cpp.Common.Result.{
  Result, returned, failed, value_error, argument_error, ◌>>=◌, ◌>>◌, refuse_if,
}
use dfine_cpp.Json.{Value, Fields, null, empty, field, get, has_key}
use dfine_cpp.Chain.Require.{
  require_object, require_exact_keys, require_fields, require_nonempty_string, require_sha256,
  require_at,
}
use dfine_cpp.Chain.Model.{ModelContract, validate_model_contract}
use dfine_cpp.Chain.Lineage.{Artifact, Lineage, validate_lineage}

abbrev sole_key : Fields → Result Text
sole_key (field k v empty) = returned k
sole_key _ = failed value_error

-- The selector, or the only backend.
abbrev pub select : Option Text → Fields → Result Text
select none backends = sole_key backends
select (some selector) backends = returned selector

abbrev artifact_fields : List Text
artifact_fields = codes "kind" ∷ codes "sha256" ∷ codes "recipe" ∷ codes "runtime" ∷ []

unfoldable pub read_artifact : Value → Result Artifact
read_artifact value = do
  artifact ← require_object value
  require_fields artifact_fields artifact
  k ← require_at require_nonempty_string (codes "kind") artifact
  hash ← require_at require_sha256 (codes "sha256") artifact
  rule ← require_at require_nonempty_string (codes "recipe") artifact
  engine_runtime ← require_at require_nonempty_string (codes "runtime") artifact
  returned (record { kind = k; sha256 = hash; recipe = rule; runtime = engine_runtime })

-- The contract and the lineage, recorded together or not at all.
abbrev pub read_identity : Artifact → Value → Value → Result (Option (ModelContract × Lineage))
read_identity artifact null null = returned none
read_identity artifact null _ = failed value_error
read_identity artifact _ null = failed value_error
read_identity artifact recorded origin = do
  contract ← validate_model_contract recorded
  lineage ← validate_lineage contract artifact origin
  returned (some (contract, lineage))

pub record Selection : Type 0 where
  pub backend : Text
  pub metrics : Fields
  pub artifact : Artifact
  pub identity : Option (ModelContract × Lineage)

unfoldable pub select_metrics : Option Text → Fields → Result Selection
select_metrics selector report = do
  backends ← require_object (get (codes "backends") report)
  chosen ← select selector backends
  refuse_if (not (has_key chosen backends)) value_error
  entry ← require_at require_object chosen backends
  record_of ← read_artifact (get (codes "artifact") entry)
  origin ←
      read_identity record_of (get (codes "model_contract") entry) (get (codes "lineage") entry)
  scores ← require_object (get (codes "map") entry)
  returned (record { backend = chosen; metrics = scores; artifact = record_of; identity = origin })

pub record Manifest : Type 0 where
  pub path : Text
  pub sha256 : Text

abbrev manifest_fields : List Text
manifest_fields = codes "path" ∷ codes "sha256" ∷ []

abbrev pub read_manifest : Value → Result (Option Manifest)
read_manifest null = returned none
read_manifest value = do
  manifest ← require_object value
  require_exact_keys manifest_fields manifest
  place ← require_at require_nonempty_string (codes "path") manifest
  hash ← require_at require_sha256 (codes "sha256") manifest
  returned (some (record { path = place; sha256 = hash }))

abbrev pub read_provenance : Value → Result (Option Manifest)
read_provenance null = returned none
read_provenance value = do
  provenance ← require_object value
  read_manifest (get (codes "protocol_manifest") provenance)

unfoldable pub protocol_manifest : Fields → Result (Option Manifest)
protocol_manifest report = read_provenance (get (codes "provenance") report)

abbrev is_alphanumeric : ℕ → Bool
is_alphanumeric c = is_digit c || ((leb b'A' c && leb c b'Z') || (leb b'a' c && leb c b'z'))

-- STAGE_NAME.fullmatch
abbrev pub is_stage_name : Text → Bool
is_stage_name [] = false
is_stage_name (c ∷ s) =
    is_alphanumeric c && all (λ d. is_alphanumeric d || (d == b'_' || (d == b'.' || d == b'-'))) s

abbrev after_colon : Text → Option Text
after_colon [] = none
after_colon (c ∷ s) = if c == b':' then some s else none

abbrev pub add_before : ℕ → Option (Text × Text) → Option (Text × Text) → Option (Text × Text)
add_before c (some (a, b)) here = some (c ∷ a, b)
add_before c none here = here

abbrev cut_here : Option Text → Option (Text × Text)
cut_here none = none
cut_here (some s) = some ([], s)

-- `text.rsplit("::", 1)`: the parts around the last double colon
unfoldable pub split_selector : Text → Option (Text × Text)
split_selector [] = none
split_selector (c ∷ s) =
    add_before c (split_selector s) (if c == b':' then cut_here (after_colon s) else none)

pub record StageSpec : Type 0 where
  pub name : Text
  pub report : Text
  pub selector : Option Text

abbrev is_empty : Text → Bool
is_empty [] = true
is_empty (c ∷ s) = false

abbrev pub read_source : Text → Text → Option (Text × Text) → Result StageSpec
read_source label source none =
    refuse_if (is_empty source) argument_error
    >> returned (record { name = label; report = source; selector = none })
read_source label source (some (path, chosen)) = do
  refuse_if (is_empty chosen) argument_error
  refuse_if (is_empty path) argument_error
  returned (record { name = label; report = path; selector = some chosen })

abbrev pub read_stage : Text × Bool × Text → Result StageSpec
read_stage (label, found, source) = do
  refuse_if (not found) argument_error
  refuse_if (not (is_stage_name label)) argument_error
  read_source label source (split_selector source)

unfoldable pub parse_stage : Text → Result StageSpec
parse_stage value = read_stage (partition b'=' value)
