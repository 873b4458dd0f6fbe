-- ===== src/Chain/Report.antt =====
-- `build_report`: the stages loaded in order, compared with the first, and every adjacent pair
-- validated as a transition.
use dfine_cpp.Common.{
  ℕ, suc, Bool, false, not, Option, none, some, List, [], ◌∷◌, Text, text_eq, codes, ◌||◌, ◌==◌,
  all, any, ltb, length, map,
}
use dfine_cpp.Common.Whole.{is_space}
use dfine_cpp.Common.Result.{Result, returned, failed, value_error, ◌>>=◌, ◌>>◌, refuse_if}
use dfine_cpp.Json.{Fields, get}
use dfine_cpp.Chain.Decode.{Raw, decode}
use dfine_cpp.Chain.Require.{require_object}
use dfine_cpp.Chain.Protocol.{validate_contract}
use dfine_cpp.Chain.Metrics.{extract_metrics}
use dfine_cpp.Chain.Compare.{Comparable, assert_comparable, Deltas, deltas}
use dfine_cpp.Chain.Transition.{
  Kind, export, runtime, precision, preset, comparison, Stage, validate_transition,
}
use dfine_cpp.Chain.Select.{StageSpec, Manifest, select_metrics, protocol_manifest}

pub record Loaded : Type 0 where
  pub stage : Stage
  pub comparable : Comparable
  pub manifest : Option Manifest

pub record Transition : Type 0 where
  pub kind : Kind
  pub label : Text
  pub lineage_verified : Bool
  pub from_stage : Text
  pub to_stage : Text
  pub delta : Deltas

-- The manifest's hash with the path of every stage.
pub record Protocols : Type 0 where
  pub sha256 : Text
  pub stage_paths : List (Text × Text)

pub record Report : Type 0 where
  pub protocol : Option Protocols
  pub stages : List Loaded
  pub transitions : List Transition

-- TRANSITION_LABELS
abbrev pub label_of : Kind → Text
label_of export = codes "export fidelity"
label_of runtime = codes "backend fidelity"
label_of precision = codes "precision"
label_of preset = codes "preset"
label_of comparison = codes "comparison"

-- `len(names) != len(set(names))`
unfoldable pub has_repeats : List Text → Bool
has_repeats [] = false
has_repeats (n ∷ ns) = any (text_eq n) ns || has_repeats ns

-- `values and len(values) != len(stages) - 1`
abbrev pub is_miscounted {ℓ} : {A : Type ℓ} → List A → ℕ → Bool
is_miscounted [] stages = false
is_miscounted (x ∷ xs) stages = not (suc (length (x ∷ xs)) == stages)

-- The JSON texts of the reports by their paths; none where there is no file that can be read, or no
-- JSON in it.
module _ (documents : Text → Option Raw) where
  abbrev decoded : Option Raw → Result Fields
  decoded none = failed value_error
  decoded (some raw) = decode raw >>= require_object

  abbrev pub read_json : Text → Result Fields
  read_json path = decoded (documents path)

  unfoldable pub load_stage : StageSpec → Result Loaded
  load_stage spec = do
    report ← read_json spec.report
    protocol ← validate_contract report
    selection ← select_metrics spec.selector report
    scores ← extract_metrics protocol.truth.gt_instances protocol.model_space selection.metrics
    manifest ← protocol_manifest report
    let stage : Stage = record {
      name = spec.name;
      backend = selection.backend;
      artifact = selection.artifact;
      identity = selection.identity;
      metrics = scores;
    }
    let comparable : Comparable = record {
      contract = protocol.contract;
      ground_truth = get (codes "ground_truth") report;
      metrics = scores;
    }
    returned (record { stage = stage; comparable = comparable; manifest = manifest })

  unfoldable pub load_stages : List StageSpec → Result (List Loaded)
  load_stages [] = returned []
  load_stages (spec ∷ specs) = do
    first ← load_stage spec
    rest ← load_stages specs
    returned (first ∷ rest)

-- Every later stage is comparable with the first.
unfoldable pub compare_all : Comparable → List Loaded → Result (Unit {0})
compare_all reference [] = returned tt
compare_all reference (s ∷ ss) =
    assert_comparable reference s.comparable >> compare_all reference ss

abbrev pub with_path :
    Text → Text → Option Manifest → Result (List (Text × Text)) → Result (List (Text × Text))
with_path hash name none rest = failed value_error
with_path hash name (some m) rest = do
  refuse_if (not (text_eq m.sha256 hash)) value_error
  paths ← rest
  returned ((name, m.path) ∷ paths)

-- The paths of stages that all record a manifest of one hash.
unfoldable pub manifest_paths : Text → List Loaded → Result (List (Text × Text))
manifest_paths hash [] = returned []
manifest_paths hash (s ∷ ss) = with_path hash s.stage.name s.manifest (manifest_paths hash ss)

abbrev or_else : Option Manifest → Option Manifest → Option Manifest
or_else (some m) o = some m
or_else none o = o

-- The first manifest that a stage records.
unfoldable pub first_manifest : List Loaded → Option Manifest
first_manifest [] = none
first_manifest (s ∷ ss) = or_else s.manifest (first_manifest ss)

abbrev pub protocols_of : Option Manifest → List Loaded → Result (Option Protocols)
protocols_of none stages = returned none
protocols_of (some m) stages = do
  paths ← manifest_paths m.sha256 stages
  returned (some (record { sha256 = m.sha256; stage_paths = paths }))

abbrev pub first_of {ℓ} : {A : Type ℓ} → List A → Option A
first_of [] = none
first_of (x ∷ xs) = some x

abbrev pub rest_of {ℓ} : {A : Type ℓ} → List A → List A
rest_of [] = []
rest_of (x ∷ xs) = xs

abbrev pub chosen_label : List Text → Kind → Text
chosen_label [] kind = label_of kind
chosen_label (label ∷ labels) kind = label

abbrev pub transition_of : Bool → Option Kind → List Text → Stage → Stage → Result Transition
transition_of allow requested labels left right = do
  (found, verified) ← validate_transition left right requested allow
  let text_of = chosen_label labels found
  refuse_if (all is_space text_of) value_error
  change ← deltas left.metrics right.metrics
  returned (record {
    kind = found;
    label = text_of;
    lineage_verified = verified;
    from_stage = left.name;
    to_stage = right.name;
    delta = change;
  })

-- The adjacent pairs, with the kinds and the labels that are given once per pair or not at all.
unfoldable pub transitions_from :
    Bool → List Kind → List Text → Stage → List Loaded → Result (List Transition)
transitions_from allow kinds labels left [] = returned []
transitions_from allow kinds labels left (s ∷ ss) = do
  transition ← transition_of allow (first_of kinds) labels left s.stage
  rest ← transitions_from allow (rest_of kinds) (rest_of labels) s.stage ss
  returned (transition ∷ rest)

abbrev pub assemble : Bool → List Kind → List Text → List Loaded → Result Report
assemble allow kinds labels [] = failed value_error
assemble allow kinds labels (first ∷ rest) = do
  compare_all first.comparable rest
  manifests ← protocols_of (first_manifest (first ∷ rest)) (first ∷ rest)
  pairs ← transitions_from allow kinds labels first.stage rest
  returned (record { protocol = manifests; stages = first ∷ rest; transitions = pairs })

unfoldable pub build_report :
    (Text → Option Raw) → List StageSpec → List Text → List Kind → Bool → Result Report
build_report documents specs labels kinds allow = do
  let stages = length specs
  refuse_if (ltb stages 2) value_error
  refuse_if (has_repeats (map (λ (s : StageSpec). s.name) specs)) value_error
  refuse_if (is_miscounted labels stages) value_error
  refuse_if (is_miscounted kinds stages) value_error
  loaded ← load_stages documents specs
  assemble allow kinds labels loaded
