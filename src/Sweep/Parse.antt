-- ===== src/Sweep/Parse.antt =====
-- `parse_profile` and `parse_point` of trt-files/scripts/preset_sweep.py. A specification is a text
-- of ASCII characters.
use dfine_cpp.Common.{
  ℕ, Bool, true, false, not, Option, none, some, List, [], ◌∷◌, Text, text_eq, codes, all, ◌&&◌,
  ◌||◌, if◌then◌else◌, leb, ◌==◌,
}
use dfine_cpp.Common.Result.{Result, returned, failed, system_exit, ◌>>=◌, ◌>>◌, refuse_if}
use dfine_cpp.Common.Decimal.{value, isdigit, is_digit}
use dfine_cpp.Common.Split.{partition, split}
use dfine_cpp.Sweep.Point.{Graph, Precision, slim, fp32, Mode, enqueue, graph_mode, Profile, Point}
use dfine_cpp.Sweep.Options.{Options, lookup, without, is_empty, parse_options}

abbrev pub read_profile : List Text → Result Profile
read_profile (a ∷ b ∷ c ∷ []) =
    refuse_if (not (isdigit a && (isdigit b && isdigit c))) system_exit
    >> (refuse_if (not (leb 1 (value a) && (leb (value a) (value b) && leb (value b) (value c))))
          system_exit
        >> returned (record { minimum = value a; optimum = value b; maximum = value c }))
read_profile _ = failed system_exit

unfoldable pub parse_profile : Text → Result Profile
parse_profile s = read_profile (split b'/' s)

abbrev is_name_start : ℕ → Bool
is_name_start c = (leb b'a' c && leb c b'z') || is_digit c

-- POINT_NAME.fullmatch
abbrev pub is_point_name : Text → Bool
is_point_name [] = false
is_point_name (c ∷ s) = is_name_start c && all (λ d. is_name_start d || (d == b'_' || d == b'-')) s

abbrev pub preset : Option ℕ → Option Text → Option ℕ → Graph
preset queries cascade eval_idx = record {
  queries = queries;
  cascade = cascade;
  eval_idx = eval_idx;
}

-- PRESET_GRAPHS.get(name)
unfoldable pub preset_graph : Text → Option Graph
preset_graph name =
    if text_eq name (codes "base")
    then some (preset none none none)
    else if text_eq name (codes "q200")
    then some (preset (some 200) none none)
    else if text_eq name (codes "c150")
    then some (preset none (some (codes "1:150")) none)
    else if text_eq name (codes "c100")
    then some (preset none (some (codes "1:100")) none)
    else if text_eq name (codes "fast")
    then some (preset (some 200) (some (codes "1:100")) none)
    else if text_eq name (codes "max")
    then some (preset (some 200) (some (codes "1:100")) (some 2))
    else none

-- The graph keys among the options.
pub record GraphOptions : Type 0 where
  pub queries : Option Text
  pub cascade : Option Text
  pub eval_idx : Option Text

abbrev pub no_options : GraphOptions → Bool
no_options o = is_none o.queries && (is_none o.cascade && is_none o.eval_idx)
  where
    is_none : Option Text → Bool
    is_none none = true
    is_none (some _) = false

abbrev pub read_queries : Option Text → Result (Option ℕ)
read_queries none = returned none
read_queries (some s) =
    refuse_if (not (isdigit s) || leb (value s) 0) system_exit >> returned (some (value s))

abbrev pub is_cascade : Text → Bool
is_cascade s =
    let (layer, separator, keep) = partition b':' s in separator && (isdigit layer && isdigit keep)

abbrev pub read_cascade : Option Text → Result (Option Text)
read_cascade none = returned none
read_cascade (some s) = refuse_if (not (is_cascade s)) system_exit >> returned (some s)

abbrev pub read_eval_idx : Option Text → Result (Option ℕ)
read_eval_idx none = returned none
read_eval_idx (some s) = refuse_if (not (isdigit s)) system_exit >> returned (some (value s))

abbrev pub custom_graph : GraphOptions → Result Graph
custom_graph o = do
  refuse_if (no_options o) system_exit
  queries ← read_queries o.queries
  cascade ← read_cascade o.cascade
  eval_idx ← read_eval_idx o.eval_idx
  returned (preset queries cascade eval_idx)

abbrev pub is_some {ℓ} : {A : Type ℓ} → Option A → Bool
is_some none = false
is_some (some _) = true

-- The copy of a preset, or a graph of its own.
abbrev pub renamed_graph : Option Text → GraphOptions → Result Graph
renamed_graph none o = custom_graph o
renamed_graph (some base) o = elim (preset_graph base) [
  | none ↦ failed system_exit
  | some g ↦ refuse_if (not (no_options o)) system_exit >> returned g
]

unfoldable pub choose_graph : Text → Option Text → GraphOptions → Result Graph
choose_graph name base_graph o = elim (preset_graph name) [
  | some g ↦ refuse_if (not (no_options o) || is_some base_graph) system_exit >> returned g
  | none ↦ renamed_graph base_graph o
]

abbrev pub or_else : Option Text → Text → Text
or_else none s = s
or_else (some t) s = t

abbrev pub read_precision : Text → Result Precision
read_precision s =
    if text_eq s (codes "slim")
    then returned slim
    else if text_eq s (codes "fp32")
    then returned fp32
    else failed system_exit

abbrev pub read_mode : Text → Result Mode
read_mode s =
    if text_eq s (codes "enqueue")
    then returned enqueue
    else if text_eq s (codes "graph")
    then returned graph_mode
    else failed system_exit

-- What `parse_point` does after it has read the options.
unfoldable pub point_of : Text → Options → Result Point
point_of name options = do
  let options1 = without (codes "graph") options
  let options2 =
      without (codes "eval-idx") (without (codes "cascade") (without (codes "queries") options1))
  graph ← choose_graph name (lookup (codes "graph") options) (record {
    queries = lookup (codes "queries") options1;
    cascade = lookup (codes "cascade") options1;
    eval_idx = lookup (codes "eval-idx") options1;
  })
  precision ← read_precision (or_else (lookup (codes "precision") options2) (codes "slim"))
  let options3 = without (codes "precision") options2
  mode ← read_mode (or_else (lookup (codes "mode") options3) (codes "enqueue"))
  let options4 = without (codes "mode") options3
  profile ← parse_profile (or_else (lookup (codes "profile") options4) (codes "1/1/8"))
  refuse_if (not (is_empty (without (codes "profile") options4))) system_exit
  returned
      (record { name = name; graph = graph; precision = precision; profile = profile; mode = mode })

unfoldable pub parse_point : Text → Result Point
parse_point spec = do
  let (name, _, options_text) = partition b':' spec
  refuse_if (not (is_point_name name)) system_exit
  options ←
      if is_empty options_text then returned [] else parse_options (split b',' options_text) []
  point_of name options
