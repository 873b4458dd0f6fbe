-- ===== src/Sweep/Point.antt =====
-- `Point` of trt-files/scripts/preset_sweep.py and the keys of the work that it shares.
use dfine_cpp.Common.{ℕ, Option, none, some, ◌∷◌, ◌++◌, Text, codes}
use dfine_cpp.Common.Decimal.{decimal}
use dfine_cpp.Common.Split.{replace_code}

-- The (key, value) pairs of a graph, by the keys of GRAPH_KEYS.
pub record Graph : Type 0 where
  pub queries : Option ℕ
  pub cascade : Option Text
  pub eval_idx : Option ℕ

pub data Precision : Type 0 where
  slim fp32 : Precision

pub data Mode : Type 0 where
  enqueue graph_mode : Mode

pub record Profile : Type 0 where
  pub minimum : ℕ
  pub optimum : ℕ
  pub maximum : ℕ

pub record Point : Type 0 where
  pub name : Text
  pub graph : Graph
  pub precision : Precision
  pub profile : Profile
  pub mode : Mode

-- `graph.get("queries", 300)`
abbrev pub queries_or_default : Graph → ℕ
queries_or_default g = elim g.queries [ none ↦ 300 | some n ↦ n ]

abbrev pub cascade_part : Option Text → Text
cascade_part none = replace_code b':' b'-' (codes "none")
cascade_part (some s) = replace_code b':' b'-' s

abbrev pub eval_idx_part : Option ℕ → Text
eval_idx_part none = codes "last"
eval_idx_part (some n) = decimal n

abbrev pub precision_part : Precision → Text
precision_part slim = codes "slim"
precision_part fp32 = codes "fp32"

abbrev pub mode_part : Mode → Text
mode_part enqueue = codes "enqueue"
mode_part graph_mode = codes "graph"

-- f"q{queries}_c{cascade}_e{eval_idx}"
unfoldable pub graph_key : Point → Text
graph_key p =
    b'q'
    ∷ (decimal (queries_or_default p.graph)
        ++ (b'_'
            ∷ b'c'
            ∷ (cascade_part p.graph.cascade ++ (b'_' ∷ b'e' ∷ eval_idx_part p.graph.eval_idx))))

-- f"{self.graph_key}_{self.precision}"
unfoldable pub eval_key : Point → Text
eval_key p = graph_key p ++ (b'_' ∷ precision_part p.precision)

-- f"{minimum}-{optimum}-{maximum}"
abbrev pub profile_part : Profile → Text
profile_part p = decimal p.minimum ++ (b'-' ∷ (decimal p.optimum ++ (b'-' ∷ decimal p.maximum)))

-- f"{self.eval_key}_{minimum}-{optimum}-{maximum}_{self.mode}"
unfoldable pub build_key : Point → Text
build_key p = eval_key p ++ (b'_' ∷ (profile_part p.profile ++ (b'_' ∷ mode_part p.mode)))
