-- ===== src/Chain/Valid.antt =====
-- Well-formed model contracts: what `_validate_model_contract` accepts, and the contracts that the
-- producers write.
use dfine_cpp.Common.{ℕ, ◌≤◌, ◌<◌, ◌≡◌, true, Option, none, some, Text}
use dfine_cpp.Common.Int.{pos}
use dfine_cpp.Json.{is_among}
use dfine_cpp.Json.Same.{same}
use dfine_cpp.Chain.Require.{is_sha256}
use dfine_cpp.Chain.Model.{ModelContract, model_variants, read_cascade, stretch_preprocess}

-- A contract without a cascade keeps its queries; the cascade K:KEEP of another has K of 0 or
-- more, keeps KEEP queries, and begins with more.
abbrev pub IsCascade : Option Text → ℕ → ℕ → Type 0
IsCascade none initial queries = initial ≡ queries
IsCascade (some s) initial queries =
    (k : ℕ) × (read_cascade s ≡ some (pos k, pos queries)) × (queries < initial)

unfoldable pub IsWellFormed : ModelContract → Type 0
IsWellFormed c =
    (is_among c.variant model_variants ≡ true)
    × ((1 ≤ c.input_h) × (1 ≤ c.input_w) × (1 ≤ c.num_classes))
    × ((1 ≤ c.initial_queries) × (1 ≤ c.num_queries))
    × IsCascade c.cascade c.initial_queries c.num_queries
    × (is_sha256 c.checkpoint_sha256 ≡ true)
    × (same c.preprocess stretch_preprocess ≡ true)
