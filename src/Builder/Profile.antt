-- ===== src/Builder/Profile.antt =====
-- `_validate_batch_profile` and `_graph_policy` of trt-files/scripts/build_engine.py, and
-- `_validate_batch_profile` of python/dfine/cli.py.
use dfine_cpp.Common.{
  ◌≡◌, ◌↔◌, inl, inr, Bool-cases, Bool, true, false, not, ◌&&◌, ◌||◌, Option, none, some, arith,
  if◌then◌else◌,
}
use dfine_cpp.Common.Int.{ℤ, pos, ◌≤ℤ◌, ltb_ℤ, leb_ℤ, eqb_ℤ, eqb_ℤ→eq}
use dfine_cpp.Common.Result.{Result, returned, system_exit, ◌>>◌, refuse_if}

unfoldable pub validate_batch_profile : ℤ → ℤ → ℤ → Result (Unit {0})
validate_batch_profile min_batch opt_batch max_batch = do
  refuse_if
      (ltb_ℤ min_batch (pos 1) || not (leb_ℤ min_batch opt_batch && leb_ℤ opt_batch max_batch))
      system_exit
  refuse_if (eqb_ℤ min_batch max_batch && not (eqb_ℤ min_batch (pos 1))) system_exit

-- The command line's own check, made before an engine is looked up.
unfoldable pub validate_cli_profile : ℤ → ℤ → Result (Unit {0})
validate_cli_profile opt_batch max_batch =
    refuse_if (ltb_ℤ opt_batch (pos 1) || ltb_ℤ max_batch (pos 1) || ltb_ℤ max_batch opt_batch)
      system_exit

-- `max_aux_streams not in (None, 0)`
abbrev sets_streams : Option ℤ → Bool
sets_streams none = false
sets_streams (some n) = not (eqb_ℤ n (pos 0))

abbrev is_negative : Option ℤ → Bool
is_negative none = false
is_negative (some n) = ltb_ℤ n (pos 0)

unfoldable pub graph_policy : Option ℤ → Bool → Result (Option ℤ)
graph_policy max_aux_streams cuda_graph_alias = do
  refuse_if (is_negative max_aux_streams) system_exit
  if cuda_graph_alias
      then refuse_if (sets_streams max_aux_streams) system_exit >> returned (some (pos 0))
      else returned max_aux_streams

-- The profiles that a build accepts.
abbrev pub IsProfile : ℤ → ℤ → ℤ → Type 0
IsProfile min_batch opt_batch max_batch =
    (pos 1 ≤ℤ min_batch)
    × (min_batch ≤ℤ opt_batch)
    × (opt_batch ≤ℤ max_batch)
    × (min_batch ≡ max_batch → max_batch ≡ pos 1)

-- A build accepts exactly the profiles 1 <= min <= opt <= max that are no static batch above 1.
pub validate_batch_profile_iff :
    (min_batch opt_batch max_batch : ℤ)
    → (validate_batch_profile min_batch opt_batch max_batch ≡ returned tt)
      ↔ IsProfile min_batch opt_batch max_batch
unfolding validate_batch_profile
validate_batch_profile_iff min_batch opt_batch max_batch = (
  λ h. (ground arith, ground arith, ground arith, λ e. ground arith),
  λ (a, b, c, d). elim (Bool-cases (eqb_ℤ min_batch max_batch)) [
    | inl e ↦ let at = d (eqb_ℤ→eq min_batch max_batch e) in ground arith
    | inr ne ↦ ground arith
  ],
)

-- The command line accepts a profile exactly when the build that it starts, with a least batch of
-- one, accepts it.
pub validate_cli_profile-validate_batch_profile :
    (opt_batch max_batch : ℤ)
    → validate_cli_profile opt_batch max_batch ≡ validate_batch_profile (pos 1) opt_batch max_batch
unfolding validate_cli_profile validate_batch_profile
validate_cli_profile-validate_batch_profile opt_batch max_batch = ground arith

-- The policies that are not contradictory, with the limit that each sets.
abbrev pub IsPolicy : Option ℤ → Bool → Option ℤ → Type 0
IsPolicy none true limit = limit ≡ some (pos 0)
IsPolicy (some n) true limit = (n ≡ pos 0) × (limit ≡ some (pos 0))
IsPolicy none false limit = limit ≡ none
IsPolicy (some n) false limit = (pos 0 ≤ℤ n) × (limit ≡ some n)

-- `--cuda-graph` sets the limit to zero, and is refused beside a limit that is not zero. Without
-- it the limit is the one asked for, and a negative one is refused.
pub graph_policy_iff :
    (max_aux_streams : Option ℤ) (cuda_graph_alias : Bool) (limit : Option ℤ)
    → (graph_policy max_aux_streams cuda_graph_alias ≡ returned limit)
      ↔ IsPolicy max_aux_streams cuda_graph_alias limit
unfolding graph_policy
graph_policy_iff none true limit = (λ h. cc, λ e. cc)
graph_policy_iff none false limit = (λ h. cc, λ e. cc)
graph_policy_iff (some n) true limit = (λ h. (ground arith, ground arith), λ (z, e). ground arith)
graph_policy_iff (some n) false limit = (λ h. (ground arith, ground arith), λ (le, e). ground arith)
