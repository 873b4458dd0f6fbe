-- ===== src/Builder/Options.antt =====
-- The checks that `build` of trt-files/scripts/build_engine.py makes of its options, in their order,
-- before it creates a TensorRT object.
use dfine_cpp.Common.{
  ℕ, ◌+◌, ◌≤◌, ◌≡◌, ◌↔◌, Bool, true, false, ◌&&◌, ◌||◌, Option, List, [], ◌∷◌, ltb, arith,
  if◌then◌else◌,
}
use dfine_cpp.Common.Int.{ℤ}
use dfine_cpp.Common.Result.{
  Result, returned, system_exit, ◌>>◌, refuse_if, refuse_if-returned, bind-returned,
}
use dfine_cpp.Builder.Profile.{
  validate_batch_profile, graph_policy, IsProfile, IsPolicy, validate_batch_profile_iff,
  graph_policy_iff,
}

pub record BuildArgs : Type 0 where
  pub min_batch : ℤ
  pub opt_batch : ℤ
  pub max_batch : ℤ
  pub fp16 : Bool
  pub fp16_decoder_fp32 : Bool
  pub bf16_decoder_fp32 : Bool
  pub int8 : Bool
  pub strongly_typed : Bool
  pub max_aux_streams : Option ℤ
  pub cuda_graph : Bool

-- `sum(bool(x) for x in flags)`
unfoldable pub count : List Bool → ℕ
count [] = 0
count (b ∷ bs) = (if b then 1 else 0) + count bs

abbrev pub precision_flags : BuildArgs → List Bool
precision_flags args = args.fp16 ∷ args.fp16_decoder_fp32 ∷ args.bf16_decoder_fp32 ∷ args.int8 ∷ []

unfoldable pub check_build : BuildArgs → Result (Option ℤ)
check_build args = do
  validate_batch_profile args.min_batch args.opt_batch args.max_batch
  refuse_if (ltb 1 (count (precision_flags args))) system_exit
  refuse_if ((args.fp16_decoder_fp32 || args.bf16_decoder_fp32) && args.strongly_typed) system_exit
  graph_policy args.max_aux_streams args.cuda_graph

-- The options that agree: a profile that is supported, one precision at most, no pinned decoder in a
-- strongly typed network, and a graph policy with its limit.
pub record AreAccepted (args : BuildArgs) (limit : Option ℤ) : Type 0 where
  pub profile : IsProfile args.min_batch args.opt_batch args.max_batch
  pub one_precision : count (precision_flags args) ≤ 1
  pub no_pinning :
      args.strongly_typed ≡ true
      → (args.fp16_decoder_fp32 ≡ false) × (args.bf16_decoder_fp32 ≡ false)
  pub policy : IsPolicy args.max_aux_streams args.cuda_graph limit

module _ (args : BuildArgs) (limit : Option ℤ) where
  accepts : check_build args ≡ returned limit → AreAccepted args limit
  unfolding check_build
  accepts h =
      let (_, profile, h1) =
        bind-returned (validate_batch_profile args.min_batch args.opt_batch args.max_batch) _ limit
          h in
      let (few, h2) =
        refuse_if-returned (ltb 1 (count (precision_flags args))) system_exit _ limit h1 in
      let (unpinned, h3) =
        refuse_if-returned
          ((args.fp16_decoder_fp32 || args.bf16_decoder_fp32) && args.strongly_typed) system_exit
          (graph_policy args.max_aux_streams args.cuda_graph) limit h2 in
      record {
        profile =
            (validate_batch_profile_iff args.min_batch args.opt_batch args.max_batch).0 profile;
        one_precision = ground arith;
        no_pinning = λ strong. (ground (arith, strong), ground (arith, strong));
        policy = (graph_policy_iff args.max_aux_streams args.cuda_graph limit).0 h3;
      }

  returns : AreAccepted args limit → check_build args ≡ returned limit
  unfolding check_build
  returns a =
      rw ((validate_batch_profile_iff args.min_batch args.opt_batch args.max_batch).1 a.profile) (
        ground (
          arith,
          a.one_precision,
          a.no_pinning,
          (graph_policy_iff args.max_aux_streams args.cuda_graph limit).1 a.policy,
        ))

  -- The options are accepted, with the limit of auxiliary streams, exactly when they agree.
  pub check_build_iff : (check_build args ≡ returned limit) ↔ AreAccepted args limit
  check_build_iff = (accepts, returns)
