-- ===== src/Builder/Engine.antt =====
-- `_engine_batch_facts` of trt-files/scripts/build_engine.py: the batch contract that a built
-- engine reports, checked against the one that was asked for.
use dfine_cpp.Common.{
  ℕ, ap, ◌≡◌, refl, sym, ◌↔◌, ◌≢◌, ◌⊎◌, inl, inr, Bool-cases, Bool, true, false, not, ◌&&◌, arith,
  List, [], ◌∷◌, length, all, ◌==◌,
}
use mathlib.Core.Path.{subst}
use dfine_cpp.Common.Int.{
  ℤ, pos, negsuc, ◌≤ℤ◌, ltb_ℤ, eqb_ℤ, eqb_ℤ→eq, ints_eq, ints_eq_refl, ints_eq→eq,
}
use dfine_cpp.Common.Result.{
  Result, returned, failed, runtime_error, index_error, value_error, ◌>>=◌, ◌>>◌, refuse_if,
}

-- What TensorRT reports of an engine: `num_optimization_profiles`, `get_tensor_shape` and
-- `get_tensor_profile_shape` of the input.
pub record EngineView : Type 0 where
  pub num_optimization_profiles : ℕ
  pub tensor_shape : List ℤ
  pub profile_shapes : List (List ℤ)

pub record BatchFacts : Type 0 where
  pub dynamic_batch : Bool
  pub min_batch : ℤ
  pub opt_batch : ℤ
  pub max_batch : ℤ

abbrev dynamic : ℤ
dynamic = negsuc 0

-- Four dimensions, the last three `chw`, and a first that is accepted.
abbrev is_shape : (ℤ → Bool) → List ℤ → List ℤ → Bool
is_shape accept chw [] = false
is_shape accept chw (batch ∷ dims) = (length dims == 3) && (ints_eq dims chw && accept batch)

abbrev is_input_batch : ℤ → Bool
is_input_batch batch = not (eqb_ℤ batch (pos 0)) && not (ltb_ℤ batch dynamic)

-- `shape[0]`
abbrev first : List ℤ → Result ℤ
first [] = failed index_error
first (batch ∷ _) = returned batch

unfoldable pub shapes_eq : List (List ℤ) → List (List ℤ) → Bool
shapes_eq [] [] = true
shapes_eq (a ∷ s) (b ∷ t) = ints_eq a b && shapes_eq s t
shapes_eq _ _ = false

abbrev pub Requested : Type 0
Requested = ℤ × ℤ × ℤ

abbrev expected_shapes : List ℤ → Requested → List (List ℤ)
expected_shapes chw (min_batch, opt_batch, max_batch) =
    (min_batch ∷ chw) ∷ (opt_batch ∷ chw) ∷ (max_batch ∷ chw) ∷ []

abbrev facts_of : Bool → List (List ℤ) → Result BatchFacts
facts_of is_dynamic ((min_batch ∷ _) ∷ (opt_batch ∷ _) ∷ (max_batch ∷ _) ∷ []) = returned (record {
  dynamic_batch = is_dynamic;
  min_batch = min_batch;
  opt_batch = opt_batch;
  max_batch = max_batch;
})
facts_of is_dynamic _ = failed value_error

unfoldable pub engine_batch_facts : EngineView → List ℤ → Requested → Result BatchFacts
engine_batch_facts engine chw requested = do
  refuse_if (not (engine.num_optimization_profiles == 1)) runtime_error
  let shape = engine.tensor_shape
  refuse_if (not (is_shape is_input_batch chw shape)) runtime_error
  let profile_shapes = engine.profile_shapes
  refuse_if
      (not (
        (length profile_shapes == 3)
        && all (is_shape (λ batch. not (ltb_ℤ batch (pos 1))) chw) profile_shapes))
      runtime_error
  batch ← first shape
  let dynamic_batch = eqb_ℤ batch dynamic
  refuse_if (not dynamic_batch && not (eqb_ℤ batch (pos 1))) runtime_error
  refuse_if (not (shapes_eq profile_shapes (expected_shapes chw requested))) runtime_error
  facts_of dynamic_batch profile_shapes

shapes_eq→eq : (s t : List (List ℤ)) → shapes_eq s t ≡ true → s ≡ t
unfolding shapes_eq
shapes_eq→eq [] [] h = refl
shapes_eq→eq (a ∷ s) (b ∷ t) h = cc (ints_eq→eq a b (ground arith), shapes_eq→eq s t (ground arith))
shapes_eq→eq [] (b ∷ t) h = cc
shapes_eq→eq (a ∷ s) [] h = cc

-- The engines with the batch contract asked for: a dynamic input, or one of batch one, and the
-- profile requested.
pub record Conforms (engine : EngineView) (chw : List ℤ) (requested : Requested) : Type 0 where
  pub one_profile : engine.num_optimization_profiles ≡ 1
  pub three : length chw ≡ 3
  pub batch : ℤ
  pub input : engine.tensor_shape ≡ batch ∷ chw
  pub supported : (batch ≡ dynamic) ⊎ (batch ≡ pos 1)
  pub profile : engine.profile_shapes ≡ expected_shapes chw requested
  pub positive : (pos 1 ≤ℤ requested.0) × (pos 1 ≤ℤ requested.1) × (pos 1 ≤ℤ requested.2)

abbrev pub facts_for : ℤ → Requested → BatchFacts
facts_for batch (min_batch, opt_batch, max_batch) = record {
  dynamic_batch = eqb_ℤ batch dynamic;
  min_batch = min_batch;
  opt_batch = opt_batch;
  max_batch = max_batch;
}

not-false : {b : Bool} → not b ≡ false → b ≡ true
not-false {b} h = ground arith

shape_of :
    (accept : ℤ → Bool) (chw : List ℤ) (batch : ℤ) (dims : List ℤ)
    → is_shape accept chw (batch ∷ dims) ≡ true
    → (dims ≡ chw) × (length dims ≡ 3) × (accept batch ≡ true)
shape_of accept chw batch dims h = (ints_eq→eq dims chw (ground arith), ground arith, ground arith)

module _ (chw : List ℤ) (requested : Requested) where
  -- The checks of a profile that is the one requested.
  positive_of :
      all (is_shape (λ batch. not (ltb_ℤ batch (pos 1))) chw) (expected_shapes chw requested) ≡ true
      → (pos 1 ≤ℤ requested.0) × (pos 1 ≤ℤ requested.1) × (pos 1 ≤ℤ requested.2)
  positive_of h = (ground arith, ground arith, ground arith)

  conforms :
      (n : ℕ) (shape : List ℤ) (ps : List (List ℤ)) (facts : BatchFacts)
      → engine_batch_facts
          (record { num_optimization_profiles = n; tensor_shape = shape; profile_shapes = ps })
          chw
          requested
        ≡ returned facts
      → (c : Conforms
          (record { num_optimization_profiles = n; tensor_shape = shape; profile_shapes = ps })
          chw
          requested)
        × (facts ≡ facts_for c.batch requested)
  unfolding engine_batch_facts
  conforms n [] ps facts h = absurd (no_shape h)
    where
      no_shape :
          engine_batch_facts
            (record { num_optimization_profiles = n; tensor_shape = []; profile_shapes = ps })
            chw
            requested
          ≢ returned facts
      no_shape e = ground arith
  conforms n (batch ∷ dims) ps facts h =
      let input : is_shape is_input_batch chw (batch ∷ dims) ≡ true = ground arith in
      let listed : all (is_shape (λ batch. not (ltb_ℤ batch (pos 1))) chw) ps ≡ true =
        ground arith in
      let same : shapes_eq ps (expected_shapes chw requested) ≡ true = ground arith in
      let kind : (not (eqb_ℤ batch dynamic) && not (eqb_ℤ batch (pos 1))) ≡ false = ground arith in
      let facts_eq : facts_of (eqb_ℤ batch dynamic) ps ≡ returned facts = ground arith in
      let (dims_chw, three, _) = shape_of is_input_batch chw batch dims input in
      let profile = shapes_eq→eq ps (expected_shapes chw requested) same in
      let facts_eq' : facts_of (eqb_ℤ batch dynamic) (expected_shapes chw requested)
          ≡ returned facts =
        subst (λ q. facts_of (eqb_ℤ batch dynamic) q ≡ returned facts) profile facts_eq in
      (
        record {
          one_profile = ground arith;
          three = rw (sym dims_chw) three;
          batch = batch;
          input = ap (λ d. batch ∷ d) dims_chw;
          supported = supports (Bool-cases (eqb_ℤ batch dynamic)) kind;
          profile = profile;
          positive = positive_of (
              subst (λ q. all (is_shape (λ b. not (ltb_ℤ b (pos 1))) chw) q ≡ true) profile listed);
        },
        cc,
      )
    where
      supports :
          ((eqb_ℤ batch dynamic ≡ true) ⊎ (eqb_ℤ batch dynamic ≡ false))
          → (not (eqb_ℤ batch dynamic) && not (eqb_ℤ batch (pos 1))) ≡ false
          → (batch ≡ dynamic) ⊎ (batch ≡ pos 1)
      supports (inl e) k = inl (eqb_ℤ→eq batch dynamic e)
      supports (inr e) k = inr (eqb_ℤ→eq batch (pos 1) (ground arith))

  shapes_eq_refl : shapes_eq (expected_shapes chw requested) (expected_shapes chw requested) ≡ true
  unfolding shapes_eq
  shapes_eq_refl = ground (
    arith,
    ints_eq_refl (requested.0 ∷ chw),
    ints_eq_refl (requested.1 ∷ chw),
    ints_eq_refl (requested.2 ∷ chw),
  )

  facts_at :
      (batch : ℤ)
      → length chw ≡ 3
      → (batch ≡ dynamic) ⊎ (batch ≡ pos 1)
      → (pos 1 ≤ℤ requested.0) × (pos 1 ≤ℤ requested.1) × (pos 1 ≤ℤ requested.2)
      → engine_batch_facts
          (record {
            num_optimization_profiles = 1;
            tensor_shape = batch ∷ chw;
            profile_shapes = expected_shapes chw requested;
          })
          chw
          requested
        ≡ returned (facts_for batch requested)
  unfolding engine_batch_facts
  facts_at batch three (inl e) (p, q, r) = ground (arith, shapes_eq_refl, ints_eq_refl chw)
  facts_at batch three (inr e) (p, q, r) = ground (arith, shapes_eq_refl, ints_eq_refl chw)

-- The facts of an engine are those requested exactly when the engine conforms; every other engine
-- is refused.
pub engine_batch_facts_iff :
    (engine : EngineView) (chw : List ℤ) (requested : Requested) (facts : BatchFacts)
    → (engine_batch_facts engine chw requested ≡ returned facts)
      ↔ ((c : Conforms engine chw requested) × (facts ≡ facts_for c.batch requested))
engine_batch_facts_iff engine chw requested facts = (
  conforms chw requested engine.num_optimization_profiles engine.tensor_shape engine.profile_shapes
      facts,
  λ (c, e). cc (
    c.one_profile,
    c.input,
    c.profile,
    e,
    facts_at chw requested c.batch c.three c.supported c.positive,
  ),
)
