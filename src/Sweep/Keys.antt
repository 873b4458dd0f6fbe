-- ===== src/Sweep/Keys.antt =====
-- The keys of `Point`, and what two points with one key have in common.
use dfine_cpp.Common.{◌≡◌, refl, sym, ◌∙◌, false, ◌∷◌, ◌++◌, Text}
use dfine_cpp.Common.Decimal.{decimal, decimal-injective}
use dfine_cpp.Common.Split.{contains, parts_injective}
use dfine_cpp.Sweep.Point.{
  Precision, slim, fp32, Profile, Point, queries_or_default, cascade_part, eval_idx_part,
  precision_part, mode_part, profile_part, graph_key, eval_key, build_key,
}
use dfine_cpp.Sweep.Parts.{
  IsCascade, settings, cascade_plain, eval_idx_plain, decimal_plain, decimal_no_dash,
  cascade-injective, eval_idx-injective, precision-injective, mode-injective, append_assoc, tail_of,
}

settings_eq :
    (p q : Point)
    → queries_or_default p.graph ≡ queries_or_default q.graph
    → p.graph.cascade ≡ q.graph.cascade
    → p.graph.eval_idx ≡ q.graph.eval_idx
    → settings p ≡ settings q
settings_eq p q a b c = cc

abbrev graph_tail : Point → Text → Text
graph_tail r x =
    decimal (queries_or_default r.graph)
    ++ (b'_'
        ∷ b'c'
        ∷ (cascade_part r.graph.cascade
            ++ (b'_' ∷ b'e' ∷ (eval_idx_part r.graph.eval_idx ++ (b'_' ∷ x)))))

graph_key_tail : (p : Point) (x : Text) → (graph_key p ++ (b'_' ∷ x)) ≡ (b'q' ∷ graph_tail p x)
unfolding graph_key
graph_key_tail p x =
    rw
      (
        append_assoc (decimal (queries_or_default p.graph)) _ _,
        append_assoc (cascade_part p.graph.cascade) _ _,
      )
      refl

-- The part of a build key behind its settings.
abbrev build_tail : Point → Text
build_tail p =
    precision_part p.precision ++ (b'_' ∷ (profile_part p.profile ++ (b'_' ∷ mode_part p.mode)))

build_key_tail : (p : Point) → build_key p ≡ (b'q' ∷ graph_tail p (build_tail p))
unfolding build_key eval_key
build_key_tail p =
    append_assoc (graph_key p) (b'_' ∷ precision_part p.precision)
      (b'_' ∷ (profile_part p.profile ++ (b'_' ∷ mode_part p.mode)))
    ∙ graph_key_tail p (build_tail p)

precision_plain : (x : Precision) → contains b'_' (precision_part x) ≡ false
precision_plain slim = refl
precision_plain fp32 = refl

profile_tail :
    (p : Profile) (x : Text)
    → (profile_part p ++ (b'_' ∷ x)) ≡ (
        decimal p.minimum
        ++ (b'-' ∷ (decimal p.optimum ++ (b'-' ∷ (decimal p.maximum ++ (b'_' ∷ x))))))
profile_tail p x =
    rw (append_assoc (decimal p.minimum) _ _, append_assoc (decimal p.optimum) _ _) refl

module _ (p q : Point) (hp : IsCascade p.graph.cascade) (hq : IsCascade q.graph.cascade) where
  -- A key begins with its settings, whatever follows them.
  settings_first :
      (x y : Text)
      → (b'q' ∷ graph_tail p x) ≡ (b'q' ∷ graph_tail q y)
      → (settings p ≡ settings q) × (x ≡ y)
  settings_first x y e =
      let (queries, e1) =
        parts_injective b'_' _ _ _ _ (decimal_plain _) (decimal_plain _) (tail_of e) in
      let (cascade, e2) =
        parts_injective b'_' _ _ _ _ (cascade_plain p.graph.cascade hp)
          (cascade_plain q.graph.cascade hq) (tail_of e1) in
      let (eval_idx, e3) =
        parts_injective b'_' _ _ _ _ (eval_idx_plain p.graph.eval_idx)
          (eval_idx_plain q.graph.eval_idx) (tail_of e2) in
      let a = decimal-injective _ _ queries in
      let b = cascade-injective p.graph.cascade q.graph.cascade hp hq cascade in
      let c = eval_idx-injective p.graph.eval_idx q.graph.eval_idx eval_idx in
      (settings_eq p q a b c, e3)

  -- Two points whose graphs have well-formed cascades have one evaluation key only if the settings
  -- of their exports and their precisions are the same.
  pub eval_key-injective :
      eval_key p ≡ eval_key q → (settings p ≡ settings q) × (p.precision ≡ q.precision)
  unfolding eval_key
  eval_key-injective e =
      let (same, rest) =
        settings_first (precision_part p.precision) (precision_part q.precision)
          (sym (graph_key_tail p _) ∙ (e ∙ graph_key_tail q _)) in
      (same, precision-injective p.precision q.precision rest)

  -- They have one build key only if their profiles and their modes are the same as well.
  pub build_key-injective :
      build_key p ≡ build_key q
      → (settings p ≡ settings q)
        × (p.precision ≡ q.precision)
        × (p.profile ≡ q.profile)
        × (p.mode ≡ q.mode)
  build_key-injective e =
      let (same, e1) =
        settings_first (build_tail p) (build_tail q)
          (sym (build_key_tail p) ∙ (e ∙ build_key_tail q)) in
      let (precision, e2) =
        parts_injective b'_' _ _ _ _ (precision_plain p.precision) (precision_plain q.precision)
          e1 in
      let e3 =
        sym (profile_tail p.profile (mode_part p.mode))
        ∙ (e2 ∙ profile_tail q.profile (mode_part q.mode)) in
      let (a, e4) = parts_injective b'-' _ _ _ _ (decimal_no_dash _) (decimal_no_dash _) e3 in
      let (b, e5) = parts_injective b'-' _ _ _ _ (decimal_no_dash _) (decimal_no_dash _) e4 in
      let (c, e6) = parts_injective b'_' _ _ _ _ (decimal_plain _) (decimal_plain _) e5 in
      (
        same,
        precision-injective p.precision q.precision precision,
        same_profile p.profile q.profile (decimal-injective _ _ a) (decimal-injective _ _ b)
            (decimal-injective _ _ c),
        mode-injective p.mode q.mode e6,
      )
    where
      same_profile :
          (x y : Profile)
          → x.minimum ≡ y.minimum
          → x.optimum ≡ y.optimum
          → x.maximum ≡ y.maximum
          → x ≡ y
      same_profile x y u v w = cc
