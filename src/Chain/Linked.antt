-- ===== src/Chain/Linked.antt =====
-- The chain that `build_report` returns.
use dfine_cpp.Common.{
  ◌≤◌, ◌≡◌, refl, sym, Bool, false, Option, List, [], ◌∷◌, Text, arith, ltb, length, All, all, map,
}
use mathlib.Core.Path.{subst}
use dfine_cpp.Common.Whole.{is_space}
use dfine_cpp.Common.Result.{returned, value_error, bind-returned, refuse_if-returned}
use dfine_cpp.Chain.Decode.{Raw}
use dfine_cpp.Chain.Compare.{Comparable, assert_comparable, deltas}
use dfine_cpp.Chain.Transition.{Kind, Stage, validate_transition}
use dfine_cpp.Chain.Verified.{Outcome, validate_transition-Outcome}
use dfine_cpp.Chain.Select.{StageSpec}
use dfine_cpp.Chain.Report.{
  Loaded, Transition, Report, has_repeats, is_miscounted, load_stages, compare_all, protocols_of,
  first_manifest, first_of, rest_of, chosen_label, transition_of, transitions_from, assemble,
  build_report,
}

-- A transition of two stages: their names, an outcome of the validation, and the differences.
abbrev pub IsLink : Bool → Stage → Stage → Transition → Type 0
IsLink allow left right t =
    (t.from_stage ≡ left.name)
    × (t.to_stage ≡ right.name)
    × Outcome t.kind t.lineage_verified allow left.identity right.identity
    × (deltas left.metrics right.metrics ≡ returned t.delta)

-- One transition for every adjacent pair, in order.
abbrev pub AreLinked : Bool → Stage → List Loaded → List Transition → Type 0
AreLinked allow left [] [] = Unit
AreLinked allow left (s ∷ ss) (t ∷ ts) = IsLink allow left s.stage t × AreLinked allow s.stage ss ts
AreLinked allow left [] (t ∷ ts) = ⊥
AreLinked allow left (s ∷ ss) [] = ⊥

abbrev pub IsChain : Bool → List Loaded → List Transition → Type 0
IsChain allow [] ts = ⊥
IsChain allow (first ∷ rest) ts =
    All (λ (s : Loaded). assert_comparable first.comparable s.comparable ≡ returned tt) rest
    × AreLinked allow first.stage rest ts

transition_of-IsLink :
    (allow : Bool) (requested : Option Kind) (labels : List Text) (left right : Stage)
    (t : Transition)
    → transition_of allow requested labels left right ≡ returned t
    → IsLink allow left right t
transition_of-IsLink allow requested labels left right t h =
    let (pair, h0, h1) = bind-returned (validate_transition left right requested allow) _ t h in
    let (a, h2) =
      refuse_if-returned (all is_space (chosen_label labels pair.0)) value_error _ t h1 in
    let (change, h3, h4) = bind-returned (deltas left.metrics right.metrics) _ t h2 in
    let made : Transition = record {
      kind = pair.0;
      label = chosen_label labels pair.0;
      lineage_verified = pair.1;
      from_stage = left.name;
      to_stage = right.name;
      delta = change;
    } in
    let e : made ≡ t = cc in
    let linked : IsLink allow left right made =
      (refl, refl, validate_transition-Outcome left right requested allow pair.1 pair.0 h0, h3) in
    subst (IsLink allow left right) e linked

transitions_from-AreLinked :
    (allow : Bool) (kinds : List Kind) (labels : List Text) (left : Stage) (ss : List Loaded)
    (ts : List Transition)
    → transitions_from allow kinds labels left ss ≡ returned ts
    → AreLinked allow left ss ts
unfolding transitions_from
transitions_from-AreLinked allow kinds labels left [] ts h =
    let e : [] ≡ ts = cc in subst (AreLinked allow left []) e tt
transitions_from-AreLinked allow kinds labels left (s ∷ ss) ts h =
    let (t, h0, h1) =
      bind-returned (transition_of allow (first_of kinds) labels left s.stage) _ ts h in
    let (rest, h2, h3) =
      bind-returned (transitions_from allow (rest_of kinds) (rest_of labels) s.stage ss) _ ts h1 in
    let e : t ∷ rest ≡ ts = cc in
    let linked : AreLinked allow left (s ∷ ss) (t ∷ rest) = (
      transition_of-IsLink allow (first_of kinds) labels left s.stage t h0,
      transitions_from-AreLinked allow (rest_of kinds) (rest_of labels) s.stage ss rest h2,
    ) in
    subst (AreLinked allow left (s ∷ ss)) e linked

compare_all-All :
    (reference : Comparable) (ss : List Loaded)
    → compare_all reference ss ≡ returned tt
    → All (λ (s : Loaded). assert_comparable reference s.comparable ≡ returned tt) ss
unfolding compare_all
compare_all-All reference [] h = tt
compare_all-All reference (s ∷ ss) h =
    let (u, h0, h1) = bind-returned (assert_comparable reference s.comparable) _ tt h in
    (h0, compare_all-All reference ss h1)

assemble-IsChain :
    (allow : Bool) (kinds : List Kind) (labels : List Text) (loaded : List Loaded) (report : Report)
    → assemble allow kinds labels loaded ≡ returned report
    → (report.stages ≡ loaded) × IsChain allow loaded report.transitions
assemble-IsChain allow kinds labels [] report h = cc
assemble-IsChain allow kinds labels (first ∷ rest) report h =
    let (u, h0, h1) = bind-returned (compare_all first.comparable rest) _ report h in
    let (m, h2, h3) =
      bind-returned (protocols_of (first_manifest (first ∷ rest)) (first ∷ rest)) _ report h1 in
    let (ts, h4, h5) =
      bind-returned (transitions_from allow kinds labels first.stage rest) _ report h3 in
    let made : Report = record { protocol = m; stages = first ∷ rest; transitions = ts } in
    let e : made ≡ report = cc in
    let chain : (made.stages ≡ first ∷ rest) × IsChain allow (first ∷ rest) made.transitions = (
      refl,
      (
        compare_all-All first.comparable rest h0,
        transitions_from-AreLinked allow kinds labels first.stage rest ts h4,
      ),
    ) in
    subst (λ (r : Report). (r.stages ≡ first ∷ rest) × IsChain allow (first ∷ rest) r.transitions) e
      chain

-- A report that is built from two or more stages of different names holds them as they were loaded,
-- every later one comparable with the first, and one transition for every adjacent pair, in order,
-- with the pair's names, a verified or allowed outcome, and the differences of its metrics.
pub build_report-IsChain :
    (documents : Text → Option Raw) (specs : List StageSpec) (labels : List Text)
    (kinds : List Kind) (allow : Bool) (report : Report)
    → build_report documents specs labels kinds allow ≡ returned report
    → (2 ≤ length specs)
      × (has_repeats (map (λ (s : StageSpec). s.name) specs) ≡ false)
      × (load_stages documents specs ≡ returned report.stages)
      × IsChain allow report.stages report.transitions
unfolding build_report
build_report-IsChain documents specs labels kinds allow report h =
    let (a, h1) = refuse_if-returned (ltb (length specs) 2) value_error _ report h in
    let (b, h2) =
      refuse_if-returned (has_repeats (map (λ (s : StageSpec). s.name) specs)) value_error _ report
        h1 in
    let (c, h3) =
      refuse_if-returned (is_miscounted labels (length specs)) value_error _ report h2 in
    let (d, h4) = refuse_if-returned (is_miscounted kinds (length specs)) value_error _ report h3 in
    let (loaded, h5, h6) = bind-returned (load_stages documents specs) _ report h4 in
    let (e, chain) = assemble-IsChain allow kinds labels loaded report h6 in
    (
      ground arith,
      b,
      subst (λ ss. load_stages documents specs ≡ returned ss) (sym e) h5,
      subst (λ ss. IsChain allow ss report.transitions) (sym e) chain,
    )
