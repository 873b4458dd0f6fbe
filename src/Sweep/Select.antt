-- ===== src/Sweep/Select.antt =====
-- `resolve_points` of trt-files/scripts/preset_sweep.py: the points of a sweep and its baseline.
use dfine_cpp.Common.{
  ◌≡◌, ◌≢◌, sym, ap, ◌∙◌, ◌⊎◌, inl, inr, Bool, true, false, not, Option, none, some, List, [], ◌∷◌,
  Text, text_eq, codes, ◌&&◌, ◌||◌, any, All, arith, Bool-cases, text_eq_iff, if◌then◌else◌,
}
use mathlib.Core.Path.{subst}
use dfine_cpp.Common.Result.{
  Result, returned, system_exit, ◌>>=◌, ◌>>◌, refuse_if, refuse_if-returned, bind-returned,
}
use dfine_cpp.Sweep.Point.{Point}
use dfine_cpp.Sweep.Parse.{parse_point}

abbrev default_points : List Text
default_points = codes "base" ∷ codes "q200" ∷ codes "c150" ∷ codes "c100" ∷ codes "fast" ∷ []

-- `args.point or list(DEFAULT_POINTS)`
abbrev pub specs_of : List Text → List Text
specs_of [] = default_points
specs_of (s ∷ ss) = s ∷ ss

unfoldable pub parse_points : List Text → Result (List Point)
parse_points [] = returned []
parse_points (s ∷ ss) = do p ← parse_point s; ps ← parse_points ss; returned (p ∷ ps)

-- `len(names) != len(set(names))`
unfoldable pub has_duplicate : List Point → Bool
has_duplicate [] = false
has_duplicate (p ∷ ps) = any (λ (q : Point). text_eq p.name q.name) ps || has_duplicate ps

-- The first point of a name.
unfoldable pub find_point : Text → List Point → Option Point
find_point name [] = none
find_point name (p ∷ ps) =
    let rest = find_point name ps in if text_eq p.name name then some p else rest

abbrev pub is_absent : Option Point → Bool
is_absent none = true
is_absent (some _) = false

unfoldable pub resolve_points : List Text → Text → Bool → Result (List Point × Option Point)
resolve_points point baseline_name no_accuracy = do
  points ← parse_points (specs_of point)
  refuse_if (has_duplicate points) system_exit
  let baseline = find_point baseline_name points
  refuse_if (is_absent baseline && not no_accuracy) system_exit
  returned (points, baseline)

-- The points are those of the specifications, one each.
abbrev pub AreParsed : List Text → List Point → Type 0
AreParsed [] [] = Unit
AreParsed (s ∷ ss) (p ∷ ps) = (parse_point s ≡ returned p) × AreParsed ss ps
AreParsed _ _ = ⊥

abbrev pub HaveDistinctNames : List Point → Type 0
HaveDistinctNames [] = Unit
HaveDistinctNames (p ∷ ps) = All (λ (q : Point). p.name ≢ q.name) ps × HaveDistinctNames ps

abbrev pub IsMember : Point → List Point → Type 0
IsMember p [] = ⊥
IsMember p (q ∷ qs) = (p ≡ q) ⊎ IsMember p qs

-- The baseline has its name and is one of the points; it is missing only if accuracy is off and no
-- point has its name.
abbrev pub IsBaseline : List Point → Text → Bool → Option Point → Type 0
IsBaseline points name no_accuracy none =
    (no_accuracy ≡ true) × All (λ (p : Point). p.name ≢ name) points
IsBaseline points name no_accuracy (some p) = (p.name ≡ name) × IsMember p points

names_apart : (s t : Text) → text_eq s t ≡ false → s ≢ t
names_apart s t h e = both ((text_eq_iff s t).1 e) h
  where
    both : {b : Bool} → b ≡ true → b ≡ false → ⊥
    both a c = cc

parse_points-AreParsed :
    (ss : List Text) (ps : List Point) → parse_points ss ≡ returned ps → AreParsed ss ps
unfolding parse_points
parse_points-AreParsed [] [] h = tt
parse_points-AreParsed [] (p ∷ ps) h = absurd (cc)
parse_points-AreParsed (s ∷ ss) ps h =
    let (q, e, h1) = bind-returned (parse_point s) _ ps h in
    let (qs, es, h2) = bind-returned (parse_points ss) _ ps h1 in
    let same : (q ∷ qs) ≡ ps = cc in
    subst (AreParsed (s ∷ ss)) same (e, parse_points-AreParsed ss qs es)

new_name :
    (p : Point) (ps : List Point)
    → any (λ (q : Point). text_eq p.name q.name) ps ≡ false
    → All (λ (q : Point). p.name ≢ q.name) ps
new_name p [] h = tt
new_name p (q ∷ qs) h = (names_apart p.name q.name (ground arith), new_name p qs (ground arith))

distinct_of : (ps : List Point) → has_duplicate ps ≡ false → HaveDistinctNames ps
unfolding has_duplicate
distinct_of [] h = tt
distinct_of (p ∷ ps) h = (new_name p ps (ground arith), distinct_of ps (ground arith))

find_point-none :
    (name : Text) (ps : List Point)
    → find_point name ps ≡ none
    → All (λ (p : Point). p.name ≢ name) ps
unfolding find_point
find_point-none name [] h = tt
find_point-none name (p ∷ ps) h =
    (names_apart p.name name (ground arith), find_point-none name ps (ground arith))

find_point-some :
    (name : Text) (ps : List Point) (p : Point)
    → find_point name ps ≡ some p
    → (p.name ≡ name) × IsMember p ps
unfolding find_point
find_point-some name [] p h = absurd (cc)
find_point-some name (q ∷ qs) p h = elim (Bool-cases (text_eq q.name name)) [
  | inl same ↦
      let e : q ≡ p = ground arith in
      (ap (λ (x : Point). x.name) (sym e) ∙ (text_eq_iff q.name name).0 same, inl (sym e))
  | inr differ ↦ let (n, m) = find_point-some name qs p (ground arith) in (n, inr m)
]

-- The points of a sweep are read from the specifications in their order and have different names.
-- The baseline is the point of the name asked for; it is missing only if no point has that name
-- and accuracy is turned off.
pub resolve_points_lem :
    (point : List Text) (name : Text) (no_accuracy : Bool) (points : List Point)
    (baseline : Option Point)
    → resolve_points point name no_accuracy ≡ returned (points, baseline)
    → AreParsed (specs_of point) points
      × HaveDistinctNames points
      × IsBaseline points name no_accuracy baseline
unfolding resolve_points
resolve_points_lem point name no_accuracy points baseline h =
    let (ps, parsed, h1) = bind-returned (parse_points (specs_of point)) _ (points, baseline) h in
    let (no_duplicate, h2) =
      refuse_if-returned (has_duplicate ps) system_exit _ (points, baseline) h1 in
    let (present, h3) =
      refuse_if-returned (is_absent (find_point name ps) && not no_accuracy) system_exit
        (returned (ps, find_point name ps)) (points, baseline) h2 in
    let e : ps ≡ points = cc in
    let b : find_point name ps ≡ baseline = cc in
    (
      subst (AreParsed (specs_of point)) e (parse_points-AreParsed (specs_of point) ps parsed),
      subst HaveDistinctNames e (distinct_of ps no_duplicate),
      subst (λ (qs : List Point). IsBaseline qs name no_accuracy baseline) e
          (is_baseline ps baseline b present),
    )
  where
    is_baseline :
        (ps : List Point) (o : Option Point)
        → find_point name ps ≡ o
        → (is_absent (find_point name ps) && not no_accuracy) ≡ false
        → IsBaseline ps name no_accuracy o
    is_baseline ps none f present = (ground (arith, f), find_point-none name ps f)
    is_baseline ps (some p) f present = find_point-some name ps p f
