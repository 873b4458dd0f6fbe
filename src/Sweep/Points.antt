-- ===== src/Sweep/Points.antt =====
-- What a specification that `parse_point` accepts gives.
use dfine_cpp.Common.{
  ℕ, ◌≤◌, ◌≡◌, refl, sym, ◌∙◌, inl, inr, Bool, true, false, not, Option, none, some, List, [], ◌∷◌,
  Text, text_eq, codes, ◌&&◌, ◌||◌, if◌then◌else◌, leb, arith, Option-cases,
}
use mathlib.Core.Path.{subst}
use dfine_cpp.Common.Result.{
  returned, failed, system_exit, ◌>>◌, refuse_if, refuse_if-returned, refuse_if-value,
  bind-returned,
}
use dfine_cpp.Common.Decimal.{value, isdigit}
use dfine_cpp.Common.Split.{partition, split}
use dfine_cpp.Sweep.Point.{Graph, Profile, Point, build_key}
use dfine_cpp.Sweep.Options.{Options, lookup, is_empty, parse_options}
use dfine_cpp.Sweep.Parse.{
  read_profile, parse_profile, is_point_name, preset, preset_graph, GraphOptions, no_options,
  read_queries, is_cascade, read_cascade, read_eval_idx, custom_graph, is_some, renamed_graph,
  choose_graph, read_precision, read_mode, point_of, parse_point,
}
use dfine_cpp.Sweep.Parts.{IsCascade, settings}
use dfine_cpp.Sweep.Keys.{build_key-injective}

abbrev pub IsOrdered : Profile → Type 0
IsOrdered p = (1 ≤ p.minimum) × (p.minimum ≤ p.optimum) × (p.optimum ≤ p.maximum)

abbrev pub HasQueries : Option ℕ → Type 0
HasQueries none = Unit
HasQueries (some n) = 1 ≤ n

-- A graph that an export accepts: some query, and a cascade `K:KEEP`.
abbrev pub IsGraph : Graph → Type 0
IsGraph g = HasQueries g.queries × IsCascade g.cascade

pub record IsPoint (p : Point) : Type 0 where
  pub named : is_point_name p.name ≡ true
  pub graph : IsGraph p.graph
  pub ordered : IsOrdered p.profile

read_profile-IsOrdered :
    (parts : List Text) (p : Profile) → read_profile parts ≡ returned p → IsOrdered p
read_profile-IsOrdered [] p h = absurd (cc)
read_profile-IsOrdered (a ∷ []) p h = absurd (cc)
read_profile-IsOrdered (a ∷ b ∷ []) p h = absurd (cc)
read_profile-IsOrdered (a ∷ b ∷ c ∷ []) p h =
    let (_, h1) =
      refuse_if-returned (not (isdigit a && (isdigit b && isdigit c))) system_exit _ p h in
    let (ordered, h2) =
      refuse_if-returned
        (not (leb 1 (value a) && (leb (value a) (value b) && leb (value b) (value c)))) system_exit
        _ p h1 in
    let e : record { minimum = value a; optimum = value b; maximum = value c } ≡ p = cc in
    subst IsOrdered e (ground arith, ground arith, ground arith)
read_profile-IsOrdered (a ∷ b ∷ c ∷ d ∷ ds) p h = absurd (cc)

-- A profile that is accepted has 1 <= min <= opt <= max.
pub parse_profile-IsOrdered : (s : Text) (p : Profile) → parse_profile s ≡ returned p → IsOrdered p
unfolding parse_profile
parse_profile-IsOrdered s p h = read_profile-IsOrdered (split b'/' s) p h

first_of :
    (b : Bool) (x : Graph) (y : Option Graph)
    → IsGraph x
    → ((g : Graph) → y ≡ some g → IsGraph g)
    → (g : Graph) → (if b then some x else y) ≡ some g
    → IsGraph g
first_of true x y hx hy g h = let e : x ≡ g = cc in subst IsGraph e hx
first_of false x y hx hy g h = hy g h

preset_graph-IsGraph : (name : Text) (g : Graph) → preset_graph name ≡ some g → IsGraph g
unfolding preset_graph partition
preset_graph-IsGraph name =
    first_of (text_eq name (codes "base")) _ _ (tt, tt)
      (first_of (text_eq name (codes "q200")) _ _ (omega arith, tt)
        (first_of (text_eq name (codes "c150")) _ _ (tt, refl)
          (first_of (text_eq name (codes "c100")) _ _ (tt, refl)
            (first_of (text_eq name (codes "fast")) _ _ (omega arith, refl)
              (first_of (text_eq name (codes "max")) _ none (omega arith, refl)
                (λ g h. absurd (cc)))))))

read_queries-HasQueries :
    (s : Option Text) (x : Option ℕ) → read_queries s ≡ returned x → HasQueries x
read_queries-HasQueries none x h = let e : none ≡ x = cc in subst HasQueries e tt
read_queries-HasQueries (some s) x h =
    let (positive, h1) =
      refuse_if-returned (not (isdigit s) || leb (value s) 0) system_exit
        (returned (some (value s))) x h in
    let e : some (value s) ≡ x = cc in subst HasQueries e (ground arith)

read_cascade-IsCascade : (s x : Option Text) → read_cascade s ≡ returned x → IsCascade x
read_cascade-IsCascade none x h = let e : none ≡ x = cc in subst IsCascade e tt
read_cascade-IsCascade (some s) x h =
    let (formed, h1) =
      refuse_if-returned (not (is_cascade s)) system_exit (returned (some s)) x h in
    let e : some s ≡ x = cc in subst IsCascade e (ground arith)

custom_graph-IsGraph : (o : GraphOptions) (g : Graph) → custom_graph o ≡ returned g → IsGraph g
custom_graph-IsGraph o g h =
    let (_, h1) = refuse_if-returned (no_options o) system_exit _ g h in
    let (queries, q, h2) = bind-returned (read_queries o.queries) _ g h1 in
    let (cascade, c, h3) = bind-returned (read_cascade o.cascade) _ g h2 in
    let (eval_idx, _, h4) = bind-returned (read_eval_idx o.eval_idx) _ g h3 in
    let e : preset queries cascade eval_idx ≡ g = cc in
    subst IsGraph e
      (read_queries-HasQueries o.queries queries q, read_cascade-IsCascade o.cascade cascade c)

guarded_graph :
    (c : Bool) (x g : Graph)
    → IsGraph x
    → (refuse_if c system_exit >> returned x) ≡ returned g
    → IsGraph g
guarded_graph c x g hx h = subst IsGraph (refuse_if-value c system_exit x g h) hx

renamed_graph-IsGraph :
    (base : Option Text) (o : GraphOptions) (g : Graph)
    → renamed_graph base o ≡ returned g
    → IsGraph g
renamed_graph-IsGraph none o g h = custom_graph-IsGraph o g h
renamed_graph-IsGraph (some base) o g h = elim (Option-cases (preset_graph base)) [
  | inl e ↦
      let k : renamed_graph (some base) o ≡ failed system_exit = rw (e, renamed_graph) refl in
      absurd (cc)
  | inr (x, e) ↦
      let k : renamed_graph (some base) o
          ≡ (refuse_if (not (no_options o)) system_exit >> returned x) =
        rw (e, renamed_graph) refl in
      guarded_graph (not (no_options o)) x g (preset_graph-IsGraph base x e) (sym k ∙ h)
]

choose_graph-IsGraph :
    (name : Text) (base : Option Text) (o : GraphOptions) (g : Graph)
    → choose_graph name base o ≡ returned g
    → IsGraph g
unfolding choose_graph
choose_graph-IsGraph name base o g h = elim (Option-cases (preset_graph name)) [
  | inl e ↦
      let k : choose_graph name base o ≡ renamed_graph base o = rw (e, choose_graph) refl in
      renamed_graph-IsGraph base o g (sym k ∙ h)
  | inr (x, e) ↦
      let c = not (no_options o) || is_some base in
      let k : choose_graph name base o ≡ (refuse_if c system_exit >> returned x) =
        rw (e, choose_graph) refl in
      guarded_graph c x g (preset_graph-IsGraph name x e) (sym k ∙ h)
]

point_of-IsPoint :
    (name : Text) (options : Options) (p : Point)
    → is_point_name name ≡ true
    → point_of name options ≡ returned p
    → IsPoint p
unfolding point_of
point_of-IsPoint name options p named h =
    let (g, graph, h1) =
      bind-returned (choose_graph name (lookup (codes "graph") options) _) _ p h in
    let (precision, _, h2) = bind-returned (read_precision _) _ p h1 in
    let (mode, _, h3) = bind-returned (read_mode _) _ p h2 in
    let (profile, ordered, h4) = bind-returned (parse_profile _) _ p h3 in
    let e = refuse_if-value _ system_exit _ p h4 in
    subst IsPoint e (record {
      named = named;
      graph = choose_graph-IsGraph name _ _ g graph;
      ordered = parse_profile-IsOrdered _ profile ordered;
    })

-- A specification that is accepted gives a name of the permitted characters, a graph with some
-- query and a cascade of the form `K:KEEP` if any, and a profile with 1 <= min <= opt <= max.
pub parse_point-IsPoint : (spec : Text) (p : Point) → parse_point spec ≡ returned p → IsPoint p
unfolding parse_point
parse_point-IsPoint spec p h =
    let (named, h1) =
      refuse_if-returned (not (is_point_name (partition b':' spec).0)) system_exit _ p h in
    let (options, _, h2) =
      bind-returned
        (if is_empty (partition b':' spec).2
          then returned []
          else parse_options (split b',' (partition b':' spec).2) [])
        _ p h1 in
    point_of-IsPoint (partition b':' spec).0 options p (ground arith) h2

-- Two points that are read from specifications and share a build key share what the engine is
-- built from: the settings of the export, the precision, the profile and the mode.
pub parse_point-build_key :
    (s t : Text) (p q : Point)
    → parse_point s ≡ returned p
    → parse_point t ≡ returned q
    → build_key p ≡ build_key q
    → (settings p ≡ settings q)
      × (p.precision ≡ q.precision)
      × (p.profile ≡ q.profile)
      × (p.mode ≡ q.mode)
parse_point-build_key s t p q hs ht e =
    let ip = parse_point-IsPoint s p hs in
    let iq = parse_point-IsPoint t q ht in build_key-injective p q ip.graph.1 iq.graph.1 e
