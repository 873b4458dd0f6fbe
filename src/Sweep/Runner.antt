-- ===== src/Sweep/Runner.antt =====
-- `Runner` of trt-files/scripts/preset_sweep.py: the steps of a sweep, the log that it keeps and the
-- units whose failure it remembers. Whether a subprocess ends with code zero is a parameter.
use dfine_cpp.Common.{
  ℕ, ◌+◌, Bool, true, false, Option, none, some, List, [], ◌∷◌, ◌++◌, Text, text_eq, ◌||◌,
  if◌then◌else◌,
}
use dfine_cpp.Common.Result.{Result, returned, failed, system_exit}

-- An entry of the log; the name of a step is made of its number and its label.
pub record Step : Type 0 where
  pub number : ℕ
  pub label : Text
  pub argv : List Text
  pub cached : Bool

-- A dictionary in order of insertion.
abbrev pub Dict : Type 0 → Type 0
Dict A = List (Text × A)

unfoldable pub find : {A : Type 0} → Text → Dict A → Option A
find key [] = none
find key ((k, x) ∷ rest) = let later = find key rest in if text_eq key k then some x else later

abbrev pub is_in : {A : Type 0} → Text → Dict A → Bool
is_in key d = elim (find key d) [ none ↦ false | some _ ↦ true ]

pub record Runner : Type 0 where
  pub keep_going : Bool
  pub log : List Step
  pub failures : Dict Step
  pub index : ℕ

-- The runner after a step is begun.
abbrev pub logged : Step → Runner → Runner
logged s r = record {
  keep_going = r.keep_going;
  log = r.log ++ (s ∷ []);
  failures = r.failures;
  index = r.index + 1;
}

abbrev pub marked : Text → Step → Runner → Runner
marked key s r = record {
  keep_going = r.keep_going;
  log = r.log;
  failures = r.failures ++ ((key, s) ∷ []);
  index = r.index;
}

abbrev pub next_step : Text → List Text → Bool → Runner → Step
next_step label argv cached r = record {
  number = r.index + 1;
  label = label;
  argv = argv;
  cached = cached;
}

-- `failures.setdefault(key, step)`
abbrev pub marked_once : Text → Step → Runner → Runner
marked_once key s r = if is_in key r.failures then r else marked key s r

-- Mark `key` as failed if one of the others has failed.
unfoldable pub inherit : Text → List Text → Runner → Bool × Runner
inherit key [] r = (false, r)
inherit key (source ∷ upstream) r = elim (find source r.failures) [
  | some s ↦ (true, marked_once key s r)
  | none ↦ inherit key upstream r
]

module _ (succeeds : Step → Bool) where
  -- A step that is reused, or whose subprocess succeeds, raises no StepFailure.
  abbrev pub passes : Step → Bool
  passes s = s.cached || succeeds s

  -- One unit; false if its output is not to be trusted. Without `keep_going` a failure ends the
  -- sweep.
  unfoldable pub guarded : Text → Text → List Text → Bool → Runner → Result (Bool × Runner)
  guarded key label argv cached r =
      let s = next_step label argv cached r in
      if is_in key r.failures
      then returned (false, r)
      else if passes s
      then returned (true, logged s r)
      else if r.keep_going
      then returned (false, marked key s (logged s r))
      else failed system_exit
