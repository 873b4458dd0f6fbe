-- ===== src/Publish.antt =====
-- `_publish_pair` of trt-files/scripts/build_engine.py: the replacement of a graph and its sidecar.
pub mod System
pub mod Staging
pub mod Rules
pub mod Effects
pub mod Growth
pub mod Backups
pub mod Held
pub mod Restoring
pub mod Rollback
pub mod Commit
pub mod Readiness
pub mod Calm
pub mod Undo
pub mod Atomic
pub mod Attempted
pub mod Contents
pub mod Success
pub mod Staged
pub mod Delivery
mod Tests
use dfine_cpp.Common.{
  ℕ, Bool, true, false, not, ◌&&◌, ◌||◌, Option, none, some, List, [], ◌∷◌, ◌++◌, map, all, any,
  Text, text_eq, codes, if◌then◌else◌,
}
use System.{
  M, World, Outcome, ok, raised, Exn, is_os_error, value_error, rollback_failed, pure, raise, ◌>>=◌,
  ◌>>◌, finally, on_error, stat_mode, chmod, write_text, unlink_missing_ok, replace, other_call,
}
use Staging.{adjacent_temp, link_backup, restore_output, cleanup}

-- An absolute path: its directory and its name in it.
pub record FilePath : Type 0 where
  pub parent : Text
  pub name : Text

pub record Request : Type 0 where
  pub graph_tmp : FilePath
  pub graph_out : FilePath
  pub sidecar_text : Option Text
  pub sidecar_out : FilePath
  pub stale_sidecar : Option FilePath

abbrev pub stale_list : Option FilePath → List FilePath
stale_list none = []
stale_list (some p) = p ∷ []

abbrev pub outputs : Request → List FilePath
outputs rq = rq.graph_out ∷ rq.sidecar_out ∷ stale_list rq.stale_sidecar

abbrev pub names : List FilePath → List Text
names [] = []
names (p ∷ ps) = p.name ∷ names ps

abbrev pub same_path : FilePath → FilePath → Bool
same_path p q = text_eq p.parent q.parent && text_eq p.name q.name

-- Whether a `set` of the paths has as many members.
abbrev pub distinct : List FilePath → Bool
distinct [] = true
distinct (p ∷ ps) = not (any (same_path p) ps) && distinct ps

unfoldable pub one_directory : Request → World → Bool
one_directory rq w =
    all (λ (p : FilePath). text_eq (w.real p.parent) (w.real rq.graph_out.parent))
      (rq.graph_tmp ∷ outputs rq)

-- The sidecar's text, staged beside it. If it cannot be written both staged files go.
unfoldable pub stage_text : Text → Text → Option Text → M (Option Text)
stage_text graph_tmp sidecar_out none = pure none
stage_text graph_tmp sidecar_out (some text) = do
  tmp ← adjacent_temp sidecar_out (codes ".tmp")
  on_error (write_text tmp text) (cleanup (some graph_tmp ∷ some tmp ∷ []))
  pure (some tmp)

abbrev pub stage_sidecar : Request → M (Option Text)
stage_sidecar rq = stage_text rq.graph_tmp.name rq.sidecar_out.name rq.sidecar_text

-- Give a staged file the mode of the output that it will replace.
unfoldable pub copy_mode : Option Text → Text → M (Unit {0})
copy_mode none target = pure tt
copy_mode (some staged) target = do
  mode ← stat_mode target
  elim mode [ none ↦ pure tt | some m ↦ chmod staged m ]

abbrev pub Backups : Type 0
Backups = List (Text × Option Text)

-- The local variables that the `finally` block reads, with the outcome of the `try` block.
pub record Attempt : Type 0 where
  pub result : Outcome (Unit {0})
  pub backups : Backups
  pub preserve_backups : Bool
  pub world : World

-- One round of the loop below, by what the backup and the rest of the loop came to.
abbrev pub noted :
    Text
    → Outcome (Option Text) × World
    → Outcome (Unit {0}) × Backups × World
    → Outcome (Unit {0}) × Backups × World
noted p (ok b, _) (s, backups, v) = (s, (p, b) ∷ backups, v)
noted p (raised e, v) _ = (raised e, [], v)

-- `for path in outputs: backups[path] = _link_backup(path)`
unfoldable pub take_backups : List Text → World → Outcome (Unit {0}) × Backups × World
take_backups [] w = (ok tt, [], w)
take_backups (p ∷ ps) w = let first = link_backup p w in noted p first (take_backups ps first.1)

abbrev pub replace_sidecar : Option Text → Text → M (Unit {0})
replace_sidecar none out = unlink_missing_ok out
replace_sidecar (some tmp) out = replace tmp out

-- The output that each step changes, with the step.
abbrev pub changes : Request → Option Text → List (Text × M (Unit {0}))
changes rq sidecar_tmp =
    (rq.graph_out.name, replace rq.graph_tmp.name rq.graph_out.name)
    ∷ (rq.sidecar_out.name, replace_sidecar sidecar_tmp rq.sidecar_out.name)
    ∷ map (λ (p : Text). (p, unlink_missing_ok p)) (names (stale_list rq.stale_sidecar))

-- `changed` holds the last output first, the order in which a rollback goes through it.
unfoldable pub run_changes :
    List (Text × M (Unit {0})) → List Text → World → Outcome (Unit {0}) × List Text × World
run_changes [] changed w = (ok tt, changed, w)
run_changes ((p, act) ∷ rest) changed w =
    let (r, w') = act w in
    elim r [ ok _ ↦ run_changes rest (p ∷ changed) w' | raised e ↦ (raised e, p ∷ changed, w') ]

-- `backups.get(path)`
unfoldable pub backup_of : Text → Backups → Option Text
backup_of p [] = none
backup_of p ((q, b) ∷ bs) = if text_eq p q then b else backup_of p bs

-- The outputs that could not be restored; only an `OSError` is caught.
unfoldable pub rollback : List Text → Backups → List Text → World → Outcome (List Text) × World
rollback [] backups errors w = (ok errors, w)
rollback (p ∷ ps) backups errors w =
    let (r, w') = restore_output p (backup_of p backups) w in
    elim r [
      | ok _ ↦ rollback ps backups errors w'
      | raised e ↦ elim (is_os_error e) [
        | true ↦ rollback ps backups (errors ++ (p ∷ [])) w'
        | false ↦ (raised e, w')
      ]
    ]

-- The end of the handler, by what the rollback came to.
abbrev pub conclude : Exn → Backups → Outcome (List Text) × World → Attempt
conclude e backups (raised e', w) = record {
  result = raised e';
  backups = backups;
  preserve_backups = false;
  world = w;
}
conclude e backups (ok [], w) = record {
  result = raised e;
  backups = backups;
  preserve_backups = false;
  world = w;
}
conclude e backups (ok (p ∷ ps), w) = record {
  result = raised (rollback_failed (p ∷ ps));
  backups = backups;
  preserve_backups = true;
  world = w;
}

-- `except BaseException as publish_error`: the outputs that were changed are restored, and the
-- error is raised again unless that fails.
unfoldable pub undo : Exn → List Text → Backups → World → Attempt
undo e changed backups w = conclude e backups (rollback changed backups [] w)

abbrev pub after_changes : Backups → Outcome (Unit {0}) × List Text × World → Attempt
after_changes backups (ok _, changed, w) = record {
  result = ok tt;
  backups = backups;
  preserve_backups = false;
  world = w;
}
after_changes backups (raised e, changed, w) = undo e changed backups w

unfoldable pub commit : List (Text × M (Unit {0})) → Backups → World → Attempt
commit steps backups w = after_changes backups (run_changes steps [] w)

-- The lock is taken and the staged files get their modes.
unfoldable pub prepare : Request → Option Text → M (Unit {0})
prepare rq tmp = do
  other_call
  copy_mode (some rq.graph_tmp.name) rq.graph_out.name
  copy_mode tmp rq.sidecar_out.name

abbrev pub after_backups : Request → Option Text → Outcome (Unit {0}) × Backups × World → Attempt
after_backups rq tmp (raised e, backups, w) = record {
  result = raised e;
  backups = backups;
  preserve_backups = false;
  world = w;
}
after_backups rq tmp (ok _, backups, w) = commit (changes rq tmp) backups w

abbrev pub after_prepare : Request → Option Text → Outcome (Unit {0}) × World → Attempt
after_prepare rq tmp (raised e, w) = record {
  result = raised e;
  backups = [];
  preserve_backups = false;
  world = w;
}
after_prepare rq tmp (ok _, w) = after_backups rq tmp (take_backups (names (outputs rq)) w)

-- The `try` block under the lock.
unfoldable pub attempt : Request → Option Text → World → Attempt
attempt rq tmp w = after_prepare rq tmp (prepare rq tmp w)

abbrev pub values : Backups → List (Option Text)
values [] = []
values ((_, b) ∷ bs) = b ∷ values bs

-- `*(() if preserve_backups else backups.values())`
abbrev pub leftovers : Request → Option Text → Attempt → List (Option Text)
leftovers rq tmp a =
    some rq.graph_tmp.name ∷ tmp ∷ (if a.preserve_backups then [] else values a.backups)

-- The `finally` block: staging files go, the lock is released and closed.
unfoldable pub release : List (Option Text) → M (Unit {0})
release paths = do cleanup paths; finally other_call other_call

-- An error in the `finally` block takes the place of the attempt's outcome.
abbrev pub after_release :
    Outcome (Unit {0}) → Outcome (Unit {0}) × World → Outcome (Unit {0}) × World
after_release result (ok _, w) = (result, w)
after_release result (raised e, w) = (raised e, w)

unfoldable pub locked : Request → Option Text → M (Unit {0})
locked rq tmp w =
    let a = attempt rq tmp w in after_release a.result (release (leftovers rq tmp a) a.world)

-- The directory is opened for its lock; if that fails the staged files go.
unfoldable pub open_and_publish : Request → Option Text → M (Unit {0})
open_and_publish rq tmp = do
  on_error other_call (cleanup (some rq.graph_tmp.name ∷ tmp ∷ []))
  locked rq tmp

unfoldable pub publish_pair : Request → M (Unit {0})
unfolding one_directory
publish_pair rq w =
    if not (one_directory rq w)
    then (raised value_error, w)
    else if not (distinct (rq.graph_tmp ∷ outputs rq))
    then (raised value_error, w)
    else (stage_sidecar rq >>= open_and_publish rq) w
