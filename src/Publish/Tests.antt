-- ===== src/Publish/Tests.antt =====
-- Runs of `_publish_pair` and of its parts on concrete directories.
use dfine_cpp.Common.{
  String, ◌+◌, ◌≡◌, refl, Option, none, some, List, [], ◌∷◌, Text, text_eq, codes,
}
use dfine_cpp.Publish.{
  FilePath, Request, attempt, publish_pair, one_directory, stage_text, copy_mode, take_backups,
  run_changes, backup_of, rollback, undo, commit, prepare, release, locked, open_and_publish,
}
use dfine_cpp.Publish.System.{
  World, file, symlink, Inode, Fault, io_fault, ok, put_entry, under, lstat, stat_mode, create,
  chmod, write_text, unlink, unlink_missing_ok, link, replace, other_call, draw_token,
}
use dfine_cpp.Publish.Staging.{
  adjust, settle, allocate, adjacent_temp, is_there, fill_backup, link_backup, restore_output,
  cleanup,
}
use dfine_cpp.Publish.Atomic.{CanPublish}
use dfine_cpp.Publish.Attempted.{IsAtomic, attempt-IsAtomic}
use dfine_cpp.Publish.Delivery.{IsRequest, Delivered, publish_pair_ok}

abbrev at : String → FilePath
at s = record { parent = codes "d"; name = codes s }

abbrev request : Request
request = record {
  graph_tmp = at ".m.engine.1.tmp";
  graph_out = at "m.engine";
  sidecar_text = some (codes "{}");
  sidecar_out = at "m.json";
  stale_sidecar = some (at "m.engine.json");
}

abbrev text_inode : Text → Inode
text_inode t = record { content = t; mode = 0o644 }

-- A directory with a staged graph, a previous pair and an obsolete sidecar.
abbrev start : List (Option Fault) → World
start fs = record {
  entry =
      put_entry
        (put_entry
          (put_entry (put_entry (λ _. none) (codes ".m.engine.1.tmp") (some (file 0)))
            (codes "m.engine") (some (file 1)))
          (codes "m.json") (some (symlink (codes "x"))))
        (codes "m.engine.json") (some (file 2));
  inode = λ i. text_inode (i ∷ []);
  next = 3;
  token = λ n. (b'0' + n) ∷ [];
  drawn = 0;
  link_mode = λ _. none;
  masked = λ m. m;
  real = λ d. d;
  faults = fs;
}

abbrev staged_as : Option Text
staged_as = some (codes ".m.json.0.tmp")

can_start : (fs : List (Option Fault)) → CanPublish request none (start fs)
unfolding text_eq
can_start fs = record {
  visible = (refl, (refl, (refl, tt)));
  distinct_outputs = (refl, (refl, (refl, tt)));
  hidden = (refl, tt);
  taken = ((λ h. cc), tt);
  distinct_staged = (refl, tt);
}

-- The third change fails, and the first two are undone.
attempt-IsAtomic_example :
    IsAtomic request none
      (start (none ∷ some io_fault ∷ []))
      (attempt request none (start (none ∷ some io_fault ∷ [])))
attempt-IsAtomic_example =
    attempt-IsAtomic request none (start (none ∷ some io_fault ∷ []))
      (can_start (none ∷ some io_fault ∷ []))

is_start : IsRequest request (start [])
unfolding text_eq
is_start = record {
  visible = (refl, (refl, (refl, tt)));
  distinct_outputs = (refl, (refl, (refl, tt)));
  hidden = refl;
  taken = λ h. cc;
}

runs : (publish_pair request (start [])).0 ≡ ok tt
unfolding publish_pair open_and_publish locked release prepare commit undo rollback backup_of
    run_changes take_backups copy_mode stage_text one_directory under lstat stat_mode create chmod
    write_text unlink unlink_missing_ok link replace other_call draw_token adjust settle allocate
    adjacent_temp is_there fill_backup link_backup restore_output cleanup attempt text_eq
runs = refl

publish_pair_ok_example : Delivered request (start []) (publish_pair request (start [])).1
publish_pair_ok_example = publish_pair_ok request (start []) is_start runs
