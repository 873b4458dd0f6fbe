-- ===== src/Reports/Tests.antt =====
-- A report that another process keeps from being written.
use dfine_cpp.Common.{refl, false, none, some, codes}
use dfine_cpp.Common.Result.{returned}
use dfine_cpp.Reports.Atomic.{Place, Events, absent, file, atomic_json}
use dfine_cpp.Reports.Published.{Outcome, atomic_json-Outcome}

abbrev place : Place
place = record { target = absent; temporary = none }

abbrev events : Events
events = record {
  create_fails = false;
  write_fails = false;
  publish_fails = false;
  unlink_fails = false;
  arrival = some (file (codes "old"));
}

atomic_json-Outcome_example :
    Outcome false
      (returned (codes "new"))
      events
      place
      (atomic_json false false (returned (codes "new")) events place)
atomic_json-Outcome_example =
    atomic_json-Outcome false false (returned (codes "new")) events place refl
