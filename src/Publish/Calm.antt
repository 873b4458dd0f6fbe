-- ===== src/Publish/Calm.antt =====
-- `_restore_output` and the rollback of trt-files/scripts/build_engine.py where no signal comes.
use dfine_cpp.Common.{
  ◌≢◌, refl, Bool, true, false, Option, none, some, List, [], ◌∷◌, ◌++◌, Text, All, if◌then◌else◌,
}
use dfine_cpp.Publish.{Backups, backup_of, rollback}
use dfine_cpp.Publish.System.{
  M, World, Entry, Outcome, file_not_found, put_entry, ok, raised, Exn, keyboard_interrupt,
  is_os_error, Fault, signal_fault, io_fault, under, unlink_missing_ok, replace, same_file,
}
use dfine_cpp.Publish.Staging.{restore_output}

-- No entry of the schedule is a signal.
abbrev pub IsSignalFree : List (Option Fault) → Type 0
IsSignalFree fs = All (λ (f : Option Fault). f ≢ some signal_fault) fs

-- A call leaves a schedule without a signal, and raises no KeyboardInterrupt.
abbrev pub IsCalm : {A : Type 0} → Outcome A × World → Type 0
IsCalm (r, w) = IsSignalFree w.faults × (r ≢ raised keyboard_interrupt)

under-IsCalm :
    (fs : List (Option Fault)) (act : M (Unit {0})) (w : World)
    → IsSignalFree fs
    → IsSignalFree w.faults
    → ((v : World) → IsSignalFree v.faults → IsCalm (act v))
    → IsCalm (under fs act w)
unfolding under
under-IsCalm [] act w h k f = f w k
under-IsCalm (none ∷ fs) act w (_, h) k f = f (record w { faults = fs }) h
under-IsCalm (some io_fault ∷ fs) act w (_, h) k f = (h, λ e. cc)
under-IsCalm (some signal_fault ∷ fs) act w (none_here, h) k f = absurd (none_here refl)

unlink-IsCalm : (p : Text) (w : World) → IsSignalFree w.faults → IsCalm (unlink_missing_ok p w)
unfolding unlink_missing_ok
unlink-IsCalm p w h = under-IsCalm w.faults _ w h h (λ v k. (k, λ e. cc))

replace-IsCalm : (p q : Text) (w : World) → IsSignalFree w.faults → IsCalm (replace p q w)
unfolding replace
replace-IsCalm p q w h = under-IsCalm w.faults _ w h h (λ v k. by_entry v k (v.entry p))
  where
    by_test :
        (v : World) (e : Entry) (b : Bool)
        → IsSignalFree v.faults
        → IsCalm {A = Unit {0}} (
            if b
            then (ok tt, v)
            else (ok tt, record v { entry = put_entry (put_entry v.entry q (some e)) p none }))
    by_test v e true k = (k, λ x. cc)
    by_test v e false k = (k, λ x. cc)

    by_entry :
        (v : World)
        → IsSignalFree v.faults
        → (o : Option Entry)
        → IsCalm {A = Unit {0}} (elim o [
          | none ↦ (raised file_not_found, v)
          | some e ↦
              if same_file e (v.entry q)
              then (ok tt, v)
              else (ok tt, record v { entry = put_entry (put_entry v.entry q (some e)) p none })
        ])
    by_entry v k none = (k, λ x. cc)
    by_entry v k (some e) = by_test v e (same_file e (v.entry q)) k

restore_output-IsCalm :
    (p : Text) (x : Option Text) (w : World) → IsSignalFree w.faults → IsCalm (restore_output p x w)
unfolding restore_output
restore_output-IsCalm p none w h = unlink-IsCalm p w h
restore_output-IsCalm p (some b) w h = replace-IsCalm b p w h

-- A rollback that no signal meets goes through all the outputs.
pub rollback_calm :
    (ps : List Text) (bs : Backups) (errors : List Text) (v : World)
    → IsSignalFree v.faults
    → (rollback ps bs errors v).0 ≢ raised keyboard_interrupt
unfolding rollback
rollback_calm [] bs errors v h = λ e. cc
rollback_calm (p ∷ ps) bs errors v h =
    by_round (restore_output p (backup_of p bs) v) (restore_output-IsCalm p (backup_of p bs) v h)
      (λ errs k. rollback_calm ps bs errs (restore_output p (backup_of p bs) v).1 k)
  where
    after_error : Exn → World → Bool → Outcome (List Text) × World
    after_error e w b = elim b [
      | true ↦ rollback ps bs (errors ++ (p ∷ [])) w
      | false ↦ (raised e, w)
    ]

    after_round : Outcome (Unit {0}) → World → Outcome (List Text) × World
    after_round r w = elim r [
      | ok _ ↦ rollback ps bs errors w
      | raised e ↦ elim (is_os_error e) [
        | true ↦ rollback ps bs (errors ++ (p ∷ [])) w
        | false ↦ (raised e, w)
      ]
    ]

    by_round :
        (x : Outcome (Unit {0}) × World)
        → IsCalm x
        → ((errs : List Text)
            → IsSignalFree x.1.faults
            → (rollback ps bs errs x.1).0 ≢ raised keyboard_interrupt)
        → (after_round x.0 x.1).0 ≢ raised keyboard_interrupt
    by_round (ok _, w) (k, other) rest = rest errors k
    by_round (raised e, w) (k, other) rest = by_error (is_os_error e)
      where
        by_error : (b : Bool) → (after_error e w b).0 ≢ raised keyboard_interrupt
        by_error true = rest (errors ++ (p ∷ [])) k
        by_error false = λ h. other (cc)
