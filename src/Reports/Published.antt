-- ===== src/Reports/Published.antt =====
-- The outcomes of `atomic_json`.
use dfine_cpp.Common.{
  ◌≡◌, ◌⊎◌, inl, inr, refl, sym, Bool, true, false, not, Option, none, some, Text, ◌&&◌,
  if◌then◌else◌,
}
use dfine_cpp.Common.Result.{
  Error, Result, returned, failed, value_error, os_error, refuse_if-returned,
}
use dfine_cpp.Reports.Atomic.{
  Entry, absent, file, directory, is_there, is_file, Place, Events, Done, arrived, created, written,
  call, replace_at, link_at, put, settle, write_then_put, check_target, write_checked, atomic_json,
}

-- The entry under the target's name when the report is put there.
abbrev pub found : Option Entry → Entry → Entry
found none now = now
found (some a) now = a

-- The target is the whole report; without leave to overwrite nothing stood there.
abbrev pub IsReplaced : Bool → Result Text → Events → Place → Place → Type 0
IsReplaced overwrite encoded events before after =
    ((t : Text) × (encoded ≡ returned t) × (after.target ≡ file t))
    × ((overwrite ≡ true) ⊎ (found events.arrival before.target ≡ absent))

-- The target is what it was, or what another process has put there.
abbrev pub IsUntouched : Events → Place → Place → Type 0
IsUntouched events before after =
    (after.target ≡ before.target) ⊎ (after.target ≡ found events.arrival before.target)

abbrev pub IsWritten : Bool → Result Text → Events → Place → Place → Type 0
IsWritten overwrite encoded events before after =
    IsReplaced overwrite encoded events before after × (after.temporary ≡ none)

-- Either no report has been put in place and no temporary file is left; or the temporary file could
-- not be removed, whether a report has been put in place or not.
abbrev pub IsKept : Bool → Result Text → Events → Place → Place → Type 0
IsKept overwrite encoded events before after =
    (IsUntouched events before after × (after.temporary ≡ none))
    ⊎ ((events.unlink_fails ≡ true)
        × (IsUntouched events before after ⊎ IsReplaced overwrite encoded events before after))

abbrev pub Outcome : Bool → Result Text → Events → Place → Done → Type 0
Outcome overwrite encoded events before (returned u, after) =
    IsWritten overwrite encoded events before after
Outcome overwrite encoded events before (failed e, after) =
    IsKept overwrite encoded events before after

checked :
    (aliased overwrite : Bool) (now : Entry) (encoded : Result Text) (t : Text)
    → check_target aliased overwrite now encoded ≡ returned t
    → encoded ≡ returned t
checked aliased overwrite now encoded t h =
    let (c1, h1) = refuse_if-returned aliased value_error _ t h in
    let (c2, h2) = refuse_if-returned (is_there now && not overwrite) value_error _ t h1 in
    let (c3, h3) = refuse_if-returned (is_there now && not (is_file now)) value_error _ t h2 in h3

module _ (overwrite : Bool) (encoded : Result Text) (events : Events) (before : Place) where
  -- The `try` block: the report is in place, or the target is not the block's doing.
  abbrev Tried : Done → Type 0
  Tried (returned u, after) = IsReplaced overwrite encoded events before after
  Tried (failed e, after) = IsUntouched events before after

  module _ (t : Text) (e : encoded ≡ returned t) where
    call-Tried :
        (b : Bool) (x : Error) (place after : Place)
        → IsUntouched events before place
        → IsReplaced overwrite encoded events before after
        → Tried (call b x place after)
    call-Tried true x place after h k = h
    call-Tried false x place after h k = k

    replace-Tried :
        (place : Place) (now : Entry)
        → overwrite ≡ true
        → IsUntouched events before place
        → Tried (replace_at t events place now)
    replace-Tried place directory o h = h
    replace-Tried place absent o h =
        call-Tried events.publish_fails os_error place _ h ((t, e, refl), inl o)
    replace-Tried place (file old) o h =
        call-Tried events.publish_fails os_error place _ h ((t, e, refl), inl o)

    link-Tried :
        (place : Place) (now : Entry)
        → now ≡ found events.arrival before.target
        → IsUntouched events before place
        → Tried (link_at t events place now)
    link-Tried place directory n h = h
    link-Tried place (file old) n h = h
    link-Tried place absent n h =
        call-Tried events.publish_fails value_error place _ h ((t, e, refl), inr (sym n))

    put-Tried :
        (way : Bool) (place : Place)
        → overwrite ≡ way
        → place.target ≡ found events.arrival before.target
        → Tried (put way t events place)
    put-Tried true place o h = replace-Tried place place.target o (inr h)
    put-Tried false place o h = link-Tried place place.target h (inr h)

    arrived-target :
        (o : Option Entry) (place : Place) → (arrived o place).target ≡ found o place.target
    arrived-target none place = refl
    arrived-target (some a) place = refl

    write-Tried : Tried (write_then_put overwrite t events (created before))
    write-Tried = by_test events.write_fails
      where
        by_test :
            (b : Bool)
            → Tried (
                if b
                then (failed os_error, created before)
                else put overwrite t events (arrived events.arrival (written t (created before))))
        by_test true = inl refl
        by_test false =
            put-Tried overwrite (arrived events.arrival (written t (created before))) refl
              (arrived-target events.arrival (written t (created before)))

    settle-Outcome :
        (x : Done) → Tried x → Outcome overwrite encoded events before (settle events x)
    settle-Outcome x h = by_test events.unlink_fails refl x h
      where
        by_test :
            (b : Bool)
            → events.unlink_fails ≡ b
            → (x : Done) → Tried x
            → Outcome overwrite encoded events before (
                if b
                then (failed os_error, x.1)
                else (x.0, record { target = x.1.target; temporary = none }))
        by_test true u (returned _, after) k = inr (u, inr k)
        by_test true u (failed _, after) k = inr (u, inl k)
        by_test false u (returned _, after) k = (k, refl)
        by_test false u (failed _, after) k = inl (k, refl)

-- From a place without a temporary file, whatever calls fail and whatever another process puts
-- under the target's name before the report is put there: the writing of a report returns, the
-- target is the whole report, nothing stood there unless overwriting is allowed, and no temporary
-- file is left. Or it fails, the target is what it was or what the other process has put there, and
-- no temporary file is left. Only where the removal of the temporary file fails may that file be
-- left, and the failure come after the report has been put in place.
pub atomic_json-Outcome :
    (aliased overwrite : Bool) (encoded : Result Text) (events : Events) (before : Place)
    → before.temporary ≡ none
    → Outcome overwrite encoded events before (atomic_json aliased overwrite encoded events before)
unfolding atomic_json
atomic_json-Outcome aliased overwrite encoded events before clean =
    by_check (check_target aliased overwrite before.target encoded) refl
  where
    by_create :
        (t : Text)
        → encoded ≡ returned t
        → (b : Bool)
        → Outcome overwrite encoded events before (
            if b
            then (failed os_error, before)
            else settle events (write_then_put overwrite t events (created before)))
    by_create t e true = inl (inl refl, clean)
    by_create t e false =
        settle-Outcome overwrite encoded events before t e
          (write_then_put overwrite t events (created before))
          (write-Tried overwrite encoded events before t e)

    by_check :
        (c : Result Text)
        → check_target aliased overwrite before.target encoded ≡ c
        → Outcome overwrite encoded events before (write_checked overwrite events before c)
    by_check (failed e) h = inl (inl refl, clean)
    by_check (returned t) h =
        by_create t (checked aliased overwrite before.target encoded t h) events.create_fails
