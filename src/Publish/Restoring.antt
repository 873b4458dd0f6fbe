-- ===== src/Publish/Restoring.antt =====
-- `_restore_output` on one output, by whether its system call fails.
use dfine_cpp.Common.{
  ◌≡◌, sym, ◌∙◌, ◌≢◌, inl, inr, Bool, true, false, Option, none, some, List, [], ◌∷◌, ◌++◌, Text,
  text_eq, text_eq_iff, arith, ◌||◌, Bool-cases, any,
}
use dfine_cpp.Publish.System.{World, Outcome, ok, raised, Exn}
use dfine_cpp.Publish.Staging.{restore_output}
use dfine_cpp.Publish.Effects.{
  is_hidden, Same, unlink_missing_ok-Except, unlink_missing_ok-none, replace-others, replace_made,
  replace_failed, unlink_missing_ok_failed,
}
use dfine_cpp.Publish.Held.{Entries, IsVisible}

-- Whether the name is in the list.
abbrev pub has : Text → List Text → Bool
has n ps = any (text_eq n) ps

pub visible-ne-hidden : (p b : Text) → IsVisible p → is_hidden b ≡ true → text_eq p b ≡ false
visible-ne-hidden p b pv hid = elim (Bool-cases (text_eq p b)) [
  | inl same ↦ cc ((text_eq_iff p b).0 same)
  | inr differ ↦ differ
]

pub text_eq_comm : (s t : Text) → text_eq s t ≡ false → text_eq t s ≡ false
text_eq_comm s t differ = elim (Bool-cases (text_eq t s)) [
  | inl same ↦ cc (differ, (text_eq_iff s t).1 (sym ((text_eq_iff t s).0 same)))
  | inr h ↦ h
]

pub or_false : {a b : Bool} → (a || b) ≡ false → (a ≡ false) × (b ≡ false)
or_false {a} {b} h = ground arith

pub append-ne-nil : (x : Text) (xs : List Text) → (xs ++ (x ∷ [])) ≢ []
append-ne-nil x [] h = cc
append-ne-nil x (y ∷ ys) h = cc

abbrev pub IsReady : Entries → World → Text → Option Text → Type 0
IsReady o v p none = o p ≡ none
IsReady o v p (some b) = (is_hidden b ≡ true) × (v.entry b ≡ o p) × (o p ≢ none)

-- The name is not that of the backup.
abbrev pub IsApart : Option Text → Text → Type 0
IsApart none n = Unit
IsApart (some b) n = text_eq b n ≡ false

abbrev pub AreApart : Option Text → Option Text → Type 0
AreApart x none = Unit
AreApart x (some c) = IsApart x c

-- What one restoration does.
abbrev pub Restored : Entries → Text → Option Text → World → Outcome (Unit {0}) × World → Type 0
Restored o p x v (r, u) =
    (r ≡ ok tt → u.entry p ≡ o p)
    × ((e : Exn) → r ≡ raised e → Same v u)
    × ((n : Text) → text_eq p n ≡ false → IsApart x n → u.entry n ≡ v.entry n)

pub restore_output-Restored :
    (o : Entries) (p : Text) (x : Option Text) (v : World)
    → IsVisible p
    → IsReady o v p x
    → Restored o p x v (restore_output p x v)
unfolding restore_output
restore_output-Restored o p none v pv absent = (
  (λ h. unlink_missing_ok-none p v h ∙ sym absent),
  (λ e h. unlink_missing_ok_failed p v e h),
  λ n ne _. unlink_missing_ok-Except p v n ne,
)
restore_output-Restored o p (some b) v pv (hid, held, _) = (
  (λ h. replace_made b p v (text_eq_comm p b (visible-ne-hidden p b pv hid)) h ∙ held),
  (λ e h. replace_failed b p v e h),
  λ n ne apart. replace-others b p v n apart ne,
)
