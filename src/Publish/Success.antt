-- ===== src/Publish/Success.antt =====
-- `_publish_pair` from its checks to its clean-up: what a call that returns has done.
use dfine_cpp.Common.{
  ◌≡◌, refl, sym, ◌∙◌, inl, inr, Bool, true, false, Option, none, some, List, [], ◌∷◌, Text,
  if◌then◌else◌, Bool-cases, All,
}
use mathlib.Core.Path.{subst}
use dfine_cpp.Publish.{Request, Attempt, attempt, values, leftovers, release, after_release, locked}
use dfine_cpp.Publish.System.{
  World, Outcome, ok, raised, Exn, catch, finally, unlink_missing_ok, other_call, is_os_error,
}
use dfine_cpp.Publish.Staging.{cleanup, warn_os_error}
use dfine_cpp.Publish.Rules.{IsComposable, Along, bind-rel, catch-rel, finally-rel}
use dfine_cpp.Publish.Effects.{
  is_hidden, Kept, Kept-refl, Kept-trans, other_call-Same, other_call-Kept,
  unlink_missing_ok-Except, unlink_missing_ok-Kept,
}
use dfine_cpp.Publish.Held.{IsVisible}
use dfine_cpp.Publish.Restoring.{visible-ne-hidden, text_eq_comm}
use dfine_cpp.Publish.Atomic.{CanPublish, Published, staged_names}
use dfine_cpp.Publish.Attempted.{IsAtomic, attempt-IsAtomic, AreHidden}
use dfine_cpp.Publish.Contents.{attempt-Kept}

-- Every visible name and every file's contents are as they were.
pub record Tidy (w v : World) : Type 0 where
  pub visible_names : (n : Text) → IsVisible n → v.entry n ≡ w.entry n
  pub kept : Kept w v

pub Tidy-IsComposable : IsComposable Tidy
Tidy-IsComposable = record {
  same = λ w. record { visible_names = λ n _. refl; kept = Kept-refl w };
  next = λ _ _ _ p q. record {
    visible_names = λ n nv. q.visible_names n nv ∙ p.visible_names n nv;
    kept = Kept-trans p.kept q.kept;
  };
}

abbrev pub IsHiddenPath : Option Text → Type 0
IsHiddenPath none = Unit
IsHiddenPath (some t) = is_hidden t ≡ true

unlink_hidden : (t : Text) → is_hidden t ≡ true → Along Tidy (unlink_missing_ok t)
unlink_hidden t h w = record {
  visible_names =
      λ n nv. unlink_missing_ok-Except t w n (text_eq_comm n t (visible-ne-hidden n t nv h));
  kept = unlink_missing_ok-Kept t w;
}

warn-Tidy : (e : Exn) → Along Tidy (warn_os_error e)
warn-Tidy e w = elim (Bool-cases (is_os_error e)) [
  | inl caught ↦ rw (caught, warn_os_error) ((Tidy-IsComposable).same w)
  | inr other ↦ rw (other, warn_os_error) ((Tidy-IsComposable).same w)
]

pub cleanup-Tidy :
    (paths : List (Option Text)) → All IsHiddenPath paths → Along Tidy (cleanup paths)
unfolding cleanup
cleanup-Tidy [] h w = (Tidy-IsComposable).same w
cleanup-Tidy (none ∷ paths) h w = cleanup-Tidy paths h.1 w
cleanup-Tidy (some t ∷ paths) h w =
    bind-rel Tidy-IsComposable (catch (unlink_missing_ok t) warn_os_error) (λ _. cleanup paths) w
      (catch-rel Tidy-IsComposable (unlink_missing_ok t) w warn_os_error (unlink_hidden t h.0 w)
        warn-Tidy)
      (λ _ v. cleanup-Tidy paths h.1 v)

pub other_call-Tidy : Along Tidy other_call
other_call-Tidy w = record { visible_names = λ n _. other_call-Same w n; kept = other_call-Kept w }

release-Tidy : (paths : List (Option Text)) → All IsHiddenPath paths → Along Tidy (release paths)
unfolding release
release-Tidy paths h w =
    bind-rel Tidy-IsComposable (cleanup paths) (λ _. finally other_call other_call) w
      (cleanup-Tidy paths h w)
      (λ _ v.
        finally-rel Tidy-IsComposable other_call v other_call (other_call-Tidy v) other_call-Tidy)

released_ok :
    (r : Outcome (Unit {0})) (x : Outcome (Unit {0}) × World)
    → (after_release r x).0 ≡ ok tt
    → (r ≡ ok tt) × ((after_release r x).1 ≡ x.1)
released_ok r (ok _, v) h = (h, refl)
released_ok r (raised e, v) h = cc

module _ (rq : Request) (tmp : Option Text) (w : World) (can : CanPublish rq tmp w) where
  leftovers_hidden : (a : Attempt) → AreHidden a.backups → All IsHiddenPath (leftovers rq tmp a)
  leftovers_hidden a h = (can.hidden.0, (at tmp can.hidden, backups a.preserve_backups))
    where
      at :
          (x : Option Text)
          → All (λ (t : Text). is_hidden t ≡ true) (staged_names rq x)
          → IsHiddenPath x
      at none _ = tt
      at (some t) (_, (ht, _)) = ht

      all : (bs : List (Text × Option Text)) → AreHidden bs → All IsHiddenPath (values bs)
      all [] k = tt
      all ((_, none) ∷ bs) k = (tt, all bs k)
      all ((_, some b) ∷ bs) (hb, k) = (hb, all bs k)

      backups : (b : Bool) → All IsHiddenPath (if b then [] else values a.backups)
      backups true = tt
      backups false = all a.backups h

  -- A call that returns from under the lock has published, and the clean-up has kept that.
  pub locked_ok :
      (locked rq tmp w).0 ≡ ok tt
      → (v : World) × Published rq tmp w v × Kept w v × Tidy v (locked rq tmp w).1
  unfolding locked
  locked_ok h = go (attempt-IsAtomic rq tmp w can)
    where
      a : Attempt
      a = attempt rq tmp w

      x : Outcome (Unit {0}) × World
      x = release (leftovers rq tmp a) a.world

      go :
          IsAtomic rq tmp w a
          → (v : World) × Published rq tmp w v × Kept w v × Tidy v (after_release a.result x).1
      go atomic =
          let (done, same) = released_ok a.result x h in
          let tidy =
            release-Tidy (leftovers rq tmp a) (leftovers_hidden a atomic.hidden_backups) a.world in
          elim atomic.ending [
            | inl (_, published) ↦ (
              a.world,
              published,
              attempt-Kept rq tmp w can.visible done,
              subst (Tidy a.world) (sym same) tidy,
            )
            | inr undone ↦ absurd (undone.not_done done)
          ]
