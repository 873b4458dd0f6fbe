-- ===== src/Publish/Undo.antt =====
-- The failing branch of `_publish_pair`: what `undo` leaves after some outputs were changed.
use dfine_cpp.Common.{
  ◌≡◌, refl, sym, ap, ◌∙◌, ◌≢◌, ◌⊎◌, inl, inr, true, false, Option, none, some, List, [], ◌∷◌, Text,
  text_eq, text_eq_iff, arith, Bool-cases, All,
}
use mathlib.Core.Path.{subst}
use dfine_cpp.Publish.{Backups, backup_of, rollback, Attempt, conclude, undo}
use dfine_cpp.Publish.System.{World, Outcome, ok, raised, Exn, keyboard_interrupt, rollback_failed}
use dfine_cpp.Publish.Effects.{is_hidden}
use dfine_cpp.Publish.Held.{Entries, IsVisible}
use dfine_cpp.Publish.Rollback.{
  IsSafe, AreReady, RolledBack, visible-All-IsApart, rollback-RolledBack,
}
use dfine_cpp.Publish.Restoring.{has, IsApart, IsReady}
use dfine_cpp.Publish.Readiness.{rollback_raised}
use dfine_cpp.Publish.Calm.{IsSignalFree, rollback_calm}

-- The name has its previous entry, or a hidden name has it.
abbrev pub IsSpared : Entries → World → Text → Type 0
IsSpared o v p =
    (v.entry p ≡ o p) ⊎ (o p ≡ none) ⊎ ((b : Text) × (is_hidden b ≡ true) × (v.entry b ≡ o p))

-- What an attempt that raised has done to the visible names. `Calm` says that no signal meets the
-- rollback; other exceptions than a signal's tell as much themselves.
pub record Undone (o : Entries) (Calm : Type 0) (a : Attempt) : Type 0 where
  pub restored :
      (e : Exn)
      → a.preserve_backups ≡ false
      → a.result ≡ raised e
      → (e ≢ keyboard_interrupt) ⊎ Calm
      → (n : Text) → IsVisible n
      → a.world.entry n ≡ o n
  pub spared : a.preserve_backups ≡ true → (n : Text) → IsVisible n → IsSpared o a.world n
  pub reported :
      a.preserve_backups ≡ true → (errs : List Text) × (a.result ≡ raised (rollback_failed errs))
  pub not_done : a.result ≢ ok tt

-- A stronger condition on the rollback.
pub Undone-weaken :
    (o : Entries) (P Q : Type 0) (a : Attempt) → (Q → P) → Undone o P a → Undone o Q a
Undone-weaken o P Q a f undone = record {
  restored =
      λ e kept h calm. undone.restored e kept h (elim calm [ inl x ↦ inl x | inr q ↦ inr (f q) ]);
  spared = undone.spared;
  reported = undone.reported;
  not_done = undone.not_done;
}

module _ (o : Entries) (bs : Backups) where
  All-IsReady :
      (v : World) (ps : List Text)
      → AreReady o bs v ps
      → All (λ (p : Text). IsReady o v p (backup_of p bs)) ps
  All-IsReady v [] r = tt
  All-IsReady v (p ∷ ps) (_, _, ready, _, rest) = (ready, All-IsReady v ps rest)

  hidden_of_ready :
      (p : Text) (x : Option Text) (v : World)
      → IsReady o v p x
      → (b : Text) → x ≡ some b
      → is_hidden b ≡ true
  hidden_of_ready p none v r b e = cc
  hidden_of_ready p (some c) v (hid, _, _) b e = cc

  IsSpared-of_safe :
      (errs : List Text) (p : Text) (x : Option Text) (v : World)
      → ((b : Text) → x ≡ some b → is_hidden b ≡ true)
      → IsSafe o bs v errs p x
      → IsSpared o v p
  IsSpared-of_safe errs p none v hid (inl h) = inl h
  IsSpared-of_safe errs p none v hid (inr (_, h)) = inr (inl h)
  IsSpared-of_safe errs p (some b) v hid (inl h) = inl h
  IsSpared-of_safe errs p (some b) v hid (inr (_, h)) = inr (inr (b, hid b refl, h))

  restored_of_safe :
      (p : Text) (x : Option Text) (v : World) → IsSafe o bs v [] p x → v.entry p ≡ o p
  restored_of_safe p none v (inl h) = h
  restored_of_safe p none v (inr (h, _)) = absurd (h refl)
  restored_of_safe p (some b) v (inl h) = h
  restored_of_safe p (some b) v (inr (h, _)) = absurd (h refl)

  -- A property of the listed names, at a name that is in the list.
  at_listed : (P : Text → Type 0) (n : Text) (ps : List Text) → All P ps → has n ps ≡ true → P n
  at_listed P n [] h k = cc
  at_listed P n (p ∷ ps) (here, h) k = elim (Bool-cases (text_eq n p)) [
    | inl same ↦ subst P (sym ((text_eq_iff n p).0 same)) here
    | inr differ ↦ at_listed P n ps h (ground arith)
  ]

  module _ (e : Exn) (cs : List Text) (v : World) (ready : AreReady o bs v cs)
      (others : (n : Text) → IsVisible n → has n cs ≡ false → v.entry n ≡ o n) where
    -- A visible name that is not listed is kept by the rollback.
    other_kept :
        (u : World) (n : Text)
        → ((m : Text)
            → has m cs ≡ false
            → All (λ (q : Text). IsApart (backup_of q bs) m) cs
            → u.entry m ≡ v.entry m)
        → IsVisible n
        → has n cs ≡ false
        → u.entry n ≡ o n
    other_kept u n keeps nv new =
        keeps n new (visible-All-IsApart o bs n v cs nv ready) ∙ others n nv new

    restored-All :
        (ps : List Text) (u : World)
        → All (λ (p : Text). IsSafe o bs u [] p (backup_of p bs)) ps
        → All (λ (p : Text). u.entry p ≡ o p) ps
    restored-All [] u safe = tt
    restored-All (p ∷ ps) u (here, safe) =
        (restored_of_safe p (backup_of p bs) u here, restored-All ps u safe)

    IsSpared-All :
        (errs ps : List Text) (u : World)
        → All (λ (p : Text). IsReady o v p (backup_of p bs)) ps
        → All (λ (p : Text). IsSafe o bs u errs p (backup_of p bs)) ps
        → All (λ (p : Text). IsSpared o u p) ps
    IsSpared-All errs [] u r safe = tt
    IsSpared-All errs (p ∷ ps) u (here, r) (s, safe) = (
      IsSpared-of_safe errs p (backup_of p bs) u (hidden_of_ready p (backup_of p bs) v here) s,
      IsSpared-All errs ps u r safe,
    )

    -- By what the rollback came to.
    conclude-Undone :
        (x : Outcome (List Text) × World)
        → ((e' : Exn) → x.0 ≡ raised e' → e' ≡ keyboard_interrupt)
        → (IsSignalFree v.faults → x.0 ≢ raised keyboard_interrupt)
        → RolledBack o bs [] cs v x
        → Undone o (IsSignalFree v.faults) (conclude e bs x)
    conclude-Undone (raised e', u) stop calm rolled = record {
      restored = λ x _ h ne. elim ne [
        | inl other ↦ absurd (other (cc (stop e' refl)))
        | inr free ↦ absurd (calm free (ap (λ y. raised y) (stop e' refl)))
      ];
      spared = λ h. cc;
      reported = λ h. cc;
      not_done = λ h. cc;
    }
    conclude-Undone (ok [], u) stop calm (_, safe, keeps) = record {
      restored = λ x _ h ne n nv. elim (Bool-cases (has n cs)) [
        | inl listed ↦ at_listed (λ p. u.entry p ≡ o p) n cs (restored-All cs u safe) listed
        | inr new ↦ other_kept u n keeps nv new
      ];
      spared = λ h. cc;
      reported = λ h. cc;
      not_done = λ h. cc;
    }
    conclude-Undone (ok (p ∷ ps), u) stop calm (_, safe, keeps) = record {
      restored = λ x h. cc;
      spared = λ h n nv. elim (Bool-cases (has n cs)) [
        | inl listed ↦
            at_listed (IsSpared o u) n cs (IsSpared-All (p ∷ ps) cs u (All-IsReady v cs ready) safe)
              listed
        | inr new ↦ inl (other_kept u n keeps nv new)
      ];
      reported = λ h. (p ∷ ps, refl);
      not_done = λ h. cc;
    }

    pub undo-Undone : Undone o (IsSignalFree v.faults) (undo e cs bs v)
    unfolding undo
    undo-Undone =
        conclude-Undone (rollback cs bs [] v) (rollback_raised cs bs [] v)
          (rollback_calm cs bs [] v) (rollback-RolledBack o bs cs [] v ready)

-- The handler keeps the record of the backups.
conclude_backups :
    (e : Exn) (bs : Backups) (x : Outcome (List Text) × World) → (conclude e bs x).backups ≡ bs
conclude_backups e bs (raised e', w) = refl
conclude_backups e bs (ok [], w) = refl
conclude_backups e bs (ok (p ∷ ps), w) = refl

pub undo_backups :
    (e : Exn) (cs : List Text) (bs : Backups) (w : World) → (undo e cs bs w).backups ≡ bs
unfolding undo
undo_backups e cs bs w = conclude_backups e bs (rollback cs bs [] w)
