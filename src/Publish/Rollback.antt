-- ===== src/Publish/Rollback.antt =====
-- `rollback` over the changed outputs.
use dfine_cpp.Common.{
  ◌≡◌, refl, sym, ◌∙◌, ◌≢◌, ◌⊎◌, inl, inr, true, false, Option, none, some, List, [], ◌∷◌, ◌++◌,
  Text, arith, Bool-cases, All,
}
use mathlib.Core.Path.{subst}
use dfine_cpp.Publish.{Backups, backup_of, rollback}
use dfine_cpp.Publish.System.{World, Outcome, ok, raised, Exn, is_os_error}
use dfine_cpp.Publish.Staging.{restore_output}
use dfine_cpp.Publish.Rules.{Outcome-cases}
use dfine_cpp.Publish.Effects.{is_hidden, Same}
use dfine_cpp.Publish.Held.{Entries, IsVisible}
use dfine_cpp.Publish.Restoring.{
  has, visible-ne-hidden, text_eq_comm, or_false, append-ne-nil, IsReady, IsApart, AreApart,
  Restored, restore_output-Restored,
}

module _ (o : Entries) (bs : Backups) where
  abbrev of : Text → Option Text
  of p = backup_of p bs

  -- The changed outputs are distinct, with distinct backups that are ready.
  abbrev pub AreReady : World → List Text → Type 0
  AreReady v [] = Unit
  AreReady v (p ∷ ps) =
      IsVisible p
      × (has p ps ≡ false)
      × IsReady o v p (backup_of p bs)
      × All (λ (q : Text). AreApart (backup_of p bs) (backup_of q bs)) ps
      × AreReady v ps

  -- The output has its previous entry, or some restoration failed and the backup still has it.
  abbrev pub IsSafe : World → List Text → Text → Option Text → Type 0
  IsSafe v errors p none = (v.entry p ≡ o p) ⊎ (errors ≢ []) × (o p ≡ none)
  IsSafe v errors p (some b) = (v.entry p ≡ o p) ⊎ (errors ≢ []) × (v.entry b ≡ o p)

  abbrev pub RolledBack : List Text → List Text → World → Outcome (List Text) × World → Type 0
  RolledBack errors ps v (ok errs, u) =
      (errors ≢ [] → errs ≢ [])
      × All (λ (p : Text). IsSafe u errs p (backup_of p bs)) ps
      × ((n : Text)
          → has n ps ≡ false
          → All (λ (q : Text). IsApart (backup_of q bs) n) ps
          → u.entry n ≡ v.entry n)
  RolledBack errors ps v (raised _, u) =
      (n : Text)
      → has n ps ≡ false
      → All (λ (q : Text). IsApart (backup_of q bs) n) ps
      → u.entry n ≡ v.entry n

  IsReady-after :
      (p : Text) (v u : World) (r : Outcome (Unit {0})) (q : Text) (y : Option Text)
      → IsVisible p
      → Restored o p (of p) v (r, u)
      → AreApart (of p) y
      → IsReady o v q y
      → IsReady o u q y
  IsReady-after p v u r q none pv t a h = h
  IsReady-after p v u r q (some c) pv (_, _, others) a (hid, held, taken) =
      (hid, others c (visible-ne-hidden p c pv hid) a ∙ held, taken)

  AreReady-after :
      (p : Text) (v u : World) (r : Outcome (Unit {0})) (ps : List Text)
      → IsVisible p
      → Restored o p (of p) v (r, u)
      → All (λ (q : Text). AreApart (of p) (of q)) ps
      → AreReady v ps
      → AreReady u ps
  AreReady-after p v u r [] pv t a h = tt
  AreReady-after p v u r (q ∷ ps) pv t (a, as') (qv, new, ready, apart, rest) = (
    qv,
    new,
    IsReady-after p v u r q (of q) pv t a ready,
    apart,
    AreReady-after p v u r ps pv t as' rest,
  )

  -- A visible name is apart from every backup that is ready.
  visible-IsApart :
      (n : Text) (v : World) (q : Text) (y : Option Text)
      → IsVisible n
      → IsReady o v q y
      → IsApart y n
  visible-IsApart n v q none nv h = tt
  visible-IsApart n v q (some c) nv (hid, _, _) = text_eq_comm n c (visible-ne-hidden n c nv hid)

  pub visible-All-IsApart :
      (n : Text) (v : World) (ps : List Text)
      → IsVisible n
      → AreReady v ps
      → All (λ (q : Text). IsApart (of q) n) ps
  visible-All-IsApart n v [] nv h = tt
  visible-All-IsApart n v (q ∷ ps) nv (_, _, ready, _, rest) =
      (visible-IsApart n v q (of q) nv ready, visible-All-IsApart n v ps nv rest)

  hidden_not_listed :
      (b : Text) (v : World) (ps : List Text)
      → is_hidden b ≡ true
      → AreReady v ps
      → has b ps ≡ false
  hidden_not_listed b v [] hid h = refl
  hidden_not_listed b v (q ∷ ps) hid (qv, _, _, _, rest) =
      ground
        (arith, text_eq_comm q b (visible-ne-hidden q b qv hid), hidden_not_listed b v ps hid rest)

  -- The rest of the rollback keeps what it does not restore.
  rest_keeps :
      (errors ps : List Text) (u : World) (x : Outcome (List Text) × World) (n : Text)
      → RolledBack errors ps u x
      → has n ps ≡ false
      → All (λ (q : Text). IsApart (of q) n) ps
      → x.1.entry n ≡ u.entry n
  rest_keeps errors ps u (ok errs, v) n (_, _, keeps) new apart = keeps n new apart
  rest_keeps errors ps u (raised e, v) n keeps new apart = keeps n new apart

  IsSafe-now :
      (v : World) (errs : List Text) (p : Text) (x : Option Text)
      → v.entry p ≡ o p
      → IsSafe v errs p x
  IsSafe-now v errs p none h = inl h
  IsSafe-now v errs p (some b) h = inl h

  IsApart-from :
      (b : Text) (ps : List Text)
      → All (λ (q : Text). AreApart (some b) (of q)) ps
      → All (λ (q : Text). IsApart (of q) b) ps
  IsApart-from b [] a = tt
  IsApart-from b (q ∷ ps) (a, as') = (turn (of q) a, IsApart-from b ps as')
    where
      turn : (y : Option Text) → AreApart (some b) y → IsApart y b
      turn none h = tt
      turn (some c) h = text_eq_comm b c h

  -- A restoration that failed leaves the backup, and the rest of the rollback too.
  IsSafe-later :
      (errs : List Text) (p : Text) (x : Option Text) (ps : List Text) (v w : World)
      → errs ≢ []
      → IsReady o v p x
      → All (λ (q : Text). AreApart x (of q)) ps
      → AreReady v ps
      → ((n : Text)
          → has n ps ≡ false
          → All (λ (q : Text). IsApart (of q) n) ps
          → w.entry n ≡ v.entry n)
      → IsSafe w errs p x
  IsSafe-later errs p none ps v w ne absent apart rest keeps = inr (ne, absent)
  IsSafe-later errs p (some b) ps v w ne (hid, held, _) apart rest keeps =
      inr (ne, keeps b (hidden_not_listed b v ps hid rest) (IsApart-from b ps apart) ∙ held)

  -- One restoration in front of the rest.
  Restored-then :
      (errors : List Text) (p : Text) (ps : List Text) (v u : World)
      (x : Outcome (List Text) × World)
      → Restored o p (of p) v (ok tt, u)
      → AreReady v (p ∷ ps)
      → RolledBack errors ps u x
      → RolledBack errors (p ∷ ps) v x
  Restored-then errors p ps v u (ok errs, w) (done, _, others) (pv, new, ready, apart, rest)
        (grow, safe, keeps) =
      (
        grow,
        (
          IsSafe-now w errs p (of p) (keeps p new (visible-All-IsApart p v ps pv rest) ∙ done refl),
          safe,
        ),
        λ n off (a, as').
            let (n_p, n_ps) = or_false off in keeps n n_ps as' ∙ others n (text_eq_comm n p n_p) a,
      )
  Restored-then errors p ps v u (raised e, w) (done, _, others) (pv, new, ready, apart, rest)
        keeps =
      λ n off (a, as').
        let (n_p, n_ps) = or_false off in keeps n n_ps as' ∙ others n (text_eq_comm n p n_p) a

  failed_then :
      (errors : List Text) (p : Text) (ps : List Text) (v u : World)
      (x : Outcome (List Text) × World)
      → Same v u
      → AreReady v (p ∷ ps)
      → RolledBack (errors ++ (p ∷ [])) ps u x
      → RolledBack errors (p ∷ ps) v x
  failed_then errors p ps v u (ok errs, w) same (pv, new, ready, apart, rest) (grow, safe, keeps) =
      (
        (λ ne. grow (append-ne-nil p errors)),
        (
          IsSafe-later errs p (of p) ps v w (grow (append-ne-nil p errors)) ready apart rest
              (λ n new' a. keeps n new' a ∙ same n),
          safe,
        ),
        λ n off (_, as'). let (_, n_ps) = or_false off in keeps n n_ps as' ∙ same n,
      )
  failed_then errors p ps v u (raised e, w) same (pv, new, ready, apart, rest) keeps =
      λ n off (_, as'). let (_, n_ps) = or_false off in keeps n n_ps as' ∙ same n

  module _ (p : Text) (ps errors : List Text) (v : World) where
    abbrev here : Outcome (Unit {0}) × World
    here = restore_output p (backup_of p bs) v

    rollback_ok :
        (u : Unit {0})
        → here.0 ≡ ok u
        → rollback (p ∷ ps) bs errors v ≡ rollback ps bs errors here.1
    unfolding rollback
    rollback_ok u e = ground arith

    rollback_caught :
        (x : Exn)
        → here.0 ≡ raised x
        → is_os_error x ≡ true
        → rollback (p ∷ ps) bs errors v ≡ rollback ps bs (errors ++ (p ∷ [])) here.1
    unfolding rollback
    rollback_caught x e caught = ground arith

    rollback_not_caught :
        (x : Exn)
        → here.0 ≡ raised x
        → is_os_error x ≡ false
        → rollback (p ∷ ps) bs errors v ≡ (raised x, here.1)
    unfolding rollback
    rollback_not_caught x e other = ground arith

  -- The rollback of ready outputs restores each, or keeps its backup and reports it.
  pub rollback-RolledBack :
      (ps errors : List Text) (v : World)
      → AreReady v ps
      → RolledBack errors ps v (rollback ps bs errors v)
  unfolding rollback
  rollback-RolledBack [] errors v h = ((λ ne. ne), tt, λ n _ _. refl)
  rollback-RolledBack (p ∷ ps) errors v (pv, new, ready, apart, rest) = elim (Outcome-cases c.0) [
    | inl (u, e) ↦ subst P (sym (rollback_ok p ps errors v u e)) (
        Restored-then errors p ps v c.1 (rollback ps bs errors c.1)
          ((λ _. one.0 e), (λ x h. one.1 x (absurd (cc h))), one.2) all
          (rollback-RolledBack ps errors c.1 next))
    | inr (x, e) ↦ elim (Bool-cases (is_os_error x)) [
      | inl caught ↦ subst P (sym (rollback_caught p ps errors v x e caught)) (
          failed_then errors p ps v c.1 (rollback ps bs (errors ++ (p ∷ [])) c.1) (one.1 x e) all
            (rollback-RolledBack ps (errors ++ (p ∷ [])) c.1 next))
      | inr other ↦
          subst P (sym (rollback_not_caught p ps errors v x e other))
            (λ n off (a, as'). let (n_p, _) = or_false off in one.2 n (text_eq_comm n p n_p) a)
    ]
  ]
    where
      P : Outcome (List Text) × World → Type 0
      P = RolledBack errors (p ∷ ps) v

      c : Outcome (Unit {0}) × World
      c = restore_output p (backup_of p bs) v

      all : AreReady v (p ∷ ps)
      all = (pv, new, ready, apart, rest)

      one : Restored o p (backup_of p bs) v c
      one = restore_output-Restored o p (backup_of p bs) v pv ready

      next : AreReady c.1 ps
      next = AreReady-after p v c.1 c.0 ps pv one apart rest
