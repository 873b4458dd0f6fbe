-- ===== src/Publish/Attempted.antt =====
-- The `try` block of `_publish_pair` as a whole, by the way it ends.
use dfine_cpp.Common.{
  ◌≡◌, refl, sym, ap, ◌∙◌, ◌≢◌, ◌⊎◌, inl, inr, true, false, Option, none, some, List, [], ◌∷◌, Text,
  text_eq, text_eq_iff, text_eq_refl, arith, Bool-cases, All,
}
use mathlib.Core.Path.{subst}
use dfine_cpp.Publish.{
  Request, outputs, names, Backups, changes, prepare, take_backups, run_changes, Attempt,
  after_changes, undo, commit, after_backups, after_prepare, attempt,
}
use dfine_cpp.Publish.System.{World, Outcome, ok, raised, Exn}
use dfine_cpp.Publish.Effects.{is_hidden, Same}
use dfine_cpp.Publish.Growth.{Grows}
use dfine_cpp.Publish.Held.{IsVisible, Holds, WereFree, keys, Taken, take_backups-Taken}
use dfine_cpp.Publish.Restoring.{has, text_eq_comm, visible-ne-hidden, or_false}
use dfine_cpp.Publish.Commit.{
  AreDistinct, KeepsOthers, run_changes-others, run_changes-All, run_changes-AreDistinct,
}
use dfine_cpp.Publish.Readiness.{are_ready, Holds-after}
use dfine_cpp.Publish.Calm.{IsSignalFree}
use dfine_cpp.Publish.Undo.{Undone, Undone-weaken, undo-Undone, undo_backups}
use dfine_cpp.Publish.Atomic.{
  opt_list, staged_names, CanPublish, staged_entry, Done, Published, AreApartNames, prepare-Same,
  outputs_of-changes, changes-IsLocal, run_changes-Done,
}

-- Backups are hidden names, which the clean-up may remove.
abbrev pub AreHidden : Backups → Type 0
AreHidden [] = Unit
AreHidden ((_, none) ∷ bs) = AreHidden bs
AreHidden ((_, some b) ∷ bs) = (is_hidden b ≡ true) × AreHidden bs

AreHidden-of_free : (w : World) (bs : Backups) → WereFree w bs → AreHidden bs
AreHidden-of_free w [] f = tt
AreHidden-of_free w ((_, none) ∷ bs) f = AreHidden-of_free w bs f
AreHidden-of_free w ((_, some b) ∷ bs) (hid, _, f) = (hid, AreHidden-of_free w bs f)

-- The world in which the replacements end, or fail and the rollback begins.
abbrev pub changed_world : Request → Option Text → World → World
changed_world rq tmp w =
    let prepared = (prepare rq tmp w).1 in
    let backed_up = (take_backups (names (outputs rq)) prepared).2 in
    (run_changes (changes rq tmp) [] backed_up).2

-- No signal comes after the replacements have ended or failed.
abbrev pub HasCalmRollback : Request → Option Text → World → Type 0
HasCalmRollback rq tmp w = IsSignalFree (changed_world rq tmp w).faults

-- How an attempt can end.
pub record IsAtomic (rq : Request) (tmp : Option Text) (w : World) (a : Attempt) : Type 0 where
  pub ending :
      ((a.result ≡ ok tt) × Published rq tmp w a.world)
      ⊎ Undone w.entry (HasCalmRollback rq tmp w) a
  pub hidden_backups : AreHidden a.backups

-- Nothing visible has changed, and something was raised.
Undone-early :
    (Calm : Type 0) (w v : World) (e : Exn) (bs : Backups)
    → ((n : Text) → IsVisible n → v.entry n ≡ w.entry n)
    → Undone w.entry Calm
        (record { result = raised e; backups = bs; preserve_backups = false; world = v })
Undone-early Calm w v e bs same = record {
  restored = λ x _ h ne n nv. same n nv;
  spared = λ h. cc;
  reported = λ h. cc;
  not_done = λ h. cc;
}

module _ (rq : Request) (tmp : Option Text) (w : World) (can : CanPublish rq tmp w) where
  staged_hidden_apart :
      (n : Text) (ts : List Text)
      → IsVisible n
      → All (λ (t : Text). is_hidden t ≡ true) ts
      → has n ts ≡ false
  staged_hidden_apart n [] nv h = refl
  staged_hidden_apart n (t ∷ ts) nv (ht, h) =
      ground (arith, visible-ne-hidden n t nv ht, staged_hidden_apart n ts nv h)

  IsVisible-listed :
      (ps qs : List Text)
      → All IsVisible ps
      → ((n : Text) → has n ps ≡ true → has n qs ≡ true)
      → All (λ (p : Text). IsVisible p × (has p qs ≡ true)) ps
  IsVisible-listed [] qs h sub = tt
  IsVisible-listed (p ∷ ps) qs (pv, h) sub = (
    (pv, sub p (ground (arith, text_eq_refl p))),
    IsVisible-listed ps qs h (λ n k. sub n (ground arith)),
  )

  outputs_listed :
      All (λ (p : Text). IsVisible p × (has p (names (outputs rq)) ≡ true)) (names (outputs rq))
  outputs_listed = IsVisible-listed (names (outputs rq)) (names (outputs rq)) can.visible (λ n k. k)

  changed_subset :
      (n : Text) (cs : List Text)
      → All (λ (p : Text). IsVisible p × (has p (names (outputs rq)) ≡ true)) cs
      → has n (names (outputs rq)) ≡ false
      → has n cs ≡ false
  changed_subset n [] h new = refl
  changed_subset n (p ∷ cs) ((_, listed), h) new = elim (Bool-cases (text_eq n p)) [
    | inl same ↦
        let e : n ≡ p = (text_eq_iff n p).0 same in
        cc (listed, new, ap (λ m. has m (names (outputs rq))) e)
    | inr differ ↦ rw differ (changed_subset n cs h new)
  ]

  IsVisible-of_listed :
      (cs : List Text)
      → All (λ (p : Text). IsVisible p × (has p (names (outputs rq)) ≡ true)) cs
      → All IsVisible cs
  IsVisible-of_listed [] h = tt
  IsVisible-of_listed (p ∷ cs) ((pv, _), h) = (pv, IsVisible-of_listed cs h)

  apart_names :
      AreApartNames rq.graph_tmp.name rq.graph_out.name rq.sidecar_out.name tmp rq.stale_sidecar
  apart_names = (
    can.distinct_outputs,
    hidden_ne rq.graph_out.name can.hidden.0 can.visible.0,
    hidden_ne rq.sidecar_out.name can.hidden.0 can.visible.1.0,
    at tmp can.hidden can.distinct_staged,
  )
    where
      hidden_ne :
          (p : Text)
          → is_hidden rq.graph_tmp.name ≡ true
          → IsVisible p
          → text_eq rq.graph_tmp.name p ≡ false
      hidden_ne p h v = text_eq_comm p rq.graph_tmp.name (visible-ne-hidden p rq.graph_tmp.name v h)

      at :
          (x : Option Text)
          → All (λ (t : Text). is_hidden t ≡ true) (staged_names rq x)
          → AreDistinct (staged_names rq x)
          → All
              (λ (t : Text).
                (text_eq rq.graph_tmp.name t ≡ false)
                × (text_eq rq.graph_out.name t ≡ false)
                × (text_eq rq.sidecar_out.name t ≡ false))
              (opt_list x)
      at none h d = tt
      at (some t) (_, (ht, _)) (d, _) = (
        (
          (or_false d).0,
          visible-ne-hidden rq.graph_out.name t can.visible.0 ht,
          visible-ne-hidden rq.sidecar_out.name t can.visible.1.0 ht,
        ),
        tt,
      )

  staged_sidecar :
      (u : World) (x : Option Text)
      → All (λ (t : Text). u.entry t ≡ w.entry t) (staged_names rq x)
      → staged_entry u x ≡ staged_entry w x
  staged_sidecar u none h = refl
  staged_sidecar u (some t) (_, (e, _)) = e

  -- A run of the replacements from the world `u`, in which the backups are held.
  module _ (u w' : World) (bs : Backups) (agree : (n : Text) → IsVisible n → u.entry n ≡ w.entry n)
      (staged : All (λ (t : Text). u.entry t ≡ w.entry t) (staged_names rq tmp))
      (taken : All (λ (t : Text). w'.entry t ≢ none) (staged_names rq tmp)) (free : WereFree w' bs)
      (held : Holds w.entry u bs) (key : keys bs ≡ names (outputs rq)) where
    after_changes-IsAtomic :
        (x : Outcome (Unit {0}) × List Text × World)
        → KeepsOthers (staged_names rq tmp) u x.1 x.2
        → All (λ (p : Text). IsVisible p × (has p (names (outputs rq)) ≡ true)) x.1
        → AreDistinct x.1
        → (x.0 ≡ ok tt
            → Done u rq.graph_tmp.name rq.graph_out.name rq.sidecar_out.name tmp rq.stale_sidecar
                x.2)
        → (HasCalmRollback rq tmp w → IsSignalFree x.2.faults)
        → IsAtomic rq tmp w (after_changes bs x)
    after_changes-IsAtomic (ok _, cs, v) keep listed distinct done calm = record {
      ending = inl (
        refl,
        let (at_g, at_s, gone) = done refl in
            record {
              graph = at_g ∙ staged.0;
              sidecar = at_s ∙ staged_sidecar u tmp staged;
              stale = gone;
              others = λ n nv new.
                  keep n (staged_hidden_apart n (staged_names rq tmp) nv can.hidden)
                    (changed_subset n cs listed new)
                  ∙ agree n nv;
            },
      );
      hidden_backups = AreHidden-of_free w' bs free;
    }
    after_changes-IsAtomic (raised e, cs, v) keep listed distinct done calm = record {
      ending = inr (
          Undone-weaken w.entry (IsSignalFree v.faults) (HasCalmRollback rq tmp w) (undo e cs bs v)
            calm
            (undo-Undone w.entry bs e cs v
              (are_ready w.entry v bs cs
                (Holds-after w.entry w' u v (staged_names rq tmp) cs bs taken free
                  (IsVisible-of_listed cs listed) keep held)
                distinct
                (subst (λ ks. All (λ (p : Text). IsVisible p × (has p ks ≡ true)) cs) (sym key)
                  listed))
              (λ n nv new.
                keep n (staged_hidden_apart n (staged_names rq tmp) nv can.hidden) new
                ∙ agree n nv)));
      hidden_backups =
          subst AreHidden (sym (undo_backups e cs bs v)) (AreHidden-of_free w' bs free);
    }

    commit-IsAtomic :
        (HasCalmRollback rq tmp w → IsSignalFree (run_changes (changes rq tmp) [] u).2.faults)
        → IsAtomic rq tmp w (commit (changes rq tmp) bs u)
    unfolding commit
    commit-IsAtomic calm =
        after_changes-IsAtomic (run_changes (changes rq tmp) [] u)
          (run_changes-others (staged_names rq tmp) u (changes rq tmp) (changes-IsLocal rq tmp))
          (run_changes-All P (changes rq tmp) u
            (subst (All P) (sym (outputs_of-changes rq tmp)) outputs_listed))
          (run_changes-AreDistinct (changes rq tmp) u
            (subst AreDistinct (sym (outputs_of-changes rq tmp)) can.distinct_outputs))
          (run_changes-Done rq.graph_tmp.name rq.graph_out.name rq.sidecar_out.name u tmp
            rq.stale_sidecar apart_names)
          calm
      where
        P : Text → Type 0
        P p = IsVisible p × (has p (names (outputs rq)) ≡ true)

  taken_still :
      (v : World) (ts : List Text)
      → Same w v
      → All (λ (t : Text). w.entry t ≢ none) ts
      → All (λ (t : Text). v.entry t ≢ none) ts
  taken_still v [] same h = tt
  taken_still v (t ∷ ts) same (here, h) =
      ((λ gone. here (sym (same t) ∙ gone)), taken_still v ts same h)

  staged_still :
      (v u : World) (ts : List Text)
      → Same w v
      → Grows v u
      → All (λ (t : Text). v.entry t ≢ none) ts
      → All (λ (t : Text). u.entry t ≡ w.entry t) ts
  staged_still v u [] same g h = tt
  staged_still v u (t ∷ ts) same g (here, h) =
      (g.names t (inr here) ∙ same t, staged_still v u ts same g h)

  after_backups-IsAtomic :
      (v : World) (x : Outcome (Unit {0}) × Backups × World)
      → Same w v
      → Taken w.entry (names (outputs rq)) v x
      → (HasCalmRollback rq tmp w → IsSignalFree (run_changes (changes rq tmp) [] x.2).2.faults)
      → IsAtomic rq tmp w (after_backups rq tmp x)
  after_backups-IsAtomic v (raised e, bs, u) same (g, free, _) calm = record {
    ending =
        inr
          (Undone-early (HasCalmRollback rq tmp w) w u e bs (λ n nv. g.names n (inl nv) ∙ same n));
    hidden_backups = AreHidden-of_free v bs free;
  }
  after_backups-IsAtomic v (ok _, bs, u) same (g, free, done) calm =
      let (held, key) = done refl in
      commit-IsAtomic u v bs (λ n nv. g.names n (inl nv) ∙ same n)
        (staged_still v u (staged_names rq tmp) same g still) still free held key calm
    where
      still : All (λ (t : Text). v.entry t ≢ none) (staged_names rq tmp)
      still = taken_still v (staged_names rq tmp) same can.taken

  after_prepare-IsAtomic :
      (x : Outcome (Unit {0}) × World)
      → Same w x.1
      → (HasCalmRollback rq tmp w
          → IsSignalFree
              (run_changes (changes rq tmp) [] (take_backups (names (outputs rq)) x.1).2).2.faults)
      → IsAtomic rq tmp w (after_prepare rq tmp x)
  after_prepare-IsAtomic (raised e, v) same calm = record {
    ending = inr (Undone-early (HasCalmRollback rq tmp w) w v e [] (λ n _. same n));
    hidden_backups = tt;
  }
  after_prepare-IsAtomic (ok _, v) same calm =
      after_backups-IsAtomic v (take_backups (names (outputs rq)) v) same
        (take_backups-Taken w.entry (names (outputs rq)) v can.visible (λ n _. same n)) calm

  -- At every schedule of faults the attempt publishes both files; or it raises with every
  -- visible name as it was; or it reports that the rollback failed, and the previous entry of
  -- each output is under its name or under that of a backup that is kept. After a signal this is
  -- stated where no further signal comes once the replacements have failed.
  pub attempt-IsAtomic : IsAtomic rq tmp w (attempt rq tmp w)
  unfolding attempt
  attempt-IsAtomic = after_prepare-IsAtomic (prepare rq tmp w) (prepare-Same rq tmp w) (λ h. h)
