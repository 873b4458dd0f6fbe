-- ===== src/Publish/Contents.antt =====
-- The `try` block of `_publish_pair` and the contents of files.
use dfine_cpp.Common.{ℕ, ◌≡◌, refl, ◌≢◌, Option, none, some, List, [], ◌∷◌, Text, All, map}
use dfine_cpp.Publish.{
  FilePath, Request, outputs, names, stale_list, Backups, changes, copy_mode, prepare, take_backups,
  run_changes, replace_sidecar, conclude, undo, after_changes, commit, after_backups, after_prepare,
  attempt, rollback,
}
use dfine_cpp.Publish.System.{
  M, World, Outcome, ok, raised, Exn, ◌>>◌, pure, chmod, stat_mode, unlink_missing_ok, other_call,
}
use dfine_cpp.Publish.Rules.{IsComposable, Along, bind-rel}
use dfine_cpp.Publish.Effects.{
  Kept, Kept-refl, Kept-trans, stat_mode-Kept, chmod-Kept, other_call-Kept, unlink_missing_ok-Kept,
  replace-Kept,
}
use dfine_cpp.Publish.Growth.{Kept-IsComposable}
use dfine_cpp.Publish.Held.{IsVisible, take_backups-Taken}
use dfine_cpp.Publish.Commit.{run_changes-Kept}

copy_mode-Kept :
    (staged : Option Text) (target : Text) (w : World) → Kept w (copy_mode staged target w).1
unfolding copy_mode
copy_mode-Kept none target w = Kept-refl w
copy_mode-Kept (some t) target w =
    bind-rel Kept-IsComposable (stat_mode target) set w (stat_mode-Kept target w) at
  where
    set : Option ℕ → M (Unit {0})
    set mode = elim mode [ none ↦ pure tt | some m ↦ chmod t m ]

    at : (mode : Option ℕ) (v : World) → Kept v (set mode v).1
    at none v = Kept-refl v
    at (some m) v = chmod-Kept t v m

module _ (rq : Request) (tmp : Option Text) where
  prepare-Kept : (w : World) → Kept w (prepare rq tmp w).1
  unfolding prepare
  prepare-Kept w =
      bind-rel c other_call (λ _. modes) w (other_call-Kept w)
        (λ _ v.
          bind-rel c (copy_mode (some rq.graph_tmp.name) rq.graph_out.name)
            (λ _. copy_mode tmp rq.sidecar_out.name) v
            (copy_mode-Kept (some rq.graph_tmp.name) rq.graph_out.name v)
            (λ _. copy_mode-Kept tmp rq.sidecar_out.name))
    where
      c : IsComposable Kept
      c = Kept-IsComposable

      modes : M (Unit {0})
      modes =
          copy_mode (some rq.graph_tmp.name) rq.graph_out.name >> copy_mode tmp rq.sidecar_out.name

  changes-Kept : All (λ (s : Text × M (Unit {0})). Along Kept s.1) (changes rq tmp)
  changes-Kept =
      (replace-Kept rq.graph_tmp.name rq.graph_out.name, (sidecar tmp, stale rq.stale_sidecar))
    where
      sidecar : (x : Option Text) → Along Kept (replace_sidecar x rq.sidecar_out.name)
      sidecar none = unlink_missing_ok-Kept rq.sidecar_out.name
      sidecar (some t) = replace-Kept t rq.sidecar_out.name

      stale :
          (x : Option FilePath)
          → All
              (λ (s : Text × M (Unit {0})). Along Kept s.1)
              (map (λ (p : Text). (p, unlink_missing_ok p)) (names (stale_list x)))
      stale none = tt
      stale (some p) = (unlink_missing_ok-Kept p.name, tt)

  conclude_raises :
      (e : Exn) (bs : Backups) (x : Outcome (List Text) × World) → (conclude e bs x).result ≢ ok tt
  conclude_raises e bs (raised e', w) h = cc
  conclude_raises e bs (ok [], w) h = cc
  conclude_raises e bs (ok (p ∷ ps), w) h = cc

  after_changes-Kept :
      (u : World) (bs : Backups) (x : Outcome (Unit {0}) × List Text × World)
      → Kept u x.2
      → (after_changes bs x).result ≡ ok tt
      → Kept u (after_changes bs x).world
  unfolding undo
  after_changes-Kept u bs (ok _, cs, v) k h = k
  after_changes-Kept u bs (raised e, cs, v) k h =
      absurd (conclude_raises e bs (rollback cs bs [] v) h)

  after_backups-Kept :
      (u : World) (x : Outcome (Unit {0}) × Backups × World)
      → Kept u x.2
      → (after_backups rq tmp x).result ≡ ok tt
      → Kept u (after_backups rq tmp x).world
  unfolding commit
  after_backups-Kept u (raised e, bs, v) k h = cc
  after_backups-Kept u (ok _, bs, v) k h = Kept-trans k (
      after_changes-Kept v bs (run_changes (changes rq tmp) [] v)
        (run_changes-Kept (changes rq tmp) v changes-Kept) h)

  after_prepare-Kept :
      (w : World) (x : Outcome (Unit {0}) × World)
      → All IsVisible (names (outputs rq))
      → Kept w x.1
      → (after_prepare rq tmp x).result ≡ ok tt
      → Kept w (after_prepare rq tmp x).world
  after_prepare-Kept w (raised e, v) vis k h = cc
  after_prepare-Kept w (ok _, v) vis k h =
      let (g, _, _) = take_backups-Taken v.entry (names (outputs rq)) v vis (λ n _. refl) in
      after_backups-Kept w (take_backups (names (outputs rq)) v) (Kept-trans k g.kept) h

  pub attempt-Kept :
      (w : World)
      → All IsVisible (names (outputs rq))
      → (attempt rq tmp w).result ≡ ok tt
      → Kept w (attempt rq tmp w).world
  unfolding attempt
  attempt-Kept w vis h = after_prepare-Kept w (prepare rq tmp w) vis (prepare-Kept w) h
