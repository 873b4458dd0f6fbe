-- ===== src/Publish/Atomic.antt =====
-- What the `try` block of `_publish_pair` starts from, and what it has published when it succeeds.
use dfine_cpp.Common.{
  ℕ, ◌≡◌, refl, sym, ap, ◌∙◌, ◌≢◌, true, false, Option, none, some, List, [], ◌∷◌, Text, text_eq,
  All, map,
}
use mathlib.Core.Path.{subst}
use dfine_cpp.Publish.{
  FilePath, Request, outputs, names, stale_list, replace_sidecar, changes, copy_mode, prepare,
  run_changes,
}
use dfine_cpp.Publish.System.{
  M, World, Entry, ok, stat_mode, chmod, other_call, replace, unlink_missing_ok, ◌>>◌, pure,
}
use dfine_cpp.Publish.Rules.{IsComposable, bind-rel}
use dfine_cpp.Publish.Effects.{
  is_hidden, Same, stat_mode-Same, chmod-Same, other_call-Same, replace-others, replace_made,
  unlink_missing_ok-Except, unlink_missing_ok-none,
}
use dfine_cpp.Publish.Growth.{Same-IsComposable}
use dfine_cpp.Publish.Held.{IsVisible}
use dfine_cpp.Publish.Restoring.{has, text_eq_comm, or_false}
use dfine_cpp.Publish.Commit.{AreDistinct, Steps, outputs_of, IsLocal, run_changes-inversion}

abbrev pub opt_list : Option Text → List Text
opt_list none = []
opt_list (some t) = t ∷ []

abbrev pub staged_names : Request → Option Text → List Text
staged_names rq tmp = rq.graph_tmp.name ∷ opt_list tmp

-- The outputs are distinct visible names, and the staged files hidden names that are there.
pub record CanPublish (rq : Request) (tmp : Option Text) (w : World) : Type 0 where
  pub visible : All IsVisible (names (outputs rq))
  pub distinct_outputs : AreDistinct (names (outputs rq))
  pub hidden : All (λ (t : Text). is_hidden t ≡ true) (staged_names rq tmp)
  pub taken : All (λ (t : Text). w.entry t ≢ none) (staged_names rq tmp)
  pub distinct_staged : AreDistinct (staged_names rq tmp)

-- The sidecar's new entry: that of the staged text, or none.
abbrev pub staged_entry : World → Option Text → Option Entry
staged_entry w none = none
staged_entry w (some t) = w.entry t

abbrev pub IsRemoved : World → Option FilePath → Type 0
IsRemoved v none = Unit
IsRemoved v (some p) = v.entry p.name ≡ none

-- Both outputs are new, the obsolete sidecar is gone, and no other visible name has changed.
pub record Published (rq : Request) (tmp : Option Text) (w v : World) : Type 0 where
  pub graph : v.entry rq.graph_out.name ≡ w.entry rq.graph_tmp.name
  pub sidecar : v.entry rq.sidecar_out.name ≡ staged_entry w tmp
  pub stale : IsRemoved v rq.stale_sidecar
  pub others : (n : Text) → IsVisible n → has n (names (outputs rq)) ≡ false → v.entry n ≡ w.entry n

copy_mode-Same :
    (staged : Option Text) (target : Text) (w : World) → Same w (copy_mode staged target w).1
unfolding copy_mode
copy_mode-Same none target w = λ n. refl
copy_mode-Same (some t) target w =
    bind-rel Same-IsComposable (stat_mode target) set w (stat_mode-Same target w) at
  where
    set : Option ℕ → M (Unit {0})
    set mode = elim mode [ none ↦ pure tt | some m ↦ chmod t m ]

    at : (mode : Option ℕ) (v : World) → Same v (set mode v).1
    at none v = λ n. refl
    at (some m) v = chmod-Same t v m

pub prepare-Same : (rq : Request) (tmp : Option Text) (w : World) → Same w (prepare rq tmp w).1
unfolding prepare
prepare-Same rq tmp w =
    bind-rel c other_call (λ _. modes) w (other_call-Same w)
      (λ _ v.
        bind-rel c (copy_mode (some rq.graph_tmp.name) rq.graph_out.name)
          (λ _. copy_mode tmp rq.sidecar_out.name) v
          (copy_mode-Same (some rq.graph_tmp.name) rq.graph_out.name v)
          (λ _. copy_mode-Same tmp rq.sidecar_out.name))
  where
    c : IsComposable Same
    c = Same-IsComposable

    modes : M (Unit {0})
    modes =
        copy_mode (some rq.graph_tmp.name) rq.graph_out.name >> copy_mode tmp rq.sidecar_out.name

pub outputs_of-changes :
    (rq : Request) (tmp : Option Text) → outputs_of (changes rq tmp) ≡ names (outputs rq)
outputs_of-changes rq tmp =
    ap (λ ps. rq.graph_out.name ∷ rq.sidecar_out.name ∷ ps) (stale rq.stale_sidecar)
  where
    stale :
        (x : Option FilePath)
        → outputs_of (map (λ (p : Text). (p, unlink_missing_ok p)) (names (stale_list x)))
          ≡ names (stale_list x)
    stale none = refl
    stale (some p) = refl

pub changes-IsLocal :
    (rq : Request) (tmp : Option Text) → All (IsLocal (staged_names rq tmp)) (changes rq tmp)
changes-IsLocal rq tmp = (first, (sidecar tmp, stale rq.stale_sidecar))
  where
    first :
        IsLocal
          (staged_names rq tmp)
          (rq.graph_out.name, replace rq.graph_tmp.name rq.graph_out.name)
    first w n ns nc =
        replace-others rq.graph_tmp.name rq.graph_out.name w n
          (text_eq_comm n rq.graph_tmp.name (or_false ns).0) nc

    sidecar :
        (x : Option Text)
        → IsLocal (staged_names rq x) (rq.sidecar_out.name, replace_sidecar x rq.sidecar_out.name)
    sidecar none w n ns nc = unlink_missing_ok-Except rq.sidecar_out.name w n nc
    sidecar (some t) w n ns nc =
        replace-others t rq.sidecar_out.name w n (text_eq_comm n t (or_false (or_false ns).1).0) nc

    stale :
        (x : Option FilePath)
        → All
            (IsLocal (staged_names rq tmp))
            (map (λ (p : Text). (p, unlink_missing_ok p)) (names (stale_list x)))
    stale none = tt
    stale (some p) = ((λ w n ns nc. unlink_missing_ok-Except p.name w n nc), tt)

-- The outcome of the replacements, in the world they start from.
abbrev pub Done : World → Text → Text → Text → Option Text → Option FilePath → World → Type 0
Done u gt g s x y v = (v.entry g ≡ u.entry gt) × (v.entry s ≡ staged_entry u x) × IsRemoved v y

abbrev pub steps : Text → Text → Text → Option Text → Option FilePath → Steps
steps gt g s x y =
    (g, replace gt g)
    ∷ (s, replace_sidecar x s)
    ∷ map (λ (p : Text). (p, unlink_missing_ok p)) (names (stale_list y))

-- The three outputs and the staged files are different names.
abbrev pub AreApartNames : Text → Text → Text → Option Text → Option FilePath → Type 0
AreApartNames gt g s x y =
    AreDistinct (g ∷ s ∷ names (stale_list y))
    × (text_eq gt g ≡ false)
    × (text_eq gt s ≡ false)
    × All (λ (t : Text). (text_eq gt t ≡ false) × (text_eq g t ≡ false) × (text_eq s t ≡ false))
        (opt_list x)

module _ (gt g s : Text) (u : World) where
  abbrev u1 : World
  u1 = (replace gt g u).1

  -- After the graph and the sidecar.
  two-Done :
      (x : Option Text)
      → (text_eq g s ≡ false)
      → (text_eq gt g ≡ false)
      → (text_eq gt s ≡ false)
      → All
          (λ (t : Text). (text_eq gt t ≡ false) × (text_eq g t ≡ false) × (text_eq s t ≡ false))
          (opt_list x)
      → (replace gt g u).0 ≡ ok tt
      → (replace_sidecar x s u1).0 ≡ ok tt
      → Done u gt g s x none (replace_sidecar x s u1).1
  two-Done none gs gtg gts st a b = (
    unlink_missing_ok-Except s u1 g (text_eq_comm g s gs) ∙ replace_made gt g u gtg a,
    unlink_missing_ok-none s u1 b,
    tt,
  )
  two-Done (some t) gs gtg gts ((gtt, gt', st'), _) a b = (
    replace-others t s u1 g (text_eq_comm g t gt') (text_eq_comm g s gs)
        ∙ replace_made gt g u gtg a,
    replace_made t s u1 (text_eq_comm s t st') b ∙ replace-others gt g u t gtt gt',
    tt,
  )

  pub run_changes-Done :
      (x : Option Text) (y : Option FilePath)
      → AreApartNames gt g s x y
      → (run_changes (steps gt g s x y) [] u).0 ≡ ok tt
      → Done u gt g s x y (run_changes (steps gt g s x y) [] u).2
  unfolding run_changes
  run_changes-Done x none ((gs, _), gtg, gts, st) h =
      let (a, e1) = run_changes-inversion g (replace gt g) ((s, replace_sidecar x s) ∷ []) [] u h in
      let (b, e2) =
        run_changes-inversion s (replace_sidecar x s) [] (g ∷ []) u1 (ap (λ r. r.0) (sym e1) ∙ h) in
      subst (λ r. Done u gt g s x none r.2) (sym (e1 ∙ e2))
        (two-Done x (or_false gs).0 gtg gts st a b)
  run_changes-Done x (some p) ((gs, (sp, _)), gtg, gts, st) h =
      let last : Text × M (Unit {0}) = (p.name, unlink_missing_ok p.name) in
      let (a, e1) =
        run_changes-inversion g (replace gt g) ((s, replace_sidecar x s) ∷ last ∷ []) [] u h in
      let h2 = ap (λ r. r.0) (sym e1) ∙ h in
      let (b, e2) = run_changes-inversion s (replace_sidecar x s) (last ∷ []) (g ∷ []) u1 h2 in
      let h3 = ap (λ r. r.0) (sym e2) ∙ h2 in
      let u2 = (replace_sidecar x s u1).1 in
      let (c, e3) = run_changes-inversion p.name (unlink_missing_ok p.name) [] (s ∷ g ∷ []) u2 h3 in
      let (at_g, at_s, _) = two-Done x (or_false gs).0 gtg gts st a b in
      subst (λ r. Done u gt g s x (some p) r.2) (sym (e1 ∙ (e2 ∙ e3)))
        (
          unlink_missing_ok-Except p.name u2 g (text_eq_comm g p.name (or_false (or_false gs).1).0)
              ∙ at_g,
          unlink_missing_ok-Except p.name u2 s (text_eq_comm s p.name (or_false sp).0) ∙ at_s,
          unlink_missing_ok-none p.name u2 c,
        )
