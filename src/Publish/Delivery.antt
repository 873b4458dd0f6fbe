-- ===== src/Publish/Delivery.antt =====
-- `_publish_pair` as a whole: what the staged sidecar is, and what a call that returns has delivered.
use dfine_cpp.Common.{
  ℕ, ◌≡◌, refl, sym, ap, ◌∙◌, ◌≢◌, inl, inr, Bool, true, false, not, Option, none, some, [], ◌∷◌,
  Text, arith, if◌then◌else◌, All,
}
use mathlib.Core.Path.{subst}
use dfine_cpp.Publish.{
  FilePath, Request, stale_list, outputs, names, stage_sidecar, locked, open_and_publish, distinct,
  one_directory, publish_pair,
}
use dfine_cpp.Publish.System.{
  World, file, Outcome, ok, raised, ◌>>=◌, on_error, other_call, value_error,
}
use dfine_cpp.Publish.Staging.{cleanup}
use dfine_cpp.Publish.Rules.{bind-ok, on_error-ok}
use dfine_cpp.Publish.Effects.{is_hidden, Kept, Kept-trans, Same, other_call-Same, other_call-Kept}
use dfine_cpp.Publish.Growth.{Grows}
use dfine_cpp.Publish.Held.{IsVisible, taken-ne-free}
use dfine_cpp.Publish.Restoring.{has}
use dfine_cpp.Publish.Commit.{AreDistinct}
use dfine_cpp.Publish.Atomic.{CanPublish, Published, IsRemoved, staged_entry, staged_names}
use dfine_cpp.Publish.Success.{Tidy, locked_ok}
use dfine_cpp.Publish.Staged.{IsStaged, stage_text-IsStaged}

-- The sidecar's entry that a call delivers.
abbrev pub IsSidecar : Option Text → World → Text → Type 0
IsSidecar none v s = v.entry s ≡ none
IsSidecar (some text) v s = (k : ℕ) × (v.entry s ≡ some (file k)) × ((v.inode k).content ≡ text)

pub record Delivered (rq : Request) (w v : World) : Type 0 where
  pub graph : v.entry rq.graph_out.name ≡ w.entry rq.graph_tmp.name
  pub sidecar : IsSidecar rq.sidecar_text v rq.sidecar_out.name
  pub stale : IsRemoved v rq.stale_sidecar
  pub others : (n : Text) → IsVisible n → has n (names (outputs rq)) ≡ false → v.entry n ≡ w.entry n
  pub kept : Kept w v

-- What a call needs: visible output names that differ, and a staged graph under a hidden name.
pub record IsRequest (rq : Request) (w : World) : Type 0 where
  pub visible : All IsVisible (names (outputs rq))
  pub distinct_outputs : AreDistinct (names (outputs rq))
  pub hidden : is_hidden rq.graph_tmp.name ≡ true
  pub taken : w.entry rq.graph_tmp.name ≢ none

guarded :
    (a b : Bool) (w : World) (x : Outcome (Unit {0}) × World)
    → (if not a then (raised value_error, w) else if not b then (raised value_error, w) else x).0
      ≡ ok tt
    → (if not a then (raised value_error, w) else if not b then (raised value_error, w) else x) ≡ x
guarded true true w x h = refl
guarded true false w x h = cc
guarded false b w x h = cc

checks_passed :
    (rq : Request) (w : World)
    → (publish_pair rq w).0 ≡ ok tt
    → publish_pair rq w ≡ (stage_sidecar rq >>= open_and_publish rq) w
unfolding publish_pair
checks_passed rq w h =
    guarded (one_directory rq w) (distinct (rq.graph_tmp ∷ outputs rq)) w
      ((stage_sidecar rq >>= open_and_publish rq) w) h

-- The entry of the staged sidecar, moved to its output, with the contents kept after that.
IsSidecar-delivered :
    (text : Option Text) (tmp : Option Text) (s : Text) (w u v x : World)
    → IsStaged text w (tmp, u)
    → Same u v
    → Kept u v
    → x.entry s ≡ staged_entry v tmp
    → Kept v x
    → IsSidecar text x s
IsSidecar-delivered none none s w u v x g same kept at k = at
IsSidecar-delivered none (some t) s w u v x g same kept at k = absurd g
IsSidecar-delivered (some text) none s w u v x g same kept at k = absurd g
IsSidecar-delivered (some text) (some t) s w u v x (_, _, _, (i, e, lt, content)) same kept at k = (
  i,
  at ∙ (same t ∙ e),
  k.contents i (omega (arith, lt, kept.next_le)) ∙ (kept.contents i lt ∙ content),
)

staged-Grows : (text tmp : Option Text) (w u : World) → IsStaged text w (tmp, u) → Grows w u
staged-Grows none none w u g = g
staged-Grows none (some _) w u g = absurd g
staged-Grows (some _) none w u g = absurd g
staged-Grows (some _) (some _) w u (_, _, g, _) = g

module _ (rq : Request) (w : World) (is : IsRequest rq w) where
  -- The staged files' names, after the sidecar's text is staged and the directory is opened.
  are_staged :
      (text tmp : Option Text) (u v : World)
      → IsStaged text w (tmp, u)
      → Same u v
      → All (λ (t : Text). is_hidden t ≡ true) (staged_names rq tmp)
        × All (λ (t : Text). v.entry t ≢ none) (staged_names rq tmp)
        × AreDistinct (staged_names rq tmp)
  are_staged none none u v g same = (
    (is.hidden, tt),
    (
      (λ gone.
          is.taken (
            sym (g.names rq.graph_tmp.name (inr is.taken))
            ∙ (sym (same rq.graph_tmp.name) ∙ gone))),
      tt,
    ),
    (refl, tt),
  )
  are_staged none (some t) u v g same = absurd g
  are_staged (some text) none u v g same = absurd g
  are_staged (some text) (some t) u v (hid, new, g, (i, e, _, _)) same = (
    (is.hidden, (hid, tt)),
    (
      (λ gone.
          is.taken (
            sym (g.names rq.graph_tmp.name (inr is.taken))
            ∙ (sym (same rq.graph_tmp.name) ∙ gone))),
      ((λ gone. cc (same t, e, gone)), tt),
    ),
    (ground (arith, taken-ne-free rq.graph_tmp.name t w is.taken new), (refl, tt)),
  )

  -- What the parts of a call that returns have done, in the order they ran.
  delivered :
      (tmp : Option Text) (u v x y : World)
      → IsStaged rq.sidecar_text w (tmp, u)
      → Same u v
      → Kept u v
      → Published rq tmp v x
      → Kept v x
      → Tidy x y
      → Delivered rq w y
  delivered tmp u v x y st same kept published k tidy = record {
    graph =
        tidy.visible_names rq.graph_out.name is.visible.0
        ∙ (published.graph ∙ (same rq.graph_tmp.name ∙ g.names rq.graph_tmp.name (inr is.taken)));
    sidecar =
        IsSidecar-delivered rq.sidecar_text tmp rq.sidecar_out.name w u v y st same kept
          (tidy.visible_names rq.sidecar_out.name is.visible.1.0 ∙ published.sidecar)
          (Kept-trans k tidy.kept);
    stale = gone rq.stale_sidecar is.visible.1.1 published.stale;
    others = λ n nv new.
        tidy.visible_names n nv ∙ (published.others n nv new ∙ (same n ∙ g.names n (inl nv)));
    kept = Kept-trans g.kept (Kept-trans kept (Kept-trans k tidy.kept));
  }
    where
      g : Grows w u
      g = staged-Grows rq.sidecar_text tmp w u st

      gone :
          (p : Option FilePath)
          → All IsVisible (names (stale_list p))
          → IsRemoved x p
          → IsRemoved y p
      gone none _ _ = tt
      gone (some p) (pv, _) r = tidy.visible_names p.name pv ∙ r

  can_publish :
      (tmp : Option Text) (u v : World)
      → IsStaged rq.sidecar_text w (tmp, u)
      → Same u v
      → CanPublish rq tmp v
  can_publish tmp u v st same =
      let (hid, at, d) = are_staged rq.sidecar_text tmp u v st same in
      record {
        visible = is.visible;
        distinct_outputs = is.distinct_outputs;
        hidden = hid;
        taken = at;
        distinct_staged = d;
      }

  -- A call that returns has moved the staged graph to its output, made the sidecar a file with the
  -- text asked for (or removed it if none is asked for), removed the obsolete sidecar, and left
  -- every other visible name and the contents of every earlier file as they were.
  pub publish_pair_ok : (publish_pair rq w).0 ≡ ok tt → Delivered rq w (publish_pair rq w).1
  unfolding open_and_publish
  publish_pair_ok h =
      let checked = checks_passed rq w h in
      let (tmp, staged, e1) =
        bind-ok (stage_sidecar rq) (open_and_publish rq) w tt (ap (λ x. x.0) (sym checked) ∙ h) in
      let u = (stage_sidecar rq w).1 in
      let st =
        stage_text-IsStaged rq.graph_tmp.name rq.sidecar_out.name rq.sidecar_text w tmp staged in
      let fail = cleanup (some rq.graph_tmp.name ∷ tmp ∷ []) in
      let opened = on_error other_call fail in
      let h1 : (open_and_publish rq tmp u).0 ≡ ok tt = ap (λ x. x.0) (sym (checked ∙ e1)) ∙ h in
      let (_, done, e2) = bind-ok opened (λ _. locked rq tmp) u tt h1 in
      let (_, e3) = on_error-ok other_call fail u tt done in
      let v = (other_call u).1 in
      let same : Same u v = other_call-Same u in
      let e : publish_pair rq w ≡ locked rq tmp v =
        checked ∙ (e1 ∙ (e2 ∙ ap (λ x. locked rq tmp x.1) e3)) in
      let (x, published, k, tidy) =
        locked_ok rq tmp v (can_publish tmp u v st same) (ap (λ r. r.0) (sym e) ∙ h) in
      subst (λ r. Delivered rq w r.1) (sym e)
        (delivered tmp u v x (locked rq tmp v).1 st same (other_call-Kept u) published k tidy)
