-- ===== src/Publish/Staged.antt =====
-- The sidecar's text, staged beside its output by `_publish_pair`.
use dfine_cpp.Common.{
  ℕ, ◌<◌, ◌≡◌, sym, ap, ◌∙◌, true, Option, none, some, [], ◌∷◌, Text, codes, arith,
}
use mathlib.Core.Path.{subst}
use dfine_cpp.Publish.{stage_text}
use dfine_cpp.Publish.System.{
  M, World, file, Outcome, ok, raised, ◌>>=◌, ◌>>◌, pure, on_error, write_text,
}
use dfine_cpp.Publish.Staging.{adjacent_temp, cleanup}
use dfine_cpp.Publish.Rules.{bind-ok, on_error-ok}
use dfine_cpp.Publish.Effects.{is_hidden, Kept, write_text-Same, write_text_others}
use dfine_cpp.Publish.Growth.{
  Grows, Grows-refl, Grows-of_Except, Allocated, adjacent_temp-Allocated,
}

-- What staging the sidecar's text came to.
abbrev pub IsStaged : Option Text → World → Option Text × World → Type 0
IsStaged none w (none, v) = Grows w v
IsStaged none w (some _, v) = ⊥
IsStaged (some text) w (none, v) = ⊥
IsStaged (some text) w (some t, v) =
    (is_hidden t ≡ true)
    × (w.entry t ≡ none)
    × Grows w v
    × ((k : ℕ) × (v.entry t ≡ some (file k)) × (k < v.next) × ((v.inode k).content ≡ text))

pub written :
    (gt text t : Text) (w v : World) (r : Option Text)
    → Allocated w (ok t, v)
    → (((on_error (write_text t text) (cleanup (some gt ∷ some t ∷ []))) >> pure (some t)) v).0
      ≡ ok r
    → IsStaged (some text) w (
      r,
      (((on_error (write_text t text) (cleanup (some gt ∷ some t ∷ []))) >> pure (some t)) v).1,
    )
written gt text t w v r (hid, new, ex, kept, (k, at, lo, hi)) h =
    let stage = on_error (write_text t text) (cleanup (some gt ∷ some t ∷ [])) in
    let (tt, done, e) = bind-ok stage (λ _. pure (some t)) v r h in
    let (wrote, same) =
      on_error-ok (write_text t text) (cleanup (some gt ∷ some t ∷ [])) v tt done in
    let (others, next, content) = write_text_others t v text k at in
    let u = (write_text t text v).1 in
    let keeps : Kept w u = record {
      contents = λ i l. others i (λ i_k. omega (arith, i_k, l, lo)) ∙ kept.contents i l;
      next_le = omega (arith, next, kept.next_le);
    } in
    let staged : IsStaged (some text) w (some t, u) = (
      hid,
      new,
      Grows-of_Except t hid new (λ n ne. write_text-Same t v text n ∙ ex n ne) keeps,
      (k, write_text-Same t v text t ∙ at, omega (arith, next, hi), content wrote),
    ) in
    let total : (stage >> pure (some t)) v ≡ (ok (some t), u) =
      e ∙ ap (λ x. (ok (some t), x.1)) same in
    let name : some t ≡ r = cc in
    subst (λ q. IsStaged (some text) w (q, ((stage >> pure (some t)) v).1)) name
      (subst (λ x. IsStaged (some text) w (some t, x.1)) (sym total) staged)

pub stage_text-IsStaged :
    (gt s : Text) (text : Option Text) (w : World) (r : Option Text)
    → (stage_text gt s text w).0 ≡ ok r
    → IsStaged text w (r, (stage_text gt s text w).1)
unfolding stage_text
stage_text-IsStaged gt s none w none h = Grows-refl w
stage_text-IsStaged gt s none w (some t) h = cc
stage_text-IsStaged gt s (some text) w r h =
    go (adjacent_temp s (codes ".tmp") w) (adjacent_temp-Allocated s (codes ".tmp") w) h
  where
    body : Text → M (Option Text)
    body tmp = on_error (write_text tmp text) (cleanup (some gt ∷ some tmp ∷ [])) >> pure (some tmp)

    go :
        (x : Outcome Text × World)
        → Allocated w x
        → (((λ (_ : World). x) >>= body) w).0 ≡ ok r
        → IsStaged (some text) w (r, (((λ (_ : World). x) >>= body) w).1)
    go (ok t, v) a k = written gt text t w v r a k
    go (raised e, v) a k = cc
