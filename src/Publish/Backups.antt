-- ===== src/Publish/Backups.antt =====
-- `_link_backup`: what a backup holds and what taking one changes.
use dfine_cpp.Common.{
  ◌≡◌, refl, sym, ap, ◌∙◌, ◌≢◌, ◌⊎◌, inl, inr, Bool, true, false, Option, none, some, Text, text_eq,
  text_eq_iff, arith, Bool-cases,
}
use mathlib.Core.Path.{subst}
use dfine_cpp.Publish.System.{
  M, World, Outcome, ok, raised, Exn, under, lstat, unlink, link, unlink_missing_ok, other_call,
  on_error, ◌>>=◌, ◌>>◌, pure,
}
use dfine_cpp.Publish.Staging.{adjacent_temp, is_there, backup_suffix, fill_backup, link_backup}
use dfine_cpp.Publish.Rules.{IsComposable, Outcome-cases, bind-rel, on_error-rel}
use dfine_cpp.Publish.Effects.{
  is_hidden, Kept, Kept-trans, Same, Except, lstat-Same, unlink-Except, unlink-Kept,
  unlink_missing_ok-Except, unlink_missing_ok-Kept, other_call-Same, other_call-Kept, link-Kept,
  link-Except, link_made,
}
use dfine_cpp.Publish.Growth.{
  Grows, Grows-of_Same, Grows-trans, Grows-of_Except, Kept-IsComposable, Except-IsComposable,
  Allocated, adjacent_temp-Allocated,
}

module _ (path : Text) (w : World) where
  is_there-Same : Same w (is_there path w).1
  unfolding is_there
  is_there-Same n = ground (arith, lstat-Same path w n)

  is_there-Kept : Kept w (is_there path w).1
  unfolding is_there lstat under
  is_there-Kept = record { contents = λ i h. ground arith; next_le = ground arith }

  is_there-true : (is_there path w).0 ≡ ok true → w.entry path ≢ none
  unfolding is_there lstat under
  is_there-true h gone = ground arith

  is_there-false : (is_there path w).0 ≡ ok false → w.entry path ≡ none
  unfolding is_there lstat under
  is_there-false h = ground arith

module _ (path backup : Text) where
  -- The second link, undone if it fails.
  abbrev linked : M (Unit {0})
  linked = on_error (other_call >> link path backup) (unlink_missing_ok backup)

  linked-Except : (w : World) → Except backup w (linked w).1
  linked-Except w =
      on_error-rel c (other_call >> link path backup) w (unlink_missing_ok backup)
        (bind-rel c other_call (λ _. link path backup) w (λ n _. other_call-Same w n)
          (λ _ v. link-Except path backup v))
        (unlink_missing_ok-Except backup)
    where
      c : IsComposable (Except backup)
      c = Except-IsComposable backup

  linked-Kept : (w : World) → Kept w (linked w).1
  linked-Kept w =
      on_error-rel c (other_call >> link path backup) w (unlink_missing_ok backup)
        (bind-rel c other_call (λ _. link path backup) w (other_call-Kept w)
          (λ _ v. link-Kept path backup v))
        (unlink_missing_ok-Kept backup)
    where
      c : IsComposable Kept
      c = Kept-IsComposable

  fill_backup-Except : (w : World) → Except backup w (fill_backup path backup w).1
  unfolding fill_backup
  fill_backup-Except w =
      bind-rel c (unlink backup) (λ _. linked >> pure (some backup)) w (unlink-Except backup w)
        (λ _ v. bind-rel c linked (λ _. pure (some backup)) v (linked-Except v) (λ _ u n ne. refl))
    where
      c : IsComposable (Except backup)
      c = Except-IsComposable backup

  fill_backup-Kept : (w : World) → Kept w (fill_backup path backup w).1
  unfolding fill_backup
  fill_backup-Kept w =
      bind-rel c (unlink backup) (λ _. linked >> pure (some backup)) w (unlink-Kept backup w)
        (λ _ v. bind-rel c linked (λ _. pure (some backup)) v (linked-Kept v) (λ _ u. c.same u))
    where
      c : IsComposable Kept
      c = Kept-IsComposable

  -- A backup that is handed out is the name asked for, with the output's entry.
  fill_backup_made :
      (w : World) (b : Option Text)
      → text_eq backup path ≡ false
      → (fill_backup path backup w).0 ≡ ok b
      → (b ≡ some backup) × ((fill_backup path backup w).1.entry backup ≡ w.entry path)
  unfolding fill_backup
  fill_backup_made w b ne h = ground (
    arith,
    unlink-Except backup w path ne,
    other_call-Same (unlink backup w).1 path,
    link_made path backup (other_call (unlink backup w).1).1,
  )

-- What a request for a backup does, from the world before it.
abbrev pub BackedUp : Text → World → Outcome (Option Text) × World → Type 0
BackedUp path w (ok none, v) = (w.entry path ≡ none) × Grows w v
BackedUp path w (ok (some b), v) =
    (is_hidden b ≡ true)
    × (w.entry b ≡ none)
    × (w.entry path ≢ none)
    × (v.entry b ≡ w.entry path)
    × Grows w v
BackedUp path w (raised _, v) = Grows w v

-- A free name is not the name of something that is there.
free-ne-taken :
    (b path : Text) (w : World) → w.entry b ≡ none → w.entry path ≢ none → text_eq b path ≡ false
free-ne-taken b path w free taken = elim (Bool-cases (text_eq b path)) [
  | inl same ↦ absurd (taken (rw (← (text_eq_iff b path).0 same) free))
  | inr differ ↦ differ
]

-- With the staging name at hand.
fill_backup-BackedUp :
    (path b : Text) (w v : World)
    → w.entry path ≢ none
    → Allocated w (ok b, v)
    → BackedUp path w (fill_backup path b v)
fill_backup-BackedUp path b w v taken (hid, new, ex, kept, _) =
    go (Outcome-cases (fill_backup path b v).0)
  where
    ne : text_eq b path ≡ false
    ne = free-ne-taken b path w new taken

    u : World
    u = (fill_backup path b v).1

    grows : Grows w u
    grows =
        Grows-of_Except b hid new (λ n d. fill_backup-Except path b v n d ∙ ex n d)
          (Kept-trans kept (fill_backup-Kept path b v))

    go :
        ((x : Option Text) × ((fill_backup path b v).0 ≡ ok x))
          ⊎ ((e : Exn) × ((fill_backup path b v).0 ≡ raised e))
        → BackedUp path w (fill_backup path b v)
    go (inl (x, e)) =
        let (same, held) = fill_backup_made path b v x ne e in
        subst (λ r. BackedUp path w (r, u)) (sym (e ∙ ap ok same))
          (hid, new, taken, held ∙ ex path ne, grows)
    go (inr (x, e)) = subst (λ r. BackedUp path w (r, u)) (sym e) grows

made_backup :
    (path : Text) (w : World)
    → w.entry path ≢ none
    → BackedUp path w ((adjacent_temp path backup_suffix >>= fill_backup path) w)
made_backup path w taken =
    go (adjacent_temp path backup_suffix w) (adjacent_temp-Allocated path backup_suffix w)
  where
    go :
        (x : Outcome Text × World)
        → Allocated w x
        → BackedUp path w (((λ (_ : World). x) >>= fill_backup path) w)
    go (ok b, v) a = fill_backup-BackedUp path b w v taken a
    go (raised e, v) g = g

BackedUp-after :
    (path : Text) (u v : World) (x : Outcome (Option Text) × World)
    → Same u v
    → Kept u v
    → BackedUp path v x
    → BackedUp path u x
BackedUp-after path u v (ok none, w) s k (absent, g) =
    (sym (s path) ∙ absent, Grows-trans (Grows-of_Same s k) g)
BackedUp-after path u v (ok (some b), w) s k (hid, free, taken, held, g) = (
  hid,
  sym (s b) ∙ free,
  (λ gone. taken (s path ∙ gone)),
  held ∙ s path,
  Grows-trans (Grows-of_Same s k) g,
)
BackedUp-after path u v (raised e, w) s k g = Grows-trans (Grows-of_Same s k) g

pub link_backup-BackedUp : (path : Text) (w : World) → BackedUp path w (link_backup path w)
unfolding link_backup
link_backup-BackedUp path w = elim (Outcome-cases c.0) [
  | inl (false, e) ↦ rw (e, ◌>>=◌) (is_there-false path w e, Grows-of_Same same kept)
  | inl (true, e) ↦
      rw (e, ◌>>=◌)
        (BackedUp-after path w c.1 _ same kept
          (made_backup path c.1 (λ gone. is_there-true path w e (sym (same path) ∙ gone))))
  | inr (x, e) ↦ rw (e, ◌>>=◌) (Grows-of_Same same kept)
]
  where
    c : Outcome Bool × World
    c = is_there path w

    same : Same w c.1
    same = is_there-Same path w

    kept : Kept w c.1
    kept = is_there-Kept path w
