-- ===== src/Publish/Readiness.antt =====
-- From the backups taken to the outputs that a rollback can restore.
use dfine_cpp.Common.{
  ◌≡◌, refl, sym, ◌∙◌, ◌≢◌, ◌⊎◌, inl, inr, true, false, Option, none, some, List, [], ◌∷◌, ◌++◌,
  Text, text_eq, text_eq_iff, arith, Bool-cases, All,
}
use dfine_cpp.Publish.{Backups, backup_of, rollback}
use dfine_cpp.Publish.System.{
  World, raised, Exn, keyboard_interrupt, is_os_error, under, unlink_missing_ok, replace,
}
use dfine_cpp.Publish.Staging.{restore_output}
use dfine_cpp.Publish.Effects.{is_hidden, Kept, unlink_missing_ok-Kept, replace-Kept}
use dfine_cpp.Publish.Held.{Entries, IsVisible, Holds, IsUnused, WereFree, keys, taken-ne-free}
use dfine_cpp.Publish.Rollback.{AreReady}
use dfine_cpp.Publish.Restoring.{has, text_eq_comm, visible-ne-hidden, IsReady, AreApart, or_false}
use dfine_cpp.Publish.Commit.{AreDistinct, KeepsOthers}

module _ (o : Entries) (v : World) where
  IsReady-of_key :
      (p : Text) (bs : Backups)
      → Holds o v bs
      → has p (keys bs) ≡ true
      → IsReady o v p (backup_of p bs)
  unfolding backup_of
  IsReady-of_key p [] h k = cc
  IsReady-of_key p ((q, x) ∷ bs) h k = elim (Bool-cases (text_eq p q)) [
    | inl same ↦ rw same (let e = (text_eq_iff p q).0 same in rw e (head x h))
    | inr differ ↦ rw differ (IsReady-of_key p bs (tail_of x h) (ground arith))
  ]
    where
      head : (y : Option Text) → Holds o v ((q, y) ∷ bs) → IsReady o v q y
      head none (absent, _) = absent
      head (some b) (hid, held, taken, _, _) = (hid, held, taken)

      tail_of : (y : Option Text) → Holds o v ((q, y) ∷ bs) → Holds o v bs
      tail_of none (_, t) = t
      tail_of (some b) (_, _, _, _, t) = t

  unused_apart : (b q : Text) (bs : Backups) → IsUnused b bs → AreApart (some b) (backup_of q bs)
  unfolding backup_of
  unused_apart b q [] u = tt
  unused_apart b q ((r, x) ∷ bs) u = elim (Bool-cases (text_eq q r)) [
    | inl same ↦ rw same (at_head x u)
    | inr differ ↦ rw differ (unused_apart b q bs (at_tail x u))
  ]
    where
      at_head : (y : Option Text) → IsUnused b ((r, y) ∷ bs) → AreApart (some b) y
      at_head none _ = tt
      at_head (some c) (ne, _) = ne

      at_tail : (y : Option Text) → IsUnused b ((r, y) ∷ bs) → IsUnused b bs
      at_tail none t = t
      at_tail (some c) (_, t) = t

  apart_sym : (x y : Option Text) → AreApart x y → AreApart y x
  apart_sym none none a = tt
  apart_sym none (some c) a = tt
  apart_sym (some b) none a = tt
  apart_sym (some b) (some c) a = text_eq_comm b c a

  head_apart :
      (q r : Text) (x : Option Text) (bs : Backups)
      → Holds o v ((r, x) ∷ bs)
      → AreApart x (backup_of q bs)
  head_apart q r (some b) bs (_, _, _, unused, _) = unused_apart b q bs unused
  head_apart q r none bs _ = apart_sym (backup_of q bs) none tt

  apart_of_keys :
      (p q : Text) (bs : Backups)
      → Holds o v bs
      → text_eq p q ≡ false
      → AreApart (backup_of p bs) (backup_of q bs)
  unfolding backup_of
  apart_of_keys p q [] h ne = tt
  apart_of_keys p q ((r, x) ∷ bs) h ne = elim (Bool-cases (text_eq p r)) [
    | inl at_p ↦ elim (Bool-cases (text_eq q r)) [
      | inl at_q ↦ absurd (cc (ne, (text_eq_iff p q).1 (both at_p at_q)))
      | inr off_q ↦ rw (at_p, off_q) (head_apart q r x bs h)
    ]
    | inr off_p ↦ elim (Bool-cases (text_eq q r)) [
      | inl at_q ↦ rw (off_p, at_q) (apart_sym x (backup_of p bs) (head_apart p r x bs h))
      | inr off_q ↦ rw (off_p, off_q) (apart_of_keys p q bs (tail_of x h) ne)
    ]
  ]
    where
      both : text_eq p r ≡ true → text_eq q r ≡ true → p ≡ q
      both a b = (text_eq_iff p r).0 a ∙ sym ((text_eq_iff q r).0 b)

      tail_of : (y : Option Text) → Holds o v ((r, y) ∷ bs) → Holds o v bs
      tail_of none (_, t) = t
      tail_of (some b) (_, _, _, _, t) = t

  All-apart :
      (p : Text) (bs : Backups) (cs : List Text)
      → Holds o v bs
      → has p cs ≡ false
      → All (λ (q : Text). AreApart (backup_of p bs) (backup_of q bs)) cs
  All-apart p bs [] h new = tt
  All-apart p bs (q ∷ cs) h new =
      let (n_q, n_cs) = or_false new in (apart_of_keys p q bs h n_q, All-apart p bs cs h n_cs)

  -- Distinct outputs with backups can be rolled back.
  pub are_ready :
      (bs : Backups) (cs : List Text)
      → Holds o v bs
      → AreDistinct cs
      → All (λ (p : Text). IsVisible p × (has p (keys bs) ≡ true)) cs
      → AreReady o bs v cs
  are_ready bs [] h d k = tt
  are_ready bs (p ∷ cs) h (new, d) ((pv, key), k) =
      (pv, new, IsReady-of_key p bs h key, All-apart p bs cs h new, are_ready bs cs h d k)

-- A free name is none of the names that are taken.
free_not_taken :
    (b : Text) (w : World) (staged : List Text)
    → w.entry b ≡ none
    → All (λ (t : Text). w.entry t ≢ none) staged
    → has b staged ≡ false
free_not_taken b w [] free taken = refl
free_not_taken b w (t ∷ staged) free (here, taken) =
    ground (
      arith,
      text_eq_comm t b (taken-ne-free t b w here free),
      free_not_taken b w staged free taken,
    )

pub hidden_not_visible :
    (b : Text) (cs : List Text) → is_hidden b ≡ true → All IsVisible cs → has b cs ≡ false
hidden_not_visible b [] hid vis = refl
hidden_not_visible b (q ∷ cs) hid (qv, vis) =
    ground (arith, text_eq_comm q b (visible-ne-hidden q b qv hid), hidden_not_visible b cs hid vis)

-- The replacements leave the backups as they were.
pub Holds-after :
    (o : Entries) (w u v : World) (staged cs : List Text) (bs : Backups)
    → All (λ (t : Text). w.entry t ≢ none) staged
    → WereFree w bs
    → All IsVisible cs
    → KeepsOthers staged u cs v
    → Holds o u bs
    → Holds o v bs
Holds-after o w u v staged cs [] taken free vis keep h = tt
Holds-after o w u v staged cs ((p, none) ∷ bs) taken free vis keep (absent, h) =
    (absent, Holds-after o w u v staged cs bs taken free vis keep h)
Holds-after o w u v staged cs ((p, some b) ∷ bs) taken (_, fb, free) vis keep
      (hid, held, here, unused, h) =
    (
      hid,
      keep b (free_not_taken b w staged fb taken) (hidden_not_visible b cs hid vis) ∙ held,
      here,
      unused,
      Holds-after o w u v staged cs bs taken free vis keep h,
    )

module _ (p : Text) (x : Option Text) (v : World) where
  restore_output-Kept : Kept v (restore_output p x v).1
  unfolding restore_output
  restore_output-Kept = elim x as (λ y. Kept v (restore_output p y v).1) [
    | none ↦ unlink_missing_ok-Kept p v
    | some b ↦ replace-Kept b p v
  ]

  restore_output_raised :
      (e : Exn)
      → (restore_output p x v).0 ≡ raised e
      → (is_os_error e ≡ true) ⊎ (e ≡ keyboard_interrupt)
  unfolding restore_output unlink_missing_ok replace under
  restore_output_raised e h = ground arith

-- A rollback itself fails only by a signal's exception.
pub rollback_raised :
    (ps : List Text) (bs : Backups) (errors : List Text) (v : World) (e : Exn)
    → (rollback ps bs errors v).0 ≡ raised e
    → e ≡ keyboard_interrupt
unfolding rollback
rollback_raised [] bs errors v e h = cc
rollback_raised (p ∷ ps) bs errors v e h = ground (
  arith,
  rollback_raised ps bs errors (restore_output p (backup_of p bs) v).1 e,
  rollback_raised ps bs (errors ++ (p ∷ [])) (restore_output p (backup_of p bs) v).1 e,
  restore_output_raised p (backup_of p bs) v e,
)
