-- ===== src/Publish/Effects.antt =====
-- What each system call does to the directory's entries and to the contents of files, at every
-- fault.
use dfine_cpp.Common.{
  ℕ, ◌≤◌, ◌<◌, ◌≡◌, refl, ◌∙◌, ◌≢◌, inl, inr, Bool, true, false, Option, none, some, [], ◌∷◌, Text,
  text_eq, text_eq_refl, arith, ◌==◌, Option-cases,
}
use dfine_cpp.Publish.System.{
  World, Entry, file, symlink, same_file, ok, raised, Exn, under, lstat, stat_mode, create, chmod,
  write_text, unlink, unlink_missing_ok, link, replace, other_call,
}

-- Names that begin with a dot, as every staging name does.
abbrev pub is_hidden : Text → Bool
is_hidden [] = false
is_hidden (c ∷ _) = c == b'.'

-- No file that is there is written, and inodes are only added.
pub record Kept (w v : World) : Type 0 where
  pub contents : (i : ℕ) → i < w.next → (v.inode i).content ≡ (w.inode i).content
  pub next_le : w.next ≤ v.next

pub Kept-refl : (w : World) → Kept w w
Kept-refl w = record { contents = λ i h. refl; next_le = omega arith }

pub Kept-trans : {u v w : World} → Kept u v → Kept v w → Kept u w
Kept-trans p q = record {
  contents = λ i h. q.contents i (omega (arith, p.next_le)) ∙ p.contents i h;
  next_le = omega (arith, p.next_le, q.next_le);
}

abbrev pub Same : World → World → Type 0
Same w v = (n : Text) → v.entry n ≡ w.entry n

abbrev pub Except : Text → World → World → Type 0
Except p w v = (n : Text) → text_eq p n ≡ false → v.entry n ≡ w.entry n

module _ (p : Text) (w : World) where
  pub lstat-Same : Same w (lstat p w).1
  unfolding lstat under
  lstat-Same n = ground arith

  pub lstat-Kept : Kept w (lstat p w).1
  unfolding lstat under
  lstat-Kept = record { contents = λ i h. ground arith; next_le = ground arith }

  pub stat_mode-Same : Same w (stat_mode p w).1
  unfolding stat_mode under
  stat_mode-Same n = ground arith

  pub stat_mode-Kept : Kept w (stat_mode p w).1
  unfolding stat_mode under
  stat_mode-Kept = record { contents = λ i h. ground arith; next_le = ground arith }

  pub chmod-Same : (m : ℕ) → Same w (chmod p m w).1
  unfolding chmod under
  chmod-Same m n = ground arith

  pub chmod-Kept : (m : ℕ) → Kept w (chmod p m w).1
  unfolding chmod under
  chmod-Kept m = record { contents = λ i h. ground arith; next_le = ground arith }

  pub write_text-Same : (t : Text) → Same w (write_text p t w).1
  unfolding write_text under
  write_text-Same t n = ground arith

  -- A write changes the file under the name, and no other.
  pub write_text_others :
      (t : Text) (k : ℕ)
      → w.entry p ≡ some (file k)
      → ((i : ℕ) → i ≢ k → ((write_text p t w).1.inode i).content ≡ (w.inode i).content)
        × ((write_text p t w).1.next ≡ w.next)
        × ((write_text p t w).0 ≡ ok tt → ((write_text p t w).1.inode k).content ≡ t)
  unfolding write_text under
  write_text_others t k e = (λ i ne. ground arith, ground arith, λ h. ground arith)

  pub unlink-Except : Except p w (unlink p w).1
  unfolding unlink under
  unlink-Except n ne = ground arith

  pub unlink-Kept : Kept w (unlink p w).1
  unfolding unlink under
  unlink-Kept = record { contents = λ i h. ground arith; next_le = ground arith }

  pub unlink-none : (unlink p w).0 ≡ ok tt → (unlink p w).1.entry p ≡ none
  unfolding unlink under
  unlink-none h = ground (arith, text_eq_refl p)

  pub unlink_missing_ok-Except : Except p w (unlink_missing_ok p w).1
  unfolding unlink_missing_ok under
  unlink_missing_ok-Except n ne = ground arith

  pub unlink_missing_ok-Kept : Kept w (unlink_missing_ok p w).1
  unfolding unlink_missing_ok under
  unlink_missing_ok-Kept = record { contents = λ i h. ground arith; next_le = ground arith }

  -- It removes the name, or fails and leaves every name alone.
  pub unlink_missing_ok-none :
      (unlink_missing_ok p w).0 ≡ ok tt → (unlink_missing_ok p w).1.entry p ≡ none
  unfolding unlink_missing_ok under
  unlink_missing_ok-none h = ground (arith, text_eq_refl p)

  pub unlink_missing_ok_failed :
      (e : Exn) → (unlink_missing_ok p w).0 ≡ raised e → Same w (unlink_missing_ok p w).1
  unfolding unlink_missing_ok under
  unlink_missing_ok_failed e h n = ground arith

  pub create-Kept : (m : ℕ) → Kept w (create p m w).1
  unfolding create under
  create-Kept m = record { contents = λ i h. ground arith; next_le = ground arith }

  -- A name that is taken stays, and a new one gets a new file.
  pub create_made :
      (m : ℕ)
      → (create p m w).0 ≡ ok true
      → (w.entry p ≡ none)
        × ((create p m w).1.entry p ≡ some (file w.next))
        × Except p w (create p m w).1
        × (w.next < (create p m w).1.next)
  unfolding create under
  create_made m h =
      (ground arith, ground (arith, text_eq_refl p), (λ n ne. ground arith), ground arith)

  pub create_not_made : (m : ℕ) → (create p m w).0 ≢ ok true → Same w (create p m w).1
  unfolding create under
  create_not_made m h n = ground arith

pub other_call-Same : (w : World) → Same w (other_call w).1
unfolding other_call under
other_call-Same w n = ground arith

pub other_call-Kept : (w : World) → Kept w (other_call w).1
unfolding other_call under
other_call-Kept w = record { contents = λ i h. ground arith; next_le = ground arith }

same_file_sound : (e : Entry) (x : Option Entry) → same_file e x ≡ true → x ≡ some e
same_file_sound (file i) (some (file j)) h = ground arith
same_file_sound (file i) (some (symlink t)) h = cc
same_file_sound (file i) none h = cc
same_file_sound (symlink t) x h = cc

module _ (p q : Text) (w : World) where
  pub link-Kept : Kept w (link p q w).1
  unfolding link under
  link-Kept = record { contents = λ i h. ground arith; next_le = ground arith }

  pub link-Except : Except q w (link p q w).1
  unfolding link under
  link-Except n ne = ground arith

  pub link_made : (link p q w).0 ≡ ok tt → (link p q w).1.entry q ≡ w.entry p
  unfolding link under
  link_made h = ground (arith, text_eq_refl q)

  pub replace-Kept : Kept w (replace p q w).1
  unfolding replace under
  replace-Kept = record { contents = λ i h. ground arith; next_le = ground arith }

  pub replace-others :
      (n : Text) → text_eq p n ≡ false → text_eq q n ≡ false → (replace p q w).1.entry n ≡ w.entry n
  unfolding replace under
  replace-others n a b = ground arith

  pub replace_made :
      text_eq p q ≡ false → (replace p q w).0 ≡ ok tt → (replace p q w).1.entry q ≡ w.entry p
  unfolding replace under
  replace_made ne h = elim (Option-cases (w.entry p)) [
    | inl gone ↦ ground arith
    | inr (e, here) ↦ ground (arith, same_file_sound e (w.entry q), text_eq_refl q)
  ]

  pub replace_failed : (e : Exn) → (replace p q w).0 ≡ raised e → Same w (replace p q w).1
  unfolding replace under
  replace_failed e h n = ground arith
