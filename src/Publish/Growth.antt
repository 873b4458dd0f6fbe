-- ===== src/Publish/Growth.antt =====
-- The staging helpers: the names and files that they leave alone.
use dfine_cpp.Common.{
  ℕ, zero, suc, ◌+◌, ◌≤◌, ◌<◌, ◌≡◌, refl, sym, ◌∙◌, ◌≢◌, ◌⊎◌, inl, inr, Bool, true, false, Option,
  none, some, Text, text_eq, text_eq_iff, arith, Bool-cases,
}
use Prim.Native.Nat.{bit_or}
use dfine_cpp.Publish.Rules.{IsComposable, Outcome-cases, finally-rel, on_error-rel}
use dfine_cpp.Publish.System.{
  World, file, Outcome, ok, raised, create, chmod, unlink_missing_ok, other_call, draw_token,
  stat_mode, ◌>>=◌, ◌>>◌, pure,
}
use dfine_cpp.Publish.Staging.{
  temp_name, creation_mode, adjust, settle, allocate, attempts, adjacent_temp,
}
use dfine_cpp.Publish.Effects.{
  is_hidden, Kept, Kept-refl, Kept-trans, Same, Except, chmod-Same, chmod-Kept, create-Kept,
  create_made, create_not_made, unlink_missing_ok-Except, unlink_missing_ok-Kept, other_call-Same,
  other_call-Kept, stat_mode-Same, stat_mode-Kept,
}

abbrev pub IsStable : World → Text → Type 0
IsStable w n = (is_hidden n ≡ false) ⊎ (w.entry n ≢ none)

pub record Grows (w v : World) : Type 0 where
  pub names : (n : Text) → IsStable w n → v.entry n ≡ w.entry n
  pub kept : Kept w v

pub Grows-refl : (w : World) → Grows w w
Grows-refl w = record { names = λ n s. refl; kept = Kept-refl w }

pub Grows-of_Same : {w v : World} → Same w v → Kept w v → Grows w v
Grows-of_Same s k = record { names = λ n _. s n; kept = k }

IsStable-of_eq : (w v : World) (n : Text) → v.entry n ≡ w.entry n → IsStable w n → IsStable v n
IsStable-of_eq w v n e (inl h) = inl h
IsStable-of_eq w v n e (inr h) = inr (λ gone. h (cc))

pub Grows-trans : {u v w : World} → Grows u v → Grows v w → Grows u w
Grows-trans {u} {v} {w} p q = record {
  names = λ n s. q.names n (IsStable-of_eq u v n (p.names n s) s) ∙ p.names n s;
  kept = Kept-trans p.kept q.kept;
}

new_not_stable :
    (p n : Text) (w : World)
    → is_hidden p ≡ true
    → w.entry p ≡ none
    → text_eq p n ≡ true
    → IsStable w n
    → ⊥
new_not_stable p n w hid new same (inl h) = cc ((text_eq_iff p n).0 same)
new_not_stable p n w hid new same (inr h) = h (cc ((text_eq_iff p n).0 same))

-- A change at a new hidden name alone.
pub Grows-of_Except :
    (p : Text) {w v : World}
    → is_hidden p ≡ true
    → w.entry p ≡ none
    → Except p w v
    → Kept w v
    → Grows w v
Grows-of_Except p {w} {v} hid new ex k = record {
  names = λ n s. elim (Bool-cases (text_eq p n)) [
    | inr ne ↦ ex n ne
    | inl same ↦ absurd (new_not_stable p n w hid new same s)
  ];
  kept = k;
}

pub Kept-IsComposable : IsComposable Kept
Kept-IsComposable = record { same = Kept-refl; next = λ _ _ _. Kept-trans }

pub Same-IsComposable : IsComposable Same
Same-IsComposable = record { same = λ w n. refl; next = λ _ _ _ p q n. q n ∙ p n }

pub Except-IsComposable : (p : Text) → IsComposable (Except p)
Except-IsComposable p = record { same = λ w n _. refl; next = λ _ _ _ f g n ne. g n ne ∙ f n ne }

pub Grows-IsComposable : IsComposable Grows
Grows-IsComposable = record { same = Grows-refl; next = λ _ _ _. Grows-trans }

module _ (path : Text) where
  settle-Except : (existing : Option ℕ) (w : World) → Except path w (settle path existing w).1
  unfolding settle adjust
  settle-Except none w = λ n _. other_call-Same w n
  settle-Except (some m) w =
      finally-rel c (adjust path m) w other_call
        (on_error-rel c (chmod path (bit_or m 0o600)) w (unlink_missing_ok path)
          (λ n _. chmod-Same path w _ n) (unlink_missing_ok-Except path))
        (λ v n _. other_call-Same v n)
    where
      c : IsComposable (Except path)
      c = Except-IsComposable path

  settle-Kept : (existing : Option ℕ) (w : World) → Kept w (settle path existing w).1
  unfolding settle adjust
  settle-Kept none w = other_call-Kept w
  settle-Kept (some m) w =
      finally-rel Kept-IsComposable (adjust path m) w other_call
        (on_error-rel Kept-IsComposable (chmod path (bit_or m 0o600)) w (unlink_missing_ok path)
          (chmod-Kept path w (bit_or m 0o600)) (unlink_missing_ok-Kept path))
        other_call-Kept

  -- A staging file that is handed out is still there.
  settle_done :
      (existing : Option ℕ) (w : World) (n : Text)
      → (settle path existing w).0 ≡ ok tt
      → (settle path existing w).1.entry n ≡ w.entry n
  unfolding settle adjust
  settle_done none w n h = other_call-Same w n
  settle_done (some m) w n h = ground (
    arith,
    chmod-Same path w (bit_or m 0o600) n,
    other_call-Same (chmod path (bit_or m 0o600) w).1 n,
  )

-- What a request for a staging file does: it hands out a name that was free, or fails.
abbrev pub Allocated : World → Outcome Text × World → Type 0
Allocated w (ok p, v) =
    (is_hidden p ≡ true)
    × (w.entry p ≡ none)
    × Except p w v
    × Kept w v
    × ((k : ℕ) × (v.entry p ≡ some (file k)) × (w.next ≤ k) × (k < v.next))
Allocated w (raised _, v) = Grows w v

Allocated-after :
    (u v : World) (x : Outcome Text × World) → Same u v → Kept u v → Allocated v x → Allocated u x
Allocated-after u v (ok p, w) s k (hid, new, ex, kept, (i, at, lo, hi)) = (
  hid,
  sym (s p) ∙ new,
  λ n ne. ex n ne ∙ s n,
  Kept-trans k kept,
  (i, at, omega (arith, k.next_le), hi),
)
Allocated-after u v (raised e, w) s k g = Grows-trans (Grows-of_Same s k) g

-- After `open` has made the file.
settled :
    (w : World) (path : Text) (existing : Option ℕ) (v : World)
    → is_hidden path ≡ true
    → w.entry path ≡ none
    → v.entry path ≡ some (file w.next)
    → Except path w v
    → Kept w v
    → w.next < v.next
    → Allocated w ((settle path existing >> pure path) v)
settled w path existing v hid new at ex k lt = elim (Outcome-cases (settle path existing v).0) [
  | inl (u, done) ↦
      rw (done, ◌>>=◌)
        (
          hid,
          new,
          (λ n ne. settle-Except path existing v n ne ∙ ex n ne),
          Kept-trans k (settle-Kept path existing v),
          (
            w.next,
            settle_done path existing v path done ∙ at,
            omega arith,
            omega (arith, (settle-Kept path existing v).next_le),
          ),
        )
  | inr (e, fail) ↦
      rw (fail, ◌>>=◌)
        (Grows-of_Except path hid new (λ n ne. settle-Except path existing v n ne ∙ ex n ne)
          (Kept-trans k (settle-Kept path existing v)))
]

allocate-Allocated :
    (n : ℕ) (target suffix : Text) (existing : Option ℕ) (w : World)
    → Allocated w (allocate n target suffix existing w)
unfolding allocate draw_token
allocate-Allocated zero target suffix existing w = Grows-refl w
allocate-Allocated (suc n) target suffix existing w = elim (Outcome-cases c.0) [
  | inl (true, e) ↦
      let (new, at, ex, lt) = create_made path u mode e in
      rw (e, ◌>>=◌) (settled w path existing c.1 refl new at ex kept lt)
  | inl (false, e) ↦
      rw (e, ◌>>=◌)
        (Allocated-after w c.1 (allocate n target suffix existing c.1)
          (create_not_made path u mode (λ h. cc)) kept
          (allocate-Allocated n target suffix existing c.1))
  | inr (x, e) ↦ rw (e, ◌>>=◌) (Grows-of_Same (create_not_made path u mode (λ h. cc)) kept)
]
  where
    path : Text
    path = temp_name target (w.token w.drawn) suffix

    mode : ℕ
    mode = creation_mode existing

    u : World
    u = record w { drawn = w.drawn + 1 }

    c : Outcome Bool × World
    c = create path mode u

    kept : Kept w c.1
    kept = let k = create-Kept path u mode in record { contents = k.contents; next_le = k.next_le }

pub adjacent_temp-Allocated :
    (target suffix : Text) (w : World) → Allocated w (adjacent_temp target suffix w)
unfolding adjacent_temp
adjacent_temp-Allocated target suffix w = elim (Outcome-cases c.0) [
  | inl (existing, e) ↦
      rw (e, ◌>>=◌)
        (Allocated-after w c.1 (allocate attempts target suffix existing c.1) same kept
          (allocate-Allocated attempts target suffix existing c.1))
  | inr (x, e) ↦ rw (e, ◌>>=◌) (Grows-of_Same same kept)
]
  where
    c : Outcome (Option ℕ) × World
    c = stat_mode target w

    same : Same w c.1
    same = stat_mode-Same target w

    kept : Kept w c.1
    kept = stat_mode-Kept target w
