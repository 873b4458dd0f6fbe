-- ===== src/Publish/Held.antt =====
-- `take_backups`: what the backups of the outputs hold.
use dfine_cpp.Common.{
  ◌≡◌, refl, sym, ap, ◌∙◌, ◌≢◌, inl, inr, true, false, Option, none, some, List, [], ◌∷◌, Text,
  text_eq, text_eq_iff, Bool-cases, Option-cases, All,
}
use dfine_cpp.Publish.{Backups, noted, take_backups}
use dfine_cpp.Publish.System.{World, Entry, Outcome, ok, raised}
use dfine_cpp.Publish.Staging.{link_backup}
use dfine_cpp.Publish.Effects.{is_hidden}
use dfine_cpp.Publish.Growth.{Grows, Grows-refl, Grows-trans}
use dfine_cpp.Publish.Backups.{BackedUp, link_backup-BackedUp}

-- The directory before the publication, by name.
abbrev pub Entries : Type 0
Entries = Text → Option Entry

abbrev pub IsVisible : Text → Type 0
IsVisible n = is_hidden n ≡ false

-- Backup names are hidden, and were free in the world given.
abbrev pub WereFree : World → Backups → Type 0
WereFree w [] = Unit
WereFree w ((_, none) ∷ bs) = WereFree w bs
WereFree w ((_, some b) ∷ bs) = (is_hidden b ≡ true) × (w.entry b ≡ none) × WereFree w bs

abbrev pub IsUnused : Text → Backups → Type 0
IsUnused b [] = Unit
IsUnused b ((_, none) ∷ bs) = IsUnused b bs
IsUnused b ((_, some c) ∷ bs) = (text_eq b c ≡ false) × IsUnused b bs

-- Each backup holds what its output was.
abbrev pub Holds : Entries → World → Backups → Type 0
Holds o v [] = Unit
Holds o v ((p, none) ∷ bs) = (o p ≡ none) × Holds o v bs
Holds o v ((p, some b) ∷ bs) =
    (is_hidden b ≡ true) × (v.entry b ≡ o p) × (o p ≢ none) × IsUnused b bs × Holds o v bs

abbrev pub keys : Backups → List Text
keys [] = []
keys ((p, _) ∷ bs) = p ∷ keys bs

-- A name that was free later was free before.
free_before :
    (u v : World) (b : Text) → is_hidden b ≡ true → Grows u v → v.entry b ≡ none → u.entry b ≡ none
free_before u v b hid g free = elim (Option-cases (u.entry b)) [
  | inl e ↦ e
  | inr (x, e) ↦ cc (g.names b (inr (λ gone. cc)))
]

WereFree-before : (u v : World) (bs : Backups) → Grows u v → WereFree v bs → WereFree u bs
WereFree-before u v [] g f = tt
WereFree-before u v ((_, none) ∷ bs) g f = WereFree-before u v bs g f
WereFree-before u v ((_, some b) ∷ bs) g (hid, free, f) =
    (hid, free_before u v b hid g free, WereFree-before u v bs g f)

pub taken-ne-free :
    (b c : Text) (v : World) → v.entry b ≢ none → v.entry c ≡ none → text_eq b c ≡ false
taken-ne-free b c v taken free = elim (Bool-cases (text_eq b c)) [
  | inl same ↦ absurd (taken (rw ((text_eq_iff b c).0 same) free))
  | inr differ ↦ differ
]

pub IsUnused-of_taken :
    (b : Text) (v : World) (bs : Backups) → v.entry b ≢ none → WereFree v bs → IsUnused b bs
IsUnused-of_taken b v [] taken f = tt
IsUnused-of_taken b v ((_, none) ∷ bs) taken f = IsUnused-of_taken b v bs taken f
IsUnused-of_taken b v ((_, some c) ∷ bs) taken (_, free, f) =
    (taken-ne-free b c v taken free, IsUnused-of_taken b v bs taken f)

Holds-first :
    (o : Entries) (p b : Text) (w u v : World) (bs : Backups)
    → (is_hidden b ≡ true)
      × (w.entry b ≡ none)
      × (w.entry p ≢ none)
      × (u.entry b ≡ w.entry p)
      × Grows w u
    → w.entry p ≡ o p
    → Grows u v
    → WereFree u bs
    → Holds o v bs
    → Holds o v ((p, some b) ∷ bs)
Holds-first o p b w u v bs (hid, free, taken, held, g) agree rest fresh h = (
  hid,
  rest.names b (inr still) ∙ (held ∙ agree),
  (λ gone. taken (agree ∙ gone)),
  IsUnused-of_taken b u bs still fresh,
  h,
)
  where
    still : u.entry b ≢ none
    still gone = taken (sym held ∙ gone)

abbrev pub Taken : Entries → List Text → World → Outcome (Unit {0}) × Backups × World → Type 0
Taken o ps w (s, bs, v) = Grows w v × WereFree w bs × (s ≡ ok tt → Holds o v bs × (keys bs ≡ ps))

noted-Taken :
    (o : Entries) (p : Text) (ps : List Text) (w : World) (x : Outcome (Option Text) × World)
    (rest : Outcome (Unit {0}) × Backups × World)
    → w.entry p ≡ o p
    → BackedUp p w x
    → Taken o ps x.1 rest
    → Taken o (p ∷ ps) w (noted p x rest)
noted-Taken o p ps w (ok none, u) (s, bs, v) agree (absent, g) (rest, fresh, held) = (
  Grows-trans g rest,
  WereFree-before w u bs g fresh,
  λ done. let (h, k) = held done in ((sym agree ∙ absent, h), ap (λ ks. p ∷ ks) k),
)
noted-Taken o p ps w (ok (some b), u) (s, bs, v) agree (hid, free, taken, same, g)
      (rest, fresh, held) =
    (
      Grows-trans g rest,
      (hid, free, WereFree-before w u bs g fresh),
      λ done.
          let (h, k) = held done in
          (
            Holds-first o p b w u v bs (hid, free, taken, same, g) agree rest fresh h,
            ap (λ ks. p ∷ ks) k,
          ),
    )
noted-Taken o p ps w (raised e, u) rest agree g t = (g, tt, λ h. cc)

pub take_backups-Taken :
    (o : Entries) (ps : List Text) (w : World)
    → All IsVisible ps
    → ((n : Text) → IsVisible n → w.entry n ≡ o n)
    → Taken o ps w (take_backups ps w)
unfolding take_backups
take_backups-Taken o [] w vis agree = (Grows-refl w, tt, λ _. (tt, refl))
take_backups-Taken o (p ∷ ps) w (pv, vis) agree =
    noted-Taken o p ps w x (take_backups ps x.1) (agree p pv) backed
      (take_backups-Taken o ps x.1 vis λ n nv. (grown x backed).names n (inl nv) ∙ agree n nv)
  where
    x : Outcome (Option Text) × World
    x = link_backup p w

    backed : BackedUp p w x
    backed = link_backup-BackedUp p w

    grown : (y : Outcome (Option Text) × World) → BackedUp p w y → Grows w y.1
    grown (ok none, u) (_, g) = g
    grown (ok (some b), u) (_, _, _, _, g) = g
    grown (raised e, u) g = g
