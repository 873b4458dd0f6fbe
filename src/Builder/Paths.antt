-- ===== src/Builder/Paths.antt =====
-- The parts of `pathlib` that name the artifacts of a build: `suffix`, `with_suffix`, and a suffix
-- that is added to a whole name.
use dfine_cpp.Common.{
  ℕ, ◌+◌, ◌≡◌, refl, ap, ◌≢◌, inl, inr, Bool-cases, Bool, true, false, ◌&&◌, Option, none, some,
  arith, if◌then◌else◌, [], ◌∷◌, ◌++◌, map, ◌==◌, leb, Text, text_eq_iff, text_eq_refl,
}
use dfine_cpp.Common.Result.{Result, returned, value_error, ◌>>◌, refuse_if}
use dfine_cpp.Publish.{FilePath, same_path}

-- The text before the last dot and the text after it.
abbrev extend : ℕ → Text → Option (Text × Text) → Option (Text × Text)
extend c s (some (before, after)) = some (c ∷ before, after)
extend c s none = if c == b'.' then some ([], s) else none

unfoldable pub last_dot : Text → Option (Text × Text)
last_dot [] = none
last_dot (c ∷ s) = extend c s (last_dot s)

abbrev stem_and_suffix : Text → Option (Text × Text) → Text × Text
stem_and_suffix name none = (name, [])
stem_and_suffix name (some ([], after)) = (name, [])
stem_and_suffix name (some (c ∷ before, [])) = (name, [])
stem_and_suffix name (some (c ∷ before, d ∷ after)) = (c ∷ before, b'.' ∷ d ∷ after)

-- `path.stem` and `path.suffix`: a name has a suffix if its last dot is not its first or last
-- character.
unfoldable pub split_suffix : Text → Text × Text
split_suffix name = stem_and_suffix name (last_dot name)

abbrev pub suffix : FilePath → Text
suffix p = (split_suffix p.name).1

abbrev pub renamed : FilePath → Text → FilePath
renamed p name = record { parent = p.parent; name = name }

abbrev is_empty : Text → Bool
is_empty [] = true
is_empty (_ ∷ _) = false

-- `path.with_suffix(new)`
unfoldable pub with_suffix : FilePath → Text → Result FilePath
with_suffix p new = do
  refuse_if (is_empty p.name) value_error
  returned (renamed p ((split_suffix p.name).0 ++ new))

-- `Path(str(path) + new)`
abbrev pub add_suffix : FilePath → Text → FilePath
add_suffix p new = renamed p (p.name ++ new)

-- `text.lower()`, as far as it matters to a text of ASCII letters.
abbrev lower_code : ℕ → ℕ
lower_code c = if leb b'A' c && leb c b'Z' then c + 32 else c

abbrev pub lower : Text → Text
lower s = map lower_code s

pub same_path→eq : (p q : FilePath) → same_path p q ≡ true → p ≡ q
same_path→eq p q h =
    cc (
      (text_eq_iff p.parent q.parent).0 (ground arith),
      (text_eq_iff p.name q.name).0 (ground arith),
    )

pub same_path_refl : (p : FilePath) → same_path p p ≡ true
same_path_refl p = rw (text_eq_refl p.parent, text_eq_refl p.name) refl

pub apart : (p q : FilePath) → same_path p q ≡ false → p ≢ q
apart p q h e = cc (same_path_refl p)

pub not_same : (p q : FilePath) → p ≢ q → same_path p q ≡ false
not_same p q ne = elim (Bool-cases (same_path p q)) [
  | inl h ↦ absurd (ne (same_path→eq p q h))
  | inr h ↦ h
]

last_dot-append :
    (s : Text) (before after : Text)
    → last_dot s ≡ some (before, after)
    → (before ++ (b'.' ∷ after)) ≡ s
unfolding last_dot
last_dot-append [] before after h = cc
last_dot-append (c ∷ s) before after h = by_rest (last_dot s) (last_dot-append s) h
  where
    by_rest :
        (r : Option (Text × Text))
        → ((b a : Text) → r ≡ some (b, a) → (b ++ (b'.' ∷ a)) ≡ s)
        → extend c s r ≡ some (before, after)
        → (before ++ (b'.' ∷ after)) ≡ (c ∷ s)
    by_rest (some (b, a)) ih e = cc (ih b a refl)
    by_rest none ih e = ground arith

-- The stem and the suffix are the parts of the name.
pub split_suffix-append : (name : Text) → ((split_suffix name).0 ++ (split_suffix name).1) ≡ name
unfolding split_suffix
split_suffix-append name = by_dot (last_dot name) (last_dot-append name)
  where
    append_nil : (s : Text) → (s ++ []) ≡ s
    append_nil [] = refl
    append_nil (c ∷ s) = ap (λ t. c ∷ t) (append_nil s)

    by_dot :
        (r : Option (Text × Text))
        → ((b a : Text) → r ≡ some (b, a) → (b ++ (b'.' ∷ a)) ≡ name)
        → ((stem_and_suffix name r).0 ++ (stem_and_suffix name r).1) ≡ name
    by_dot none ih = append_nil name
    by_dot (some ([], a)) ih = append_nil name
    by_dot (some (c ∷ b, [])) ih = append_nil name
    by_dot (some (c ∷ b, d ∷ a)) ih = ih (c ∷ b) (d ∷ a) refl

last_dot_of :
    (s after : Text) → last_dot after ≡ none → last_dot (s ++ (b'.' ∷ after)) ≡ some (s, after)
unfolding last_dot
last_dot_of [] after h = rw h refl
last_dot_of (c ∷ s) after h = rw (last_dot_of s after h) refl

stem_not_empty :
    (c : ℕ) (name : Text) → (d : ℕ) × (s : Text) × ((split_suffix (c ∷ name)).0 ≡ d ∷ s)
unfolding split_suffix
stem_not_empty c name = by_dot (last_dot (c ∷ name))
  where
    by_dot :
        (r : Option (Text × Text))
        → (d : ℕ) × (s : Text) × ((stem_and_suffix (c ∷ name) r).0 ≡ d ∷ s)
    by_dot none = (c, name, refl)
    by_dot (some ([], a)) = (c, name, refl)
    by_dot (some (e ∷ b, [])) = (c, name, refl)
    by_dot (some (e ∷ b, d ∷ a)) = (e, b, refl)

split_suffix_of :
    (d : ℕ) (s : Text) (e : ℕ) (after : Text)
    → last_dot (e ∷ after) ≡ none
    → split_suffix ((d ∷ s) ++ (b'.' ∷ e ∷ after)) ≡ (d ∷ s, b'.' ∷ e ∷ after)
unfolding split_suffix
split_suffix_of d s e after h = rw (last_dot_of (d ∷ s) (e ∷ after) h) refl

-- A path that is given a new suffix keeps its directory and its stem, and has that suffix: a text
-- that starts with a dot, has no other and has more than it.
pub with_suffix_lem :
    (p q : FilePath) (e : ℕ) (after : Text)
    → last_dot (e ∷ after) ≡ none
    → with_suffix p (b'.' ∷ e ∷ after) ≡ returned q
    → (q.parent ≡ p.parent) × (split_suffix q.name ≡ ((split_suffix p.name).0, b'.' ∷ e ∷ after))
unfolding with_suffix
with_suffix_lem p q e after none_more h = by_name p.name h
  where
    by_name :
        (name : Text)
        → (refuse_if (is_empty name) value_error
            >> returned (renamed p ((split_suffix name).0 ++ (b'.' ∷ e ∷ after))))
          ≡ returned q
        → (q.parent ≡ p.parent) × (split_suffix q.name ≡ ((split_suffix name).0, b'.' ∷ e ∷ after))
    by_name [] k = absurd (cc)
    by_name (c ∷ name) k =
        let (d, s, stem) = stem_not_empty c name in (cc, cc (split_suffix_of d s e after none_more))
