-- ===== src/Release/Entries.antt =====
-- The names of a release and the entries of its manifest.
use dfine_cpp.Common.{
  text_eq_swap, ℕ, ◌≡◌, refl, sym, Bool, true, false, Option, none, some, List, [], ◌∷◌, ◌++◌, Text,
  text_eq, codes, arith, all, All, ◌&&◌, ◌==◌, if◌then◌else◌,
}
use mathlib.Core.Path.{subst}
use dfine_cpp.Common.Decimal.{is_digit}
use dfine_cpp.Common.Split.{contains}
use dfine_cpp.Json.{is_among}
use dfine_cpp.Chain.Require.{is_sha256}
use dfine_cpp.Release.Names.{
  is_version, is_tail, is_tail_code, after_digits, after_dot, wheel_name, model_asset_names,
  expected_payload_names,
}
use dfine_cpp.Release.Manifest.{is_asset_name, is_break}
use dfine_cpp.Release.Printed.{IsEntry, AreNew, is_line, line_append}
use dfine_cpp.Release.Download.{sums_name, payload_names, entry_names}
use dfine_cpp.Release.Wheel.{has_repeats}
use dfine_cpp.Release.Assemble.{Readers, entries_of, content}

abbrev is_tail_text : Text → Bool
is_tail_text s = all is_tail_code s

after_digits-tail :
    (some_read : Bool) (s t : Text)
    → after_digits some_read s ≡ some t
    → is_tail_text t ≡ true
    → is_tail_text s ≡ true
unfolding after_digits
after_digits-tail true [] t e h = refl
after_digits-tail false [] t e h = cc
after_digits-tail some_read (c ∷ s) t e h =
    by_tests (is_digit c) some_read refl (after_digits-tail true s t) e
  where
    by_tests :
        (d b : Bool)
        → is_digit c ≡ d
        → (after_digits true s ≡ some t → is_tail_text t ≡ true → is_tail_text s ≡ true)
        → (if d then after_digits true s else if b then some (c ∷ s) else none) ≡ some t
        → is_tail_text (c ∷ s) ≡ true
    by_tests true b q ih k = rw (q, ih k h) refl
    by_tests false true q ih k =
        let same : c ∷ s ≡ t = cc in subst (λ x. is_tail_text x ≡ true) (sym same) h
    by_tests false false q ih k = cc

after_dot-tail :
    (o : Option Text) (s t : Text)
    → o ≡ some s
    → after_dot o ≡ some t
    → is_tail_text t ≡ true
    → is_tail_text s ≡ true
after_dot-tail none s t q e h = cc
after_dot-tail (some []) s t q e h = cc
after_dot-tail (some (c ∷ u)) s t q e h = by_test (c == b'.') refl e
  where
    by_test :
        (b : Bool)
        → (c == b'.') ≡ b
        → (if b then after_digits false u else none) ≡ some t
        → is_tail_text s ≡ true
    by_test true p k =
        let rest = after_digits-tail false u t k h in
        let is_dot : c ≡ b'.' = ground arith in
        let same : c ∷ u ≡ s = cc in
        subst (λ x. is_tail_text x ≡ true) same (rw (is_dot, rest) refl)
    by_test false p k = cc

is_version-tail : (s : Text) → is_version s ≡ true → is_tail_text s ≡ true
unfolding is_version
is_version-tail s h = by_parts (after_digits false s) refl (after_dot (after_digits false s)) refl h
  where
    by_parts :
        (o : Option Text)
        → after_digits false s ≡ o
        → (p : Option Text) → after_dot (after_digits false s) ≡ p
        → is_tail (after_dot p) ≡ true
        → is_tail_text s ≡ true
    by_parts none e p f k =
        let q : after_dot none ≡ p = subst (λ x. after_dot x ≡ p) e f in
        let refused : is_tail (after_dot none) ≡ true =
          subst (λ x. is_tail (after_dot x) ≡ true) (sym q) k in
        absurd (cc)
    by_parts (some a) e none f k = absurd (cc)
    by_parts (some a) e (some b) f k = by_last (after_dot (some b)) refl k
      where
        by_last :
            (q : Option Text) → after_dot (some b) ≡ q → is_tail q ≡ true → is_tail_text s ≡ true
        by_last none g t = absurd (cc)
        by_last (some c) g t =
            let second = after_dot-tail (some b) b c refl g t in
            let first = after_dot-tail (after_digits false s) a b e f second in
            after_digits-tail false s a e first

tail_line : (s : Text) → is_tail_text s ≡ true → is_line s ≡ true
tail_line [] h = refl
tail_line (c ∷ s) h =
    let e : is_break c ≡ false = ground arith in rw (e, tail_line s (ground arith)) refl

tail_no_slash : (s : Text) → is_tail_text s ≡ true → contains b'/' s ≡ false
tail_no_slash [] h = refl
tail_no_slash (c ∷ s) h =
    let e : (b'/' == c) ≡ false = ground arith in rw (e, tail_no_slash s (ground arith)) refl

contains_append :
    (c : ℕ) (s t : Text) → contains c s ≡ false → contains c t ≡ false → contains c (s ++ t) ≡ false
contains_append c [] t hs ht = ht
contains_append c (d ∷ s) t hs ht = ground (arith, contains_append c s t)

abbrev pub IsName : Text → Type 0
IsName n = (is_asset_name n ≡ true) × (is_line n ≡ true)

wheel_name-IsName : (version : Text) → is_version version ≡ true → IsName (wheel_name version)
wheel_name-IsName version h =
    let tail = is_version-tail version h in
    let rest = codes "-py3-none-linux_x86_64.whl" in
    let plain : contains b'/' (version ++ rest) ≡ false =
      contains_append b'/' version rest (tail_no_slash version tail) refl in
    (rw plain refl, line_append version rest (tail_line version tail) refl)

All-append : (P : Text → Type 0) (xs ys : List Text) → All P xs → All P ys → All P (xs ++ ys)
All-append P [] ys h k = k
All-append P (x ∷ xs) ys (h, hs) k = (h, All-append P xs ys hs k)

All-IsName : (ns : List Text) → all (λ n. is_asset_name n && is_line n) ns ≡ true → All IsName ns
All-IsName [] h = tt
All-IsName (n ∷ ns) h = ((ground arith, ground arith), All-IsName ns (ground arith))

pub names-IsName :
    (version : Text) → is_version version ≡ true → All IsName (expected_payload_names version)
names-IsName version h =
    All-append IsName model_asset_names (wheel_name version ∷ [])
      (All-IsName model_asset_names refl) (wheel_name-IsName version h, tt)

pub no_repeats : (version : Text) → has_repeats (expected_payload_names version) ≡ false
unfolding has_repeats text_eq
no_repeats version = refl

pub payload_names-release :
    (version : Text)
    → payload_names (expected_payload_names version ++ (sums_name ∷ []))
      ≡ expected_payload_names version
unfolding payload_names text_eq
payload_names-release version = refl

module _ (r : Readers) (digests : (bytes : Text) → is_sha256 (r.sha256 bytes) ≡ true) where
  pub entries_of-IsEntry :
      (ns : List Text) (staged : List (Text × Text))
      → All IsName ns
      → All IsEntry (entries_of r ns staged)
  unfolding entries_of
  entries_of-IsEntry [] staged h = tt
  entries_of-IsEntry (n ∷ ns) staged ((h, k), hs) =
      ((digests (content n staged), h, k), entries_of-IsEntry ns staged hs)

  pub entry_names-entries_of :
      (ns : List Text) (staged : List (Text × Text)) → entry_names (entries_of r ns staged) ≡ ns
  unfolding entries_of
  entry_names-entries_of [] staged = refl
  entry_names-entries_of (n ∷ ns) staged = rw (entry_names-entries_of ns staged) refl

  pub apart-AreNew :
      (seen ns : List Text) (staged : List (Text × Text))
      → All (λ n. is_among n seen ≡ false) ns
      → has_repeats ns ≡ false
      → AreNew seen (entries_of r ns staged)
  unfolding entries_of has_repeats
  apart-AreNew seen [] staged a h = tt
  apart-AreNew seen (n ∷ ns) staged (a, others) h =
      (a, apart-AreNew (n ∷ seen) ns staged (add seen ns others (ground arith)) (ground arith))
    where
      add :
          (seen ms : List Text)
          → All (λ m. is_among m seen ≡ false) ms
          → is_among n ms ≡ false
          → All (λ m. is_among m (n ∷ seen) ≡ false) ms
      add seen [] b k = tt
      add seen (m ∷ ms) (b, bs) k =
          let apart : text_eq m n ≡ false = text_eq_swap n m (ground arith) in
          (rw (apart, b) refl, add seen ms bs (ground arith))
