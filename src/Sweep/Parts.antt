-- ===== src/Sweep/Parts.antt =====
-- The parts of the keys of `Point`, each with the characters that it cannot have.
use dfine_cpp.Common.{
  ℕ, ◌≡◌, refl, sym, ap, ◌∙◌, Bool, true, false, Option, none, some, [], ◌∷◌, ◌++◌, Text, text_eq,
  text_eq_iff, codes, all, ◌||◌, ◌==◌, arith,
}
use dfine_cpp.Common.Decimal.{decimal, digits_are_digits, decimal-injective, isdigit, is_digit}
use dfine_cpp.Common.Split.{partition, replace_code, contains}
use dfine_cpp.Sweep.Point.{
  Precision, slim, fp32, Mode, enqueue, graph_mode, Point, queries_or_default, cascade_part,
  eval_idx_part, precision_part, mode_part,
}
use dfine_cpp.Sweep.Parse.{is_cascade}

-- A cascade is `K:KEEP`.
abbrev pub IsCascade : Option Text → Type 0
IsCascade none = Unit
IsCascade (some s) = is_cascade s ≡ true

-- What an export depends on: the queries, 300 by default, the cascade and the layer.
abbrev pub settings : Point → ℕ × Option Text × Option ℕ
settings p = (queries_or_default p.graph, p.graph.cascade, p.graph.eval_idx)

abbrev is_cascade_code : ℕ → Bool
is_cascade_code c = is_digit c || c == b':'

partition-append :
    (sep : ℕ) (s : Text)
    → (partition sep s).1 ≡ true
    → ((partition sep s).0 ++ (sep ∷ (partition sep s).2)) ≡ s
unfolding partition
partition-append sep [] h = cc
partition-append sep (c ∷ s) h = ground (arith, partition-append sep s)

codes_append :
    (s t : Text)
    → all is_digit s ≡ true
    → all is_digit t ≡ true
    → all is_cascade_code (s ++ (b':' ∷ t)) ≡ true
codes_append [] [] hs ht = refl
codes_append [] (c ∷ t) hs ht = ground (arith, codes_append [] t)
codes_append (c ∷ s) t hs ht = ground (arith, codes_append s t)

isdigit→all : (s : Text) → isdigit s ≡ true → all is_digit s ≡ true
isdigit→all [] h = refl
isdigit→all (c ∷ s) h = h

cascade_codes : (s : Text) → is_cascade s ≡ true → all is_cascade_code s ≡ true
cascade_codes s h =
    let e = partition-append b':' s (ground arith) in
    let a = isdigit→all (partition b':' s).0 (ground arith) in
    let b = isdigit→all (partition b':' s).2 (ground arith) in
    ap (all is_cascade_code) (sym e) ∙ codes_append (partition b':' s).0 (partition b':' s).2 a b

replaced_injective :
    (s t : Text)
    → all is_cascade_code s ≡ true
    → all is_cascade_code t ≡ true
    → replace_code b':' b'-' s ≡ replace_code b':' b'-' t
    → s ≡ t
replaced_injective [] [] hs ht e = refl
replaced_injective [] (d ∷ t) hs ht e = cc
replaced_injective (c ∷ s) [] hs ht e = cc
replaced_injective (c ∷ s) (d ∷ t) hs ht e =
    let first : c ≡ d = ground arith in
    let rest = replaced_injective s t (ground arith) (ground arith) (cc) in cc

no_underscore_replaced :
    (s : Text) → all is_cascade_code s ≡ true → contains b'_' (replace_code b':' b'-' s) ≡ false
no_underscore_replaced [] h = refl
no_underscore_replaced (c ∷ s) h = ground (arith, no_underscore_replaced s)

-- A text of digits does not contain a separator.
no_separator :
    (sep : ℕ) (s : Text) → is_digit sep ≡ false → all is_digit s ≡ true → contains sep s ≡ false
no_separator sep [] n h = refl
no_separator sep (c ∷ s) n h = ground (arith, no_separator sep s)

pub decimal_plain : (n : ℕ) → contains b'_' (decimal n) ≡ false
decimal_plain n = no_separator b'_' (decimal n) refl (digits_are_digits _ n)

pub decimal_no_dash : (n : ℕ) → contains b'-' (decimal n) ≡ false
decimal_no_dash n = no_separator b'-' (decimal n) refl (digits_are_digits _ n)

pub cascade_plain : (x : Option Text) → IsCascade x → contains b'_' (cascade_part x) ≡ false
cascade_plain none h = refl
cascade_plain (some s) h = no_underscore_replaced s (cascade_codes s h)

not_none : (s : Text) → all is_cascade_code s ≡ true → replace_code b':' b'-' s ≡ codes "none" → ⊥
not_none [] h e = cc
not_none (c ∷ s) h e = ground arith

pub cascade-injective :
    (x y : Option Text) → IsCascade x → IsCascade y → cascade_part x ≡ cascade_part y → x ≡ y
cascade-injective none none hx hy e = refl
cascade-injective none (some t) hx hy e = absurd (not_none t (cascade_codes t hy) (sym e))
cascade-injective (some s) none hx hy e = absurd (not_none s (cascade_codes s hx) e)
cascade-injective (some s) (some t) hx hy e =
    ap some (replaced_injective s t (cascade_codes s hx) (cascade_codes t hy) e)

pub eval_idx_plain : (x : Option ℕ) → contains b'_' (eval_idx_part x) ≡ false
eval_idx_plain none = refl
eval_idx_plain (some n) = decimal_plain n

digits_not_last : (s : Text) → all is_digit s ≡ true → s ≡ codes "last" → ⊥
digits_not_last [] h e = cc
digits_not_last (c ∷ s) h e = ground arith

pub eval_idx-injective : (x y : Option ℕ) → eval_idx_part x ≡ eval_idx_part y → x ≡ y
eval_idx-injective none none e = refl
eval_idx-injective none (some n) e =
    absurd (digits_not_last (decimal n) (digits_are_digits _ n) (sym e))
eval_idx-injective (some m) none e = absurd (digits_not_last (decimal m) (digits_are_digits _ m) e)
eval_idx-injective (some m) (some n) e = ap some (decimal-injective m n e)

texts_differ : (s t : Text) → text_eq s t ≡ false → s ≡ t → ⊥
texts_differ s t h e = true_ne_false (sym ((text_eq_iff s t).1 e) ∙ h)
  where
    true_ne_false : true ≡ false → ⊥
    true_ne_false k = cc

pub precision-injective : (x y : Precision) → precision_part x ≡ precision_part y → x ≡ y
unfolding text_eq
precision-injective slim slim e = refl
precision-injective slim fp32 e = absurd (texts_differ _ _ refl e)
precision-injective fp32 slim e = absurd (texts_differ _ _ refl e)
precision-injective fp32 fp32 e = refl

pub mode-injective : (x y : Mode) → mode_part x ≡ mode_part y → x ≡ y
unfolding text_eq
mode-injective enqueue enqueue e = refl
mode-injective enqueue graph_mode e = absurd (texts_differ _ _ refl e)
mode-injective graph_mode enqueue e = absurd (texts_differ _ _ refl e)
mode-injective graph_mode graph_mode e = refl

pub tail_of : {c d : ℕ} {s t : Text} → (c ∷ s) ≡ (d ∷ t) → s ≡ t
tail_of e = cc

pub append_assoc : (s t u : Text) → ((s ++ t) ++ u) ≡ (s ++ (t ++ u))
append_assoc [] t u = refl
append_assoc (c ∷ s) t u = ap (λ r. c ∷ r) (append_assoc s t u)
