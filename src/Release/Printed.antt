-- ===== src/Release/Printed.antt =====
-- SHA256SUMS is read back as it was written.
use dfine_cpp.Common.{
  ◌≡◌, refl, Bool, true, false, not, some, List, [], ◌∷◌, ◌++◌, Text, arith, all, length, All,
}
use mathlib.Core.Path.{subst}
use dfine_cpp.Common.Result.{returned}
use dfine_cpp.Json.{is_among}
use dfine_cpp.Chain.Require.{is_sha256, is_lower_hex}
use dfine_cpp.Release.Manifest.{
  Entry, print_entry, print_manifest, is_break, split_lines, split_at, is_asset_name, read_entry,
  read_entries, manifest_entries,
}

-- Text on one line.
abbrev pub is_line : Text → Bool
is_line s = all (λ c. not (is_break c)) s

-- An entry with a digest in hexadecimal, and a name of one line that is not empty and no path.
abbrev pub IsEntry : Entry → Type 0
IsEntry e = (is_sha256 e.digest ≡ true) × (is_asset_name e.name ≡ true) × (is_line e.name ≡ true)

-- No name stands twice, or is among those seen.
abbrev pub AreNew : List Text → List Entry → Type 0
AreNew seen [] = Unit
AreNew seen (e ∷ es) = (is_among e.name seen ≡ false) × AreNew (e.name ∷ seen) es

split_at-length : (s t : Text) → split_at (length s) (s ++ t) ≡ (s, t)
unfolding split_at
split_at-length [] t = refl
split_at-length (c ∷ s) t = rw (split_at-length s t) refl

pub line_append : (s t : Text) → is_line s ≡ true → is_line t ≡ true → is_line (s ++ t) ≡ true
line_append [] t hs ht = ht
line_append (c ∷ s) t hs ht = ground (arith, line_append s t)

hexadecimal_line : (s : Text) → all is_lower_hex s ≡ true → is_line s ≡ true
hexadecimal_line [] h = refl
hexadecimal_line (c ∷ s) h =
    let e : is_break c ≡ false = ground arith in rw (e, hexadecimal_line s (ground arith)) refl

split_lines_line : (s t : Text) → is_line s ≡ true → split_lines (s ++ (10 ∷ t)) ≡ s ∷ split_lines t
unfolding split_lines
split_lines_line [] t h = refl
split_lines_line (c ∷ s) t h =
    let e : is_break c ≡ false = ground arith in rw (e, split_lines_line s t (ground arith)) refl

digest_length : (s : Text) → is_sha256 s ≡ true → length s ≡ 64
unfolding is_sha256
digest_length s h = ground arith

digest_line : (s : Text) → is_sha256 s ≡ true → is_line s ≡ true
unfolding is_sha256
digest_line s h = hexadecimal_line s (ground arith)

read_entry-print_entry : (e : Entry) → IsEntry e → read_entry (print_entry e) ≡ some e
unfolding read_entry
read_entry-print_entry e (hd, hn, hl) =
    let cut : split_at 64 (print_entry e) ≡ (e.digest, b' ' ∷ b' ' ∷ e.name) =
      subst (λ n. split_at n (print_entry e) ≡ (e.digest, b' ' ∷ b' ' ∷ e.name))
        (digest_length e.digest hd) (split_at-length e.digest (b' ' ∷ b' ' ∷ e.name)) in
    rw (cut, hd, hn) refl

print_entry-is_line : (e : Entry) → IsEntry e → is_line (print_entry e) ≡ true
print_entry-is_line e (hd, hn, hl) =
    line_append e.digest (b' ' ∷ b' ' ∷ e.name) (digest_line e.digest hd) hl

read_entries-printed :
    (seen : List Text) (es : List Entry)
    → All IsEntry es
    → AreNew seen es
    → read_entries seen (split_lines (print_manifest es)) ≡ returned es
unfolding print_manifest read_entries split_lines
read_entries-printed seen [] h n = refl
read_entries-printed seen (e ∷ es) (h, hs) (n, ns) =
    rw
      (
        split_lines_line (print_entry e) (print_manifest es) (print_entry-is_line e h),
        read_entry-print_entry e h,
        n,
        read_entries-printed (e.name ∷ seen) es hs ns,
      )
      refl

-- The manifest that is written of entries with hexadecimal digests, and with different names of one
-- line that are not empty and no paths, is read back as these entries, in order.
pub manifest_entries-print_manifest :
    (es : List Entry)
    → All IsEntry es
    → AreNew [] es
    → manifest_entries (print_manifest es) ≡ returned es
unfolding manifest_entries
manifest_entries-print_manifest es h n = read_entries-printed [] es h n
