-- ===== src/Release/Recorded.antt =====
-- What `_validate_wheel` accepts.
use dfine_cpp.Common.{
  ◌≡◌, refl, ◌⊎◌, inl, inr, true, false, not, Option, none, some, List, [], ◌∷◌, ◌++◌, Text,
  text_eq, text_eq_sound, codes, arith, any, All, length, ◌&&◌, Bool-cases, if_true, if_false,
}
use mathlib.Core.Path.{subst}
use dfine_cpp.Common.Decimal.{decimal}
use dfine_cpp.Common.Result.{returned, system_exit, refuse_if-returned, bind-returned}
use dfine_cpp.Release.Names.{wheel_name, same_set, within}
use dfine_cpp.Release.Wheel.{
  Archive, Row, member_names, has_repeats, is_foreign, required_paths, has_license, read_member,
  starts_with, elf, read_rows, row_paths, row_of, record_path, is_empty, is_recorded, check_records,
  check_members, validate_wheel,
}

-- A row with the digest and the size of the bytes; the row of RECORD has neither.
abbrev pub IsRow : (Text → Text) → Text → Text → Text → Option Row → Type 0
IsRow digest version name bytes none = ⊥
IsRow digest version name bytes (some r) =
    ((name ≡ record_path version) × (r.digest ≡ []) × (r.size ≡ []))
    ⊎ ((r.digest ≡ codes "sha256=" ++ digest bytes) × (r.size ≡ decimal (length bytes)))

-- No member stands twice, the rows of RECORD name the members exactly, and every member has its
-- row; the builder is the release's own.
abbrev pub IsIntact : (Text → Text) → Text → Text → Archive → Type 0
IsIntact digest version builder a =
    (has_repeats (member_names a) ≡ false)
    × (read_member (codes "dfine/_scripts/build_engine.py") a.members ≡ returned builder)
    × ((rows : List Row) × (read_rows a.rows ≡ returned rows)
        × (same_set (row_paths rows) (member_names a) ≡ true)
        × All (λ (m : Text × Text). IsRow digest version m.0 m.1 (row_of m.0 rows)) a.members)

is_empty→eq : (s : Text) → is_empty s ≡ true → s ≡ []
is_empty→eq [] h = refl
is_empty→eq (c ∷ s) h = cc

is_recorded-IsRow :
    (digest : Text → Text) (version name bytes : Text) (o : Option Row)
    → is_recorded digest version name bytes o ≡ true
    → IsRow digest version name bytes o
is_recorded-IsRow digest version name bytes none h = cc
is_recorded-IsRow digest version name bytes (some r) h =
    elim (Bool-cases (text_eq name (record_path version))) [
      | inl e ↦
          let fields : (is_empty r.digest && is_empty r.size) ≡ true =
            if_true (text_eq name (record_path version)) _ _ true e h in
          inl (
            text_eq_sound name (record_path version) e,
            is_empty→eq r.digest (ground arith),
            is_empty→eq r.size (ground arith),
          )
      | inr e ↦
          let fields : (text_eq r.digest (codes "sha256=" ++ digest bytes)
                && text_eq r.size (decimal (length bytes)))
              ≡ true =
            if_false (text_eq name (record_path version)) _ _ true e h in
          inr (
            text_eq_sound r.digest (codes "sha256=" ++ digest bytes) (ground arith),
            text_eq_sound r.size (decimal (length bytes)) (ground arith),
          )
    ]

check_records-All :
    (digest : Text → Text) (version : Text) (rows : List Row) (ms : List (Text × Text))
    → check_records digest version rows ms ≡ returned tt
    → All (λ (m : Text × Text). IsRow digest version m.0 m.1 (row_of m.0 rows)) ms
unfolding check_records
check_records-All digest version rows [] h = tt
check_records-All digest version rows ((n, bytes) ∷ ms) h =
    let (c, k) =
      refuse_if-returned (not (is_recorded digest version n bytes (row_of n rows))) system_exit _ tt
        h in
    (
      is_recorded-IsRow digest version n bytes (row_of n rows) (ground arith),
      check_records-All digest version rows ms k,
    )

check_members-IsIntact :
    (digest : Text → Text) (version builder : Text) (a : Archive)
    → check_members digest version builder a ≡ returned tt
    → IsIntact digest version builder a
check_members-IsIntact digest version builder a h =
    let names = member_names a in
    let (c1, h1) = refuse_if-returned (has_repeats names) system_exit _ tt h in
    let (c2, h2) = refuse_if-returned (not a.is_intact) system_exit _ tt h1 in
    let (c3, h3) = refuse_if-returned (any (is_foreign version) names) system_exit _ tt h2 in
    let (c4, h4) =
      refuse_if-returned (not (within (required_paths version) names)) system_exit _ tt h3 in
    let (c5, h5) =
      refuse_if-returned
        (not (has_license names (codes "LICENSE") && has_license names (codes "NOTICE")))
        system_exit _ tt h4 in
    let (library, e6, h6) =
      bind-returned (read_member (codes "dfine/libdfine.so") a.members) _ tt h5 in
    let (c7, h7) = refuse_if-returned (not (starts_with elf library)) system_exit _ tt h6 in
    let (bundled, e8, h8) =
      bind-returned (read_member (codes "dfine/_scripts/build_engine.py") a.members) _ tt h7 in
    let (c9, h9) = refuse_if-returned (not (text_eq bundled builder)) system_exit _ tt h8 in
    let (rows, e10, h10) = bind-returned (read_rows a.rows) _ tt h9 in
    let (c11, h11) = refuse_if-returned (has_repeats (row_paths rows)) system_exit _ tt h10 in
    let (c12, h12) =
      refuse_if-returned (not (same_set (row_paths rows) names)) system_exit _ tt h11 in
    let own = text_eq_sound bundled builder (ground arith) in
    let covered : same_set (row_paths rows) names ≡ true = ground arith in
    (
      c1,
      subst (λ b. read_member (codes "dfine/_scripts/build_engine.py") a.members ≡ returned b) own
          e8,
      (rows, e10, covered, check_records-All digest version rows a.members h12),
    )

-- A wheel that is accepted has the name of its version and intact contents: no member stands
-- twice, the bundled builder is the release's own, the rows of RECORD name the members exactly,
-- and every member other than RECORD has a row with its digest and size.
pub validate_wheel-IsIntact :
    (digest : Text → Text) (version builder name : Text) (archive : Option Archive)
    → validate_wheel digest version builder name archive ≡ returned tt
    → (name ≡ wheel_name version)
      × ((a : Archive) × (archive ≡ some a) × IsIntact digest version builder a)
unfolding validate_wheel
validate_wheel-IsIntact digest version builder name none h =
    let (c, k) = refuse_if-returned (not (text_eq name (wheel_name version))) system_exit _ tt h in
    absurd (cc)
validate_wheel-IsIntact digest version builder name (some a) h =
    let (c, k) = refuse_if-returned (not (text_eq name (wheel_name version))) system_exit _ tt h in
    let (u, members, metadata) = bind-returned (check_members digest version builder a) _ tt k in
    (
      text_eq_sound name (wheel_name version) (ground arith),
      (a, refl, check_members-IsIntact digest version builder a members),
    )
