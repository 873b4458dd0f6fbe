-- ===== src/Chain/Rows.antt =====
-- The per-class rows of a report: read with distinct ids, and sorted by them.
use dfine_cpp.Common.{
  ℕ, ◌<◌, ◌≤◌, ◌≡◌, ◌≢◌, refl, inl, inr, false, List, [], ◌∷◌, text_eq, codes, arith, ◌==◌, leb,
  any, All, Bool-cases,
}
use dfine_cpp.Common.Result.{returned, value_error, Ends, Ends-bind, Ends-refuse}
use dfine_cpp.Json.{Value, Items, null, boolean, integer, real, text, array, object, nil, item}
use dfine_cpp.Chain.Require.{
  require_object, require_exact_keys, require_int, require_metric, require_at,
}
use dfine_cpp.Chain.Accepted.{require_object-Ends, require_exact_keys-Ends, require_at-Ends}
use dfine_cpp.Chain.Metrics.{
  ClassRow, row_fields, nonempty_name, read_class, read_classes, insert_row, sort_rows, some_rows,
  read_per_class,
}
use dfine_cpp.Chain.Numbers.{IsNumberError, InUnit, require_metric-Ends, int-Ends}

abbrev IsFresh : List ℕ → ClassRow → Type 0
IsFresh seen r = any (λ k. r.category_id == k) seen ≡ false

abbrev HasUnit : ClassRow → Type 0
HasUnit r = InUnit r.average

abbrev Differ : ClassRow → ClassRow → Type 0
Differ r q = r.category_id ≢ q.category_id

abbrev AreDistinct : List ClassRow → Type 0
AreDistinct [] = Unit
AreDistinct (r ∷ rs) = All (Differ r) rs × AreDistinct rs

-- Sorted by strictly increasing ids.
abbrev pub AreSorted : List ClassRow → Type 0
AreSorted [] = Unit
AreSorted (r ∷ rs) = All (λ (q : ClassRow). r.category_id < q.category_id) rs × AreSorted rs

-- The rows of an accepted report.
abbrev pub AreRows : List ClassRow → Type 0
AreRows rs = AreSorted rs × All (λ (r : ClassRow). InUnit r.average) rs × (rs ≢ [])

name-Ends : (v : Value) → Ends (λ _. Unit {0}) IsNumberError (nonempty_name v)
name-Ends (text []) = inl refl
name-Ends (text (c ∷ s)) = tt
name-Ends null = inl refl
name-Ends (boolean _) = inl refl
name-Ends (integer _) = inl refl
name-Ends (real _) = inl refl
name-Ends (array _) = inl refl
name-Ends (object _) = inl refl

read_class-Ends :
    (seen : List ℕ) (v : Value)
    → Ends (λ r. IsFresh seen r × HasUnit r) IsNumberError (read_class seen v)
unfolding text_eq
read_class-Ends seen v =
    let P : ClassRow → Type 0 = λ r. IsFresh seen r × HasUnit r in
    Ends-bind IsNumberError _ P (require_object v) _
      (require_object-Ends IsNumberError (inl refl) v)
      (λ row _.
        Ends-bind IsNumberError _ P (require_exact_keys row_fields row) _
          (require_exact_keys-Ends IsNumberError (inl refl) row_fields row)
          (λ _ h.
            Ends-bind IsNumberError _ P (require_at (require_int 0) (codes "category_id") row) _
              (require_at-Ends IsNumberError (λ n. 0 ≤ n) (require_int 0) (codes "category_id")
                row_fields row refl h.0 (int-Ends 0))
              (λ id _.
                Ends-refuse IsNumberError P (any (λ k. id == k) seen) value_error _ (inl refl)
                  (λ fresh.
                    Ends-bind IsNumberError _ P (require_at nonempty_name (codes "name") row) _
                      (require_at-Ends IsNumberError (λ _. Unit {0}) nonempty_name (codes "name")
                        row_fields row refl h.0 name-Ends)
                      (λ label _.
                        Ends-bind IsNumberError _ P
                          (require_at (require_int 0) (codes "gt_instances") row) _
                          (require_at-Ends IsNumberError (λ n. 0 ≤ n) (require_int 0)
                            (codes "gt_instances") row_fields row refl h.0 (int-Ends 0))
                          (λ instances _.
                            Ends-bind IsNumberError InUnit P
                              (require_at require_metric (codes "AP") row)
                              (λ ap. returned (record {
                                category_id = id;
                                name = label;
                                gt_instances = instances;
                                average = ap;
                              }))
                              (require_at-Ends IsNumberError InUnit require_metric (codes "AP")
                                row_fields row refl h.0 require_metric-Ends)
                              (λ ap unit. (fresh, unit))))))))

IsFresh-of_longer :
    (r : ClassRow) (seen : List ℕ) (rs : List ClassRow)
    → All (IsFresh (r.category_id ∷ seen)) rs
    → All (IsFresh seen) rs × All (Differ r) rs
IsFresh-of_longer r seen [] h = (tt, tt)
IsFresh-of_longer r seen (q ∷ qs) (h, hs) =
    let (a, b) = IsFresh-of_longer r seen qs hs in ((ground arith, a), ((λ e. ground arith), b))

read_classes-Ends :
    (seen : List ℕ) (rows : Items)
    → Ends
        (λ rs. All (IsFresh seen) rs × AreDistinct rs × All HasUnit rs)
        IsNumberError
        (read_classes seen rows)
unfolding read_classes
read_classes-Ends seen nil = (tt, tt, tt)
read_classes-Ends seen (item v rows) =
    let P : List ClassRow → Type 0 =
      λ rs. All (IsFresh seen) rs × AreDistinct rs × All HasUnit rs in
    Ends-bind IsNumberError (λ r. IsFresh seen r × HasUnit r) P (read_class seen v) _
      (read_class-Ends seen v)
      (λ row h.
        Ends-bind IsNumberError
          (λ rs. All (IsFresh (row.category_id ∷ seen)) rs × AreDistinct rs × All HasUnit rs) P
          (read_classes (row.category_id ∷ seen) rows) (λ rest. returned (row ∷ rest))
          (read_classes-Ends (row.category_id ∷ seen) rows)
          (λ rs hs.
            let (a, b) = IsFresh-of_longer row seen rs hs.0 in ((h.0, a), (b, hs.1), (h.1, hs.2))))

insert_row-All :
    (P : ClassRow → Type 0) (r : ClassRow) (qs : List ClassRow)
    → P r
    → All P qs
    → All P (insert_row r qs)
unfolding insert_row
insert_row-All P r [] h hs = (h, tt)
insert_row-All P r (q ∷ qs) h (k, ks) = elim (Bool-cases (leb r.category_id q.category_id)) [
  | inl e ↦ rw e (h, (k, ks))
  | inr e ↦ rw e (k, insert_row-All P r qs h ks)
]

smaller_than-All :
    (r q : ClassRow) (qs : List ClassRow)
    → r.category_id < q.category_id
    → All (λ (s : ClassRow). q.category_id < s.category_id) qs
    → All (λ (s : ClassRow). r.category_id < s.category_id) qs
smaller_than-All r q [] less h = tt
smaller_than-All r q (s ∷ ss) less (h, hs) =
    (omega (arith, less, h), smaller_than-All r q ss less hs)

insert_row-AreSorted :
    (r : ClassRow) (qs : List ClassRow)
    → All (Differ r) qs
    → AreSorted qs
    → AreSorted (insert_row r qs)
unfolding insert_row
insert_row-AreSorted r [] d h = (tt, tt)
insert_row-AreSorted r (q ∷ qs) (d, ds) (h, hs) =
    elim (Bool-cases (leb r.category_id q.category_id)) [
      | inl e ↦
          let less : r.category_id < q.category_id = ground arith in
          rw e ((less, smaller_than-All r q qs less h), (h, hs))
      | inr e ↦
          let less : q.category_id < r.category_id = ground arith in
          rw e (
            insert_row-All (λ (s : ClassRow). q.category_id < s.category_id) r qs less h,
            insert_row-AreSorted r qs ds hs,
          )
    ]

sort_rows-All : (P : ClassRow → Type 0) (rs : List ClassRow) → All P rs → All P (sort_rows rs)
unfolding sort_rows
sort_rows-All P [] h = tt
sort_rows-All P (r ∷ rs) (h, hs) = insert_row-All P r (sort_rows rs) h (sort_rows-All P rs hs)

sort_rows-AreSorted : (rs : List ClassRow) → AreDistinct rs → AreSorted (sort_rows rs)
unfolding sort_rows
sort_rows-AreSorted [] h = tt
sort_rows-AreSorted (r ∷ rs) (h, hs) =
    insert_row-AreSorted r (sort_rows rs) (sort_rows-All (Differ r) rs h)
      (sort_rows-AreSorted rs hs)

insert_row-nonempty : (r : ClassRow) (qs : List ClassRow) → insert_row r qs ≢ []
unfolding insert_row
insert_row-nonempty r [] e = cc
insert_row-nonempty r (q ∷ qs) e = elim (Bool-cases (leb r.category_id q.category_id)) [
  | inl h ↦ ground arith
  | inr h ↦ ground arith
]

some_rows-Ends :
    (rs : List ClassRow)
    → AreDistinct rs
    → All HasUnit rs
    → Ends AreRows IsNumberError (some_rows rs)
unfolding sort_rows
some_rows-Ends [] d u = inl refl
some_rows-Ends (r ∷ rs) d u = (
  sort_rows-AreSorted (r ∷ rs) d,
  sort_rows-All HasUnit (r ∷ rs) u,
  insert_row-nonempty r (sort_rows rs),
)

pub read_per_class-Ends : (v : Value) → Ends AreRows IsNumberError (read_per_class v)
unfolding read_per_class
read_per_class-Ends (array rows) =
    Ends-bind IsNumberError _ AreRows (read_classes [] rows) some_rows (read_classes-Ends [] rows)
      (λ rs h. some_rows-Ends rs h.1 h.2)
read_per_class-Ends null = inl refl
read_per_class-Ends (boolean _) = inl refl
read_per_class-Ends (integer _) = inl refl
read_per_class-Ends (real _) = inl refl
read_per_class-Ends (text _) = inl refl
read_per_class-Ends (object _) = inl refl
