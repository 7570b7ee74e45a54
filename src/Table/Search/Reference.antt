-- ===== src/Table/Search/Reference.antt =====
-- A query on a list of rows: what `Table::search` of src/backend/core/table.rs is compared with.
use Prim.Native.Nat.{Ordering}
use ant_db.Common.{
  ℕ, zero, suc, ◌+◌, ◌≡◌, refl, ap, sym, ◌∙◌, inl, inr, Bool, true, false, Option, none, some, List,
  [], ◌∷◌, ◌++◌, if◌then◌else◌, arith, All, map, take, drop, length,
}
use mathlib.Core.Path.{subst}
use mathlib.Core.List.{append_assoc, append-nil}
use ant_db.Errors.{Result, ok, err, ◌>>=◌, Result-cases}
use ant_db.Txn.{Transaction}
use ant_db.Row.Entry.{Primitives, RowData, RowId, ColumnId, compare_entry, is_gt, is_eq}
use ant_db.Pages.Defs.{Sizes}
use ant_db.Planner.{ColumnMap}
use ant_db.Search.{SearchExpression}
use ant_db.Query.Rows.{entry_or_null}
use ant_db.Query.Results.{SortBy, SearchResult, directed, limited}
use ant_db.Query.{SearchRequest}
use ant_db.Table.Scan.{fold_rows}
use ant_db.Table.Search.{row_passes, push_matching_row, count_row, projected_values}

-- A row of a table as a transaction sees it.
abbrev pub SeenRow : Type 0
SeenRow = RowId × RowData

abbrev pub id_of : SeenRow → RowId
id_of r = r.0

module _ (p : Primitives) where
  -- The rows that a filter lets through, or the first error that it gives.
  abbrev pub matching_rows :
      ColumnMap → Option SearchExpression → List SeenRow → Result (List SeenRow)
  matching_rows columns filter [] = ok []
  matching_rows columns filter ((row_id, row_data) ∷ rows) =
      let rest = matching_rows columns filter rows in
      do
        matches ← row_passes p columns filter row_data
        ms ← rest
        ok (if matches then (row_id, row_data) ∷ ms else ms)

  abbrev pub row_order : List (ColumnId × SortBy) → SeenRow → SeenRow → Ordering
  row_order [] a b = Ordering.eq
  row_order ((id, sort_by) ∷ sorts) a b =
      let rest = row_order sorts a b in
      let order = compare_entry p (entry_or_null id a.1) (entry_or_null id b.1) in
      if is_eq order then rest else directed sort_by.order_by order

  abbrev pub insert_by : List (ColumnId × SortBy) → SeenRow → List SeenRow → List SeenRow
  insert_by sorts a [] = a ∷ []
  insert_by sorts a (b ∷ rows) =
      let rest = insert_by sorts a rows in
      if is_gt (row_order sorts a b) then b ∷ rest else a ∷ b ∷ rows

  abbrev pub sort_rows : List (ColumnId × SortBy) → List SeenRow → List SeenRow
  sort_rows sorts [] = []
  sort_rows sorts (r ∷ rows) = insert_by sorts r (sort_rows sorts rows)

  abbrev pub result_of : ColumnMap → SeenRow → SearchResult
  result_of columns (row_id, row_data) = record {
    row_id = row_id;
    result_values = projected_values columns row_data [];
  }

  -- The answer to a request, over the list of the rows that there are.
  abbrev pub answer :
      ColumnMap
      → ColumnMap
      → List (ColumnId × SortBy)
      → SearchRequest
      → List SeenRow
      → Result (List SearchResult)
  answer columns projected sorts request rows = do
    ms ← matching_rows columns request.filter rows
    ok (map (result_of projected) (limited request.limit request.offset (sort_rows sorts ms)))

  kept_row :
      (matches : Bool) (row : SeenRow) (found : List RowId) (r : Result (List SeenRow))
      → (r >>= λ ms. ok ((if matches then found ++ row.0 ∷ [] else found) ++ map id_of ms))
        ≡ ((r >>= λ ms. ok (if matches then row ∷ ms else ms)) >>= λ ms. ok (found ++ map id_of ms))
  kept_row matches row found (err e) = refl
  kept_row true row found (ok ms) =
      ap (λ ids. ok ids) (append_assoc found (row.0 ∷ []) (map id_of ms))
  kept_row false row found (ok ms) = refl

  pub fold_rows-push :
      (sizes : Sizes) (txn : Transaction) (columns : ColumnMap) (filter : Option SearchExpression)
      (rows : List SeenRow) (found : List RowId)
      → fold_rows sizes txn (push_matching_row p columns filter) rows found
        ≡ (matching_rows columns filter rows >>= λ ms. ok (found ++ map id_of ms))
  unfolding push_matching_row
  fold_rows-push sizes txn columns filter [] found = ap (λ r. ok r) (sym (append-nil found))
  fold_rows-push sizes txn columns filter ((row_id, row_data) ∷ rows) found =
      elim (Result-cases (row_passes p columns filter row_data)) [
        | inr (failure, e) ↦ ground (arith, e)
        | inl (matches, e) ↦
            rw (e, fold_rows, matching_rows)
              (fold_rows-push sizes txn columns filter rows
                  (if matches then found ++ row_id ∷ [] else found)
                ∙ kept_row matches (row_id, row_data) found (matching_rows columns filter rows))
      ]

  counted_row :
      (matches : Bool) (row : SeenRow) (count : ℕ) (r : Result (List SeenRow))
      → (r >>= λ ms. ok ((if matches then suc count else count) + length ms))
        ≡ ((r >>= λ ms. ok (if matches then row ∷ ms else ms)) >>= λ ms. ok (count + length ms))
  counted_row matches row count (err e) = refl
  counted_row true row count (ok ms) = ap (λ (n : ℕ). ok n) (omega arith)
  counted_row false row count (ok ms) = refl

  pub fold_rows-count :
      (sizes : Sizes) (txn : Transaction) (columns : ColumnMap) (filter : Option SearchExpression)
      (rows : List SeenRow) (count : ℕ)
      → fold_rows sizes txn (count_row p columns filter) rows count
        ≡ (matching_rows columns filter rows >>= λ ms. ok (count + length ms))
  unfolding count_row
  fold_rows-count sizes txn columns filter [] count = ap (λ (n : ℕ). ok n) (omega arith)
  fold_rows-count sizes txn columns filter ((row_id, row_data) ∷ rows) count =
      elim (Result-cases (row_passes p columns filter row_data)) [
        | inr (failure, e) ↦ ground (arith, e)
        | inl (matches, e) ↦
            rw (e, fold_rows, matching_rows)
              (fold_rows-count sizes txn columns filter rows (if matches then suc count else count)
                ∙ counted_row matches (row_id, row_data) count (matching_rows columns filter rows))
      ]

take-map {ℓ κ} :
    {A : Type ℓ} {B : Type κ} (f : A → B) (n : ℕ) (xs : List A)
    → take n (map f xs) ≡ map f (take n xs)
take-map f zero xs = refl
take-map f (suc n) [] = refl
take-map f (suc n) (x ∷ xs) = ap (λ ys. f x ∷ ys) (take-map f n xs)

drop-map {ℓ κ} :
    {A : Type ℓ} {B : Type κ} (f : A → B) (n : ℕ) (xs : List A)
    → drop n (map f xs) ≡ map f (drop n xs)
drop-map f zero xs = refl
drop-map f (suc n) [] = refl
drop-map f (suc n) (x ∷ xs) = drop-map f n xs

pub limited-map {ℓ κ} :
    {A : Type ℓ} {B : Type κ} (f : A → B) (limit offset : Option ℕ) (xs : List A)
    → limited limit offset (map f xs) ≡ map f (limited limit offset xs)
unfolding limited
limited-map f none none xs = refl
limited-map f none (some m) xs = drop-map f m xs
limited-map f (some n) none xs = take-map f n xs
limited-map f (some n) (some m) xs = ap (take n) (drop-map f m xs) ∙ take-map f n (drop m xs)

module _ {ℓ κ} {A : Type ℓ} (P : A → Type κ) where
  All-take : (n : ℕ) (xs : List A) → All P xs → All P (take n xs)
  All-take zero xs h = tt
  All-take (suc n) [] h = tt
  All-take (suc n) (x ∷ xs) (hx, h) = (hx, All-take n xs h)

  All-drop : (n : ℕ) (xs : List A) → All P xs → All P (drop n xs)
  All-drop zero xs h = h
  All-drop (suc n) [] h = tt
  All-drop (suc n) (x ∷ xs) (hx, h) = All-drop n xs h

  pub All-limited :
      (limit offset : Option ℕ) (xs : List A) → All P xs → All P (limited limit offset xs)
  unfolding limited
  All-limited none none xs h = h
  All-limited none (some m) xs h = All-drop m xs h
  All-limited (some n) none xs h = All-take n xs h
  All-limited (some n) (some m) xs h = All-take n (drop m xs) (All-drop m xs h)

  All-kept :
      (matches : Bool) (x : A) (xs : List A)
      → P x
      → All P xs
      → All P (if matches then x ∷ xs else xs)
  All-kept true x xs hx h = (hx, h)
  All-kept false x xs hx h = h

module _ (p : Primitives) where
  pub All-matching_rows {κ} :
      (P : SeenRow → Type κ) (columns : ColumnMap) (filter : Option SearchExpression)
      (rows ms : List SeenRow)
      → matching_rows p columns filter rows ≡ ok ms
      → All P rows
      → All P ms
  All-matching_rows P columns filter [] [] e h = tt
  All-matching_rows P columns filter [] (m ∷ ms) e h = absurd (ground arith)
  All-matching_rows P columns filter (r ∷ rows) ms e (hr, h) =
      elim (Result-cases (row_passes p columns filter r.1)) [
        | inr (failure, f) ↦ absurd (ground arith)
        | inl (matches, f) ↦ elim (Result-cases (matching_rows p columns filter rows)) [
          | inr (failure, g) ↦ absurd (ground arith)
          | inl (rest, g) ↦
              subst (All P) (ground arith)
                (All-kept P matches r rest hr (All-matching_rows P columns filter rows rest g h))
        ]
      ]
