-- ===== src/Table/Search/Asked.antt =====
-- What a query asks of a list of rows: its filter, its order, its limits and its columns, told without the
-- functions of src/backend/core/table.rs that `Table::search` runs.
use Prim.Native.Nat.{Ordering}
use ant_db.Common.{
  ℕ, ◌≡◌, refl, ap, sym, ◌∙◌, ◌∷◌, inl, inr, Bool, true, Option, none, some, List, [], ◌++◌,
  if◌then◌else◌, map, take, drop, lookup,
}
use mathlib.Core.List.{append_assoc, append-nil}
use ant_db.Errors.{Text, Result, ok, ◌>>=◌, Result-cases}
use ant_db.Row.Entry.{DataBaseDataEntry, Primitives, RowData, ColumnId, compare_entry, is_gt, is_eq}
use ant_db.Planner.{ColumnMap, column_named}
use ant_db.Search.{SearchExpression, evaluate}
use ant_db.Query.Results.{
  ProjectionColumn, SortBy, OrderBy, asc, desc, SearchResult, directed, limited,
}
use ant_db.Query.{SearchRequest}
use ant_db.Table.Search.{
  row_context, row_passes, projected_values, projected_column, projected_columns,
  projection_columns, sort_columns, sorted_columns,
}
use ant_db.Table.Search.Reference.{
  SeenRow, matching_rows, row_order, insert_by, sort_rows, result_of, answer,
}

-- The value of a column: NULL where the row has none.
abbrev pub value_at : RowData → Text × ColumnId → Text × DataBaseDataEntry
value_at row_data (name, id) =
    (name, elim (lookup id row_data) [ none ↦ DataBaseDataEntry.null | some value ↦ value ])

-- The values of the columns, the last column first: of two with one name, the last one counts.
abbrev pub shown_values : ColumnMap → RowData → List (Text × DataBaseDataEntry)
shown_values [] row_data = []
shown_values (column ∷ columns) row_data =
    shown_values columns row_data ++ value_at row_data column ∷ []

abbrev pub shown_result : ColumnMap → SeenRow → SearchResult
shown_result columns (row_id, row_data) = record {
  row_id = row_id;
  result_values = shown_values columns row_data;
}

-- The output names and the columns that a projection names, one by one, without an alias of a table. A
-- query for `*` names the visible columns in the order of their names.
abbrev pub AreNamed : ColumnMap → List ProjectionColumn → ColumnMap → Type 0
AreNamed columns [] [] = Unit
AreNamed columns (c ∷ cs) ((name, id) ∷ projected) =
    (c.source_alias ≡ none)
    × (c.output_name ≡ name)
    × (column_named c.column_name columns ≡ some id)
    × AreNamed columns cs projected
AreNamed columns [] (_ ∷ _) = ⊥
AreNamed columns (_ ∷ _) [] = ⊥

abbrev pub IsProjection : ColumnMap → Option (List ProjectionColumn) → ColumnMap → Type 0
IsProjection columns none projected = projected ≡ sorted_columns columns
IsProjection columns (some projection) projected = AreNamed columns projection projected

-- The columns that an ORDER BY names, one by one.
abbrev pub AreOrdering : ColumnMap → List SortBy → List (ColumnId × SortBy) → Type 0
AreOrdering columns [] [] = Unit
AreOrdering columns (s ∷ order_by) ((id, sort_by) ∷ sorts) =
    (sort_by ≡ s)
    × (column_named s.sort_column columns ≡ some id)
    × AreOrdering columns order_by sorts
AreOrdering columns [] (_ ∷ _) = ⊥
AreOrdering columns (_ ∷ _) [] = ⊥

projected_columns-AreNamed :
    (columns : ColumnMap) (projection : List ProjectionColumn) (projected : ColumnMap)
    → AreNamed columns projection projected
    → projected_columns columns projection ≡ ok projected
unfolding projected_columns projected_column
projected_columns-AreNamed columns [] [] h = refl
projected_columns-AreNamed columns [] (_ ∷ _) h = absurd h
projected_columns-AreNamed columns (_ ∷ _) [] h = absurd h
projected_columns-AreNamed columns (c ∷ cs) ((name, id) ∷ projected) (plain, named, found, h) =
    rw (plain, found, projected_columns-AreNamed columns cs projected h, named) refl

pub projection_columns-IsProjection :
    (columns : ColumnMap) (projection : Option (List ProjectionColumn)) (projected : ColumnMap)
    → IsProjection columns projection projected
    → projection_columns columns projection ≡ ok projected
unfolding projection_columns
projection_columns-IsProjection columns none projected h = ap (λ cs. ok cs) (sym h)
projection_columns-IsProjection columns (some projection) projected h =
    projected_columns-AreNamed columns projection projected h

pub sort_columns-AreOrdering :
    (columns : ColumnMap) (order_by : List SortBy) (sorts : List (ColumnId × SortBy))
    → AreOrdering columns order_by sorts
    → sort_columns columns order_by ≡ ok sorts
unfolding sort_columns
sort_columns-AreOrdering columns [] [] h = refl
sort_columns-AreOrdering columns [] (_ ∷ _) h = absurd h
sort_columns-AreOrdering columns (_ ∷ _) [] h = absurd h
sort_columns-AreOrdering columns (s ∷ order_by) ((id, sort_by) ∷ sorts) (same, found, h) =
    rw (found, sort_columns-AreOrdering columns order_by sorts h, same) refl

-- An order read upwards, or downwards.
abbrev pub towards : OrderBy → Ordering → Ordering
towards asc order = order
towards desc Ordering.lt = Ordering.gt
towards desc Ordering.eq = Ordering.eq
towards desc Ordering.gt = Ordering.lt

-- At most so many of the rows, after the ones to skip.
abbrev pub first {ℓ} : {A : Type ℓ} → Option ℕ → List A → List A
first none xs = xs
first (some n) xs = take n xs

abbrev pub after {ℓ} : {A : Type ℓ} → Option ℕ → List A → List A
after none xs = xs
after (some n) xs = drop n xs

module _ (p : Primitives) where
  -- Whether the filter holds on the values of a row. A query without a filter has every row.
  abbrev pub lets_through : ColumnMap → Option SearchExpression → RowData → Result Bool
  lets_through columns none row_data = ok true
  lets_through columns (some filter) row_data = evaluate p (map (value_at row_data) columns) filter

  abbrev pub rows_through :
      ColumnMap → Option SearchExpression → List SeenRow → Result (List SeenRow)
  rows_through columns filter [] = ok []
  rows_through columns filter (row ∷ rows) =
      let rest = rows_through columns filter rows in
      do
        passes ← lets_through columns filter row.1
        others ← rest
        ok (if passes then row ∷ others else others)

  -- Two rows by the first of the columns in which they differ.
  abbrev pub ranked : List (ColumnId × SortBy) → SeenRow → SeenRow → Ordering
  ranked [] a b = Ordering.eq
  ranked ((id, sort_by) ∷ sorts) a b =
      let rest = ranked sorts a b in
      let order = compare_entry p (value_at a.1 ([], id)).1 (value_at b.1 ([], id)).1 in
      if is_eq order then rest else towards sort_by.order_by order

  -- The row goes behind those that rank before it, and before its equals.
  abbrev pub placed : List (ColumnId × SortBy) → SeenRow → List SeenRow → List SeenRow
  placed sorts a [] = a ∷ []
  placed sorts a (b ∷ rows) =
      let rest = placed sorts a rows in if is_gt (ranked sorts a b) then b ∷ rest else a ∷ b ∷ rows

  abbrev pub ordered : List (ColumnId × SortBy) → List SeenRow → List SeenRow
  ordered sorts [] = []
  ordered sorts (r ∷ rows) = placed sorts r (ordered sorts rows)

  -- What a request asks of the rows that there are.
  abbrev pub asked :
      ColumnMap
      → ColumnMap
      → List (ColumnId × SortBy)
      → SearchRequest
      → List SeenRow
      → Result (List SearchResult)
  asked columns projected sorts request rows = do
    ms ← rows_through columns request.filter rows
    ok (
        map (shown_result projected)
          (first request.limit (after request.offset (ordered sorts ms))))

  row_context-value_at :
      (columns : ColumnMap) (row_data : RowData)
      → row_context columns row_data ≡ map (value_at row_data) columns
  row_context-value_at [] row_data = refl
  row_context-value_at ((name, id) ∷ columns) row_data =
      ap (λ ctx. value_at row_data (name, id) ∷ ctx) (row_context-value_at columns row_data)

  row_passes-lets_through :
      (columns : ColumnMap) (filter : Option SearchExpression) (row_data : RowData)
      → row_passes p columns filter row_data ≡ lets_through columns filter row_data
  unfolding row_passes
  row_passes-lets_through columns none row_data = refl
  row_passes-lets_through columns (some filter) row_data =
      ap (λ ctx. evaluate p ctx filter) (row_context-value_at columns row_data)

  matching_rows-rows_through :
      (columns : ColumnMap) (filter : Option SearchExpression) (rows : List SeenRow)
      → matching_rows p columns filter rows ≡ rows_through columns filter rows
  matching_rows-rows_through columns filter [] = refl
  matching_rows-rows_through columns filter ((row_id, row_data) ∷ rows) =
      rw
        (
          row_passes-lets_through columns filter row_data,
          matching_rows-rows_through columns filter rows,
        )
        refl

  directed-towards :
      (direction : OrderBy) (order : Ordering) → directed direction order ≡ towards direction order
  directed-towards asc order = refl
  directed-towards desc Ordering.lt = refl
  directed-towards desc Ordering.eq = refl
  directed-towards desc Ordering.gt = refl

  row_order-ranked :
      (sorts : List (ColumnId × SortBy)) (a b : SeenRow) → row_order p sorts a b ≡ ranked sorts a b
  row_order-ranked [] a b = refl
  row_order-ranked ((id, sort_by) ∷ sorts) a b =
      rw
        (
          row_order-ranked sorts a b,
          directed-towards sort_by.order_by
              (compare_entry p (value_at a.1 ([], id)).1 (value_at b.1 ([], id)).1),
        )
        refl

  insert_by-placed :
      (sorts : List (ColumnId × SortBy)) (a : SeenRow) (rows : List SeenRow)
      → insert_by p sorts a rows ≡ placed sorts a rows
  insert_by-placed sorts a [] = refl
  insert_by-placed sorts a (b ∷ rows) =
      rw (insert_by-placed sorts a rows, row_order-ranked sorts a b) refl

  sort_rows-ordered :
      (sorts : List (ColumnId × SortBy)) (rows : List SeenRow)
      → sort_rows p sorts rows ≡ ordered sorts rows
  sort_rows-ordered sorts [] = refl
  sort_rows-ordered sorts (r ∷ rows) =
      rw (sort_rows-ordered sorts rows) (insert_by-placed sorts r (ordered sorts rows))

  limited-first {ℓ} :
      {A : Type ℓ} (limit offset : Option ℕ) (xs : List A)
      → limited limit offset xs ≡ first limit (after offset xs)
  unfolding limited
  limited-first none none xs = refl
  limited-first none (some m) xs = refl
  limited-first (some n) none xs = refl
  limited-first (some n) (some m) xs = refl

  projected_values-shown :
      (columns : ColumnMap) (row_data : RowData) (seen : List (Text × DataBaseDataEntry))
      → projected_values columns row_data seen ≡ shown_values columns row_data ++ seen
  unfolding projected_values
  projected_values-shown [] row_data seen = refl
  projected_values-shown ((name, id) ∷ columns) row_data seen =
      projected_values-shown columns row_data (value_at row_data (name, id) ∷ seen)
      ∙ sym (append_assoc (shown_values columns row_data) (value_at row_data (name, id) ∷ []) seen)

  map-shown :
      (columns : ColumnMap) (rows : List SeenRow)
      → map (result_of p columns) rows ≡ map (shown_result columns) rows
  map-shown columns [] = refl
  map-shown columns ((row_id, row_data) ∷ rows) =
      rw
        (
          map-shown columns rows,
          projected_values-shown columns row_data [],
          append-nil (shown_values columns row_data),
        )
        refl

  pub answer-asked :
      (columns projected : ColumnMap) (sorts : List (ColumnId × SortBy)) (request : SearchRequest)
      (rows : List SeenRow)
      → answer p columns projected sorts request rows ≡ asked columns projected sorts request rows
  answer-asked columns projected sorts request rows =
      elim (Result-cases (rows_through columns request.filter rows)) [
        | inr (failure, e) ↦
            rw (answer, asked, matching_rows-rows_through columns request.filter rows, e) refl
        | inl (ms, e) ↦
            rw (answer, asked, matching_rows-rows_through columns request.filter rows, e)
              (ap (λ rs. ok rs)
                (ap
                    (λ sorted.
                      map (result_of p projected) (limited request.limit request.offset sorted))
                    (sort_rows-ordered sorts ms)
                  ∙ map-shown projected (limited request.limit request.offset (ordered sorts ms))
                  ∙ ap (map (shown_result projected))
                      (limited-first request.limit request.offset (ordered sorts ms))))
      ]
