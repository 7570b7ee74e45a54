-- ===== src/Query/Context.antt =====
-- The values that the tables of a joined row give to qualified names (src/backend/core/query.rs,
-- `build_row_context`).
use ant_db.Common.{
  ◌≡◌, refl, ap, sym, ◌∙◌, inl, inr, Bool, true, false, Option, none, some, [], ◌∷◌, ◌++◌, ◌==◌,
  if◌then◌else◌, contains, All, arith, Option-cases, Bool-cases,
}
use ant_db.Errors.{Text}
use ant_db.Row.Entry.{DataBaseDataEntry, compare_list}
use ant_db.Row.Entry.Order.{compare_list-eq, compare_list_refl}
use ant_db.Copy.{text_eq, to_ascii_lowercase}
use ant_db.Planner.{ColumnMap, column_named}
use ant_db.Search.{RowEvaluationContext, value_of}
use ant_db.Query.Rows.{
  TableBinding, JoinedRow, dotted, owners, column_value, bind_column, bind_columns, bind_tables,
  build_row_context,
}

-- A name without a dot.
abbrev pub IsDotless : Text → Type 0
IsDotless name = contains 46 name ≡ false

-- No column of a table has a dot in its name.
abbrev pub HasDotlessColumns : ColumnMap → Type 0
HasDotlessColumns columns = All (λ c. IsDotless c.0) columns

pub text_eq_refl : (a : Text) → text_eq a a ≡ true
text_eq_refl a = ground (arith, compare_list_refl a)

pub text_eq→eq : (a b : Text) → text_eq a b ≡ true → a ≡ b
text_eq→eq a b h = compare_list-eq a b (ground arith)

pub contains-dotted : (table name : Text) → contains 46 (dotted table name) ≡ true
contains-dotted [] name = ground arith
contains-dotted (c ∷ table) name = ground (arith, contains-dotted table name)

dotless-text_eq-dotted : (n table name : Text) → IsDotless n → text_eq n (dotted table name) ≡ false
dotless-text_eq-dotted n table name h = elim (Bool-cases (text_eq n (dotted table name))) [
  | inl same ↦ absurd (
      ground (
        arith,
        ap (contains 46) (text_eq→eq n (dotted table name) same),
        contains-dotted table name,
      ))
  | inr other ↦ other
]

-- What a dotted name finds among the qualified names of one table: the last insertion counts.
unfoldable pub qualified_value : Text → TableBinding → ColumnMap → Option DataBaseDataEntry
qualified_value key binding [] = none
qualified_value key binding ((name, _) ∷ columns) = elim (qualified_value key binding columns) [
  | some value ↦ some value
  | none ↦
      if text_eq (dotted (to_ascii_lowercase binding.alias) name) key
      then some (column_value binding name)
      else none
]

abbrev pub or_else : Option DataBaseDataEntry → Option DataBaseDataEntry → Option DataBaseDataEntry
or_else none other = other
or_else (some value) other = some value

-- One column gives a dotted name its value, if it is the column's, or leaves it as it was.
value_of-bind_column :
    (table name n : Text) (all : JoinedRow) (binding : TableBinding) (ctx : RowEvaluationContext)
    → IsDotless n
    → value_of (dotted table name) (bind_column all binding n ctx) ≡ (
        if text_eq (dotted (to_ascii_lowercase binding.alias) n) (dotted table name)
        then some (column_value binding n)
        else value_of (dotted table name) ctx)
unfolding bind_column
value_of-bind_column table name n all binding ctx h = elim (Bool-cases (owners n all == 1)) [
  | inl single ↦ rw (single, dotless-text_eq-dotted n table name h) refl
  | inr several ↦ rw (several) refl
]

or_else-if :
    (found : Option DataBaseDataEntry) (c : Bool) (v : DataBaseDataEntry)
    (other : Option DataBaseDataEntry)
    → or_else found (if c then some v else other)
      ≡ or_else (elim found [ some value ↦ some value | none ↦ if c then some v else none ]) other
or_else-if none true v other = refl
or_else-if none false v other = refl
or_else-if (some value) c v other = refl

-- The columns of one table give a dotted name its value there, or leave it as it was.
pub value_of-bind_columns :
    (table name : Text) (all : JoinedRow) (binding : TableBinding) (columns : ColumnMap)
    (ctx : RowEvaluationContext)
    → HasDotlessColumns columns
    → value_of (dotted table name) (bind_columns all binding columns ctx)
      ≡ or_else
          (qualified_value (dotted table name) binding columns)
          (value_of (dotted table name) ctx)
unfolding bind_columns qualified_value
value_of-bind_columns table name all binding [] ctx h = refl
value_of-bind_columns table name all binding ((n, id) ∷ columns) ctx (h, hs) =
    let next = bind_column all binding n ctx in
    let rest = value_of-bind_columns table name all binding columns next hs in
    let one = value_of-bind_column table name n all binding ctx h in
    rest
    ∙ ap (or_else (qualified_value (dotted table name) binding columns)) one
    ∙ or_else-if (qualified_value (dotted table name) binding columns)
        (text_eq (dotted (to_ascii_lowercase binding.alias) n) (dotted table name))
        (column_value binding n) (value_of (dotted table name) ctx)

-- No table of a joined row has a column with a dot in its name.
abbrev pub AreDotless : JoinedRow → Type 0
AreDotless joined = All (λ binding. HasDotlessColumns binding.column_map) joined

bind_tables-append :
    (all xs ys : JoinedRow) (ctx : RowEvaluationContext)
    → bind_tables all (xs ++ ys) ctx ≡ bind_tables all ys (bind_tables all xs ctx)
unfolding bind_tables
bind_tables-append all [] ys ctx = refl
bind_tables-append all (x ∷ xs) ys ctx =
    bind_tables-append all xs ys (bind_columns all x x.column_map ctx)

-- For a dotted name it does not matter who else owns a column.
bind_tables_congr :
    (table name : Text) (all other xs : JoinedRow) (ctx ctx' : RowEvaluationContext)
    → AreDotless xs
    → value_of (dotted table name) ctx ≡ value_of (dotted table name) ctx'
    → value_of (dotted table name) (bind_tables all xs ctx)
      ≡ value_of (dotted table name) (bind_tables other xs ctx')
unfolding bind_tables
bind_tables_congr table name all other [] ctx ctx' h e = e
bind_tables_congr table name all other (x ∷ xs) ctx ctx' (h, hs) e =
    bind_tables_congr table name all other xs (bind_columns all x x.column_map ctx)
      (bind_columns other x x.column_map ctx') hs
      (value_of-bind_columns table name all x x.column_map ctx h
        ∙ ap (or_else (qualified_value (dotted table name) x x.column_map)) e
        ∙ sym (value_of-bind_columns table name other x x.column_map ctx' h))

-- With one more table, a dotted name has its value there, or the value that it had without.
pub value_of-build_row_context :
    (table name : Text) (partial : JoinedRow) (binding : TableBinding)
    → AreDotless partial
    → HasDotlessColumns binding.column_map
    → value_of (dotted table name) (build_row_context (partial ++ binding ∷ []))
      ≡ or_else
          (qualified_value (dotted table name) binding binding.column_map)
          (value_of (dotted table name) (build_row_context partial))
unfolding build_row_context bind_tables
value_of-build_row_context table name partial binding hs h =
    let all = partial ++ binding ∷ [] in
    ap (value_of (dotted table name)) (bind_tables-append all partial (binding ∷ []) [])
    ∙ value_of-bind_columns table name all binding binding.column_map (bind_tables all partial []) h
    ∙ ap (or_else (qualified_value (dotted table name) binding binding.column_map))
        (bind_tables_congr table name all partial partial [] [] hs refl)

text_eq-dotted : (table m n : Text) → text_eq (dotted table m) (dotted table n) ≡ text_eq m n
unfolding compare_list
text_eq-dotted [] m n = ground arith
text_eq-dotted (c ∷ table) m n = ground (arith, text_eq-dotted table m n)

text_eq-dotted_other :
    (a t m n : Text)
    → IsDotless a
    → IsDotless t
    → text_eq a t ≡ false
    → text_eq (dotted a m) (dotted t n) ≡ false
unfolding compare_list
text_eq-dotted_other [] [] m n h k e = absurd (ground arith)
text_eq-dotted_other [] (d ∷ t) m n h k e = ground arith
text_eq-dotted_other (c ∷ a) [] m n h k e = ground arith
text_eq-dotted_other (c ∷ a) (d ∷ t) m n h k e = ground (arith, text_eq-dotted_other a t m n)

-- Under the table's own alias, a column has its value in the table.
pub qualified_value-own :
    (name : Text) (binding : TableBinding) (columns : ColumnMap)
    → qualified_value (dotted (to_ascii_lowercase binding.alias) name) binding columns
      ≡ elim (column_named name columns) [ none ↦ none | some _ ↦ some (column_value binding name) ]
unfolding qualified_value
qualified_value-own name binding [] = refl
qualified_value-own name binding ((n, id) ∷ columns) =
    let alias = to_ascii_lowercase binding.alias in
    let rest = qualified_value-own name binding columns in
    elim (Bool-cases (text_eq n name)) [
      | inl same ↦
          let value : column_value binding n ≡ column_value binding name =
            ap (column_value binding) (text_eq→eq n name same) in
          elim (Option-cases (column_named name columns)) [
            | inl absent ↦ ground (arith, rest, text_eq-dotted alias n name, value)
            | inr (other, found) ↦ ground (arith, rest, text_eq-dotted alias n name, value)
          ]
      | inr different ↦ elim (Option-cases (column_named name columns)) [
        | inl absent ↦ ground (arith, rest, text_eq-dotted alias n name)
        | inr (other, found) ↦ ground (arith, rest, text_eq-dotted alias n name)
      ]
    ]

-- Under another alias, a table has no column.
pub qualified_value-other :
    (table name : Text) (binding : TableBinding) (columns : ColumnMap)
    → IsDotless (to_ascii_lowercase binding.alias)
    → IsDotless table
    → text_eq (to_ascii_lowercase binding.alias) table ≡ false
    → qualified_value (dotted table name) binding columns ≡ none
unfolding qualified_value
qualified_value-other table name binding [] h k e = refl
qualified_value-other table name binding ((n, id) ∷ columns) h k e = ground (
  arith,
  qualified_value-other table name binding columns h k e,
  text_eq-dotted_other (to_ascii_lowercase binding.alias) table n name h k e,
)
