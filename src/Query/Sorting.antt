-- ===== src/Query/Sorting.antt =====
-- ORDER BY over joined tables (src/backend/core/query.rs, `compare_rows`).
use Prim.Native.Nat.{Ordering}
use ant_db.Common.{◌≡◌, refl, none, List, [], ◌∷◌, All, arith, ap, ◌∙◌}
use ant_db.Row.Entry.{DataBaseDataEntry, Primitives, compare_entry}
use ant_db.Search.{value_of}
use ant_db.Query.Results.{
  SortBy, SearchResult, sort_key, sort_value, compare_rows, insert_result, sort_results,
}

-- A result without a value for a sort column, neither under its key nor under its name.
abbrev pub Lacks : SearchResult → SortBy → Type 0
Lacks result sort_by =
    (value_of (sort_key sort_by.sort_column sort_by.sort_alias) result.result_values ≡ none)
    × (value_of sort_by.sort_column result.result_values ≡ none)

abbrev pub LacksAll : List SortBy → SearchResult → Type 0
LacksAll sort_columns result = All (Lacks result) sort_columns

sort_value-Lacks :
    (sort_by : SortBy) (result : SearchResult)
    → Lacks result sort_by
    → sort_value sort_by result ≡ DataBaseDataEntry.null
unfolding sort_value
sort_value-Lacks sort_by result (h, k) = ground arith

module _ (p : Primitives) where
  compare_rows-Lacks :
      (sort_columns : List SortBy) (left right : SearchResult)
      → LacksAll sort_columns left
      → LacksAll sort_columns right
      → compare_rows p left right sort_columns ≡ Ordering.eq
  unfolding compare_rows compare_entry
  compare_rows-Lacks [] left right h k = refl
  compare_rows-Lacks (c ∷ cs) left right (h, hs) (k, ks) =
      rw (sort_value-Lacks c left h, sort_value-Lacks c right k)
        (compare_rows-Lacks cs left right hs ks)

  insert_result-Lacks :
      (sort_columns : List SortBy) (result : SearchResult) (results : List SearchResult)
      → LacksAll sort_columns result
      → All (LacksAll sort_columns) results
      → insert_result p sort_columns result results ≡ result ∷ results
  unfolding insert_result
  insert_result-Lacks cs result [] h hs = refl
  insert_result-Lacks cs result (r ∷ rs) h (k, ks) = rw (compare_rows-Lacks cs result r h k) refl

  -- A query over joined tables sorts by what it has projected only: where no result has a value under
  -- the name of any sort column, ORDER BY leaves the results in the order of the joins.
  pub sort_results-Lacks :
      (sort_columns : List SortBy) (results : List SearchResult)
      → All (LacksAll sort_columns) results
      → sort_results p sort_columns results ≡ results
  unfolding sort_results
  sort_results-Lacks cs [] h = refl
  sort_results-Lacks cs (r ∷ rs) (h, hs) =
      ap (insert_result p cs r) (sort_results-Lacks cs rs hs) ∙ insert_result-Lacks cs r rs h hs
