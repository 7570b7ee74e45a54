-- ===== src/Query/Extension.antt =====
-- The rows that a join makes of the rows on its left (src/backend/core/query.rs, `apply_join`).
use ant_db.Common.{
  ℕ, ◌≤◌, ◌≡◌, refl, ◌⊎◌, inl, inr, Bool, true, false, none, some, List, [], ◌∷◌, ◌++◌, length,
  length-append, All, arith, Option-cases,
}
use ant_db.Errors.{Text, Result, ok, err, ◌>>=◌, Result-cases}
use ant_db.Row.Entry.{DataBaseDataEntry, Primitives, RowData, RowId}
use ant_db.Copy.{to_ascii_lowercase}
use ant_db.Planner.{ColumnMap, column_named}
use ant_db.Query.Rows.{
  JoinType, left_outer, inner, cross, JoinSpec, TableBinding, JoinedRow, append_binding,
  join_matches,
}
use ant_db.Query.Joins.{
  VisibleTable, Matches, push_match, candidate, cross_rows, scan_rows, probe_rows, keep_left,
  probe_join, use_index_probe, join_row, cross_row, join_each, apply_join,
}

-- A row with one more table at its end.
abbrev pub Extends : JoinedRow → JoinedRow → Type 0
Extends partial joined = (binding : TableBinding) × (joined ≡ partial ++ binding ∷ [])

-- The rows are the left rows in turn, each with at least as many extensions as said.
abbrev pub IsJoinOf : ℕ → List JoinedRow → List JoinedRow → Type 0
IsJoinOf least [] rows = rows ≡ []
IsJoinOf least (partial ∷ current) rows =
    (block : List JoinedRow) × (rest : List JoinedRow) × (rows ≡ block ++ rest)
    × (least ≤ length block)
    × All (Extends partial) block
    × IsJoinOf least current rest

-- What the loops over the right table have found for a left row.
abbrev AreFound : JoinedRow → Matches → Type 0
AreFound partial found = All (Extends partial) found.1 × (found.0 ≡ true → 1 ≤ length found.1)

All-append {ℓ κ} :
    {A : Type ℓ} (P : A → Type κ) (xs ys : List A) → All P xs → All P ys → All P (xs ++ ys)
All-append P [] ys h k = k
All-append P (x ∷ xs) ys (p, h) k = (p, All-append P xs ys h k)

-- A left join keeps every row on its left.
abbrev pub least : JoinType → ℕ
least left_outer = 1
least inner = 0
least cross = 0

least_bound : (t : JoinType) → least t ≤ 1
least_bound left_outer = omega arith
least_bound inner = omega arith
least_bound cross = omega arith

JoinType-cases : (t : JoinType) → (t ≡ left_outer) ⊎ ((t ≡ inner) ⊎ (t ≡ cross))
JoinType-cases left_outer = inl refl
JoinType-cases inner = inr (inl refl)
JoinType-cases cross = inr (inr refl)

module _ (p : Primitives) (right_map : ColumnMap) (table : VisibleTable) (join : JoinSpec) where
  push_match-AreFound :
      (partial : JoinedRow) (row_id : RowId) (row_data : RowData) (matches : Bool) (found : Matches)
      → AreFound partial found
      → AreFound partial
          (push_match (candidate p right_map table join partial row_id row_data) matches found)
  unfolding append_binding
  push_match-AreFound partial row_id row_data true found (h, k) = (((_, refl), h), λ _. omega arith)
  push_match-AreFound partial row_id row_data false found w = w

  scan_rows-AreFound :
      (partial : JoinedRow) (rows : List (RowId × RowData)) (found : Matches)
      → scan_rows p right_map table join partial rows ≡ ok found
      → AreFound partial found
  unfolding scan_rows
  scan_rows-AreFound partial [] found h = elim (Result-cases table.walk_end) [
    | inr (failure, e) ↦ absurd (ground arith)
    | inl (_, e) ↦ let same : found ≡ (false, []) = ground arith in rw (same) (tt, λ t. absurd (cc))
  ]
  scan_rows-AreFound partial ((row_id, row_data) ∷ rows) found h =
      let joined = candidate p right_map table join partial row_id row_data in
      elim (Result-cases (join_matches p joined join)) [
        | inr (failure, e) ↦ absurd (ground arith)
        | inl (matches, e) ↦ elim (Result-cases (scan_rows p right_map table join partial rows)) [
          | inr (failure, f) ↦ absurd (ground arith)
          | inl (rest, f) ↦
              let same : found ≡ push_match joined matches rest = ground arith in
              rw (same) (
                push_match-AreFound partial row_id row_data matches rest
                  (scan_rows-AreFound partial rows rest f))
        ]
      ]

  probe_rows-AreFound :
      (partial : JoinedRow) (row_ids : List RowId) (found : Matches)
      → probe_rows p right_map table join partial row_ids ≡ ok found
      → AreFound partial found
  unfolding probe_rows
  probe_rows-AreFound partial [] found h =
      let same : found ≡ (false, []) = ground arith in rw (same) (tt, λ t. absurd (cc))
  probe_rows-AreFound partial (row_id ∷ row_ids) found h =
      elim (Result-cases (table.lookup_visible_row_data row_id)) [
        | inr (failure, e) ↦ absurd (ground arith)
        | inl (none, e) ↦ probe_rows-AreFound partial row_ids found (ground arith)
        | inl (some row_data, e) ↦
            let joined = candidate p right_map table join partial row_id row_data in
            elim (Result-cases (join_matches p joined join)) [
              | inr (failure, m) ↦ absurd (ground arith)
              | inl (matches, m) ↦
                  elim (Result-cases (probe_rows p right_map table join partial row_ids)) [
                    | inr (failure, f) ↦ absurd (ground arith)
                    | inl (rest, f) ↦
                        let same : found ≡ push_match joined matches rest = ground arith in
                        rw (same) (
                          push_match-AreFound partial row_id row_data matches rest
                            (probe_rows-AreFound partial row_ids rest f))
                  ]
            ]
      ]

  keep_left-Extends :
      (partial : JoinedRow) (found : Matches)
      → AreFound partial found
      → All (Extends partial) (keep_left p right_map table join partial found)
        × (least join.join_type ≤ length (keep_left p right_map table join partial found))
  unfolding keep_left append_binding
  keep_left-Extends partial (true, rows) (h, k) =
      (h, omega (arith, k refl, least_bound join.join_type))
  keep_left-Extends partial (false, rows) (h, k) = elim (JoinType-cases join.join_type) [
    | inl outer ↦
        rw (outer, keep_left)
          (
            All-append (Extends partial) rows _ h ((_, refl), tt),
            omega (arith, length-append rows (candidate p right_map table join partial 0 [] ∷ [])),
          )
    | inr (inl e) ↦ rw (e, keep_left) (h, omega arith)
    | inr (inr e) ↦ rw (e, keep_left) (h, omega arith)
  ]

  probe_join-AreFound :
      (partial : JoinedRow) (column_name : Text) (value : DataBaseDataEntry) (found : Matches)
      → probe_join p right_map table join partial column_name value ≡ ok found
      → AreFound partial found
  unfolding probe_join
  probe_join-AreFound partial column_name value found h =
      elim (Option-cases (column_named (to_ascii_lowercase column_name) right_map)) [
        | inl absent ↦ absurd (ground arith)
        | inr (column_id, e) ↦
            elim (Result-cases (table.lookup_rows_by_column_value column_id value)) [
              | inr (failure, f) ↦ absurd (ground arith)
              | inl (row_ids, f) ↦ probe_rows-AreFound partial row_ids found (ground arith)
            ]
      ]

  kept-Extends :
      (partial : JoinedRow) (found : Result Matches) (rows : List JoinedRow)
      → ((m : Matches) → found ≡ ok m → AreFound partial m)
      → (found >>= λ m. ok (keep_left p right_map table join partial m)) ≡ ok rows
      → All (Extends partial) rows × (least join.join_type ≤ length rows)
  kept-Extends partial (err failure) rows each h = absurd (ground arith)
  kept-Extends partial (ok m) rows each h =
      let same : rows ≡ keep_left p right_map table join partial m = ground arith in
      rw (same) (keep_left-Extends partial m (each m refl))

  join_row-Extends :
      (partial : JoinedRow) (rows : List JoinedRow)
      → join_row p right_map table join partial ≡ ok rows
      → All (Extends partial) rows × (least join.join_type ≤ length rows)
  unfolding join_row
  join_row-Extends partial rows h =
      elim (Option-cases (use_index_probe p right_map table join partial)) [
        | inl none_probed ↦
            kept-Extends partial (scan_rows p right_map table join partial table.walk) rows
              (scan_rows-AreFound partial table.walk) (ground arith)
        | inr ((column_name, value), e) ↦
            kept-Extends partial (probe_join p right_map table join partial column_name value) rows
              (probe_join-AreFound partial column_name value) (ground arith)
      ]

  cross_rows-Extends :
      (partial : JoinedRow) (rows : List (RowId × RowData))
      → All (Extends partial) (cross_rows p right_map table join partial rows)
  unfolding cross_rows append_binding
  cross_rows-Extends partial [] = tt
  cross_rows-Extends partial ((row_id, row_data) ∷ rows) =
      ((_, refl), cross_rows-Extends partial rows)

  cross_row-Extends :
      join.join_type ≡ cross
      → (partial : JoinedRow) (rows : List JoinedRow)
      → cross_row p right_map table join partial ≡ ok rows
      → All (Extends partial) rows × (least join.join_type ≤ length rows)
  unfolding cross_row
  cross_row-Extends e partial rows h = elim (Result-cases table.walk_end) [
    | inr (failure, f) ↦ absurd (ground arith)
    | inl (_, f) ↦
        let same : rows ≡ cross_rows p right_map table join partial table.walk = ground arith in
        rw (same) (cross_rows-Extends partial table.walk, ground (arith, e))
  ]

  join_each-IsJoinOf :
      (f : JoinedRow → Result (List JoinedRow)) (n : ℕ) (current rows : List JoinedRow)
      → ((partial : JoinedRow) (next : List JoinedRow)
          → f partial ≡ ok next
          → All (Extends partial) next × (n ≤ length next))
      → join_each p right_map table join f current ≡ ok rows
      → IsJoinOf n current rows
  unfolding join_each
  join_each-IsJoinOf f n [] rows each h = ground arith
  join_each-IsJoinOf f n (partial ∷ current) rows each h = elim (Result-cases (f partial)) [
    | inr (failure, e) ↦ absurd (ground arith)
    | inl (next, e) ↦ elim (Result-cases (join_each p right_map table join f current)) [
      | inr (failure, m) ↦ absurd (ground arith)
      | inl (more, m) ↦
          let (extend, enough) = each partial next e in
          (next, more, ground arith, enough, extend, join_each-IsJoinOf f n current more each m)
    ]
  ]

  -- A join that succeeds makes of every row on its left, in turn, rows that extend it by one table and
  -- change nothing of it; a left join makes at least one of each.
  pub apply_join-IsJoinOf :
      (current rows : List JoinedRow)
      → apply_join p right_map table join current ≡ ok rows
      → IsJoinOf (least join.join_type) current rows
  unfolding apply_join
  apply_join-IsJoinOf current rows h = elim (JoinType-cases join.join_type) [
    | inl e ↦
        join_each-IsJoinOf (join_row p right_map table join) (least join.join_type) current rows
          join_row-Extends (ground arith)
    | inr (inl e) ↦
        join_each-IsJoinOf (join_row p right_map table join) (least join.join_type) current rows
          join_row-Extends (ground arith)
    | inr (inr e) ↦
        join_each-IsJoinOf (cross_row p right_map table join) (least join.join_type) current rows
          (cross_row-Extends e) (ground arith)
  ]
