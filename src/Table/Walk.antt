-- ===== src/Table/Walk.antt =====
-- The walk over a table's rows against the rows themselves (src/backend/core/table.rs).
use ant_db.Common.{
  ◌≡◌, refl, ap, sym, ◌∙◌, inl, inr, some, List, [], ◌∷◌, ◌++◌, NatMap, values, arith, All,
  Option-cases,
}
use ant_db.Errors.{DataBaseErrors, Result, ok, err, Result-cases}
use ant_db.Txn.{Transaction}
use ant_db.Row.Entry.{RowData, RowId}
use ant_db.Row.{Row, get_versioned_row}
use ant_db.Pages.Defs.{PageId, Page, Sizes}
use ant_db.Pages.{Space}
use ant_db.Pages.Eviction.{content, IsSynced}
use ant_db.Pages.Rows.{ensure_page_resident-content}
use ant_db.Table.Scan.{
  page_set, visit_rows, visit_pages, for_each_visible_row, fold_rows, seen_rows, rows_of, rows_on,
  visible_rows,
}

-- Every page of the list is in memory or in the page file.
abbrev pub ArePresent : List PageId → Space → Type 0
ArePresent ids t = All (λ id. (page : Page) × (content id t ≡ some page)) ids

-- The two spaces hold the same rows, and the second is in step with its page file.
abbrev pub IsSameSpace : Space → Space → Type 0
IsSameSpace t u =
    IsSynced u × (u.row_locations ≡ t.row_locations) × ((id : PageId) → content id u ≡ content id t)

pub ArePresent-congr :
    (ids : List PageId) (t u : Space)
    → ((id : PageId) → content id u ≡ content id t)
    → ArePresent ids t
    → ArePresent ids u
ArePresent-congr [] t u same h = tt
ArePresent-congr (id ∷ ids) t u same ((page, e), h) =
    ((page, same id ∙ e), ArePresent-congr ids t u same h)

module _ (sizes : Sizes) (txn : Transaction) where
  pub rows_on_congr :
      (ids : List PageId) (t u : Space)
      → ((id : PageId) → content id u ≡ content id t)
      → rows_on sizes txn ids u ≡ rows_on sizes txn ids t
  rows_on_congr [] t u same = refl
  rows_on_congr (id ∷ ids) t u same = rw (same id, rows_on_congr ids t u same) refl

module _ {ℓ} {A : Type ℓ} (sizes : Sizes) (txn : Transaction)
    (f : RowId → RowData → A → Result A) where
  visit_rows-fold_rows :
      (rows : NatMap Row) (a : A)
      → visit_rows sizes txn f rows a ≡ fold_rows sizes txn f (seen_rows sizes txn rows) a
  unfolding visit_rows
  visit_rows-fold_rows [] a = refl
  visit_rows-fold_rows ((row_id, row) ∷ rows) a = elim (Option-cases (get_versioned_row txn row)) [
    | inl unseen ↦ rw (unseen, visit_rows, seen_rows) (visit_rows-fold_rows rows a)
    | inr (version, e) ↦ elim (Result-cases (f row_id version.row_data a)) [
      | inr (failure, g) ↦ rw (e, visit_rows, seen_rows, fold_rows, g) refl
      | inl (b, g) ↦ rw (e, visit_rows, seen_rows, fold_rows, g) (visit_rows-fold_rows rows b)
    ]
  ]

  fold_rows-append :
      (xs ys : List (RowId × RowData)) (a : A)
      → fold_rows sizes txn f (xs ++ ys) a
        ≡ elim (fold_rows sizes txn f xs a) [ err e ↦ err e | ok b ↦ fold_rows sizes txn f ys b ]
  fold_rows-append [] ys a = refl
  fold_rows-append ((row_id, row_data) ∷ xs) ys a = elim (Result-cases (f row_id row_data a)) [
    | inr (failure, g) ↦ rw (g, fold_rows) refl
    | inl (b, g) ↦ rw (g, fold_rows) (fold_rows-append xs ys b)
  ]

  -- What a walk gives when the closure on the visible rows gives a result.
  abbrev pub IsWalked : Space → Result (A × Space) → Result A → Type ℓ
  IsWalked t walked (err e) = walked ≡ err e
  IsWalked t walked (ok a) = (u : Space) × (walked ≡ ok (a, u)) × IsSameSpace t u

  IsWalked-trans :
      (t u : Space) (walked : Result (A × Space)) (r : Result A)
      → IsSameSpace t u
      → IsWalked u walked r
      → IsWalked t walked r
  IsWalked-trans t u walked (err e) w h = h
  IsWalked-trans t u walked (ok a) (synced, locs, same) (v, done, (synced', locs', same')) =
      (v, done, (synced', locs' ∙ locs, λ id. same' id ∙ same id))

  pub IsWalked-ok :
      (t : Space) (walked : Result (A × Space)) (r : Result A) (a : A)
      → r ≡ ok a
      → IsWalked t walked r
      → (u : Space) × (walked ≡ ok (a, u)) × IsSameSpace t u
  IsWalked-ok t walked (err failure) a e w = absurd (ground arith)
  IsWalked-ok t walked (ok b) a e (u, done, same) = (u, ground (arith, done), same)

  pub IsWalked-err :
      (t : Space) (walked : Result (A × Space)) (r : Result A) (failure : DataBaseErrors)
      → r ≡ err failure
      → IsWalked t walked r
      → walked ≡ err failure
  IsWalked-err t walked (err failure') failure e w = w ∙ ground (arith, e)
  IsWalked-err t walked (ok b) failure e w = absurd (ground arith)

  visit_pages-IsWalked :
      (ids : List PageId) (a : A) (t : Space)
      → IsSynced t
      → ArePresent ids t
      → IsWalked t
          (visit_pages sizes txn f ids a t)
          (fold_rows sizes txn f (rows_on sizes txn ids t) a)
  unfolding visit_pages
  visit_pages-IsWalked [] a t w h = (t, refl, (w, refl, λ id. refl))
  visit_pages-IsWalked (id ∷ ids) a t w ((page, e), h) =
      let (u, got, _, synced, locs, same) = ensure_page_resident-content sizes id t page w e in
      let seen = visit_rows-fold_rows page.rows a in
      let split = fold_rows-append (rows_of sizes txn (content id t)) (rows_on sizes txn ids t) a in
      let here = ap (λ c. fold_rows sizes txn f (rows_of sizes txn c) a) e in
      elim (Result-cases (fold_rows sizes txn f (seen_rows sizes txn page.rows) a)) [
        | inr (failure, g) ↦ rw (split, here ∙ g) (ground (arith, got, seen, g))
        | inl (b, g) ↦
            let visited : visit_pages sizes txn f (id ∷ ids) a t ≡ visit_pages sizes txn f ids b u =
              ground (arith, got, seen, g) in
            let later = visit_pages-IsWalked ids b u synced (ArePresent-congr ids t u same h) in
            rw (split, here ∙ g, visited)
              (IsWalked-trans t u (visit_pages sizes txn f ids b u)
                (fold_rows sizes txn f (rows_on sizes txn ids t) b) (synced, locs, same)
                (rw (sym (rows_on_congr sizes txn ids t u same)) later))
      ]

  -- If memory and page file are in step and every page that rows are located on exists, the walk over
  -- a table calls the closure on the rows that the transaction sees, in turn, until the first error;
  -- it changes no page and leaves memory and page file in step.
  pub for_each_visible_row-IsWalked :
      (a : A) (t : Space)
      → IsSynced t
      → ArePresent (page_set (values t.row_locations)) t
      → IsWalked t
          (for_each_visible_row sizes txn f a t)
          (fold_rows sizes txn f (visible_rows sizes txn t) a)
  unfolding for_each_visible_row
  for_each_visible_row-IsWalked a t w h =
      visit_pages-IsWalked (page_set (values t.row_locations)) a t w h
